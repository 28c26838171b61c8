-- ===== src/Graph/Construct/Rules.antt =====
-- src/FlowAnalyzer.cpp: `ContextGraph::construct`, rules for its loops.
use hippocrates.Base.{
  ℕ, zero, suc, ◌≡◌, subst, ◌⊎◌, inl, inr, true, false, Option, none, some, List, [], ◌∷◌, ◌++◌, ok,
  ◌>>=◌, arith, Bool-cases, Option-cases, ok_injective, some_injective, went_on,
}
use hippocrates.Ir.{Module, Inst}
use hippocrates.PmDesc.{Anders}
use hippocrates.Generator.Remove.{inst_at}
use hippocrates.Graph.{Contexts, Window, create_window, same_window}
use hippocrates.Graph.Successors.{
  Graph, node_at, nodes_for, construct_successors, points_behind, remember, begin_at,
}
use hippocrates.Graph.Construct.{
  visit, construct, link_all, not_constructed, settle_at, add_leaf, end_at,
}

module _ (anders : Anders) (m : Module) (succs : Inst → Option (List ℕ)) where
  -- What holds with no pair left, and of one more pair whether its node is there or made.
  module _ (P : List (ℕ × ℕ) → Graph → List ℕ × Graph → Type 0) (nil : (g : Graph) → P [] g ([], g))
      (hit : (k : ℕ × ℕ) (ps : List (ℕ × ℕ)) (g : Graph) (n : ℕ) (r : List ℕ × Graph)
        → node_at k g.cache ≡ some n
        → P ps g r
        → P (k ∷ ps) g (n ∷ r.0, r.1))
      (miss : (k : ℕ × ℕ) (ps : List (ℕ × ℕ)) (g : Graph) (w : Window) (r : List ℕ × Graph)
        → node_at k g.cache ≡ none
        → create_window m k.0 k.1 k.1 ≡ ok w
        → P ps (remember k w g) r
        → P (k ∷ ps) g (g.size ∷ r.0, r.1)) where
    pub nodes_for-rule :
        (ps : List (ℕ × ℕ)) (g : Graph) (r : List ℕ × Graph)
        → nodes_for anders m succs ps g ≡ ok r
        → P ps g r
    unfolding nodes_for
    nodes_for-rule [] g r ran = subst (P [] g) (ok_injective ran) (nil g)
    nodes_for-rule ((c, p) ∷ ps) g r ran = elim (Option-cases (node_at (c, p) g.cache)) [
      | inr (n, e) ↦
          let (s, more, end) =
            went_on (nodes_for anders m succs ps g) (λ (s : List ℕ × Graph). ok (n ∷ s.0, s.1)) r
              (rw (nodes_for, e) at ran) in
          subst (P ((c, p) ∷ ps) g) (ok_injective end)
            (hit (c, p) ps g n s e (nodes_for-rule ps g s more))
      | inl e ↦
          let (w, made, ran1) =
            went_on (create_window m c p p)
              (λ w. nodes_for anders m succs ps (remember (c, p) w g) >>= λ (s : List ℕ × Graph).
                ok (g.size ∷ s.0, s.1))
              r (rw (nodes_for, e) at ran) in
          let (s, more, end) =
            went_on (nodes_for anders m succs ps (remember (c, p) w g))
              (λ (s : List ℕ × Graph). ok (g.size ∷ s.0, s.1)) r ran1 in
          subst (P ((c, p) ∷ ps) g) (ok_injective end)
            (miss (c, p) ps g w s e made (nodes_for-rule ps (remember (c, p) w g) s more))
    ]

  module _ (end : Window) where
    -- What a round does: nothing at a constructed node, a leaf at the end, else the successors.
    abbrev pub Expanded : ℕ → Graph → List ℕ × Graph → Type 0
    Expanded n g r =
        (last : Inst) × (q : List (ℕ × ℕ) × Contexts) × (s : List ℕ × Graph) × (inst_at m
            (Window.last (g.block n))
          ≡ some last)
        × (points_behind anders m succs (Window.ctx (g.block n)) last g.contexts ≡ ok q)
        × (nodes_for anders m succs q.0 (begin_at n q.1 g) ≡ ok s)
        × ((not_constructed (link_all n s.0 s.1) s.0, settle_at n (link_all n s.0 s.1)) ≡ r)

    abbrev pub Visited : ℕ → Graph → List ℕ × Graph → Type 0
    Visited n g r =
        ((g.constructed n ≡ true) × (([], g) ≡ r))
        ⊎ ((g.constructed n ≡ false)
            × (((same_window g.contexts (g.block n) end ≡ true)
                  × (([], add_leaf n (end_at n end g)) ≡ r))
                ⊎ Expanded n g r))

    construct_successors-Expanded :
        (n : ℕ) (g : Graph) (r s : List ℕ × Graph)
        → construct_successors anders m succs n g ≡ ok s
        → ((not_constructed (link_all n s.0 s.1) s.0, settle_at n (link_all n s.0 s.1)) ≡ r)
        → Expanded n g r
    unfolding construct_successors
    construct_successors-Expanded n g r s ran same =
        elim (Option-cases (inst_at m (Window.last (g.block n)))) [
          | inl e ↦ absurd (ground (arith, rw (construct_successors, e) at ran))
          | inr (last, e) ↦
              let (q, behind, more) =
                went_on (points_behind anders m succs (Window.ctx (g.block n)) last g.contexts)
                  (λ (q : List (ℕ × ℕ) × Contexts). nodes_for anders m succs q.0 (begin_at n q.1 g))
                  s (rw (construct_successors, e) at ran) in
              (last, q, s, e, behind, more, same)
        ]

    pub visit-Visited :
        (n : ℕ) (g : Graph) (r : List ℕ × Graph)
        → visit anders m succs end n g ≡ ok r
        → Visited n g r
    unfolding visit
    visit-Visited n g r ran = elim (Bool-cases (g.constructed n)) [
      | inl e ↦ inl (e, ok_injective (rw (visit, e) at ran))
      | inr e ↦ elim (Bool-cases (same_window g.contexts (g.block n) end)) [
        | inl f ↦ inr (e, inl (f, ok_injective (rw (visit, e, f) at ran)))
        | inr f ↦
            let (s, more, same) =
              went_on (construct_successors anders m succs n g)
                (λ (s : List ℕ × Graph).
                  ok (not_constructed (link_all n s.0 s.1) s.0, settle_at n (link_all n s.0 s.1)))
                r (rw (visit, e, f) at ran) in
            inr (e, inr (construct_successors-Expanded n g r s more (ok_injective same)))
      ]
    ]

    -- The loop keeps what its rounds keep.
    module _ (P : List ℕ → Graph → Type 0)
        (step : (n : ℕ) (ns : List ℕ) (g : Graph) (r : List ℕ × Graph)
          → Visited n g r
          → P (n ∷ ns) g
          → P (ns ++ r.0) r.1) where
      pub construct-keeps :
          (fuel : ℕ) (frontier : List ℕ) (g done : Graph)
          → P frontier g
          → construct anders m succs end fuel frontier g ≡ ok (some done)
          → P [] done
      unfolding construct
      construct-keeps zero frontier g done p ran = ground (arith, ran)
      construct-keeps (suc k) [] g done p ran = subst (P []) (some_injective (ok_injective ran)) p
      construct-keeps (suc k) (n ∷ ns) g done p ran =
          let (r, at_n, more) =
            went_on (visit anders m succs end n g)
              (λ (r : List ℕ × Graph). construct anders m succs end k (ns ++ r.0) r.1) (some done)
              ran in
          construct-keeps k (ns ++ r.0) r.1 done (step n ns g r (visit-Visited n g r at_n) p) more
