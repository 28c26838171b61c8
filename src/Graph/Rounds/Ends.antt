-- ===== src/Graph/Rounds/Ends.antt =====
-- src/FlowAnalyzer.cpp: the loop of `ContextGraph::construct` ends.
use hippocrates.Base.{
  ℕ, zero, suc, ◌+◌, ◌≤◌, ◌<◌, ◌≡◌, refl, sym, subst, ◌⊎◌, inl, inr, Option, some, List, [], ◌∷◌,
  ◌++◌, length, length-append, ok, aborted, arith, Bool-cases, Outcome-cases,
}
use hippocrates.Ir.{Module, Inst}
use hippocrates.PmDesc.{Anders}
use hippocrates.Graph.{Contexts, Window}
use hippocrates.Graph.Stores.{change-same}
use hippocrates.Graph.Frames.{Framed, Later-same}
use hippocrates.Graph.Successors.{Graph, add_node}
use hippocrates.Graph.Construct.{
  link_all, add_leaf, end_at, settle_at, is_terminator, visit, construct, rooted,
}
use hippocrates.Graph.Construct.Rules.{Visited, visit-Visited}
use hippocrates.Graph.Construct.Leaves.{Seated}
use hippocrates.Graph.Construct.Wiring.{rooted-Kept}
use hippocrates.Graph.Construct.Checked.{Held, visit-Held}
use hippocrates.Graph.Rounds.{left_in, rounds_left, rounds}
use hippocrates.Graph.Rounds.Keyed.{Keyed, Filed}
use hippocrates.Graph.Rounds.Drops.{GoesOn, Sound, old_left-le}
use hippocrates.Graph.Rounds.Round.{
  left_in-same, link_all-Keyed, expanded-drops, expanded-Keyed, change-true,
}

module _ (anders : Anders) (m : Module) (succs : Inst → Option (List ℕ)) (end : Window) where
  Held-Sound : (n : ℕ) (ns : List ℕ) (g : Graph) → Held anders m succs end (n ∷ ns) g → Sound g
  Held-Sound n ns g (kept, seated, leafy) =
      let in_n = kept.0 n (inl refl) in (omega (arith, in_n), seated.2, kept.1.2)

  end_at-GoesOn : (n : ℕ) (g : Graph) → GoesOn g (add_leaf n (end_at n end g))
  end_at-GoesOn n g = (
    Later-same g.contexts,
    λ key x e. e,
    λ x h e. change-true n x g.constructed e,
    λ x h.
        change-same Window.ctx n x (record (Graph.block g n) { trace_inst = end.trace_inst })
          g.block refl,
  )

  end_at-Keyed : (n : ℕ) (g : Graph) → Keyed m g → Keyed m (add_leaf n (end_at n end g))
  end_at-Keyed n g keyed x h =
      let w = record (Graph.block g n) { trace_inst = end.trace_inst } in
      let same = change-same (λ (z : Window). (z.ctx, z.first)) n x w g.block refl in
      subst
        (λ (key : ℕ × ℕ).
          (x ≡ 0)
          ⊎ Filed m (record { ctx = key.0; first = key.1; last = 0; trace_inst = 0 }) g.cache x)
        (sym same) (keyed x h)

  settle_at-Keyed : (n : ℕ) (g : Graph) → Keyed m g → Keyed m (settle_at n g)
  settle_at-Keyed n g keyed = elim (Bool-cases (is_terminator g n)) [
    | inl e ↦ rw (e) keyed
    | inr e ↦ rw (e) keyed
  ]

  abbrev Fewer : List ℕ → Graph → List ℕ × Graph → Type 0
  Fewer ns g r = (length r.0 + left_in m succs r.1 ≤ left_in m succs g) × Keyed m r.1

  visit-Fewer :
      (n : ℕ) (ns : List ℕ) (g : Graph) (r : List ℕ × Graph)
      → Visited anders m succs end n g r
      → Held anders m succs end (n ∷ ns) g
      → Keyed m g
      → Fewer ns g r
  visit-Fewer n ns g r visited held keyed =
      let sound = Held-Sound n ns g held in
      let in_n = held.0.0 n (inl refl) in
      elim visited [
        | inl (e, same) ↦ subst (Fewer ns g) same (omega arith, keyed)
        | inr (e, inl (f, same)) ↦
            let ended = add_leaf n (end_at n end g) in
            let less = old_left-le m succs g ended sound (end_at-GoesOn n g) in
            let all = left_in-same m succs g ended refl in
            subst (Fewer ns g) same (omega (arith, less, all), end_at-Keyed n g keyed)
        | inr (e, inr (last, q, s, at_last, behind, made, same)) ↦
            let framed = held.1.1 in
            let less =
              expanded-drops anders m succs n g last q s in_n e sound framed keyed at_last behind
                made in
            subst (Fewer ns g) same (
              omega (arith, less),
              settle_at-Keyed n (link_all n s.0 s.1) (
                  link_all-Keyed m succs n s.0 s.1 (
                    expanded-Keyed anders m succs n g last q s in_n e sound framed keyed at_last
                      behind made)),
            )
      ]

  construct-ends :
      (fuel : ℕ) (frontier : List ℕ) (g : Graph)
      → rounds_left m succs frontier g < fuel
      → Held anders m succs end frontier g
      → Keyed m g
      → (construct anders m succs end fuel frontier g ≡ aborted)
        ⊎ ((done : Graph) × (construct anders m succs end fuel frontier g ≡ ok (some done)))
  unfolding construct
  construct-ends zero frontier g enough held keyed = absurd (omega (arith, enough))
  construct-ends (suc k) [] g enough held keyed = inr (g, refl)
  construct-ends (suc k) (n ∷ ns) g enough held keyed =
      elim (Outcome-cases (visit anders m succs end n g)) [
        | inl stop ↦ inl (rw (construct, stop) refl)
        | inr (r, at_n) ↦
            let visited = visit-Visited anders m succs end n g r at_n in
            let (fewer, now) = visit-Fewer n ns g r visited held keyed in
            let len = length-append ns r.0 in
            rw (construct, at_n)
              (construct-ends k (ns ++ r.0) r.1 (omega (arith, enough, fewer, len))
                (visit-Held anders m succs end n ns g r visited held) now)
      ]

  -- The loop ends. With the fuel that is counted for it from the block of the first event, it stops at
  -- an assertion or leaves a graph, where the contexts of the two blocks have been made and the callers
  -- of contexts too.
  pub construct_ends :
      (cs : Contexts) (start : Window)
      → Framed cs
      → start.ctx < cs.count
      → end.ctx < cs.count
      → (construct anders m succs end (rounds m succs cs start) (0 ∷ []) (rooted cs start)
          ≡ aborted)
        ⊎ ((g : Graph) × (construct anders m succs end
                (rounds m succs cs start)
                (0 ∷ [])
                (rooted cs start)
              ≡ ok (some g)))
  unfolding rounds rooted add_node
  construct_ends cs start framed in_start in_end =
      let seated : Seated end (rooted cs start) =
        (in_end, framed, λ x h. (let e : x ≡ 0 = omega (arith, h) in rw (e) in_start)) in
      construct-ends (rounds m succs cs start) (0 ∷ []) (rooted cs start) (omega arith)
        (rooted-Kept anders m succs end cs start, seated, λ n h. absurd h)
        (λ n h. inl (omega (arith, h)))
