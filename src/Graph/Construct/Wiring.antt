-- ===== src/Graph/Construct/Wiring.antt =====
-- src/FlowAnalyzer.cpp: `ContextGraph::construct` keeps parents and children in agreement.
use hippocrates.Base.{
  ℕ, ◌≤◌, ◌<◌, ◌≡◌, refl, sym, ◌∙◌, subst, inl, inr, Option, some, List, [], ◌∷◌, ◌++◌, append-Any,
  ok, arith, Bool-cases,
}
use hippocrates.Ir.{Module, Inst}
use hippocrates.PmDesc.{Anders}
use hippocrates.Flow.Walk.{Has}
use hippocrates.Graph.{Contexts, Window}
use hippocrates.Graph.Successors.{begin_at, Graph, add_node, node_at, nodes_for}
use hippocrates.Graph.Construct.Rules.{nodes_for-rule, Visited, construct-keeps}
use hippocrates.Graph.Construct.{
  is_terminator, rooted, not_constructed, construct, settle_at, link_all,
}
use hippocrates.Graph.Construct.Links.{
  Below, Wired, link_all-Wired, link_all-size, remember-Wired, Has-new,
}

-- What the loop over the successors keeps, and that the nodes it gives are of the graph.
abbrev Placed : List (ℕ × ℕ) → Graph → List ℕ × Graph → Type 0
Placed ps g r = Wired g → (g.size ≤ Graph.size r.1) × Below (Graph.size r.1) r.0 × Wired r.1

settle_at-Wired : (n : ℕ) (g : Graph) → Wired g → Wired (settle_at n g)
settle_at-Wired n g p = elim (Bool-cases (is_terminator g n)) [
  | inl e ↦ rw (e) p
  | inr e ↦ rw (e) p
]

settle_at-size : (n : ℕ) (g : Graph) → Graph.size (settle_at n g) ≡ g.size
settle_at-size n g = elim (Bool-cases (is_terminator g n)) [
  | inl e ↦ rw (e) refl
  | inr e ↦ rw (e) refl
]

pub not_constructed-Has :
    (g : Graph) (cs : List ℕ) (x : ℕ) → Has x (not_constructed g cs) → Has x cs
unfolding not_constructed
not_constructed-Has g [] x h = h
not_constructed-Has g (c ∷ cs) x h = elim (Bool-cases (g.constructed c)) [
  | inl e ↦ inr (not_constructed-Has g cs x (rw (not_constructed, e) at h))
  | inr e ↦ elim (rw (not_constructed, e) at h) [
    | inl here ↦ inl here
    | inr there ↦ inr (not_constructed-Has g cs x there)
  ]
]

pub Below-append :
    (size : ℕ) (xs ys : List ℕ) → Below size xs → Below size ys → Below size (xs ++ ys)
Below-append size xs ys h k x there = elim (append-Any (λ z. z ≡ x) xs ys there) [
  | inl left ↦ h x left
  | inr right ↦ k x right
]

module _ (anders : Anders) (m : Module) (succs : Inst → Option (List ℕ)) where
  nodes_for-Placed :
      (ps : List (ℕ × ℕ)) (g : Graph) (r : List ℕ × Graph)
      → nodes_for anders m succs ps g ≡ ok r
      → Placed ps g r
  unfolding add_node
  nodes_for-Placed =
      nodes_for-rule anders m succs Placed (λ g p. (omega arith, λ x h. absurd h, p))
        (λ k ps g n r e placed p.
          let (grown, inside, q) = placed p in
          let in_n : n < g.size = p.2 k n e in
          (
            grown,
            λ x h. elim h [
              | inl same ↦ omega (arith, same, in_n, grown)
              | inr there ↦ inside x there
            ],
            q,
          ))
        (λ k ps g w r e made placed p.
          let (grown, inside, q) = placed (remember-Wired k w g p) in
          (
            omega (arith, grown),
            λ x h. elim h [ inl same ↦ omega (arith, same, grown) | inr there ↦ inside x there ],
            q,
          ))

  module _ (end : Window) where
    abbrev pub Kept : List ℕ → Graph → Type 0
    Kept frontier g = Below g.size frontier × Wired g

    pub visit-Kept :
        (n : ℕ) (ns : List ℕ) (g : Graph) (r : List ℕ × Graph)
        → Visited anders m succs end n g r
        → Kept (n ∷ ns) g
        → Kept (ns ++ r.0) r.1
    visit-Kept n ns g r visited (inside, p) =
        let rest : Below g.size (ns ++ []) =
          Below-append g.size ns [] (λ x h. inside x (inr h)) (λ x h. absurd h) in
        elim visited [
          | inl (e, same) ↦ subst (λ (q : List ℕ × Graph). Kept (ns ++ q.0) q.1) same (rest, p)
          | inr (e, inl (f, same)) ↦
              subst (λ (q : List ℕ × Graph). Kept (ns ++ q.0) q.1) same (rest, p)
          | inr (e, inr (last, q, s, at_last, behind, made, same)) ↦
              let (grown, below, wired) = nodes_for-Placed q.0 (begin_at n q.1 g) s made p in
              let linked = link_all n s.0 s.1 in
              let in_n : n < Graph.size s.1 =
                let h = inside n (inl refl) in omega (arith, h, grown) in
              let sized : Graph.size (settle_at n linked) ≡ Graph.size s.1 =
                settle_at-size n linked ∙ link_all-size n s.0 s.1 in
              subst (λ (q : List ℕ × Graph). Kept (ns ++ q.0) q.1) same
                (
                  subst (λ k. Below k (ns ++ not_constructed linked s.0)) (sym sized)
                      (Below-append (Graph.size s.1) ns (not_constructed linked s.0)
                        (λ x h. let old = inside x (inr h) in omega (arith, old, grown))
                        (λ x h. below x (not_constructed-Has linked s.0 x h))),
                  settle_at-Wired n linked (link_all-Wired n s.0 s.1 in_n below wired),
                )
        ]

    pub rooted-Kept : (cs : Contexts) (start : Window) → Kept (0 ∷ []) (rooted cs start)
    unfolding rooted add_node node_at
    rooted-Kept cs start =
        let links : Wired (rooted cs start) = (
          λ a b. (
            λ h. absurd (Has-new 0 (λ x. []) a b h).1,
            λ h. absurd (Has-new 0 (λ x. []) b a h).1,
          ),
          λ a b h. absurd (Has-new 0 (λ x. []) a b h).1,
          λ k n e. ground (arith, e),
        ) in
        (λ x h. elim h [ inl same ↦ omega (arith, same) | inr never ↦ absurd never ], links)

    -- In the graph that the loop leaves, from the block of the first event on, a node is a child of
    -- another exactly if that is one of its parents, and both are nodes of the graph.
    pub construct-Wired :
        (fuel : ℕ) (cs : Contexts) (start : Window) (g : Graph)
        → construct anders m succs end fuel (0 ∷ []) (rooted cs start) ≡ ok (some g)
        → Wired g
    construct-Wired fuel cs start g ran =
        let kept =
          construct-keeps anders m succs end Kept visit-Kept fuel (0 ∷ []) (rooted cs start) g
            (rooted-Kept cs start) ran in
        kept.1
