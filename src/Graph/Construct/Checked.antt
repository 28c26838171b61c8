-- ===== src/Graph/Construct/Checked.antt =====
-- src/FlowAnalyzer.cpp: the last check of the constructor of `ContextGraph`.
use hippocrates.Base.{
  ltb→lt, ℕ, ◌≤◌, ◌<◌, ◌≡◌, refl, sym, ap, ◌∙◌, subst, inl, inr, Bool, true, false, Option, some,
  List, [], ◌∷◌, ◌++◌, ltb, ◌==◌, ==_iff, All, ok, arith, Bool-cases,
}
use hippocrates.Ir.{Module, Inst}
use hippocrates.PmDesc.{Anders}
use hippocrates.Flow.Walk.{Has}
use hippocrates.Graph.{Contexts, change, Window}
use hippocrates.Graph.Stores.{change-here, change-other}
use hippocrates.Graph.Moves.{points_after-Fits}
use hippocrates.Graph.Frames.{Later, Framed, Leads-Later}
use hippocrates.Graph.Successors.{Graph, nodes_for, begin_at, points_behind, add_node}
use hippocrates.Graph.Construct.{link_all, construct, rooted, leaves_are_ends}
use hippocrates.Graph.Construct.Rules.{Visited, construct-keeps}
use hippocrates.Graph.Construct.Links.{link_all-size}
use hippocrates.Graph.Construct.Wiring.{Kept, visit-Kept, rooted-Kept}
use hippocrates.Graph.Construct.Leaves.{
  Seated, Leaf, Leafy, kept-Leaf, link_all-others, link_all-beside, end_at-Seated, end_at-Leafy,
  settle_at-Leafy, settle_at-Seated,
}
use hippocrates.Graph.Construct.Extends.{Extends, nodes_for-Extends}

module _ (anders : Anders) (m : Module) (succs : Inst → Option (List ℕ)) (end : Window) where
  -- A node that gets its successors: what is linked afterwards.
  module _ (n : ℕ) (g : Graph) (last : Inst) (q : List (ℕ × ℕ) × Contexts) (s : List ℕ × Graph)
      (in_n : n < g.size) (fresh : g.constructed n ≡ false) (seated : Seated end g)
      (behind : points_behind anders m succs (Window.ctx (g.block n)) last g.contexts ≡ ok q)
      (made : nodes_for anders m succs q.0 (begin_at n q.1 g) ≡ ok s) where
    abbrev linked : Graph
    linked = link_all n s.0 s.1

    later : Later g.contexts q.1 × Framed q.1 × All (λ (pt : ℕ × ℕ). pt.0 < Contexts.count q.1) q.0
    later =
        let fits =
          points_after-Fits anders m succs (Window.ctx (g.block n)) last last.op g.contexts q
            behind in
        Leads-Later (Window.ctx (g.block n)) last.id g.contexts q (seated.2 n in_n) seated.1 fits.0

    extends : Extends (begin_at n q.1 g) s.1
    extends = nodes_for-Extends anders m succs q.0 (begin_at n q.1 g) s made later.2

    pub linked-contexts : Graph.contexts linked ≡ q.1
    linked-contexts =
        ap (λ (t : Contexts × ((ℕ → Window) × ((ℕ → Bool) × List ℕ))). t.0)
          (link_all-beside n s.0 s.1)
        ∙ extends.0

    linked-block : (x : ℕ) → Graph.block linked x ≡ Graph.block s.1 x
    linked-block x =
        ap (λ (t : Contexts × ((ℕ → Window) × ((ℕ → Bool) × List ℕ))). t.1.0 x)
          (link_all-beside n s.0 s.1)

    linked-constructed : (x : ℕ) → Graph.constructed linked x ≡ Graph.constructed s.1 x
    linked-constructed x =
        ap (λ (t : Contexts × ((ℕ → Window) × ((ℕ → Bool) × List ℕ))). t.1.1.0 x)
          (link_all-beside n s.0 s.1)

    linked-leaves : Graph.leaves linked ≡ g.leaves
    linked-leaves =
        ap (λ (t : Contexts × ((ℕ → Window) × ((ℕ → Bool) × List ℕ))). t.1.1.1)
          (link_all-beside n s.0 s.1)
        ∙ extends.1

    linked-grown : g.size ≤ Graph.size linked
    linked-grown = let e = link_all-size n s.0 s.1 in let h = extends.2 in omega (arith, e, h)

    -- An old node has its block, and is as much constructed as before, but `n` is now.
    old_block : (x : ℕ) → x < g.size → Graph.block linked x ≡ g.block x
    old_block x h = linked-block x ∙ ap (λ (t : Window × (List ℕ × Bool)). t.0) (extends.3 x h)

    old_constructed :
        (x : ℕ) → x < g.size → Graph.constructed linked x ≡ change n true g.constructed x
    old_constructed x h =
        linked-constructed x ∙ ap (λ (t : Window × (List ℕ × Bool)). t.1.1) (extends.3 x h)

    old_children : (x : ℕ) → x < g.size → (x == n) ≡ false → Graph.children linked x ≡ g.children x
    old_children x h apart =
        link_all-others n s.0 s.1 x apart
        ∙ ap (λ (t : Window × (List ℕ × Bool)). t.1.0) (extends.3 x h)

    linked-Seated : Seated end linked
    linked-Seated =
        let (up, framed, behind_in) = later in
        (
          rw (linked-contexts) (let e = seated.0 in let h = up.0 in omega (arith, e, h)),
          rw (linked-contexts) framed,
          λ x h. elim (Bool-cases (ltb x g.size)) [
            | inl e ↦
                let in_x : x < g.size = ltb→lt x g.size e in
                let old = seated.2 x in_x in
                let more = up.0 in rw (linked-contexts, old_block x in_x) (omega (arith, old, more))
            | inr e ↦
                let made_x =
                  extends.4 x (λ k. ground (arith, k, e))
                    (let z = link_all-size n s.0 s.1 in omega (arith, z, h)) in
                rw (linked-contexts, linked-block x)
                  (subst (λ (c : Contexts). Window.ctx (Graph.block s.1 x) < c.count) extends.0
                    made_x.0)
          ],
        )

    linked-Leafy : Leafy end g → Leafy end linked
    linked-Leafy leafy x h =
        let leaf = leafy x (subst (Has x) linked-leaves h) in
        let in_x = leaf.0 in
        let apart : (x == n) ≡ false = elim (Bool-cases (x == n)) [
          | inr e ↦ e
          | inl e ↦
              let same : x ≡ n = (==_iff x n).0 e in
              let known : g.constructed n ≡ true =
                subst (λ z. g.constructed z ≡ true) same leaf.1 in
              ground (arith, known, fresh)
        ] in
        kept-Leaf end g linked x seated (subst (Later g.contexts) (sym linked-contexts) later.0)
          linked-grown (old_block x in_x)
          (old_constructed x in_x ∙ change-other n x true g.constructed apart ∙ leaf.1)
          (old_children x in_x apart) leaf

  abbrev pub Held : List ℕ → Graph → Type 0
  Held frontier g = Kept anders m succs end frontier g × Seated end g × Leafy end g

  pub visit-Held :
      (n : ℕ) (ns : List ℕ) (g : Graph) (r : List ℕ × Graph)
      → Visited anders m succs end n g r
      → Held (n ∷ ns) g
      → Held (ns ++ r.0) r.1
  visit-Held n ns g r visited (kept, seated, leafy) =
      let in_n : n < g.size = kept.0 n (inl refl) in
      let after : Seated end r.1 × Leafy end r.1 = elim visited [
        | inl (e, same) ↦
            subst (λ (q : List ℕ × Graph). Seated end q.1 × Leafy end q.1) same (seated, leafy)
        | inr (e, inl (f, same)) ↦
            subst (λ (q : List ℕ × Graph). Seated end q.1 × Leafy end q.1) same
              (end_at-Seated end n g seated, end_at-Leafy end n g in_n f leafy)
        | inr (e, inr (last, q, s, at_last, behind, made, same)) ↦
            let all = linked n g last q s in_n e seated behind made in
            let done : Graph.constructed all n ≡ true =
              old_constructed n g last q s in_n e seated behind made n in_n
              ∙ change-here n true g.constructed in
            let grown = linked-grown n g last q s in_n e seated behind made in
            subst (λ (q : List ℕ × Graph). Seated end q.1 × Leafy end q.1) same
              (
                settle_at-Seated end n all (linked-Seated n g last q s in_n e seated behind made),
                settle_at-Leafy end n all (omega (arith, in_n, grown)) done
                    (linked-Leafy n g last q s in_n e seated behind made leafy),
              )
      ] in
      (visit-Kept anders m succs end n ns g r visited kept, after.0, after.1)

  leaves_are_ends-all :
      (g : Graph) (ns : List ℕ)
      → ((n : ℕ) → Has n ns → Leaf end g n)
      → leaves_are_ends g end ns ≡ true
  unfolding leaves_are_ends
  leaves_are_ends-all g [] h = refl
  leaves_are_ends-all g (n ∷ ns) h =
      let (in_n, done, why) = h n (inl refl) in
      let rest = leaves_are_ends-all g ns (λ x k. h x (inr k)) in
      elim why [ inl e ↦ ground (arith, e, rest) | inr e ↦ ground (arith, e, rest, done) ]

  -- Every leaf that the loop collects has the block of the second event, or it is constructed and has
  -- no children: the last check of the constructor, which stops the program where one is neither,
  -- never fails.
  pub construct-leaves_are_ends :
      (fuel : ℕ) (cs : Contexts) (start : Window) (g : Graph)
      → Framed cs
      → start.ctx < cs.count
      → end.ctx < cs.count
      → construct anders m succs end fuel (0 ∷ []) (rooted cs start) ≡ ok (some g)
      → leaves_are_ends g end g.leaves ≡ true
  unfolding rooted add_node
  construct-leaves_are_ends fuel cs start g framed in_start in_end ran =
      let seated : Seated end (rooted cs start) =
        (in_end, framed, λ x h. (let e : x ≡ 0 = omega (arith, h) in rw (e) in_start)) in
      let kept = rooted-Kept anders m succs end cs start in
      let held : Held [] g =
        construct-keeps anders m succs end Held visit-Held fuel (0 ∷ []) (rooted cs start) g
          (kept, seated, λ n h. absurd h) ran in
      leaves_are_ends-all g g.leaves held.2
