-- ===== src/Flow/Ends.antt =====
-- src/FlowAnalyzer.cpp: the loops of `redundantPaths` end.
use hippocrates.Base.{
  ℕ, ◌<◌, ◌≤◌, ◌≡◌, refl, subst, ◌⊎◌, inl, inr, Bool, true, false, ◌&&◌, Option, some, List, [],
  ◌∷◌, ◌++◌, length, All, Outcome, ok, aborted, assert, ◌>>◌, arith, Bool-cases, ok_injective,
}
use hippocrates.Flow.{
  ContextBlock, Info, Infos, ContextGraph, join_parents, join_children, go_down, go_up, go_points,
  behind, walk_down, walk_up, walk_points, redundant_paths, ended, roots_fit, leaves_fit,
}
use hippocrates.Flow.Enough.{Bounded, traverse-ends, All-append}

ended_ends :
    {A B : Type 0} (o : Outcome (Option A)) (f : A → Outcome (Option B))
    → (o ≡ aborted) ⊎ ((a : A) × (o ≡ ok (some a)))
    → ((a : A) → (f a ≡ aborted) ⊎ ((b : B) × (f a ≡ ok (some b))))
    → (ended o f ≡ aborted) ⊎ ((b : B) × (ended o f ≡ ok (some b)))
ended_ends o f (inl e) h = inl (rw (e) refl)
ended_ends o f (inr (a, e)) h = rw (e) (h a)

assert_ends :
    {B : Type 0} (b : Bool) (o : Outcome (Option B))
    → (o ≡ aborted) ⊎ ((x : B) × (o ≡ ok (some x)))
    → ((assert b >> o) ≡ aborted) ⊎ ((x : B) × ((assert b >> o) ≡ ok (some x)))
assert_ends true o h = h
assert_ends false o h = inl refl

-- All edges go to nodes of the graph.
abbrev pub Inside : ContextGraph → (ℕ → List ℕ) → Type 0
Inside g next = (n : ℕ) → All (λ x. x < g.size) (next n)

module _ (g : ContextGraph) (down : Inside g g.children) (up : Inside g g.parents) where
  behind-All :
      (next : ℕ → List ℕ) (ns : List ℕ) → Inside g next → All (λ x. x < g.size) (behind next ns)
  unfolding behind
  behind-All next [] h = tt
  behind-All next (n ∷ ns) h =
      All-append g.size (next n) (behind next ns) (h n) (behind-All next ns h)

  go_down-Bounded : Bounded g.children g.size (go_down g)
  go_down-Bounded n infos r ran =
      let end : (g.children n, join_parents g n (g.parents n) infos) ≡ r = ok_injective ran in
      subst
        (λ (q : List ℕ × Infos). (length q.0 ≤ length (g.children n)) × All (λ x. x < g.size) q.0)
        end (omega arith, down n)

  go_up-Bounded : Bounded g.parents g.size (go_up g)
  go_up-Bounded n infos r ran =
      let end : (g.parents n, join_children g n (g.children n) infos) ≡ r = ok_injective ran in
      subst
        (λ (q : List ℕ × Infos). (length q.0 ≤ length (g.parents n)) × All (λ x. x < g.size) q.0)
        end (omega arith, up n)

  go_points-Bounded : (infos : Infos) → Bounded g.children g.size (go_points g infos)
  go_points-Bounded infos n points r ran =
      elim (Bool-cases (Info.is_redt_in_children (infos n) && Info.is_redt_in_parents (infos n))) [
        | inl e ↦
            let end : ([], points ++ (ContextBlock.first (g.block n) ∷ [])) ≡ r =
              ok_injective (rw (e) at ran) in
            subst
              (λ (q : List ℕ × List ℕ).
                (length q.0 ≤ length (g.children n)) × All (λ x. x < g.size) q.0)
              end (omega arith, tt)
        | inr e ↦
            let end : (g.children n, points) ≡ r = ok_injective (rw (e) at ran) in
            subst
              (λ (q : List ℕ × List ℕ).
                (length q.0 ≤ length (g.children n)) × All (λ x. x < g.size) q.0)
              end (omega arith, down n)
      ]

  -- On a graph whose edges go to its nodes, `redundantPaths` stops at an assertion or returns a list:
  -- its three loops, on graphs with cycles, too, end in the rounds that they are given.
  pub redundant_paths_ends :
      (infos : Infos)
      → (redundant_paths g infos ≡ aborted)
        ⊎ ((points : List ℕ) × (redundant_paths g infos ≡ ok (some points)))
  unfolding redundant_paths walk_down walk_up walk_points
  redundant_paths_ends infos =
      let below = behind-All g.children g.roots down in
      let above = behind-All g.parents g.leaves up in
      assert_ends (roots_fit g g.roots infos) _ (
        ended_ends _ _
          (traverse-ends (go_down g) g.children g.size go_down-Bounded _ g.roots infos below)
          (λ a. assert_ends (leaves_fit g g.leaves a.1) _ (
            ended_ends _ _
              (traverse-ends (go_up g) g.parents g.size go_up-Bounded _ g.leaves a.1 above)
              (λ b.
                ended_ends _ _
                  (traverse-ends (go_points g b.1) g.children g.size (go_points-Bounded b.1) _
                    g.roots [] below)
                  (λ c. inr (c.1, refl))))))
