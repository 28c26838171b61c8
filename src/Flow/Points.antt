-- ===== src/Flow/Points.antt =====
-- src/FlowAnalyzer.cpp: the points that `redundantPaths` returns, and that its loops end.
use hippocrates.Base.{
  ℕ, ◌≡◌, refl, sym, ◌∙◌, subst, inl, inr, Bool, true, false, ◌&&◌, Option, none, some, List, [],
  ◌∷◌, ◌++◌, Outcome, ok, aborted, assert, ◌>>◌, arith, some_injective, append-Any, Bool-cases,
  ok_injective,
}
use hippocrates.Flow.{
  ContextBlock, Info, Infos, ContextGraph, set, join_children, go_up, go_points, behind, walk_down,
  walk_up, walk_points, redundant_paths, member, fuel_for, ended, roots_fit, leaves_fit,
}
use hippocrates.Flow.Walk.{Has, Has-member, traverse-keeps}
use hippocrates.Flow.Down.{ParentsFit, Down, walk_down-Down, set-same}

-- Of a loop that has ended and what comes behind it.
ended-some :
    {A B : Type 0} (o : Outcome (Option A)) (f : A → Outcome (Option B)) (b : B)
    → ended o f ≡ ok (some b)
    → (a : A) × (o ≡ ok (some a)) × (f a ≡ ok (some b))
ended-some (ok (some a)) f b h = (a, refl, h)
ended-some (ok none) f b h = ground (arith, h)
ended-some aborted f b h = ground (arith, h)

assert_some : {B : Type 0} (b : Bool) (o : Outcome B) (x : B) → (assert b >> o) ≡ ok x → o ≡ ok x
assert_some true o x h = h
assert_some false o x h = ground (arith, h)

Has-behind :
    (next : ℕ → List ℕ) (ns : List ℕ) (c : ℕ)
    → Has c (behind next ns)
    → (x : ℕ) × Has x ns × Has c (next x)
unfolding behind
Has-behind next [] c h = absurd h
Has-behind next (n ∷ ns) c h = elim (append-Any (λ z. z ≡ c) (next n) (behind next ns) h) [
  | inl here ↦ (n, inl refl, here)
  | inr there ↦ let (x, h', k) = Has-behind next ns c there in (x, inr h', k)
]

module _ (g : ContextGraph) where
  join_children-parents :
      (n x : ℕ) (cs : List ℕ) (infos : Infos)
      → Info.is_redt_in_parents (join_children g n cs infos x) ≡ Info.is_redt_in_parents (infos x)
  unfolding join_children
  join_children-parents n x [] infos = refl
  join_children-parents n x (c ∷ cs) infos =
      join_children-parents n x cs (set n _ infos)
      ∙ set-same Info.is_redt_in_parents n x _ infos refl

  abbrev SameParents : Infos → Infos → Type 0
  SameParents a b = (x : ℕ) → Info.is_redt_in_parents (b x) ≡ Info.is_redt_in_parents (a x)

  -- The walk from the leaves leaves the verdicts on the parents as they are.
  walk_up-SameParents :
      (infos : Infos) (end : List ℕ × Infos)
      → walk_up g infos ≡ ok (some end)
      → SameParents infos end.1
  unfolding walk_up
  walk_up-SameParents infos end ran =
      let frontier = behind g.parents g.leaves in
      traverse-keeps (go_up g) (λ fs seen t. SameParents infos t) (λ n ns seen t h p. p)
        (λ n ns seen t r new ran p.
          let same : (g.parents n, join_children g n (g.children n) t) ≡ r = ok_injective ran in
          subst (λ (q : List ℕ × Infos). SameParents infos q.1) same
            (λ x. join_children-parents n x (g.children n) t ∙ p x))
        (fuel_for g.parents g.size frontier) frontier g.leaves infos end (λ x. refl) ran

  -- The first instruction of a block whose parents do not spoil the redundancy.
  abbrev pub Point : Infos → ℕ → Type 0
  Point start a = (n : ℕ) × (a ≡ ContextBlock.first (g.block n)) × ParentsFit g start n

  module _ (start infos : Infos) (visited : List ℕ) (down : Down g start [] visited infos)
      (up : Infos) (same : SameParents infos up) where
    abbrev Found : List ℕ → List ℕ → List ℕ → Type 0
    Found frontier seen points =
        ((n : ℕ) → Has n frontier → Has n visited)
        × ((x : ℕ) → Has x g.roots → Has x seen)
        × ((a : ℕ) → Has a points → Point start a)

    at-Point :
        (n : ℕ)
        → Has n visited
        → ¬ Has n g.roots
        → Info.is_redt_in_parents (up n) ≡ true
        → Point start (ContextBlock.first (g.block n))
    at-Point n h no_root fit = elim (down.1 n h) [
      | inl root ↦ absurd (no_root root)
      | inr f ↦ (n, refl, f (sym (same n) ∙ fit))
    ]

    found-skip :
        (n : ℕ) (ns seen points : List ℕ)
        → Has n seen
        → Found (n ∷ ns) seen points
        → Found ns seen points
    found-skip n ns seen points h (inside, roots, all) = (λ x k. inside x (inr k), roots, all)

    found-step :
        (n : ℕ) (ns seen points : List ℕ) (r : List ℕ × List ℕ)
        → member n seen ≡ false
        → go_points g up n points ≡ ok r
        → Found (n ∷ ns) seen points
        → Found (ns ++ r.0) (n ∷ seen) r.1
    found-step n ns seen points r new ran (inside, roots, all) =
        let both = Info.is_redt_in_children (up n) && Info.is_redt_in_parents (up n) in
        elim (Bool-cases both) [
          | inl e ↦
              let first = ContextBlock.first (g.block n) in
              let end : ([], points ++ (first ∷ [])) ≡ r = ok_injective (rw (e) at ran) in
              let no_root : ¬ Has n g.roots =
                λ h. ground (arith, Has-member n seen (roots n h), new) in
              let here = at-Point n (inside n (inl refl)) no_root (ground (arith, e)) in
              subst (λ (q : List ℕ × List ℕ). Found (ns ++ q.0) (n ∷ seen) q.1) end
                (
                  λ x k. elim (append-Any (λ z. z ≡ x) ns [] k) [
                    | inl later ↦ inside x (inr later)
                    | inr never ↦ absurd never
                  ],
                  λ x h. inr (roots x h),
                  λ a k. elim (append-Any (λ z. z ≡ a) points (first ∷ []) k) [
                    | inl old ↦ all a old
                    | inr (inl same_a) ↦ subst (Point start) same_a here
                    | inr (inr never) ↦ absurd never
                  ],
                )
          | inr e ↦
              let end : (g.children n, points) ≡ r = ok_injective (rw (e) at ran) in
              subst (λ (q : List ℕ × List ℕ). Found (ns ++ q.0) (n ∷ seen) q.1) end
                (
                  λ x k. elim (append-Any (λ z. z ≡ x) ns (g.children n) k) [
                    | inl later ↦ inside x (inr later)
                    | inr child ↦ elim (down.0 n x (inside n (inl refl)) child) [
                      | inl there ↦ there
                      | inr never ↦ absurd never
                    ]
                  ],
                  λ x h. inr (roots x h),
                  all,
                )
        ]

    walk_points-Found :
        (end : List ℕ × List ℕ)
        → walk_points g up ≡ ok (some end)
        → (a : ℕ) → Has a end.1
        → Point start a
    unfolding walk_points
    walk_points-Found end ran =
        let frontier = behind g.children g.roots in
        let found : Found [] end.0 end.1 =
          traverse-keeps (go_points g up) Found found-skip found-step
            (fuel_for g.children g.size frontier) frontier g.roots [] end
            (
              λ n h.
                  let (x, root, child) = Has-behind g.children g.roots n h in
                  elim (down.0 x n (down.3 x root) child) [
                    | inl there ↦ there
                    | inr never ↦ absurd never
                  ],
              λ x h. h,
              λ a h. absurd h,
            )
            ran in
        found.2

  -- Every point that `redundantPaths` returns is the first instruction of a block, and no parent of it
  -- is a block whose interpretation has found a store that spoils the redundancy.
  pub redundant_paths-Point :
      (infos : Infos) (points : List ℕ)
      → redundant_paths g infos ≡ ok (some points)
      → (a : ℕ) → Has a points
      → Point infos a
  unfolding redundant_paths
  redundant_paths-Point infos points ran a h =
      let ran1 = assert_some (roots_fit g g.roots infos) _ (some points) ran in
      let (down, e1, ran2) = ended-some (walk_down g infos) _ points ran1 in
      let ran3 = assert_some (leaves_fit g g.leaves down.1) _ (some points) ran2 in
      let (up, e2, ran4) = ended-some (walk_up g down.1) _ points ran3 in
      let (found, e3, end) = ended-some (walk_points g up.1) _ points ran4 in
      let same : found.1 ≡ points = some_injective (ok_injective end) in
      walk_points-Found infos down.1 down.0 (walk_down-Down g infos down e1) up.1
        (walk_up-SameParents down.1 up e2) found e3 a (subst (Has a) (sym same) h)
