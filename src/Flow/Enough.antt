-- ===== src/Flow/Enough.antt =====
-- The fuel of the loops over the graph is enough (src/FlowAnalyzer.cpp).
use hippocrates.Base.{
  ℕ, zero, suc, ◌+◌, ◌≤◌, ◌<◌, ◌≡◌, refl, ◌⊎◌, inl, inr, false, some, List, [], ◌∷◌, ◌++◌, length,
  length-append, All, ◌==◌, ==_iff, if◌then◌else◌, Outcome, ok, aborted, arith, Bool-cases,
  Outcome-cases,
}
use hippocrates.Flow.{member, traverse, edges, fuel_for}

-- The rounds that the nodes not yet visited still ask for.
unfoldable left : (ℕ → List ℕ) → List ℕ → ℕ → ℕ
left next seen zero = 0
left next seen (suc k) = (if member k seen then 0 else suc (length (next k))) + left next seen k

left-edges : (next : ℕ → List ℕ) (seen : List ℕ) (k : ℕ) → left next seen k ≤ edges next k
unfolding left edges
left-edges next seen zero = omega arith
left-edges next seen (suc k) = ground (arith, left-edges next seen k)

left-above :
    (next : ℕ → List ℕ) (n : ℕ) (seen : List ℕ) (k : ℕ)
    → k ≤ n
    → left next (n ∷ seen) k ≡ left next seen k
unfolding left member
left-above next n seen zero h = refl
left-above next n seen (suc k) h = ground (arith, left-above next n seen k (omega arith))

left-visit :
    (next : ℕ → List ℕ) (n : ℕ) (seen : List ℕ) (k : ℕ)
    → n < k
    → member n seen ≡ false
    → left next (n ∷ seen) k + suc (length (next n)) ≡ left next seen k
unfolding left member
left-visit next n seen zero h e = absurd (omega arith)
left-visit next n seen (suc k) h e = elim (Bool-cases (n == k)) [
  | inl here ↦
      let same : n ≡ k = (==_iff n k).0 here in
      ground (arith, left-above next n seen k (omega arith), same)
  | inr there ↦
      let apart : n < k = ground (arith, there) in ground (arith, left-visit next n seen k apart e)
]

-- No visit returns more nodes than the graph has behind the node, and all of them are of the graph.
abbrev pub Bounded : {S : Type 0} → (ℕ → List ℕ) → ℕ → (ℕ → S → Outcome (List ℕ × S)) → Type 0
Bounded {S} next size visit =
    (n : ℕ) (s : S) (r : List ℕ × S)
    → visit n s ≡ ok r
    → (length r.0 ≤ length (next n)) × All (λ x. x < size) r.0

pub All-append :
    (size : ℕ) (xs ys : List ℕ)
    → All (λ x. x < size) xs
    → All (λ x. x < size) ys
    → All (λ x. x < size) (xs ++ ys)
All-append size [] ys h k = k
All-append size (x ∷ xs) ys h k = (h.0, All-append size xs ys h.1 k)

module _ {S : Type 0} (visit : ℕ → S → Outcome (List ℕ × S)) (next : ℕ → List ℕ) (size : ℕ)
    (bounded : Bounded next size visit) where
  traverse-left :
      (fuel : ℕ) (frontier seen : List ℕ) (s : S)
      → length frontier + left next seen size < fuel
      → All (λ x. x < size) frontier
      → (traverse visit fuel frontier seen s ≡ aborted)
        ⊎ ((end : List ℕ × S) × (traverse visit fuel frontier seen s ≡ ok (some end)))
  unfolding traverse
  traverse-left zero frontier seen s enough inside = absurd (omega arith)
  traverse-left (suc k) [] seen s enough inside = inr ((seen, s), refl)
  traverse-left (suc k) (n ∷ ns) seen s enough inside = elim (Bool-cases (member n seen)) [
    | inl e ↦ rw (traverse, e) (traverse-left k ns seen s (ground arith) inside.1)
    | inr e ↦ elim (Outcome-cases (visit n s)) [
      | inl stop ↦ inl (rw (traverse, e, stop) refl)
      | inr (r, at_n) ↦
          let (fewer, there) = bounded n s r at_n in
          let total = left-visit next n seen size inside.0 e in
          let len = length-append ns r.0 in
          rw (traverse, e, at_n)
            (traverse-left k (ns ++ r.0) (n ∷ seen) r.1 (omega (arith, len, fewer, total, enough))
              (All-append size ns r.0 inside.1 there))
    ]
  ]

  pub traverse-ends :
      (frontier seen : List ℕ) (s : S)
      → All (λ x. x < size) frontier
      → (traverse visit (fuel_for next size frontier) frontier seen s ≡ aborted)
        ⊎ ((end : List ℕ × S) × (traverse visit (fuel_for next size frontier) frontier seen s
              ≡ ok (some end)))
  traverse-ends frontier seen s inside =
      traverse-left (fuel_for next size frontier) frontier seen s
        (omega (arith, left-edges next seen size)) inside
