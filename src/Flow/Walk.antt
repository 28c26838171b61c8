-- ===== src/Flow/Walk.antt =====
-- The loop over a frontier keeps what its steps keep (src/FlowAnalyzer.cpp).
use hippocrates.Base.{
  ℕ, zero, suc, ◌≡◌, refl, subst, inl, inr, true, false, Option, none, some, List, [], ◌∷◌, ◌++◌,
  ◌==◌, ==_iff, Outcome, ok, arith, Any, Bool-cases, ok_injective, went_on,
}
use hippocrates.Flow.{member, traverse}

abbrev pub Has : ℕ → List ℕ → Type 0
Has n = Any (λ x. x ≡ n)

pub member-Has : (n : ℕ) (xs : List ℕ) → member n xs ≡ true → Has n xs
unfolding member
member-Has n [] h = ground (arith, h)
member-Has n (x ∷ xs) h = elim (Bool-cases (x == n)) [
  | inl e ↦ inl ((==_iff x n).0 e)
  | inr e ↦ inr (member-Has n xs (rw (member, e) at h))
]

pub Has-member : (n : ℕ) (xs : List ℕ) → Has n xs → member n xs ≡ true
unfolding member
Has-member n [] h = absurd h
Has-member n (x ∷ xs) h = elim (Bool-cases (x == n)) [
  | inl e ↦ rw (member, e) refl
  | inr e ↦ elim h [
    | inl same ↦ ground (arith, e, same)
    | inr there ↦ rw (member, e) (Has-member n xs there)
  ]
]

module _ {S : Type 0} (visit : ℕ → S → Outcome (List ℕ × S)) (P : List ℕ → List ℕ → S → Type 0)
    (skip : (n : ℕ) (ns seen : List ℕ) (s : S) → Has n seen → P (n ∷ ns) seen s → P ns seen s)
    (step : (n : ℕ) (ns seen : List ℕ) (s : S) (r : List ℕ × S)
      → member n seen ≡ false
      → visit n s ≡ ok r
      → P (n ∷ ns) seen s
      → P (ns ++ r.0) (n ∷ seen) r.1) where
  pub traverse-keeps :
      (fuel : ℕ) (frontier seen : List ℕ) (s : S) (end : List ℕ × S)
      → P frontier seen s
      → traverse visit fuel frontier seen s ≡ ok (some end)
      → P [] end.0 end.1
  unfolding traverse
  traverse-keeps zero frontier seen s end p ran = ground (arith, ran)
  traverse-keeps (suc k) [] seen s end p ran =
      let same : some (seen, s) ≡ some end = ok_injective ran in
      subst (λ (o : Option (List ℕ × S)). elim o [ none ↦ Unit | some q ↦ P [] q.0 q.1 ]) same p
  traverse-keeps (suc k) (n ∷ ns) seen s end p ran = elim (Bool-cases (member n seen)) [
    | inl e ↦
        traverse-keeps k ns seen s end (skip n ns seen s (member-Has n seen e) p)
          (rw (traverse, e) at ran)
    | inr e ↦
        let (r, at_n, more) =
          went_on (visit n s) (λ r. traverse visit k (ns ++ r.0) (n ∷ seen) r.1) (some end)
            (rw (traverse, e) at ran) in
        traverse-keeps k (ns ++ r.0) (n ∷ seen) r.1 end (step n ns seen s r e at_n p) more
  ]
