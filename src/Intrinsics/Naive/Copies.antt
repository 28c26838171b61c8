-- ===== src/Intrinsics/Naive/Copies.antt =====
-- What the loops of the naive versions write (src/intrinsic/persistent_intrinsics.c).
use mathlib.Core.List.{append_assoc, append-nil}
use hippocrates.Base.{
  ℕ, zero, suc, ◌+◌, ◌-◌, ◌^◌, ◌≤◌, ◌<◌, ◌≡◌, sym, ◌∙◌, ◌⊎◌, inl, inr, ◌&&◌, List, [], ◌∷◌, ◌++◌,
  ltb, leb, ◌==◌, if◌then◌else◌, arith, Bool-cases,
}
use hippocrates.Intrinsics.Naive.{
  Flavor, Effect, stored, Run, write, element, flush_of, put_byte, copy_up, copy_down,
}

-- What a range of an address holds afterwards: there the byte of the source, elsewhere what it held.
abbrev pub moved : ℕ → ℕ → ℕ → ℕ → (ℕ → ℕ) → ℕ → ℕ
moved d s i j mem a = if leb (d + i) a && ltb a (d + j) then mem (s + (a - d)) else mem a

-- Behind every byte that is written come its flush and its fence, before the next one.
abbrev pub steps : Flavor → List (ℕ × ℕ) → List Effect
steps f [] = []
steps f ((a, v) ∷ xs) = (stored a v ∷ flush_of f a) ++ steps f xs

abbrev pub Steps : Flavor → Run → Run → Type 0
Steps f r t = (xs : List (ℕ × ℕ)) × (t.done ≡ r.done ++ steps f xs)

put_byte-Steps : (f : Flavor) (a v : ℕ) (r t : Run) → Steps f (put_byte f a v r) t → Steps f r t
put_byte-Steps f a v r t (xs, e) = ((a, v) ∷ xs, e ∙ append_assoc r.done _ (steps f xs))

-- One round of each loop.
up-step :
    (d s n i a : ℕ) (mem : ℕ → ℕ)
    → i < n
    → (d ≤ s) ⊎ (s + n ≤ d)
    → moved d s (i + 1) n (write (d + i) (mem (s + i)) mem) a ≡ moved d s i n mem a
up-step d s n i a mem h apart = elim (Bool-cases (a == d + i)) [
  | inl e ↦ let same : a ≡ d + i = ground arith in rw (same) (ground arith)
  | inr e ↦ elim apart [ inl below ↦ ground arith | inr above ↦ ground arith ]
]

down-step :
    (d s i a : ℕ) (mem : ℕ → ℕ)
    → s ≤ d
    → moved d s 0 i (write (d + i) (mem (s + i)) mem) a ≡ moved d s 0 (suc i) mem a
down-step d s i a mem above = elim (Bool-cases (a == d + i)) [
  | inl e ↦ let same : a ≡ d + i = ground arith in rw (same) (ground arith)
  | inr e ↦ ground arith
]

module _ (f : Flavor) where
  pub copy_up-Steps : (d s k i : ℕ) (r : Run) → Steps f r (copy_up f d s k i r)
  unfolding copy_up
  copy_up-Steps d s zero i r = ([], sym (append-nil r.done))
  copy_up-Steps d s (suc k) i r =
      put_byte-Steps f (element d i) (r.mem (element s i)) r
        (copy_up f d s k (i + 1) (put_byte f (element d i) (r.mem (element s i)) r))
        (copy_up-Steps d s k (i + 1) (put_byte f (element d i) (r.mem (element s i)) r))

  pub copy_down-Steps : (d s i : ℕ) (r : Run) → Steps f r (copy_down f d s i r)
  unfolding copy_down
  copy_down-Steps d s zero r = ([], sym (append-nil r.done))
  copy_down-Steps d s (suc i) r =
      put_byte-Steps f (element d i) (r.mem (element s i)) r
        (copy_down f d s i (put_byte f (element d i) (r.mem (element s i)) r))
        (copy_down-Steps d s i (put_byte f (element d i) (r.mem (element s i)) r))

  -- From the first byte up, where no byte of the source is written before it is read.
  pub copy_up-moved :
      (d s n k i a : ℕ) (r : Run)
      → i + k ≡ n
      → d + n ≤ 2 ^ 64
      → s + n ≤ 2 ^ 64
      → (d ≤ s) ⊎ (s + n ≤ d)
      → Run.mem (copy_up f d s k i r) a ≡ moved d s i n r.mem a
  unfolding copy_up
  copy_up-moved d s n zero i a r e low high apart = ground arith
  copy_up-moved d s n (suc k) i a r e low high apart =
      let di : element d i ≡ d + i = omega arith in
      let si : element s i ≡ s + i = omega arith in
      let t = put_byte f (element d i) (r.mem (element s i)) r in
      copy_up-moved d s n k (i + 1) a t (omega arith) low high apart
      ∙ rw (di, si) (up-step d s n i a r.mem (omega arith) apart)

  -- From the last byte down, where the destination is above the source.
  pub copy_down-moved :
      (d s i a : ℕ) (r : Run)
      → d + i ≤ 2 ^ 64
      → s ≤ d
      → Run.mem (copy_down f d s i r) a ≡ moved d s 0 i r.mem a
  unfolding copy_down
  copy_down-moved d s zero a r low above = ground arith
  copy_down-moved d s (suc i) a r low above =
      let di : element d i ≡ d + i = omega arith in
      let si : element s i ≡ s + i = omega arith in
      let t = put_byte f (element d i) (r.mem (element s i)) r in
      copy_down-moved d s i a t (omega arith) above ∙ rw (di, si) (down-step d s i a r.mem above)
