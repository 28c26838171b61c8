-- ===== src/Intrinsics/Lines.antt =====
-- The cache lines, of 64 bytes, that `flush_loop` flushes (src/intrinsic/persistent_intrinsics.c).
use hippocrates.Base.{
  ℕ, zero, suc, ◌+◌, ◌-◌, ◌*◌, ◌/◌, ◌%◌, ◌^◌, ◌≤◌, ◌<◌, ◌≡◌, refl, ◌↔◌, inl, inr, List, [], ◌∷◌,
  ltb, Any, lt→ltb, ltb→lt, sym, subst, arith, Bool-cases,
}
use hippocrates.Intrinsics.{flushes_from, flush_loop}

-- The line of an address is flushed.
abbrev pub LineIn : List ℕ → ℕ → Type 0
LineIn flushed x = Any (λ a. a / 64 ≡ x / 64) flushed

module _ (p n x : ℕ) (low : p + n + 64 ≤ 2 ^ 64) where
  -- A round, where no sum wraps.
  round :
      (fuel i : ℕ)
      → i < n
      → flushes_from (suc fuel) p n i ≡ ((p + i) ∷ flushes_from fuel p n (i + 64))
  unfolding flushes_from
  round fuel i h =
      let here : (p + i) % 2 ^ 64 ≡ p + i = omega arith in
      let next : (i + 64) % 2 ^ 64 ≡ i + 64 = omega arith in rw (lt→ltb i n h, here, next) refl

  stop : (fuel i : ℕ) → n ≤ i → flushes_from (suc fuel) p n i ≡ []
  unfolding flushes_from
  stop fuel i h = ground arith

  line_at :
      (fuel i k : ℕ)
      → n ≤ i + 64 * fuel
      → i + 64 * k < n
      → (p + i + 64 * k) / 64 ≡ x / 64
      → LineIn (flushes_from fuel p n i) x
  unfolding flushes_from
  line_at zero i k enough in_range here = absurd (omega arith)
  line_at (suc fuel) i zero enough in_range here =
      subst (λ l. LineIn l x) (sym (round fuel i (omega arith))) (inl (omega arith))
  line_at (suc fuel) i (suc k) enough in_range here =
      subst (λ l. LineIn l x) (sym (round fuel i (omega arith)))
        (inr (line_at fuel (i + 64) k (omega arith) (omega arith) (omega arith)))

  line_from :
      (fuel i : ℕ)
      → LineIn (flushes_from fuel p n i) x
      → (k : ℕ) × (i + 64 * k < n) × ((p + i + 64 * k) / 64 ≡ x / 64)
  unfolding flushes_from
  line_from zero i h = absurd h
  line_from (suc fuel) i h = elim (Bool-cases (ltb i n)) [
    | inr e ↦ absurd (subst (λ l. LineIn l x) (stop fuel i (ground arith)) h)
    | inl e ↦ elim (subst (λ l. LineIn l x) (round fuel i (ltb→lt i n e)) h) [
      | inl here ↦ (0, ground arith, omega arith)
      | inr later ↦
          let (k, in_range, there) = line_from fuel (i + 64) later in
          (suc k, omega arith, omega arith)
    ]
  ]

-- All bytes of a range, which does not reach the end of the address space, have their lines flushed
-- exactly if the range reaches no further into the line of its last byte than `flush_loop` counts: the
-- offset of its start in a line and that of its last byte from the start, modulo 64, are less than 64
-- together. This holds of every range that starts at a line.
pub flush_loop_iff :
    (p n : ℕ)
    → 0 < n
    → p + n + 64 ≤ 2 ^ 64
    → ((x : ℕ) → p ≤ x → x < p + n → LineIn (flush_loop p n) x) ↔ (p % 64 + (n - 1) % 64 < 64)
unfolding flush_loop
flush_loop_iff p n some_byte low = (
  λ all.
      let (k, in_range, there) =
        line_from p n (p + n - 1) low n 0 (all (p + n - 1) (omega arith) (omega arith)) in
      omega arith,
  λ h x above below.
      line_at p n x low n 0 (x / 64 - p / 64) (omega arith) (omega arith) (omega arith),
)
