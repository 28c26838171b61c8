-- ===== src/Intrinsics/Naive/Moves.antt =====
-- memmove and its naive version (src/intrinsic/persistent_intrinsics.c).
use mathlib.Core.List.{append-nil}
use hippocrates.Base.{
  ℕ, ◌+◌, ◌-◌, ◌^◌, ◌≤◌, ◌<◌, ◌≡◌, refl, sym, ◌⊎◌, inl, inr, true, ◌||◌, ◌&&◌, [], ltb, leb, ◌==◌,
  ok, arith, Bool-cases,
}
use hippocrates.Intrinsics.Naive.{
  Flavor, Run, copy_up, copy_down, memcpy_naive, memmove_naive, less_int,
}
use hippocrates.Intrinsics.Naive.Copies.{
  moved, Steps, copy_up-Steps, copy_down-Steps, copy_up-moved, copy_down-moved,
}

-- The range holds what the source held before, all else is as it was, and behind each byte come its flush and fence.
abbrev pub Moved : Flavor → ℕ → ℕ → ℕ → Run → Run → Type 0
Moved f d s n r t = ((a : ℕ) → t.mem a ≡ moved d s 0 n r.mem a) × Steps f r t

same-Moved : (f : Flavor) (d s n : ℕ) (r : Run) → (s ≡ d) ⊎ (n ≡ 0) → Moved f d s n r r
same-Moved f d s n r h = (
  λ a. elim (Bool-cases (leb (d + 0) a && ltb a (d + n))) [
    | inl y ↦
        let same : s + (a - d) ≡ a = elim h [
          | inl e ↦ ground arith
          | inr z ↦ absurd (ground arith)
        ] in
        rw (y, same) refl
    | inr y ↦ rw (y) refl
  ],
  ([], sym (append-nil r.done)),
)

-- `memmove_naive` of less than 2 ^ 63 - 1 bytes, where neither range reaches past the end of the
-- address space: it does not stop at the assertion, the destination holds what the source held before
-- also where the ranges overlap, no other byte is changed, and behind every byte that is written come
-- the flush and the fence that the build has chosen for it, before the next byte is written.
pub memmove_naive-Moved :
    (f : Flavor) (d s n : ℕ) (r : Run)
    → n < 2 ^ 63 - 1
    → d + n ≤ 2 ^ 64
    → s + n ≤ 2 ^ 64
    → (t : Run) × (memmove_naive f d s n r ≡ ok t) × Moved f d s n r t
unfolding memmove_naive memcpy_naive
memmove_naive-Moved f d s n r short low high =
    let fits : ltb n (2 ^ 63 - 1) ≡ true = ground arith in
    elim (Bool-cases ((s == d) || (n == 0))) [
      | inl e ↦ (r, rw (memmove_naive, fits, e) refl, same-Moved f d s n r (ground arith))
      | inr e ↦ elim (Bool-cases (ltb s d && ltb (d - s) n)) [
        | inl above ↦ (
          copy_down f d s n r,
          rw (memmove_naive, fits, e, above) refl,
          (λ a. copy_down-moved f d s n a r low (ground arith), copy_down-Steps f d s n r),
        )
        | inr apart ↦
            let up : Moved f d s n r (copy_up f d s n 0 r) = (
              λ a.
                  copy_up-moved f d s n n 0 a r (omega arith) low high
                    (elim (Bool-cases (ltb d s)) [
                      | inl b ↦ inl (ground arith)
                      | inr b ↦ inr (ground arith)
                    ]),
              copy_up-Steps f d s n 0 r,
            ) in
            elim (Bool-cases (ltb d s && less_int (s - d) n)) [
              | inl below ↦
                  (copy_up f d s n 0 r, rw (memmove_naive, fits, e, apart, below) refl, up)
              | inr far ↦ (memcpy_naive f d s n r, rw (memmove_naive, fits, e, apart, far) refl, up)
            ]
      ]
    ]
