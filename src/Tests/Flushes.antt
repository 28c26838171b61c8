-- ===== src/Tests/Flushes.antt =====
-- The flushes of ranges (src/intrinsic/persistent_intrinsics.c).
use hippocrates.Base.{
  Outcome, ok, aborted, ℕ, ◌≡◌, refl, ◌↔◌, ◌+◌, ◌-◌, ◌%◌, ◌≤◌, ◌<◌, [], ◌∷◌, arith,
}
use hippocrates.Intrinsics.Naive.{Run, by_clwb, memmove_naive, copy_down}
use hippocrates.Intrinsics.Naive.Moves.{Moved, memmove_naive-Moved}
use hippocrates.Intrinsics.{flush_loop, flushes_from}
use hippocrates.Intrinsics.Lines.{LineIn, flush_loop_iff}

-- The last four bytes are in the next line.
flush-short : flush_loop 60 8 ≡ 60 ∷ []
unfolding flush_loop flushes_from
flush-short = refl

flush_loop_iff_example :
    ((x : ℕ) → 60 ≤ x → x < 60 + 8 → LineIn (flush_loop 60 8) x) ↔ (60 % 64 + (8 - 1) % 64 < 64)
flush_loop_iff_example = flush_loop_iff 60 8 (omega arith) (omega arith)

-- Four bytes that are moved up by two.
abbrev bytes : Run
bytes = record { mem = λ a. a; done = [] }

abbrev byte_at : ℕ → Outcome Run → ℕ
byte_at a (ok t) = t.mem a
byte_at a aborted = 0

moved_up : byte_at 13 (memmove_naive by_clwb 10 8 4 bytes) ≡ 11
unfolding memmove_naive copy_down
moved_up = refl

memmove_naive-Moved_example :
    (t : Run) × (memmove_naive by_clwb 10 8 4 bytes ≡ ok t) × Moved by_clwb 10 8 4 bytes t
memmove_naive-Moved_example =
    memmove_naive-Moved by_clwb 10 8 4 bytes (omega arith) (omega arith) (omega arith)
