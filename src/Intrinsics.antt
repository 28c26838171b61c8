-- ===== src/Intrinsics.antt =====
-- src/intrinsic/persistent_intrinsics.c: `flush_loop`, which the persistent versions of memset, memcpy,
-- memmove and strncpy run over what they wrote. The loop runs on fuel: the number of the bytes, of
-- which each round passes over 64.
pub mod Lines
pub mod Naive
use hippocrates.Base.{ℕ, zero, suc, ◌+◌, ◌%◌, ◌^◌, List, [], ◌∷◌, ltb, if◌then◌else◌}

-- The addresses that are flushed, from the counter `i` on.
unfoldable pub flushes_from : ℕ → ℕ → ℕ → ℕ → List ℕ
flushes_from zero p n i = []
flushes_from (suc fuel) p n i =
    let rest = flushes_from fuel p n ((i + 64) % 2 ^ 64) in
    if ltb i n then (p + i) % 2 ^ 64 ∷ rest else []

unfoldable pub flush_loop : ℕ → ℕ → List ℕ
flush_loop p n = flushes_from n p n 0
