-- ===== src/Intrinsics/Naive.antt =====
-- src/intrinsic/persistent_intrinsics.c: the naive versions of memset, memcpy, memmove and strncpy,
-- which flush each byte, and the versions that call the C library and then `flush_loop`. The memory is
-- a function from addresses to bytes, and what the code does to the cache is listed in order.
pub mod Copies
pub mod Moves
use hippocrates.Base.{
  ℕ, zero, suc, ◌+◌, ◌-◌, ◌%◌, ◌^◌, Bool, true, false, ◌||◌, ◌&&◌, List, [], ◌∷◌, ◌++◌, map, ltb,
  leb, ◌==◌, if◌then◌else◌, Outcome, ok, aborted, assert, ◌>>=◌, ◌>>◌,
}
use hippocrates.Intrinsics.{flush_loop}

-- Which instruction flushes: the macros CLWB, CLFLUSH_OPT and CLFLUSH, or none of them.
pub data Flavor : Type 0 where
  by_clwb by_clflushopt by_clflush unflushed : Flavor

pub data Effect : Type 0 where
  stored : (address byte : ℕ) → Effect
  flushed : (address : ℕ) → Effect
  fenced : Effect

pub record Run : Type 0 where
  pub mem : ℕ → ℕ
  pub done : List Effect

abbrev pub write : ℕ → ℕ → (ℕ → ℕ) → ℕ → ℕ
write a v mem x = if x == a then v else mem x

-- The address of an element of an array of bytes.
abbrev pub element : ℕ → ℕ → ℕ
element p i = (p + i) % 2 ^ 64

-- The flush of a byte, and its fence.
abbrev pub flush_of : Flavor → ℕ → List Effect
flush_of by_clwb a = flushed a ∷ fenced ∷ []
flush_of by_clflushopt a = flushed a ∷ fenced ∷ []
flush_of by_clflush a = flushed a ∷ []
flush_of unflushed a = []

-- The body of the loops: a byte is written and flushed.
abbrev pub put_byte : Flavor → ℕ → ℕ → Run → Run
put_byte f a v r = record { mem = write a v r.mem; done = r.done ++ (stored a v ∷ flush_of f a) }

module _ (f : Flavor) where
  -- The loops with the number of the rounds that are left, and the index.
  unfoldable pub set_up : ℕ → ℕ → ℕ → ℕ → Run → Run
  set_up d c zero i r = r
  set_up d c (suc k) i r = set_up d c k (i + 1) (put_byte f (element d i) c r)

  unfoldable pub memset_naive : ℕ → ℕ → ℕ → Run → Run
  memset_naive d c n r = set_up d c n 0 r

  unfoldable pub copy_up : ℕ → ℕ → ℕ → ℕ → Run → Run
  copy_up d s zero i r = r
  copy_up d s (suc k) i r = copy_up d s k (i + 1) (put_byte f (element d i) (r.mem (element s i)) r)

  unfoldable pub memcpy_naive : ℕ → ℕ → ℕ → Run → Run
  memcpy_naive d s n r = copy_up d s n 0 r

  -- The loop from the last byte down.
  unfoldable pub copy_down : ℕ → ℕ → ℕ → Run → Run
  copy_down d s zero r = r
  copy_down d s (suc i) r = copy_down d s i (put_byte f (element d i) (r.mem (element s i)) r)

-- `from-to < (int)n`: the length is cut to 32 bits with a sign.
unfoldable pub less_int : ℕ → ℕ → Bool
less_int a n = if ltb (n % 2 ^ 32) (2 ^ 31) then ltb a (n % 2 ^ 32) else false

module _ (f : Flavor) where
  unfoldable pub memmove_naive : ℕ → ℕ → ℕ → Run → Outcome Run
  memmove_naive d s n r =
      assert (ltb n (2 ^ 63 - 1))
      >> ok (
          if (s == d) || (n == 0)
          then r
          else if ltb s d && ltb (d - s) n
          then copy_down f d s n r
          else if ltb d s && less_int (s - d) n
          then copy_up f d s n 0 r
          else memcpy_naive f d s n r)

  -- The first loop of `strncpy_naive` up to a zero byte, and the second, which fills up.
  unfoldable pub string_up : ℕ → ℕ → ℕ → ℕ → Run → Run
  string_up d s zero i r = r
  string_up d s (suc k) i r =
      let rest = string_up d s k (i + 1) (put_byte f (element d i) (r.mem (element s i)) r) in
      if r.mem (element s i) == 0 then set_up f d 0 (suc k) i r else rest

  unfoldable pub strncpy_naive : ℕ → ℕ → ℕ → Run → ℕ × Run
  strncpy_naive d s n r = (d, string_up d s n 0 r)

-- The functions of the C library that the other versions call.
pub record Libc : Type 0 where
  pub memset : (d c n : ℕ) → Run → Run
  pub memcpy : (d s n : ℕ) → Run → Run
  pub memmove : (d s n : ℕ) → Run → Run
  pub strncpy : (d s n : ℕ) → Run → Run

-- `flush_loop` over what was written. Without a macro it flushes nothing.
abbrev pub flush_after : Flavor → ℕ → ℕ → Run → Run
flush_after unflushed d n r = r
flush_after _ d n r = record r { done = r.done ++ map flushed (flush_loop d n) }

module _ (f : Flavor) (libc : Libc) where
  abbrev pub pm_memset : ℕ → ℕ → ℕ → Run → Run
  pm_memset d c n r = flush_after f d n (libc.memset d c n r)

  abbrev pub pm_memcpy : ℕ → ℕ → ℕ → Run → Run
  pm_memcpy d s n r = flush_after f d n (libc.memcpy d s n r)

  abbrev pub pm_memmove : ℕ → ℕ → ℕ → Run → Run
  pm_memmove d s n r = flush_after f d n (libc.memmove d s n r)

  abbrev pub pm_strncpy : ℕ → ℕ → ℕ → Run → ℕ × Run
  pm_strncpy d s n r = (d, flush_after f d n (libc.strncpy d s n r))
