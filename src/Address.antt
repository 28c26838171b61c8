-- ===== src/Address.antt =====
-- src/BugReports.hpp and src/BugReports.cpp: `AddressInfo`, a range of bytes with 64-bit ends.
pub mod Ranges
use hippocrates.Base.{
  ℕ, ◌+◌, ◌-◌, ◌/◌, ◌%◌, ◌^◌, min, max, Bool, true, ◌&&◌, ltb, leb, ◌==◌, if◌then◌else◌, Outcome,
  ok, assert, ◌>>◌,
}

abbrev pub u64 : ℕ → ℕ
u64 n = n % 2 ^ 64

pub record AddressInfo : Type 0 where
  pub address : ℕ
  pub length : ℕ

-- The default constructor.
abbrev pub no_address : AddressInfo
no_address = record { address = 0; length = 0 }

abbrev pub start : AddressInfo → ℕ
start a = a.address

-- `address + length - 1llu`, with the wrap-around of `uint64_t`.
abbrev pub end : AddressInfo → ℕ
end a = u64 (a.address + a.length + (2 ^ 64 - 1))

-- `cl_sz` is what `sysconf(_SC_LEVEL1_DCACHE_LINESIZE)` returns.
unfoldable pub is_single_cache_line : ℕ → AddressInfo → Bool
is_single_cache_line cl_sz a = (start a / cl_sz) == (end a / cl_sz)

unfoldable pub overlaps : AddressInfo → AddressInfo → Bool
overlaps a b = leb (start a) (end b) && leb (start b) (end a)

unfoldable pub contains : AddressInfo → AddressInfo → Bool
contains a b = leb (start a) (start b) && leb (end b) (end a)

unfoldable pub eq : AddressInfo → AddressInfo → Bool
eq a b = (a.address == b.address) && (a.length == b.length)

unfoldable pub can_add : AddressInfo → AddressInfo → Outcome Bool
can_add a b =
    if a.length == 0
    then (do assert (a.address == 0); ok true)
    else if ltb b.address a.address
    then ok (leb a.address (u64 (end b + 1)))
    else ok (leb b.address (u64 (end a + 1)))

-- `operator+=`
unfoldable pub add : AddressInfo → AddressInfo → Outcome AddressInfo
add a b = if a.length == 0 then (do assert (a.address == 0); ok b) else (do
  assert (
      if ltb b.address a.address
      then leb a.address (u64 (end b + 1))
      else leb b.address (u64 (end a + 1)))
  let new_address = min b.address a.address
  ok (record {
    address = new_address;
    length = u64 (max (end b) (end a) + 1 + (2 ^ 64 - new_address));
  }))
