-- ===== src/Address/Ranges.antt =====
-- `AddressInfo` read as a set of bytes (src/BugReports.cpp, the region AddressInfo).
use native.Mathlib.Nat.{le-div_iff_mul-le, div-mul-le_self, le_trans}
use hippocrates.Base.{
  ℕ, min, max, ◌+◌, ◌/◌, ◌^◌, ◌≤◌, ◌<◌, ◌≡◌, ◌↔◌, ◌⊎◌, true, false, arith, ok, aborted,
}
use hippocrates.Address.{AddressInfo, end, is_single_cache_line, overlaps, contains, can_add, add}

-- A range that is not empty, and ends below the last byte of the address space.
pub record IsRange (a : AddressInfo) : Type 0 where
  pub filled : 0 < a.length
  pub fits : a.address + a.length < 2 ^ 64

abbrev pub Covers : AddressInfo → ℕ → Type 0
Covers a x = (a.address ≤ x) × (x < a.address + a.length)

pub end_lem : (a : AddressInfo) → IsRange a → end a + 1 ≡ a.address + a.length
end_lem a r = omega arith

-- Two ranges that are not empty and do not wrap overlap exactly when some byte lies in both.
pub overlaps-Covers :
    (a b : AddressInfo)
    → IsRange a
    → IsRange b
    → (overlaps a b ≡ true) ↔ ((x : ℕ) × Covers a x × Covers b x)
unfolding overlaps
overlaps-Covers a b r s =
    (λ h. (max a.address b.address, ground arith, ground arith), λ (x, in_a, in_b). ground arith)

-- A range contains another one exactly if it covers every address that the other one covers.
pub contains-Covers :
    (a b : AddressInfo)
    → IsRange a
    → IsRange b
    → (contains a b ≡ true) ↔ ((x : ℕ) → Covers b x → Covers a x)
unfolding contains
contains-Covers a b r s = (λ h x c. ground arith, λ all. ground (arith, all b.address, all (end b)))

-- The fields of a sum, and that no byte between the two ranges is left out.
record IsSum (a b c : AddressInfo) : Type 0 where
  first : c.address ≡ min a.address b.address
  last : c.address + c.length ≡ max (a.address + a.length) (b.address + b.length)
  joined : (a.address ≤ b.address + b.length) × (b.address ≤ a.address + a.length)

add-IsSum : (a b c : AddressInfo) → IsRange a → IsRange b → add a b ≡ ok c → IsSum a b c
unfolding add
add-IsSum a b c r s h = record { first = ground arith; last = ground arith; joined = ground arith }

-- The sum of two ranges is a range that has exactly the bytes of both.
pub add-Covers :
    (a b c : AddressInfo)
    → IsRange a
    → IsRange b
    → add a b ≡ ok c
    → IsRange c × ((x : ℕ) → Covers c x ↔ (Covers a x ⊎ Covers b x))
add-Covers a b c r s h =
    let sum = add-IsSum a b c r s h in (ground arith, λ x. (λ k. ground arith, λ k. ground arith))

pub add-can_add :
    (a b : AddressInfo) → (add a b ≡ aborted) ↔ ((can_add a b ≡ ok false) ⊎ (can_add a b ≡ aborted))
unfolding add can_add
add-can_add a b = ground arith

-- `canAdd` refuses two ranges exactly when a byte between them is in neither.
pub can_add-gap :
    (a b : AddressInfo)
    → IsRange a
    → IsRange b
    → (can_add a b ≡ ok false)
      ↔ ((a.address + a.length < b.address) ⊎ (b.address + b.length < a.address))
unfolding can_add
can_add-gap a b r s = ground arith

div_mono : (k x y : ℕ) → 0 < k → x ≤ y → x / k ≤ y / k
div_mono k x y pos h = (le-div_iff_mul-le pos).1 (le_trans (div-mul-le_self x k) h)

-- A range stands in one cache line exactly when all of its bytes do.
pub is_single_cache_line-Covers :
    (cl_sz : ℕ) (a : AddressInfo)
    → 0 < cl_sz
    → IsRange a
    → (is_single_cache_line cl_sz a ≡ true) ↔ ((x : ℕ) → Covers a x → x / cl_sz ≡ a.address / cl_sz)
unfolding is_single_cache_line
is_single_cache_line-Covers cl_sz a pos r = (
  λ h x c. ground (arith, div_mono cl_sz a.address x pos, div_mono cl_sz x (end a) pos),
  λ all. ground (arith, all (end a)),
)
