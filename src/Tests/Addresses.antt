-- ===== src/Tests/Addresses.antt =====
-- Ranges of bytes (src/BugReports.cpp, the region AddressInfo).
use hippocrates.Base.{ℕ, ◌/◌, ◌<◌, ◌≡◌, refl, ◌↔◌, ◌⊎◌, true, false, arith, ok, List, [], ◌∷◌}
use hippocrates.Address.{AddressInfo, overlaps, can_add, add, is_single_cache_line}
use hippocrates.Address.Ranges.{
  IsRange, Covers, overlaps-Covers, add-Covers, can_add-gap, is_single_cache_line-Covers,
}
use hippocrates.Persisted.Accumulate.{accumulate}
use hippocrates.Persisted.Sums.{Sums, accumulate-first, accumulate-Sums}

abbrev low : AddressInfo
low = record { address = 64; length = 8 }

abbrev high : AddressInfo
high = record { address = 72; length = 8 }

abbrev far : AddressInfo
far = record { address = 100; length = 40 }

low-IsRange : IsRange low
low-IsRange = omega arith

high-IsRange : IsRange high
high-IsRange = omega arith

far-IsRange : IsRange far
far-IsRange = omega arith

add-low_high : add low high ≡ ok (record { address = 64; length = 16 })
unfolding add
add-low_high = refl

add-Covers_example :
    IsRange (record { address = 64; length = 16 })
    × ((x : ℕ) → Covers (record { address = 64; length = 16 }) x ↔ (Covers low x ⊎ Covers high x))
add-Covers_example = add-Covers low high _ low-IsRange high-IsRange add-low_high

overlaps-Covers_example : (overlaps low high ≡ true) ↔ ((x : ℕ) × Covers low x × Covers high x)
overlaps-Covers_example = overlaps-Covers low high low-IsRange high-IsRange

can_add-gap_example : (can_add low far ≡ ok false) ↔ ((72 < 100) ⊎ (140 < 64))
can_add-gap_example = can_add-gap low far low-IsRange far-IsRange

is_single_cache_line-Covers_example :
    (is_single_cache_line 64 far ≡ true) ↔ ((x : ℕ) → Covers far x → x / 64 ≡ 100 / 64)
is_single_cache_line-Covers_example = is_single_cache_line-Covers 64 far (omega arith) far-IsRange

accumulate-Sums_example :
    (r : AddressInfo × List AddressInfo) × (accumulate low [] far ≡ ok r)
    × Sums (low ∷ far ∷ []) r.0 r.1
accumulate-Sums_example =
    accumulate-Sums (low ∷ []) low [] far (accumulate-first low low-IsRange).1 far-IsRange
