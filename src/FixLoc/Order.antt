-- ===== src/FixLoc/Order.antt =====
-- `FixLoc::Compare` orders the keys of the fix map (src/BugReports.cpp, the region FixLoc).
use hippocrates.Base.{◌≡◌, ◌↔◌, true, false, arith}
use hippocrates.FixLoc.{FixLoc, compare, eq}

-- `Compare` is a strict order: no location stands before itself, and it is transitive.
pub compare-strict :
    (a b c : FixLoc)
    → (compare a a ≡ false) × (compare a b ≡ true → compare b c ≡ true → compare a c ≡ true)
unfolding compare
compare-strict a b c = ground arith

-- Of two locations either one is before the other, or `operator==` holds, and never two of these:
-- keys that the map does not tell apart are the equal ones.
pub compare-eq : (a b : FixLoc) → ((compare a b ≡ false) × (compare b a ≡ false)) ↔ (eq a b ≡ true)
unfolding compare eq
compare-eq a b = ground arith
