-- ===== src/Fix/Map.antt =====
-- `fixMap_` of src/BugFixer.hpp, a `std::map` ordered by `FixLoc::Compare`: an ordered list.
use hippocrates.Base.{
  true, false, ◌≡◌, refl, Option, none, some, List, [], ◌∷◌, arith, if◌then◌else◌, All,
}
use hippocrates.FixLoc.{FixLoc}
use hippocrates.FixLoc
use hippocrates.Fix.{FixDesc}

abbrev pub FixMap : Type 0
FixMap = List (FixLoc × FixDesc)

unfoldable pub lookup : FixLoc → FixMap → Option FixDesc
lookup fl [] = none
lookup fl ((k, d) ∷ m) = if FixLoc.eq k fl then some d else lookup fl m

-- `fixMap_[fl] = desc`; a key that is there stays.
unfoldable pub insert : FixLoc → FixDesc → FixMap → FixMap
insert fl desc [] = (fl, desc) ∷ []
insert fl desc ((k, d) ∷ m) =
    let rest = insert fl desc m in
    if FixLoc.eq k fl
    then (k, desc) ∷ m
    else if FixLoc.compare fl k
    then (fl, desc) ∷ (k, d) ∷ m
    else (k, d) ∷ rest

-- `fixMap_.erase(fl)`: an ordered map has at most one such key.
unfoldable pub erase : FixLoc → FixMap → FixMap
erase fl [] = []
erase fl ((k, d) ∷ m) = let rest = erase fl m in if FixLoc.eq k fl then m else (k, d) ∷ rest

pub lookup-insert :
    (fl other : FixLoc) (desc : FixDesc) (m : FixMap)
    → lookup other (insert fl desc m) ≡ (if FixLoc.eq fl other then some desc else lookup other m)
unfolding lookup insert FixLoc.eq
lookup-insert fl other desc [] = refl
lookup-insert fl other desc ((k, d) ∷ m) = ground (arith, lookup-insert fl other desc m)

-- The keys stand in the order of `Compare`.
abbrev pub Ordered : FixMap → Type 0
Ordered [] = Unit
Ordered ((k, d) ∷ m) = All (λ e. FixLoc.compare k e.0 ≡ true) m × Ordered m

insert-All :
    (k fl : FixLoc) (desc : FixDesc) (m : FixMap)
    → FixLoc.compare k fl ≡ true
    → All (λ e. FixLoc.compare k e.0 ≡ true) m
    → All (λ e. FixLoc.compare k e.0 ≡ true) (insert fl desc m)
unfolding insert
insert-All k fl desc [] h a = (h, tt)
insert-All k fl desc ((j, d) ∷ m) h a = ground (arith, insert-All k fl desc m)

compare_trans :
    (a b c : FixLoc)
    → FixLoc.compare a b ≡ true
    → FixLoc.compare b c ≡ true
    → FixLoc.compare a c ≡ true
unfolding FixLoc.compare
compare_trans a b c p q = ground arith

compare-All :
    (a b : FixLoc) (m : FixMap)
    → FixLoc.compare a b ≡ true
    → All (λ e. FixLoc.compare b e.0 ≡ true) m
    → All (λ e. FixLoc.compare a e.0 ≡ true) m
compare-All a b [] h t = tt
compare-All a b ((k, d) ∷ m) h t = (compare_trans a b k h t.0, compare-All a b m h t.1)

compare-total :
    (k fl : FixLoc)
    → FixLoc.eq k fl ≡ false
    → FixLoc.compare fl k ≡ false
    → FixLoc.compare k fl ≡ true
unfolding FixLoc.compare FixLoc.eq
compare-total k fl p q = ground arith

pub insert-Ordered :
    (fl : FixLoc) (desc : FixDesc) (m : FixMap) → Ordered m → Ordered (insert fl desc m)
unfolding insert
insert-Ordered fl desc [] o = (tt, tt)
insert-Ordered fl desc ((k, d) ∷ m) o = ground (
  arith,
  insert-Ordered fl desc m,
  insert-All k fl desc m,
  compare-total k fl,
  compare-All fl k m,
)

eq-compare :
    (k fl other : FixLoc)
    → FixLoc.eq k fl ≡ true
    → FixLoc.eq fl other ≡ true
    → FixLoc.compare k other ≡ false
unfolding FixLoc.compare FixLoc.eq
eq-compare k fl other p q = ground arith
