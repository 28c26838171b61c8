-- ===== src/PmDesc/Cache.antt =====
-- The cache in front of the analysis (src/FlowAnalyzer.cpp, `PmDesc::getPointsToSet`).
use hippocrates.Base.{
  ℕ, ◌≡◌, refl, sym, ◌∙◌, inl, inr, Option, none, some, List, [], ◌∷◌, ◌==◌, if◌then◌else◌, arith,
  Bool-cases, Option-cases,
}
use hippocrates.Ir.{Value}
use hippocrates.PmDesc.{Anders, points_to_set}

-- From the address of a value to its set.
abbrev pub Cache : Type 0
Cache = List (ℕ × List Value)

unfoldable pub cached : Cache → ℕ → Option (List Value)
cached [] p = none
cached ((q, s) ∷ c) p = if q == p then some s else cached c p

-- A set that the analysis has is kept, and a refusal is not.
unfoldable pub get_points_to_set : Anders → Cache → Value → Option (List Value) × Cache
get_points_to_set anders c v = elim (cached c v.addr) [
  | some s ↦ (some s, c)
  | none ↦ elim (points_to_set anders v) [ none ↦ (none, c) | some s ↦ (some s, (v.addr, s) ∷ c) ]
]

-- What stands in the cache for a value is what the analysis says of it.
abbrev pub Agrees : Anders → Cache → Type 0
Agrees anders c =
    (v : Value) (s : List Value) → cached c v.addr ≡ some s → points_to_set anders v ≡ some s

kept :
    (anders : Anders) (c : Cache) (v : Value) (s : List Value)
    → cached c v.addr ≡ some s
    → get_points_to_set anders c v ≡ (some s, c)
unfolding get_points_to_set
kept anders c v s e = rw (get_points_to_set, e) refl

refused :
    (anders : Anders) (c : Cache) (v : Value)
    → cached c v.addr ≡ none
    → points_to_set anders v ≡ none
    → get_points_to_set anders c v ≡ (none, c)
unfolding get_points_to_set
refused anders c v e e' = rw (get_points_to_set, e, e') refl

filled :
    (anders : Anders) (c : Cache) (v : Value) (s : List Value)
    → cached c v.addr ≡ none
    → points_to_set anders v ≡ some s
    → get_points_to_set anders c v ≡ (some s, (v.addr, s) ∷ c)
unfolding get_points_to_set
filled anders c v s e e' = rw (get_points_to_set, e, e') refl

same_sets :
    (anders : Anders) (v w : Value)
    → anders v ≡ anders w
    → points_to_set anders v ≡ points_to_set anders w
unfolding points_to_set
same_sets anders v w e = rw (points_to_set, e) refl

Agrees-filled :
    (anders : Anders) (c : Cache) (v : Value) (s : List Value)
    → ((a b : Value) → a.addr ≡ b.addr → anders a ≡ anders b)
    → points_to_set anders v ≡ some s
    → Agrees anders c
    → Agrees anders ((v.addr, s) ∷ c)
unfolding cached
Agrees-filled anders c v s by_addr e agrees w t found = elim (Bool-cases (v.addr == w.addr)) [
  | inl same ↦ sym (same_sets anders v w (by_addr v w (ground arith))) ∙ e ∙ ground arith
  | inr other ↦ agrees w t (ground arith)
]

-- Where the analysis looks at addresses only and the cache agrees with it, the cache changes no
-- result, and it agrees afterwards.
pub get_points_to_set-points_to_set :
    (anders : Anders) (c : Cache) (v : Value)
    → ((a b : Value) → a.addr ≡ b.addr → anders a ≡ anders b)
    → Agrees anders c
    → ((get_points_to_set anders c v).0 ≡ points_to_set anders v)
      × Agrees anders (get_points_to_set anders c v).1
get_points_to_set-points_to_set anders c v by_addr agrees = elim (Option-cases (cached c v.addr)) [
  | inr (s, e) ↦ rw (kept anders c v s e) (sym (agrees v s e), agrees)
  | inl e ↦ elim (Option-cases (points_to_set anders v)) [
    | inl e' ↦ rw (refused anders c v e e') (sym e', agrees)
    | inr (s, e') ↦
        rw (filled anders c v s e e') (sym e', Agrees-filled anders c v s by_addr e' agrees)
  ]
]
