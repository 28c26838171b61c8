-- ===== src/Mapping/Span.antt =====
-- The ranges of the mapper (src/BugReports.cpp, `BugLocationMapper::createMappings`).
use hippocrates.Base.{
  ℕ, ◌≤◌, ◌≡◌, refl, inl, inr, List, [], ◌∷◌, if◌then◌else◌, arith, All, Bool-cases,
}
use hippocrates.Ir.{Block, Inst}
use hippocrates.Location.{LocationInfo}
use hippocrates.Mapping.{index_of, dominates, span, last_of, fix_loc_of}

module _ (b : Block) where
  abbrev pub place : Inst → ℕ
  place i = index_of i.id b.insts

  earlier :
      (i first : Inst)
      → let f = if dominates b i first then i else first in
        (place f ≤ place first) × (place f ≤ place i)
  earlier i first = elim (Bool-cases (dominates b i first)) [
    | inl e ↦ rw (e) (ground arith)
    | inr e ↦ rw (e) (ground arith)
  ]

  later :
      (i last : Inst)
      → let l = if dominates b last i then i else last in
        (place last ≤ place l) × (place i ≤ place l)
  later i last = elim (Bool-cases (dominates b last i)) [
    | inl e ↦ rw (e) (ground arith)
    | inr e ↦ rw (e) (ground arith)
  ]

  abbrev pub Between : Inst × Inst → Inst → Type 0
  Between r j = (place r.0 ≤ place j) × (place j ≤ place r.1)

  span-outer :
      (is : List Inst) (first last : Inst)
      → let r = span b is first last in
        (place r.0 ≤ place first) × (place last ≤ place r.1) × All (Between r) is
  unfolding span
  span-outer [] first last = (omega arith, omega arith, tt)
  span-outer (i ∷ is) first last =
      let (lo, hi, all) =
        span-outer is (if dominates b i first then i else first)
          (if dominates b last i then i else last) in
      let (e1, e2) = earlier i first in
      let (l1, l2) = later i last in (omega arith, omega arith, ((omega arith, omega arith), all))

  -- The range for the instructions of a line in a block spans all of them.
  pub fix_loc_of-Between :
      (li : LocationInfo) (i : Inst) (is : List Inst)
      → (f : Inst) × (l : Inst) × ((fix_loc_of li b i is).first ≡ f.id)
        × ((fix_loc_of li b i is).last ≡ l.id)
        × All (Between (f, l)) (i ∷ is)
  unfolding fix_loc_of
  fix_loc_of-Between li i is =
      let r = span b (i ∷ is) i (last_of i is) in
      (r.0, r.1, refl, refl, (span-outer (i ∷ is) i (last_of i is)).2)
