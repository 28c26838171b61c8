-- ===== src/Fix/Laws.antt =====
-- `BugFixer::addFixToMapping` (src/BugFixer.cpp) against its purpose: the fix that stands at a
-- location has the effects of all that were added there.
use hippocrates.Base.{
  ◌≡◌, refl, sym, ◌∙◌, ◌⊎◌, inl, inr, ◌↔◌, Bool, true, false, Option, none, some, [], arith, ok,
  aborted, Bool-cases, Outcome-cases, Option-cases,
}
use hippocrates.Ir.{Module}
use hippocrates.FixLoc.{FixLoc, is_valid}
use hippocrates.FixLoc
use hippocrates.Fix.{fix_desc, FixType, FixDesc, no_fix, is, desc_eq}
use hippocrates.Fix.Map.{FixMap, lookup, lookup-insert, Ordered, insert-Ordered}
use hippocrates.Fix.Merge.{is_primative, resolve, write_back, add_to, add_fix_to_mapping}
use hippocrates.Fix.Effects.{
  is_correctness, IsPlain, or_old, Joins, resolve-Joins, eq-Joins, desc_eq-plain, clash,
  resolve-clash,
}

eq_refl : (fl : FixLoc) → FixLoc.eq fl fl ≡ true
unfolding FixLoc.eq
eq_refl fl = ground arith

-- A run that returns: the assertions hold, and the map is written back once or not at all.
record Ran (fixes after : FixMap) (fl : FixLoc) (added : Bool) (r : Option FixDesc) : Type 0 where
  map_after : after ≡ (write_back fl fixes r).0
  result : added ≡ (write_back fl fixes r).1

module _ (fixes after : FixMap) (fl : FixLoc) (added : Bool) (r : Option FixDesc)
    (ran : Ran fixes after fl added r) where
  Ran-frame :
      (other : FixLoc) → FixLoc.eq fl other ≡ false → lookup other after ≡ lookup other fixes
  unfolding write_back
  Ran-frame other apart =
      ground (arith, lookup-insert fl other (or_old (fix_desc no_fix [] 0) r) fixes)

  Ran-Ordered : Ordered fixes → Ordered after
  unfolding write_back
  Ran-Ordered o = rw ran.map_after (write_back-Ordered r)
    where
      write_back-Ordered : (r : Option FixDesc) → Ordered (write_back fl fixes r).0
      write_back-Ordered none = o
      write_back-Ordered (some d) = insert-Ordered fl d fixes o

  Ran-same : added ≡ false → after ≡ fixes
  unfolding write_back
  Ran-same h = ground arith

  Ran-lookup : (old : FixDesc) → lookup fl fixes ≡ some old → lookup fl after ≡ some (or_old old r)
  unfolding write_back
  Ran-lookup old h = ground (arith, lookup-insert fl fl (or_old old r) fixes, eq_refl fl)

module _ (m : Module) (fixes after : FixMap) (fl : FixLoc) (desc : FixDesc) (added : Bool)
    (ran : add_fix_to_mapping m fixes fl desc ≡ ok (after, added)) where
  to_lem : add_to fixes fl desc (lookup fl fixes) ≡ ok (after, added)
  unfolding add_fix_to_mapping
  to_lem = ground arith

  first_Ran : lookup fl fixes ≡ none → Ran fixes after fl added (some desc)
  unfolding add_to write_back
  first_Ran h = let at = rw h at to_lem in ground arith

  later_Ran :
      (old : FixDesc)
      → lookup fl fixes ≡ some old
      → (r : Option FixDesc) × ((desc_eq old desc ≡ true) × (r ≡ none) ⊎ (resolve old desc ≡ ok r))
        × Ran fixes after fl added r
  unfolding add_to
  later_Ran old h = elim (Bool-cases (desc_eq old desc)) [
    | inl same ↦
        let at = rw (h, add_to, same) at to_lem in
        (none, inl (same, refl), unfold write_back in ground arith)
    | inr other ↦ elim (Outcome-cases (resolve old desc)) [
      | inl bad ↦ let at = rw (h, add_to, other, bad) at to_lem in cc
      | inr (r, e) ↦ let at = rw (h, add_to, other, e) at to_lem in (r, inr e, ground arith)
    ]
  ]

  any_Ran : (r : Option FixDesc) × Ran fixes after fl added r
  any_Ran = elim (Option-cases (lookup fl fixes)) [
    | inl h ↦ (some desc, first_Ran h)
    | inr (old, h) ↦ let (r, _, ran') = later_Ran old h in (r, ran')
  ]

  -- Adding a fix at one location leaves the others alone, keeps the map in order, and changes
  -- nothing where it returns false.
  pub add-frame :
      ((other : FixLoc) → FixLoc.eq fl other ≡ false → lookup other after ≡ lookup other fixes)
      × (Ordered fixes → Ordered after)
      × (added ≡ false → after ≡ fixes)
  add-frame =
      let (r, ran') = any_Ran in
      (
        Ran-frame fixes after fl added r ran',
        Ran-Ordered fixes after fl added r ran',
        Ran-same fixes after fl added r ran',
      )

  -- Where two fixes that add flushes or fences meet, what stands there afterwards flushes exactly
  -- if either did, and fences exactly if either did.
  pub add-Joins :
      (old : FixDesc)
      → lookup fl fixes ≡ some old
      → is_correctness old.type ≡ true
      → is_correctness desc.type ≡ true
      → (new : FixDesc) × (lookup fl after ≡ some new) × Joins old desc new
  add-Joins old h p q =
      let (r, how, ran') = later_Ran old h in
      (
        or_old old r,
        Ran-lookup fixes after fl added r ran' old h,
        elim how [
          | inl (same, unchanged) ↦ rw unchanged (eq-Joins old desc same)
          | inr resolved ↦ resolve-Joins old desc r p q resolved
        ],
      )

clash-differ : (t u : FixType) → clash t u ≡ true → is t u ≡ false
unfolding is_primative
clash-differ t u h = ground arith

is_correctness-no_fix : (t : FixType) → is_correctness t ≡ true → is t no_fix ≡ false
is_correctness-no_fix t h = ground arith

to-clash :
    (fixes : FixMap) (fl : FixLoc) (old desc : FixDesc)
    → is_correctness old.type ≡ true
    → is_correctness desc.type ≡ true
    → IsPlain old
    → IsPlain desc
    → (add_to fixes fl desc (some old) ≡ aborted) ↔ (clash old.type desc.type ≡ true)
unfolding add_to
to-clash fixes fl old desc p q pl pd = elim (Bool-cases (desc_eq old desc)) [
  | inl same ↦
      ground (arith, clash-differ old.type desc.type, sym (desc_eq-plain old desc pl pd) ∙ same)
  | inr other ↦ ground (
    arith,
    resolve-clash old desc p q (sym (desc_eq-plain old desc pl pd) ∙ other),
    Outcome-cases (resolve old desc),
  )
]

-- At a valid location with a fix that adds a flush or a fence, adding another one stops at an
-- assertion exactly if one of the two is a raised flush without a fence and the other a low-level
-- fix, but for a raised flush to which a fence is added.
pub add-clash :
    (m : Module) (fixes : FixMap) (fl : FixLoc) (old desc : FixDesc)
    → is_valid m fl ≡ true
    → lookup fl fixes ≡ some old
    → is_correctness old.type ≡ true
    → is_correctness desc.type ≡ true
    → IsPlain old
    → IsPlain desc
    → (add_fix_to_mapping m fixes fl desc ≡ aborted) ↔ (clash old.type desc.type ≡ true)
unfolding add_fix_to_mapping
add-clash m fixes fl old desc valid h p q pl pd =
    rw (valid, h, is_correctness-no_fix desc.type q) (to-clash fixes fl old desc p q pl pd)
