-- ===== src/Fix/Joint.antt =====
-- Several low-level fixes at one location (`addFixToMapping` of src/BugFixer.cpp, called in turn).
use mathlib.Core.Path.{subst₂}
use hippocrates.Base.{
  subst, ◌≡◌, refl, sym, ◌∙◌, inl, inr, Bool, true, false, ◌||◌, none, some, List, [], ◌∷◌, arith,
  Outcome, ok, ◌>>=◌, Bool-cases, All,
}
use hippocrates.Ir.{Module}
use hippocrates.FixLoc.{FixLoc, is_valid}
use hippocrates.FixLoc
use hippocrates.Fix.{FixType, FixDesc, no_fix, add_flush_and_fence, is, desc_eq}
use hippocrates.Fix.Map.{FixMap, lookup, insert, lookup-insert}
use hippocrates.Fix.Merge.{is_primative, write_back, add_to, add_fix_to_mapping}
use hippocrates.Fix.Effects.{
  flushes, fences, is_correctness, IsPlain, desc_eq-plain, resolve-primative,
}

-- What stands at a location: nothing, or a low-level fix with these effects.
pub data Stands (fixes : FixMap) (fl : FixLoc) (flush fence : Bool) : Type 0 where
  nothing : lookup fl fixes ≡ none → flush ≡ false → fence ≡ false → Stands fixes fl flush fence
  fix :
      (d : FixDesc)
      → lookup fl fixes ≡ some d
      → IsPlain d
      → is_primative d.type ≡ true
      → flushes d.type ≡ flush
      → fences d.type ≡ fence
      → Stands fixes fl flush fence

-- Adding the fixes of a list at one location, in the order of the list.
pub add_all : Module → FixMap → FixLoc → List FixDesc → Outcome FixMap
add_all m fixes fl [] = ok fixes
add_all m fixes fl (d ∷ ds) = do r ← add_fix_to_mapping m fixes fl d; add_all m r.0 fl ds

abbrev pub any_flush : List FixDesc → Bool
any_flush [] = false
any_flush (d ∷ ds) = flushes d.type || any_flush ds

abbrev pub any_fence : List FixDesc → Bool
any_fence [] = false
any_fence (d ∷ ds) = fences d.type || any_fence ds

pub record IsLowLevel (d : FixDesc) : Type 0 where
  pub plain : IsPlain d
  pub low : is_primative d.type ≡ true

eq_refl : (fl : FixLoc) → FixLoc.eq fl fl ≡ true
unfolding FixLoc.eq
eq_refl fl = ground arith

is_primative_correct :
    (t : FixType) → is_primative t ≡ true → (is_correctness t ≡ true) × (is t no_fix ≡ false)
unfolding is_primative
is_primative_correct t h = ground arith

upgraded :
    (t u : FixType)
    → is_primative t ≡ true
    → is_primative u ≡ true
    → is t u ≡ false
    → is t add_flush_and_fence ≡ false
    → (true ≡ flushes t || flushes u) × (true ≡ fences t || fences u)
unfolding is_primative
upgraded t u p q d e = ground arith

or-false : (b : Bool) → b ≡ b || false
or-false true = refl
or-false false = refl

or_assoc : (a b c : Bool) → (a || b) || c ≡ a || (b || c)
or_assoc true b c = refl
or_assoc false b c = refl

module _ (m : Module) (fl : FixLoc) (valid : is_valid m fl ≡ true) where
  entry :
      (fixes : FixMap) (d : FixDesc)
      → is_primative d.type ≡ true
      → add_fix_to_mapping m fixes fl d ≡ add_to fixes fl d (lookup fl fixes)
  unfolding add_fix_to_mapping
  entry fixes d low = ground (arith, is_primative_correct d.type low)

  add_step :
      (fixes : FixMap) (flush fence : Bool) (d : FixDesc)
      → IsLowLevel d
      → Stands fixes fl flush fence
      → (r : FixMap × Bool) × (add_fix_to_mapping m fixes fl d ≡ ok r)
        × Stands r.0 fl (flush || flushes d.type) (fence || fences d.type)
  unfolding add_to write_back
  add_step fixes flush fence d l (nothing h f n) = (
    (insert fl d fixes, true),
    entry fixes d l.low ∙ rw h refl,
    fix d (ground (arith, lookup-insert fl fl d fixes, eq_refl fl)) l.plain l.low (rw f refl)
        (rw n refl),
  )
  add_step fixes flush fence d l (fix old h plain low f n) = elim (Bool-cases (desc_eq old d)) [
    | inl same ↦ (
      (fixes, false),
      entry fixes d l.low ∙ rw (h, add_to, same) refl,
      fix old h plain low (ground (arith, desc_eq-plain old d plain l.plain))
          (ground (arith, desc_eq-plain old d plain l.plain)),
    )
    | inr differ ↦
        let apart = sym (desc_eq-plain old d plain l.plain) ∙ differ in
        elim (Bool-cases (is old.type add_flush_and_fence)) [
          | inl both ↦ (
            (fixes, false),
            entry fixes d l.low
                ∙ rw (h, add_to, differ, resolve-primative old d low l.low apart, both) refl,
            fix old h plain low (ground arith) (ground arith),
          )
          | inr less ↦
              let up = upgraded old.type d.type low l.low apart less in
              let new = record old { type = add_flush_and_fence } in
              (
                (insert fl new fixes, true),
                entry fixes d l.low
                    ∙ rw (h, add_to, differ, resolve-primative old d low l.low apart, less) refl,
                fix new (ground (arith, lookup-insert fl fl new fixes, eq_refl fl))
                    (record { no_originals = plain.no_originals; no_points = plain.no_points })
                    (unfold is_primative in refl) (subst (λ b. true ≡ b || flushes d.type) f up.0)
                    (subst (λ b. true ≡ b || fences d.type) n up.1),
              )
        ]
  ]

  -- Low-level fixes added at one valid location, in whatever order, always merge, into the one
  -- low-level fix that flushes if one of them does and fences if one of them does.
  pub add_all-Stands :
      (ds : List FixDesc) (fixes : FixMap) (flush fence : Bool)
      → All IsLowLevel ds
      → Stands fixes fl flush fence
      → (after : FixMap) × (add_all m fixes fl ds ≡ ok after)
        × Stands after fl (flush || any_flush ds) (fence || any_fence ds)
  unfolding add_all
  add_all-Stands [] fixes flush fence a s =
      (fixes, refl, subst₂ (Stands fixes fl) (or-false flush) (or-false fence) s)
  add_all-Stands (d ∷ ds) fixes flush fence a s =
      let (r, ran, s') = add_step fixes flush fence d a.0 s in
      let (after, rest, s'') = add_all-Stands ds r.0 _ _ a.1 s' in
      (after, rw ran rest, subst₂ (Stands after fl) (or_assoc flush _ _) (or_assoc fence _ _) s'')
