-- ===== src/PmDesc.antt =====
-- src/FlowAnalyzer.hpp and src/FlowAnalyzer.cpp: `PmDesc`, which values point to persistent memory.
-- The result of the Andersen analysis is a parameter: `none` where it has none for a value. A set of
-- values is a list.
pub mod Cache
pub mod Seeds
use hippocrates.Base.{
  ℕ, ◌+◌, Bool, true, false, not, ◌&&◌, ◌||◌, Option, none, some, List, [], ◌∷◌, is_empty, ltb,
  ◌==◌, if◌then◌else◌, Outcome, ok, aborted, assert, ◌>>=◌, ◌>>◌,
}
use hippocrates.Ir.{
  Value, Sort, alloca, function_value, global, constant, int_constant, other_value,
}

-- What the analysis says of a value.
abbrev pub Anders : Type 0
Anders = Value → Option (List Value)

-- Sets of values, which are pointers.
unfoldable pub has : Value → List Value → Bool
has v [] = false
has v (w ∷ ws) = if w.addr == v.addr then true else has v ws

unfoldable pub insert : Value → List Value → List Value
insert v ws = if has v ws then ws else v ∷ ws

unfoldable pub insert_all : List Value → List Value → List Value
insert_all [] ws = ws
insert_all (v ∷ vs) ws = insert_all vs (insert v ws)

pub record PmDesc : Type 0 where
  pub locals : List Value
  pub globals : List Value

-- Stack slots are volatile, and functions and constants are no memory of the program. A global
-- variable is a constant, too.
abbrev pub is_site : Sort → Bool
is_site alloca = false
is_site function_value = false
is_site global = false
is_site constant = false
is_site (int_constant n) = false
is_site other_value = true

abbrev pub is_global : Sort → Bool
is_global function_value = true
is_global global = true
is_global _ = false

unfoldable pub filtered : List Value → List Value
filtered [] = []
filtered (v ∷ vs) = if is_site v.sort then v ∷ filtered vs else filtered vs

-- A value that points to nothing stands for itself.
abbrev pub or_self : Value → List Value → List Value
or_self v [] = v ∷ []
or_self v (w ∷ ws) = w ∷ ws

unfoldable pub count_both : List Value → List Value → List Value → ℕ
count_both pm pts [] = 0
count_both pm pts (v ∷ vs) = (if has v pm && has v pts then 1 else 0) + count_both pm pts vs

-- The size of the intersection, which is counted on the union.
unfoldable pub num_pm_aliases : PmDesc → List Value → ℕ
num_pm_aliases d pts =
    let pm_values = insert_all d.globals (insert_all d.locals []) in
    count_both pm_values pts (insert_all pts (insert_all pm_values []))

module _ (anders : Anders) where
  -- `getPointsToSet`, as what it fills the set with; Cache.antt has the cache.
  unfoldable pub points_to_set : Value → Option (List Value)
  points_to_set v = elim (anders v) [ none ↦ none | some raw ↦ some (insert_all raw []) ]

  unfoldable pub contains : Value → Bool
  contains v = elim (points_to_set v) [ none ↦ false | some pts ↦ true ]

  unfoldable pub add_known_pm_value : PmDesc → Value → Outcome PmDesc
  add_known_pm_value d pmv = elim (points_to_set pmv) [
    | none ↦ aborted
    | some pts ↦
        let seeds = filtered (or_self pmv pts) in
        ok (
          if is_global pmv.sort
          then record d { globals = insert_all seeds d.globals }
          else record d { locals = insert_all seeds d.locals })
  ]

  unfoldable pub points_to_pm : PmDesc → Value → Outcome Bool
  points_to_pm d v = elim (points_to_set v) [
    | none ↦ aborted
    | some pts ↦ ok (ltb 0 (num_pm_aliases d (or_self v pts)))
  ]

-- `doReturn`: the globals of the callee are kept.
abbrev pub do_return : PmDesc → PmDesc → PmDesc
do_return d callee = record d { globals = callee.globals }
