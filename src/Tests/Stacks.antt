-- ===== src/Tests/Stacks.antt =====
-- Call stacks and values of events on a small module (src/BugReports.cpp).
use hippocrates.Base.{
  true, ◌↔◌, Any, ◌≡◌, refl, false, none, some, List, [], ◌∷◌, codes, pos, ok, text_eq, occurs_in,
  starts_with, ◌||◌, is_empty, arith, if◌then◌else◌,
}
use hippocrates.Location.{LocationInfo, valid}
use hippocrates.Location
use hippocrates.Ir.{Value, Inst, parent, find_block, has_inst, after, non_debug}
use hippocrates.FixLoc.{FixLoc, insts, insts_in, is_valid, walk_to, from, same_place}
use hippocrates.Raise.{Mapper}
use hippocrates.Trace.{TraceEvent, store}
use hippocrates.Trace
use hippocrates.Trace.Resolve.{
  resolve_locations, resolve_stack, resolve_frame, called_name, call_sites, sites_in, may_call,
}
use hippocrates.Trace.Resolve.Frames.{EventResolves, resolve_locations-Resolves}
use hippocrates.Trace.Values.{
  pm_values, locs_values, loc_values, generic_values, insts_values, inst_values,
}
use hippocrates.Trace.Values.Pointers.{Pointers, Typed, pm_values-Pointers}
use hippocrates.PmDesc.{
  Anders, PmDesc, add_known_pm_value, points_to_set, points_to_pm, insert_all, insert, has,
  filtered, or_self,
}
use hippocrates.Repair.Setup.{known_at_start, add_events, add_values}
use hippocrates.Repair.Seeded.{SeededAt, known_at_start-points_to_pm}
use hippocrates.Generator.Behind.{In}
use hippocrates.Tests.Samples.{main_at, event, single}
use hippocrates.Tests.Generators.{start, target, at_start}

-- A frame of a file without debug information, called from the main function.
abbrev inside : LocationInfo
inside = record { function = codes "upd"; file = codes "lib.c"; line = pos 5 }

abbrev only_main : Mapper
only_main li = if text_eq li.function (codes "main") then some (single 20 ∷ []) else none

abbrev te : TraceEvent
te = record (event store [] 5) { location = inside; callstack = inside ∷ main_at 20 ∷ [] }

abbrev named : LocationInfo
named = record inside { function = codes "update" }

resolves :
    resolve_locations (λ n. n) start.m only_main te
    ≡ ok (record te { location = named; callstack = named ∷ main_at 20 ∷ [] })
unfolding resolve_locations resolve_stack resolve_frame called_name call_sites sites_in may_call
    valid text_eq occurs_in starts_with insts insts_in is_valid parent find_block has_inst after
    non_debug walk_to from same_place Location.eq
resolves = refl

resolve_locations-Resolves_example :
    EventResolves
      (λ n. n)
      start.m
      only_main
      te
      (record te { location = named; callstack = named ∷ main_at 20 ∷ [] })
resolve_locations-Resolves_example =
    resolve_locations-Resolves (λ n. n) start.m only_main te
      (record te { location = named; callstack = named ∷ main_at 20 ∷ [] }) resolves

-- The store of the module.
abbrev at_store : Mapper
at_store li = some (single 10 ∷ [])

one_value : pm_values start.m at_store (event store [] 10) ≡ ok (target ∷ [])
unfolding pm_values locs_values loc_values generic_values insts_values inst_values text_eq insts
    insts_in is_valid parent find_block has_inst after non_debug walk_to from same_place
    Trace.is_assertion
one_value = refl

start-Typed : (i : Inst) → In i start.m → Typed i.op
start-Typed =
    at_start (λ i. Typed i.op) refl tt (λ h v e. ground (arith, e), λ g f t v e. ground (arith, e))
      tt

pm_values-Pointers_example :
    Pointers (target ∷ [])
    × ((locs : List FixLoc)
        → at_store (main_at 10) ≡ some locs
        → (Trace.is_fence store || Trace.is_assertion (event store [] 10)) ≡ false
        → is_empty (target ∷ []) ≡ false)
pm_values-Pointers_example =
    pm_values-Pointers start.m start-Typed at_store (event store [] 10) (target ∷ []) one_value

-- Every value is its own place, and the store is the trace.
abbrev itself : Anders
itself v = some (v ∷ [])

abbrev seeded : PmDesc
seeded = record { locals = target ∷ []; globals = [] }

starts : known_at_start itself none start.m at_store (event store [] 10 ∷ []) ≡ ok seeded
unfolding known_at_start add_events add_values add_known_pm_value points_to_set insert_all insert
    has filtered pm_values locs_values loc_values generic_values insts_values inst_values text_eq
    insts insts_in is_valid parent find_block has_inst after non_debug walk_to from same_place
    Trace.is_assertion
starts = refl

known_at_start-points_to_pm_example : (points_to_pm itself seeded target ≡ ok true) ↔ (
    (v : Value) × Any (SeededAt itself none start.m at_store v) (event store [] 10 ∷ [])
    × (has v (or_self target (target ∷ [])) ≡ true))
unfolding points_to_set insert_all insert has
known_at_start-points_to_pm_example =
    known_at_start-points_to_pm itself none start.m at_store (event store [] 10 ∷ []) seeded target
      (target ∷ []) starts refl
