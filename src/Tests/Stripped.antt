-- ===== src/Tests/Stripped.antt =====
-- The functions that keep their bodies for a trace with one event (src/BugFixer.cpp).
use hippocrates.Base.{
  ◌≡◌, refl, ◌⊎◌, inl, inr, some, List, [], ◌∷◌, if◌then◌else◌, Text, text_eq, codes, ok, aborted,
  Bool-cases,
}
use hippocrates.Ir.{parent, find_block, has_inst, after, non_debug}
use hippocrates.FixLoc.{insts, insts_in, is_valid, walk_to, from, same_place}
use hippocrates.Generator.Clone.{find_function}
use hippocrates.Raise.{function_of, name_in}
use hippocrates.Trace.{TraceEvent}
use hippocrates.Trace
use hippocrates.Trace.Resolve.{has_name}
use hippocrates.Aliases.{
  used_at, used_in_stack, used_in_trace, insert_function, whitelisted, callees, called_in_blocks,
  called_in, explore, push_new, grow, next_users, new_of, needed,
}
use hippocrates.Aliases.Names.{In}
use hippocrates.Aliases.Kept.{Kept, needed-Kept}
use hippocrates.Aliases.Ends.{rounds_for, needed_ends}
use hippocrates.Tests.Samples.{event}
use hippocrates.Tests.Graphs.{calling}
use hippocrates.Tests.Between.{by_line, in_f}

abbrev main_and_f : List Text
main_and_f = codes "f" ∷ codes "main" ∷ []

-- The main function uses the other one.
abbrev users : Text → List Text
users name = if text_eq name (codes "f") then codes "main" ∷ [] else []

abbrev stores : List TraceEvent
stores = record (event Trace.store [] 30) { location = in_f; callstack = in_f ∷ [] } ∷ []

both_needed : needed users (rounds_for main_and_f) calling by_line stores ≡ ok (some main_and_f)
unfolding needed used_in_trace used_in_stack used_at insert_function whitelisted has_name callees
    explore push_new grow next_users new_of name_in function_of text_eq find_function
    called_in_blocks called_in insts insts_in is_valid parent find_block has_inst after non_debug
    walk_to from same_place
both_needed = refl

needed-Kept_example : Kept calling by_line users stores main_and_f
needed-Kept_example =
    needed-Kept calling by_line users (rounds_for main_and_f) stores main_and_f both_needed

users_inside : (x y : Text) → In y (users x) → In y main_and_f
users_inside x y h = elim (Bool-cases (text_eq x (codes "f"))) [
  | inl e ↦ inr (rw (e) at h)
  | inr e ↦ absurd (rw (e) at h)
]

callees_inside : (x y : Text) → In y (callees calling x) → In y main_and_f
unfolding callees find_function called_in_blocks called_in
callees_inside x y h = elim (Bool-cases (text_eq (codes "main") x)) [
  | inl e ↦ elim (rw (e) at h) [ inl same ↦ inl same | inr never ↦ absurd never ]
  | inr e ↦ elim (Bool-cases (text_eq (codes "f") x)) [
    | inl g ↦ absurd (rw (e, g) at h)
    | inr g ↦ absurd (rw (e, g) at h)
  ]
]

needed_ends_example :
    (needed users (rounds_for main_and_f) calling by_line stores ≡ aborted)
    ⊎ ((kept : List Text) × (needed users (rounds_for main_and_f) calling by_line stores
          ≡ ok (some kept)))
needed_ends_example =
    needed_ends users calling by_line main_and_f stores users_inside callees_inside
