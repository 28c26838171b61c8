-- ===== src/Repair.antt =====
-- src/BugFixer.cpp: `BugFixer::computeAndAddFix`, `BugFixer::fixBug` and `BugFixer::doRepair`. The
-- code generator is an interface with a state, which is the module that it changes.
pub mod Optimize
pub mod Patch
pub mod Run
pub mod Applied
pub mod Replaced
pub mod Setup
pub mod Seeded
use hippocrates.Base.{
  ℕ, ◌+◌, Bool, true, false, not, ◌&&◌, ◌||◌, Option, none, some, List, [], ◌∷◌, ◌++◌, text_eq,
  length, ◌==◌, if◌then◌else◌, Text, Outcome, ok, aborted, assert, ◌>>=◌, ◌>>◌,
}
use hippocrates.Location.{LocationInfo, no_location}
use hippocrates.Ir.{Module, Function}
use hippocrates.FixLoc.{FixLoc}
use hippocrates.Fix.{
  FixType, FixDesc, no_fix, add_flush_only, add_fence_only, add_flush_and_fence,
  add_persist_callstack_opt_nofence, add_persist_callstack_opt, remove_flush_only,
  remove_flush_conditional, is,
}
use hippocrates.Fix.Map.{FixMap}
use hippocrates.Trace.{TraceEvent, EventType, assert_persisted, required_flush}
use hippocrates.Persisted.{handle_assert_persisted}

-- `FixGenerator`: every insertion returns the instruction that it added, or null.
pub record FixGenerator (S : Type 0) : Type 0 where
  pub insert_flush : FixLoc → S → Outcome (Option ℕ × S)
  pub insert_fence : FixLoc → S → Outcome (Option ℕ × S)
  pub insert_persistent_sub_program :
      FixLoc
      → List LocationInfo
      → ℕ
      → (insert_flushes add_fence : Bool) → S
      → Outcome (Option ℕ × S)
  -- `modifyCall` with the persistent version of a function, and `eraseFromParent`.
  pub replace_call : ℕ → Text → S → Outcome S

-- `assert(n && ...)`
abbrev pub non_null : {S : Type 0} → Option ℕ × S → Outcome (ℕ × S)
non_null (none, s) = aborted
non_null (some n, s) = ok (n, s)

-- `if (!n) return false;`
abbrev pub report : {S : Type 0} → Option ℕ × S → Outcome (Bool × S)
report (none, s) = ok (false, s)
report (some n, s) = ok (true, s)

module _ {S : Type 0} (fixer : FixGenerator S) where
  unfoldable pub fix_bug : FixLoc → FixDesc → S → Outcome (Bool × S)
  fix_bug fl desc s = elim desc.type [
    | no_fix ↦ aborted
    | add_flush_only ↦ fixer.insert_flush fl s >>= non_null >>= λ r. ok (true, r.1)
    | add_fence_only ↦ fixer.insert_fence fl s >>= non_null >>= λ r. ok (true, r.1)
    | add_flush_and_fence ↦ fixer.insert_flush fl s >>= non_null >>= λ r.
        fixer.insert_fence (record { first = r.0; last = r.0; dbg_loc = no_location }) r.1
        >>= non_null
        >>= λ q. ok (true, q.1)
    | add_persist_callstack_opt_nofence ↦
        fixer.insert_persistent_sub_program fl desc.dyn_stack desc.stack_idx true false s >>= report
    | add_persist_callstack_opt ↦
        fixer.insert_persistent_sub_program fl desc.dyn_stack desc.stack_idx true true s >>= report
    | remove_flush_only ↦ ok (false, s)
    | remove_flush_conditional ↦ ok (false, s)
  ]

  -- Step 3 of `doRepair`: all fixes, in the order of the map, and whether one changed the module.
  unfoldable pub apply_fixes : FixMap → Bool → S → Outcome (Bool × S)
  apply_fixes [] modified s = ok (modified, s)
  apply_fixes ((fl, desc) ∷ fixes) modified s = do
    r ← fix_bug fl desc s
    apply_fixes fixes (modified || r.0) r.1

-- `handleAssertOrdered`, which is not implemented in the source, and which nothing calls.
abbrev pub handle_assert_ordered : FixMap → FixMap × Bool
handle_assert_ordered fixes = (fixes, false)

-- `computeAndAddFix`; the handler of persisted assertions is the argument.
unfoldable pub compute_and_add_fix :
    (TraceEvent → FixMap → Outcome (FixMap × Bool)) → TraceEvent → FixMap → Outcome (FixMap × Bool)
compute_and_add_fix handle te fixes = do
  assert te.is_bug
  elim te.type [
    | assert_persisted ↦ assert (length te.addresses == 1) >> handle te fixes
    | _ ↦ ok (fixes, false)
  ]

-- `addImmutableFunction`: a function that the module does not have is passed over.
unfoldable pub add_immutable_function : Module → List Text → Text → List Text
add_immutable_function m immutable name =
    if has_function m name then immutable ++ name ∷ [] else immutable
  where
    has_function : Module → Text → Bool
    has_function [] name = false
    has_function (f ∷ fs) name = text_eq f.name name || has_function fs name

-- The loop of the pass over its option.
unfoldable pub add_immutable_functions : Module → List Text → List Text → List Text
add_immutable_functions m immutable [] = immutable
add_immutable_functions m immutable (n ∷ ns) =
    add_immutable_functions m (add_immutable_function m immutable n) ns
