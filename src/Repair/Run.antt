-- ===== src/Repair/Run.antt =====
-- src/BugFixer.cpp: `BugFixer::doRepair`.
use hippocrates.Base.{
  ℕ, Bool, false, List, [], ◌∷◌, if◌then◌else◌, Text, Outcome, ok, aborted, ◌>>=◌,
}
use hippocrates.Location.{LocationInfo}
use hippocrates.Ir.{Module}
use hippocrates.Fix.Map.{FixMap}
use hippocrates.Trace.{TraceEvent, TraceInfo, Source, unknown, pmtest, generic, event_at}
use hippocrates.Raise.{Mapper, raise_fix_location}
use hippocrates.Persisted.{handle_assert_persisted}
use hippocrates.Repair.{FixGenerator, compute_and_add_fix, apply_fixes}
use hippocrates.Repair.Optimize.{run_fix_map_optimization}
use hippocrates.Repair.Patch.{patch_memory_primitives}

-- The command line.
pub record Options : Type 0 where
  pub disable_fix_raising : Bool
  pub extra_dumb : Bool

-- Step 1: the fixes for all bugs. The handler takes the index of the bug.
unfoldable pub add_fixes :
    (ℕ → TraceEvent → FixMap → Outcome (FixMap × Bool))
    → List TraceEvent
    → List ℕ
    → FixMap
    → Outcome FixMap
add_fixes handle events [] fixes = ok fixes
add_fixes handle events (b ∷ bs) fixes = do
  te ← event_at events b
  r ← compute_and_add_fix (handle b) te fixes
  add_fixes handle events bs r.0

-- The generator for the source of the trace; for another source the program exits.
abbrev pub generator_for :
    {S : Type 0} → FixGenerator S → FixGenerator S → Source → Outcome (FixGenerator S)
generator_for for_pmtest for_generic pmtest = ok for_pmtest
generator_for for_pmtest for_generic generic = ok for_generic
generator_for for_pmtest for_generic unknown = aborted

module _ {S : Type 0} (for_pmtest for_generic : FixGenerator S) (module_of : S → Module) (cl_sz : ℕ)
    (mapper : Mapper) (immutable : List Text) (heuristic : List LocationInfo → Outcome ℕ)
    (options : Options) where
  unfoldable pub do_repair : TraceInfo → FixMap → S → Outcome (Bool × S)
  do_repair trace fixes s = do
    fixer ← generator_for for_pmtest for_generic trace.source
    let m = module_of s
    let handle : ℕ → TraceEvent → FixMap → Outcome (FixMap × Bool) =
        λ b te f. handle_assert_persisted cl_sz m mapper immutable heuristic trace.events te b f
    found ← add_fixes handle trace.events trace.bugs fixes
    raised ←
        if options.disable_fix_raising
        then ok (found, false)
        else run_fix_map_optimization (raise_fix_location m mapper immutable heuristic) found
    done ← apply_fixes fixer raised.0 false s
    patched ←
        if options.disable_fix_raising
        then patch_memory_primitives fixer.replace_call options.extra_dumb module_of done.1
        else ok (false, done.1)
    ok (done.0, patched.1)
