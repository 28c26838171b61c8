-- ===== src/Tests/Repairs.antt =====
-- Raising, the redundant flush and the repair (src/BugFixer.cpp).
use hippocrates.Base.{ℕ, ◌≡◌, refl, ◌<◌, ltb, true, none, some, List, [], ◌∷◌, codes, text_eq, ok}
use hippocrates.Address.{AddressInfo, overlaps}
use hippocrates.Address
use hippocrates.Location.{LocationInfo}
use hippocrates.Ir.{parent, has_inst, find_block}
use hippocrates.FixLoc.{FixLoc, is_valid}
use hippocrates.Fix.{fix_desc, add_flush_and_fence, add_persist_callstack_opt}
use hippocrates.Fix.Map.{FixMap, lookup, insert}
use hippocrates.Fix.Merge.{add_fix_to_mapping, add_to}
use hippocrates.Trace.{TraceEvent, flush, store, event_at, is_operation}
use hippocrates.Raise.{
  Mapper, function_of, name_in, front_of, same_function, Climb, look, climb, drop_frames,
  raised_type, settle, raise_fix_location,
}
use hippocrates.Raise.Frames.{Landing, raise-Landing}
use hippocrates.Redundant.{search, look_at, look_event, indices}
use hippocrates.Redundant.Search.{search-Exact, Exact, Touching}
use hippocrates.Tests.Samples.{program, single, main_at, event}

-- Both frames are in the function main; the outer one is chosen.
abbrev by_line : Mapper
by_line li = some (single 11 ∷ [])

abbrev stack : List LocationInfo
stack = main_at 10 ∷ main_at 11 ∷ []

abbrev raised : FixMap
raised = (single 11, fix_desc add_persist_callstack_opt stack 1) ∷ []

raises :
    raise_fix_location program by_line
      (codes "other" ∷ [])
      (λ l. ok 1)
      []
      (single 10)
      (fix_desc add_flush_and_fence stack 0)
    ≡ ok (raised, true)
unfolding raise_fix_location climb look settle function_of name_in front_of same_function parent
    has_inst find_block text_eq add_fix_to_mapping add_to is_valid lookup insert
raises = refl

raise-Landing_example :
    (start : ℕ) × (loc : FixLoc) × (c : Climb) × (ok 1 ≡ ok start)
    × (c.curr ≡ some loc)
    × (add_fix_to_mapping program [] loc (fix_desc (raised_type add_flush_and_fence) stack c.idx)
        ≡ ok (raised, true))
    × Landing program by_line
        (codes "other" ∷ [])
        (drop_frames start stack)
        (record { idx = start; raised = ltb 0 start; curr = none })
        c
raise-Landing_example =
    raise-Landing program by_line (codes "other" ∷ []) (λ l. ok 1) [] raised (single 10)
      (fix_desc add_flush_and_fence stack 0) raises

abbrev line : AddressInfo
line = record { address = 64; length = 64 }

-- Two flushes of a line with a store between them.
abbrev flushes : List TraceEvent
flushes = event flush (line ∷ []) 10 ∷ event store (line ∷ []) 11 ∷ event flush (line ∷ []) 12 ∷ []

finds : search line flushes 3 none ≡ ok (indices (some 2) (some 0))
unfolding search look_at look_event event_at is_operation Address.eq overlaps
finds = refl

search-Exact_example : (0 < 2) × Exact line flushes 2 × Touching line flushes 0
search-Exact_example = search-Exact line flushes 3 2 0 finds
