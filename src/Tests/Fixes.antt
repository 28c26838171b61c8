-- ===== src/Tests/Fixes.antt =====
-- The fix map (src/BugFixer.cpp, `addFixToMapping`).
use hippocrates.Base.{◌≡◌, refl, ◌↔◌, true, false, ok, aborted, some, [], ◌∷◌, text_eq}
use hippocrates.Ir.{parent, has_inst, find_block}
use hippocrates.FixLoc.{FixLoc, is_valid}
use hippocrates.FixLoc
use hippocrates.Fix.{
  FixDesc, FixType, add_flush_only, add_fence_only, add_flush_and_fence,
  add_persist_callstack_opt_nofence, desc_eq,
}
use hippocrates.Fix.Map.{FixMap, lookup, insert, Ordered}
use hippocrates.Fix.Merge.{add_fix_to_mapping, add_to, resolve, write_back, is_primative}
use hippocrates.Fix.Effects.{Joins, IsPlain, clash}
use hippocrates.Fix.Laws.{add-frame, add-Joins, add-clash}
use hippocrates.Fix.Joint.{Stands, nothing, add_all, add_all-Stands, IsLowLevel}
use hippocrates.Tests.Samples.{program, single, desc}

abbrev flushed : FixMap
flushed = (single 10, desc add_flush_only) ∷ []

abbrev persisted : FixMap
persisted = (single 10, desc add_flush_and_fence) ∷ []

single_valid : is_valid program (single 10) ≡ true
unfolding is_valid parent has_inst find_block text_eq
single_valid = refl

flush-then-fence :
    add_fix_to_mapping program flushed (single 10) (desc add_fence_only) ≡ ok (persisted, true)
unfolding add_fix_to_mapping add_to resolve write_back is_valid parent has_inst find_block text_eq
    lookup insert desc_eq
flush-then-fence = refl

add-frame_example :
    ((other : FixLoc)
      → FixLoc.eq (single 10) other ≡ false
      → lookup other persisted ≡ lookup other flushed)
    × (Ordered flushed → Ordered persisted)
    × (true ≡ false → persisted ≡ flushed)
add-frame_example =
    add-frame program flushed persisted (single 10) (desc add_fence_only) true flush-then-fence

add-Joins_example :
    (new : FixDesc) × (lookup (single 10) persisted ≡ some new)
    × Joins (desc add_flush_only) (desc add_fence_only) new
unfolding lookup FixLoc.eq
add-Joins_example =
    add-Joins program flushed persisted (single 10) (desc add_fence_only) true flush-then-fence
      (desc add_flush_only) refl refl refl

desc-IsPlain : (t : FixType) → IsPlain (desc t)
desc-IsPlain t = record { no_originals = refl; no_points = refl }

add-clash_example :
    (add_fix_to_mapping program flushed (single 10) (desc add_persist_callstack_opt_nofence)
      ≡ aborted)
    ↔ (clash add_flush_only add_persist_callstack_opt_nofence ≡ true)
unfolding lookup FixLoc.eq
add-clash_example =
    add-clash program flushed (single 10) (desc add_flush_only)
      (desc add_persist_callstack_opt_nofence) single_valid refl refl refl
      (desc-IsPlain add_flush_only) (desc-IsPlain add_persist_callstack_opt_nofence)

low : (t : FixType) → is_primative t ≡ true → IsLowLevel (desc t)
low t h = record { plain = desc-IsPlain t; low = h }

add_all-Stands_example :
    (after : FixMap) × (add_all program []
        (single 10)
        (desc add_fence_only ∷ desc add_flush_only ∷ [])
      ≡ ok after)
    × Stands after (single 10) true true
unfolding is_primative lookup FixLoc.eq
add_all-Stands_example =
    add_all-Stands program (single 10) single_valid (desc add_fence_only ∷ desc add_flush_only ∷ [])
      [] false false (low add_fence_only refl, (low add_flush_only refl, tt))
      (nothing refl refl refl)
