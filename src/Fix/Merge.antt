-- ===== src/Fix/Merge.antt =====
-- src/BugFixer.cpp: `BugFixer::addFixToMapping`.
use hippocrates.Base.{
  Bool, true, false, not, ◌&&◌, ◌||◌, Option, none, some, ◌++◌, if◌then◌else◌, Outcome, ok, aborted,
  assert, ◌>>=◌, ◌>>◌,
}
use hippocrates.Ir.{Module}
use hippocrates.FixLoc.{FixLoc, is_valid}
use hippocrates.Fix.{
  FixType, FixDesc, no_fix, add_flush_only, add_fence_only, add_flush_and_fence,
  add_persist_callstack_opt_nofence, add_persist_callstack_opt, remove_flush_only,
  remove_flush_conditional, is, desc_eq,
}
use hippocrates.Fix.Map.{FixMap, lookup, insert}

unfoldable pub is_primative : FixType → Bool
is_primative t = is t add_flush_and_fence || is t add_flush_only || is t add_fence_only

unfoldable pub is_pst : FixType → Bool
is_pst t = is t add_persist_callstack_opt || is t add_persist_callstack_opt_nofence

unfoldable pub adds_fence : FixType → Bool
adds_fence t = is t add_persist_callstack_opt || is t add_fence_only || is t add_flush_and_fence

-- What becomes of the old fix where a different one is added: `none` leaves it as it is.
unfoldable pub resolve : FixDesc → FixDesc → Outcome (Option FixDesc)
unfolding is_primative is_pst adds_fence
resolve old desc =
    let both = record old { type = add_flush_and_fence } in
    if is old.type add_flush_only
      && (is desc.type add_fence_only || is desc.type add_flush_and_fence)
    then ok (some both)
    else if is old.type add_fence_only && is desc.type add_flush_only
    then ok (some both)
    else if is old.type add_flush_and_fence
        && (is desc.type add_flush_only || is desc.type add_fence_only)
    then ok none
    else if is desc.type add_flush_and_fence
        && (is old.type add_flush_only || is old.type add_fence_only)
    then ok (some both)
    else if (is old.type add_flush_only || is old.type add_flush_and_fence)
        && is desc.type remove_flush_only
    then aborted
    else if is old.type remove_flush_conditional && is desc.type remove_flush_conditional
    then ok (
        some (record old {
          originals = old.originals ++ desc.originals;
          points = old.points ++ desc.points;
        }))
    else if is old.type add_persist_callstack_opt && (is_pst desc.type || is_primative desc.type)
    then ok none
    else if is desc.type add_persist_callstack_opt && (is_pst old.type || is_primative old.type)
    then ok (some desc)
    else if is old.type add_persist_callstack_opt_nofence && adds_fence desc.type
    then ok (some (record old { type = add_persist_callstack_opt }))
    else aborted

-- The map with the resolution written back, and whether a fix was added.
unfoldable pub write_back : FixLoc → FixMap → Option FixDesc → FixMap × Bool
write_back fl fixes none = (fixes, false)
write_back fl fixes (some desc) = (insert fl desc fixes, true)

unfoldable pub add_to : FixMap → FixLoc → FixDesc → Option FixDesc → Outcome (FixMap × Bool)
add_to fixes fl desc none = ok (insert fl desc fixes, true)
add_to fixes fl desc (some old) =
    if desc_eq old desc
    then ok (fixes, false)
    else (do r ← resolve old desc; ok (write_back fl fixes r))

unfoldable pub add_fix_to_mapping : Module → FixMap → FixLoc → FixDesc → Outcome (FixMap × Bool)
add_fix_to_mapping m fixes fl desc = do
  assert (is_valid m fl)
  assert (not (is desc.type no_fix))
  add_to fixes fl desc (lookup fl fixes)
