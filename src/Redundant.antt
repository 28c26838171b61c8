-- ===== src/Redundant.antt =====
-- src/BugFixer.cpp: `BugFixer::handleRequiredFlush`, which finds a redundant flush and the one before
-- it. The analysis of the paths between them (src/FlowAnalyzer.cpp) is an interface.
pub mod Search
use hippocrates.Base.{
  ℕ, zero, suc, Bool, true, false, not, ◌&&◌, ◌||◌, Option, none, some, List, [], ◌∷◌, length,
  is_empty, leb, if◌then◌else◌, Outcome, ok, aborted, assert, ◌>>=◌, ◌>>◌,
}
use hippocrates.Address.{AddressInfo, overlaps}
use hippocrates.Address
use hippocrates.Ir.{Module}
use hippocrates.FixLoc.{FixLoc}
use hippocrates.Fix.{
  FixDesc, remove_flush_only, remove_flush_conditional, fix_desc, conditional_desc,
}
use hippocrates.Fix.Map.{FixMap}
use hippocrates.Fix.Merge.{add_fix_to_mapping}
use hippocrates.Trace.{TraceEvent, EventType, is_flush, is_operation, event_at}
use hippocrates.Raise.{Mapper, at}

-- The indices, where -1 is `none`; `partly` is the return from the middle of the loop.
pub data Found : Type 0 where
  indices : (redundant original : Option ℕ) → Found
  partly : Found

-- What one event does to the search: it goes on with a redundant index, or ends.
pub data Look : Type 0 where
  goes_on : Option ℕ → Look
  stops : Found → Look

unfoldable pub look_at : AddressInfo → ℕ → EventType → AddressInfo → Option ℕ → Look
look_at bug i type addr redundant =
    if is_flush type && Address.eq addr bug
    then elim redundant [ none ↦ goes_on (some i) | some r ↦ stops (indices (some r) (some i)) ]
    else if is_flush type && overlaps addr bug
    then elim redundant [ none ↦ stops partly | some r ↦ stops (indices (some r) (some i)) ]
    else goes_on redundant

unfoldable pub look_event : AddressInfo → ℕ → TraceEvent → Option ℕ → Outcome Look
look_event bug i e redundant =
    if not (is_operation e)
    then ok (goes_on redundant)
    else assert (leb (length e.addresses) 1) >> elim e.addresses [
      | [] ↦ ok (goes_on redundant)
      | addr ∷ rest ↦ ok (look_at bug i e.type addr redundant)
    ]

-- The events below an index, from the last one down to the first.
unfoldable pub search : AddressInfo → List TraceEvent → ℕ → Option ℕ → Outcome Found
search bug events zero redundant = ok (indices redundant none)
search bug events (suc i) redundant =
    elim (event_at events i >>= λ e. look_event bug i e redundant) [
      | aborted ↦ aborted
      | ok (goes_on r) ↦ search bug events i r
      | ok (stops f) ↦ ok f
    ]

-- `FlowAnalyzer`, made for the original and the redundant event.
pub record FlowAnalyzer : Type 0 where
  pub can_analyze : Bool
  pub always_redundant : Bool
  pub redundant_paths : List ℕ

module _ (m : Module) (mapper : Mapper) (f : FlowAnalyzer) (orig redt : TraceEvent) where
  -- One conditional removal for each location of the original flush.
  unfoldable pub add_conditional : FixLoc → List FixLoc → FixMap × Bool → Outcome (FixMap × Bool)
  add_conditional redt_loc [] r = ok r
  add_conditional redt_loc (l ∷ ls) (fixes, res) = do
    r ←
        add_fix_to_mapping m fixes redt_loc
          (conditional_desc remove_flush_conditional redt.callstack l f.redundant_paths)
    add_conditional redt_loc ls (r.0, res || r.1)

  -- A removal replaces the result so far, and the others are joined to it.
  unfoldable pub remove_at : FixLoc → FixMap × Bool → Outcome (FixMap × Bool)
  remove_at redt_loc (fixes, res) =
      if f.always_redundant
      then add_fix_to_mapping m fixes redt_loc (fix_desc remove_flush_only redt.callstack 0)
      else if is_empty f.redundant_paths
      then ok (fixes, res)
      else (do
        origs ← at mapper orig.location
        assert (not (is_empty origs))
        add_conditional redt_loc origs (fixes, res))

  unfoldable pub remove_all : List FixLoc → FixMap × Bool → Outcome (FixMap × Bool)
  remove_all [] r = ok r
  remove_all (l ∷ ls) r = do r' ← remove_at l r; remove_all ls r'

-- The handler. The range of the bug is the front of the addresses of its event.
unfoldable pub handle_required_flush :
    Module
    → Mapper
    → (TraceEvent → TraceEvent → FlowAnalyzer)
    → List TraceEvent
    → AddressInfo
    → ℕ
    → FixMap
    → Outcome (FixMap × Bool)
handle_required_flush m mapper analyzer events bug bug_index fixes =
    search bug events bug_index none >>= λ found. elim found [
      | partly ↦ ok (fixes, false)
      | indices none original ↦ aborted
      | indices (some r) none ↦ ok (fixes, false)
      | indices (some r) (some o) ↦ event_at events o >>= λ orig. event_at events r >>= λ redt.
          (if not (analyzer orig redt).can_analyze then ok (fixes, false) else (do
            locs ← at mapper redt.location
            remove_all m mapper (analyzer orig redt) orig redt locs (fixes, false)))
    ]
