-- ===== src/Persisted/Place.antt =====
-- The fixes for the operations that were found (src/BugFixer.cpp, `handleAssertPersisted`, its last
-- loop).
use hippocrates.Base.{
  ℕ, Bool, true, false, not, ◌&&◌, ◌||◌, Option, none, some, List, [], ◌∷◌, is_empty, if◌then◌else◌,
  Text, Outcome, ok, assert, ◌>>=◌, ◌>>◌,
}
use hippocrates.Address.{AddressInfo, is_single_cache_line}
use hippocrates.Location.{LocationInfo}
use hippocrates.Ir.{Module, Inst, is_store, is_cmp_xchg}
use hippocrates.FixLoc.{FixLoc, is_valid, insts, null_loc}
use hippocrates.Fix.{
  FixType, FixDesc, add_flush_only, add_fence_only, add_flush_and_fence, no_desc, fix_desc,
}
use hippocrates.Fix.Map.{FixMap}
use hippocrates.Fix.Merge.{add_fix_to_mapping}
use hippocrates.Trace.{TraceEvent, event_at}
use hippocrates.Raise.{Mapper, raise_fix_location}

-- The fix for what is missing, if anything is.
abbrev pub classify : Bool → Bool → Option FixType
classify true true = some add_flush_and_fence
classify true false = some add_flush_only
classify false true = some add_fence_only
classify false false = none

-- The description that is raised: the default one if nothing is missing.
abbrev pub desc_of : Option FixType → List LocationInfo → FixDesc
desc_of none stack = no_desc
desc_of (some t) stack = fix_desc t stack 0

-- The cache line check reads the first address.
unfoldable pub one_line : ℕ → List AddressInfo → Bool
one_line cl_sz [] = false
one_line cl_sz (a ∷ _) = is_single_cache_line cl_sz a

module _ (cl_sz : ℕ) (m : Module) (what : Option FixType) (last : TraceEvent) where
  -- The fix at one store or compare-and-exchange.
  unfoldable pub fix_inst : FixMap → FixLoc → Outcome (FixMap × Bool)
  fix_inst fixes loc = do
    assert (is_valid m loc)
    assert (one_line cl_sz last.addresses)
    elim what [
      | none ↦ ok (fixes, false)
      | some t ↦ add_fix_to_mapping m fixes loc (fix_desc t last.callstack 0)
    ]

  unfoldable pub fix_insts : LocationInfo → List Inst → FixMap × Bool → Outcome (FixMap × Bool)
  fix_insts dbg [] r = ok r
  fix_insts dbg (i ∷ is) (fixes, added) =
      if not (is_store i.op) && not (is_cmp_xchg i.op) then fix_insts dbg is (fixes, added) else (do
        r ← fix_inst fixes (record { first = i.id; last = i.id; dbg_loc = dbg })
        fix_insts dbg is (r.0, r.1 || added))

  unfoldable pub fix_locs : List FixLoc → FixMap × Bool → Outcome (FixMap × Bool)
  fix_locs [] r = ok r
  fix_locs (l ∷ ls) r = do is ← insts m l; r' ← fix_insts l.dbg_loc is r; fix_locs ls r'

module _ (cl_sz : ℕ) (m : Module) (mapper : Mapper) (immutable : List Text)
    (heuristic : List LocationInfo → Outcome ℕ) (events : List TraceEvent)
    (what : Option FixType) where
  unfoldable pub fix_op : ℕ → FixMap × Bool → Outcome (FixMap × Bool)
  fix_op i (fixes, added) = do
    last ← event_at events i
    elim (mapper last.location) [
      | some locs ↦ assert (not (is_empty locs)) >> fix_locs cl_sz m what last locs (fixes, added)
      | none ↦
          raise_fix_location m mapper immutable heuristic fixes null_loc
            (desc_of what last.callstack)
          >>= λ r. ok (r.0, r.1 || added)
    ]

  unfoldable pub fix_ops : List ℕ → FixMap × Bool → Outcome (FixMap × Bool)
  fix_ops [] r = ok r
  fix_ops (i ∷ is) r = do r' ← fix_op i r; fix_ops is r'
