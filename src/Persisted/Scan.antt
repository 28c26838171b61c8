-- ===== src/Persisted/Scan.antt =====
-- The walk back through the trace (src/BugFixer.cpp, `handleAssertPersisted`, its first loop).
use hippocrates.Base.{
  ℕ, zero, suc, Bool, true, false, not, ◌&&◌, List, [], ◌∷◌, ◌++◌, length, leb, if◌then◌else◌,
  Outcome, ok, aborted, assert, ◌>>=◌, ◌>>◌,
}
use hippocrates.Address.{AddressInfo, overlaps, contains, is_single_cache_line, no_address}
use hippocrates.Trace.{EventType, TraceEvent, is_store, is_flush, is_fence, is_operation, event_at}
use hippocrates.Persisted.Accumulate.{accumulate}

pub record Scan : Type 0 where
  pub missing_flush : Bool
  pub missing_fence : Bool
  pub op_indices : List ℕ
  pub info : AddressInfo
  pub unadded : List AddressInfo

abbrev pub start_scan : Scan
start_scan = record {
  missing_flush = false;
  missing_fence = true;
  op_indices = [];
  info = no_address;
  unadded = [];
}

-- The next state, and whether the loop goes on.
unfoldable pub on_store : AddressInfo → ℕ → AddressInfo → Scan → Outcome (Scan × Bool)
on_store bug i addr s = do
  r ← accumulate s.info s.unadded addr
  let s' = record s { op_indices = s.op_indices ++ (i ∷ []); info = r.0; unadded = r.1 }
  ok (if contains r.0 bug then (record s' { missing_flush = true }, false) else (s', true))

module _ (cl_sz : ℕ) (bug : AddressInfo) where
  unfoldable pub on_flush : ℕ → AddressInfo → Scan → Outcome (Scan × Bool)
  on_flush i addr s = do
    assert (is_single_cache_line cl_sz addr)
    assert s.missing_fence
    ok (record s { op_indices = s.op_indices ++ (i ∷ []) }, false)

  unfoldable pub on_operation : ℕ → EventType → List AddressInfo → Scan → Outcome (Scan × Bool)
  on_operation i type [] s =
      ok (
        if is_fence type then record s { missing_fence = false; missing_flush = true } else s,
        true,
      )
  on_operation i type (addr ∷ _) s =
      if is_store type && overlaps addr bug
      then on_store bug i addr s
      else if is_flush type && overlaps addr bug
      then on_flush i addr s
      else ok (s, true)

  unfoldable pub on_event : ℕ → TraceEvent → Scan → Outcome (Scan × Bool)
  on_event i e s =
      if not (is_operation e)
      then ok (s, true)
      else (do assert (leb (length e.addresses) 1); on_operation i e.type e.addresses s)

  -- The events below an index, from the last one down to the first.
  unfoldable pub scan : List TraceEvent → ℕ → Scan → Outcome Scan
  scan events zero s = ok s
  scan events (suc i) s = elim (event_at events i >>= λ e. on_event i e s) [
    | aborted ↦ aborted
    | ok (s', more) ↦ elim more [ true ↦ scan events i s' | false ↦ ok s' ]
  ]
