-- ===== src/Persisted.antt =====
-- src/BugFixer.cpp: `BugFixer::handleAssertPersisted`. The size of a cache line is a parameter.
pub mod Accumulate
pub mod Sums
pub mod Scan
pub mod Verdict
pub mod Steps
pub mod Walk
pub mod Gaps
pub mod Place
use hippocrates.Base.{
  ℕ, Bool, true, false, not, Option, none, some, List, [], ◌∷◌, is_empty, Text, Outcome, ok,
  aborted, assert, ◌>>=◌, ◌>>◌,
}
use hippocrates.Address.{AddressInfo}
use hippocrates.Location.{LocationInfo}
use hippocrates.Ir.{Module}
use hippocrates.Fix.Map.{FixMap}
use hippocrates.Trace.{TraceEvent}
use hippocrates.Raise.{Mapper}
use Scan.{start_scan, scan}
use Place.{classify, fix_ops}

-- `te.addresses.front()`; without an address it is undefined.
abbrev front_address : List AddressInfo → Outcome AddressInfo
front_address [] = aborted
front_address (a ∷ _) = ok a

unfoldable pub handle_assert_persisted :
    ℕ
    → Module
    → Mapper
    → List Text
    → (List LocationInfo → Outcome ℕ)
    → List TraceEvent
    → TraceEvent
    → ℕ
    → FixMap
    → Outcome (FixMap × Bool)
handle_assert_persisted cl_sz m mapper immutable heuristic events te bug_index fixes = do
  bug ← front_address te.addresses
  s ← scan cl_sz bug events bug_index start_scan
  assert (not (is_empty s.op_indices))
  fix_ops cl_sz m mapper immutable heuristic events (classify s.missing_flush s.missing_fence)
      s.op_indices (fixes, false)
