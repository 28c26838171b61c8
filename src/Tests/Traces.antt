-- ===== src/Tests/Traces.antt =====
-- Walks back through a trace (src/BugFixer.cpp, `handleAssertPersisted`).
use hippocrates.Base.{
  ℕ, suc, zero, ◌≡◌, refl, sym, subst, inl, inr, true, false, arith, ok, List, [], ◌∷◌,
  ok_injective,
}
use hippocrates.Address.{AddressInfo, add, can_add, overlaps, contains}
use hippocrates.Address.Ranges.{IsRange, Covers}
use hippocrates.Trace.{TraceEvent, store, fence, is_operation, event_at, is_fence}
use hippocrates.Persisted.Accumulate.{accumulate, absorb_all, absorb}
use hippocrates.Persisted.Scan.{Scan, start_scan, scan, on_event, on_operation, on_store, on_flush}
use hippocrates.Persisted.Verdict.{IsShaped, Verdict, NoFence, InStores}
use hippocrates.Persisted.Walk.{scan-Verdict, scan_uncovered}
use hippocrates.Persisted.Gaps.{fence_between}
use hippocrates.Tests.Samples.{event}

abbrev first_half : AddressInfo
first_half = record { address = 64; length = 8 }

abbrev second_half : AddressInfo
second_half = record { address = 72; length = 8 }

abbrev whole : AddressInfo
whole = record { address = 64; length = 16 }

-- A store, a fence and another store.
abbrev events : List TraceEvent
events =
    event store (first_half ∷ []) 10 ∷ event fence [] 11 ∷ event store (second_half ∷ []) 12 ∷ []

abbrev found : Scan
found = record {
  missing_flush = true;
  missing_fence = false;
  op_indices = 2 ∷ 0 ∷ [];
  info = whole;
  unadded = [];
}

scan-events : scan 64 whole events 3 start_scan ≡ ok found
unfolding scan on_event on_operation on_store on_flush event_at is_operation accumulate absorb_all
    absorb can_add add overlaps contains
scan-events = refl

ranges : (IsRange first_half) × (IsRange second_half) × (IsRange whole)
ranges = (omega arith, omega arith, omega arith)

events-IsShaped : (i : ℕ) (e : TraceEvent) → event_at events i ≡ ok e → IsShaped e
unfolding event_at
events-IsShaped zero e h =
    subst IsShaped (ok_injective h) (record { ranges = (ranges.0, tt); bare = λ f. cc })
events-IsShaped (suc zero) e h =
    subst IsShaped (ok_injective h) (record { ranges = tt; bare = λ f. refl })
events-IsShaped (suc (suc zero)) e h =
    subst IsShaped (ok_injective h) (record { ranges = (ranges.1, tt); bare = λ f. cc })
events-IsShaped (suc (suc (suc i))) e h = cc

scan-Verdict_example : Verdict events whole 3 found
scan-Verdict_example = scan-Verdict 64 events whole ranges.2 3 found events-IsShaped scan-events

-- One store of half of the range.
abbrev partial : List TraceEvent
partial = event store (first_half ∷ []) 10 ∷ []

abbrev partly : Scan
partly = record {
  missing_flush = false;
  missing_fence = true;
  op_indices = 0 ∷ [];
  info = first_half;
  unadded = [];
}

scan-partial : scan 64 whole partial 1 start_scan ≡ ok partly
unfolding scan on_event on_operation on_store on_flush event_at is_operation accumulate absorb_all
    absorb can_add add overlaps contains
scan-partial = refl

partial-IsShaped : (i : ℕ) (e : TraceEvent) → event_at partial i ≡ ok e → IsShaped e
unfolding event_at
partial-IsShaped zero e h =
    subst IsShaped (ok_injective h) (record { ranges = (ranges.0, tt); bare = λ f. cc })
partial-IsShaped (suc i) e h = cc

partial-NoFence : NoFence partial 0 1
unfolding event_at
partial-NoFence zero le lt (e, here, f) =
    let same = subst (λ (d : TraceEvent). is_fence d.type ≡ true) (sym (ok_injective here)) f in cc
partial-NoFence (suc j) le lt f = absurd (omega arith)

partial-uncovered : ¬ ((x : ℕ) → Covers whole x → InStores partial whole 1 partly.op_indices x)
partial-uncovered all = elim (all 75 (omega arith)) [ inl c ↦ absurd (omega arith) | inr c ↦ c ]

scan_uncovered_example : (partly.missing_flush ≡ false) × (partly.missing_fence ≡ true)
scan_uncovered_example =
    scan_uncovered 64 partial whole ranges.2 1 partly partial-IsShaped scan-partial partial-NoFence
      partial-uncovered

fence_between_example :
    (found.missing_flush ≡ true)
    × (found.missing_fence ≡ false)
    × ((more : List ℕ) × (found.op_indices ≡ 2 ∷ more))
unfolding overlaps contains event_at
fence_between_example =
    fence_between 64 whole second_half events 1 _ _ found refl refl refl refl refl refl ranges.1
      refl refl scan-events
