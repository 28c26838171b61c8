-- ===== src/Persisted/Walk.antt =====
-- The walk back through the trace as a whole (src/BugFixer.cpp, `handleAssertPersisted`).
use hippocrates.Base.{
  ℕ, zero, suc, ◌≤◌, ◌<◌, ◌≡◌, refl, subst, inl, inr, Bool, true, false, ◌&&◌, List, [], ◌∷◌, ok,
  arith, All, Outcome-cases, Bool-cases, ok_injective,
}
use hippocrates.Address.{AddressInfo, overlaps}
use hippocrates.Address.Ranges.{IsRange, Covers}
use hippocrates.Trace.{TraceEvent, is_store, is_flush, is_fence, is_operation, event_at}
use hippocrates.Persisted.Scan.{Scan, start_scan, on_operation, on_event, scan}
use hippocrates.Persisted.Verdict.{
  IsShaped, NoFence, InStores, Running, Verdict, After, start-Running, Running-weaken,
  Running-fence, Running-Verdict,
}
use hippocrates.Persisted.Steps.{store-After, flush-After}

module _ (cl_sz : ℕ) (events : List TraceEvent) (bug : AddressInfo) (bug_range : IsRange bug)
    (n : ℕ) where
  module _ (i : ℕ) (s : Scan) (e : TraceEvent) (lt : i < n) (here : event_at events i ≡ ok e)
      (shape : IsShaped e) (r : Running events bug n (suc i) s) where
    operation-After :
        (q : Scan × Bool) (xs : List AddressInfo)
        → e.addresses ≡ xs
        → on_operation cl_sz bug i e.type xs s ≡ ok q
        → After events bug n i q
    unfolding on_operation
    operation-After q [] addrs ran = elim (Bool-cases (is_fence e.type)) [
      | inl fence ↦
          let done = rw fence at ran in
          subst (After events bug n i) (ok_injective done)
            (Running-fence events bug n i s e lt here fence r)
      | inr other ↦
          let done = rw other at ran in
          subst (After events bug n i) (ok_injective done)
            (Running-weaken events bug n i s e here other r)
    ]
    operation-After q (a ∷ rest) addrs ran =
        let range : IsRange a = (subst (All IsRange) addrs shape.ranges).0 in
        let other : is_fence e.type ≡ false = ground (arith, shape.bare) in
        elim (Bool-cases (is_store e.type && overlaps a bug)) [
          | inl store ↦
              let ran' = rw (store, on_operation) at ran in
              store-After events bug n i s e a rest lt here addrs range bug_range (ground arith) r q
                (ground arith) other ran'
          | inr no_store ↦ elim (Bool-cases (is_flush e.type && overlaps a bug)) [
            | inl flush ↦
                let ran' = rw (no_store, flush, on_operation) at ran in
                flush-After events bug n i s e a rest lt here addrs range bug_range (ground arith) r
                  cl_sz q (ground arith) ran'
            | inr neither ↦
                let ran' = rw (no_store, neither, on_operation) at ran in
                subst (After events bug n i) (ok_injective ran')
                  (Running-weaken events bug n i s e here other r)
          ]
        ]

    event-After : (q : Scan × Bool) → on_event cl_sz bug i e s ≡ ok q → After events bug n i q
    unfolding on_event
    event-After q ran = elim (Bool-cases (is_operation e)) [
      | inr quiet ↦
          let ran' = rw (quiet, on_event) at ran in
          subst (After events bug n i) (ok_injective ran')
            (Running-weaken events bug n i s e here (unfold is_operation in ground arith) r)
      | inl active ↦ operation-After q e.addresses refl (ground arith)
    ]

  scan-from :
      (k : ℕ) (s s' : Scan)
      → ((i : ℕ) (e : TraceEvent) → event_at events i ≡ ok e → IsShaped e)
      → k ≤ n
      → Running events bug n k s
      → scan cl_sz bug events k s ≡ ok s'
      → Verdict events bug n s'
  unfolding scan
  scan-from zero s s' shaped le r ran =
      subst (Verdict events bug n) (ok_injective ran) (Running-Verdict events bug n zero s r)
  scan-from (suc k) s s' shaped le r ran = elim (Outcome-cases (event_at events k)) [
    | inl bad ↦ let ran' = rw (bad, scan) at ran in cc
    | inr (e, here) ↦ elim (Outcome-cases (on_event cl_sz bug k e s)) [
      | inl bad ↦ let ran' = rw (here, bad, scan) at ran in cc
      | inr ((t, true), step) ↦
          scan-from k t s' shaped (omega arith)
            (event-After k s e le here (shaped k e here) r (t, true) step)
            (rw (here, step, scan) at ran)
      | inr ((t, false), step) ↦
          let ran' = rw (here, step, scan) at ran in
          subst (Verdict events bug n) (ok_injective ran')
            (event-After k s e le here (shaped k e here) r (t, false) step)
    ]
  ]

  -- What the walk concludes about a trace of well-shaped events: a flush or a fence is missing; a
  -- flush is missing only below a fence, or if the stores that were found wrote the whole range of
  -- the bug; a fence is taken for missing only if there is none behind any operation that was found,
  -- and where none is taken for missing, there is one somewhere in the trace; and the operations are
  -- stores and flushes that touch the range.
  pub scan-Verdict :
      (s : Scan)
      → ((i : ℕ) (e : TraceEvent) → event_at events i ≡ ok e → IsShaped e)
      → scan cl_sz bug events n start_scan ≡ ok s
      → Verdict events bug n s
  scan-Verdict s shaped ran =
      scan-from n start_scan s shaped (omega arith) (start-Running events bug n) ran

  -- Stores that leave a part of the range of the bug out, in a trace with no fence, are given a
  -- fence and no flush.
  pub scan_uncovered :
      (s : Scan)
      → ((i : ℕ) (e : TraceEvent) → event_at events i ≡ ok e → IsShaped e)
      → scan cl_sz bug events n start_scan ≡ ok s
      → NoFence events 0 n
      → ¬ ((x : ℕ) → Covers bug x → InStores events bug n s.op_indices x)
      → (s.missing_flush ≡ false) × (s.missing_fence ≡ true)
  scan_uncovered s shaped ran none_met uncovered =
      let v = scan-Verdict s shaped ran in
      let fence : s.missing_fence ≡ true = elim (Bool-cases s.missing_fence) [
        | inl e ↦ e
        | inr e ↦ let (j, lt, f) = v.fence_met e in absurd (none_met j (omega arith) lt f)
      ] in
      (
        elim (Bool-cases s.missing_flush) [
          | inr e ↦ e
          | inl e ↦ elim (v.flush_reason e) [
            | inl met ↦ cc
            | inr covers ↦ absurd (uncovered covers)
          ]
        ],
        fence,
      )
