-- ===== src/Persisted/Steps.antt =====
-- One step of the walk back through the trace keeps what the loop knows, or gives the verdict
-- (src/BugFixer.cpp, `handleAssertPersisted`).
use hippocrates.Base.{
  ℕ, suc, ◌≤◌, ◌<◌, ◌≡◌, refl, ap, subst, inl, inr, Bool, true, false, ◌||◌, some, List, [], ◌∷◌,
  ◌++◌, if◌then◌else◌, ok, arith, Bool-cases, ok_injective,
}
use hippocrates.Address.{AddressInfo, overlaps, contains}
use hippocrates.Address.Ranges.{IsRange, contains-Covers}
use hippocrates.Trace.{TraceEvent, is_store, is_flush, is_fence, event_at}
use hippocrates.Persisted.Accumulate.{accumulate}
use hippocrates.Persisted.Sums.{Sums, accumulate-Sums}
use hippocrates.Persisted.Scan.{Scan, on_store, on_flush}
use hippocrates.Persisted.Verdict.{
  stored, store_ranges, Hits, Running, After, Running-weaken, All-map2, All-concat-map,
  event_at-get_elem?, store_ranges-concat, first_sum,
}

module _ (events : List TraceEvent) (bug : AddressInfo) (n : ℕ) (i : ℕ) (s : Scan) (e : TraceEvent)
    (a : AddressInfo) (rest : List AddressInfo) (lt : i < n) (here : event_at events i ≡ ok e)
    (addrs : e.addresses ≡ a ∷ rest) (range : IsRange a) (bug_range : IsRange bug)
    (overlap : overlaps a bug ≡ true) (r : Running events bug n (suc i) s) where
  hit : is_store e.type || is_flush e.type ≡ true → Hits events bug i
  hit op = (e, a, here, op, rw addrs refl, overlap)

  stored_here : is_store e.type ≡ true → stored events i ≡ some a
  stored_here op = ground (arith, event_at-get_elem? events i e here)

  accumulate_here :
      is_store e.type ≡ true
      → (q : AddressInfo × List AddressInfo) × (accumulate s.info s.unadded a ≡ ok q)
        × Sums (store_ranges events (s.op_indices ++ (i ∷ []))) q.0 q.1
  accumulate_here op = elim r.sums [
    | inl sums ↦
        rw (store_ranges-concat events s.op_indices i a (stored_here op))
          (accumulate-Sums _ s.info s.unadded a sums range)
    | inr (none_yet, no_list, no_ops) ↦
        rw (store_ranges-concat events s.op_indices i a (stored_here op)) (
          first_sum (store_ranges events s.op_indices) s.info s.unadded a range none_yet no_list
            (ap (store_ranges events) no_ops))
  ]

  -- The state after a store, with its sum.
  store_step :
      is_store e.type ≡ true
      → is_fence e.type ≡ false
      → (acc : AddressInfo × List AddressInfo)
      → Sums (store_ranges events (s.op_indices ++ (i ∷ []))) acc.0 acc.1
      → let s' = record s {
        op_indices = s.op_indices ++ (i ∷ []);
        info = acc.0;
        unadded = acc.1;
      } in
        After events bug n i
          (if contains acc.0 bug then (record s' { missing_flush = true }, false) else (s', true))
  store_step op no_fence acc sums =
      let weak = Running-weaken events bug n i s e here no_fence r in
      let op' : is_store e.type || is_flush e.type ≡ true = ground arith in
      let hits =
        All-concat-map events bug n {Q = λ j. (i ≤ j) × (j < n) × Hits events bug j} s.op_indices i
          (λ j h. h) (omega arith, lt, hit op') weak.hits in
      elim (Bool-cases (contains acc.0 bug)) [
        | inl full ↦ rw full (record {
          one_missing = refl;
          flush_reason = λ _. inr λ x c.
              (sums.same x).0 (inl ((contains-Covers acc.0 bug sums.range bug_range).0 full x c));
          fence_met = r.fence;
          fence_missing = λ m.
              All-map2 events bug n (s.op_indices ++ (i ∷ []))
                (λ j h k le. weak.no_fence m k (omega arith)) hits;
          hits = All-map2 events bug n (s.op_indices ++ (i ∷ [])) (λ j h. (h.1, h.2)) hits;
        })
        | inr partial ↦ rw partial (record {
          sums = inl sums;
          opposite = r.opposite;
          no_fence = weak.no_fence;
          fence = r.fence;
          hits = hits;
        })
      ]

  pub store-After :
      (q : Scan × Bool)
      → is_store e.type ≡ true
      → is_fence e.type ≡ false
      → on_store bug i a s ≡ ok q
      → After events bug n i q
  unfolding on_store
  store-After q op no_fence ran =
      let (acc, ran_acc, sums) = accumulate_here op in
      let done = rw ran_acc at ran in
      subst (After events bug n i) (ok_injective done) (store_step op no_fence acc sums)

  pub flush-After :
      (cl_sz : ℕ) (q : Scan × Bool)
      → is_flush e.type ≡ true
      → on_flush cl_sz bug i a s ≡ ok q
      → After events bug n i q
  unfolding on_flush
  flush-After cl_sz q op ran =
      let no_fence : is_fence e.type ≡ false = ground arith in
      let op' : is_store e.type || is_flush e.type ≡ true = ground arith in
      let fence : s.missing_fence ≡ true = ground arith in
      let ended : (record s { op_indices = s.op_indices ++ (i ∷ []) }, false) ≡ q = ground arith in
      let weak = Running-weaken events bug n i s e here no_fence r in
      let hits =
        All-concat-map events bug n {Q = λ j. (i ≤ j) × (j < n) × Hits events bug j} s.op_indices i
          (λ j h. h) (omega arith, lt, hit op') weak.hits in
      subst (After events bug n i) ended (record {
        one_missing = ground arith;
        flush_reason = λ m. absurd (ground (arith, r.opposite));
        fence_met = r.fence;
        fence_missing = λ m.
            All-map2 events bug n (s.op_indices ++ (i ∷ []))
              (λ j h k le. weak.no_fence m k (omega arith)) hits;
        hits = All-map2 events bug n (s.op_indices ++ (i ∷ [])) (λ j h. (h.1, h.2)) hits;
      })
