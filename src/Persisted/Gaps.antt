-- ===== src/Persisted/Gaps.antt =====
-- A fence behind stores that the walk has found (src/BugFixer.cpp, `handleAssertPersisted`).
use hippocrates.Base.{
  ℕ, zero, suc, ◌≡◌, refl, sym, ap, ◌∙◌, subst, inl, inr, Bool, true, false, ◌&&◌, List, [], ◌∷◌,
  ◌++◌, ok, arith, Bool-cases, Outcome-cases, ok_injective, went_on,
}
use hippocrates.Address.{AddressInfo, overlaps, contains, is_single_cache_line}
use hippocrates.Address.Ranges.{IsRange}
use hippocrates.Persisted.Accumulate.{accumulate}
use hippocrates.Persisted.Sums.{accumulate-first}
use hippocrates.Trace.{
  TraceEvent, EventType, store, fence, event_at, is_operation, is_store, is_flush, is_fence,
}
use hippocrates.Persisted.Scan.{Scan, start_scan, on_store, on_flush, on_operation, on_event, scan}

-- A flush and no fence for the operations that have been found.
abbrev FlushAlone : List ℕ → Scan → Type 0
FlushAlone found s =
    (s.missing_flush ≡ true)
    × (s.missing_fence ≡ false)
    × ((more : List ℕ) × (s.op_indices ≡ found ++ more))

append-append : (xs ys zs : List ℕ) → (xs ++ ys) ++ zs ≡ xs ++ (ys ++ zs)
append-append [] ys zs = refl
append-append (x ∷ xs) ys zs = ap (λ l. x ∷ l) (append-append xs ys zs)

module _ (cl_sz : ℕ) (bug : AddressInfo) (found : List ℕ) (i : ℕ) where
  store-FlushAlone :
      (a : AddressInfo) (s : Scan) (q : Scan × Bool)
      → FlushAlone found s
      → on_store bug i a s ≡ ok q
      → FlushAlone found q.0
  unfolding on_store
  store-FlushAlone a s q (flush, no_fence, (more, e)) ran =
      let (r, sum, done) = went_on (accumulate s.info s.unadded a) _ q ran in
      let more' : s.op_indices ++ (i ∷ []) ≡ found ++ (more ++ (i ∷ [])) =
        ap (λ l. l ++ (i ∷ [])) e ∙ append-append found more (i ∷ []) in
      elim (Bool-cases (contains r.0 bug)) [
        | inl c ↦
            subst (λ t. FlushAlone found t.0) (ok_injective (rw (c) at done))
              (refl, no_fence, (more ++ (i ∷ []), more'))
        | inr c ↦
            subst (λ t. FlushAlone found t.0) (ok_injective (rw (c) at done))
              (flush, no_fence, (more ++ (i ∷ []), more'))
      ]

  flush-stops :
      (a : AddressInfo) (s : Scan) (q : Scan × Bool)
      → s.missing_fence ≡ false
      → on_flush cl_sz bug i a s ≡ ok q
      → ⊥
  unfolding on_flush
  flush-stops a s q e ran = elim (Bool-cases (is_single_cache_line cl_sz a)) [
    | inl line ↦ let ran' = rw (on_flush, line, e) at ran in cc
    | inr line ↦ let ran' = rw (on_flush, line) at ran in cc
  ]

  operation-FlushAlone :
      (type : EventType) (addrs : List AddressInfo) (s : Scan) (q : Scan × Bool)
      → FlushAlone found s
      → on_operation cl_sz bug i type addrs s ≡ ok q
      → FlushAlone found q.0
  unfolding on_operation
  operation-FlushAlone type [] s q held ran = elim (Bool-cases (is_fence type)) [
    | inl e ↦ subst (λ t. FlushAlone found t.0) (ok_injective (rw (e) at ran)) (refl, refl, held.2)
    | inr e ↦ subst (λ t. FlushAlone found t.0) (ok_injective (rw (e) at ran)) held
  ]
  operation-FlushAlone type (a ∷ rest) s q held ran =
      elim (Bool-cases (is_store type && overlaps a bug)) [
        | inl e ↦ store-FlushAlone a s q held (rw (on_operation, e) at ran)
        | inr e ↦ elim (Bool-cases (is_flush type && overlaps a bug)) [
          | inl f ↦ absurd (flush-stops a s q held.1 (rw (on_operation, e, f) at ran))
          | inr f ↦
              subst (λ t. FlushAlone found t.0) (ok_injective (rw (on_operation, e, f) at ran)) held
        ]
      ]

  event-FlushAlone :
      (e : TraceEvent) (s : Scan) (q : Scan × Bool)
      → FlushAlone found s
      → on_event cl_sz bug i e s ≡ ok q
      → FlushAlone found q.0
  unfolding on_event
  event-FlushAlone e s q held ran = elim (Bool-cases (is_operation e)) [
    | inr quiet ↦
        subst (λ t. FlushAlone found t.0) (ok_injective (rw (on_event, quiet) at ran)) held
    | inl active ↦ operation-FlushAlone e.type e.addresses s q held (ground arith)
  ]

-- What has been found in front of a fence keeps its flush alone to the end of the walk.
scan-FlushAlone :
    (cl_sz : ℕ) (bug : AddressInfo) (events : List TraceEvent) (found : List ℕ) (k : ℕ)
    (s s' : Scan)
    → FlushAlone found s
    → scan cl_sz bug events k s ≡ ok s'
    → FlushAlone found s'
unfolding scan
scan-FlushAlone cl_sz bug events found zero s s' held ran =
    subst (FlushAlone found) (ok_injective ran) held
scan-FlushAlone cl_sz bug events found (suc k) s s' held ran =
    elim (Outcome-cases (event_at events k)) [
      | inl bad ↦ let ran' = rw (bad, scan) at ran in cc
      | inr (e, here) ↦ elim (Outcome-cases (on_event cl_sz bug k e s)) [
        | inl bad ↦ let ran' = rw (here, bad, scan) at ran in cc
        | inr ((t, true), step) ↦
            scan-FlushAlone cl_sz bug events found k t s'
              (event-FlushAlone cl_sz bug found k e s (t, true) held step)
              (rw (here, step, scan) at ran)
        | inr ((t, false), step) ↦
            subst (FlushAlone found) (ok_injective (rw (here, step, scan) at ran))
              (event-FlushAlone cl_sz bug found k e s (t, false) held step)
      ]
    ]

scan-goes_on :
    (cl_sz : ℕ) (bug : AddressInfo) (events : List TraceEvent) (k : ℕ) (e : TraceEvent) (s t : Scan)
    → event_at events k ≡ ok e
    → on_event cl_sz bug k e s ≡ ok (t, true)
    → scan cl_sz bug events (suc k) s ≡ scan cl_sz bug events k t
unfolding scan
scan-goes_on cl_sz bug events k e s t here step = rw (scan, here, step) refl

-- A store that is found first, and a fence.
at_store :
    (cl_sz : ℕ) (bug a : AddressInfo) (i : ℕ) (e : TraceEvent)
    → e.type ≡ store
    → e.addresses ≡ a ∷ []
    → IsRange a
    → overlaps a bug ≡ true
    → contains a bug ≡ false
    → on_event cl_sz bug i e start_scan
      ≡ ok (record start_scan { op_indices = i ∷ []; info = a; unadded = [] }, true)
unfolding on_event on_operation on_store is_operation
at_store cl_sz bug a i e type addrs range over part =
    rw (type, addrs, over, (accumulate-first a range).0, part) refl

at_fence :
    (cl_sz : ℕ) (bug : AddressInfo) (i : ℕ) (e : TraceEvent) (s : Scan)
    → e.type ≡ fence
    → e.addresses ≡ []
    → on_event cl_sz bug i e s ≡ ok (record s { missing_fence = false; missing_flush = true }, true)
unfolding on_event on_operation is_operation
at_fence cl_sz bug i e s type addrs = rw (type, addrs) refl

-- The two events in front of a bug are a fence and, behind it, a store of a range that is not empty
-- and does not wrap; the store writes a part of the range of the bug but not all of it. No fence
-- follows the store; still the walk, where it does not stop at an assertion, finds the store and
-- tells that a flush is missing and no fence, whatever stands in front of the two.
pub fence_between :
    (cl_sz : ℕ) (bug a : AddressInfo) (events : List TraceEvent) (k : ℕ) (barrier last : TraceEvent)
    (s : Scan)
    → event_at events k ≡ ok barrier
    → event_at events (suc k) ≡ ok last
    → barrier.type ≡ fence
    → barrier.addresses ≡ []
    → last.type ≡ store
    → last.addresses ≡ a ∷ []
    → IsRange a
    → overlaps a bug ≡ true
    → contains a bug ≡ false
    → scan cl_sz bug events (suc (suc k)) start_scan ≡ ok s
    → (s.missing_flush ≡ true)
      × (s.missing_fence ≡ false)
      × ((more : List ℕ) × (s.op_indices ≡ suc k ∷ more))
fence_between cl_sz bug a events k barrier last s at_k at_last t1 a1 t2 a2 range over part ran =
    let first = at_store cl_sz bug a (suc k) last t2 a2 range over part in
    let second = at_fence cl_sz bug k barrier _ t1 a1 in
    scan-FlushAlone cl_sz bug events (suc k ∷ []) k _ s (refl, refl, ([], refl))
      (sym (scan-goes_on cl_sz bug events k barrier _ _ at_k second)
        ∙ (sym (scan-goes_on cl_sz bug events (suc k) last _ _ at_last first) ∙ ran))
