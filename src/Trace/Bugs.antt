-- ===== src/Trace/Bugs.antt =====
-- The bugs of a trace that is built from its events (src/BugReports.cpp, `TraceInfo::addEvent` and
-- `TraceInfoBuilder::build`).
use hippocrates.Base.{
  ℕ, ◌+◌, ◌≡◌, refl, sym, ◌∙◌, ap, subst, inl, inr, List, [], ◌∷◌, ◌++◌, length, if◌then◌else◌, ok,
  arith, length-append, Bool-cases, Outcome-cases, ok_injective,
}
use mathlib.Core.List.{append-nil}
use hippocrates.Trace.{TraceEvent, TraceInfo, add_event}
use hippocrates.Trace.Build.{YamlEvent, read_event, process_event, process_events}

-- The indices of the events that are bugs, where the first event has the given index.
abbrev pub bug_indices : ℕ → List TraceEvent → List ℕ
bug_indices n [] = []
bug_indices n (e ∷ es) = let rest = bug_indices (n + 1) es in if e.is_bug then n ∷ rest else rest

abbrev last_index : ℕ → TraceEvent → List ℕ
last_index n e = if e.is_bug then n ∷ [] else []

bug_indices-append :
    (n : ℕ) (es : List TraceEvent) (e : TraceEvent)
    → bug_indices n (es ++ e ∷ []) ≡ bug_indices n es ++ last_index (n + length es) e
bug_indices-append n [] e = ap (λ k. last_index k e) (omega arith)
bug_indices-append n (d ∷ es) e =
    let ih =
      bug_indices-append (n + 1) es e
      ∙ ap (λ k. bug_indices (n + 1) es ++ last_index k e) (omega arith) in
    elim (Bool-cases d.is_bug) [ inl b ↦ rw (b) (ap (λ r. n ∷ r) ih) | inr b ↦ rw (b) ih ]

add_event-bugs :
    (ti : TraceInfo) (e : TraceEvent)
    → ti.bugs ≡ bug_indices 0 ti.events
    → (add_event ti e).bugs ≡ bug_indices 0 (add_event ti e).events
unfolding add_event
add_event-bugs ti e exact = rw (bug_indices-append 0 ti.events e) (elim (Bool-cases e.is_bug) [
  | inl b ↦ rw (b) (
      ap (λ r. r ++ length ti.events ∷ []) exact
      ∙ ap (λ k. bug_indices 0 ti.events ++ k ∷ []) (omega arith))
  | inr b ↦ rw (b) (exact ∙ sym (append-nil (bug_indices 0 ti.events)))
])

add_event-source : (ti : TraceInfo) (e : TraceEvent) → (add_event ti e).source ≡ ti.source
unfolding add_event
add_event-source ti e = refl

add_event-length :
    (ti : TraceInfo) (e : TraceEvent) → length (add_event ti e).events ≡ length ti.events + 1
unfolding add_event
add_event-length ti e = length-append ti.events (e ∷ [])

-- Where the list of the bugs of a trace has the indices of exactly its events that are bugs, in order,
-- it has them after more events are read, too. Each one that is read adds an event, and the source
-- stays.
pub process_events-bugs :
    (ti ti' : TraceInfo) (ys : List YamlEvent)
    → ti.bugs ≡ bug_indices 0 ti.events
    → process_events ti ys ≡ ok ti'
    → (ti'.bugs ≡ bug_indices 0 ti'.events)
      × (length ti'.events ≡ length ti.events + length ys)
      × (ti'.source ≡ ti.source)
unfolding process_events process_event
process_events-bugs ti ti' [] exact ran =
    subst
      (λ t.
        (t.bugs ≡ bug_indices 0 t.events)
        × (length t.events ≡ length ti.events + 0)
        × (t.source ≡ ti.source))
      (ok_injective ran) (exact, omega arith, refl)
process_events-bugs ti ti' (y ∷ ys) exact ran = elim (Outcome-cases (read_event ti.source y)) [
  | inl e ↦ ground (arith, rw (process_events, process_event, e) at ran)
  | inr (v, e) ↦
      let (bugs, len, source) =
        process_events-bugs (add_event ti v) ti' ys (add_event-bugs ti v exact)
          (rw (process_events, process_event, e) at ran) in
      (bugs, omega (arith, len, add_event-length ti v), source ∙ add_event-source ti v)
]
