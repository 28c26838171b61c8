-- ===== src/Redundant/Search.antt =====
-- The search for the redundant flush (src/BugFixer.cpp, `BugFixer::handleRequiredFlush`).
use hippocrates.Base.{
  ℕ, zero, suc, ◌≤◌, ◌<◌, ◌≡◌, refl, sym, subst, ◌⊎◌, inl, inr, true, ◌||◌, Option, none, some,
  List, [], ◌∷◌, length, leb, Outcome, ok, arith, Bool-cases, Option-cases, Outcome-cases,
  ok_injective,
}
use hippocrates.Address.{AddressInfo, overlaps}
use hippocrates.Address
use hippocrates.Trace.{TraceEvent, is_flush, is_operation, event_at}
use hippocrates.Redundant.{
  Found, indices, partly, Look, goes_on, stops, look_at, look_event, search,
}

module _ (bug : AddressInfo) (events : List TraceEvent) where
  -- A flush of the trace with this range.
  pub record FlushAt (i : ℕ) (addr : AddressInfo) : Type 0 where
    pub event : TraceEvent
    pub rest : List AddressInfo
    pub there : event_at events i ≡ ok event
    pub range : event.addresses ≡ addr ∷ rest
    pub flushes : is_flush event.type ≡ true

  -- A flush of exactly the range of the bug, and one that touches it.
  abbrev pub Exact : ℕ → Type 0
  Exact i = (addr : AddressInfo) × FlushAt i addr × (Address.eq addr bug ≡ true)

  abbrev pub Touching : ℕ → Type 0
  Touching i =
      (addr : AddressInfo) × FlushAt i addr × (Address.eq addr bug || overlaps addr bug ≡ true)

  -- What a look at an event can give.
  data Looked (i : ℕ) (redundant : Option ℕ) (l : Look) : Type 0 where
    passes : l ≡ goes_on redundant → Looked i redundant l
    first : redundant ≡ none → Exact i → l ≡ goes_on (some i) → Looked i redundant l
    second :
        (r : ℕ)
        → redundant ≡ some r
        → Touching i
        → l ≡ stops (indices (some r) (some i))
        → Looked i redundant l
    gives_up : redundant ≡ none → Touching i → l ≡ stops partly → Looked i redundant l

  look_at-Looked :
      (i : ℕ) (e : TraceEvent) (addr : AddressInfo) (rest : List AddressInfo) (redundant : Option ℕ)
      → event_at events i ≡ ok e
      → e.addresses ≡ addr ∷ rest
      → Looked i redundant (look_at bug i e.type addr redundant)
  unfolding look_at
  look_at-Looked i e addr rest redundant there range = elim (Bool-cases (is_flush e.type)) [
    | inr e1 ↦ rw (look_at, e1) (passes refl)
    | inl e1 ↦
        let here : FlushAt i addr = record {
          event = e;
          rest = rest;
          there = there;
          range = range;
          flushes = e1;
        } in
        elim (Bool-cases (Address.eq addr bug)) [
          | inl e2 ↦ elim (Option-cases redundant) [
            | inl e3 ↦ rw (look_at, e1, e2, e3) (first refl (addr, here, e2) refl)
            | inr (r, e3) ↦ rw (look_at, e1, e2, e3) (second r refl (addr, here, ground arith) refl)
          ]
          | inr e2 ↦ elim (Bool-cases (overlaps addr bug)) [
            | inr e3 ↦ rw (look_at, e1, e2, e3) (passes refl)
            | inl e3 ↦ elim (Option-cases redundant) [
              | inl e4 ↦
                  rw (look_at, e1, e2, e3, e4) (gives_up refl (addr, here, ground arith) refl)
              | inr (r, e4) ↦
                  rw (look_at, e1, e2, e3, e4) (second r refl (addr, here, ground arith) refl)
            ]
          ]
        ]
  ]

  List-cases :
      (as' : List AddressInfo)
      → (as' ≡ []) ⊎ ((a : AddressInfo) × (rest : List AddressInfo) × (as' ≡ a ∷ rest))
  List-cases [] = inl refl
  List-cases (a ∷ rest) = inr (a, rest, refl)

  look_event-Looked :
      (i : ℕ) (e : TraceEvent) (redundant : Option ℕ) (l : Look)
      → event_at events i ≡ ok e
      → look_event bug i e redundant ≡ ok l
      → Looked i redundant l
  unfolding look_event
  look_event-Looked i e redundant l there ran = elim (Bool-cases (is_operation e)) [
    | inr e1 ↦ passes (sym (ok_injective (rw (look_event, e1) at ran)))
    | inl e1 ↦ elim (Bool-cases (leb (length e.addresses) 1)) [
      | inr e2 ↦ ground (arith, rw (look_event, e1, e2) at ran)
      | inl e2 ↦ elim (List-cases e.addresses) [
        | inl e3 ↦ passes (sym (ok_injective (rw (look_event, e1, e2, e3) at ran)))
        | inr (addr, rest, e3) ↦
            subst (Looked i redundant) (ok_injective (rw (look_event, e1, e2, e3) at ran))
              (look_at-Looked i e addr rest redundant there e3)
      ]
    ]
  ]

  abbrev Known : ℕ → Option ℕ → Type 0
  Known n none = Unit
  Known n (some r) = (n ≤ r) × Exact r

  Known-down : (n : ℕ) (redundant : Option ℕ) → Known (suc n) redundant → Known n redundant
  Known-down n none k = tt
  Known-down n (some r) k = (omega (arith, k.0), k.1)

  -- One step of the search, from the event of the step.
  search-Looked :
      (i : ℕ) (redundant : Option ℕ) (f : Found)
      → search bug events (suc i) redundant ≡ ok f
      → (l : Look) × Looked i redundant l
        × ((elim l as (λ _. Outcome Found) [ goes_on r ↦ search bug events i r | stops g ↦ ok g ])
            ≡ ok f)
  unfolding search
  search-Looked i redundant f ran = elim (Outcome-cases (event_at events i)) [
    | inl e1 ↦ ground (arith, rw (search, e1) at ran)
    | inr (e, e1) ↦ elim (Outcome-cases (look_event bug i e redundant)) [
      | inl e2 ↦ ground (arith, rw (search, e1, e2) at ran)
      | inr (goes_on r, e2) ↦
          (goes_on r, look_event-Looked i e redundant (goes_on r) e1 e2, rw (search, e1, e2) at ran)
      | inr (stops g, e2) ↦
          (stops g, look_event-Looked i e redundant (stops g) e1 e2, rw (search, e1, e2) at ran)
    ]
  ]

  search-from :
      (n : ℕ) (redundant : Option ℕ) (r o : ℕ)
      → Known n redundant
      → search bug events n redundant ≡ ok (indices (some r) (some o))
      → (o < r) × Exact r × Touching o
  unfolding search
  search-from zero redundant r o known ran = ground (arith, ran)
  search-from (suc i) redundant r o known ran =
      let (l, looked, rest) = search-Looked i redundant _ ran in
      elim looked [
        | passes same ↦
            search-from i redundant r o (Known-down i redundant known) (rw (same) at rest)
        | first e exact same ↦ search-from i (some i) r o (omega arith, exact) (rw (same) at rest)
        | second r' e touch same ↦
            let both = ok_injective (rw (same) at rest) in
            let (above, exact) = subst (Known (suc i)) e known in
            let r_same : r' ≡ r = ground (arith, both) in
            let o_same : i ≡ o = ground (arith, both) in
            (
              omega (arith, above, r_same, o_same),
              subst Exact r_same exact,
              subst Touching o_same touch,
            )
        | gives_up e touch same ↦ ground (arith, rw (same) at rest)
      ]

  -- Where the search finds both indices, the redundant one is of a flush of exactly the range of the
  -- bug, and the original one, below it, of a flush that touches that range.
  pub search-Exact :
      (n r o : ℕ)
      → search bug events n none ≡ ok (indices (some r) (some o))
      → (o < r) × Exact r × Touching o
  search-Exact n r o ran = search-from n none r o tt ran
