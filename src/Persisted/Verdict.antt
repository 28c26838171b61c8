-- ===== src/Persisted/Verdict.antt =====
-- What the walk back through the trace concludes (src/BugFixer.cpp, `handleAssertPersisted`).
use hippocrates.Base.{
  ℕ, suc, ◌≤◌, ◌<◌, ◌≡◌, refl, sym, ◌∙◌, ap, subst, ◌⊎◌, inl, inr, Bool, true, false, not, ◌||◌,
  Option, none, some, List, [], ◌∷◌, ◌++◌, get_elem?, if◌then◌else◌, ok, arith, All, Bool-cases,
  Option-cases, ◌==◌, ok_injective,
}
use hippocrates.Address.{AddressInfo, overlaps, no_address}
use hippocrates.Address.Ranges.{IsRange, Covers}
use hippocrates.Trace.{TraceEvent, is_store, is_flush, is_fence, event_at}
use hippocrates.Persisted.Accumulate.{accumulate}
use hippocrates.Persisted.Sums.{InSome, Sums, accumulate-first}
use hippocrates.Persisted.Scan.{Scan, start_scan}

abbrev pub front : List AddressInfo → Option AddressInfo
front [] = none
front (a ∷ _) = some a

-- The range that a store of the trace writes.
abbrev pub stored : List TraceEvent → ℕ → Option AddressInfo
stored events i = elim (get_elem? events i) [
  | none ↦ none
  | some e ↦ if is_store e.type then front e.addresses else none
]

-- The ranges of the stores at these indices.
abbrev pub store_ranges : List TraceEvent → List ℕ → List AddressInfo
store_ranges events [] = []
store_ranges events (i ∷ is) = elim (stored events i) [
  | none ↦ store_ranges events is
  | some a ↦ a ∷ store_ranges events is
]

-- An event as a trace has it: its ranges are not empty and end in the address space, and a fence has
-- none.
pub record IsShaped (e : TraceEvent) : Type 0 where
  pub ranges : All IsRange e.addresses
  pub bare : is_fence e.type ≡ true → e.addresses ≡ []

abbrev pub FenceAt : List TraceEvent → ℕ → Type 0
FenceAt events j = (e : TraceEvent) × (event_at events j ≡ ok e) × (is_fence e.type ≡ true)

-- No fence from index k on, below n.
abbrev pub NoFence : List TraceEvent → ℕ → ℕ → Type 0
NoFence events k n = (j : ℕ) → k ≤ j → j < n → FenceAt events j → ⊥

-- A store or a flush that touches the range.
abbrev pub Hits : List TraceEvent → AddressInfo → ℕ → Type 0
Hits events bug i =
    (e : TraceEvent) × (a : AddressInfo) × (event_at events i ≡ ok e)
    × (is_store e.type || is_flush e.type ≡ true)
    × (front e.addresses ≡ some a)
    × (overlaps a bug ≡ true)

pub event_at-get_elem? :
    (events : List TraceEvent) (i : ℕ) (e : TraceEvent)
    → event_at events i ≡ ok e
    → get_elem? events i ≡ some e
unfolding event_at
event_at-get_elem? events i e h = elim (Option-cases (get_elem? events i)) [
  | inl no_event ↦ let h' = rw (no_event, event_at) at h in cc
  | inr (e', there) ↦ let h' = rw (there, event_at) at h in there ∙ ap some (ok_injective h')
]

pub store_ranges-concat :
    (events : List TraceEvent) (is : List ℕ) (i : ℕ) (a : AddressInfo)
    → stored events i ≡ some a
    → store_ranges events (is ++ (i ∷ [])) ≡ store_ranges events is ++ (a ∷ [])
store_ranges-concat events [] i a h = ground arith
store_ranges-concat events (j ∷ is) i a h = ground (arith, store_ranges-concat events is i a h)

fence_clash :
    (events : List TraceEvent) (e f : TraceEvent) (i j : ℕ)
    → event_at events i ≡ ok e
    → event_at events j ≡ ok f
    → j ≡ i
    → is_fence e.type ≡ false
    → is_fence f.type ≡ true
    → ⊥
fence_clash events e f i j here there same no_fence is =
    let at_i = subst (λ k. event_at events k ≡ ok f) same there in
    let one = ok_injective (sym here ∙ at_i) in
    let both = subst (λ (g : TraceEvent). is_fence g.type ≡ false) one no_fence in cc

pub first_sum :
    (seen : List AddressInfo) (info : AddressInfo) (us : List AddressInfo) (a : AddressInfo)
    → IsRange a
    → info ≡ no_address
    → us ≡ []
    → seen ≡ []
    → (q : AddressInfo × List AddressInfo) × (accumulate info us a ≡ ok q)
      × Sums (seen ++ (a ∷ [])) q.0 q.1
first_sum seen info us a r e f g =
    let (ran, sums) = accumulate-first a r in rw (e, f, g) ((a, []), ran, sums)

module _ (events : List TraceEvent) (bug : AddressInfo) (n : ℕ) where
  abbrev pub InStores : List ℕ → ℕ → Type 0
  InStores is x = InSome (store_ranges events is) x

  -- While the loop runs with index k.
  pub record Running (k : ℕ) (s : Scan) : Type 0 where
    pub sums :
        Sums (store_ranges events s.op_indices) s.info s.unadded
        ⊎ (s.info ≡ no_address) × (s.unadded ≡ []) × (s.op_indices ≡ [])
    pub opposite : s.missing_flush ≡ not s.missing_fence
    pub no_fence : s.missing_fence ≡ true → NoFence events k n
    pub fence : s.missing_fence ≡ false → (j : ℕ) × (j < n) × FenceAt events j
    pub hits : All (λ i. (k ≤ i) × (i < n) × Hits events bug i) s.op_indices

  -- When it has ended.
  pub record Verdict (s : Scan) : Type 0 where
    pub one_missing : s.missing_flush || s.missing_fence ≡ true
    pub flush_reason :
        s.missing_flush ≡ true
        → (s.missing_fence ≡ false) ⊎ ((x : ℕ) → Covers bug x → InStores s.op_indices x)
    pub fence_met : s.missing_fence ≡ false → (j : ℕ) × (j < n) × FenceAt events j
    pub fence_missing : s.missing_fence ≡ true → All (λ i. NoFence events i n) s.op_indices
    pub hits : All (λ i. (i < n) × Hits events bug i) s.op_indices

  pub start-Running : Running n start_scan
  start-Running = record {
    sums = inr (refl, refl, refl);
    opposite = refl;
    no_fence = λ e j h k. absurd (omega arith);
    fence = λ e. cc;
    hits = tt;
  }

  pub All-map2 : {P Q : ℕ → Type 0} (is : List ℕ) → ((i : ℕ) → P i → Q i) → All P is → All Q is
  All-map2 [] f h = tt
  All-map2 (i ∷ is) f h = (f i h.0, All-map2 is f h.1)

  pub Running-Verdict : (k : ℕ) (s : Scan) → Running k s → Verdict s
  Running-Verdict k s r = record {
    one_missing = ground (arith, r.opposite);
    flush_reason = λ e. inl (ground (arith, r.opposite));
    fence_met = r.fence;
    fence_missing = λ e. All-map2 s.op_indices (λ i h j le. r.no_fence e j (omega arith)) r.hits;
    hits = All-map2 s.op_indices (λ i h. (h.1, h.2)) r.hits;
  }

  pub Running-weaken :
      (i : ℕ) (s : Scan) (e : TraceEvent)
      → event_at events i ≡ ok e
      → is_fence e.type ≡ false
      → Running (suc i) s
      → Running i s
  Running-weaken i s e here no_fence r = record {
    sums = r.sums;
    opposite = r.opposite;
    no_fence = λ m j le lt (f, there, is). elim (Bool-cases (j == i)) [
      | inl same ↦ fence_clash events e f i j here there (ground arith) no_fence is
      | inr other ↦ r.no_fence m j (ground arith) lt (f, there, is)
    ];
    fence = r.fence;
    hits = All-map2 s.op_indices (λ j h. (omega arith, h.1, h.2)) r.hits;
  }

  pub Running-fence :
      (i : ℕ) (s : Scan) (e : TraceEvent)
      → i < n
      → event_at events i ≡ ok e
      → is_fence e.type ≡ true
      → Running (suc i) s
      → Running i (record s { missing_fence = false; missing_flush = true })
  Running-fence i s e lt here is r = record {
    sums = r.sums;
    opposite = refl;
    no_fence = λ m. cc;
    fence = λ m. (i, lt, (e, here, is));
    hits = All-map2 s.op_indices (λ j h. (omega arith, h.1, h.2)) r.hits;
  }

  -- What a step leaves behind: a running loop, or its verdict.
  abbrev pub After : ℕ → Scan × Bool → Type 0
  After i (s, true) = Running i s
  After i (s, false) = Verdict s

  pub All-concat-map :
      {P Q : ℕ → Type 0} (is : List ℕ) (i : ℕ)
      → ((j : ℕ) → P j → Q j)
      → Q i
      → All P is
      → All Q (is ++ (i ∷ []))
  All-concat-map [] i f q h = (q, tt)
  All-concat-map (j ∷ is) i f q h = (f j h.0, All-concat-map is i f q h.1)
