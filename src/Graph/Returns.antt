-- ===== src/Graph/Returns.antt =====
-- src/FlowAnalyzer.cpp: a call and the return from it (`FnContext::doCall` and `doReturn`).
use hippocrates.Base.{
  ℕ, ◌<◌, ◌≡◌, refl, sym, ap, ◌∙◌, subst, inl, inr, Bool, true, false, ◌||◌, Option, none, some,
  List, ◌==◌, if◌then◌else◌, Outcome, ok, ◌>>=◌, arith, Bool-cases, Option-cases, ok_injective,
  some_injective, went_on, taken, not_taken,
}
use hippocrates.Ir.{Value}
use hippocrates.PmDesc.{
  or_self, filtered, Anders, PmDesc, has, add_known_pm_value, points_to_pm, points_to_set,
  is_global,
}
use hippocrates.PmDesc
use hippocrates.PmDesc.Seeds.{has-insert_all}
use hippocrates.Graph.Stores.{change-here, change-other, frame_of, do_call-new, return-SameFrames}
use hippocrates.Graph.{
  FnContext, Contexts, do_call, caller, with_pm, hand_back, call_value, told, returned,
  return_to_parent,
}

-- What is known afterwards of the locals of one context is more, and of the others the same.
abbrev Grows : ℕ → Contexts → Contexts → Type 0
Grows p cs cs' =
    ((x : ℕ) → (x == p) ≡ false → cs'.context x ≡ cs.context x)
    × ((u : Value)
        → has u (PmDesc.locals (FnContext.pm (cs.context p))) ≡ true
        → has u (PmDesc.locals (FnContext.pm (cs'.context p))) ≡ true)

Grows-same : (p : ℕ) (cs : Contexts) → Grows p cs cs
Grows-same p cs = (λ x h. refl, λ u h. h)

or_true : (a : Bool) {b : Bool} → b ≡ true → (a || b) ≡ true
or_true a h = ground (arith, h)

-- The contexts after a call, when the called function has come to know `d`.
with_pm-do_call :
    (n cb : ℕ) (cs : Contexts) (d : PmDesc)
    → let r = do_call n cb cs in
      let now : Contexts = with_pm r.0 d r.1 in
      (r.0 ≡ cs.count)
      × (FnContext.parent (now.context r.0) ≡ some n)
      × (FnContext.pm (now.context r.0) ≡ d)
      × ((x : ℕ) → x < cs.count → now.context x ≡ cs.context x)
with_pm-do_call n cb cs d =
    let k = (do_call n cb cs).0 in
    let made : Contexts = (do_call n cb cs).1 in
    let (at_k, size, frame, old) = do_call-new n cb cs in
    let here : Contexts.context (with_pm k d made) k ≡ record (Contexts.context made k) { pm = d } =
      change-here k _ (Contexts.context made) in
    (
      at_k,
      ap FnContext.parent here
          ∙ ap (λ x. FnContext.parent (made.context x)) at_k
          ∙ ap (λ (f : List ℕ × Option ℕ). f.1) frame,
      ap FnContext.pm here,
      λ x h. change-other k x _ made.context (ground (arith, h, at_k)) ∙ old x h,
    )

module _ (anders : Anders) where
  add_known-locals :
      (d d' : PmDesc) (w u : Value)
      → add_known_pm_value anders d w ≡ ok d'
      → has u d.locals ≡ true
      → has u d'.locals ≡ true
  unfolding add_known_pm_value
  add_known-locals d d' w u ran h = elim (Option-cases (points_to_set anders w)) [
    | inl e ↦ absurd (ground (arith, rw (add_known_pm_value, e) at ran))
    | inr (pts, e) ↦ elim (Bool-cases (is_global w.sort)) [
      | inl g ↦
          subst (λ (q : PmDesc). has u q.locals ≡ true)
            (ok_injective (rw (add_known_pm_value, e, g) at ran)) h
      | inr l ↦
          subst (λ (q : PmDesc). has u q.locals ≡ true)
            (ok_injective (rw (add_known_pm_value, e, l) at ran))
            (has-insert_all u (filtered (or_self w pts)) d.locals ∙ or_true _ h)
    ]
  ]

  told-Grows :
      (c : FnContext) (p : ℕ) (v : Value) (cs cs' : Contexts)
      → told anders c p v cs ≡ ok cs'
      → Grows p cs cs'
  unfolding told
  told-Grows c p v cs cs' ran =
      let learn : ℕ → Outcome PmDesc =
        λ cb. add_known_pm_value anders (FnContext.pm (cs.context p)) (call_value cb v) in
      let (cb, e1, ran1) =
        went_on (caller c) (λ cb. learn cb >>= λ d. ok (with_pm p d cs)) cs' ran in
      let (d, e2, end) = went_on (learn cb) (λ d. ok (with_pm p d cs)) cs' ran1 in
      subst (Grows p cs) (ok_injective end) (
        λ x h. change-other p x _ cs.context h,
        λ u h.
            subst (λ (q : FnContext). has u (PmDesc.locals q.pm) ≡ true)
              (sym (change-here p (record (Contexts.context cs p) { pm = d }) cs.context))
              (add_known-locals (FnContext.pm (cs.context p)) d (call_value cb v) u e2 h),
      )

  returned-Grows :
      (c : FnContext) (p : ℕ) (v : Option Value) (cs cs' : Contexts)
      → returned anders c p v cs ≡ ok cs'
      → Grows p cs cs'
  unfolding returned
  returned-Grows c p none cs cs' ran = subst (Grows p cs) (ok_injective ran) (Grows-same p cs)
  returned-Grows c p (some v) cs cs' ran = elim (Bool-cases v.pointer) [
    | inr e ↦ subst (Grows p cs) (ok_injective (not_taken v.pointer _ _ _ e ran)) (Grows-same p cs)
    | inl e ↦
        let (b, e1, ran1) =
          went_on (points_to_pm anders c.pm v) (λ b. if b then told anders c p v cs else ok cs) cs'
            (taken v.pointer _ _ _ e ran) in
        elim (Bool-cases b) [
          | inl t ↦ told-Grows c p v cs cs' (taken b _ _ _ t ran1)
          | inr f ↦ subst (Grows p cs) (ok_injective (not_taken b _ _ _ f ran1)) (Grows-same p cs)
        ]
  ]

  abbrev locals_at : ℕ → Contexts → List Value
  locals_at n cs = PmDesc.locals (FnContext.pm (cs.context n))

  abbrev globals_at : ℕ → Contexts → List Value
  globals_at n cs = PmDesc.globals (FnContext.pm (cs.context n))

  -- What the return to another context `p` does.
  abbrev Returned : ℕ → ℕ → Option Value → Contexts → Contexts → Type 0
  Returned k p v cs cs' =
      (globals_at p cs' ≡ globals_at k cs)
      × ((u : Value) → has u (locals_at p cs) ≡ true → has u (locals_at p cs') ≡ true)
      × (v ≡ none → locals_at p cs' ≡ locals_at p cs)
      × ((x : ℕ) → (x == p) ≡ false → cs'.context x ≡ cs.context x)

  hand_back-Returned :
      (k p : ℕ) (v : Option Value) (cs known : Contexts)
      → (k == p) ≡ false
      → returned anders (cs.context k) p v cs ≡ ok known
      → Returned k p v cs (hand_back p k known)
  unfolding returned
  hand_back-Returned k p v cs known apart ran =
      let (same, more) = returned-Grows (cs.context k) p v cs known ran in
      let old : FnContext = Contexts.context known p in
      let handed : FnContext = record old {
        pm = PmDesc.do_return old.pm (FnContext.pm (Contexts.context known k));
      } in
      let at_p : Contexts.context (hand_back p k known) p ≡ handed =
        change-here p handed (Contexts.context known) in
      (
        ap (λ (c : FnContext). PmDesc.globals c.pm) at_p
            ∙ ap (λ (c : FnContext). PmDesc.globals c.pm) (same k apart),
        λ u h. subst (λ (c : FnContext). has u (PmDesc.locals c.pm) ≡ true) (sym at_p) (more u h),
        λ nothing. ap (λ (c : FnContext). PmDesc.locals c.pm) at_p ∙ nothing_returned v nothing ran,
        λ x h. change-other p x handed (Contexts.context known) h ∙ same x h,
      )
    where
      nothing_returned :
          (v : Option Value)
          → v ≡ none
          → returned anders (cs.context k) p v cs ≡ ok known
          → locals_at p known ≡ locals_at p cs
      nothing_returned none e ran = ap (locals_at p) (sym (ok_injective ran))
      nothing_returned (some w) e ran = ground (arith, e)

  return-Returned :
      (k p : ℕ) (v : Option Value) (cs : Contexts) (r : ℕ × Contexts)
      → FnContext.parent (cs.context k) ≡ some p
      → (k == p) ≡ false
      → return_to_parent anders k v cs ≡ ok r
      → Returned k p v cs r.1
  unfolding return_to_parent
  return-Returned k p v cs r e apart ran =
      let (known, e1, end) =
        went_on (returned anders (cs.context k) p v cs) (λ known. ok (p, hand_back p k known)) r
          (rw (return_to_parent, e) at ran) in
      subst (λ (q : ℕ × Contexts). Returned k p v cs q.1) (ok_injective end)
        (hand_back-Returned k p v cs known apart e1)

  -- A return from a context that a call has made leads back to the context of the call, which keeps
  -- its frame. It has the globals that the called function knew of at its end, and all of its own
  -- locals; where nothing is returned it has no others. No other context that was there has changed.
  pub return-do_call :
      (n cb : ℕ) (cs : Contexts) (d : PmDesc) (v : Option Value) (r : ℕ × Contexts)
      → n < cs.count
      → return_to_parent anders
          (do_call n cb cs).0
          v
          (with_pm (do_call n cb cs).0 d (do_call n cb cs).1)
        ≡ ok r
      → (r.0 ≡ n)
        × (frame_of (Contexts.context r.1 n) ≡ frame_of (cs.context n))
        × (PmDesc.globals (FnContext.pm (Contexts.context r.1 n)) ≡ d.globals)
        × ((u : Value)
            → has u (PmDesc.locals (FnContext.pm (cs.context n))) ≡ true
            → has u (PmDesc.locals (FnContext.pm (Contexts.context r.1 n))) ≡ true)
        × (v ≡ none
            → PmDesc.locals (FnContext.pm (Contexts.context r.1 n))
              ≡ PmDesc.locals (FnContext.pm (cs.context n)))
        × ((x : ℕ) → x < cs.count → ¬ (x ≡ n) → Contexts.context r.1 x ≡ cs.context x)
  return-do_call n cb cs d v r inside ran =
      let k = (do_call n cb cs).0 in
      let now : Contexts = with_pm k d (do_call n cb cs).1 in
      let (at_k, up, known, old) = with_pm-do_call n cb cs d in
      let apart : (k == n) ≡ false = ground (arith, at_k, inside) in
      let (led, (size, frames)) = return-SameFrames anders k v now r ran in
      let (globals, more, nothing, others) = return-Returned k n v now r up apart ran in
      let at_n : Contexts.context now n ≡ cs.context n = old n inside in
      (
        some_injective (sym led ∙ up),
        frames n ∙ ap frame_of at_n,
        globals ∙ ap PmDesc.globals known,
        λ u h. more u (subst (λ (c : FnContext). has u (PmDesc.locals c.pm) ≡ true) (sym at_n) h),
        λ e. nothing e ∙ ap (λ (c : FnContext). PmDesc.locals c.pm) at_n,
        λ x h apart_x. others x (ground (arith, apart_x)) ∙ old x h,
      )
