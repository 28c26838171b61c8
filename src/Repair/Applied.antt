-- ===== src/Repair/Applied.antt =====
-- What the fixes of the map leave in the program (src/BugFixer.cpp, `BugFixer::fixBug` and
-- `BugFixer::doRepair`).
use hippocrates.Base.{
  ℕ, ◌≡◌, refl, ap, subst, Bool, true, false, ◌||◌, Option, none, some, List, [], ◌∷◌, Outcome, ok,
  aborted, ◌>>=◌, arith, All, ok_injective, went_on,
}
use hippocrates.Location.{LocationInfo, no_location}
use hippocrates.FixLoc.{FixLoc}
use hippocrates.Fix.{
  FixType, FixDesc, no_fix, add_flush_only, add_fence_only, add_flush_and_fence,
  add_persist_callstack_opt_nofence, add_persist_callstack_opt, remove_flush_only,
  remove_flush_conditional,
}
use hippocrates.Fix.Map.{FixMap}
use hippocrates.Repair.{FixGenerator, non_null, report, fix_bug, apply_fixes}

-- What a generator promises of the program that it changes. `Valid` is what it asks of a program and
-- `Known` what it asks of the location of a fix; `Grows` is that a program has all that another one has.
pub record Promises {S : Type 0} (fixer : FixGenerator S) : Type 1 where
  pub Valid : S → Type 0
  pub Known : FixLoc → S → Type 0
  pub Flushed : FixLoc → S → Type 0
  pub Fenced : FixLoc → S → Type 0
  pub Grows : S → S → Type 0
  pub grown : (s t : S) → Grows s t → Valid t
  pub known_stays : (fl : FixLoc) (s t : S) → Grows s t → Known fl s → Known fl t
  pub flushed_stays : (fl : FixLoc) (s t : S) → Grows s t → Flushed fl s → Flushed fl t
  pub fenced_stays : (fl : FixLoc) (s t : S) → Grows s t → Fenced fl s → Fenced fl t
  pub stays : (s : S) → Valid s → Grows s s
  pub further : (s t u : S) → Grows s t → Grows t u → Grows s u
  pub flush_lem :
      (fl : FixLoc) (s t : S) (r : Option ℕ)
      → Valid s
      → Known fl s
      → fixer.insert_flush fl s ≡ ok (r, t)
      → Grows s t × ((n : ℕ) → r ≡ some n → Flushed fl t)
  pub fence_lem :
      (fl : FixLoc) (s t : S) (r : Option ℕ)
      → Valid s
      → fixer.insert_fence fl s ≡ ok (r, t)
      → Grows s t × ((n : ℕ) → r ≡ some n → Fenced fl t)
  -- A fence behind the flush of a location is a fence of that location.
  pub pair_lem :
      (fl : FixLoc) (s t u : S) (n k : ℕ)
      → Valid s
      → Known fl s
      → fixer.insert_flush fl s ≡ ok (some n, t)
      → fixer.insert_fence (record { first = n; last = n; dbg_loc = no_location }) t
        ≡ ok (some k, u)
      → Fenced fl u
  pub sub_program_lem :
      (fl : FixLoc) (stack : List LocationInfo) (i : ℕ) (b c : Bool) (s t : S) (r : Option ℕ)
      → Valid s
      → fixer.insert_persistent_sub_program fl stack i b c s ≡ ok (r, t)
      → Grows s t

module _ {S : Type 0} (fixer : FixGenerator S) (p : Promises fixer) where
  -- The low-level effects of a fix.
  abbrev pub Done : FixLoc → FixType → S → Type 0
  Done fl add_flush_only s = p.Flushed fl s
  Done fl add_fence_only s = p.Fenced fl s
  Done fl add_flush_and_fence s = p.Flushed fl s × p.Fenced fl s
  Done fl _ s = Unit

  -- Where a flush or a fence is to be added, the location is one that the generator knows.
  abbrev pub Placed : FixLoc → FixType → S → Type 0
  Placed fl add_flush_only s = p.Known fl s
  Placed fl add_fence_only s = p.Known fl s
  Placed fl add_flush_and_fence s = p.Known fl s
  Placed fl _ s = Unit

  Placed-stays : (fl : FixLoc) (t : FixType) (s u : S) → p.Grows s u → Placed fl t s → Placed fl t u
  Placed-stays fl no_fix s u g d = tt
  Placed-stays fl add_flush_only s u g d = p.known_stays fl s u g d
  Placed-stays fl add_fence_only s u g d = p.known_stays fl s u g d
  Placed-stays fl add_flush_and_fence s u g d = p.known_stays fl s u g d
  Placed-stays fl add_persist_callstack_opt_nofence s u g d = tt
  Placed-stays fl add_persist_callstack_opt s u g d = tt
  Placed-stays fl remove_flush_only s u g d = tt
  Placed-stays fl remove_flush_conditional s u g d = tt

  Done-stays : (fl : FixLoc) (t : FixType) (s u : S) → p.Grows s u → Done fl t s → Done fl t u
  Done-stays fl no_fix s u g d = tt
  Done-stays fl add_flush_only s u g d = p.flushed_stays fl s u g d
  Done-stays fl add_fence_only s u g d = p.fenced_stays fl s u g d
  Done-stays fl add_flush_and_fence s u g d =
      (p.flushed_stays fl s u g d.0, p.fenced_stays fl s u g d.1)
  Done-stays fl add_persist_callstack_opt_nofence s u g d = tt
  Done-stays fl add_persist_callstack_opt s u g d = tt
  Done-stays fl remove_flush_only s u g d = tt
  Done-stays fl remove_flush_conditional s u g d = tt

  -- An insertion that does not stop at the assertion.
  inserted :
      (o : Outcome (Option ℕ × S)) (q : ℕ × S) → (o >>= non_null) ≡ ok q → o ≡ ok (some q.0, q.1)
  inserted (ok (none, s)) q h = ground (arith, h)
  inserted (ok (some n, s)) q h = ap (λ r. ok (some r.0, r.1)) (ok_injective h)
  inserted aborted q h = ground (arith, h)

  reported :
      (o : Outcome (Option ℕ × S)) (b : Bool) (t : S)
      → (o >>= report) ≡ ok (b, t)
      → (r : Option ℕ) × (o ≡ ok (r, t))
  reported (ok (none, s)) b t h = (none, ap (λ r. ok (none, r.1)) (ok_injective h))
  reported (ok (some n, s)) b t h = (some n, ap (λ r. ok (some n, r.1)) (ok_injective h))
  reported aborted b t h = ground (arith, h)

  fix_bug-Done :
      (type : FixType) (fl : FixLoc) (desc : FixDesc) (s t : S) (b : Bool)
      → desc.type ≡ type
      → p.Valid s
      → Placed fl type s
      → fix_bug fixer fl desc s ≡ ok (b, t)
      → p.Grows s t × Done fl type t
  unfolding fix_bug
  fix_bug-Done no_fix fl desc s t b e valid known ran = ground (arith, rw (fix_bug, e) at ran)
  fix_bug-Done add_flush_only fl desc s t b e valid known ran =
      let (q, done, end) =
        went_on (fixer.insert_flush fl s >>= non_null) (λ r. ok (true, r.1)) (b, t)
          (rw (fix_bug, e) at ran) in
      let (g, f) = p.flush_lem fl s q.1 (some q.0) valid known (inserted _ q done) in
      let same : q.1 ≡ t = ap (λ r. r.1) (ok_injective end) in
      subst (λ u. p.Grows s u × p.Flushed fl u) same (g, f q.0 refl)
  fix_bug-Done add_fence_only fl desc s t b e valid known ran =
      let (q, done, end) =
        went_on (fixer.insert_fence fl s >>= non_null) (λ r. ok (true, r.1)) (b, t)
          (rw (fix_bug, e) at ran) in
      let (g, f) = p.fence_lem fl s q.1 (some q.0) valid (inserted _ q done) in
      let same : q.1 ≡ t = ap (λ r. r.1) (ok_injective end) in
      subst (λ u. p.Grows s u × p.Fenced fl u) same (g, f q.0 refl)
  fix_bug-Done add_flush_and_fence fl desc s t b e valid known ran =
      let (q, done, more) =
        went_on (fixer.insert_flush fl s >>= non_null)
          (λ r.
            fixer.insert_fence (record { first = r.0; last = r.0; dbg_loc = no_location }) r.1
            >>= non_null
            >>= λ q. ok (true, q.1))
          (b, t) (rw (fix_bug, e) at ran) in
      let at_flush : FixLoc = record { first = q.0; last = q.0; dbg_loc = no_location } in
      let (k, done', end) =
        went_on (fixer.insert_fence at_flush q.1 >>= non_null) (λ r. ok (true, r.1)) (b, t) more in
      let flush = inserted _ q done in
      let fence = inserted _ k done' in
      let (g, f) = p.flush_lem fl s q.1 (some q.0) valid known flush in
      let (g', f') = p.fence_lem at_flush q.1 k.1 (some k.0) (p.grown s q.1 g) fence in
      let same : k.1 ≡ t = ap (λ r. r.1) (ok_injective end) in
      subst (λ u. p.Grows s u × (p.Flushed fl u × p.Fenced fl u)) same
        (
          p.further s q.1 k.1 g g',
          (
            p.flushed_stays fl q.1 k.1 g' (f q.0 refl),
            p.pair_lem fl s q.1 k.1 q.0 k.0 valid known flush fence,
          ),
        )
  fix_bug-Done add_persist_callstack_opt_nofence fl desc s t b e valid known ran =
      let (r, done) = reported _ b t (rw (fix_bug, e) at ran) in
      (p.sub_program_lem fl desc.dyn_stack desc.stack_idx true false s t r valid done, tt)
  fix_bug-Done add_persist_callstack_opt fl desc s t b e valid known ran =
      let (r, done) = reported _ b t (rw (fix_bug, e) at ran) in
      (p.sub_program_lem fl desc.dyn_stack desc.stack_idx true true s t r valid done, tt)
  fix_bug-Done remove_flush_only fl desc s t b e valid known ran = (
    subst (λ u. p.Grows s u) (ap (λ r. r.1) (ok_injective (rw (fix_bug, e) at ran)))
        (p.stays s valid),
    tt,
  )
  fix_bug-Done remove_flush_conditional fl desc s t b e valid known ran = (
    subst (λ u. p.Grows s u) (ap (λ r. r.1) (ok_injective (rw (fix_bug, e) at ran)))
        (p.stays s valid),
    tt,
  )

  Placed-All :
      (fixes : FixMap) (s t : S)
      → p.Grows s t
      → All (λ e. Placed e.0 (FixDesc.type e.1) s) fixes
      → All (λ e. Placed e.0 (FixDesc.type e.1) t) fixes
  Placed-All [] s t g h = tt
  Placed-All ((fl, desc) ∷ fixes) s t g h =
      (Placed-stays fl desc.type s t g h.0, Placed-All fixes s t g h.1)

  -- The fixes of the map that add a flush, a fence or both are in the program that is left. Of the
  -- other fixes only this is said: they keep what the program has.
  pub apply_fixes-Done :
      (fixes : FixMap) (modified b : Bool) (s t : S)
      → p.Valid s
      → All (λ e. Placed e.0 (FixDesc.type e.1) s) fixes
      → apply_fixes fixer fixes modified s ≡ ok (b, t)
      → p.Grows s t × All (λ e. Done e.0 (FixDesc.type e.1) t) fixes
  unfolding apply_fixes
  apply_fixes-Done [] modified b s t valid known ran =
      (subst (λ u. p.Grows s u) (ap (λ r. r.1) (ok_injective ran)) (p.stays s valid), tt)
  apply_fixes-Done ((fl, desc) ∷ fixes) modified b s t valid known ran =
      let (r, one, more) =
        went_on (fix_bug fixer fl desc s) (λ r. apply_fixes fixer fixes (modified || r.0) r.1)
          (b, t) ran in
      let (g, done) = fix_bug-Done desc.type fl desc s r.1 r.0 refl valid known.0 one in
      let (g', all) =
        apply_fixes-Done fixes (modified || r.0) b r.1 t (p.grown s r.1 g)
          (Placed-All fixes s r.1 g known.1) more in
      (p.further s r.1 t g g', (Done-stays fl desc.type r.1 t g' done, all))
