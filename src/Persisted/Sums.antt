-- ===== src/Persisted/Sums.antt =====
-- Summing up stores loses no byte and makes none up (src/BugFixer.cpp, `handleAssertPersisted`, the
-- loop over `unadded`).
use hippocrates.Base.{
  ℕ, zero, suc, ◌+◌, ◌≤◌, ◌≡◌, refl, ◌⊎◌, inl, inr, ◌↔◌, true, false, Option, none, some, List, [],
  ◌∷◌, ◌++◌, length, length-append, ok, arith, All, Any, Outcome-cases,
}
use hippocrates.Address.{AddressInfo, can_add, add, no_address}
use hippocrates.Address.Ranges.{IsRange, Covers, add-Covers, add-can_add}
use hippocrates.Persisted.Accumulate.{keep, absorb, absorb_all, accumulate}

-- Some range of the list has the byte.
abbrev pub InSome : List AddressInfo → ℕ → Type 0
InSome us x = Any (λ a. Covers a x) us

can_add-cases :
    (a b : AddressInfo)
    → IsRange a
    → IsRange b
    → ((c : AddressInfo) × (can_add a b ≡ ok true) × (add a b ≡ ok c)) ⊎ (can_add a b ≡ ok false)
can_add-cases a b r s = elim (Outcome-cases (can_add a b)) [
  | inl bad ↦ absurd (unfold can_add in ground arith)
  | inr (true, e) ↦ elim (Outcome-cases (add a b)) [
    | inl bad ↦ absurd (ground (arith, add-can_add a b))
    | inr (c, f) ↦ inl (c, e, f)
  ]
  | inr (false, e) ↦ inr e
]

abbrev pub Settled : AddressInfo → List AddressInfo → Type 0
Settled info us = All (λ u. can_add info u ≡ ok false) us

-- The same bytes, spread over a range and a list in another way.
record Moves (info : AddressInfo) (us : List AddressInfo) (info' : AddressInfo)
    (us' : List AddressInfo) : Type 0 where
  range : IsRange info'
  ranges : All IsRange us'
  same : (x : ℕ) → (Covers info' x ⊎ InSome us' x) ↔ (Covers info x ⊎ InSome us x)

abbrev Absorbs : AddressInfo → List AddressInfo → Option (AddressInfo × List AddressInfo) → Type 0
Absorbs info us none = Settled info us
Absorbs info us (some (info', us')) = Moves info us info' us' × (length us ≡ suc (length us'))

Absorbs-keep :
    (info u : AddressInfo) (us : List AddressInfo) (r : Option (AddressInfo × List AddressInfo))
    → IsRange u
    → can_add info u ≡ ok false
    → Absorbs info us r
    → Absorbs info (u ∷ us) (keep u r)
unfolding keep
Absorbs-keep info u us none r e a = (e, a)
Absorbs-keep info u us (some (info', us')) r e (v, n) = (
  record { range = v.range; ranges = (r, v.ranges); same = λ x. ground (arith, v.same x) },
  omega arith,
)

absorb-Absorbs :
    (info : AddressInfo) (us : List AddressInfo)
    → IsRange info
    → All IsRange us
    → (r : Option (AddressInfo × List AddressInfo)) × (absorb info us ≡ ok r) × Absorbs info us r
unfolding absorb
absorb-Absorbs info [] r a = (none, refl, tt)
absorb-Absorbs info (u ∷ us) r a = elim (can_add-cases info u r a.0) [
  | inl (c, e, f) ↦
      let (range, bytes) = add-Covers info u c r a.0 f in
      (
        some (c, us),
        rw (e, f) refl,
        (record { range = range; ranges = a.1; same = λ x. ground (arith, bytes x) }, refl),
      )
  | inr e ↦
      let (rest, ran, h) = absorb-Absorbs info us r a.1 in
      (keep u rest, rw (e, ran) refl, Absorbs-keep info u us rest a.0 e h)
]

-- Where the loop ends: nothing is left that could be added.
record Ends (info : AddressInfo) (us : List AddressInfo) (info' : AddressInfo)
    (us' : List AddressInfo) : Type 0 where
  moves : Moves info us info' us'
  settled : Settled info' us'

Moves-trans :
    {i j k : AddressInfo} {us vs ws : List AddressInfo}
    → Moves i us j vs
    → Moves j vs k ws
    → Moves i us k ws
Moves-trans p q = record {
  range = q.range;
  ranges = q.ranges;
  same = λ x. ((λ h. (p.same x).0 ((q.same x).0 h)), (λ h. (q.same x).1 ((p.same x).1 h)));
}

Moves-refl :
    (info : AddressInfo) (us : List AddressInfo)
    → IsRange info
    → All IsRange us
    → Moves info us info us
Moves-refl info us r a = record { range = r; ranges = a; same = λ x. (λ h. h, λ h. h) }

abbrev Loops : ℕ → AddressInfo → List AddressInfo → Type 0
Loops n info us =
    (r : AddressInfo × List AddressInfo) × (absorb_all n info us ≡ ok r) × Ends info us r.0 r.1

-- One round of the loop, or its end.
round :
    (n : ℕ) (info : AddressInfo) (us : List AddressInfo)
    (step : Option (AddressInfo × List AddressInfo))
    → ((info' : AddressInfo) (us' : List AddressInfo)
        → length us' ≤ n
        → IsRange info'
        → All IsRange us'
        → Loops n info' us')
    → length us ≤ suc n
    → IsRange info
    → All IsRange us
    → absorb info us ≡ ok step
    → Absorbs info us step
    → Loops (suc n) info us
unfolding absorb_all
round n info us none ih h r a e s =
    ((info, us), rw (e, absorb_all) refl, record { moves = Moves-refl info us r a; settled = s })
round n info us (some (info', us')) ih h r a e (v, shorter) =
    let (end, ran, ends) = ih info' us' (omega arith) v.range v.ranges in
    (
      end,
      rw (e, absorb_all) ran,
      record { moves = Moves-trans v ends.moves; settled = ends.settled },
    )

-- The loop ends within as many rounds as the list is long.
absorb_loop_ends :
    (n : ℕ) (info : AddressInfo) (us : List AddressInfo)
    → length us ≤ n
    → IsRange info
    → All IsRange us
    → Loops n info us
absorb_loop_ends zero info [] h r a = (
  (info, []),
  (unfold absorb_all in refl),
  record { moves = Moves-refl info [] r a; settled = tt },
)
absorb_loop_ends zero info (u ∷ us) h r a = absurd (omega arith)
absorb_loop_ends (suc n) info us h r a =
    let (step, ran, does) = absorb-Absorbs info us r a in
    round n info us step (absorb_loop_ends n) h r a ran does

-- What the sum and the ranges kept for later say of the stores seen: together they have the bytes
-- of the stores, and none of those kept could be added.
pub record Sums (seen : List AddressInfo) (info : AddressInfo) (us : List AddressInfo)
    : Type 0 where
  pub range : IsRange info
  pub ranges : All IsRange us
  pub settled : Settled info us
  pub same : (x : ℕ) → (Covers info x ⊎ InSome us x) ↔ InSome seen x

All-concat :
    (us : List AddressInfo) (a : AddressInfo)
    → All IsRange us
    → IsRange a
    → All IsRange (us ++ (a ∷ []))
All-concat [] a h r = (r, tt)
All-concat (u ∷ us) a h r = (h.0, All-concat us a h.1 r)

InSome-concat :
    (us : List AddressInfo) (a : AddressInfo) (x : ℕ)
    → InSome (us ++ (a ∷ [])) x ↔ (InSome us x ⊎ Covers a x)
InSome-concat [] a x = ground arith
InSome-concat (u ∷ us) a x = ground (arith, InSome-concat us a x)

-- The first store starts the sum.
pub accumulate-first :
    (a : AddressInfo) → IsRange a → (accumulate no_address [] a ≡ ok (a, [])) × Sums (a ∷ []) a []
unfolding accumulate
accumulate-first a r =
    (refl, record { range = r; ranges = tt; settled = tt; same = λ x. ground arith })

Ends-Sums :
    {seen : List AddressInfo} {info : AddressInfo} {us : List AddressInfo} {info' : AddressInfo}
    {us' : List AddressInfo}
    → Ends info us info' us'
    → ((x : ℕ) → (Covers info x ⊎ InSome us x) ↔ InSome seen x)
    → Sums seen info' us'
Ends-Sums e h = record {
  range = e.moves.range;
  ranges = e.moves.ranges;
  settled = e.settled;
  same = λ x. (λ c. (h x).0 ((e.moves.same x).0 c), λ c. (e.moves.same x).1 ((h x).1 c));
}

-- Each further store is added, or kept: no byte is lost or made up, and all that can be added is.
pub accumulate-Sums :
    (seen : List AddressInfo) (info : AddressInfo) (us : List AddressInfo) (a : AddressInfo)
    → Sums seen info us
    → IsRange a
    → (r : AddressInfo × List AddressInfo) × (accumulate info us a ≡ ok r)
      × Sums (seen ++ (a ∷ [])) r.0 r.1
unfolding accumulate
accumulate-Sums seen info us a s r = elim (can_add-cases info a s.range r) [
  | inl (c, e, f) ↦
      let (range, bytes) = add-Covers info a c s.range r f in
      let (end, ran, ends) = absorb_loop_ends (length us) c us (omega arith) range s.ranges in
      (
        end,
        rw (e, f) ran,
        Ends-Sums ends λ x. ground (arith, bytes x, s.same x, InSome-concat seen a x),
      )
  | inr e ↦
      let (end, ran, ends) =
        absorb_loop_ends (length us + 1) info (us ++ (a ∷ []))
          (omega (arith, length-append us (a ∷ []))) s.range (All-concat us a s.ranges r) in
      (
        end,
        rw e ran,
        Ends-Sums ends λ x. ground (arith, s.same x, InSome-concat seen a x, InSome-concat us a x),
      )
]
