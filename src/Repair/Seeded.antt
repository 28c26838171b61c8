-- ===== src/Repair/Seeded.antt =====
-- What is known of persistent memory when the repair begins (src/BugFixer.cpp, the constructor).
use hippocrates.Base.{
  ◌≡◌, refl, sym, ◌∙◌, ap, subst, ◌⊎◌, inl, inr, ◌↔◌, Bool, true, false, ◌||◌, Option, some, List,
  [], ◌∷◌, ok, arith, Any, Option-cases, ok_injective, some_injective, went_on,
}
use hippocrates.Ir.{Module, Value}
use hippocrates.Raise.{Mapper}
use hippocrates.PmDesc.{
  Anders, PmDesc, has, points_to_set, points_to_pm, add_known_pm_value, or_self,
}
use hippocrates.PmDesc.Seeds.{known, seeds, add-known, points_to_pm-known}
use hippocrates.Trace.{TraceEvent}
use hippocrates.Trace.Values.{pm_values}
use hippocrates.Repair.Setup.{remapped, add_values, add_events, known_at_start}

or_cases : (a b : Bool) → (a || b) ≡ true → (a ≡ true) ⊎ (b ≡ true)
or_cases true b h = inl refl
or_cases false b h = inr h

or_left : (a b : Bool) → a ≡ true → (a || b) ≡ true
or_left a b h = ground (arith, h)

or_right : (a b : Bool) → b ≡ true → (a || b) ≡ true
or_right a b h = ground (arith, h)

module _ (anders : Anders) (aa_map : Option (Value → Option Value)) where
  -- A value of memory that a value of an event may point to, in the module that is analysed.
  abbrev pub SeededBy : Value → Value → Type 0
  SeededBy v pmv =
      (w : Value) × (remapped aa_map pmv ≡ ok w)
      × ((pts : List Value) × (points_to_set anders w ≡ some pts)
          × (has v (seeds anders w pts) ≡ true))

  added :
      (d d' : PmDesc) (w : Value)
      → add_known_pm_value anders d w ≡ ok d'
      → (pts : List Value) × (points_to_set anders w ≡ some pts)
  unfolding add_known_pm_value
  added d d' w ran = elim (Option-cases (points_to_set anders w)) [
    | inl e ↦ ground (arith, rw (add_known_pm_value, e) at ran)
    | inr (pts, e) ↦ (pts, e)
  ]

  add_values-known :
      (vs : List Value) (d d' : PmDesc) (v : Value)
      → add_values anders aa_map d vs ≡ ok d'
      → (known d' v ≡ true) ↔ ((known d v ≡ true) ⊎ Any (SeededBy v) vs)
  unfolding add_values
  add_values-known [] d d' v ran =
      let same : d ≡ d' = ok_injective ran in
      (
        λ h. inl (subst (λ x. known x v ≡ true) (sym same) h),
        λ h. elim h [ inl k ↦ subst (λ x. known x v ≡ true) same k | inr never ↦ absurd never ],
      )
  add_values-known (pmv ∷ vs) d d' v ran =
      let (w, at, ran1) = went_on (remapped aa_map pmv) _ d' ran in
      let (e, one, more) = went_on (add_known_pm_value anders d w) _ d' ran1 in
      let (pts, here) = added d e w one in
      let step = add-known anders d e w v pts here one in
      let rest = add_values-known vs e d' v more in
      (
        λ h. elim (rest.0 h) [
          | inr later ↦ inr (inr later)
          | inl k ↦ elim (or_cases (known d v) (has v (seeds anders w pts)) (sym step ∙ k)) [
            | inl before ↦ inl before
            | inr now ↦ inr (inl (w, at, (pts, here, now)))
          ]
        ],
        λ h. elim h [
          | inl before ↦
              rest.1 (inl (step ∙ or_left (known d v) (has v (seeds anders w pts)) before))
          | inr (inr later) ↦ rest.1 (inr later)
          | inr (inl (x, at_x, (ps, there, now))) ↦
              let same : x ≡ w = ok_injective (sym at_x ∙ at) in
              let same_pts : ps ≡ pts =
                some_injective (sym there ∙ ap (points_to_set anders) same ∙ here) in
              let now' =
                sym (ap (λ q. has v (seeds anders w q)) same_pts)
                ∙ sym (ap (λ q. has v (seeds anders q ps)) same)
                ∙ now in
              rest.1 (inl (step ∙ or_right (known d v) (has v (seeds anders w pts)) now'))
        ],
      )

  module _ (m : Module) (mapper : Mapper) where
    -- An event with a value that may point to a value of memory.
    abbrev pub SeededAt : Value → TraceEvent → Type 0
    SeededAt v te = (vs : List Value) × (pm_values m mapper te ≡ ok vs) × Any (SeededBy v) vs

    add_events-known :
        (tes : List TraceEvent) (d d' : PmDesc) (v : Value)
        → add_events anders aa_map m mapper d tes ≡ ok d'
        → (known d' v ≡ true) ↔ ((known d v ≡ true) ⊎ Any (SeededAt v) tes)
    unfolding add_events
    add_events-known [] d d' v ran =
        let same : d ≡ d' = ok_injective ran in
        (
          λ h. inl (subst (λ x. known x v ≡ true) (sym same) h),
          λ h. elim h [ inl k ↦ subst (λ x. known x v ≡ true) same k | inr never ↦ absurd never ],
        )
    add_events-known (te ∷ tes) d d' v ran =
        let (vs, at, ran1) = went_on (pm_values m mapper te) _ d' ran in
        let (e, one, more) = went_on (add_values anders aa_map d vs) _ d' ran1 in
        let here = add_values-known vs d e v one in
        let rest = add_events-known tes e d' v more in
        (
          λ h. elim (rest.0 h) [
            | inr later ↦ inr (inr later)
            | inl k ↦ elim (here.0 k) [
              | inl before ↦ inl before
              | inr now ↦ inr (inl (vs, at, now))
            ]
          ],
          λ h. elim h [
            | inl before ↦ rest.1 (inl (here.1 (inl before)))
            | inr (inr later) ↦ rest.1 (inr later)
            | inr (inl (ws, at_ws, now)) ↦
                let same : ws ≡ vs = ok_injective (sym at_ws ∙ at) in
                rest.1 (inl (here.1 (inr (subst (Any (SeededBy v)) same now))))
          ],
        )

    -- When the repair begins, a value points to persistent memory exactly if it may point to something
    -- that a value of some event of the trace may point to, by the analysis and in the module that it
    -- is run on, where stack slots, functions and constants do not count.
    pub known_at_start-points_to_pm :
        (tes : List TraceEvent) (d : PmDesc) (u : Value) (us : List Value)
        → known_at_start anders aa_map m mapper tes ≡ ok d
        → points_to_set anders u ≡ some us
        → (points_to_pm anders d u ≡ ok true)
          ↔ ((v : Value) × Any (SeededAt v) tes × (has v (or_self u us) ≡ true))
    unfolding known_at_start has
    known_at_start-points_to_pm tes d u us ran there =
        let all = points_to_pm-known anders d u us there in
        (
          λ h.
              let (v, k, p) = all.0 h in
              elim ((add_events-known tes _ d v ran).0 k) [
                | inl before ↦ absurd (ground (arith, before))
                | inr now ↦ (v, now, p)
              ],
          λ (v, now, p). all.1 (v, (add_events-known tes _ d v ran).1 (inr now), p),
        )
