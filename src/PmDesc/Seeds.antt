-- ===== src/PmDesc/Seeds.antt =====
-- What is known of persistent memory, and what points to it (src/FlowAnalyzer.cpp, `PmDesc`).
use hippocrates.Base.{
  ◌<◌, ◌≡◌, refl, sym, ◌∙◌, subst, inl, inr, ◌↔◌, Bool, true, ◌&&◌, ◌||◌, some, List, [], ◌∷◌, ◌==◌,
  ok, arith, Bool-cases, ok_injective,
}
use hippocrates.Ir.{Value}
use hippocrates.PmDesc.{
  Anders, has, insert, insert_all, count_both, num_pm_aliases, PmDesc, is_global, filtered, or_self,
  points_to_set, add_known_pm_value, points_to_pm,
}

has-addr : (v w : Value) (ws : List Value) → v.addr ≡ w.addr → has v ws ≡ has w ws
unfolding has
has-addr v w [] e = refl
has-addr v w (x ∷ xs) e = ground (arith, has-addr v w xs e)

has-insert : (x v : Value) (ws : List Value) → has x (insert v ws) ≡ (v.addr == x.addr) || has x ws
unfolding insert has
has-insert x v ws = elim (Bool-cases (has v ws)) [
  | inl e ↦ ground (arith, e, has-addr v x ws)
  | inr e ↦ ground (arith, e)
]

pub has-insert_all :
    (x : Value) (vs ws : List Value) → has x (insert_all vs ws) ≡ has x vs || has x ws
unfolding insert_all has
has-insert_all x [] ws = refl
has-insert_all x (v ∷ vs) ws = ground (arith, has-insert_all x vs (insert v ws), has-insert x v ws)

-- A counted value is one of both sets.
counted :
    (pm pts vs : List Value)
    → 0 < count_both pm pts vs
    → (v : Value) × (has v pm ≡ true) × (has v pts ≡ true)
unfolding count_both
counted pm pts [] h = absurd (omega arith)
counted pm pts (v ∷ vs) h = elim (Bool-cases (has v pm && has v pts)) [
  | inl e ↦ (v, ground arith, ground arith)
  | inr e ↦ counted pm pts vs (ground arith)
]

counts :
    (pm pts vs : List Value) (v : Value)
    → has v vs ≡ true
    → has v pm ≡ true
    → has v pts ≡ true
    → 0 < count_both pm pts vs
unfolding count_both has
counts pm pts [] v h p q = ground arith
counts pm pts (w ∷ vs) v h p q = elim (Bool-cases (w.addr == v.addr)) [
  | inl e ↦ ground (arith, has-addr w v pm, has-addr w v pts)
  | inr e ↦ ground (arith, counts pm pts vs v)
]

-- A value of the locals or the globals.
abbrev pub known : PmDesc → Value → Bool
known d v = has v d.locals || has v d.globals

in_pm : (d : PmDesc) (v : Value) → has v (insert_all d.globals (insert_all d.locals [])) ≡ known d v
unfolding has
in_pm d v =
    ground
      (arith, has-insert_all v d.globals (insert_all d.locals []), has-insert_all v d.locals [])

-- The number of the aliases in persistent memory is not zero exactly if a value of the set is known
-- to be persistent.
pub num_pm_aliases-known :
    (d : PmDesc) (pts : List Value)
    → (0 < num_pm_aliases d pts) ↔ ((v : Value) × (known d v ≡ true) × (has v pts ≡ true))
unfolding num_pm_aliases
num_pm_aliases-known d pts =
    let pm = insert_all d.globals (insert_all d.locals []) in
    let both = insert_all pts (insert_all pm []) in
    (
      λ h. let (v, p, q) = counted pm pts both h in (v, ground (arith, in_pm d v), q),
      λ (v, k, q).
          counts pm pts both v (ground (arith, has-insert_all v pts (insert_all pm []), q))
            (ground (arith, in_pm d v)) q,
    )

module _ (anders : Anders) where
  -- The seeds that a value brings.
  abbrev pub seeds : Value → List Value → List Value
  seeds pmv pts = filtered (or_self pmv pts)

  pub add-known :
      (d d' : PmDesc) (pmv v : Value) (pts : List Value)
      → points_to_set anders pmv ≡ some pts
      → add_known_pm_value anders d pmv ≡ ok d'
      → known d' v ≡ known d v || has v (seeds pmv pts)
  unfolding add_known_pm_value
  add-known d d' pmv v pts here ran =
      let s = seeds pmv pts in
      elim (Bool-cases (is_global pmv.sort)) [
        | inl e ↦
            let same = ok_injective (rw (add_known_pm_value, here, e) at ran) in
            subst (λ x. known x v ≡ known d v || has v s) same
              (ground (arith, has-insert_all v s d.globals))
        | inr e ↦
            let same = ok_injective (rw (add_known_pm_value, here, e) at ran) in
            subst (λ x. known x v ≡ known d v || has v s) same
              (ground (arith, has-insert_all v s d.locals))
      ]

  pub points_to_pm-known :
      (d : PmDesc) (u : Value) (us : List Value)
      → points_to_set anders u ≡ some us
      → (points_to_pm anders d u ≡ ok true)
        ↔ ((v : Value) × (known d v ≡ true) × (has v (or_self u us) ≡ true))
  unfolding points_to_pm
  points_to_pm-known d u us here =
      let all = num_pm_aliases-known d (or_self u us) in
      (
        λ h. all.0 (ground (arith, ok_injective (rw (points_to_pm, here) at h))),
        λ w. rw (points_to_pm, here) (ground (arith, all.1 w)),
      )

  -- After a value of persistent memory is made known, a value points to persistent memory exactly if
  -- it may point to something that was known before or that the new value may point to, where stack
  -- slots, functions and constants do not count.
  pub add_known-points_to_pm :
      (d d' : PmDesc) (pmv u : Value) (pts us : List Value)
      → points_to_set anders pmv ≡ some pts
      → points_to_set anders u ≡ some us
      → add_known_pm_value anders d pmv ≡ ok d'
      → (points_to_pm anders d' u ≡ ok true) ↔ (
          (v : Value) × (known d v || has v (seeds pmv pts) ≡ true) × (has v (or_self u us) ≡ true))
  add_known-points_to_pm d d' pmv u pts us here there ran =
      let all = points_to_pm-known d' u us there in
      (
        λ h. let (v, k, p) = all.0 h in (v, sym (add-known d d' pmv v pts here ran) ∙ k, p),
        λ (v, k, p). all.1 (v, add-known d d' pmv v pts here ran ∙ k, p),
      )
