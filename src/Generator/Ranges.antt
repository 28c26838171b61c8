-- ===== src/Generator/Ranges.antt =====
-- src/FixGenerator.cpp: all flushes that `GenericFixGenerator::insertFlush` adds for a location, and
-- the fence of `insertFence`.
use hippocrates.Base.{
  some_injective, ℕ, ◌+◌, ◌≡◌, refl, sym, ◌∙◌, ap, subst, ◌⊎◌, inl, inr, Option, some, List, [],
  ◌∷◌, ok, arith, Option-cases, Outcome-cases, ok_injective, text_eq,
}
use hippocrates.Ir.{Module, Inst, Value}
use hippocrates.Generator.{
  Program, put, builder_at, written, insert_flush_at, insert_flushes, insert_fence, new_inst,
}
use hippocrates.Generator.Behind.{Member, Behind}
use hippocrates.Generator.Present.{builder_at-Present}
use hippocrates.Generator.Insert.{
  lasting, is_reserved, reserved_name, Valid, Grows, Grows-refl, Grows-trans,
}
use hippocrates.Generator.Calls.{put-Grows, put-Behind}
use hippocrates.Generator.Flushes.{
  sfence_call, FlushBehind, FlushBehind-Grows, insert_flush_at-FlushBehind, one-IsNew,
}
use hippocrates.FixLoc.{FixLoc}

-- The stores of a list that are flushed, and where the last flush comes from.
abbrev pub AllFlushed : List Inst → Module → Type 0
AllFlushed is m =
    (i : Inst) (v : Value) → Member i is → written i.op ≡ some v → (n : ℕ) × FlushBehind v i.id n m

abbrev pub FlushIn : List Inst → ℕ → Module → Type 0
FlushIn is n m =
    (i : Inst) × Member i is × ((v : Value) × (written i.op ≡ some v) × FlushBehind v i.id n m)

abbrev pub Result : List Inst → Option ℕ → Option ℕ → Program → Program → Type 0
Result is last r s t =
    Grows s t × AllFlushed is t.m × ((n : ℕ) → r ≡ some n → (last ≡ some n) ⊎ FlushIn is n t.m)

cons-FlushIn :
    (i : Inst) (is : List Inst) (n : ℕ) (m : Module) → FlushIn is n m → FlushIn (i ∷ is) n m
cons-FlushIn i is n m (j, h, w) = (j, inr h, w)

cons-AllFlushed :
    (i : Inst) (is : List Inst) (m : Module)
    → ((v : Value) → written i.op ≡ some v → (n : ℕ) × FlushBehind v i.id n m)
    → AllFlushed is m
    → AllFlushed (i ∷ is) m
cons-AllFlushed i is m here there j v (inl e) w =
    subst (λ k. written (Inst.op k) ≡ some v → (n : ℕ) × FlushBehind v (Inst.id k) n m) e (here v) w
cons-AllFlushed i is m here there j v (inr h) w = there j v h w

pub insert_flushes-Result :
    (is : List Inst) (last r : Option ℕ) (s t : Program)
    → Valid s
    → insert_flushes is last s ≡ ok (r, t)
    → Result is last r s t
unfolding insert_flushes
insert_flushes-Result [] last r s t valid ran =
    let same : (last, s) ≡ (r, t) = ok_injective ran in
    subst (λ (q : Option ℕ × Program). Result [] last q.0 s q.1) same
      (Grows-refl s valid, λ i v h. absurd h, λ n e. inl e)
insert_flushes-Result (i ∷ is) last r s t valid ran = elim (Option-cases (written i.op)) [
  | inl e ↦
      let (g, all, from) =
        insert_flushes-Result is last r s t valid (rw (insert_flushes, e) at ran) in
      (
        g,
        cons-AllFlushed i is t.m (λ v w. ground (arith, e, w)) all,
        λ n h. elim (from n h) [ inl o ↦ inl o | inr o ↦ inr (cons-FlushIn i is n t.m o) ],
      )
  | inr (v, e) ↦ elim (Outcome-cases (insert_flush_at i.id v s)) [
    | inl stop ↦ ground (arith, rw (insert_flushes, e, stop) at ran)
    | inr ((k, u), done) ↦
        let (g, here) = insert_flush_at-FlushBehind i.id v s u k valid done in
        let (g', all, from) =
          insert_flushes-Result is (some k) r u t g.valid (rw (insert_flushes, e, done) at ran) in
        let here' = FlushBehind-Grows v i.id k u t g' here in
        (
          Grows-trans s u t g g',
          cons-AllFlushed i is t.m
              (λ w h.
                subst (λ x. (n : ℕ) × FlushBehind x i.id n t.m) (some_injective (sym e ∙ h))
                  (k, here'))
              all,
          λ n h. elim (from n h) [
            | inl o ↦ inr (
              i,
              inl refl,
              (v, e, subst (λ j. FlushBehind v i.id j t.m) (some_injective o) here'),
            )
            | inr o ↦ inr (cons-FlushIn i is n t.m o)
          ],
        )
  ]
]

-- The fence behind a place, with its address.
abbrev pub FenceBehind : ℕ → Module → Type 0
FenceBehind p m = (c : Inst) × Behind p c m × (c.op ≡ sfence_call)

pub FenceBehind-Grows : (p : ℕ) (s t : Program) → Grows s t → FenceBehind p s.m → FenceBehind p t.m
unfolding is_reserved reserved_name text_eq
FenceBehind-Grows p s t g (c, h, e) =
    let (d, there, same, ids) = g.kept p c (ap lasting e ∙ refl) h in (d, there, same ∙ e)

pub insert_fence-FenceBehind :
    (fl : FixLoc) (s t : Program) (r : Option ℕ)
    → Valid s
    → insert_fence fl s ≡ ok (r, t)
    → Grows s t × FenceBehind fl.last t.m
unfolding insert_fence
insert_fence-FenceBehind fl s t r valid ran = elim (Outcome-cases (builder_at s.m fl.last)) [
  | inl e ↦ ground (arith, rw (insert_fence, e) at ran)
  | inr (dbg, e) ↦
      let i = new_inst s.next sfence_call dbg in
      let u : Program = record { m = put fl.last (i ∷ []) s.m; next = s.next + 1 } in
      let new = one-IsNew s i (s.next + 1) (omega arith) (omega arith) in
      let same : (some s.next, u) ≡ (r, t) = ok_injective (rw (insert_fence, e) at ran) in
      let there = builder_at-Present s.m fl.last dbg e in
      subst (λ (q : Option ℕ × Program). Grows s q.1 × FenceBehind fl.last (Program.m q.1)) same
        (
          put-Grows s fl.last (i ∷ []) (s.next + 1) valid new,
          (i, put-Behind fl.last (i ∷ []) s.m i there (inl refl), refl),
        )
]
