-- ===== src/Generator/Flushes.antt =====
-- src/FixGenerator.cpp: what `GenericFixGenerator::insertFlush` and `insertFence` leave behind a store.
use hippocrates.Base.{
  ℕ, ◌+◌, ◌<◌, ◌≤◌, ◌≡◌, refl, sym, ◌∙◌, ap, subst, ◌⊎◌, inl, inr, true, [], ◌∷◌, text_eq, ok,
  arith, Bool-cases, Outcome-cases, ok_injective,
}
use hippocrates.Ir.{Module, Inst, Op, Value, call, direct, cast}
use hippocrates.Generator.{
  Program, Debug, put, builder_at, flush_insts, insert_flush_at, clwb_function, sfence_function,
  new_inst, byte_pointer,
}
use hippocrates.Generator.Behind.{Member, Behind}
use hippocrates.Generator.Present.{builder_at-Present}
use hippocrates.Generator.Insert.{lasting, is_reserved, reserved_name, Valid, Grows}
use hippocrates.Generator.Calls.{IsNew, put-Grows, put-Behind}

abbrev pub clwb_of : Value → Op
clwb_of v = call (direct clwb_function) (v ∷ [])

abbrev pub sfence_call : Op
sfence_call = call (direct sfence_function) []

-- A flush of a pointer: of itself, or of a cast of it that stands behind the same place.
abbrev pub FlushOf : Value → ℕ → Op → Module → Type 0
FlushOf v p op m =
    (op ≡ clwb_of v)
    ⊎ ((k : Inst) × Behind p k m × (k.op ≡ cast v) × (op ≡ clwb_of (byte_pointer k.id)))

-- The flush with an address, behind a place.
abbrev pub FlushBehind : Value → ℕ → ℕ → Module → Type 0
FlushBehind v p n m = (c : Inst) × Behind p c m × (c.id ≡ n) × FlushOf v p c.op m

clwb-lasting : (v : Value) (op : Op) → op ≡ clwb_of v → lasting op ≡ true
unfolding is_reserved reserved_name text_eq
clwb-lasting v op e = ap lasting e ∙ refl

FlushOf-lasting : (v : Value) (p : ℕ) (op : Op) (m : Module) → FlushOf v p op m → lasting op ≡ true
FlushOf-lasting v p op m (inl e) = clwb-lasting v op e
FlushOf-lasting v p op m (inr (k, h, c, e)) = clwb-lasting (byte_pointer k.id) op e

FlushOf-Grows :
    (v : Value) (p : ℕ) (op : Op) (s t : Program)
    → Grows s t
    → FlushOf v p op s.m
    → FlushOf v p op t.m
FlushOf-Grows v p op s t g (inl e) = inl e
FlushOf-Grows v p op s t g (inr (k, h, c, e)) =
    let (l, there, same, ids) = g.kept p k (ap lasting c) h in
    inr (l, there, same ∙ c, e ∙ ap (λ n. clwb_of (byte_pointer n)) (sym ids))

pub FlushBehind-Grows :
    (v : Value) (p n : ℕ) (s t : Program)
    → Grows s t
    → FlushBehind v p n s.m
    → FlushBehind v p n t.m
FlushBehind-Grows v p n s t g (c, h, e, f) =
    let (d, there, same, ids) = g.kept p c (FlushOf-lasting v p c.op s.m f) h in
    (d, there, ids ∙ e, subst (λ o. FlushOf v p o t.m) (sym same) (FlushOf-Grows v p c.op s t g f))

-- Lists of one new instruction and of two.
one-Member : (P : Inst → Type 0) (i y : Inst) → P i → Member y (i ∷ []) → P y
one-Member P i y p (inl e) = subst P e p
one-Member P i y p (inr h) = absurd h

two-Member : (P : Inst → Type 0) (i j y : Inst) → P i → P j → Member y (i ∷ j ∷ []) → P y
two-Member P i j y p q (inl e) = subst P e p
two-Member P i j y p q (inr h) = one-Member P j y q h

pub one-IsNew :
    (s : Program) (i : Inst) (next : ℕ) → s.next ≤ i.id → i.id < next → IsNew s (i ∷ []) next
one-IsNew s i next low high = record {
  above = omega (arith, low, high);
  fresh = λ y h. one-Member (λ z. (s.next ≤ z.id) × (z.id < next)) i y (low, high) h;
  fresh_op =
      λ y z h k e. one-Member (λ a. a.op ≡ z.op) i y (one-Member (λ b. i.op ≡ b.op) i z refl k) h;
}

pub two-IsNew :
    (s : Program) (i j : Inst) (next : ℕ)
    → s.next ≤ j.id
    → j.id < i.id
    → i.id < next
    → IsNew s (i ∷ j ∷ []) next
two-IsNew s i j next low apart high = record {
  above = omega (arith, low, apart, high);
  fresh = λ y h.
      two-Member (λ z. (s.next ≤ z.id) × (z.id < next)) i j y
        (omega (arith, low, apart, high), high) (low, omega (arith, apart, high)) h;
  fresh_op = λ y z h k.
      two-Member (λ a. a.id ≡ z.id → a.op ≡ z.op) i j y
        (two-Member (λ b. i.id ≡ b.id → i.op ≡ b.op) i j z (λ e. refl)
          (λ e. absurd (omega (arith, apart, e))) k)
        (two-Member (λ b. j.id ≡ b.id → j.op ≡ b.op) i j z (λ e. absurd (omega (arith, apart, e)))
          (λ e. refl) k)
        h;
}

pub flush_insts-IsNew :
    (s : Program) (v : Value) (dbg : Debug) → IsNew s (flush_insts v s.next dbg) (s.next + 2)
flush_insts-IsNew s v dbg = elim (Bool-cases v.bytes) [
  | inl e ↦ rw (e) (one-IsNew s _ (s.next + 2) (omega arith) (omega arith))
  | inr e ↦ rw (e) (two-IsNew s _ _ (s.next + 2) (omega arith) (omega arith) (omega arith))
]

flush_insts-FlushBehind :
    (v : Value) (p n : ℕ) (dbg : Debug) (m : Module)
    → ((y : Inst) → Member y (flush_insts v n dbg) → Behind p y m)
    → FlushBehind v p n m
flush_insts-FlushBehind v p n dbg m put_there = elim (Bool-cases v.bytes) [
  | inl e ↦ (_, put_there (new_inst n (clwb_of v) dbg) (rw (e) (inl refl)), refl, inl refl)
  | inr e ↦ (
    _,
    put_there (new_inst n (clwb_of (byte_pointer (n + 1))) dbg) (rw (e) (inr (inl refl))),
    refl,
    inr (
      new_inst (n + 1) (cast v) dbg,
      put_there (new_inst (n + 1) (cast v) dbg) (rw (e) (inl refl)),
      refl,
      refl,
    ),
  )
]

pub insert_flush_at-FlushBehind :
    (p : ℕ) (v : Value) (s t : Program) (n : ℕ)
    → Valid s
    → insert_flush_at p v s ≡ ok (n, t)
    → Grows s t × FlushBehind v p n t.m
unfolding insert_flush_at
insert_flush_at-FlushBehind p v s t n valid ran = elim (Outcome-cases (builder_at s.m p)) [
  | inl e ↦ ground (arith, rw (insert_flush_at, e) at ran)
  | inr (dbg, e) ↦
      let new = flush_insts v s.next dbg in
      let u : Program = record { m = put p new s.m; next = s.next + 2 } in
      let same : (s.next, u) ≡ (n, t) = ok_injective (rw (insert_flush_at, e) at ran) in
      let there = builder_at-Present s.m p dbg e in
      subst (λ (q : ℕ × Program). Grows s q.1 × FlushBehind v p q.0 (Program.m q.1)) same
        (
          put-Grows s p new (s.next + 2) valid (flush_insts-IsNew s v dbg),
          flush_insts-FlushBehind v p s.next dbg u.m (λ y h. put-Behind p new s.m y there h),
        )
]
