-- ===== src/Generator/Insert.antt =====
-- The state of the generator, and what a change of the module keeps (src/FixGenerator.cpp).
use hippocrates.Base.{
  ℕ, ◌<◌, ◌≤◌, ◌≡◌, refl, sym, ◌∙◌, ap, ◌⊎◌, inl, inr, Bool, true, false, ◌||◌, ◌&&◌, some, List,
  [], ◌∷◌, Text, text_eq, arith, All, Any-map,
}
use hippocrates.Ir.{
  Module, Function, Inst, Op, Value, FnInfo, Intrinsic, clwb, sfence, call, direct, cast,
  rewrite_blocks, rewrite_module,
}
use hippocrates.Generator.{Program, clwb_function, sfence_function, written}
use hippocrates.Generator.Behind.{Member, In, Behind, after-Member, In-origin, Behind-rewrite}

-- The names of the flush and the fence, and the instructions that no change takes away.
unfoldable pub reserved_name : Text → Bool
reserved_name name = text_eq name clwb_function.name || text_eq name sfence_function.name

abbrev is_barrier : Intrinsic → Bool
is_barrier clwb = true
is_barrier sfence = true
is_barrier _ = false

unfoldable pub is_reserved : FnInfo → Bool
is_reserved f = is_barrier f.intrinsic && reserved_name f.name

abbrev pub lasting : Op → Bool
lasting (call (direct f) args) = is_reserved f
lasting (cast v) = true
lasting _ = false

-- A function with a reserved name has no body.
abbrev pub Bodiless : Module → Type 0
Bodiless = All (λ (f : Function). reserved_name f.name ≡ true → f.blocks ≡ [])

-- An address stands for one instruction and is below the next one.
pub record Valid (s : Program) : Type 0 where
  pub one_op : (x y : Inst) → In x s.m → In y s.m → x.id ≡ y.id → x.op ≡ y.op
  pub low : (x : Inst) → In x s.m → x.id < s.next
  pub bodiless : Bodiless s.m

-- A later state: flushes and fences stand where they stood, and no instruction with an old address has
-- become a store.
pub record Grows (s t : Program) : Type 0 where
  pub valid : Valid t
  pub above : s.next ≤ t.next
  pub kept :
      (p : ℕ) (x : Inst)
      → lasting x.op ≡ true
      → Behind p x s.m
      → (y : Inst) × Behind p y t.m × (y.op ≡ x.op) × (y.id ≡ x.id)
  pub stores :
      (x : Inst) (v : Value)
      → x.id < s.next
      → In x t.m
      → written x.op ≡ some v
      → (y : Inst) × In y s.m × (y.id ≡ x.id) × (written y.op ≡ some v)
  pub lasted :
      (x : Inst)
      → x.id < s.next
      → In x t.m
      → lasting x.op ≡ true
      → (y : Inst) × In y s.m × (y.id ≡ x.id) × (y.op ≡ x.op)

pub Grows-refl : (s : Program) → Valid s → Grows s s
Grows-refl s v = record {
  valid = v;
  above = omega arith;
  kept = λ p x l h. (x, h, refl, refl);
  stores = λ x w below h e. (x, h, refl, e);
  lasted = λ x below h l. (x, h, refl, refl);
}

pub Grows-trans : (s t u : Program) → Grows s t → Grows t u → Grows s u
Grows-trans s t u a b = record {
  valid = b.valid;
  above = omega (arith, a.above, b.above);
  kept = λ p x l h.
      let (y, h1, o1, i1) = a.kept p x l h in
      let (z, h2, o2, i2) = b.kept p y (ap lasting o1 ∙ l) h1 in (z, h2, o2 ∙ o1, i2 ∙ i1);
  stores = λ x v below h e.
      let (y, h1, i1, e1) = b.stores x v (omega (arith, a.above, below)) h e in
      let (z, h2, i2, e2) = a.stores y v (omega (arith, i1, below)) h1 e1 in (z, h2, i2 ∙ i1, e2);
  lasted = λ x below h l.
      let (y, h1, i1, o1) = b.lasted x (omega (arith, a.above, below)) h l in
      let (z, h2, i2, o2) = a.lasted y (omega (arith, i1, below)) h1 (ap lasting o1 ∙ l) in
      (z, h2, i2 ∙ i1, o2 ∙ o1);
}

-- A rewriting that is safe in a state, with the next address afterwards.
pub record Safe (s : Program) (g : Inst → Inst) (more : Inst → List Inst) (next : ℕ) : Type 0 where
  pub same_id : (i : Inst) → Inst.id (g i) ≡ i.id
  pub same_written : (i : Inst) → written (Inst.op (g i)) ≡ written i.op
  pub same_lasting : (i : Inst) → In i s.m → lasting i.op ≡ true → Inst.op (g i) ≡ i.op
  pub back_lasting : (i : Inst) → lasting (Inst.op (g i)) ≡ true → Inst.op (g i) ≡ i.op
  pub same_op : (i j : Inst) → i.id ≡ j.id → i.op ≡ j.op → Inst.op (g i) ≡ Inst.op (g j)
  pub above : s.next ≤ next
  pub fresh : (i y : Inst) → Member y (more i) → (s.next ≤ y.id) × (y.id < next)
  pub fresh_op :
      (i j y z : Inst) → Member y (more i) → Member z (more j) → y.id ≡ z.id → y.op ≡ z.op

Behind-In : (p : ℕ) (x : Inst) (m : Module) → Behind p x m → In x m
Behind-In p x m h = Any-map m (λ f. Any-map f.blocks (λ b. after-Member p x b.insts)) h

Bodiless-rewrite :
    (g : Inst → Inst) (more : Inst → List Inst) (m : Module)
    → Bodiless m
    → Bodiless (rewrite_module g more m)
unfolding rewrite_module rewrite_blocks
Bodiless-rewrite g more [] h = tt
Bodiless-rewrite g more (f ∷ fs) h =
    (λ r. ap (rewrite_blocks g more) (h.0 r), Bodiless-rewrite g more fs h.1)

module _ (s : Program) (g : Inst → Inst) (more : Inst → List Inst) (next : ℕ) (v : Valid s)
    (safe : Safe s g more next) where
  abbrev rewritten : Program
  rewritten = record { m = rewrite_module g more s.m; next = next }

  -- An instruction of the new module is an old one or a new one.
  abbrev Old : Inst → Type 0
  Old y = (x : Inst) × In x s.m × (y ≡ g x)

  abbrev New : Inst → Type 0
  New y = (x : Inst) × Member y (more x)

  Old-or-New : (y : Inst) → In y rewritten.m → Old y ⊎ New y
  Old-or-New y h =
      let (x, there, new) = In-origin g more s.m y h in
      elim new [ inl same ↦ inl (x, there, sym same) | inr m ↦ inr (x, m) ]

  Old-low : (y : Inst) → Old y → y.id < s.next
  Old-low y (x, there, same) = omega (arith, ap Inst.id same, safe.same_id x, v.low x there)

  rewrite-one_op : (y z : Inst) → Old y ⊎ New y → Old z ⊎ New z → y.id ≡ z.id → y.op ≡ z.op
  rewrite-one_op y z (inl (a, at, e)) (inl (b, bt, f)) same =
      let ids : a.id ≡ b.id =
        sym (safe.same_id a) ∙ sym (ap Inst.id e) ∙ same ∙ ap Inst.id f ∙ safe.same_id b in
      ap Inst.op e ∙ safe.same_op a b ids (v.one_op a b at bt ids) ∙ sym (ap Inst.op f)
  rewrite-one_op y z (inl o) (inr (b, m)) same =
      absurd (omega (arith, Old-low y o, (safe.fresh b z m).0, same))
  rewrite-one_op y z (inr (a, m)) (inl o) same =
      absurd (omega (arith, Old-low z o, (safe.fresh a y m).0, same))
  rewrite-one_op y z (inr (a, k)) (inr (b, m)) same = safe.fresh_op a b y z k m same

  rewrite-low : (y : Inst) → Old y ⊎ New y → y.id < next
  rewrite-low y (inl o) = omega (arith, Old-low y o, safe.above)
  rewrite-low y (inr (a, m)) = (safe.fresh a y m).1

  pub rewrite-Grows : Grows s rewritten
  rewrite-Grows = record {
    valid = record {
      one_op = λ x y a b e. rewrite-one_op x y (Old-or-New x a) (Old-or-New y b) e;
      low = λ x a. rewrite-low x (Old-or-New x a);
      bodiless = Bodiless-rewrite g more s.m v.bodiless;
    };
    above = safe.above;
    kept = λ p x l h. (
      g x,
      Behind-rewrite g more safe.same_id s.m p x (g x) h (inl refl),
      safe.same_lasting x (Behind-In p x s.m h) l,
      safe.same_id x,
    );
    stores = λ x w below h e. elim (Old-or-New x h) [
      | inl (y, there, same) ↦ (
        y,
        there,
        sym (safe.same_id y) ∙ sym (ap Inst.id same),
        sym (safe.same_written y) ∙ ap (λ z. written (Inst.op z)) (sym same) ∙ e,
      )
      | inr (y, m) ↦ absurd (omega (arith, below, (safe.fresh y x m).0))
    ];
    lasted = λ x below h l. elim (Old-or-New x h) [
      | inl (y, there, same) ↦
          let back = safe.back_lasting y (ap (λ z. lasting (Inst.op z)) (sym same) ∙ l) in
          (y, there, sym (safe.same_id y) ∙ sym (ap Inst.id same), sym back ∙ sym (ap Inst.op same))
      | inr (y, m) ↦ absurd (omega (arith, below, (safe.fresh y x m).0))
    ];
  }
