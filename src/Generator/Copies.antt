-- ===== src/Generator/Copies.antt =====
-- src/FixGenerator.cpp: what `duplicateFunction` and `makeAllStoresPersistent` keep of a module.
use hippocrates.Base.{
  ℕ, ◌+◌, ◌<◌, ◌≡◌, refl, sym, ◌∙◌, ap, subst, ◌⊎◌, inl, inr, false, List, [], ◌∷◌, ◌++◌, Text,
  arith, Any, Any-append, append-Any,
}
use hippocrates.Ir.{Module, Function, Block, Inst}
use hippocrates.Generator.{Program}
use hippocrates.Generator.Behind.{Member, In}
use hippocrates.Generator.Insert.{reserved_name, Valid, Grows, Bodiless}
use hippocrates.Generator.Clone.{clone_op, clone_insts, clone_blocks}

-- The instructions of a copy are copies of those of the function.
abbrev CopyOf : List Block → ℕ → Inst → Inst → Type 0
CopyOf blocks offset i y = (y.id ≡ i.id + offset) × (y.op ≡ clone_op blocks offset i.op)

module _ (blocks : List Block) (offset : ℕ) where
  clone_insts-Member :
      (y : Inst) (is : List Inst)
      → Member y (clone_insts blocks offset is)
      → (i : Inst) × Member i is × CopyOf blocks offset i y
  unfolding clone_insts
  clone_insts-Member y [] h = absurd h
  clone_insts-Member y (i ∷ is) (inl e) = (i, inl refl, (ap Inst.id (sym e), ap Inst.op (sym e)))
  clone_insts-Member y (i ∷ is) (inr h) =
      let (j, there, c) = clone_insts-Member y is h in (j, inr there, c)

  clone_blocks-Member :
      (y : Inst) (bs : List Block)
      → Any (λ (b : Block). Member y b.insts) (clone_blocks blocks offset bs)
      → (i : Inst) × Any (λ (b : Block). Member i b.insts) bs × CopyOf blocks offset i y
  unfolding clone_blocks
  clone_blocks-Member y [] h = absurd h
  clone_blocks-Member y (b ∷ bs) (inl h) =
      let (i, there, c) = clone_insts-Member y b.insts h in (i, inl there, c)
  clone_blocks-Member y (b ∷ bs) (inr h) =
      let (i, there, c) = clone_blocks-Member y bs h in (i, inr there, c)

-- An instruction of a function of the module is one of the module.
function-In :
    (f : Function) (m : Module) (i : Inst)
    → Any (λ g. g ≡ f) m
    → Any (λ (b : Block). Member i b.insts) f.blocks
    → In i m
function-In f [] i h k = absurd h
function-In f (g ∷ m) i (inl e) k =
    inl (subst (λ q. Any (λ (b : Block). Member i b.insts) (Function.blocks q)) (sym e) k)
function-In f (g ∷ m) i (inr h) k = inr (function-In f m i h k)

append-Bodiless :
    (m : Module) (f : Function) → Bodiless m → reserved_name f.name ≡ false → Bodiless (m ++ f ∷ [])
append-Bodiless [] f h r = (λ no_body. ground (arith, r, no_body), tt)
append-Bodiless (g ∷ m) f h r = (h.0, append-Bodiless m f h.1 r)

module _ (s : Program) (f : Function) (name : Text) (valid : Valid s) (there : Any (λ g. g ≡ f) s.m)
    (free : reserved_name name ≡ false) where
  abbrev copy : Function
  copy = record {
    info = record f.info { name = name };
    blocks = clone_blocks f.blocks s.next f.blocks;
  }

  abbrev doubled : Program
  doubled = record { m = s.m ++ copy ∷ []; next = s.next + s.next }

  abbrev Copied : Inst → Type 0
  Copied y = (i : Inst) × In i s.m × CopyOf f.blocks s.next i y

  Old-or-Copied : (y : Inst) → In y doubled.m → In y s.m ⊎ Copied y
  Old-or-Copied y h =
      elim (append-Any (λ (g : Function). Any (λ (b : Block). Member y b.insts) g.blocks) s.m
        (copy ∷ []) h) [
          | inl old ↦ inl old
          | inr (inl new) ↦
              let (i, here, c) = clone_blocks-Member f.blocks s.next y f.blocks new in
              inr (i, function-In f s.m i there here, c)
          | inr (inr never) ↦ absurd never
        ]

  copy-one_op : (y z : Inst) → In y s.m ⊎ Copied y → In z s.m ⊎ Copied z → y.id ≡ z.id → y.op ≡ z.op
  copy-one_op y z (inl a) (inl b) e = valid.one_op y z a b e
  copy-one_op y z (inl a) (inr (j, b, (n, o))) e = absurd (omega (arith, valid.low y a, n, e))
  copy-one_op y z (inr (i, a, (n, o))) (inl b) e = absurd (omega (arith, valid.low z b, n, e))
  copy-one_op y z (inr (i, a, (n, o))) (inr (j, b, (k, q))) e =
      let ids : i.id ≡ j.id = omega (arith, n, k, e) in
      o ∙ ap (clone_op f.blocks s.next) (valid.one_op i j a b ids) ∙ sym q

  copy-low : (y : Inst) → In y s.m ⊎ Copied y → y.id < s.next + s.next
  copy-low y (inl a) = omega (arith, valid.low y a)
  copy-low y (inr (i, a, (n, o))) = omega (arith, valid.low i a, n)

  from_old : (y : Inst) → y.id < s.next → In y s.m ⊎ Copied y → In y s.m
  from_old y h (inl a) = a
  from_old y h (inr (i, a, (n, o))) = absurd (omega (arith, h, n))

  pub copy-Grows : Grows s doubled
  copy-Grows = record {
    valid = record {
      one_op = λ x y a b e. copy-one_op x y (Old-or-Copied x a) (Old-or-Copied y b) e;
      low = λ x a. copy-low x (Old-or-Copied x a);
      bodiless = append-Bodiless s.m copy valid.bodiless free;
    };
    above = omega arith;
    kept = λ p x l h. (x, Any-append _ s.m (copy ∷ []) (inl h), refl, refl);
    stores = λ x v below h e. (x, from_old x below (Old-or-Copied x h), refl, e);
    lasted = λ x below h l. (x, from_old x below (Old-or-Copied x h), refl, refl);
  }
