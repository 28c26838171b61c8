-- ===== src/Generator/Behind.antt =====
-- What stands behind what in a module, and what a rewriting of the module keeps (src/FixGenerator.cpp).
use hippocrates.Base.{
  ℕ, ◌≡◌, refl, sym, ◌∙◌, ap, subst, inl, inr, true, false, List, [], ◌∷◌, ◌++◌, ◌==◌, arith, Any,
  Any-append, append-Any, Bool-cases, ==_iff,
}
use hippocrates.Ir.{
  Module, Function, Block, Inst, after, has_inst, rewrite_insts, rewrite_blocks, rewrite_module,
}

abbrev pub Member : Inst → List Inst → Type 0
Member x = Any (λ y. y ≡ x)

-- An instruction of a module, and one behind an address in a block of it.
abbrev pub In : Inst → Module → Type 0
In x = Any (λ (f : Function). Any (λ (b : Block). Member x b.insts) f.blocks)

abbrev pub Behind : ℕ → Inst → Module → Type 0
Behind p x = Any (λ (f : Function). Any (λ (b : Block). Member x (after p b.insts)) f.blocks)

-- What is behind an address is in the list, and stays behind it where something is put in front.
pub after-Member : (p : ℕ) (x : Inst) (is : List Inst) → Member x (after p is) → Member x is
unfolding after
after-Member p x [] h = h
after-Member p x (i ∷ is) h = elim (Bool-cases (i.id == p)) [
  | inl e ↦ inr (rw (after, e) at h)
  | inr e ↦ inr (after-Member p x is (rw (after, e) at h))
]

after-append :
    (p : ℕ) (x : Inst) (xs is : List Inst) → Member x (after p is) → Member x (after p (xs ++ is))
unfolding after
after-append p x [] is h = h
after-append p x (y ∷ xs) is h = elim (Bool-cases (y.id == p)) [
  | inl e ↦ rw (after, e) (Any-append (λ z. z ≡ x) xs is (inr (after-Member p x is h)))
  | inr e ↦ rw (after, e) (after-append p x xs is h)
]

module _ (g : Inst → Inst) (more : Inst → List Inst) where
  abbrev rewritten : List Inst → List Inst
  rewritten = rewrite_insts g more

  Member-rewrite :
      (x y : Inst) (is : List Inst)
      → Member x is
      → Member y (g x ∷ more x)
      → Member y (rewritten is)
  unfolding rewrite_insts
  Member-rewrite x y [] h new = absurd h
  Member-rewrite x y (i ∷ is) (inl e) new =
      let new' = subst (λ z. Member y (g z ∷ more z)) (sym e) new in
      elim new' [
        | inl same ↦ inl same
        | inr m ↦ inr (Any-append (λ z. z ≡ y) (more i) (rewritten is) (inl m))
      ]
  Member-rewrite x y (i ∷ is) (inr h) new =
      inr (Any-append (λ z. z ≡ y) (more i) (rewritten is) (inr (Member-rewrite x y is h new)))

  -- From an instruction of the new list to the one that it comes from.
  rewrite-Member :
      (y : Inst) (is : List Inst)
      → Member y (rewritten is)
      → (x : Inst) × Member x is × Member y (g x ∷ more x)
  unfolding rewrite_insts
  rewrite-Member y [] h = absurd h
  rewrite-Member y (i ∷ is) (inl e) = (i, inl refl, inl e)
  rewrite-Member y (i ∷ is) (inr h) = elim (append-Any (λ z. z ≡ y) (more i) (rewritten is) h) [
    | inl m ↦ (i, inl refl, inr m)
    | inr m ↦ let (x, here, new) = rewrite-Member y is m in (x, inr here, new)
  ]

  module _ (same_id : (i : Inst) → Inst.id (g i) ≡ i.id) where
    -- What comes from an instruction behind an address is behind that address.
    after-rewrite :
        (p : ℕ) (x y : Inst) (is : List Inst)
        → Member x (after p is)
        → Member y (g x ∷ more x)
        → Member y (after p (rewritten is))
    unfolding rewrite_insts after
    after-rewrite p x y [] h new = absurd h
    after-rewrite p x y (i ∷ is) h new = elim (Bool-cases (i.id == p)) [
      | inl e ↦
          let head : ((g i).id == p) ≡ true = ap (λ n. n == p) (same_id i) ∙ e in
          rw (after, head)
            (Any-append (λ z. z ≡ y) (more i) (rewritten is)
              (inr (Member-rewrite x y is (rw (after, e) at h) new)))
      | inr e ↦
          let head : ((g i).id == p) ≡ false = ap (λ n. n == p) (same_id i) ∙ e in
          rw (after, head)
            (after-append p y (more i) (rewritten is)
              (after-rewrite p x y is (rw (after, e) at h) new))
    ]

    -- What is put behind an instruction is behind its address.
    rewrite-behind :
        (p : ℕ) (y : Inst) (is : List Inst)
        → has_inst p is ≡ true
        → ((i : Inst) → i.id ≡ p → Member y (more i))
        → Member y (after p (rewritten is))
    unfolding rewrite_insts has_inst after
    rewrite-behind p y [] h new = ground arith
    rewrite-behind p y (i ∷ is) h new = elim (Bool-cases (i.id == p)) [
      | inl e ↦
          let head : ((g i).id == p) ≡ true = ap (λ n. n == p) (same_id i) ∙ e in
          rw (after, head)
            (Any-append (λ z. z ≡ y) (more i) (rewritten is) (inl (new i ((==_iff i.id p).0 e))))
      | inr e ↦
          let head : ((g i).id == p) ≡ false = ap (λ n. n == p) (same_id i) ∙ e in
          rw (after, head)
            (after-append p y (more i) (rewritten is)
              (rewrite-behind p y is (rw (has_inst, e) at h) new))
    ]

-- The same of whole modules. `Any` goes through the functions and through their blocks.
module _ (g : Inst → Inst) (more : Inst → List Inst) where
  any_block :
      (P Q : List Inst → Type 0) (bs : List Block)
      → ((is : List Inst) → P is → Q (rewrite_insts g more is))
      → Any (λ (b : Block). P b.insts) bs
      → Any (λ (b : Block). Q b.insts) (rewrite_blocks g more bs)
  unfolding rewrite_blocks
  any_block P Q [] step h = h
  any_block P Q (b ∷ bs) step (inl h) = inl (step b.insts h)
  any_block P Q (b ∷ bs) step (inr h) = inr (any_block P Q bs step h)

  pub any_rewrite :
      (P Q : List Inst → Type 0) (m : Module)
      → ((is : List Inst) → P is → Q (rewrite_insts g more is))
      → Any (λ (f : Function). Any (λ (b : Block). P b.insts) f.blocks) m
      → Any (λ (f : Function). Any (λ (b : Block). Q b.insts) f.blocks) (rewrite_module g more m)
  unfolding rewrite_module
  any_rewrite P Q [] step h = h
  any_rewrite P Q (f ∷ fs) step (inl h) = inl (any_block P Q f.blocks step h)
  any_rewrite P Q (f ∷ fs) step (inr h) = inr (any_rewrite P Q fs step h)

  block_any :
      (Q P : List Inst → Type 0) (bs : List Block)
      → ((is : List Inst) → Q (rewrite_insts g more is) → P is)
      → Any (λ (b : Block). Q b.insts) (rewrite_blocks g more bs)
      → Any (λ (b : Block). P b.insts) bs
  unfolding rewrite_blocks
  block_any Q P [] step h = h
  block_any Q P (b ∷ bs) step (inl h) = inl (step b.insts h)
  block_any Q P (b ∷ bs) step (inr h) = inr (block_any Q P bs step h)

  rewrite_any :
      (Q P : List Inst → Type 0) (m : Module)
      → ((is : List Inst) → Q (rewrite_insts g more is) → P is)
      → Any (λ (f : Function). Any (λ (b : Block). Q b.insts) f.blocks) (rewrite_module g more m)
      → Any (λ (f : Function). Any (λ (b : Block). P b.insts) f.blocks) m
  unfolding rewrite_module
  rewrite_any Q P [] step h = h
  rewrite_any Q P (f ∷ fs) step (inl h) = inl (block_any Q P f.blocks step h)
  rewrite_any Q P (f ∷ fs) step (inr h) = inr (rewrite_any Q P fs step h)

-- Of an instruction somewhere, with what is known of it.
module _ (R : Inst → Type 0) where
  block_found :
      (bs : List Block)
      → Any (λ (b : Block). (x : Inst) × Member x b.insts × R x) bs
      → (x : Inst) × Any (λ (b : Block). Member x b.insts) bs × R x
  block_found [] h = absurd h
  block_found (b ∷ bs) (inl (x, here, r)) = (x, inl here, r)
  block_found (b ∷ bs) (inr h) = let (x, there, r) = block_found bs h in (x, inr there, r)

  found-In :
      (m : Module)
      → Any (λ (f : Function). Any (λ (b : Block). (x : Inst) × Member x b.insts × R x) f.blocks) m
      → (x : Inst) × In x m × R x
  found-In [] h = absurd h
  found-In (f ∷ fs) (inl h) = let (x, here, r) = block_found f.blocks h in (x, inl here, r)
  found-In (f ∷ fs) (inr h) = let (x, there, r) = found-In fs h in (x, inr there, r)

module _ (g : Inst → Inst) (more : Inst → List Inst) where
  -- An instruction of the rewritten module comes from one of the module.
  pub In-origin :
      (m : Module) (y : Inst)
      → In y (rewrite_module g more m)
      → (x : Inst) × In x m × Member y (g x ∷ more x)
  In-origin m y h =
      found-In (λ x. Member y (g x ∷ more x)) m
        (rewrite_any g more (λ is. Member y is)
          (λ is. (x : Inst) × Member x is × Member y (g x ∷ more x)) m (rewrite-Member g more y) h)

  module _ (same_id : (i : Inst) → Inst.id (g i) ≡ i.id) where
    pub Behind-rewrite :
        (m : Module) (p : ℕ) (x y : Inst)
        → Behind p x m
        → Member y (g x ∷ more x)
        → Behind p y (rewrite_module g more m)
    Behind-rewrite m p x y h new =
        any_rewrite g more (λ is. Member x (after p is)) (λ is. Member y (after p is)) m
          (λ is k. after-rewrite g more same_id p x y is k new) h

    pub Behind-new :
        (m : Module) (p : ℕ) (y : Inst)
        → Any (λ (f : Function). Any (λ (b : Block). has_inst p b.insts ≡ true) f.blocks) m
        → ((i : Inst) → i.id ≡ p → Member y (more i))
        → Behind p y (rewrite_module g more m)
    Behind-new m p y h new =
        any_rewrite g more (λ is. has_inst p is ≡ true) (λ is. Member y (after p is)) m
          (λ is k. rewrite-behind g more same_id p y is k new) h
