-- ===== src/Utils/Remover/Removed.antt =====
-- What is left of a module (src/remover/FlushRemover.cpp, `FlushRemover::runOnModule`): an
-- instruction is erased by its address.
use hippocrates.Base.{
  ℕ, ◌≡◌, refl, sym, ap, ◌∙◌, subst, ◌↔◌, inl, inr, Bool, true, false, ◌||◌, List, [], ◌∷◌, ◌==◌,
  arith, Any, Bool-cases, List-cases, ==_iff,
}
use hippocrates.Ir.{Module, Function, Block, Inst}
use hippocrates.Utils.{is_flush}
use hippocrates.Generator.Behind.{Member, In}
use hippocrates.Generator.Remove.{erase, erase_blocks, erase_insts}
use hippocrates.Utils.Remover.{flushes, erase_all, run_on_module}
use hippocrates.Utils.Remover.Collected.{in_module_flushes}
use hippocrates.Utils.Remover.Kinds.{IsFlush, is_flush-IsFlush}

-- The instructions that are left: all but the flushes, in their order.
pub data Left : List Inst → List Inst → Type 0 where
  end : Left [] []
  gone : {i : Inst} {is js : List Inst} → IsFlush i.op → Left is js → Left (i ∷ is) js
  stays : {i : Inst} {is js : List Inst} → ¬ IsFlush i.op → Left is js → Left (i ∷ is) (i ∷ js)

-- Block by block and function by function.
abbrev pub LeftBlocks : List Block → List Block → Type 0
LeftBlocks [] [] = Unit
LeftBlocks (b ∷ bs) (c ∷ cs) = (c.label ≡ b.label) × Left b.insts c.insts × LeftBlocks bs cs
LeftBlocks _ _ = ⊥

abbrev pub LeftModule : Module → Module → Type 0
LeftModule [] [] = Unit
LeftModule (f ∷ fs) (g ∷ gs) =
    (Function.info g ≡ Function.info f) × LeftBlocks f.blocks g.blocks × LeftModule fs gs
LeftModule _ _ = ⊥

-- An address stands for one instruction.
abbrev pub OnePlace : Module → Type 0
OnePlace m = (x y : Inst) → In x m → In y m → x.id ≡ y.id → x.op ≡ y.op

-- Whether the list has an instruction with this address.
abbrev listed : List Inst → ℕ → Bool
listed [] p = false
listed (i ∷ l) p = (p == i.id) || listed l p

Member-listed : (l : List Inst) (x : Inst) → Member x l → listed l x.id ≡ true
Member-listed [] x h = elim h [ ]
Member-listed (i ∷ l) x (inl e) = rw ((==_iff x.id i.id).1 (ap (λ (j : Inst). j.id) (sym e))) refl
Member-listed (i ∷ l) x (inr h) = ground (arith, Member-listed l x h)

abbrev erase_each : List Inst → List Inst → List Inst
erase_each [] is = is
erase_each (i ∷ l) is = erase_each l (erase_insts i.id is)

abbrev erase_each_block : List Inst → List Block → List Block
erase_each_block [] bs = bs
erase_each_block (i ∷ l) bs = erase_each_block l (erase_blocks i.id bs)

erase_each-[] : (l : List Inst) → erase_each l [] ≡ []
unfolding erase_insts
erase_each-[] [] = refl
erase_each-[] (i ∷ l) = erase_each-[] l

erase_each-listed :
    (l : List Inst) (x : Inst) (is : List Inst)
    → listed l x.id ≡ true
    → erase_each l (x ∷ is) ≡ erase_each l is
unfolding erase_insts
erase_each-listed [] x is h = cc
erase_each-listed (i ∷ l) x is h = elim (Bool-cases (x.id == i.id)) [
  | inl e ↦ rw (e) refl
  | inr e ↦ rw (e) (erase_each-listed l x (erase_insts i.id is) (rw (e) at h))
]

erase_each-unlisted :
    (l : List Inst) (x : Inst) (is : List Inst)
    → listed l x.id ≡ false
    → erase_each l (x ∷ is) ≡ x ∷ erase_each l is
unfolding erase_insts
erase_each-unlisted [] x is h = refl
erase_each-unlisted (i ∷ l) x is h = elim (Bool-cases (x.id == i.id)) [
  | inl e ↦ absurd (ground (arith, h))
  | inr e ↦ rw (e) (erase_each-unlisted l x (erase_insts i.id is) (rw (e) at h))
]

erase_each_block-cons :
    (l : List Inst) (b : Block) (bs : List Block)
    → erase_each_block l (b ∷ bs)
      ≡ (record b { insts = erase_each l b.insts }) ∷ erase_each_block l bs
unfolding erase_blocks
erase_each_block-cons [] b bs = refl
erase_each_block-cons (i ∷ l) b bs =
    erase_each_block-cons l (record b { insts = erase_insts i.id b.insts }) (erase_blocks i.id bs)

erase_each_block-[] : (l : List Inst) → erase_each_block l [] ≡ []
unfolding erase_blocks
erase_each_block-[] [] = refl
erase_each_block-[] (i ∷ l) = erase_each_block-[] l

erase_all-cons :
    (l : List Inst) (f : Function) (fs : Module)
    → erase_all l (f ∷ fs) ≡ (record f { blocks = erase_each_block l f.blocks }) ∷ erase_all l fs
unfolding erase erase_all
erase_all-cons [] f fs = refl
erase_all-cons (i ∷ l) f fs =
    erase_all-cons l (record f { blocks = erase_blocks i.id f.blocks }) (erase i.id fs)

erase_all-[] : (l : List Inst) → erase_all l [] ≡ []
unfolding erase erase_all
erase_all-[] [] = refl
erase_all-[] (i ∷ l) = erase_all-[] l

-- The list has the addresses of the flushes, and no others.
module _ (l : List Inst) where
  abbrev Lists : Inst → Type 0
  Lists i = listed l i.id ≡ is_flush i.op

  erase_each-Left :
      (is : List Inst) → ((i : Inst) → Member i is → Lists i) → Left is (erase_each l is)
  erase_each-Left [] all = rw (erase_each-[] l) end
  erase_each-Left (i ∷ is) all =
      let rest = erase_each-Left is (λ j h. all j (inr h)) in
      elim (Bool-cases (listed l i.id)) [
        | inl e ↦
            rw (erase_each-listed l i is e)
              (gone ((is_flush-IsFlush i.op).0 (sym (all i (inl refl)) ∙ e)) rest)
        | inr e ↦ rw (erase_each-unlisted l i is e) (
            stays
              (λ h.
                let e' = (is_flush-IsFlush i.op).1 h in
                let f = all i (inl refl) in ground (arith, e, e', f))
              rest)
      ]

  erase_each_block-Left :
      (bs : List Block)
      → ((i : Inst) → Any (λ (b : Block). Member i b.insts) bs → Lists i)
      → LeftBlocks bs (erase_each_block l bs)
  erase_each_block-Left [] all = rw (erase_each_block-[] l) tt
  erase_each_block-Left (b ∷ bs) all = rw (erase_each_block-cons l b bs) (
    refl,
    erase_each-Left b.insts (λ i h. all i (inl h)),
    erase_each_block-Left bs (λ i h. all i (inr h)),
  )

  erase_all-Left : (m : Module) → ((i : Inst) → In i m → Lists i) → LeftModule m (erase_all l m)
  erase_all-Left [] all = rw (erase_all-[] l) tt
  erase_all-Left (f ∷ fs) all = rw (erase_all-cons l f fs) (
    refl,
    erase_each_block-Left f.blocks (λ i h. all i (inl h)),
    erase_all-Left fs (λ i h. all i (inr h)),
  )

listed_one : (l : List Inst) (p : ℕ) → listed l p ≡ true → (y : Inst) × Member y l × (p ≡ y.id)
listed_one [] p h = cc
listed_one (i ∷ l) p h = elim (Bool-cases (p == i.id)) [
  | inl e ↦ (i, inl refl, (==_iff p i.id).0 e)
  | inr e ↦ let (y, m, same) = listed_one l p (rw (e) at h) in (y, inr m, same)
]

flushes-Lists : (m : Module) → OnePlace m → (x : Inst) → In x m → Lists (flushes m) x
flushes-Lists m one x here = elim (Bool-cases (is_flush x.op)) [
  | inl e ↦ Member-listed (flushes m) x ((in_module_flushes m x).1 (here, e)) ∙ sym e
  | inr e ↦ elim (Bool-cases (listed (flushes m) x.id)) [
    | inr unlisted ↦ unlisted ∙ sym e
    | inl found ↦
        let (y, among, same) = listed_one (flushes m) x.id found in
        let (there, flush) = (in_module_flushes m y).0 among in
        absurd (let op = ap is_flush (one x y here there same) in ground (arith, op, e, flush))
  ]
]

-- Where an address stands for one instruction, the pass erases the flushes, and all that is no flush
-- stays in its block, in order: what counts as a flush is a call of the intrinsics for clwb,
-- clflushopt and clflush, a call of an intrinsic with clflush in its name, and the two lines of
-- assembly for clflush and xsaveopt. The pass says that it changed the module exactly if the module
-- had a flush.
pub run_on_module-LeftModule :
    (m : Module)
    → OnePlace m
    → LeftModule m (run_on_module m).0
      × (((run_on_module m).1 ≡ true) ↔ ((x : Inst) × In x m × IsFlush x.op))
unfolding run_on_module
run_on_module-LeftModule m one = (
  erase_all-Left (flushes m) m (flushes-Lists m one),
  (
    λ h. elim (List-cases (flushes m)) [
      | inl e ↦ absurd (ground (arith, h, e))
      | inr (x, l, e) ↦
          let (here, flush) = (in_module_flushes m x).0 (rw (e) (inl refl)) in
          (x, here, (is_flush-IsFlush x.op).0 flush)
    ],
    λ (x, here, flush). elim (List-cases (flushes m)) [
      | inl e ↦
          let found = (in_module_flushes m x).1 (here, (is_flush-IsFlush x.op).1 flush) in
          absurd (subst (Member x) e found)
      | inr (y, l, e) ↦ rw (e) refl
    ],
  ),
)
