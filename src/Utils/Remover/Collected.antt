-- ===== src/Utils/Remover/Collected.antt =====
-- The flushes that are collected (src/remover/FlushRemover.cpp, `FlushRemover::runOnModule`).
use hippocrates.Base.{
  ◌≡◌, sym, ap, ◌∙◌, ◌↔◌, inl, inr, true, List, [], ◌∷◌, arith, Any, Any-append, append-Any,
  Bool-cases,
}
use hippocrates.Ir.{Module, Block, Inst}
use hippocrates.Utils.{is_flush}
use hippocrates.Generator.Behind.{Member, In}
use hippocrates.Utils.Remover.{flushes_in, flushes_of, flushes}

in_flushes :
    (is : List Inst) (x : Inst) → Member x (flushes_in is) ↔ (Member x is × (is_flush x.op ≡ true))
unfolding flushes_in
in_flushes [] x = (λ h. elim h [ ], λ (h, _). elim h [ ])
in_flushes (i ∷ is) x = elim (Bool-cases (is_flush i.op)) [
  | inl e ↦ rw (e) (
    λ h. elim h [
      | inl same ↦ (inl same, ap (λ (j : Inst). is_flush j.op) (sym same) ∙ e)
      | inr m ↦ let (here, flush) = (in_flushes is x).0 m in (inr here, flush)
    ],
    λ (h, flush). elim h [ inl same ↦ inl same | inr m ↦ inr ((in_flushes is x).1 (m, flush)) ],
  )
  | inr e ↦ rw (e) (
    λ h. let (here, flush) = (in_flushes is x).0 h in (inr here, flush),
    λ (h, flush). elim h [
      | inl same ↦
          let e' = ap (λ (j : Inst). is_flush j.op) same in absurd (ground (arith, e, e', flush))
      | inr m ↦ (in_flushes is x).1 (m, flush)
    ],
  )
]

in_flushes_of :
    (bs : List Block) (x : Inst)
    → Member x (flushes_of bs) ↔ (Any (λ (b : Block). Member x b.insts) bs × (is_flush x.op ≡ true))
unfolding flushes_of
in_flushes_of [] x = (λ h. elim h [ ], λ (h, _). elim h [ ])
in_flushes_of (b ∷ bs) x = (
  λ h. elim (append-Any (λ z. z ≡ x) (flushes_in b.insts) (flushes_of bs) h) [
    | inl m ↦ let (here, flush) = (in_flushes b.insts x).0 m in (inl here, flush)
    | inr m ↦ let (here, flush) = (in_flushes_of bs x).0 m in (inr here, flush)
  ],
  λ (h, flush).
      Any-append (λ z. z ≡ x) (flushes_in b.insts) (flushes_of bs)
        (elim h [
          | inl m ↦ inl ((in_flushes b.insts x).1 (m, flush))
          | inr m ↦ inr ((in_flushes_of bs x).1 (m, flush))
        ]),
)

pub in_module_flushes :
    (m : Module) (x : Inst) → Member x (flushes m) ↔ (In x m × (is_flush x.op ≡ true))
unfolding flushes
in_module_flushes [] x = (λ h. elim h [ ], λ (h, _). elim h [ ])
in_module_flushes (f ∷ fs) x = (
  λ h. elim (append-Any (λ z. z ≡ x) (flushes_of f.blocks) (flushes fs) h) [
    | inl m ↦ let (here, flush) = (in_flushes_of f.blocks x).0 m in (inl here, flush)
    | inr m ↦ let (here, flush) = (in_module_flushes fs x).0 m in (inr here, flush)
  ],
  λ (h, flush).
      Any-append (λ z. z ≡ x) (flushes_of f.blocks) (flushes fs)
        (elim h [
          | inl m ↦ inl ((in_flushes_of f.blocks x).1 (m, flush))
          | inr m ↦ inr ((in_module_flushes fs x).1 (m, flush))
        ]),
)
