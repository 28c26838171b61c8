-- ===== src/Graph/Shape.antt =====
-- src/FlowAnalyzer.cpp: where the block that `ContextBlock::create` makes from an instruction ends.
use hippocrates.Base.{
  ℕ, ◌≡◌, refl, ap, subst, ◌⊎◌, inl, inr, true, false, some, List, [], ◌∷◌, ◌++◌, All, ok, arith,
  Bool-cases, Option-cases, ok_injective,
}
use hippocrates.Ir.{Module, Inst, Function, Block, parent, after, non_debug}
use hippocrates.Graph.{Window, enters, scroll_down, create_window}

abbrev pub Plain : Inst → Type 0
Plain i = enters i.op ≡ false

-- The block has all instructions behind its first one up to the first call of a function with a body,
-- or all of them where there is no such call.
abbrev pub Run : ℕ → List Inst → ℕ → Type 0
Run first is last =
    ((is ≡ []) × (last ≡ first))
    ⊎ ((front : List Inst) × (i : Inst) × (rest : List Inst) × (is ≡ front ++ (i ∷ rest))
        × All Plain front
        × (last ≡ i.id)
        × ((enters i.op ≡ true) ⊎ ((enters i.op ≡ false) × (rest ≡ []))))

scroll_down-Run : (p : ℕ) (is : List Inst) → Run p is (scroll_down p is)
unfolding scroll_down
scroll_down-Run p [] = inl (refl, refl)
scroll_down-Run p (i ∷ is) = elim (Bool-cases (enters i.op)) [
  | inl e ↦ inr ([], i, is, refl, tt, rw (scroll_down, e) refl, inl e)
  | inr e ↦ elim (scroll_down-Run i.id is) [
    | inl (none_left, same) ↦
        inr ([], i, is, refl, tt, rw (scroll_down, e) same, inr (e, none_left))
    | inr (front, j, rest, split, plain, at_j, stop) ↦
        inr (i ∷ front, j, rest, ap (λ x. i ∷ x) split, (e, plain), rw (scroll_down, e) at_j, stop)
  ]
]

-- A block that is made from an instruction starts there. It has the instructions behind it that are
-- no debug instructions, up to the first call of a function with a body, or to the end of the basic
-- block. Whether the first instruction is such a call makes no difference.
pub create_window-Run :
    (m : Module) (ctx first trace : ℕ) (w : Window)
    → create_window m ctx first trace ≡ ok w
    → (w.ctx ≡ ctx)
      × (w.first ≡ first)
      × (w.trace_inst ≡ trace)
      × ((f : Function) × (b : Block) × (parent m first ≡ some (f, b))
          × Run first (non_debug (after first b.insts)) w.last)
unfolding create_window
create_window-Run m ctx first trace w ran = elim (Option-cases (parent m first)) [
  | inl e ↦ absurd (ground (arith, rw (create_window, e) at ran))
  | inr ((f, b), e) ↦
      subst
        (λ (w : Window).
          (w.ctx ≡ ctx)
          × (w.first ≡ first)
          × (w.trace_inst ≡ trace)
          × ((f : Function) × (b : Block) × (parent m first ≡ some (f, b))
              × Run first (non_debug (after first b.insts)) w.last))
        (ok_injective (rw (create_window, e) at ran))
        (refl, refl, refl, (f, b, e, scroll_down-Run first (non_debug (after first b.insts))))
]
