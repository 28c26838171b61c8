-- ===== src/Graph/Rounds/Members.antt =====
-- An instruction that is found in a module is one of all its instructions.
use hippocrates.Base.{
  Any-map, ℕ, ◌+◌, ◌≤◌, ◌≡◌, ap, subst, inl, inr, true, Option, some, List, [], ◌∷◌, ◌++◌, ◌==◌,
  ==_iff, Any, Any-append, arith, Bool-cases, Option-cases, some_injective, taken, not_taken,
}
use hippocrates.Ir.{Module, Inst, Block, Function, has_inst, find_block, parent}
use hippocrates.Generator.Remove.{inst_at, find_inst}
use hippocrates.Flow.Walk.{Has}
use hippocrates.Graph.Moves.{width}
use hippocrates.Graph.Rounds.{insts_of_blocks, all_insts, ids, widest}

find_block-Any :
    (P : Inst → Type 0) (p : ℕ) (bs : List Block) (b : Block)
    → find_block p bs ≡ some b
    → (has_inst p b.insts ≡ true) × (Any P b.insts → Any P (insts_of_blocks bs))
unfolding find_block insts_of_blocks
find_block-Any P p [] b e = ground (arith, e)
find_block-Any P p (c ∷ cs) b e = elim (Bool-cases (has_inst p c.insts)) [
  | inl h ↦
      let same : c ≡ b = some_injective (taken _ _ _ _ h e) in
      subst
        (λ (z : Block).
          (has_inst p z.insts ≡ true) × (Any P z.insts → Any P (c.insts ++ insts_of_blocks cs)))
        same (h, λ k. Any-append P c.insts (insts_of_blocks cs) (inl k))
  | inr h ↦
      let (there, up) = find_block-Any P p cs b (not_taken _ _ _ _ h e) in
      (there, λ k. Any-append P c.insts (insts_of_blocks cs) (inr (up k)))
]

parent-Any :
    (P : Inst → Type 0) (m : Module) (p : ℕ) (f : Function) (b : Block)
    → parent m p ≡ some (f, b)
    → (has_inst p b.insts ≡ true) × (Any P b.insts → Any P (all_insts m))
unfolding parent all_insts
parent-Any P [] p f b e = ground (arith, e)
parent-Any P (g ∷ gs) p f b e = elim (Option-cases (find_block p g.blocks)) [
  | inl h ↦
      let (there, up) = parent-Any P gs p f b (rw (parent, h) at e) in
      (there, λ k. Any-append P (insts_of_blocks g.blocks) (all_insts gs) (inr (up k)))
  | inr (c, h) ↦
      let (there, up) = find_block-Any P p g.blocks c h in
      let same : c ≡ b =
        ap (λ (t : Function × Block). t.1) (some_injective (rw (parent, h) at e)) in
      subst
        (λ (z : Block).
          (has_inst p z.insts ≡ true)
          × (Any P z.insts → Any P (insts_of_blocks g.blocks ++ all_insts gs)))
        same (there, λ k. Any-append P (insts_of_blocks g.blocks) (all_insts gs) (inl (up k)))
]

has_inst-Any : (p : ℕ) (is : List Inst) → has_inst p is ≡ true → Any (λ (i : Inst). i.id ≡ p) is
unfolding has_inst
has_inst-Any p [] h = ground (arith, h)
has_inst-Any p (i ∷ is) h = elim (Bool-cases (i.id == p)) [
  | inl e ↦ inl ((==_iff i.id p).0 e)
  | inr e ↦ inr (has_inst-Any p is (not_taken _ _ _ _ e h))
]

ids-Has : (p : ℕ) (is : List Inst) → Any (λ (i : Inst). i.id ≡ p) is → Has p (ids is)
unfolding ids
ids-Has p [] h = absurd h
ids-Has p (i ∷ is) (inl e) = inl e
ids-Has p (i ∷ is) (inr h) = inr (ids-Has p is h)

-- An instruction that stands in a block is one of the module.
pub parent-Has :
    (m : Module) (p : ℕ) (f : Function) (b : Block)
    → parent m p ≡ some (f, b)
    → Has p (ids (all_insts m))
parent-Has m p f b e =
    let (there, up) = parent-Any (λ (i : Inst). i.id ≡ p) m p f b e in
    ids-Has p (all_insts m) (up (has_inst-Any p b.insts there))

find_inst-Any :
    (p : ℕ) (is : List Inst) (i : Inst) → find_inst p is ≡ some i → Any (λ (j : Inst). j ≡ i) is
unfolding find_inst
find_inst-Any p [] i e = ground (arith, e)
find_inst-Any p (j ∷ js) i e = elim (Bool-cases (j.id == p)) [
  | inl h ↦ inl (some_injective (taken _ _ _ _ h e))
  | inr h ↦ inr (find_inst-Any p js i (not_taken _ _ _ _ h e))
]

inst_at-Any :
    (m : Module) (p : ℕ) (i : Inst) → inst_at m p ≡ some i → Any (λ (j : Inst). j ≡ i) (all_insts m)
unfolding inst_at
inst_at-Any m p i e = elim (Option-cases (parent m p)) [
  | inl h ↦ absurd (ground (arith, rw (inst_at, h) at e))
  | inr ((f, b), h) ↦
      let (there, up) = parent-Any (λ (j : Inst). j ≡ i) m p f b h in
      up (find_inst-Any p b.insts i (rw (inst_at, h) at e))
]

pub inst_at-Has :
    (m : Module) (p : ℕ) (i : Inst) → inst_at m p ≡ some i → Has i.id (ids (all_insts m))
inst_at-Has m p i e =
    ids-Has i.id (all_insts m)
      (Any-map (all_insts m) (λ j same. ap Inst.id same) (inst_at-Any m p i e))

widest-Any :
    (succs : Inst → Option (List ℕ)) (is : List Inst) (i : Inst)
    → Any (λ (j : Inst). j ≡ i) is
    → width (succs i) ≤ widest succs is
unfolding widest
widest-Any succs [] i h = absurd h
widest-Any succs (j ∷ js) i (inl same) =
    subst (λ (z : Inst). width (succs z) ≤ width (succs j) + widest succs js) same (omega arith)
widest-Any succs (j ∷ js) i (inr h) = let rest = widest-Any succs js i h in omega (arith, rest)

pub inst_at-width :
    (m : Module) (succs : Inst → Option (List ℕ)) (p : ℕ) (i : Inst)
    → inst_at m p ≡ some i
    → width (succs i) ≤ widest succs (all_insts m)
inst_at-width m succs p i e = widest-Any succs (all_insts m) i (inst_at-Any m p i e)
