-- ===== src/Generator/Present.antt =====
-- What a place in a module tells of the module (src/FixGenerator.cpp).
use hippocrates.Base.{
  some_injective, ℕ, ◌≡◌, ap, subst, inl, inr, true, some, List, [], ◌∷◌, arith, Any, Bool-cases,
  Option-cases, ok,
}
use hippocrates.Ir.{Module, Function, Block, find_block, parent, has_inst}
use hippocrates.Generator.{Debug, builder_at}

-- An address that stands in a block of the module.
abbrev pub Present : ℕ → Module → Type 0
Present p = Any (λ (f : Function). Any (λ (b : Block). has_inst p b.insts ≡ true) f.blocks)

block_present :
    (p : ℕ) (bs : List Block) (b : Block)
    → find_block p bs ≡ some b
    → Any (λ (c : Block). has_inst p c.insts ≡ true) bs × Any (λ c. c ≡ b) bs
unfolding find_block
block_present p [] b h = ground (arith, h)
block_present p (c ∷ bs) b h = elim (Bool-cases (has_inst p c.insts)) [
  | inl e ↦ (inl e, inl (some_injective (rw (find_block, e) at h)))
  | inr e ↦
      let (here, there) = block_present p bs b (rw (find_block, e) at h) in (inr here, inr there)
]

-- The function and the block that an instruction stands in are those of the module.
pub record Stands (p : ℕ) (m : Module) (f : Function) (b : Block) : Type 0 where
  pub present : Present p m
  pub function : Any (λ g. g ≡ f) m
  pub block : Any (λ c. c ≡ b) f.blocks

pub parent-Stands :
    (p : ℕ) (m : Module) (f : Function) (b : Block) → parent m p ≡ some (f, b) → Stands p m f b
unfolding parent
parent-Stands p [] f b h = ground (arith, h)
parent-Stands p (g ∷ m) f b h = elim (Option-cases (find_block p g.blocks)) [
  | inl e ↦
      let at = parent-Stands p m f b (rw (parent, e) at h) in
      record { present = inr at.present; function = inr at.function; block = at.block }
  | inr (c, e) ↦
      let (here, there) = block_present p g.blocks c e in
      let same : (g, c) ≡ (f, b) = some_injective (rw (parent, e) at h) in
      record {
        present = inl here;
        function = inl (ap (λ q. q.0) same);
        block =
            subst (λ (q : Function × Block). Any (λ d. d ≡ q.1) (Function.blocks q.0)) same there;
      }
]

pub builder_at-Present : (m : Module) (p : ℕ) (dbg : Debug) → builder_at m p ≡ ok dbg → Present p m
unfolding builder_at
builder_at-Present m p dbg h = elim (Option-cases (parent m p)) [
  | inl e ↦ ground (arith, rw (builder_at, e) at h)
  | inr (q, e) ↦ (parent-Stands p m q.0 q.1 e).present
]
