-- ===== src/Graph/Rounds.antt =====
-- src/FlowAnalyzer.cpp: how many rounds the loop of `ContextGraph::construct` can need. A node is
-- constructed once. A context has a node for an instruction at most, and a call that is behind one of
-- them makes a context that stands in one call more, of those that the module has.
pub mod Sums
pub mod Members
pub mod Keyed
pub mod Drops
pub mod Round
pub mod Ends
use hippocrates.Base.{
  ℕ, zero, suc, ◌+◌, Bool, false, Option, none, some, List, [], ◌∷◌, ◌++◌, length, if◌then◌else◌,
}
use hippocrates.Ir.{Module, Block, Inst}
use hippocrates.Flow.{member}
use hippocrates.Graph.{FnContext, Contexts, Window}
use hippocrates.Graph.Moves.{width}
use hippocrates.Graph.Successors.{Graph, node_at}
use hippocrates.Graph.Construct.{rooted}

unfoldable pub insts_of_blocks : List Block → List Inst
insts_of_blocks [] = []
insts_of_blocks (b ∷ bs) = Block.insts b ++ insts_of_blocks bs

unfoldable pub all_insts : Module → List Inst
all_insts [] = []
all_insts (f ∷ fs) = insts_of_blocks f.blocks ++ all_insts fs

unfoldable pub ids : List Inst → List ℕ
ids [] = []
ids (i ∷ is) = i.id ∷ ids is

-- The successors of all instructions together.
unfoldable pub widest : (Inst → Option (List ℕ)) → List Inst → ℕ
widest succs [] = 0
widest succs (i ∷ is) = width (succs i) + widest succs is

-- The instructions that a call stack has not.
unfoldable pub free : List ℕ → List ℕ → ℕ
free [] stack = 0
free (p ∷ ps) stack = (if member p stack then 0 else 1) + free ps stack

abbrev pub times : ℕ → ℕ → ℕ
times zero x = 0
times (suc n) x = x + times n x

-- The rounds that one node can bring, in a context with `d` calls left: `k` for its successors, and
-- those of a context with one call less, which has `n` nodes at most.
abbrev pub weight : ℕ → ℕ → ℕ → ℕ
weight n k zero = suc k
weight n k (suc d) = suc (k + times n (weight n k d))

unfoldable pub row : (ℕ → ℕ) → List ℕ → ℕ
row f [] = 0
row f (p ∷ ps) = f p + row f ps

unfoldable pub total : (ℕ → ℕ → ℕ) → ℕ → List ℕ → ℕ
total f zero ps = 0
total f (suc k) ps = row (f k) ps + total f k ps

abbrev pub is_done : List ((ℕ × ℕ) × ℕ) → (ℕ → Bool) → ℕ → ℕ → Bool
is_done cache constructed c p = elim (node_at (c, p) cache) [
  | none ↦ false
  | some n ↦ constructed n
]

module _ (m : Module) (succs : Inst → Option (List ℕ)) where
  abbrev pub heavy : List ℕ → ℕ
  heavy stack =
      let all = all_insts m in weight (length (ids all)) (widest succs all) (free (ids all) stack)

  abbrev pub slot : Contexts → List ((ℕ × ℕ) × ℕ) → (ℕ → Bool) → ℕ → ℕ → ℕ
  slot cs cache constructed c p =
      if is_done cache constructed c p then 0 else heavy (FnContext.call_stack (cs.context c))

  -- What is left of all contexts, and of the root, which the cache does not have.
  unfoldable pub left_in : Graph → ℕ
  left_in g =
      (if Graph.constructed g 0
        then 0
        else heavy (FnContext.call_stack (Contexts.context g.contexts (Window.ctx (g.block 0)))))
      + total (slot g.contexts g.cache g.constructed) (Contexts.count g.contexts)
          (ids (all_insts m))

  abbrev pub rounds_left : List ℕ → Graph → ℕ
  rounds_left frontier g = length frontier + left_in g

  -- The fuel for the loop from a block.
  unfoldable pub rounds : Contexts → Window → ℕ
  rounds cs start = suc (rounds_left (0 ∷ []) (rooted cs start))
