-- ===== src/Graph/Successors.antt =====
-- src/FlowAnalyzer.cpp: `ContextGraph::constructSuccessors`, the blocks that come behind one. What
-- `llvm::successors` gives for the block of a terminator is a parameter: the first instruction of each
-- that is no phi, debug or lifetime instruction, and `none` for an instruction that ends no block.
use hippocrates.Base.{
  ℕ, suc, Bool, true, false, Option, none, some, List, [], ◌∷◌, ◌&&◌, ◌==◌, if◌then◌else◌, text_eq,
  Text, Outcome, ok, aborted, ◌>>=◌, map,
}
use hippocrates.Ir.{
  Module, Block, Inst, Op, Value, FnInfo, called_function, parent, after, non_debug, ret, call,
}
use hippocrates.Generator.Remove.{inst_at}
use hippocrates.PmDesc.{Anders}
use hippocrates.Graph.{
  FnContext, Contexts, change, do_call, calls_back, caller, return_to_parent, Window, create_window,
}

-- `GraphNode` and `ContextGraph`: the nodes are the numbers below `size`. The cache has the node of a
-- context and a first instruction.
pub record Graph : Type 0 where
  pub contexts : Contexts
  pub size : ℕ
  pub block : ℕ → Window
  pub children : ℕ → List ℕ
  pub parents : ℕ → List ℕ
  pub constructed : ℕ → Bool
  pub cache : List ((ℕ × ℕ) × ℕ)
  pub roots : List ℕ
  pub leaves : List ℕ

-- `getNextNonDebugInstruction`, where it must give one.
abbrev pub first_of : List Inst → Outcome ℕ
first_of [] = aborted
first_of (i ∷ is) = ok i.id

unfoldable pub next_inst : Module → ℕ → Outcome ℕ
next_inst m p = elim (parent m p) [
  | none ↦ aborted
  | some (f, b) ↦ first_of (non_debug (after p b.insts))
]

abbrev pub entry_of : List Block → Outcome ℕ
entry_of [] = aborted
entry_of (b ∷ bs) = elim (Block.insts b) [ [] ↦ aborted | i ∷ is ↦ ok i.id ]

-- `f->getEntryBlock().front()`
unfoldable pub entry_inst : Module → Text → Outcome ℕ
entry_inst [] name = aborted
entry_inst (f ∷ fs) name =
    let rest = entry_inst fs name in if text_eq f.name name then entry_of f.blocks else rest

abbrev pub at_ctx : ℕ → List ℕ → List (ℕ × ℕ)
at_ctx ctx ps = map (λ p. (ctx, p)) ps

unfoldable pub node_at : ℕ × ℕ → List ((ℕ × ℕ) × ℕ) → Option ℕ
node_at (c, p) [] = none
node_at (c, p) (((d, q), n) ∷ es) =
    let rest = node_at (c, p) es in if (d == c) && (q == p) then some n else rest

-- A new node for a block.
unfoldable pub add_node : Window → Graph → Graph
add_node w g = record g {
  size = suc g.size;
  block = change g.size w g.block;
  children = change g.size [] g.children;
  parents = change g.size [] g.parents;
  constructed = change g.size false g.constructed;
}

abbrev pub remember : ℕ × ℕ → Window → Graph → Graph
remember key w g = record (add_node w g) { cache = (key, g.size) ∷ g.cache }

-- The node is constructed, whatever its successors are.
abbrev pub begin_at : ℕ → Contexts → Graph → Graph
begin_at n cs g = record g { contexts = cs; constructed = change n true (Graph.constructed g) }

module _ (anders : Anders) (m : Module) (succs : Inst → Option (List ℕ)) where
  -- Behind a return stands the instruction that follows the call, in the context of the caller.
  unfoldable pub behind_return : ℕ → Option Value → Contexts → Outcome (List (ℕ × ℕ) × Contexts)
  behind_return ctx v cs = elim (FnContext.parent (cs.context ctx)) [
    | none ↦ ok ([], cs)
    | some p ↦ do
      r ← return_to_parent anders ctx v cs
      cb ← caller (Contexts.context r.1 ctx)
      next ← next_inst m cb
      ok ((r.0, next) ∷ [], r.1)
  ]

  -- Behind a call stands the function; a call that the context stands in already is passed over.
  unfoldable pub behind_call : ℕ → ℕ → Option FnInfo → Contexts → Outcome (List (ℕ × ℕ) × Contexts)
  behind_call ctx cb none cs = aborted
  behind_call ctx cb (some f) cs =
      if calls_back (cs.context ctx) cb
      then (do next ← next_inst m cb; ok ((ctx, next) ∷ [], cs))
      else (do next ← entry_inst m f.name; let r = do_call ctx cb cs; ok ((r.0, next) ∷ [], r.1))

  abbrev pub behind_end : ℕ → Option (List ℕ) → Contexts → Outcome (List (ℕ × ℕ) × Contexts)
  behind_end ctx none cs = aborted
  behind_end ctx (some ps) cs = ok (at_ctx ctx ps, cs)

  -- The pairs of a context and an instruction behind the last instruction of a block.
  unfoldable pub points_after : ℕ → Inst → Op → Contexts → Outcome (List (ℕ × ℕ) × Contexts)
  points_after ctx last (ret v) cs = behind_return ctx v cs
  points_after ctx last (call callee args) cs =
      behind_call ctx last.id (called_function (call callee args)) cs
  points_after ctx last _ cs = behind_end ctx (succs last) cs

  abbrev pub points_behind : ℕ → Inst → Contexts → Outcome (List (ℕ × ℕ) × Contexts)
  points_behind ctx last cs = points_after ctx last last.op cs

  unfoldable pub nodes_for : List (ℕ × ℕ) → Graph → Outcome (List ℕ × Graph)
  nodes_for [] g = ok ([], g)
  nodes_for ((c, p) ∷ ps) g = elim (node_at (c, p) g.cache) [
    | some n ↦ nodes_for ps g >>= λ r. ok (n ∷ r.0, r.1)
    | none ↦ do
      w ← create_window m c p p
      r ← nodes_for ps (remember (c, p) w g)
      ok (g.size ∷ r.0, r.1)
  ]

  unfoldable pub construct_successors : ℕ → Graph → Outcome (List ℕ × Graph)
  construct_successors n g = elim (inst_at m (Window.last (g.block n))) [
    | none ↦ aborted
    | some last ↦ do
      r ← points_behind (Window.ctx (g.block n)) last g.contexts
      nodes_for r.0 (begin_at n r.1 g)
  ]
