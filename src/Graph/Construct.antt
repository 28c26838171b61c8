-- ===== src/Graph/Construct.antt =====
-- src/FlowAnalyzer.cpp: `ContextGraph::construct`, and the constructor from the blocks of the two
-- events. The loop runs on fuel, and `none` is that it has run out.
pub mod Rules
pub mod Links
pub mod Wiring
pub mod Extends
pub mod Leaves
pub mod Checked
use hippocrates.Base.{
  ℕ, zero, suc, Bool, true, false, not, ◌&&◌, ◌||◌, Option, none, some, List, [], ◌∷◌, ◌++◌,
  is_empty, if◌then◌else◌, Outcome, ok, aborted, assert, ◌>>=◌, ◌>>◌,
}
use hippocrates.Ir.{Module, Inst}
use hippocrates.PmDesc.{Anders}
use hippocrates.Flow.{member}
use hippocrates.Graph.{Contexts, change, Window, same_window}
use hippocrates.Graph.Successors.{Graph, add_node, construct_successors}

-- `unordered_set::insert` on nodes.
unfoldable pub insert_node : ℕ → List ℕ → List ℕ
insert_node n ns = if member n ns then ns else n ∷ ns

abbrev pub insert_at : ℕ → ℕ → (ℕ → List ℕ) → ℕ → List ℕ
insert_at n x f = change n (insert_node x (f n)) f

-- Parent and child are told of each other; a child not yet constructed is put behind the frontier.
abbrev pub link : ℕ → ℕ → Graph → Graph
link n c g = record g { children = insert_at n c g.children; parents = insert_at c n g.parents }

unfoldable pub link_all : ℕ → List ℕ → Graph → Graph
link_all n [] g = g
link_all n (c ∷ cs) g = link_all n cs (link n c g)

unfoldable pub not_constructed : Graph → List ℕ → List ℕ
not_constructed g [] = []
not_constructed g (c ∷ cs) =
    let rest = not_constructed g cs in if Graph.constructed g c then rest else c ∷ rest

abbrev pub add_leaf : ℕ → Graph → Graph
add_leaf n g = record g { leaves = Graph.leaves g ++ (n ∷ []) }

-- `isTerminator`
abbrev pub is_terminator : Graph → ℕ → Bool
is_terminator g n = is_empty (g.children n) && g.constructed n

abbrev pub settle_at : ℕ → Graph → Graph
settle_at n g = if is_terminator g n then add_leaf n g else g

-- The node whose block is the end: it has the place of the trace from there on.
abbrev pub end_at : ℕ → Window → Graph → Graph
end_at n end g = record g {
  constructed = change n true (Graph.constructed g);
  block =
      change n (record (Graph.block g n) { trace_inst = Window.trace_inst end }) (Graph.block g);
}

module _ (anders : Anders) (m : Module) (succs : Inst → Option (List ℕ)) (end : Window) where
  -- One round of the loop, with the nodes that are put behind the frontier.
  unfoldable pub visit : ℕ → Graph → Outcome (List ℕ × Graph)
  visit n g =
      if g.constructed n
      then ok ([], g)
      else if same_window g.contexts (g.block n) end
      then ok ([], add_leaf n (end_at n end g))
      else (do
        r ← construct_successors anders m succs n g
        let linked = link_all n r.0 r.1
        ok (not_constructed linked r.0, settle_at n linked))

  unfoldable pub construct : ℕ → List ℕ → Graph → Outcome (Option Graph)
  construct zero frontier g = ok none
  construct (suc k) [] g = ok (some g)
  construct (suc k) (n ∷ ns) g = visit n g >>= λ r. construct k (ns ++ r.0) r.1

-- The last check of the constructor.
unfoldable pub leaves_are_ends : Graph → Window → List ℕ → Bool
leaves_are_ends g end [] = true
leaves_are_ends g end (n ∷ ns) =
    (same_window g.contexts (g.block n) end || is_terminator g n) && leaves_are_ends g end ns

abbrev pub empty_graph : Contexts → Graph
empty_graph cs = record {
  contexts = cs;
  size = 0;
  block = λ x. record { ctx = 0; first = 0; last = 0; trace_inst = 0 };
  children = λ x. [];
  parents = λ x. [];
  constructed = λ x. false;
  cache = [];
  roots = [];
  leaves = [];
}

unfoldable pub rooted : Contexts → Window → Graph
unfolding add_node
rooted cs start = record (add_node start (empty_graph cs)) { roots = 0 ∷ [] }

-- The graph between two blocks in the contexts made for them.
unfoldable pub context_graph :
    Anders
    → Module
    → (Inst → Option (List ℕ))
    → ℕ
    → Contexts
    → Window
    → Window
    → Outcome (Option Graph)
context_graph anders m succs fuel cs start end = do
  done ← construct anders m succs end fuel (0 ∷ []) (rooted cs start)
  elim done [
    | none ↦ ok none
    | some g ↦
        assert (not (is_empty (Graph.leaves g)))
        >> (assert (leaves_are_ends g end g.leaves) >> ok (some g))
  ]
