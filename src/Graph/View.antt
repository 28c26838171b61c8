-- ===== src/Graph/View.antt =====
-- src/FlowAnalyzer.hpp: the constructor of `FlowAnalyzer`, which makes the graph between two events,
-- with the fuel that is counted in Rounds.antt, and the graph as the analysis reads it: a block has the values that its context knows by then.
pub mod Seats
pub mod Analysed
use hippocrates.Base.{ℕ, Option, none, some, List, Text, Outcome, ok, aborted, ◌>>=◌}
use hippocrates.Location.{LocationInfo}
use hippocrates.Ir.{Module, Inst}
use hippocrates.PmDesc.{Anders}
use hippocrates.Raise.{Mapper}
use hippocrates.Trace.{TraceEvent}
use hippocrates.Flow.{ContextBlock, ContextGraph}
use hippocrates.Graph.{FnContext, Contexts, first_context, Window}
use hippocrates.Graph.Locate.{locate}
use hippocrates.Graph.Successors.{Graph}
use hippocrates.Graph.Construct.{context_graph}
use hippocrates.Graph.Rounds.{rounds}

abbrev pub window_block : Contexts → Window → ContextBlock
window_block cs w = record {
  first = w.first;
  last = w.last;
  trace_inst = w.trace_inst;
  pm = FnContext.pm (cs.context w.ctx);
}

unfoldable pub view : Graph → ContextGraph
view g = record {
  size = g.size;
  block = λ n. window_block g.contexts (Graph.block g n);
  children = g.children;
  parents = g.parents;
  roots = g.roots;
  leaves = g.leaves;
}

abbrev pub no_contexts : Contexts
no_contexts = record { count = 0; context = λ n. first_context }

module _ (demangle : Text → Text) (anders : Anders) (m : Module) (mapper : Mapper)
    (insts_at : LocationInfo → Option (List ℕ)) (succs : Inst → Option (List ℕ)) where
  unfoldable pub graph_between : TraceEvent → TraceEvent → Outcome (Option Graph)
  graph_between start end = do
    s ← locate demangle anders m mapper insts_at start no_contexts
    e ← locate demangle anders m mapper insts_at end s.1.1
    context_graph anders m succs (rounds m succs e.1.1 s.0) e.1.1 s.0 e.0
