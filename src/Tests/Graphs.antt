-- ===== src/Tests/Graphs.antt =====
-- The graph between two stores with a call of a function between them (src/FlowAnalyzer.cpp).
use hippocrates.Base.{
  codes, ℕ, ◌<◌, ◌≡◌, refl, true, Option, none, some, List, [], ◌∷◌, text_eq, Outcome, ok, arith,
}
use hippocrates.Ir.{
  Inst, Value, Function, Block, Module, not_intrinsic, direct, call, ret, parent, find_block,
  has_inst, after, non_debug,
}
use hippocrates.PmDesc.{Anders, PmDesc, has}
use hippocrates.Generator.Remove.{inst_at, find_inst}
use hippocrates.Flow.{member}
use hippocrates.Graph.{
  FnContext, Contexts, create_context, allocate, do_call, with_pm, hand_back, Window,
  return_to_parent, returned, told, same_window, same_calls, scroll_down, create_window,
}
use hippocrates.Graph.Shape.{Run, create_window-Run}
use hippocrates.Graph.Stores.{frame_of}
use hippocrates.Graph.Returns.{return-do_call}
use hippocrates.Graph.Successors.{
  Graph, next_inst, entry_inst, points_after, behind_return, behind_call, node_at, add_node,
  nodes_for, construct_successors,
}
use hippocrates.Graph.Construct.{
  construct, visit, link_all, insert_node, not_constructed, rooted, leaves_are_ends, empty_graph,
}
use hippocrates.Graph.Construct.Links.{Wired}
use hippocrates.Graph.Construct.Wiring.{construct-Wired}
use hippocrates.Graph.Construct.Checked.{construct-leaves_are_ends}
use hippocrates.Tests.Samples.{value, inst, function_info, store_inst}

abbrev pub f : Function
f = record {
  info = function_info (codes "f") not_intrinsic;
  blocks = record { label = 2; insts = store_inst 30 ∷ inst 31 (ret none) ∷ [] } ∷ [];
}

abbrev pub calling : Module
calling =
    record {
      info = function_info (codes "main") not_intrinsic;
      blocks =
          record {
            label = 1;
            insts =
                store_inst 20
                ∷ inst 21 (call (direct f.info) [])
                ∷ store_inst 22
                ∷ inst 23 (ret none)
                ∷ [];
          }
          ∷ [];
    }
    ∷ f
    ∷ []

abbrev pub no_branches : Inst → Option (List ℕ)
no_branches i = none

abbrev pub alone : Contexts
alone =
    (create_context (record {
      count = 0;
      context =
          λ n. record { call_stack = []; parent = none; pm = record { locals = []; globals = [] } };
    })).1

abbrev from_store : Window
from_store = record { ctx = 0; first = 20; last = 21; trace_inst = 20 }

abbrev to_store : Window
to_store = record { ctx = 0; first = 22; last = 23; trace_inst = 22 }

abbrev pub itself : Anders
itself v = some (v ∷ [])

runs_to_call : create_window calling 0 20 20 ≡ ok from_store
unfolding create_window parent find_block has_inst after non_debug scroll_down
runs_to_call = refl

abbrev outcome : Outcome (Option Graph)
outcome = construct itself calling no_branches to_store 10 (0 ∷ []) (rooted alone from_store)

abbrev pub graph_of : Outcome (Option Graph) → Graph
graph_of (ok (some g)) = g
graph_of _ = empty_graph alone

abbrev built : Graph
built = graph_of outcome

-- The root, the function and the store behind the call, which is the end.
three_nodes : built.size ≡ 3
unfolding create_context allocate do_call rooted construct visit link_all insert_node
    not_constructed same_window same_calls scroll_down create_window return_to_parent returned told
    next_inst entry_inst points_after behind_return behind_call node_at add_node nodes_for
    construct_successors parent find_block has_inst after non_debug inst_at find_inst member text_eq
three_nodes = refl

one_leaf : built.leaves ≡ 2 ∷ []
unfolding create_context allocate do_call rooted construct visit link_all insert_node
    not_constructed same_window same_calls scroll_down create_window return_to_parent returned told
    next_inst entry_inst points_after behind_return behind_call node_at add_node nodes_for
    construct_successors parent find_block has_inst after non_debug inst_at find_inst member text_eq
one_leaf = refl

constructs : outcome ≡ ok (some built)
unfolding create_context allocate do_call rooted construct visit link_all insert_node
    not_constructed same_window same_calls scroll_down create_window return_to_parent returned told
    next_inst entry_inst points_after behind_return behind_call node_at add_node nodes_for
    construct_successors parent find_block has_inst after non_debug inst_at find_inst member text_eq
constructs = refl

construct-Wired_example : Wired built
construct-Wired_example =
    construct-Wired itself calling no_branches to_store 10 alone from_store built constructs

construct-leaves_are_ends_example : leaves_are_ends built to_store built.leaves ≡ true
unfolding create_context allocate
construct-leaves_are_ends_example =
    construct-leaves_are_ends itself calling no_branches to_store 10 alone from_store built
      (λ x p h e. ground (arith, e)) (omega arith) (omega arith) constructs

create_window-Run_example :
    (from_store.ctx ≡ 0)
    × (from_store.first ≡ 20)
    × (from_store.trace_inst ≡ 20)
    × ((f : Function) × (b : Block) × (parent calling 20 ≡ some (f, b))
        × Run 20 (non_debug (after 20 b.insts)) from_store.last)
create_window-Run_example = create_window-Run calling 0 20 20 from_store runs_to_call

-- The function that is called comes to know of a global.
abbrev learned : PmDesc
learned = record { locals = value 7 ∷ []; globals = value 8 ∷ [] }

abbrev with_local : Contexts
with_local = with_pm 0 (record { locals = value 5 ∷ []; globals = [] }) alone

abbrev returned_to : Contexts
returned_to = hand_back 0 1 (with_pm 1 learned (do_call 0 21 with_local).1)

comes_back :
    return_to_parent itself 1 none (with_pm 1 learned (do_call 0 21 with_local).1)
    ≡ ok (0, returned_to)
unfolding create_context allocate do_call return_to_parent returned
comes_back = refl

return-do_call_example :
    (◌≡◌ {A = ℕ} 0 0)
    × (frame_of (returned_to.context 0) ≡ frame_of (with_local.context 0))
    × (PmDesc.globals (FnContext.pm (returned_to.context 0)) ≡ learned.globals)
    × ((u : Value)
        → has u (PmDesc.locals (FnContext.pm (with_local.context 0))) ≡ true
        → has u (PmDesc.locals (FnContext.pm (returned_to.context 0))) ≡ true)
    × (◌≡◌ {A = Option Value} none none
        → PmDesc.locals (FnContext.pm (returned_to.context 0))
          ≡ PmDesc.locals (FnContext.pm (with_local.context 0)))
    × ((x : ℕ) → x < with_local.count → ¬ (x ≡ 0) → returned_to.context x ≡ with_local.context x)
unfolding create_context allocate do_call
return-do_call_example =
    return-do_call itself 0 21 with_local learned none (0, returned_to) (omega arith) comes_back
