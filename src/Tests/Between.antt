-- ===== src/Tests/Between.antt =====
-- The graph between two events, one of them in a function that is called (src/FlowAnalyzer.cpp).
use hippocrates.Base.{
  codes, occurs_in, starts_with, pos, ℕ, ◌≡◌, refl, ◌⊎◌, Option, some, List, [], ◌∷◌, text_eq,
  Outcome, ok, aborted,
}
use hippocrates.Location.{LocationInfo, valid}
use hippocrates.Ir.{parent, find_block, has_inst, after, non_debug}
use hippocrates.PmDesc.{
  points_to_set, insert_all, insert, filtered, has, points_to_pm, add_known_pm_value,
}
use hippocrates.Generator.Remove.{inst_at, find_inst}
use hippocrates.Flow.{member, redundant_paths}
use hippocrates.Raise.{Mapper}
use hippocrates.Graph.{
  create_context, allocate, do_call, return_to_parent, returned, told, same_window, same_calls,
  scroll_down, create_window,
}
use hippocrates.Graph.Successors.{
  Graph, next_inst, entry_inst, points_after, behind_return, behind_call, node_at, add_node,
  nodes_for, construct_successors,
}
use hippocrates.Graph.Construct.{
  context_graph, construct, visit, link_all, insert_node, not_constructed, rooted, leaves_are_ends,
}
use hippocrates.Trace.{TraceEvent}
use hippocrates.Trace
use hippocrates.Graph.Locate.{
  locate, enter_stack, enter_frame, locate_in, locate_from, locate_at, call_of, entering_at,
  entering, may_enter, start_of, in_front, scroll_up, learn, name_at,
}
use hippocrates.Graph.Rounds.{
  rounds, left_in, row, total, all_insts, insts_of_blocks, ids, widest, free,
}
use hippocrates.Trace.Values.{
  pm_values, locs_values, loc_values, generic_values, insts_values, inst_values,
}
use hippocrates.FixLoc.{insts, insts_in, is_valid, walk_to, from, same_place}
use hippocrates.Location
use hippocrates.Tests.Flows.{clean}
use hippocrates.Graph.View.{graph_between, view}
use hippocrates.Graph.View.Analysed.{Ends, graph_between-Ends, graph_between-redundant_paths}
use hippocrates.Tests.Samples.{main_at, single, event}
use hippocrates.Tests.Graphs.{calling, no_branches, itself, graph_of}

-- Two events, one of them in the function that is called.
abbrev pub line_of : LocationInfo → ℕ
line_of li = elim li.line [ pos n ↦ n | _ ↦ 0 ]

abbrev pub by_line : Mapper
by_line li = some (single (line_of li) ∷ [])

abbrev at_line : LocationInfo → Option (List ℕ)
at_line li = some (line_of li ∷ [])

abbrev pub in_f : LocationInfo
in_f = record { function = codes "f"; file = codes "a.c"; line = pos 30 }

abbrev called_event : TraceEvent
called_event = record (event Trace.store [] 30) {
  location = in_f;
  callstack = in_f ∷ main_at 21 ∷ [];
}

graph_between-Ends_example : Ends (
    graph_between
      (λ n. n)
      itself
      calling
      by_line
      at_line
      no_branches
      (event Trace.store [] 20)
      called_event)
graph_between-Ends_example =
    graph_between-Ends (λ n. n) itself calling by_line at_line no_branches (event Trace.store [] 20)
      called_event

abbrev between : Outcome (Option Graph)
between =
    graph_between (λ n. n) itself calling by_line at_line no_branches (event Trace.store [] 20)
      called_event

makes_graph : between ≡ ok (some (graph_of between))
unfolding graph_between context_graph leaves_are_ends rounds left_in row total all_insts
    insts_of_blocks ids widest free locate enter_stack enter_frame locate_in locate_from locate_at
    call_of entering_at entering may_enter start_of in_front scroll_up learn name_at pm_values
    locs_values loc_values generic_values insts_values inst_values occurs_in starts_with insts
    insts_in is_valid walk_to from same_place Trace.is_assertion valid Location.eq points_to_pm
    add_known_pm_value points_to_set insert_all insert has filtered create_context allocate do_call
    rooted construct visit link_all insert_node not_constructed same_window same_calls scroll_down
    create_window return_to_parent returned told next_inst entry_inst points_after behind_return
    behind_call node_at add_node nodes_for construct_successors parent find_block has_inst after
    non_debug inst_at find_inst member text_eq
makes_graph = refl

graph_between-redundant_paths_example :
    (redundant_paths (view (graph_of between)) clean ≡ aborted)
    ⊎ ((points : List ℕ) × (redundant_paths (view (graph_of between)) clean ≡ ok (some points)))
graph_between-redundant_paths_example =
    graph_between-redundant_paths (λ n. n) itself calling by_line at_line no_branches
      (event Trace.store [] 20) called_event (graph_of between) clean makes_graph
