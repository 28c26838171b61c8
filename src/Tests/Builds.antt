-- ===== src/Tests/Builds.antt =====
-- A trace that is built from its nodes (src/BugReports.cpp, `TraceInfoBuilder`).
use hippocrates.Base.{
  ◌≡◌, refl, ◌+◌, true, false, none, some, List, [], ◌∷◌, length, codes, pos, ok, text_eq,
  occurs_in,
}
use hippocrates.Location
use hippocrates.Trace.{
  TraceInfo, TraceEvent, new_trace, get_type, to_lower, add_event, generic, fence,
}
use hippocrates.Trace.Build.{
  YamlFrame, YamlEvent, read_frame, read_stack, read_addresses, starts_at, read_event,
  process_event, process_events,
}
use hippocrates.Trace.Bugs.{bug_indices, process_events-bugs}

abbrev frame : YamlFrame
frame = record { function = some (codes "main"); file = some (codes "a.c"); line = some (pos 10) }

abbrev fence_node : YamlEvent
fence_node = record {
  event = some (codes "FENCE");
  timestamp = some 1;
  frame = frame;
  is_bug = some false;
  stack = some (frame ∷ []);
  address = none;
  length = none;
  address_a = none;
  length_a = none;
  address_b = none;
  length_b = none;
}

abbrev nodes : List YamlEvent
nodes = fence_node ∷ (record fence_node { is_bug = some true }) ∷ []

abbrev fence_event : TraceEvent
fence_event = record {
  source = generic;
  type = fence;
  timestamp = 1;
  addresses = [];
  location = record { function = codes "main"; file = codes "a.c"; line = pos 10 };
  is_bug = false;
  callstack = (record { function = codes "main"; file = codes "a.c"; line = pos 10 }) ∷ [];
  type_string = codes "FENCE";
}

abbrev built : TraceInfo
built = record {
  bugs = 1 ∷ [];
  events = fence_event ∷ (record fence_event { is_bug = true }) ∷ [];
  source = generic;
}

builds : process_events (new_trace (codes "GENERIC")) nodes ≡ ok built
unfolding process_events process_event read_event read_frame read_stack read_addresses starts_at
    new_trace get_type to_lower add_event text_eq occurs_in Location.eq
builds = refl

process_events-bugs_example :
    (built.bugs ≡ bug_indices 0 built.events)
    × (length built.events ≡ length (new_trace (codes "GENERIC")).events + length nodes)
    × (built.source ≡ (new_trace (codes "GENERIC")).source)
unfolding new_trace
process_events-bugs_example =
    process_events-bugs (new_trace (codes "GENERIC")) built nodes refl builds
