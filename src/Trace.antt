-- ===== src/Trace.antt =====
-- src/BugReports.hpp and src/BugReports.cpp: `TraceEvent` and `TraceInfo`.
pub mod Build
pub mod Bugs
pub mod Resolve
pub mod Values
use hippocrates.Base.{
  ℕ, ◌+◌, Bool, true, false, not, ◌&&◌, ◌||◌, Option, none, some, List, [], ◌∷◌, ◌++◌, map, length,
  get_elem?, leb, ◌==◌, if◌then◌else◌, Text, text_eq, codes, Outcome, ok, aborted, int_eq, ltb,
}
use hippocrates.Address.{AddressInfo}
use hippocrates.Location.{LocationInfo}

pub data EventType : Type 0 where
  invalid store flush fence assert_persisted assert_ordered required_flush : EventType

-- Which bug finder a trace came from.
pub data Source : Type 0 where
  unknown pmtest generic : Source

pub record TraceEvent : Type 0 where
  pub source : Source
  pub type : EventType
  pub timestamp : ℕ
  pub addresses : List AddressInfo
  pub location : LocationInfo
  pub is_bug : Bool
  pub callstack : List LocationInfo
  pub type_string : Text

-- `std::tolower` in the C locale.
unfoldable pub to_lower : ℕ → ℕ
to_lower c = if leb b'A' c && leb c b'Z' then c + 32 else c

unfoldable pub get_type : Text → EventType
unfolding to_lower text_eq
get_type type_string =
    let s = map to_lower type_string in
    if text_eq s (codes "store")
    then store
    else if text_eq s (codes "flush")
    then flush
    else if text_eq s (codes "fence")
    then fence
    else if text_eq s (codes "assert_persisted")
    then assert_persisted
    else if text_eq s (codes "assert_ordered")
    then assert_ordered
    else if text_eq s (codes "required_flush")
    then required_flush
    else invalid

abbrev pub is_store : EventType → Bool
is_store store = true
is_store _ = false

abbrev pub is_flush : EventType → Bool
is_flush flush = true
is_flush _ = false

abbrev pub is_fence : EventType → Bool
is_fence fence = true
is_fence _ = false

-- `isOperation` and `isAssertion`.
unfoldable pub is_operation : TraceEvent → Bool
is_operation e = is_store e.type || is_flush e.type || is_fence e.type

unfoldable pub is_assertion : TraceEvent → Bool
is_assertion e = elim e.type [
  | assert_persisted ↦ true
  | assert_ordered ↦ true
  | required_flush ↦ true
  | _ ↦ false
]

-- Two frames are alike; the line of the innermost frame does not count.
unfoldable pub frames_equal : Bool → LocationInfo → LocationInfo → Bool
frames_equal innermost a b =
    if not (text_eq a.function b.function)
    then false
    else if not (text_eq a.file b.file)
    then false
    else innermost || int_eq a.line b.line

unfoldable pub stacks_equal : Bool → List LocationInfo → List LocationInfo → Bool
stacks_equal innermost [] [] = true
stacks_equal innermost [] (b ∷ bs) = false
stacks_equal innermost (a ∷ as') [] = false
stacks_equal innermost (a ∷ as') (b ∷ bs) = frames_equal innermost a b && stacks_equal false as' bs

-- `callStacksEqual`: lists of different lengths differ, as the guard in front of the loop says.
unfoldable pub call_stacks_equal : TraceEvent → TraceEvent → Bool
call_stacks_equal a b =
    if not (length a.callstack == length b.callstack)
    then false
    else stacks_equal true a.callstack b.callstack

pub record TraceInfo : Type 0 where
  pub bugs : List ℕ
  pub events : List TraceEvent
  pub source : Source

-- The constructor reads the source from the metadata.
unfoldable pub new_trace : Text → TraceInfo
unfolding text_eq
new_trace bug_report_src = record {
  bugs = [];
  events = [];
  source =
      if text_eq (codes "PMTEST") bug_report_src
      then pmtest
      else if text_eq (codes "GENERIC") bug_report_src
      then generic
      else unknown;
}

-- `addEvent`
unfoldable pub add_event : TraceInfo → TraceEvent → TraceInfo
add_event ti e = record ti {
  bugs = if e.is_bug then ti.bugs ++ length ti.events ∷ [] else ti.bugs;
  events = ti.events ++ e ∷ [];
}

-- `operator[]`; an index out of range is undefined in the source.
unfoldable pub event_at : List TraceEvent → ℕ → Outcome TraceEvent
event_at events i = elim (get_elem? events i) [ none ↦ aborted | some e ↦ ok e ]
