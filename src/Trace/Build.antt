-- ===== src/Trace/Build.antt =====
-- `TraceInfoBuilder::processEvent` and the events of `build` (src/BugReports.cpp). What yaml-cpp
-- returns for a node is data: `none` stands for a field whose conversion throws.
use hippocrates.Base.{
  ℕ, Bool, true, false, not, Option, none, some, List, [], ◌∷◌, length, Text, Outcome, ok, aborted,
  assert, ◌>>=◌, ◌>>◌, ℤ,
}
use hippocrates.Address.{AddressInfo}
use hippocrates.Location.{LocationInfo}
use hippocrates.Location
use hippocrates.Trace.{
  EventType, invalid, store, flush, assert_persisted, assert_ordered, required_flush, Source,
  TraceEvent, TraceInfo, get_type, add_event,
}

pub record YamlFrame : Type 0 where
  pub function : Option Text
  pub file : Option Text
  pub line : Option ℤ

-- `stack` is `none` where it is no sequence.
pub record YamlEvent : Type 0 where
  pub event : Option Text
  pub timestamp : Option ℕ
  pub frame : YamlFrame
  pub is_bug : Option Bool
  pub stack : Option (List YamlFrame)
  pub address : Option ℕ
  pub length : Option ℕ
  pub address_a : Option ℕ
  pub length_a : Option ℕ
  pub address_b : Option ℕ
  pub length_b : Option ℕ

-- `as<T>()`
abbrev pub read {ℓ} : {A : Type ℓ} → Option A → Outcome A
read none = aborted
read (some a) = ok a

unfoldable pub read_frame : YamlFrame → Outcome LocationInfo
read_frame y = do
  function ← read y.function
  file ← read y.file
  line ← read y.line
  ok (record { function = function; file = file; line = line })

unfoldable pub read_stack : List YamlFrame → Outcome (List LocationInfo)
unfolding read_frame
read_stack [] = ok []
read_stack (y ∷ ys) = do li ← read_frame y; rest ← read_stack ys; ok (li ∷ rest)

unfoldable pub read_address : Option ℕ → Option ℕ → Outcome AddressInfo
read_address a l = do
  address ← read a
  length ← read l
  ok (record { address = address; length = length })

-- The `switch` on the type.
unfoldable pub read_addresses : EventType → YamlEvent → Outcome (List AddressInfo)
unfolding read_address
read_addresses store y = do a ← read_address y.address y.length; ok (a ∷ [])
read_addresses flush y = do a ← read_address y.address y.length; ok (a ∷ [])
read_addresses assert_persisted y = do a ← read_address y.address y.length; ok (a ∷ [])
read_addresses required_flush y = do a ← read_address y.address y.length; ok (a ∷ [])
read_addresses assert_ordered y = do
  a ← read_address y.address_a y.length_a
  b ← read_address y.address_b y.length_b
  ok (a ∷ b ∷ [])
read_addresses _ y = ok []

abbrev pub is_invalid : EventType → Bool
is_invalid invalid = true
is_invalid _ = false

-- `callstack[0] == location`; an empty stack has no frame 0.
unfoldable pub starts_at : List LocationInfo → LocationInfo → Bool
unfolding Location.eq
starts_at [] li = false
starts_at (l ∷ ls) li = Location.eq l li

unfoldable pub read_event : Source → YamlEvent → Outcome TraceEvent
unfolding get_type read_frame read_stack read_addresses starts_at
read_event source y = do
  type_string ← read y.event
  assert (not (is_invalid (get_type type_string)))
  timestamp ← read y.timestamp
  location ← read_frame y.frame
  is_bug ← read y.is_bug
  frames ← read y.stack
  callstack ← read_stack frames
  addresses ← read_addresses (get_type type_string) y
  assert (starts_at callstack location)
  ok (record {
    source = source;
    type = get_type type_string;
    timestamp = timestamp;
    addresses = addresses;
    location = location;
    is_bug = is_bug;
    callstack = callstack;
    type_string = type_string;
  })

-- `processEvent`
unfoldable pub process_event : TraceInfo → YamlEvent → Outcome TraceInfo
unfolding read_event add_event
process_event ti y = do e ← read_event ti.source y; ok (add_event ti e)

-- The first loop of `build`.
unfoldable pub process_events : TraceInfo → List YamlEvent → Outcome TraceInfo
unfolding process_event
process_events ti [] = ok ti
process_events ti (y ∷ ys) = do ti' ← process_event ti y; process_events ti' ys
