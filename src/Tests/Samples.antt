-- ===== src/Tests/Samples.antt =====
-- A small module, a trace of it and its fix map.
use hippocrates.Base.{ℕ, true, false, none, some, List, [], ◌∷◌, codes, pos, Text}
use hippocrates.Address.{AddressInfo}
use hippocrates.Location.{LocationInfo}
use hippocrates.Ir.{
  Intrinsic, FnInfo, Value, Op, Inst, Block, Function, Module, not_intrinsic, clwb, other_value,
  direct, store, call, ret,
}
use hippocrates.FixLoc.{FixLoc}
use hippocrates.Fix.{FixType, FixDesc, fix_desc}
use hippocrates.Trace.{TraceEvent, EventType, generic}

abbrev pub main_at : ℕ → LocationInfo
main_at n = record { function = codes "main"; file = codes "a.c"; line = pos n }

abbrev pub value : ℕ → Value
value n = record {
  addr = n;
  pointer = true;
  vector = false;
  bytes = true;
  bits = 0;
  sort = other_value;
}

abbrev pub function_info : Text → Intrinsic → FnInfo
function_info name i = record { name = name; intrinsic = i; declaration = false }

abbrev pub inst : ℕ → Op → Inst
inst n op = record {
  id = n;
  op = op;
  is_debug = false;
  nontemporal = false;
  dbg = some (codes "a.c", n);
}

abbrev pub store_inst : ℕ → Inst
store_inst n = inst n (store (value 1) (value 2))

abbrev pub flush_inst : ℕ → Inst
flush_inst n = inst n (call (direct (function_info (codes "llvm.x86.clwb") clwb)) (value 2 ∷ []))

abbrev pub block : Block
block = record {
  label = 1;
  insts = store_inst 10 ∷ flush_inst 11 ∷ store_inst 12 ∷ inst 13 (ret none) ∷ [];
}

abbrev pub main : Function
main = record { info = function_info (codes "main") not_intrinsic; blocks = block ∷ [] }

abbrev pub program : Module
program = main ∷ []

abbrev pub single : ℕ → FixLoc
single n = record { first = n; last = n; dbg_loc = main_at n }

abbrev pub desc : FixType → FixDesc
desc t = fix_desc t (main_at 10 ∷ []) 0

abbrev pub event : EventType → List AddressInfo → ℕ → TraceEvent
event t addresses n = record {
  source = generic;
  type = t;
  timestamp = n;
  addresses = addresses;
  location = main_at n;
  is_bug = false;
  callstack = main_at n ∷ [];
  type_string = [];
}
