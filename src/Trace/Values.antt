-- ===== src/Trace/Values.antt =====
-- `TraceEvent::pmValues` and `getGenericPmValues` (src/BugReports.cpp): the operands that point to the
-- persistent memory of an event.
pub mod Pointers
use hippocrates.Base.{
  ℕ, Bool, true, false, not, ◌&&◌, ◌||◌, Option, none, some, List, [], ◌∷◌, ◌++◌, ◌==◌, is_empty,
  if◌then◌else◌, Text, codes, text_eq, Outcome, ok, aborted, assert, ◌>>=◌, ◌>>◌,
}
use hippocrates.Ir.{
  Module, Inst, Op, Value, Sort, int_constant, FnInfo, Callee, direct, call, store, cmp_xchg,
  ptr_to_int, Intrinsic, memcpy, memset, memmove, parent, after, non_debug,
}
use hippocrates.FixLoc.{FixLoc, insts}
use hippocrates.Raise.{Mapper}
use hippocrates.Generator.Remove.{is_removable, inst_at, arg}
use hippocrates.Trace.{EventType, Source, TraceEvent, pmtest, generic, is_store, is_flush, unknown}
use hippocrates.Trace
use hippocrates.Trace.Build.{is_invalid}

-- The number of the request that tells Valgrind of a flush.
abbrev pub is_request : Sort → Bool
is_request (int_constant n) = n == 1346568197
is_request _ = false

-- The value of the first store of a list.
unfoldable pub next_stored : List Inst → Outcome Value
next_stored [] = aborted
next_stored (i ∷ is) = elim i.op [ store value ptr ↦ ok value | _ ↦ next_stored is ]

unfoldable pub behind_inst : Module → ℕ → Outcome (List Inst)
behind_inst m p = elim (parent m p) [
  | none ↦ aborted
  | some (f, b) ↦ ok (non_debug (after p b.insts))
]

abbrev pub cast_of : Option Inst → Value → Value
cast_of none v = v
cast_of (some i) v = elim i.op [ ptr_to_int ptr ↦ ptr | _ ↦ v ]

-- The pointer that was cast to the stored integer, and nothing where there is none.
unfoldable pub request_values : Module → Value → List Value
request_values m v =
    let w = if v.pointer then v else cast_of (inst_at m v.addr) v in
    if w.pointer then w ∷ [] else []

abbrev pub writes_memory : Callee → Bool
writes_memory (direct f) = elim f.intrinsic [
  | memcpy ↦ true
  | memset ↦ true
  | memmove ↦ true
  | _ ↦ false
]
writes_memory _ = false

unfoldable pub inst_values : Module → Inst → Outcome (List Value)
inst_values m i = elim i.op [
  | call f args ↦
      if writes_memory f || is_removable (call f args)
      then (arg args 0 >>= λ v. ok (v ∷ []))
      else ok []
  | store value ptr ↦
      if is_request value.sort
      then (do is ← behind_inst m i.id; v ← next_stored is; ok (request_values m v))
      else ok (ptr ∷ [])
  | cmp_xchg ptr compare value ↦ ok (ptr ∷ [])
  | _ ↦ ok []
]

unfoldable pub insts_values : Module → List Inst → Outcome (List Value)
insts_values m [] = ok []
insts_values m (i ∷ is) = do here ← inst_values m i; rest ← insts_values m is; ok (here ++ rest)

-- `getGenericPmValues`
unfoldable pub generic_values : Module → FixLoc → Outcome (List Value)
generic_values m fl = do is ← insts m fl; insts_values m is

-- The address in a call that traces a store or a flush.
abbrev pub traced_op : Op → Outcome (List Value)
traced_op (call (direct f) args) =
    assert (
      text_eq f.name (codes "C_createMetadata_Flush")
      || text_eq f.name (codes "C_createMetadata_Assign"))
    >> (arg args 1 >>= λ v. ok (v ∷ []))
traced_op _ = aborted

unfoldable pub traced_values : Module → FixLoc → Outcome (List Value)
traced_values m fl = elim (inst_at m fl.last) [ none ↦ aborted | some i ↦ traced_op i.op ]

unfoldable pub loc_values : Module → Source → FixLoc → Outcome (List Value)
loc_values m pmtest fl = traced_values m fl
loc_values m generic fl = generic_values m fl
loc_values m unknown fl = aborted

unfoldable pub locs_values : Module → Source → List FixLoc → Outcome (List Value)
locs_values m source [] = ok []
locs_values m source (l ∷ ls) = do
  here ← loc_values m source l
  rest ← locs_values m source ls
  ok (here ++ rest)

-- `pmValues`; a store or a flush must have a value.
unfoldable pub pm_values : Module → Mapper → TraceEvent → Outcome (List Value)
pm_values m mapper te = elim (mapper te.location) [
  | none ↦ ok []
  | some locs ↦
      if Trace.is_fence te.type || Trace.is_assertion te
      then ok []
      else assert (not (is_invalid te.type)) >> locs_values m te.source locs >>= λ vs.
          assert (not (is_empty vs)) >> ok vs
]
