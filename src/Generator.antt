-- ===== src/Generator.antt =====
-- src/FixGenerator.cpp: `GenericFixGenerator::insertFlush` and `insertFence`. The state is the module
-- and an address that is above those of its instructions, which the next new one gets.
pub mod Clone
pub mod SubProgram
pub mod Remove
pub mod Behind
pub mod Present
pub mod Members
pub mod Insert
pub mod Calls
pub mod Flushes
pub mod Ranges
pub mod Copies
pub mod Names
pub mod Raises
pub mod Frames
pub mod Replacements
pub mod Raised
pub mod Generic
pub mod Keeps
pub mod Stores
use hippocrates.Base.{
  ℕ, ◌+◌, Bool, true, false, Option, none, some, List, [], ◌∷◌, ◌++◌, is_empty, ◌==◌, if◌then◌else◌,
  Text, codes, Outcome, ok, aborted, ◌>>=◌, ◌>>◌,
}
use hippocrates.Ir.{
  Module, Function, Block, Inst, Op, Value, FnInfo, store, cmp_xchg, call, direct, cast, clwb,
  sfence, other_value, parent, after, rewrite_module,
}
use hippocrates.FixLoc.{FixLoc, insts}

pub record Program : Type 0 where
  pub m : Module
  pub next : ℕ

-- `getClwbDefinition` and `getSfenceDefinition`
abbrev pub clwb_function : FnInfo
clwb_function = record { name = codes "llvm.x86.clwb"; intrinsic = clwb; declaration = true }

abbrev pub sfence_function : FnInfo
sfence_function = record {
  name = codes "llvm.x86.sse.sfence";
  intrinsic = sfence;
  declaration = true;
}

abbrev pub Debug : Type 0
Debug = Option (Text × ℕ)

abbrev pub new_inst : ℕ → Op → Debug → Inst
new_inst n op dbg = record { id = n; op = op; is_debug = false; nontemporal = false; dbg = dbg }

abbrev pub byte_pointer : ℕ → Value
byte_pointer n = record {
  addr = n;
  pointer = true;
  vector = false;
  bytes = true;
  bits = 0;
  sort = other_value;
}

-- New instructions behind an instruction.
abbrev pub put : ℕ → List Inst → Module → Module
put p new = rewrite_module (λ i. i) (λ i. if i.id == p then new else [])

-- A builder in front of the next instruction takes the debug location from that one. Where nothing
-- follows, there is no place for a builder.
unfoldable pub builder_at : Module → ℕ → Outcome Debug
builder_at m p = elim (parent m p) [
  | none ↦ aborted
  | some (f, b) ↦ elim (after p b.insts) [ [] ↦ aborted | next ∷ rest ↦ ok next.dbg ]
]

-- The pointer that an instruction writes to.
abbrev pub written : Op → Option Value
written (store value ptr) = some ptr
written (cmp_xchg ptr compare value) = some ptr
written _ = none

-- The flush of an address: a `clwb`, behind a cast if the type asks for one.
abbrev pub flush_insts : Value → ℕ → Debug → List Inst
flush_insts ptr n dbg =
    if ptr.bytes
    then new_inst n (call (direct clwb_function) (ptr ∷ [])) dbg ∷ []
    else new_inst (n + 1) (cast ptr) dbg
      ∷ new_inst n (call (direct clwb_function) (byte_pointer (n + 1) ∷ [])) dbg
      ∷ []

unfoldable pub insert_flush_at : ℕ → Value → Program → Outcome (ℕ × Program)
insert_flush_at p ptr s = do
  dbg ← builder_at s.m p
  ok (s.next, record { m = put p (flush_insts ptr s.next dbg) s.m; next = s.next + 2 })

-- The loop of `insertFlush`, with the last flush so far.
unfoldable pub insert_flushes : List Inst → Option ℕ → Program → Outcome (Option ℕ × Program)
insert_flushes [] last s = ok (last, s)
insert_flushes (i ∷ is) last s = elim (written i.op) [
  | none ↦ insert_flushes is last s
  | some ptr ↦ insert_flush_at i.id ptr s >>= λ r. insert_flushes is (some r.0) r.1
]

unfoldable pub insert_flush : FixLoc → Program → Outcome (Option ℕ × Program)
insert_flush fl s = do is ← insts s.m fl; insert_flushes is none s

unfoldable pub insert_fence : FixLoc → Program → Outcome (Option ℕ × Program)
insert_fence fl s = do
  dbg ← builder_at s.m fl.last
  ok (
    some s.next,
    record {
      m = put fl.last (new_inst s.next (call (direct sfence_function) []) dbg ∷ []) s.m;
      next = s.next + 1;
    },
  )
