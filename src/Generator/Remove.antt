-- ===== src/Generator/Remove.antt =====
-- src/FixGenerator.cpp: `GenericFixGenerator::removeFlush`, and `PMTestFixGenerator`, which also calls
-- the functions that trace what it does.
use hippocrates.Base.{
  ℕ, ◌+◌, Bool, true, false, not, ◌&&◌, Option, none, some, List, [], ◌∷◌, ◌++◌, ◌==◌,
  if◌then◌else◌, get_elem?, Text, codes, text_eq, Outcome, ok, aborted, assert, ◌>>=◌, ◌>>◌,
}
use hippocrates.Ir.{
  Module, Function, Block, Inst, Op, Value, FnInfo, call, direct, inline_asm, clwb, called_function,
  is_store, parent, Intrinsic,
}
use hippocrates.FixLoc.{FixLoc, insts}
use hippocrates.Utils.{get_flush, is_some}
use hippocrates.Generator.{Program, new_inst, put, builder_at, clwb_function, sfence_function}
use hippocrates.Generator.Clone.{find_function}

unfoldable pub erase_insts : ℕ → List Inst → List Inst
erase_insts p [] = []
erase_insts p (i ∷ is) = if i.id == p then erase_insts p is else i ∷ erase_insts p is

unfoldable pub erase_blocks : ℕ → List Block → List Block
erase_blocks p [] = []
erase_blocks p (b ∷ bs) = record b { insts = erase_insts p b.insts } ∷ erase_blocks p bs

-- `eraseFromParent`
unfoldable pub erase : ℕ → Module → Module
erase p [] = []
erase p (f ∷ fs) = record f { blocks = erase_blocks p f.blocks } ∷ erase p fs

-- Whether a call is a flush that can be removed.
abbrev pub is_removable : Op → Bool
is_removable (call (inline_asm text) args) = text_eq text (codes ".byte 0x66; xsaveopt $0")
is_removable op = is_some (get_flush op)

-- The first flush of the range is removed; a store in front of it is not handled.
unfoldable pub remove_first : List Inst → Program → Outcome (Bool × Program)
remove_first [] s = ok (false, s)
remove_first (i ∷ is) s =
    if is_removable i.op
    then ok (true, record s { m = erase i.id s.m })
    else if is_store i.op
    then aborted
    else remove_first is s

unfoldable pub remove_flush : FixLoc → Program → Outcome (Bool × Program)
remove_flush fl s = do is ← insts s.m fl; remove_first is s

-- The instruction at an address.
unfoldable pub find_inst : ℕ → List Inst → Option Inst
find_inst p [] = none
find_inst p (i ∷ is) = if i.id == p then some i else find_inst p is

unfoldable pub inst_at : Module → ℕ → Option Inst
inst_at m p = elim (parent m p) [ none ↦ none | some (f, b) ↦ find_inst p b.insts ]

-- `getArgOperand`
abbrev pub arg : List Value → ℕ → Outcome Value
arg args i = elim (get_elem? args i) [ none ↦ aborted | some v ↦ ok v ]

abbrev pub traced : Module → Text → Outcome FnInfo
traced m name = elim (find_function m name) [ none ↦ aborted | some f ↦ ok f.info ]

-- The call that a fix of a traced program stands at, which must be one of this function; `none` for
-- an instruction that is no call.
unfoldable pub traced_call : Text → FixLoc → Program → Outcome (Option (List Value))
traced_call name fl s = elim (inst_at s.m fl.last) [
  | none ↦ aborted
  | some i ↦ elim i.op [
    | call (direct f) args ↦ assert (text_eq f.name name) >> ok (some args)
    | call _ args ↦ aborted
    | _ ↦ ok none
  ]
]

-- `PMTestFixGenerator::insertFlush`: the flush, and the call that traces it, which is returned.
unfoldable pub traced_flush : FixLoc → Program → Outcome (Option ℕ × Program)
traced_flush fl s = traced_call (codes "C_createMetadata_Assign") fl s >>= λ c. elim c [
  | none ↦ ok (none, s)
  | some args ↦ (do
    addr ← arg args 1
    len ← arg args 2
    dbg ← builder_at s.m fl.last
    f ← traced s.m (codes "C_createMetadata_Flush")
    a ← arg args 0
    b ← arg args 3
    d ← arg args 4
    let new =
        new_inst s.next (call (direct clwb_function) (addr ∷ [])) dbg
        ∷ new_inst (s.next + 1) (call (direct f) (a ∷ addr ∷ len ∷ b ∷ d ∷ [])) dbg
        ∷ []
    ok (some (s.next + 1), record { m = put fl.last new s.m; next = s.next + 2 }))
]

-- `PMTestFixGenerator::insertFence`
unfoldable pub traced_fence : FixLoc → Program → Outcome (Option ℕ × Program)
traced_fence fl s = traced_call (codes "C_createMetadata_Flush") fl s >>= λ c. elim c [
  | none ↦ ok (none, s)
  | some args ↦ (do
    dbg ← builder_at s.m fl.last
    f ← traced s.m (codes "C_createMetadata_Fence")
    a ← arg args 0
    b ← arg args 3
    d ← arg args 4
    let new =
        new_inst s.next (call (direct sfence_function) []) dbg
        ∷ new_inst (s.next + 1) (call (direct f) (a ∷ b ∷ d ∷ [])) dbg
        ∷ []
    ok (some (s.next + 1), record { m = put fl.last new s.m; next = s.next + 2 }))
]

-- The instruction and those in front of it, the nearest first, without debug instructions.
unfoldable pub back_from : ℕ → List Inst → List Inst
back_from p [] = []
back_from p (i ∷ is) =
    let rest = back_from p is in
    if i.id == p then i ∷ [] else rest ++ (if i.is_debug then [] else i ∷ [])

abbrev pub is_clwb : Intrinsic → Bool
is_clwb clwb = true
is_clwb _ = false

-- The loop of `PMTestFixGenerator::removeFlush`: the nearest flush and the nearest trace of one.
unfoldable pub find_traced : Text → List Inst → Option ℕ → Option ℕ → Option ℕ × Option ℕ
find_traced name [] flush trace = (flush, trace)
find_traced name (i ∷ is) (some a) (some b) = (some a, some b)
find_traced name (i ∷ is) flush trace = elim (called_function i.op) [
  | none ↦ find_traced name is flush trace
  | some f ↦
      if not (is_some trace) && text_eq f.name name
      then find_traced name is flush (some i.id)
      else if not (is_some flush) && is_clwb f.intrinsic
      then find_traced name is (some i.id) trace
      else find_traced name is flush trace
]

abbrev pub block_insts : Option (Function × Block) → Outcome (List Inst)
block_insts none = aborted
block_insts (some (f, b)) = ok b.insts

-- Both are removed.
unfoldable pub remove_traced : FixLoc → Program → Outcome (Bool × Program)
remove_traced fl s = do
  f ← traced s.m (codes "C_createMetadata_Flush")
  is ← block_insts (parent s.m fl.last)
  let found = find_traced f.name (back_from fl.last is) none none
  elim found.0 [
    | none ↦ aborted
    | some a ↦ elim found.1 [
      | none ↦ aborted
      | some b ↦ ok (true, record s { m = erase b (erase a s.m) })
    ]
  ]
