-- ===== src/Ir.antt =====
-- The part of an LLVM module that the passes read: instructions in blocks in functions. LLVM itself
-- is not modelled; a value of these types stands for what its accessors return. An instruction is
-- named by its address, a function by its name and a block by a number.
use hippocrates.Base.{
  ℕ, Bool, true, false, Option, none, some, List, [], ◌∷◌, ◌++◌, ◌==◌, if◌then◌else◌, Text,
}

-- `Function::getIntrinsicID`, as far as the code tells the intrinsics apart.
pub data Intrinsic : Type 0 where
  not_intrinsic memcpy memset memmove dbg_declare clwb clflushopt clflush sfence : Intrinsic
  other_intrinsic : Intrinsic

pub record FnInfo : Type 0 where
  pub name : Text
  pub intrinsic : Intrinsic
  pub declaration : Bool

pub data Sort : Type 0 where
  alloca function_value global constant other_value : Sort
  int_constant : ℕ → Sort

-- An operand: its address, whether its type is a pointer or a vector type, whether it is `i8*`, the
-- width of an integer type, else 0, and what `isa` says of the operand.
pub record Value : Type 0 where
  pub addr : ℕ
  pub pointer : Bool
  pub vector : Bool
  pub bytes : Bool
  pub bits : ℕ
  pub sort : Sort

-- `getCalledFunction` is null for the last two.
pub data Callee : Type 0 where
  direct : FnInfo → Callee
  inline_asm : Text → Callee
  indirect : Callee

pub data Op : Type 0 where
  store : (value ptr : Value) → Op
  cmp_xchg : (ptr compare value : Value) → Op
  call : Callee → List Value → Op
  ptr_to_int : (ptr : Value) → Op
  -- A bit cast to a pointer type.
  cast : Value → Op
  ret : Option Value → Op
  branch : Option Value → Op
  switch : Value → Op
  other : Op

-- `dbg` is the file and the line of the debug location; `nontemporal` is the metadata of that name;
-- `is_debug` marks the instructions that `getNextNonDebugInstruction` skips.
pub record Inst : Type 0 where
  pub id : ℕ
  pub op : Op
  pub is_debug : Bool
  pub nontemporal : Bool
  pub dbg : Option (Text × ℕ)

pub record Block : Type 0 where
  pub label : ℕ
  pub insts : List Inst

pub record Function : Type 0 where
  pub info : FnInfo
  pub open info use *
  pub blocks : List Block

abbrev pub Module : Type 0
Module = List Function

abbrev pub is_store : Op → Bool
is_store (store v p) = true
is_store _ = false

abbrev pub is_cmp_xchg : Op → Bool
is_cmp_xchg (cmp_xchg p c v) = true
is_cmp_xchg _ = false

-- `cb->getCalledFunction()` of a call, and null for any other instruction.
abbrev pub called_function : Op → Option FnInfo
called_function (call (direct f) args) = some f
called_function _ = none

unfoldable pub has_inst : ℕ → List Inst → Bool
has_inst p [] = false
has_inst p (i ∷ is) = if i.id == p then true else has_inst p is

unfoldable pub find_block : ℕ → List Block → Option Block
find_block p [] = none
find_block p (b ∷ bs) = if has_inst p b.insts then some b else find_block p bs

-- The function and the block that an instruction stands in.
unfoldable pub parent : Module → ℕ → Option (Function × Block)
parent [] p = none
parent (f ∷ m) p = elim (find_block p f.blocks) [ some b ↦ some (f, b) | none ↦ parent m p ]

-- The instructions behind one, and the first of those that is no debug instruction.
unfoldable pub after : ℕ → List Inst → List Inst
after p [] = []
after p (i ∷ is) = if i.id == p then is else after p is

unfoldable pub non_debug : List Inst → List Inst
non_debug [] = []
non_debug (i ∷ is) = if i.is_debug then non_debug is else i ∷ non_debug is

-- A module with another instruction for each one, and more of them behind it.
module _ (g : Inst → Inst) (more : Inst → List Inst) where
  unfoldable pub rewrite_insts : List Inst → List Inst
  rewrite_insts [] = []
  rewrite_insts (i ∷ is) = g i ∷ (more i ++ rewrite_insts is)

  unfoldable pub rewrite_blocks : List Block → List Block
  rewrite_blocks [] = []
  rewrite_blocks (b ∷ bs) = record b { insts = rewrite_insts b.insts } ∷ rewrite_blocks bs

  unfoldable pub rewrite_module : Module → Module
  rewrite_module [] = []
  rewrite_module (f ∷ fs) = record f { blocks = rewrite_blocks f.blocks } ∷ rewrite_module fs

-- The instruction at an address, changed.
abbrev pub only_at : ℕ → (Inst → Inst) → Inst → Inst
only_at p g i = if i.id == p then g i else i

abbrev pub change_at : ℕ → (Inst → Inst) → Module → Module
change_at p g = rewrite_module (only_at p g) (λ i. [])
