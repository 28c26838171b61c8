-- ===== src/Generator/Clone.antt =====
-- src/FixGenerator.cpp: `duplicateFunction` and `makeAllStoresPersistent`. The name that LLVM gives
-- where one is taken is a parameter.
use hippocrates.Base.{
  ℕ, ◌+◌, ◌/◌, ltb, Bool, true, false, not, ◌||◌, Option, none, some, List, [], ◌∷◌, ◌++◌, map,
  if◌then◌else◌, Text, codes, text_eq, Outcome, ok, aborted, assert, ◌>>=◌, ◌>>◌,
}
use hippocrates.Ir.{
  change_at, Module, Function, Block, Inst, Op, Value, Sort, FnInfo, store, cmp_xchg, call, direct,
  ptr_to_int, cast, ret, branch, switch, other, alloca, int_constant, has_inst,
}
use hippocrates.PmDesc.{Anders, PmDesc, contains, points_to_pm}
use hippocrates.Generator.{
  Program, Debug, new_inst, byte_pointer, put, builder_at, written, insert_flush_at,
}

-- Whether an address is that of an instruction of a function.
unfoldable pub in_blocks : ℕ → List Block → Bool
in_blocks p [] = false
in_blocks p (b ∷ bs) = has_inst p b.insts || in_blocks p bs

module _ (blocks : List Block) (offset : ℕ) where
  -- What a clone takes for an operand: the copy of an instruction, and all else as it is. The
  -- arguments of a function are no part of the model: a number names that of the function it is in.
  abbrev pub clone_value : Value → Value
  clone_value v = if in_blocks v.addr blocks then record v { addr = v.addr + offset } else v

  abbrev clone_option : Option Value → Option Value
  clone_option none = none
  clone_option (some v) = some (clone_value v)

  abbrev pub clone_op : Op → Op
  clone_op (store value ptr) = store (clone_value value) (clone_value ptr)
  clone_op (cmp_xchg ptr compare value) =
      cmp_xchg (clone_value ptr) (clone_value compare) (clone_value value)
  clone_op (call f args) = call f (map clone_value args)
  clone_op (ptr_to_int ptr) = ptr_to_int (clone_value ptr)
  clone_op (cast v) = cast (clone_value v)
  clone_op (ret v) = ret (clone_option v)
  clone_op (branch v) = branch (clone_option v)
  clone_op (switch v) = switch (clone_value v)
  clone_op other = other

  unfoldable pub clone_insts : List Inst → List Inst
  clone_insts [] = []
  clone_insts (i ∷ is) = record i { id = i.id + offset; op = clone_op i.op } ∷ clone_insts is

  unfoldable pub clone_blocks : List Block → List Block
  clone_blocks [] = []
  clone_blocks (b ∷ bs) = record b { insts = clone_insts b.insts } ∷ clone_blocks bs

-- The copy of a function stands at the end of the module. Its instructions have the addresses of the
-- originals, moved behind all others, which is the map that the cloning fills.
unfoldable pub duplicate_function : (Module → Text → Text) → Function → Program → FnInfo × Program
duplicate_function unique f s =
    let info = record f.info { name = unique s.m (f.name ++ codes "_NT") } in
    let copy : Function = record { info = info; blocks = clone_blocks f.blocks s.next f.blocks } in
    (info, record { m = s.m ++ copy ∷ []; next = s.next + s.next })

-- What `makeAllStoresPersistent` is configured by: `-use-nt`, the map of cloned values where an alias
-- analysis by trace or by reduced allocation is on, and what is known of persistent memory.
pub record Settings : Type 0 where
  pub use_nt : Bool
  pub aa_map : Option (Value → Option Value)
  pub anders : Anders
  pub pm : PmDesc
  pub pointer_size : ℕ

abbrev pub analysed : Option (Value → Option Value) → Option Value → Option Value
analysed none v = v
analysed (some f) none = none
analysed (some f) (some v) = f v

abbrev pub is_alloca : Sort → Bool
is_alloca alloca = true
is_alloca _ = false

module _ (c : Settings) where
  -- Whether the store to this pointer is made persistent.
  unfoldable pub is_flush_point : Option Value → Outcome Bool
  is_flush_point none = ok false
  is_flush_point (some v) =
      if is_alloca v.sort
      then ok false
      else if not (contains c.anders v)
      then ok false
      else points_to_pm c.anders c.pm v

  -- The instructions of the old function whose copies are to be flushed.
  unfoldable pub points_in : List Inst → Outcome (List Inst)
  points_in [] = ok []
  points_in (i ∷ is) = do
    here ← is_flush_point (analysed c.aa_map (written i.op))
    rest ← points_in is
    ok (if here then i ∷ rest else rest)

  unfoldable pub flush_points : List Block → Outcome (List Inst)
  flush_points [] = ok []
  flush_points (b ∷ bs) = do here ← points_in b.insts; rest ← flush_points bs; ok (here ++ rest)

-- The width of the stored value in bits: of an integer, and `getMaxPointerSize` for a pointer.
abbrev pub stored_bits : ℕ → Op → ℕ
stored_bits pointer_size (store value ptr) = if value.pointer then pointer_size else value.bits
stored_bits pointer_size (cmp_xchg ptr compare value) =
    if value.pointer then pointer_size else value.bits
stored_bits pointer_size _ = 0

unfoldable pub find_function : Module → Text → Option Function
find_function [] name = none
find_function (f ∷ fs) name = if text_eq f.name name then some f else find_function fs name

-- `getPersistentVersion`
unfoldable pub persistent_version : Module → Text → Outcome FnInfo
persistent_version m name = elim (find_function m (codes "PMFIXER_" ++ name)) [
  | none ↦ aborted
  | some f ↦ ok f.info
]

abbrev pub length_value : ℕ → Value
length_value n = record {
  addr = 0;
  pointer = false;
  vector = false;
  bytes = false;
  bits = 64;
  sort = int_constant n;
}

-- The call that tells the tool of the flush of a non-temporal store.
abbrev pub notice : FnInfo → Value → ℕ → ℕ → Debug → List Inst
notice f ptr len n dbg =
    if ptr.bytes
    then new_inst n (call (direct f) (ptr ∷ length_value len ∷ [])) dbg ∷ []
    else new_inst (n + 1) (cast ptr) dbg
      ∷ new_inst n (call (direct f) (byte_pointer (n + 1) ∷ length_value len ∷ [])) dbg
      ∷ []

-- `setMetadata(LLVMContext::MD_nontemporal, ...)`
abbrev pub mark : ℕ → Module → Module
mark p = change_at p (λ i. record i { nontemporal = true })

module _ (c : Settings) where
  -- One store of the copy: a non-temporal store with a notice, or a flush behind it.
  unfoldable pub persist : ℕ → Op → Value → Program → Outcome Program
  persist p op ptr s =
      if c.use_nt
      then (do
        let m = mark p s.m
        f ← persistent_version m (codes "valgrind_flush")
        dbg ← builder_at m p
        assert (ltb 0 (stored_bits c.pointer_size op))
        let len = stored_bits c.pointer_size op / 8
        ok (record { m = put p (notice f ptr len s.next dbg) m; next = s.next + 2 }))
      else (do r ← insert_flush_at p ptr s; ok r.1)

  -- The instructions of the old function, with the blocks and the offset of the clone.
  unfoldable pub persist_all : List Block → ℕ → List Inst → Program → Outcome Program
  persist_all blocks offset [] s = ok s
  persist_all blocks offset (i ∷ is) s =
      let op = clone_op blocks offset i.op in
      elim (written op) [
        | none ↦ aborted
        | some ptr ↦ persist (i.id + offset) op ptr s >>= λ t. persist_all blocks offset is t
      ]

  unfoldable pub make_all_stores_persistent : Function → ℕ → Program → Outcome Program
  make_all_stores_persistent f offset s = do
    points ← flush_points c f.blocks
    persist_all f.blocks offset points s
