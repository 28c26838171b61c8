-- ===== src/Raise/Heuristic.antt =====
-- src/BugFixer.cpp: the heuristic of `BugFixer::raiseFixLocation`, which picks the frame with the
-- most aliases in persistent memory and the fewest in volatile memory. `vMap_`, which LLVM fills
-- when it clones the module, is a parameter, and so is the hash of a location.
pub mod Pick
pub mod Best
pub mod Fresh
use hippocrates.Base.{
  ℕ, zero, suc, ◌+◌, ◌≡◌, Bool, true, false, not, ◌&&◌, ◌||◌, Option, none, some, List, [], ◌∷◌,
  length, is_empty, ltb, leb, ◌==◌, if◌then◌else◌, Text, Outcome, ok, aborted, assert, ◌>>=◌, ◌>>◌,
}
use hippocrates.Location.{LocationInfo, eq}
use hippocrates.Ir.{
  Module, Inst, Op, Value, Sort, function_value, store, cmp_xchg, call, direct, inline_asm,
  indirect, Intrinsic, not_intrinsic, memset, memcpy, memmove,
}
use hippocrates.FixLoc.{FixLoc, insts}
use hippocrates.PmDesc.{Anders, PmDesc, insert, points_to_set, points_to_pm}
use hippocrates.Raise.{Mapper, is_some, at}

-- The aliases of a frame, and the cache of them.
pub record Aliases : Type 0 where
  pub volatile : List Value
  pub persistent : List Value

abbrev pub no_aliases : Aliases
no_aliases = record { volatile = []; persistent = [] }

abbrev pub AliasCache : Type 0
AliasCache = List (LocationInfo × Aliases)

-- What the operands of an instruction are read for.
pub data Examined : Type 0 where
  skipped : Examined
  -- A call of a function pointer.
  pointer_call : Examined
  operands : List Value → Examined

abbrev pub is_counted_intrinsic : Intrinsic → Bool
is_counted_intrinsic not_intrinsic = true
is_counted_intrinsic memset = true
is_counted_intrinsic memcpy = true
is_counted_intrinsic memmove = true
is_counted_intrinsic _ = false

-- The callee, which is an operand of a call too, is a function, and those are left out.
unfoldable pub examine : Op → Examined
examine (call (direct f) args) = if is_counted_intrinsic f.intrinsic then operands args else skipped
examine (call (inline_asm text) args) = pointer_call
examine (call indirect args) = pointer_call
examine (store value ptr) = operands (value ∷ ptr ∷ [])
examine (cmp_xchg ptr compare value) = operands (ptr ∷ compare ∷ value ∷ [])
examine _ = skipped

abbrev pub is_function : Sort → Bool
is_function function_value = true
is_function _ = false

module _ (anders : Anders) (pm : PmDesc) where
  -- One alias, put into the set it belongs to.
  unfoldable pub add_alias : Value → Aliases → Outcome Aliases
  add_alias v a = do
    p ← points_to_pm anders pm v
    ok (
        if p
        then record a { persistent = insert v a.persistent }
        else record a { volatile = insert v a.volatile })

  unfoldable pub add_aliases : List Value → Aliases → Outcome Aliases
  add_aliases [] a = ok a
  add_aliases (v ∷ vs) a = do a' ← add_alias v a; add_aliases vs a'

  -- `getPointsToSet` leaves the set empty where it fails.
  abbrev pub points_to : Value → List Value
  points_to v = elim (points_to_set anders v) [ none ↦ [] | some pts ↦ pts ]

  unfoldable pub add_operand : Value → Aliases → Outcome Aliases
  add_operand v a =
      if not v.pointer || is_function v.sort
      then ok a
      else (if is_empty (points_to v) then add_alias v a else add_aliases (points_to v) a)

  unfoldable pub add_operands : List Value → Aliases → Outcome Aliases
  add_operands [] a = ok a
  add_operands (v ∷ vs) a = do a' ← add_operand v a; add_operands vs a'

  module _ (m : Module) (vmap : Option (ℕ → Option Inst)) where
    -- The instruction of the module that the analysis ran on.
    unfoldable pub mapped : Inst → Outcome Inst
    mapped i = elim vmap [ none ↦ ok i | some f ↦ elim (f i.id) [ none ↦ aborted | some j ↦ ok j ] ]

    -- `none` is the jump to the end: everything is given up.
    unfoldable pub add_insts : List Inst → Aliases → Outcome (Option Aliases)
    add_insts [] a = ok (some a)
    add_insts (i ∷ is) a = do
      j ← mapped i
      elim (examine j.op) [
        | skipped ↦ add_insts is a
        | pointer_call ↦ ok none
        | operands vs ↦ add_operands vs a >>= λ a'. add_insts is a'
      ]

    unfoldable pub add_locs : List FixLoc → Aliases → Outcome Aliases
    add_locs [] a = ok a
    add_locs (l ∷ ls) a = do
      is ← insts m l
      r ← add_insts is a
      elim r [ none ↦ ok no_aliases | some a' ↦ add_locs ls a' ]

    module _ (mapper : Mapper) (hash_of : LocationInfo → ℕ) where
      unfoldable pub cached : AliasCache → LocationInfo → Option Aliases
      cached [] li = none
      cached ((l, a) ∷ c) li = if hash_of l == hash_of li && eq l li then some a else cached c li

      unfoldable pub count_aliases : LocationInfo → Outcome Aliases
      count_aliases li = do locs ← at mapper li; add_locs locs no_aliases

      -- The aliases of a frame, and the cache with them.
      unfoldable pub frame_aliases : AliasCache → LocationInfo → Outcome (Aliases × AliasCache)
      frame_aliases c li = elim (cached c li) [
        | some a ↦ ok (a, c)
        | none ↦ count_aliases li >>= λ a. ok (a, (li, a) ∷ c)
      ]
