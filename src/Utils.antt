-- ===== src/Utils.antt =====
-- src/common/PassUtils.cpp: which instructions are flushes and fences.
-- src/remover/FlushRemover.cpp and src/cleaner/FunctionCleaner.cpp are in Remover.antt and Cleaner.antt.
pub mod Remover
pub mod Cleaner
use hippocrates.Base.{
  ℕ, Bool, true, false, not, ◌&&◌, ◌||◌, Option, none, some, List, [], ◌∷◌, if◌then◌else◌, Text,
  codes, text_eq, occurs_in,
}
use hippocrates.Ir.{
  Op, Inst, FnInfo, Intrinsic, not_intrinsic, clwb, clflushopt, clflush, call, direct, inline_asm,
  called_function,
}

abbrev pub is_flush_intrinsic : Intrinsic → Bool
is_flush_intrinsic clwb = true
is_flush_intrinsic clflushopt = true
is_flush_intrinsic clflush = true
is_flush_intrinsic _ = false

abbrev pub is_intrinsic : Intrinsic → Bool
is_intrinsic not_intrinsic = false
is_intrinsic _ = true

-- `getFlush`, of any instruction: the function that flushes, if it is a call of one.
unfoldable pub get_flush : Op → Option FnInfo
get_flush op = elim (called_function op) [
  | none ↦ none
  | some f ↦ if is_flush_intrinsic f.intrinsic then some f else none
]

unfoldable pub check_inline_asm_eq : Op → List Text → Bool
check_inline_asm_eq (call (inline_asm text) args) strs = any_eq text strs
  where
    any_eq : Text → List Text → Bool
    any_eq text [] = false
    any_eq text (s ∷ ss) = text_eq text s || any_eq text ss
check_inline_asm_eq _ strs = false

unfoldable pub check_intrinsic_inst : Op → List Text → Bool
check_intrinsic_inst (call (direct f) args) names =
    if is_intrinsic f.intrinsic then any_in f.name names else false
  where
    any_in : Text → List Text → Bool
    any_in text [] = false
    any_in text (n ∷ ns) = occurs_in n text || any_in text ns
check_intrinsic_inst _ names = false

abbrev pub is_some {ℓ} : {A : Type ℓ} → Option A → Bool
is_some none = false
is_some (some a) = true

unfoldable pub is_flush : Op → Bool
is_flush op =
    check_intrinsic_inst op (codes "clflush" ∷ [])
    || check_inline_asm_eq op
        (codes ".byte 0x66; clflush $0" ∷ codes ".byte 0x66; xsaveopt $0" ∷ [])
    || is_some (get_flush op)

unfoldable pub is_fence : Op → Bool
is_fence op = check_intrinsic_inst op (codes "sfence" ∷ [])

-- `getNestedFunctionCalls`
unfoldable pub get_nested_function_calls : List Inst → List FnInfo
get_nested_function_calls [] = []
get_nested_function_calls (i ∷ is) = elim (called_function i.op) [
  | none ↦ get_nested_function_calls is
  | some f ↦
      if is_intrinsic f.intrinsic
      then get_nested_function_calls is
      else f ∷ get_nested_function_calls is
]
