-- ===== src/Repair/Patch.antt =====
-- src/BugFixer.cpp: `BugFixer::patchMemoryPrimitives`.
use hippocrates.Base.{
  ℕ, Bool, not, ◌||◌, Option, none, some, List, [], ◌∷◌, ◌++◌, is_empty, if◌then◌else◌, Text, codes,
  occurs_in, Outcome, ok, ◌>>=◌,
}
use hippocrates.Ir.{Module, Block, Inst, Op, Value, FnInfo, memcpy, memset, memmove, call, direct}

-- The names of the persistent versions; the naive ones with the option ExtraDumb.
abbrev pub version : Bool → Text → Text
version extra_dumb name = if extra_dumb then name ++ codes "_naive" else name

abbrev is_excluded : Text → Bool
is_excluded fname =
    occurs_in (codes "movnt") fname
    || occurs_in (codes "clflush") fname
    || occurs_in (codes "clwb") fname
    || occurs_in (codes "use_") fname
    || occurs_in (codes "pmemops_") fname

-- A later name replaces an earlier one.
unfoldable pub primitive_in : Text → Option Text
primitive_in fname =
    if occurs_in (codes "strncpy") fname
    then some (codes "strncpy")
    else if occurs_in (codes "memmove") fname
    then some (codes "memmove")
    else if occurs_in (codes "memset") fname
    then some (codes "memset")
    else if occurs_in (codes "memcpy") fname
    then some (codes "memcpy")
    else none

-- The function that a call by name stands for: at least three arguments, the second a number.
unfoldable pub primitive_of : FnInfo → List Value → Option Text
primitive_of f (a ∷ b ∷ c ∷ rest) =
    if is_excluded f.name
    then none
    else if b.vector
    then none
    else if b.pointer
    then none
    else primitive_in f.name
primitive_of f args = none

unfoldable pub replacement : Op → Option Text
replacement (call (direct f) args) = elim f.intrinsic [
  | memcpy ↦ some (codes "memcpy")
  | memset ↦ some (codes "memset")
  | memmove ↦ some (codes "memmove")
  | _ ↦ primitive_of f args
]
replacement _ = none

-- `replace_map`, in the order of the walk.
unfoldable pub replaced_insts : Bool → List Inst → List (ℕ × Text)
replaced_insts extra_dumb [] = []
replaced_insts extra_dumb (i ∷ is) = elim (replacement i.op) [
  | none ↦ replaced_insts extra_dumb is
  | some name ↦ (i.id, version extra_dumb name) ∷ replaced_insts extra_dumb is
]

unfoldable pub replaced_blocks : Bool → List Block → List (ℕ × Text)
replaced_blocks extra_dumb [] = []
replaced_blocks extra_dumb (b ∷ bs) =
    replaced_insts extra_dumb b.insts ++ replaced_blocks extra_dumb bs

unfoldable pub replace_map : Bool → Module → List (ℕ × Text)
replace_map extra_dumb [] = []
replace_map extra_dumb (f ∷ fs) = replaced_blocks extra_dumb f.blocks ++ replace_map extra_dumb fs

module _ {S : Type 0} (replace_call : ℕ → Text → S → Outcome S) where
  unfoldable pub replace_all : List (ℕ × Text) → S → Outcome S
  replace_all [] s = ok s
  replace_all ((p, name) ∷ rest) s = do s' ← replace_call p name s; replace_all rest s'

  unfoldable pub patch_memory_primitives : Bool → (S → Module) → S → Outcome (Bool × S)
  patch_memory_primitives extra_dumb module_of s = do
    let calls = replace_map extra_dumb (module_of s)
    s' ← replace_all calls s
    ok (not (is_empty calls), s')
