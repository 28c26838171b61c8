-- ===== src/Generator/SubProgram.antt =====
-- src/FixGenerator.cpp: `GenericFixGenerator::insertPersistentSubProgram`. The demangling of names is
-- a parameter.
use hippocrates.Base.{
  ℕ, zero, suc, ◌+◌, Bool, true, false, not, Option, none, some, List, [], ◌∷◌, is_empty, get_elem?,
  ltb, if◌then◌else◌, Text, codes, text_eq, Outcome, ok, aborted, assert, ◌>>=◌, ◌>>◌,
}
use hippocrates.Location.{LocationInfo, no_location}
use hippocrates.Ir.{
  Module, Function, Inst, Op, FnInfo, Callee, not_intrinsic, memcpy, memset, memmove, call, direct,
  parent, change_at,
}
use hippocrates.FixLoc.{FixLoc, insts}
use hippocrates.Raise.{Mapper, at, front_of}
use hippocrates.Generator.{Program, insert_fence}
use hippocrates.Generator.Clone.{
  Settings, duplicate_function, make_all_stores_persistent, persistent_version,
}

abbrev pub is_call : Op → Bool
is_call (call f args) = true
is_call _ = false

-- What a call calls.
abbrev pub callee : Op → Option Callee
callee (call f args) = some f
callee _ = none

-- `setCalledFunction`
abbrev pub with_callee : FnInfo → Op → Op
with_callee g (call f args) = call (direct g) args
with_callee g op = op

abbrev pub retarget : ℕ → FnInfo → Module → Module
retarget p g = change_at p (λ i. record i { op = with_callee g i.op })

abbrev pub set_callee : ℕ → FnInfo → Program → Program
set_callee p g s = record s { m = retarget p g s.m }

unfoldable pub calls_of : List Inst → List Inst
calls_of [] = []
calls_of (i ∷ is) = if is_call i.op then i ∷ calls_of is else calls_of is

abbrev pub only : {A : Type 0} → List A → Outcome A
only [] = aborted
only (x ∷ []) = ok x
only (x ∷ y ∷ ys) = aborted

-- `callstack[i]`
abbrev pub frame_at : List LocationInfo → ℕ → Outcome LocationInfo
frame_at stack i = elim (get_elem? stack i) [ none ↦ aborted | some li ↦ ok li ]

-- The persistent version of what is called; a function with a body is left as it is.
unfoldable pub replacement_for : (Text → Text) → Module → FnInfo → Outcome (Option FnInfo)
replacement_for demangle m f = elim f.intrinsic [
  | memcpy ↦ persistent_version m (codes "memcpy") >>= λ g. ok (some g)
  | memset ↦ persistent_version m (codes "memset") >>= λ g. ok (some g)
  | memmove ↦ persistent_version m (codes "memmove") >>= λ g. ok (some g)
  | not_intrinsic ↦
      if f.declaration
      then (persistent_version m (demangle f.name) >>= λ g. ok (some g))
      else ok none
  | _ ↦ aborted
]

abbrev pub replaced : ℕ → Option FnInfo → Option ℕ → Program → Option ℕ × Program
replaced p none ret s = (ret, s)
replaced p (some g) ret s = (some p, set_callee p g s)

unfoldable pub replace_callee :
    (Text → Text) → Inst → Option ℕ → Program → Outcome (Option ℕ × Program)
replace_callee demangle i ret s = elim (callee i.op) [
  | some (direct f) ↦ replacement_for demangle s.m f >>= λ g. ok (replaced i.id g ret s)
  | _ ↦ aborted
]

-- The calls of the function at the caller's location go to its copy.
unfoldable pub redirect_insts :
    Text → FnInfo → List Inst → Option ℕ → Program → Outcome (Option ℕ × Program)
redirect_insts name g [] ret s = ok (ret, s)
redirect_insts name g (i ∷ is) ret s = elim (callee i.op) [
  | some (direct f) ↦
      if text_eq f.name name
      then redirect_insts name g is (some i.id) (set_callee i.id g s)
      else redirect_insts name g is ret s
  | some _ ↦ aborted
  | none ↦ redirect_insts name g is ret s
]

unfoldable pub redirect_locs :
    Text → FnInfo → List FixLoc → Option ℕ → Program → Outcome (Option ℕ × Program)
redirect_locs name g [] ret s = ok (ret, s)
redirect_locs name g (l ∷ ls) ret s = do
  is ← insts s.m l
  r ← redirect_insts name g is ret s
  redirect_locs name g ls r.0 r.1

abbrev pub at_inst : ℕ → FixLoc
at_inst p = record { first = p; last = p; dbg_loc = no_location }

-- The end: a fence behind the call that was changed last.
unfoldable pub fence_call : Bool → Option ℕ → Program → Outcome (Option ℕ × Program)
fence_call false ret s = ok (ret, s)
fence_call true none s = aborted
fence_call true (some p) s = do r ← insert_fence (at_inst p) s; ok (some p, r.1)

module _ (c : Settings) (demangle : Text → Text) (unique : Module → Text → Text)
    (mapper : Mapper) where
  -- The innermost frame has no location: what is called at the next one is replaced.
  unfoldable pub replace_unknown : LocationInfo → Option ℕ → Program → Outcome (Option ℕ × Program)
  replace_unknown caller ret s = do
    locs ← at mapper caller
    loc ← only locs
    is ← insts s.m loc
    i ← only (calls_of is)
    replace_callee demangle i ret s

  -- The copy of the function that stands at a location, with its stores persistent.
  unfoldable pub persistent_copy : Bool → Function → Program → Outcome (FnInfo × Program)
  persistent_copy add_flushes f s =
      if add_flushes
      then (do
        let d = duplicate_function unique f s
        t ← make_all_stores_persistent c f s.next d.1
        ok (d.0, t))
      else ok (f.info, s)

  unfoldable pub raise_frame :
      Bool → List FixLoc → LocationInfo → Option ℕ → Program → Outcome (Option ℕ × Program)
  raise_frame add_flushes locs caller ret s = do
    loc ← front_of s.m locs
    elim (parent s.m loc.last) [
      | none ↦ aborted
      | some (f, b) ↦ persistent_copy add_flushes f s >>= λ d. at mapper caller >>= λ next.
          assert (not (is_empty next)) >> redirect_locs f.name d.0 next ret d.1
    ]

  -- The loop over the frames below the index; `none` is the return of null from the middle.
  unfoldable pub raise_frames :
      Bool → List LocationInfo → ℕ → ℕ → Option ℕ → Program → Outcome (Option (Option ℕ) × Program)
  raise_frames add_flushes stack zero i ret s = ok (some ret, s)
  raise_frames add_flushes stack (suc n) i ret s = do
    li ← frame_at stack i
    elim (mapper li) [
      | none ↦
          if ltb 0 i
          then ok (none, s)
          else frame_at stack (i + 1) >>= λ caller.
              replace_unknown caller ret s >>= λ r. raise_frames add_flushes stack n (i + 1) r.0 r.1
      | some locs ↦ frame_at stack (i + 1) >>= λ caller.
          raise_frame add_flushes locs caller ret s >>= λ r.
          raise_frames add_flushes stack n (i + 1) r.0 r.1
    ]

  -- The location of the fix itself is not read.
  unfoldable pub insert_persistent_sub_program :
      FixLoc → List LocationInfo → ℕ → Bool → Bool → Program → Outcome (Option ℕ × Program)
  insert_persistent_sub_program fl stack idx add_flushes add_fence s = do
    r ← raise_frames add_flushes stack idx 0 none s
    elim r.0 [ none ↦ ok (none, r.1) | some ret ↦ fence_call add_fence ret r.1 ]
