-- ===== src/Raise.antt =====
-- src/BugFixer.cpp: `BugFixer::raiseFixLocation`. The choice of the heuristic, which is the index of
-- a frame, is a parameter: 0 where raising by heuristics is off (Raise/Heuristic.antt).
pub mod Heuristic
pub mod Frames
use hippocrates.Base.{
  ℕ, zero, suc, ◌+◌, Bool, true, false, not, ◌&&◌, ◌||◌, Option, none, some, List, [], ◌∷◌, length,
  is_empty, ltb, leb, ◌==◌, if◌then◌else◌, Text, text_eq, Outcome, ok, aborted, assert, ◌>>=◌, ◌>>◌,
}
use hippocrates.Location.{LocationInfo}
use hippocrates.Ir.{Module, Function, Block, parent}
use hippocrates.FixLoc.{FixLoc}
use hippocrates.Fix.{
  FixType, FixDesc, add_flush_only, add_persist_callstack_opt_nofence, add_persist_callstack_opt,
  fix_desc, is, ordinal,
}
use hippocrates.Fix.Map.{FixMap}
use hippocrates.Fix.Merge.{add_fix_to_mapping}

-- What the handlers see of `BugLocationMapper`: `contains` is whether a value is there, and
-- `operator[]` is `at`, which throws if there is none.
abbrev pub Mapper : Type 0
Mapper = LocationInfo → Option (List FixLoc)

abbrev pub is_some {ℓ} : {A : Type ℓ} → Option A → Bool
is_some none = false
is_some (some a) = true

abbrev pub at : Mapper → LocationInfo → Outcome (List FixLoc)
at mapper li = elim (mapper li) [ none ↦ aborted | some locs ↦ ok locs ]

-- `getFunction` of an instruction, by name; the pointer is one of the module's.
unfoldable pub function_of : Module → ℕ → Outcome Text
function_of m p = elim (parent m p) [ none ↦ aborted | some (f, b) ↦ ok f.name ]

unfoldable pub name_in : Text → List Text → Bool
name_in t [] = false
name_in t (n ∷ ns) = if text_eq n t then true else name_in t ns

-- Whether all locations stand in the function of the given name.
unfoldable pub same_function : Module → Text → List FixLoc → Outcome Bool
same_function m f [] = ok true
same_function m f (l ∷ ls) = do
  g ← function_of m l.last
  rest ← same_function m f ls
  ok (text_eq g f && rest)

-- The first location of the list; all of them must stand in one function.
unfoldable pub front_of : Module → List FixLoc → Outcome FixLoc
front_of m [] = aborted
front_of m (l ∷ ls) = do f ← function_of m l.last; one ← same_function m f ls; assert one; ok l

-- Where the loop stands: the index, whether the fix is raised, and the last location looked at.
pub record Climb : Type 0 where
  pub idx : ℕ
  pub raised : Bool
  pub curr : Option FixLoc

abbrev pub drop_frames : ℕ → List LocationInfo → List LocationInfo
drop_frames zero lis = lis
drop_frames (suc n) [] = []
drop_frames (suc n) (li ∷ lis) = drop_frames n lis

abbrev pub raised_type : FixType → FixType
raised_type t =
    if is t add_flush_only then add_persist_callstack_opt_nofence else add_persist_callstack_opt

-- The end of the function: a raised fix is added at the location that was found.
unfoldable pub settle : Module → FixMap → FixDesc → Climb → Outcome (FixMap × Bool)
settle m fixes desc c =
    if c.raised
    then elim c.curr [
      | none ↦ aborted
      | some curr ↦
          add_fix_to_mapping m fixes curr (fix_desc (raised_type desc.type) desc.dyn_stack c.idx)
    ]
    else ok (fixes, false)

module _ (m : Module) (mapper : Mapper) (immutable : List Text) where
  -- One look at a frame: the loop goes on, or ends with this location.
  unfoldable pub look : Bool → LocationInfo → Climb → Outcome (Climb × Bool)
  look has_start li c =
      if not has_start && not (is_some (mapper li))
      then ok (record c { idx = c.idx + 1; raised = true }, true)
      else (do
        locs ← at mapper li
        curr ← front_of m locs
        f ← function_of m curr.last
        ok (
            if name_in f immutable
            then (record { idx = c.idx + 1; raised = true; curr = some curr }, true)
            else (record c { curr = some curr }, false)))

  -- The `while` loop, over the frames that are left.
  unfoldable pub climb : Bool → List LocationInfo → Climb → Outcome Climb
  climb has_start [] c = ok c
  climb has_start (li ∷ lis) c = elim (look has_start li c) [
    | aborted ↦ aborted
    | ok (c', more) ↦ elim more [ true ↦ climb has_start lis c' | false ↦ ok c' ]
  ]

  unfoldable pub raise_fix_location :
      (List LocationInfo → Outcome ℕ) → FixMap → FixLoc → FixDesc → Outcome (FixMap × Bool)
  raise_fix_location heuristic fixes fl desc = do
    assert (not (is_empty desc.dyn_stack))
    start ← heuristic desc.dyn_stack
    c ←
        climb (not (fl.last == 0)) (drop_frames start desc.dyn_stack)
          (record { idx = start; raised = ltb 0 start; curr = none })
    settle m fixes desc c
