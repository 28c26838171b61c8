-- ===== src/Fix.antt =====
-- src/BugFixer.hpp: `FixType` and `FixDesc`, what is to be done at a location.
pub mod Map
pub mod Merge
pub mod Effects
pub mod Laws
pub mod Joint
use hippocrates.Base.{
  ℕ, Bool, true, false, not, ◌&&◌, ◌||◌, List, [], ◌∷◌, length, ◌==◌, if◌then◌else◌,
}
use hippocrates.Location.{LocationInfo}
use hippocrates.FixLoc.{FixLoc}
use hippocrates.FixLoc

pub data FixType : Type 0 where
  no_fix : FixType
  -- Correctness, low-level.
  add_flush_only add_fence_only add_flush_and_fence : FixType
  -- Correctness, high-level.
  add_persist_callstack_opt_nofence add_persist_callstack_opt : FixType
  -- Performance.
  remove_flush_only remove_flush_conditional : FixType

-- `points` are addresses of instructions, and `stack_idx` is an index into the stack.
pub record FixDesc : Type 0 where
  pub type : FixType
  pub dyn_stack : List LocationInfo
  pub stack_idx : ℕ
  pub originals : List FixLoc
  pub points : List ℕ

-- The constructors: of nothing, of a fix at an index of the stack, and of a conditional removal.
abbrev pub no_desc : FixDesc
no_desc = record { type = no_fix; dyn_stack = []; stack_idx = 0; originals = []; points = [] }

abbrev pub fix_desc : FixType → List LocationInfo → ℕ → FixDesc
fix_desc t l si = record { type = t; dyn_stack = l; stack_idx = si; originals = []; points = [] }

abbrev pub conditional_desc : FixType → List LocationInfo → FixLoc → List ℕ → FixDesc
conditional_desc t l o p = record {
  type = t;
  dyn_stack = l;
  stack_idx = 0;
  originals = o ∷ [];
  points = p;
}

-- The enumerators, counted from NO_FIX.
abbrev pub ordinal : FixType → ℕ
ordinal no_fix = 0
ordinal add_flush_only = 1
ordinal add_fence_only = 2
ordinal add_flush_and_fence = 3
ordinal add_persist_callstack_opt_nofence = 4
ordinal add_persist_callstack_opt = 5
ordinal remove_flush_only = 6
ordinal remove_flush_conditional = 7

abbrev pub is : FixType → FixType → Bool
is t u = ordinal t == ordinal u

unfoldable pub locs_eq : List FixLoc → List FixLoc → Bool
unfolding FixLoc.eq
locs_eq [] [] = true
locs_eq [] (y ∷ ys) = false
locs_eq (x ∷ xs) [] = false
locs_eq (x ∷ xs) (y ∷ ys) = FixLoc.eq x y && locs_eq xs ys

unfoldable pub points_eq : List ℕ → List ℕ → Bool
points_eq [] [] = true
points_eq [] (y ∷ ys) = false
points_eq (x ∷ xs) [] = false
points_eq (x ∷ xs) (y ∷ ys) = (x == y) && points_eq xs ys

-- `operator==`: neither the stack nor the index into it counts.
unfoldable pub desc_eq : FixDesc → FixDesc → Bool
unfolding locs_eq points_eq
desc_eq f g = is f.type g.type && locs_eq f.originals g.originals && points_eq f.points g.points
