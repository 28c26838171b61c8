-- ===== src/FixLoc.antt =====
-- src/BugReports.hpp and src/BugReports.cpp: `FixLoc`, a range of instructions in one block. A
-- pointer is the address of an instruction, and 0 is `nullptr`.
pub mod Order
pub mod Walk
use hippocrates.Base.{
  ℕ, Bool, true, false, not, ◌&&◌, ◌||◌, Option, none, some, List, [], ◌∷◌, ltb, ◌==◌,
  if◌then◌else◌, text_eq, Outcome, ok, aborted, ◌>>=◌,
}
use hippocrates.Location.{LocationInfo, no_location}
use hippocrates.Ir.{Module, Inst, Block, Function, parent, after, non_debug}

pub record FixLoc : Type 0 where
  pub first : ℕ
  pub last : ℕ
  pub dbg_loc : LocationInfo

-- `FixLoc::Compare`: a < b.
unfoldable pub compare : FixLoc → FixLoc → Bool
compare a b = ltb a.first b.first || ((a.first == b.first) && ltb a.last b.last)

unfoldable pub eq : FixLoc → FixLoc → Bool
eq a b = (a.first == b.first) && (a.last == b.last)

unfoldable pub null_loc : FixLoc
null_loc = record { first = 0; last = 0; dbg_loc = no_location }

unfoldable pub same_place : Option (Function × Block) → Option (Function × Block) → Bool
same_place (some (f, b)) (some (g, c)) = text_eq f.name g.name && (b.label == c.label)
same_place _ _ = false

unfoldable pub is_valid : Module → FixLoc → Bool
unfolding same_place
is_valid m fl =
    if (fl.first == 0) || (fl.last == 0)
    then false
    else same_place (parent m fl.first) (parent m fl.last)

-- The walk by `getNextNonDebugInstruction` up to `stop`; a null pointer is not followed.
unfoldable pub walk_to : Option Inst → List Inst → Outcome (List Inst)
walk_to none [] = ok []
walk_to (some stop) [] = aborted
walk_to none (i ∷ is) = do rest ← walk_to none is; ok (i ∷ rest)
walk_to (some stop) (i ∷ is) =
    let rest = walk_to (some stop) is in if i.id == stop.id then ok [] else rest >>= λ r. ok (i ∷ r)

abbrev pub head? : List Inst → Option Inst
head? [] = none
head? (i ∷ is) = some i

-- From `first` on, the instruction itself even where it is a debug instruction.
unfoldable pub from : ℕ → List Inst → List Inst
from p [] = []
from p (i ∷ is) = if i.id == p then i ∷ non_debug is else from p is

unfoldable pub insts_in : FixLoc → Option (Function × Block) → Outcome (List Inst)
insts_in fl none = ok []
insts_in fl (some (f, b)) =
    walk_to (head? (non_debug (after fl.last b.insts))) (from fl.first b.insts)

unfoldable pub insts : Module → FixLoc → Outcome (List Inst)
unfolding insts_in
insts m fl = if is_valid m fl then insts_in fl (parent m fl.first) else ok []
