-- ===== src/Aliases.antt =====
-- src/BugFixer.cpp: `BugFixer::runTraceAA`, which strips the copy of the module of the functions that
-- the trace does not need before the analysis. A function and its copy have one name. `users` is
-- LLVM's: the functions with an instruction that uses a function. The loops run on fuel, and `none` is
-- that it has run out.
pub mod Names
pub mod Explored
pub mod Grown
pub mod Kept
pub mod Ends
use hippocrates.Base.{
  zero, suc, ℕ, Bool, true, false, ◌||◌, Option, none, some, List, [], ◌∷◌, ◌++◌, if◌then◌else◌,
  Text, codes, Outcome, ok, aborted, ◌>>=◌, length,
}
use hippocrates.Location.{LocationInfo}
use hippocrates.Ir.{Module, Function, Block, Inst, FnInfo, called_function}
use hippocrates.FixLoc.{FixLoc, insts}
use hippocrates.Generator.Clone.{find_function}
use hippocrates.Raise.{Mapper, function_of, name_in}
use hippocrates.Trace.{TraceEvent}
use hippocrates.Trace.Resolve.{has_name}
use hippocrates.Utils.{is_intrinsic}

-- `unordered_set::insert` on functions.
unfoldable pub insert_function : Text → List Text → List Text
insert_function f fs = if name_in f fs then fs else f ∷ fs

-- The functions that the trace uses.
unfoldable pub used_at : Module → List FixLoc → List Text → Outcome (List Text)
used_at m [] used = ok used
used_at m (l ∷ ls) used = insts m l >>= λ is. elim is [
  | [] ↦ used_at m ls used
  | i ∷ js ↦ function_of m i.id >>= λ f. used_at m ls (insert_function f used)
]

abbrev pub used_at_frame : Module → Option (List FixLoc) → List Text → Outcome (List Text)
used_at_frame m none used = ok used
used_at_frame m (some locs) used = used_at m locs used

unfoldable pub used_in_stack : Module → Mapper → List LocationInfo → List Text → Outcome (List Text)
used_in_stack m mapper [] used = ok used
used_in_stack m mapper (li ∷ lis) used =
    used_at_frame m (mapper li) used >>= used_in_stack m mapper lis

unfoldable pub used_in_trace : Module → Mapper → List TraceEvent → List Text → Outcome (List Text)
used_in_trace m mapper [] used = ok used
used_in_trace m mapper (te ∷ tes) used =
    used_in_stack m mapper te.callstack used >>= used_in_trace m mapper tes

-- The functions of the whitelist that the module has.
unfoldable pub whitelisted : Module → List Text
whitelisted m = if has_name m (codes "pmemobj_open") then codes "pmemobj_open" ∷ [] else []

unfoldable pub called_in : List Inst → List Text
called_in [] = []
called_in (i ∷ is) = elim (called_function i.op) [
  | none ↦ called_in is
  | some f ↦ FnInfo.name f ∷ called_in is
]

unfoldable pub called_in_blocks : List Block → List Text
called_in_blocks [] = []
called_in_blocks (b ∷ bs) = called_in b.insts ++ called_in_blocks bs

abbrev pub called_by : Option Function → List Text
called_by none = []
called_by (some f) =
    if FnInfo.declaration (Function.info f) || is_intrinsic (FnInfo.intrinsic (Function.info f))
    then []
    else called_in_blocks (Function.blocks f)

-- What a function calls, where it has a body.
unfoldable pub callees : Module → Text → List Text
callees m name = called_by (find_function m name)

-- The functions called are explored and put into the whitelist, if they are not there.
unfoldable pub push_new : List Text → List Text × List Text → List Text × List Text
push_new [] s = s
push_new (c ∷ cs) (explore, wlist) =
    push_new cs (if name_in c wlist then (explore, wlist) else (explore ++ c ∷ [], c ∷ wlist))

unfoldable pub explore : (Text → List Text) → ℕ → List Text → List Text → Option (List Text)
explore next zero frontier wlist = none
explore next (suc k) [] wlist = some wlist
explore next (suc k) (v ∷ vs) wlist =
    let s = push_new (next v) (vs, wlist) in explore next k s.0 s.1

-- The users that are not yet in the set.
unfoldable pub new_of : List Text → List Text → List Text → List Text
new_of used [] next = next
new_of used (f ∷ fs) next = new_of used fs (if name_in f used then next else insert_function f next)

unfoldable pub next_users : (Text → List Text) → List Text → List Text → List Text → List Text
next_users users used [] next = next
next_users users used (v ∷ vs) next = next_users users used vs (new_of used (users v) next)

unfoldable pub grow : (Text → List Text) → ℕ → List Text → Option (List Text)
grow users zero used = none
grow users (suc k) used =
    let next = next_users users used used [] in
    let rest = grow users k (used ++ next) in elim next [ [] ↦ some used | f ∷ fs ↦ rest ]

-- The functions that keep their bodies.
unfoldable pub needed :
    (Text → List Text) → ℕ → Module → Mapper → List TraceEvent → Outcome (Option (List Text))
needed users fuel m mapper tes = do
  used ← used_in_trace m mapper tes []
  elim (explore (callees m) fuel (whitelisted m) (whitelisted m)) [
    | none ↦ ok none
    | some wlist ↦ ok (grow users fuel (used ++ wlist))
  ]

-- `deleteBody`
abbrev pub stripped : Function → Function
stripped f = record f { blocks = []; info = record (Function.info f) { declaration = true } }

abbrev pub body_if : Bool → Function → Function
body_if true f = f
body_if false f = stripped f

unfoldable pub strip : List Text → Module → Module
strip used [] = []
strip used (f ∷ fs) = body_if (name_in f.name used) f ∷ strip used fs
