-- ===== src/Trace/Resolve.antt =====
-- `TraceInfoBuilder::resolveLocations` and `build` (src/BugReports.cpp): the function of a frame that
-- has no location is taken from the call in the frame around it. The demangling of names is a
-- parameter.
pub mod Frames
use hippocrates.Base.{
  ℕ, Bool, true, false, not, ◌&&◌, ◌||◌, Option, none, some, List, [], ◌∷◌, ◌++◌, ◌==◌, is_empty,
  if◌then◌else◌, Text, codes, text_eq, occurs_in, starts_with, Outcome, ok, aborted, assert, ◌>>=◌,
  ◌>>◌,
}
use hippocrates.Location.{LocationInfo, valid}
use hippocrates.Location
use hippocrates.Ir.{Module, Function, Inst, Op, FnInfo, Callee, direct, call}
use hippocrates.FixLoc.{FixLoc, insts, is_valid}
use hippocrates.Mapping.{is_dbg_declare}
use hippocrates.Raise.{Mapper, at, is_some}
use hippocrates.Trace.{TraceEvent, TraceInfo}
use hippocrates.Trace.Build.{YamlEvent, process_events}

-- What a call instruction calls; `some none` is a call of a pointer or of assembly.
abbrev pub called : Op → Option (Option FnInfo)
called (call (direct f) args) = some (some f)
called (call _ args) = some none
called _ = none

module _ (demangle : Text → Text) where
  -- A call that may be the one of the callee, by the names of the functions.
  unfoldable pub may_call : LocationInfo → Option FnInfo → Bool
  may_call callee none = true
  may_call callee (some f) =
      let name = demangle f.name in
      if is_dbg_declare f.intrinsic
      then false
      else occurs_in callee.function name
        || (occurs_in (codes "memset") name
            || (occurs_in (codes "memcpy") name
                || (occurs_in (codes "memmove") name || occurs_in (codes "strncpy") name)))

  unfoldable pub sites_in : LocationInfo → List Inst → List (Option FnInfo)
  sites_in callee [] = []
  sites_in callee (i ∷ is) =
      let rest = sites_in callee is in
      elim (called i.op) [ none ↦ rest | some f ↦ if may_call callee f then f ∷ rest else rest ]

  -- `possibleCallSites`
  unfoldable pub call_sites : Module → LocationInfo → List FixLoc → Outcome (List (Option FnInfo))
  call_sites m callee [] = ok []
  call_sites m callee (l ∷ ls) = do
    assert (is_valid m l)
    is ← insts m l
    rest ← call_sites m callee ls
    ok (sites_in callee is ++ rest)

-- Several call sites must all call one function.
unfoldable pub all_call : Text → List (Option FnInfo) → Bool
all_call name [] = true
all_call name (none ∷ fs) = false
all_call name (some f ∷ fs) = text_eq f.name name && all_call name fs

abbrev pub one_function : List (Option FnInfo) → Outcome (Option FnInfo)
one_function [] = aborted
one_function (f ∷ []) = ok f
one_function (none ∷ g ∷ fs) = aborted
one_function (some f ∷ g ∷ fs) = assert (all_call f.name (g ∷ fs)) >> ok (some f)

unfoldable pub has_name : Module → Text → Bool
has_name [] name = false
has_name (f ∷ fs) name = text_eq f.name name || has_name fs name

-- The byte behind the first place of the name in a text is a dot.
unfoldable pub dot_behind : Text → Text → Bool
dot_behind name [] = false
dot_behind name (c ∷ cs) =
    let rest = dot_behind name cs in
    if starts_with name (c ∷ cs) then starts_with (name ++ codes ".") (c ∷ cs) else rest

unfoldable pub candidates : Text → Module → List Text
candidates name [] = []
candidates name (f ∷ fs) =
    if dot_behind name f.name then f.name ∷ candidates name fs else candidates name fs

abbrev pub single_name : List Text → Outcome Text
single_name (x ∷ []) = ok x
single_name _ = aborted

-- A function pointer: the function with the name, or the only one whose mangled name has it.
unfoldable pub function_named : Module → Text → Outcome Text
function_named m name = if has_name m name then ok name else single_name (candidates name m)

module _ (demangle : Text → Text) (m : Module) (mapper : Mapper) where
  -- The name of what a frame calls.
  unfoldable pub called_name : LocationInfo → LocationInfo → Outcome Text
  called_name caller callee = do
    locs ← at mapper caller
    sites ← call_sites demangle m callee locs
    f ← one_function sites
    elim f [ some g ↦ ok g.name | none ↦ function_named m callee.function ]

  -- One round of the loop, on a frame and the one around it.
  unfoldable pub resolve_frame : LocationInfo → LocationInfo → Outcome LocationInfo
  resolve_frame caller callee =
      if not (valid caller) || not (is_some (mapper caller))
      then ok callee
      else if is_some (mapper callee)
      then ok callee
      else called_name caller callee >>= λ name. ok (record callee { function = name })

  -- The loop goes from the outermost frame, which is the last, to the innermost.
  unfoldable pub resolve_stack : List LocationInfo → Outcome (List LocationInfo)
  resolve_stack [] = ok []
  resolve_stack (callee ∷ callers) = do
    outer ← resolve_stack callers
    elim outer [
      | [] ↦ ok (callee ∷ [])
      | caller ∷ rest ↦ resolve_frame caller callee >>= λ l. ok (l ∷ caller ∷ rest)
    ]

  unfoldable pub resolve_locations : TraceEvent → Outcome TraceEvent
  resolve_locations te = resolve_stack te.callstack >>= λ stack. elim stack [
    | [] ↦ aborted
    | l ∷ ls ↦
        let te' = record te { callstack = l ∷ ls } in
        ok (if not (Location.eq l te.location) then record te' { location = l } else te')
  ]

  unfoldable pub resolve_all : List TraceEvent → Outcome (List TraceEvent)
  resolve_all [] = ok []
  resolve_all (e ∷ es) = do e' ← resolve_locations e; rest ← resolve_all es; ok (e' ∷ rest)

  -- `build`
  unfoldable pub build : TraceInfo → List YamlEvent → Outcome TraceInfo
  build ti nodes = do
    read ← process_events ti nodes
    events ← resolve_all read.events
    ok (record read { events = events })
