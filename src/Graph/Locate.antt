-- ===== src/Graph/Locate.antt =====
-- src/FlowAnalyzer.cpp: `ContextBlock::create` from an event of the trace. The calls of its stack lead
-- to the context, the location to the block. The demangling of names is a parameter; `insts_at` is
-- what `BugLocationMapper::insts` has at a location.
use hippocrates.Base.{
  ℕ, Bool, true, false, not, ◌||◌, Option, none, some, List, [], ◌∷◌, ◌++◌, ◌==◌, is_empty, map,
  if◌then◌else◌, Text, occurs_in, Outcome, ok, aborted, assert, ◌>>=◌, ◌>>◌,
}
use hippocrates.Location.{LocationInfo, valid}
use hippocrates.Location
use hippocrates.Ir.{Module, Inst, FnInfo, Value, parent, non_debug}
use hippocrates.FixLoc.{FixLoc, insts, is_valid}
use hippocrates.Mapping.{is_dbg_declare}
use hippocrates.Raise.{Mapper, at, is_some}
use hippocrates.PmDesc.{Anders, add_known_pm_value}
use hippocrates.Trace.{TraceEvent}
use hippocrates.Trace.Resolve.{called, one_function, function_named}
use hippocrates.Trace.Values.{pm_values}
use hippocrates.Graph.{
  FnContext, Contexts, create_context, do_call, with_pm, Window, enters, create_window,
}

module _ (demangle : Text → Text) where
  -- A call that may be the one of the callee.
  unfoldable pub may_enter : LocationInfo → Option FnInfo → Bool
  may_enter callee none = true
  may_enter callee (some f) =
      if is_dbg_declare f.intrinsic then false else occurs_in callee.function (demangle f.name)

  unfoldable pub entering : LocationInfo → List Inst → List (ℕ × Option FnInfo)
  entering callee [] = []
  entering callee (i ∷ is) =
      let rest = entering callee is in
      elim (called i.op) [
        | none ↦ rest
        | some f ↦ if may_enter callee f then (i.id, f) ∷ rest else rest
      ]

  -- `possibleCallSites`
  unfoldable pub entering_at :
      Module → LocationInfo → List FixLoc → Outcome (List (ℕ × Option FnInfo))
  entering_at m callee [] = ok []
  entering_at m callee (l ∷ ls) = do
    assert (is_valid m l)
    is ← insts m l
    rest ← entering_at m callee ls
    ok (entering callee is ++ rest)

abbrev pub function_at : ℕ × Option FnInfo → Option FnInfo
function_at s = s.1

-- The first of the call sites, which must all call one function.
abbrev pub site_of : List (ℕ × Option FnInfo) → Outcome (ℕ × Option FnInfo)
site_of [] = aborted
site_of (s ∷ ss) = one_function (s.1 ∷ map function_at ss) >>= λ f. ok (s.0, f)

unfoldable pub name_at : Module → LocationInfo → Option FnInfo → Outcome Text
name_at m callee none = function_named m callee.function
name_at m callee (some f) = ok f.name

-- The instructions in front of one, the nearest first.
unfoldable pub in_front : ℕ → List Inst → List Inst → List Inst
in_front p [] seen = []
in_front p (i ∷ is) seen = let rest = in_front p is (i ∷ seen) in if i.id == p then seen else rest

-- The first instruction of the block, from one of it and those in front of that.
unfoldable pub scroll_up : ℕ → List Inst → ℕ
scroll_up first [] = first
scroll_up first (i ∷ is) = let more = scroll_up i.id is in if enters i.op then first else more

unfoldable pub start_of : Module → ℕ → Outcome ℕ
start_of m p = elim (parent m p) [
  | none ↦ aborted
  | some (f, b) ↦ ok (scroll_up p (non_debug (in_front p b.insts [])))
]

unfoldable pub learn : Anders → ℕ → List Value → Contexts → Outcome Contexts
learn anders n [] cs = ok cs
learn anders n (v ∷ vs) cs = do
  d ← add_known_pm_value anders (FnContext.pm (cs.context n)) v
  learn anders n vs (with_pm n d cs)

-- What the loop over the stack has: the frames so far, the context, and all contexts.
pub record Entered : Type 0 where
  pub frames : List LocationInfo
  pub ctx : ℕ
  pub contexts : Contexts

abbrev pub entered_by :
    LocationInfo → LocationInfo → List LocationInfo → ℕ × Text → Entered → Entered
entered_by callee caller rest (cb, name) e =
    let r = do_call e.ctx cb e.contexts in
    record { frames = record callee { function = name } ∷ caller ∷ rest; ctx = r.0; contexts = r.1 }

module _ (demangle : Text → Text) (anders : Anders) (m : Module) (mapper : Mapper)
    (insts_at : LocationInfo → Option (List ℕ)) where
  -- The call of a frame in the one around it, and the name of what is called.
  unfoldable pub call_of : LocationInfo → LocationInfo → Outcome (ℕ × Text)
  call_of caller callee = do
    locs ← at mapper caller
    sites ← entering_at demangle m callee locs
    site ← site_of sites
    name ← name_at m callee site.1
    ok (site.0, name)

  -- One round of the loop, on the frame of a callee and the one around it.
  unfoldable pub enter_frame : LocationInfo → List LocationInfo → Entered → Outcome Entered
  enter_frame callee [] e = ok (record e { frames = callee ∷ [] })
  enter_frame callee (caller ∷ rest) e =
      if not (valid caller) || not (is_some (mapper caller))
      then ok (record e { frames = callee ∷ caller ∷ rest })
      else (call_of caller callee >>= λ c. ok (entered_by callee caller rest c e))

  -- The loop goes from the outermost frame, which is the last, to the innermost.
  unfoldable pub enter_stack : List LocationInfo → ℕ × Contexts → Outcome Entered
  enter_stack [] (n, cs) = ok (record { frames = []; ctx = n; contexts = cs })
  enter_stack (callee ∷ callers) s =
      enter_stack callers s >>= λ e. enter_frame callee (Entered.frames e) e

  abbrev pub entered_at : TraceEvent → LocationInfo → Entered → TraceEvent
  entered_at te l e =
      let te' = record te { callstack = e.frames } in
      if not (Location.eq l te.location) then record te' { location = l } else te'

  -- The block at an instruction, with what the event knows to be persistent.
  unfoldable pub locate_at :
      TraceEvent → LocationInfo → ℕ → Entered → Outcome (Window × (TraceEvent × Contexts))
  locate_at te l p e = do
    assert (is_some (mapper l))
    vs ← pm_values m mapper te
    assert (not (is_empty vs))
    known ← learn anders e.ctx vs e.contexts
    first ← start_of m p
    w ← create_window m e.ctx first p
    ok (w, (te, known))

  unfoldable pub locate_from :
      TraceEvent
      → LocationInfo
      → Option (List ℕ)
      → Entered
      → Outcome (Window × (TraceEvent × Contexts))
  locate_from te l (some (p ∷ ps)) e = locate_at (entered_at te l e) l p e
  locate_from te l _ e = aborted

  unfoldable pub locate_in :
      TraceEvent → List LocationInfo → Entered → Outcome (Window × (TraceEvent × Contexts))
  locate_in te [] e = aborted
  locate_in te (l ∷ ls) e = locate_from te l (insts_at l) e

  -- The block of the event, with its context, the event as it is left, and all contexts.
  unfoldable pub locate : TraceEvent → Contexts → Outcome (Window × (TraceEvent × Contexts))
  locate te cs =
      enter_stack te.callstack (create_context cs) >>= λ e. locate_in te (Entered.frames e) e
