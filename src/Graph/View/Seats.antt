-- ===== src/Graph/View/Seats.antt =====
-- src/FlowAnalyzer.cpp: the contexts that `ContextBlock::create` makes for an event.
use hippocrates.Base.{
  ℕ, ◌<◌, ◌≡◌, refl, sym, ap, subst, inl, inr, not, ◌||◌, Option, none, some, List, [], ◌∷◌,
  is_empty, ◌==◌, Text, Outcome, ok, assert, ◌>>=◌, ◌>>◌, arith, Bool-cases, ok_injective, went_on,
  taken, not_taken,
}
use hippocrates.Location.{LocationInfo, valid}
use hippocrates.Ir.{Module, Value}
use hippocrates.PmDesc.{Anders, add_known_pm_value}
use hippocrates.Raise.{is_some, Mapper}
use hippocrates.Trace.{TraceEvent}
use hippocrates.Trace.Values.{pm_values}
use hippocrates.Graph.{
  first_context, FnContext, Contexts, create_context, allocate, do_call, with_pm, Window,
  create_window,
}
use hippocrates.Graph.Stores.{
  change-other, frame_of, with_pm-SameFrames, do_call-new, both_same, SameFrames,
}
use hippocrates.Graph.Frames.{
  Later, Framed, Later-again, do_call-Later, do_call-Framed, SameFrames-Framed,
}
use hippocrates.Graph.Locate.{
  entered_by, call_of, locate_in, locate_from, locate_at, learn, Entered, enter_frame, enter_stack,
  locate, start_of, entered_at,
}
use hippocrates.Graph.Shape.{create_window-Run}

-- A context that has been made, with the callers of all contexts, and those that were there before.
abbrev pub Placed : Contexts → ℕ → Contexts → Type 0
Placed before ctx cs = Later before cs × Framed cs × (ctx < cs.count)

SameFrames-Placed :
    (before cs cs' : Contexts) (ctx : ℕ)
    → SameFrames cs cs'
    → Placed before ctx cs
    → Placed before ctx cs'
SameFrames-Placed before cs cs' ctx (size, same) (later, framed, inside) = (
  Later-again before cs cs' later (omega (arith, size), λ x h. same x),
  SameFrames-Framed cs cs' (size, same) framed,
  omega (arith, size, inside),
)

do_call-Placed :
    (before : Contexts) (ctx cb : ℕ) (cs : Contexts)
    → Placed before ctx cs
    → Placed before (do_call ctx cb cs).0 (do_call ctx cb cs).1
do_call-Placed before ctx cb cs (later, framed, inside) =
    let (at_new, size, frame, old) = do_call-new ctx cb cs in
    (
      Later-again before cs (do_call ctx cb cs).1 later (do_call-Later ctx cb cs),
      do_call-Framed ctx cb cs inside framed,
      omega (arith, at_new, size),
    )

create_context-Placed :
    (cs : Contexts) → Framed cs → Placed cs (create_context cs).0 (create_context cs).1
unfolding create_context allocate
create_context-Placed cs framed = (
  (
    omega arith,
    λ x h. ap frame_of (change-other cs.count x first_context cs.context (ground (arith, h))),
  ),
  λ x p h e. elim (Bool-cases (x == cs.count)) [
    | inl new ↦ absurd (ground (arith, rw (new) at e))
    | inr old ↦
        let in_p = framed x p (ground (arith, old, h)) (rw (old) at e) in omega (arith, in_p)
  ],
  omega arith,
)

learn-SameFrames :
    (anders : Anders) (n : ℕ) (vs : List Value) (cs cs' : Contexts)
    → learn anders n vs cs ≡ ok cs'
    → SameFrames cs cs'
unfolding learn
learn-SameFrames anders n [] cs cs' ran = subst (SameFrames cs) (ok_injective ran) (refl, λ x. refl)
learn-SameFrames anders n (v ∷ vs) cs cs' ran =
    let (d, e, more) =
      went_on (add_known_pm_value anders (FnContext.pm (cs.context n)) v)
        (λ d. learn anders n vs (with_pm n d cs)) cs' ran in
    both_same cs (with_pm n d cs) cs' (with_pm-SameFrames n d cs)
      (learn-SameFrames anders n vs (with_pm n d cs) cs' more)

module _ (demangle : Text → Text) (anders : Anders) (m : Module) (mapper : Mapper)
    (insts_at : LocationInfo → Option (List ℕ)) where
  enter_frame-Placed :
      (before : Contexts) (callee : LocationInfo) (frames : List LocationInfo) (e e' : Entered)
      → enter_frame demangle anders m mapper insts_at callee frames e ≡ ok e'
      → Placed before e.ctx e.contexts
      → Placed before e'.ctx e'.contexts
  unfolding enter_frame
  enter_frame-Placed before callee [] e e' ran placed =
      subst (λ (z : Entered). Placed before z.ctx z.contexts) (ok_injective ran) placed
  enter_frame-Placed before callee (caller ∷ rest) e e' ran placed =
      elim (Bool-cases (not (valid caller) || not (is_some (mapper caller)))) [
        | inl h ↦
            subst (λ (z : Entered). Placed before z.ctx z.contexts)
              (ok_injective (taken _ _ _ _ h ran)) placed
        | inr h ↦
            let (c, called, end) =
              went_on (call_of demangle anders m mapper insts_at caller callee)
                (λ (c : ℕ × Text). ok (entered_by callee caller rest c e)) e'
                (not_taken _ _ _ _ h ran) in
            subst (λ (z : Entered). Placed before z.ctx z.contexts) (ok_injective end)
              (do_call-Placed before e.ctx c.0 e.contexts placed)
      ]

  enter_stack-Placed :
      (before : Contexts) (stack : List LocationInfo) (n : ℕ) (cs : Contexts) (e : Entered)
      → enter_stack demangle anders m mapper insts_at stack (n, cs) ≡ ok e
      → Placed before n cs
      → Placed before e.ctx e.contexts
  unfolding enter_stack
  enter_stack-Placed before [] n cs e ran placed =
      subst (λ (z : Entered). Placed before z.ctx z.contexts) (ok_injective ran) placed
  enter_stack-Placed before (callee ∷ callers) n cs e ran placed =
      let (outer, first, more) =
        went_on (enter_stack demangle anders m mapper insts_at callers (n, cs))
          (λ (o : Entered). enter_frame demangle anders m mapper insts_at callee o.frames o) e
          ran in
      enter_frame-Placed before callee outer.frames outer e more
        (enter_stack-Placed before callers n cs outer first placed)

  abbrev pub Located : Contexts → Window × (TraceEvent × Contexts) → Type 0
  Located before r = Placed before (Window.ctx r.0) r.1.1

  locate_at-Located :
      (before : Contexts) (te : TraceEvent) (l : LocationInfo) (p : ℕ) (e : Entered)
      (r : Window × (TraceEvent × Contexts))
      → locate_at demangle anders m mapper insts_at te l p e ≡ ok r
      → Placed before e.ctx e.contexts
      → Located before r
  unfolding locate_at
  locate_at-Located before te l p e r ran placed =
      let make : Contexts → ℕ → Outcome (Window × (TraceEvent × Contexts)) =
        λ known first. create_window m e.ctx first p >>= λ w. ok (w, (te, known)) in
      let begin : Contexts → Outcome (Window × (TraceEvent × Contexts)) =
        λ known. start_of m p >>= λ first. make known first in
      let (t, e1, ran1) =
        went_on (assert (is_some (mapper l)))
          (λ t. pm_values m mapper te >>= λ vs.
            assert (not (is_empty vs)) >> (learn anders e.ctx vs e.contexts >>= begin))
          r ran in
      let (vs, e2, ran2) =
        went_on (pm_values m mapper te)
          (λ vs. assert (not (is_empty vs)) >> (learn anders e.ctx vs e.contexts >>= begin)) r
          ran1 in
      let (u, e3, ran3) =
        went_on (assert (not (is_empty vs))) (λ u. learn anders e.ctx vs e.contexts >>= begin) r
          ran2 in
      let (known, e4, ran4) = went_on (learn anders e.ctx vs e.contexts) begin r ran3 in
      let (first, e5, ran5) = went_on (start_of m p) (make known) r ran4 in
      let (w, e6, end) =
        went_on (create_window m e.ctx first p) (λ w. ok (w, (te, known))) r ran5 in
      let at_ctx = (create_window-Run m e.ctx first p w e6).0 in
      subst (Located before) (ok_injective end) (
        subst (λ n. Placed before n known) (sym at_ctx)
          (SameFrames-Placed before e.contexts known e.ctx
            (learn-SameFrames anders e.ctx vs e.contexts known e4) placed))

  locate_from-Located :
      (before : Contexts) (te : TraceEvent) (l : LocationInfo) (ps : Option (List ℕ)) (e : Entered)
      (r : Window × (TraceEvent × Contexts))
      → locate_from demangle anders m mapper insts_at te l ps e ≡ ok r
      → Placed before e.ctx e.contexts
      → Located before r
  unfolding locate_from
  locate_from-Located before te l none e r ran placed = ground (arith, ran)
  locate_from-Located before te l (some []) e r ran placed = ground (arith, ran)
  locate_from-Located before te l (some (p ∷ ps)) e r ran placed =
      locate_at-Located before (entered_at demangle anders m mapper insts_at te l e) l p e r ran
        placed

  locate_in-Located :
      (before : Contexts) (te : TraceEvent) (frames : List LocationInfo) (e : Entered)
      (r : Window × (TraceEvent × Contexts))
      → locate_in demangle anders m mapper insts_at te frames e ≡ ok r
      → Placed before e.ctx e.contexts
      → Located before r
  unfolding locate_in
  locate_in-Located before te [] e r ran placed = ground (arith, ran)
  locate_in-Located before te (l ∷ ls) e r ran placed =
      locate_from-Located before te l (insts_at l) e r ran placed

  -- The block of an event stands in a context that has been made, and the contexts that were there
  -- before keep their frames.
  pub locate-Located :
      (te : TraceEvent) (cs : Contexts) (r : Window × (TraceEvent × Contexts))
      → locate demangle anders m mapper insts_at te cs ≡ ok r
      → Framed cs
      → Located cs r
  unfolding locate
  locate-Located te cs r ran framed =
      let (e, entered, more) =
        went_on (enter_stack demangle anders m mapper insts_at te.callstack (create_context cs))
          (λ (e : Entered). locate_in demangle anders m mapper insts_at te e.frames e) r ran in
      locate_in-Located cs te e.frames e r more (
        enter_stack-Placed cs te.callstack (create_context cs).0 (create_context cs).1 e entered
          (create_context-Placed cs framed))
