-- ===== src/Trace/Resolve/Frames.antt =====
-- What `resolveLocations` changes in a call stack (src/BugReports.cpp).
use hippocrates.Base.{
  ◌≡◌, refl, sym, ◌∙◌, ap, subst, ◌⊎◌, inl, inr, Bool, true, false, not, ◌&&◌, ◌||◌, none, List, [],
  ◌∷◌, Text, Outcome, ok, aborted, ◌>>=◌, arith, Bool-cases, Option-cases, ok_injective, went_on,
  if◌then◌else◌,
}
use hippocrates.Location.{LocationInfo, valid}
use hippocrates.Location
use hippocrates.Location.Matching.{eq_refl}
use hippocrates.Ir.{Module}
use hippocrates.Raise.{Mapper, is_some}
use hippocrates.Trace.{TraceEvent}
use hippocrates.Trace.Resolve.{called_name, resolve_frame, resolve_stack, resolve_locations}

no_place : (a b : Bool) → (not a || not b) ≡ true → (a && b) ≡ false
no_place a b h = ground (arith, h)

a_place : (a b : Bool) → (not a || not b) ≡ false → (a && b) ≡ true
a_place a b h = ground (arith, h)

module _ (demangle : Text → Text) (m : Module) (mapper : Mapper) where
  -- A frame afterwards, below the frame around it: it is as it was where that frame has no location in
  -- the module or the frame itself has one, and else it has the name of what that frame calls.
  abbrev pub Renamed : LocationInfo → LocationInfo → LocationInfo → Type 0
  Renamed caller callee l =
      ((valid caller && is_some (mapper caller)) ≡ true)
      × (mapper callee ≡ none)
      × ((name : Text) × (called_name demangle m mapper caller callee ≡ ok name)
          × (l ≡ record callee { function = name }))

  abbrev pub Kept : LocationInfo → LocationInfo → LocationInfo → Type 0
  Kept caller callee l =
      (l ≡ callee)
      × (((valid caller && is_some (mapper caller)) ≡ false) ⊎ (is_some (mapper callee) ≡ true))

  -- A stack and what it is resolved to, from the outermost frame in.
  pub data Resolves : List LocationInfo → List LocationInfo → Type 0 where
    empty_stack : Resolves [] []
    outermost : (l : LocationInfo) → Resolves (l ∷ []) (l ∷ [])
    inner :
        (callee l caller : LocationInfo) (callers rest : List LocationInfo)
        → Resolves callers (caller ∷ rest)
        → Renamed caller callee l ⊎ Kept caller callee l
        → Resolves (callee ∷ callers) (l ∷ caller ∷ rest)

  abbrev resolve_below : LocationInfo → List LocationInfo → Outcome (List LocationInfo)
  resolve_below callee outer = elim outer [
    | [] ↦ ok (callee ∷ [])
    | caller ∷ rest ↦ resolve_frame demangle m mapper caller callee >>= λ l. ok (l ∷ caller ∷ rest)
  ]

  resolve_frame-Renamed :
      (caller callee l : LocationInfo)
      → resolve_frame demangle m mapper caller callee ≡ ok l
      → Renamed caller callee l ⊎ Kept caller callee l
  unfolding resolve_frame
  resolve_frame-Renamed caller callee l ran =
      elim (Bool-cases (not (valid caller) || not (is_some (mapper caller)))) [
        | inl e ↦ inr (
          sym (ok_injective (rw (resolve_frame, e) at ran)),
          inl (no_place (valid caller) (is_some (mapper caller)) e),
        )
        | inr e ↦ elim (Option-cases (mapper callee)) [
          | inr (locs, k) ↦
              inr (sym (ok_injective (rw (resolve_frame, e, k) at ran)), inr (ap is_some k ∙ refl))
          | inl k ↦
              let (name, called, end) =
                went_on (called_name demangle m mapper caller callee) _ l
                  (rw (resolve_frame, e, k) at ran) in
              inl (
                a_place (valid caller) (is_some (mapper caller)) e,
                k,
                (name, called, sym (ok_injective end)),
              )
        ]
      ]

  resolved_cons :
      (callee : LocationInfo) (outer out : List LocationInfo)
      → resolve_below callee outer ≡ ok out
      → (l : LocationInfo) × (rest : List LocationInfo) × (out ≡ l ∷ rest)
  resolved_cons callee [] out h = (callee, [], sym (ok_injective h))
  resolved_cons callee (caller ∷ rest) out h =
      let (l, e, end) = went_on (resolve_frame demangle m mapper caller callee) _ out h in
      (l, caller ∷ rest, sym (ok_injective end))

  resolve_stack-Resolves :
      (stack out : List LocationInfo)
      → resolve_stack demangle m mapper stack ≡ ok out
      → Resolves stack out
  unfolding resolve_stack
  resolve_stack-Resolves [] out ran = subst (Resolves []) (ok_injective ran) empty_stack
  resolve_stack-Resolves (callee ∷ []) out ran =
      subst (Resolves (callee ∷ [])) (ok_injective ran) (outermost callee)
  resolve_stack-Resolves (callee ∷ (c ∷ cs)) out ran =
      let (outer, e, more) =
        went_on (resolve_stack demangle m mapper (c ∷ cs)) (resolve_below callee) out ran in
      let (outer', e', more') =
        went_on (resolve_stack demangle m mapper cs) (resolve_below c) outer e in
      let (caller, rest, same) = resolved_cons c outer' outer more' in
      let (l, at_frame, end) =
        went_on (resolve_frame demangle m mapper caller callee) (λ l. ok (l ∷ caller ∷ rest)) out
          (subst (λ o. resolve_below callee o ≡ ok out) same more) in
      subst (Resolves (callee ∷ (c ∷ cs))) (ok_injective end) (
        inner callee l caller (c ∷ cs) rest
          (subst (Resolves (c ∷ cs)) same (resolve_stack-Resolves (c ∷ cs) outer e))
          (resolve_frame-Renamed caller callee l at_frame))

  abbrev located : TraceEvent → List LocationInfo → Outcome TraceEvent
  located te stack = elim stack [
    | [] ↦ aborted
    | l ∷ ls ↦
        let te' : TraceEvent = record te { callstack = l ∷ ls } in
        ok (if not (Location.eq l te.location) then record te' { location = l } else te')
  ]

  abbrev pub EventResolves : TraceEvent → TraceEvent → Type 0
  EventResolves te te' =
      (l : LocationInfo) × (ls : List LocationInfo) × Resolves te.callstack (l ∷ ls)
      × (Location.eq l te'.location ≡ true)
      × (te' ≡ record te { callstack = l ∷ ls; location = te'.location })

  located-Resolves :
      (te te' : TraceEvent) (stack : List LocationInfo)
      → located te stack ≡ ok te'
      → Resolves te.callstack stack
      → EventResolves te te'
  located-Resolves te te' [] h r = ground (arith, h)
  located-Resolves te te' (l ∷ ls) h r = elim (Bool-cases (Location.eq l te.location)) [
    | inl e ↦
        let same : record te { callstack = l ∷ ls } ≡ te' = ok_injective (rw (e) at h) in
        subst (EventResolves te) same (l, ls, r, e, refl)
    | inr e ↦
        let same : record te { callstack = l ∷ ls; location = l } ≡ te' =
          ok_injective (rw (e) at h) in
        subst (EventResolves te) same (l, ls, r, eq_refl l, refl)
  ]

  -- What `resolveLocations` makes of an event: its stack is resolved frame by frame, from the outermost
  -- one in, and its location matches the innermost frame. Nothing else of the event is changed.
  pub resolve_locations-Resolves :
      (te te' : TraceEvent) → resolve_locations demangle m mapper te ≡ ok te' → EventResolves te te'
  unfolding resolve_locations
  resolve_locations-Resolves te te' ran =
      let (stack, e, more) =
        went_on (resolve_stack demangle m mapper te.callstack) (located te) te' ran in
      located-Resolves te te' stack more (resolve_stack-Resolves te.callstack stack e)
