-- ===== src/Aliases/Kept.antt =====
-- src/BugFixer.cpp: the functions that keep their bodies in `runTraceAA`.
use hippocrates.Base.{
  ℕ, ◌≡◌, sym, ap, ◌∙◌, subst, ◌↔◌, ◌⊎◌, inl, inr, none, some, List, [], ◌∷◌, ◌++◌, Text,
  List-cases, Any, ok, arith, Option-cases, Outcome-cases, ok_injective, some_injective, went_on,
}
use hippocrates.Location.{LocationInfo}
use hippocrates.Ir.{Module, Inst}
use hippocrates.FixLoc.{FixLoc, insts}
use hippocrates.Raise.{Mapper, function_of}
use hippocrates.Trace.{TraceEvent}
use hippocrates.Aliases.{
  insert_function, used_at, used_at_frame, used_in_stack, used_in_trace, whitelisted, callees,
  explore, grow, needed,
}
use hippocrates.Aliases.Names.{In, In-insert_function, Reach, begins}
use hippocrates.Aliases.Explored.{explore-Reach}
use hippocrates.Aliases.Grown.{grow-Reach}

-- The two directions of a step that adds what has a property.
abbrev Adds : (Text → Type 0) → List Text → List Text → Type 0
Adds P used used' = (x : Text) → In x used' ↔ (P x ⊎ In x used)

Adds-again :
    (P Q R : Text → Type 0) (a b c : List Text)
    → ((x : Text) → R x ↔ (P x ⊎ Q x))
    → Adds P a b
    → Adds Q b c
    → Adds R a c
Adds-again P Q R a b c either first second x = (
  λ h. elim ((second x).0 h) [
    | inl q ↦ inl ((either x).1 (inr q))
    | inr there ↦ elim ((first x).0 there) [
      | inl p ↦ inl ((either x).1 (inl p))
      | inr old ↦ inr old
    ]
  ],
  λ h. elim h [
    | inl r ↦ elim ((either x).0 r) [
      | inl p ↦ (second x).1 (inr ((first x).1 (inl p)))
      | inr q ↦ (second x).1 (inl q)
    ]
    | inr old ↦ (second x).1 (inr ((first x).1 (inr old)))
  ],
)

Adds-none : (P : Text → Type 0) (used : List Text) → ((x : Text) → ¬ P x) → Adds P used used
Adds-none P used never x = (λ h. inr h, λ h. elim h [ inl p ↦ absurd (never x p) | inr old ↦ old ])

cons_head : {i j : Inst} {is js : List Inst} → i ∷ is ≡ j ∷ js → i ≡ j
cons_head e = cc

module _ (m : Module) where
  -- The function that the first instruction of a location stands in.
  abbrev pub StandsIn : Text → FixLoc → Type 0
  StandsIn x l =
      (i : Inst) × (js : List Inst) × (insts m l ≡ ok (i ∷ js)) × (function_of m i.id ≡ ok x)

  used_at-Adds :
      (ls : List FixLoc) (used end : List Text)
      → used_at m ls used ≡ ok end
      → Adds (λ x. Any (StandsIn x) ls) used end
  unfolding used_at
  used_at-Adds [] used end ran =
      subst (Adds (λ x. Any (StandsIn x) []) used) (ok_injective ran) (Adds-none _ used (λ x h. h))
  used_at-Adds (l ∷ ls) used end ran = elim (Outcome-cases (insts m l)) [
    | inl e ↦ absurd (ground (arith, rw (used_at, e) at ran))
    | inr (is, e) ↦ elim (List-cases is) [
      | inl none_there ↦
          let at_l : insts m l ≡ ok [] = e ∙ ap ok none_there in
          Adds-again (λ x. ⊥) (λ x. Any (StandsIn x) ls) (λ x. Any (StandsIn x) (l ∷ ls)) used used
            end
            (λ x. (
              λ h. elim h [
                | inl (i, js, some_there, f) ↦ absurd (ground (arith, some_there, at_l))
                | inr there ↦ inr there
              ],
              λ h. elim h [ inl never ↦ absurd never | inr there ↦ inr there ],
            ))
            (Adds-none (λ x. ⊥) used (λ x h. h))
            (used_at-Adds ls used end (rw (used_at, at_l) at ran))
      | inr (i, js, split) ↦
          let at_l : insts m l ≡ ok (i ∷ js) = e ∙ ap ok split in
          let (f, stands, more) =
            went_on (function_of m i.id) (λ f. used_at m ls (insert_function f used)) end
              (rw (used_at, at_l) at ran) in
          Adds-again (λ x. f ≡ x) (λ x. Any (StandsIn x) ls) (λ x. Any (StandsIn x) (l ∷ ls)) used
            (insert_function f used) end
            (λ x. (
              λ h. elim h [
                | inl (j, ks, at_j, g) ↦
                    let same : i ≡ j = cons_head (ok_injective (sym at_l ∙ at_j)) in
                    inl (ok_injective (sym stands ∙ ap (λ (z : Inst). function_of m z.id) same ∙ g))
                | inr there ↦ inr there
              ],
              λ h. elim h [
                | inl same ↦ inl (i, js, at_l, stands ∙ ap ok same)
                | inr there ↦ inr there
              ],
            ))
            (λ x. In-insert_function x f used) (used_at-Adds ls (insert_function f used) end more)
    ]
  ]

  module _ (mapper : Mapper) where
    -- The function of a location that a frame is mapped to.
    abbrev pub OfFrame : Text → LocationInfo → Type 0
    OfFrame x li = (locs : List FixLoc) × (mapper li ≡ some locs) × Any (StandsIn x) locs

    used_at_frame-Adds :
        (li : LocationInfo) (used end : List Text)
        → used_at_frame m (mapper li) used ≡ ok end
        → Adds (λ x. OfFrame x li) used end
    used_at_frame-Adds li used end ran = elim (Option-cases (mapper li)) [
      | inl e ↦
          subst (Adds (λ x. OfFrame x li) used) (ok_injective (rw (e) at ran))
            (Adds-none (λ x. OfFrame x li) used (λ x (locs, f, h). ground (arith, e, f)))
      | inr (locs, e) ↦
          let adds = used_at-Adds locs used end (rw (e) at ran) in
          λ x. (
            λ h. elim ((adds x).0 h) [ inl there ↦ inl (locs, e, there) | inr old ↦ inr old ],
            λ h. elim h [
              | inl (ls, f, there) ↦
                  (adds x).1 (inl (subst (Any (StandsIn x)) (some_injective (sym f ∙ e)) there))
              | inr old ↦ (adds x).1 (inr old)
            ],
          )
    ]

    used_in_stack-Adds :
        (lis : List LocationInfo) (used end : List Text)
        → used_in_stack m mapper lis used ≡ ok end
        → Adds (λ x. Any (OfFrame x) lis) used end
    unfolding used_in_stack
    used_in_stack-Adds [] used end ran =
        subst (Adds (λ x. ⊥) used) (ok_injective ran) (Adds-none (λ x. ⊥) used (λ x h. h))
    used_in_stack-Adds (li ∷ lis) used end ran =
        let (mid, first, more) =
          went_on (used_at_frame m (mapper li) used) (used_in_stack m mapper lis) end ran in
        Adds-again (λ x. OfFrame x li) (λ x. Any (OfFrame x) lis) (λ x. Any (OfFrame x) (li ∷ lis))
          used mid end (λ x. (λ h. h, λ h. h)) (used_at_frame-Adds li used mid first)
          (used_in_stack-Adds lis mid end more)

    abbrev pub OfEvent : Text → TraceEvent → Type 0
    OfEvent x te = Any (OfFrame x) te.callstack

    used_in_trace-Adds :
        (tes : List TraceEvent) (used end : List Text)
        → used_in_trace m mapper tes used ≡ ok end
        → Adds (λ x. Any (OfEvent x) tes) used end
    unfolding used_in_trace
    used_in_trace-Adds [] used end ran =
        subst (Adds (λ x. ⊥) used) (ok_injective ran) (Adds-none (λ x. ⊥) used (λ x h. h))
    used_in_trace-Adds (te ∷ tes) used end ran =
        let (mid, first, more) =
          went_on (used_in_stack m mapper te.callstack used) (used_in_trace m mapper tes) end ran in
        Adds-again (λ x. OfEvent x te) (λ x. Any (OfEvent x) tes) (λ x. Any (OfEvent x) (te ∷ tes))
          used mid end (λ x. (λ h. h, λ h. h)) (used_in_stack-Adds te.callstack used mid first)
          (used_in_trace-Adds tes mid end more)

    module _ (users : Text → List Text) where
      -- What keeps its body: from the functions of the trace and what the whitelist leads to, the users,
      -- and their users.
      abbrev pub Kept : List TraceEvent → List Text → Type 0
      Kept tes kept =
          (used : List Text) × (wlist : List Text) × ((x : Text) → In x used ↔ Any (OfEvent x) tes)
          × ((x : Text) → In x wlist ↔ Reach (callees m) (whitelisted m) x)
          × ((x : Text) → In x kept ↔ Reach users (used ++ wlist) x)

      -- The functions that keep their bodies for the analysis by trace are those that a function of the
      -- trace, or one that the whitelist leads to by calls, is used by, in one or more steps, and these
      -- themselves. A function is of the trace if the first instruction of a location that a frame of an
      -- event is mapped to stands in it.
      pub needed-Kept :
          (fuel : ℕ) (tes : List TraceEvent) (kept : List Text)
          → needed users fuel m mapper tes ≡ ok (some kept)
          → Kept tes kept
      unfolding needed
      needed-Kept fuel tes kept ran =
          let (used, traced, more) =
            went_on (used_in_trace m mapper tes [])
              (λ used. elim (explore (callees m) fuel (whitelisted m) (whitelisted m)) [
                | none ↦ ok none
                | some wlist ↦ ok (grow users fuel (used ++ wlist))
              ])
              (some kept) ran in
          elim (Option-cases (explore (callees m) fuel (whitelisted m) (whitelisted m))) [
            | inl e ↦ absurd (ground (arith, rw (e) at more))
            | inr (wlist, e) ↦
                let grown : grow users fuel (used ++ wlist) ≡ some kept =
                  ok_injective (rw (e) at more) in
                let adds = used_in_trace-Adds tes [] used traced in
                (
                  used,
                  wlist,
                  λ x. (
                    λ h. elim ((adds x).0 h) [ inl there ↦ there | inr never ↦ absurd never ],
                    λ h. (adds x).1 (inl h),
                  ),
                  explore-Reach (callees m) (whitelisted m) fuel wlist e,
                  grow-Reach users (used ++ wlist) fuel (used ++ wlist) kept
                      (λ x h. h, λ x h. begins x h) grown,
                )
          ]
