-- ===== src/Aliases/Ends.antt =====
-- src/BugFixer.cpp: the loops of `runTraceAA` end, and what it leaves of the module.
use hippocrates.Base.{
  ℕ, suc, ◌+◌, ◌≤◌, ◌≡◌, refl, sym, ap, ◌∙◌, ◌⊎◌, inl, inr, Bool, true, false, Option, some, List,
  [], ◌∷◌, ◌++◌, length, if◌then◌else◌, Text, text_eq, text_eq_iff, ok, aborted, arith, Bool-cases,
  Outcome-cases, some_injective,
}
use hippocrates.Ir.{Module, Function, FnInfo}
use hippocrates.Generator.Clone.{find_function}
use hippocrates.Raise.{Mapper, name_in}
use hippocrates.Trace.{TraceEvent}
use hippocrates.Aliases.{body_if, used_in_trace, whitelisted, callees, needed, strip}
use hippocrates.Aliases.Names.{In, unseen}
use hippocrates.Aliases.Explored.{explore-ends}
use hippocrates.Aliases.Grown.{grow-ends}

unseen-length : (xs w : List Text) → unseen xs w ≤ length xs
unfolding unseen
unseen-length [] w = omega arith
unseen-length (x ∷ xs) w = let rest = unseen-length xs w in ground (arith, rest)

whitelisted-length : (m : Module) → length (whitelisted m) ≤ 1
unfolding whitelisted
whitelisted-length m = ground arith

-- Two rounds for each name, and two more.
abbrev pub rounds_for : List Text → ℕ
rounds_for names = suc (suc (length names + length names))

module _ (users : Text → List Text) (m : Module) (mapper : Mapper) where
  -- Where all users and all functions called are among some names, as they are among those of the
  -- module, both loops end with two rounds for each of them and two more: the preparation of the
  -- analysis stops at an assertion, or says which functions keep their bodies.
  pub needed_ends :
      (names : List Text) (tes : List TraceEvent)
      → ((x y : Text) → In y (users x) → In y names)
      → ((x y : Text) → In y (callees m x) → In y names)
      → (needed users (rounds_for names) m mapper tes ≡ aborted)
        ⊎ ((kept : List Text) × (needed users (rounds_for names) m mapper tes ≡ ok (some kept)))
  unfolding needed
  needed_ends names tes used_inside called_inside =
      elim (Outcome-cases (used_in_trace m mapper tes [])) [
        | inl e ↦ inl (rw (needed, e) refl)
        | inr (used, e) ↦
            let start = whitelisted m in
            let few = whitelisted-length m in
            let left = unseen-length names start in
            let (wlist, explored) =
              explore-ends (callees m) start names (rounds_for names) start start called_inside
                (omega (arith, few, left)) in
            let more = unseen-length names (used ++ wlist) in
            let (kept, grown) =
              grow-ends users names (rounds_for names) (used ++ wlist) used_inside
                (omega (arith, more)) in
            inr (kept, rw (needed, e, explored) (ap ok grown))
      ]

body_if-name : (b : Bool) (f : Function) → FnInfo.name (Function.info (body_if b f)) ≡ f.name
body_if-name true f = refl
body_if-name false f = refl

found_first :
    (g : Function) (gs : Module) (name : Text)
    → text_eq g.name name ≡ true
    → find_function (g ∷ gs) name ≡ some g
unfolding find_function
found_first g gs name e = if_true _ _ _ e
  where
    if_true : (b : Bool) (x y : Option Function) → b ≡ true → (if b then x else y) ≡ x
    if_true b x y h = rw (h) refl

found_later :
    (g : Function) (gs : Module) (name : Text)
    → text_eq g.name name ≡ false
    → find_function (g ∷ gs) name ≡ find_function gs name
unfolding find_function
found_later g gs name e = if_false _ _ _ e
  where
    if_false : (b : Bool) (x y : Option Function) → b ≡ false → (if b then x else y) ≡ y
    if_false b x y h = rw (h) refl

-- A function of the module has its body exactly if it is among those that keep theirs.
pub strip-body :
    (used : List Text) (m : Module) (name : Text) (f : Function)
    → find_function m name ≡ some f
    → find_function (strip used m) name ≡ some (body_if (name_in name used) f)
unfolding strip find_function
strip-body used [] name f e = absurd (ground (arith, e))
strip-body used (g ∷ gs) name f e =
    let now = body_if (name_in g.name used) g in
    let named = body_if-name (name_in g.name used) g in
    elim (Bool-cases (text_eq g.name name)) [
      | inl here ↦
          let same : g ≡ f = some_injective (sym (found_first g gs name here) ∙ e) in
          let at_name : g.name ≡ name = (text_eq_iff g.name name).0 here in
          found_first now (strip used gs) name (ap (λ n. text_eq n name) named ∙ here)
          ∙ ap (λ n. some (body_if (name_in n used) g)) at_name
          ∙ ap (λ (z : Function). some (body_if (name_in name used) z)) same
      | inr there ↦
          found_later now (strip used gs) name (ap (λ n. text_eq n name) named ∙ there)
          ∙ strip-body used gs name f (sym (found_later g gs name there) ∙ e)
    ]
