-- ===== src/Generator/Names.antt =====
-- src/FixGenerator.cpp: the names of functions with a body, and of their copies, are no names of a
-- flush or a fence.
use hippocrates.Base.{
  ◌≡◌, refl, ◌∙◌, ap, subst, inl, inr, Bool, true, false, ◌||◌, [], ◌∷◌, ◌++◌, Text, codes, text_eq,
  text_eq_iff, ◌==◌, arith, Any, Bool-cases,
}
use hippocrates.Ir.{Module, Function, Block}
use hippocrates.Generator.{clwb_function, sfence_function}
use hippocrates.Generator.Insert.{reserved_name, Bodiless}

-- The name that LLVM gives to a new function begins with the name asked for.
abbrev pub Unique : (Module → Text → Text) → Type 0
Unique unique = (m : Module) (name : Text) → (more : Text) × (unique m name ≡ name ++ more)

unfoldable underscore : Text → Bool
underscore [] = false
underscore (c ∷ cs) = (c == 95) || underscore cs

underscore-append : (xs ys : Text) → underscore (xs ++ 95 ∷ ys) ≡ true
unfolding underscore
underscore-append [] ys = refl
underscore-append (x ∷ xs) ys = ground (arith, underscore-append xs ys)

underscore-left : (xs ys : Text) → underscore xs ≡ true → underscore (xs ++ ys) ≡ true
unfolding underscore
underscore-left [] ys h = ground (arith, h)
underscore-left (x ∷ xs) ys h = ground (arith, h, underscore-left xs ys)

other_name :
    (name other : Text)
    → underscore name ≡ true
    → underscore other ≡ false
    → text_eq name other ≡ false
other_name name other h k = elim (Bool-cases (text_eq name other)) [
  | inl e ↦
      let same : underscore name ≡ underscore other =
        ap underscore ((text_eq_iff name other).0 e) in
      ground (arith, same, h, k)
  | inr e ↦ e
]

underscore-reserved_name : (name : Text) → underscore name ≡ true → reserved_name name ≡ false
unfolding underscore reserved_name
underscore-reserved_name name h =
    rw (other_name name clwb_function.name h refl, other_name name sfence_function.name h refl)

pub copy-reserved_name :
    (unique : Module → Text → Text) (m : Module) (f : Function)
    → Unique unique
    → reserved_name (unique m (f.name ++ codes "_NT")) ≡ false
copy-reserved_name unique m f u =
    let (more, e) = u m (f.name ++ codes "_NT") in
    underscore-reserved_name _ (
      ap underscore e
      ∙ underscore-left (f.name ++ codes "_NT") more (underscore-append f.name (78 ∷ 84 ∷ [])))

pub body-reserved_name :
    (m : Module) (f : Function) (b : Block)
    → Bodiless m
    → Any (λ g. g ≡ f) m
    → Any (λ c. c ≡ b) f.blocks
    → reserved_name f.name ≡ false
body-reserved_name [] f b h there has = absurd there
body-reserved_name (g ∷ m) f b h (inl e) has = elim (Bool-cases (reserved_name f.name)) [
  | inl r ↦
      let none_there : f.blocks ≡ [] =
        subst (λ (q : Function). reserved_name q.name ≡ true → q.blocks ≡ []) e h.0 r in
      absurd (subst (λ bs. Any (λ c. c ≡ b) bs) none_there has)
  | inr r ↦ r
]
body-reserved_name (g ∷ m) f b h (inr there) has = body-reserved_name m f b h.1 there has
