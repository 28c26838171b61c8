-- ===== src/Base/Texts.antt =====
-- Byte strings, with what the code uses of `std::string`, and the signed 64-bit numbers.
use Prim.Native.Nat.{ℕ}
use Prim.Native.Char.{code}
use Prim.Native.String.{String}
use mathlib.Core.Path.{◌≡◌, refl, ap}
use mathlib.Core.Logic.{◌↔◌, inl, inr}
use mathlib.Core.Bool.{Bool, true, false, ◌&&◌}
use mathlib.Core.List.{List, [], ◌∷◌, ◌++◌}
use native.Mathlib.Omega.{arith}
use hippocrates.Base.Tests.{◌==◌, if◌then◌else◌, Bool-cases}

abbrev pub Text : Type 0
Text = List ℕ

-- The bytes of an ASCII text.
abbrev pub codes : String → Text
codes String.[] = []
codes (String.◌∷◌ c s) = code c ∷ codes s

unfoldable pub text_eq : Text → Text → Bool
text_eq [] [] = true
text_eq [] (y ∷ ys) = false
text_eq (x ∷ xs) [] = false
text_eq (x ∷ xs) (y ∷ ys) = (x == y) && text_eq xs ys

unfoldable pub starts_with : Text → Text → Bool
starts_with [] t = true
starts_with (x ∷ p) [] = false
starts_with (x ∷ p) (y ∷ t) = (x == y) && starts_with p t

-- Whether `t.find(p) != std::string::npos`.
unfoldable pub occurs_in : Text → Text → Bool
unfolding starts_with
occurs_in p [] = starts_with p []
occurs_in p (y ∷ t) = let rest = occurs_in p t in if starts_with p (y ∷ t) then true else rest

unfoldable pub has : ℕ → Text → Bool
has c [] = false
has c (x ∷ t) = let rest = has c t in if x == c then true else rest

abbrev pub IsInfix : Text → Text → Type 0
IsInfix p t = (pre : Text) × (post : Text) × (t ≡ pre ++ (p ++ post))

pub text_eq_iff : (s t : Text) → (text_eq s t ≡ true) ↔ (s ≡ t)
unfolding text_eq
text_eq_iff [] [] = (λ _. refl, λ _. refl)
text_eq_iff [] (y ∷ ys) = (λ h. cc, λ h. cc)
text_eq_iff (x ∷ xs) [] = (λ h. cc, λ h. cc)
text_eq_iff (x ∷ xs) (y ∷ ys) = ground (arith, text_eq_iff xs ys)

starts_with_iff : (p t : Text) → (starts_with p t ≡ true) ↔ ((post : Text) × (t ≡ p ++ post))
unfolding starts_with
starts_with_iff [] t = (λ _. (t, refl), λ _. refl)
starts_with_iff (x ∷ p) [] = (λ h. cc, λ h. cc)
starts_with_iff (x ∷ p) (y ∷ t) = (
  λ h. let (post, e) = (starts_with_iff p t).0 (ground arith) in (post, ground arith),
  λ (post, e). ground (arith, (starts_with_iff p t).1 (post, ground arith)),
)

IsInfix-occurs_in : (p t pre post : Text) → t ≡ pre ++ (p ++ post) → occurs_in p t ≡ true
unfolding occurs_in
IsInfix-occurs_in p [] [] post e = (starts_with_iff p []).1 (post, e)
IsInfix-occurs_in p [] (x ∷ pre) post e = cc
IsInfix-occurs_in p (y ∷ t) [] post e = rw ((starts_with_iff p (y ∷ t)).1 (post, e)) refl
IsInfix-occurs_in p (y ∷ t) (x ∷ pre) post e = ground (arith, IsInfix-occurs_in p t pre post)

occurs_in-IsInfix : (p t : Text) → occurs_in p t ≡ true → IsInfix p t
unfolding occurs_in
occurs_in-IsInfix p [] h = let (post, e) = (starts_with_iff p []).0 h in ([], post, e)
occurs_in-IsInfix p (y ∷ t) h = elim (Bool-cases (starts_with p (y ∷ t))) [
  | inl here ↦ let (post, e) = (starts_with_iff p (y ∷ t)).0 here in ([], post, e)
  | inr later ↦
      let (pre, post, e) = occurs_in-IsInfix p t (rw later at h) in
      (y ∷ pre, post, ap (λ r. y ∷ r) e)
]

-- The search finds the pattern exactly when the pattern is a part of the text.
pub occurs_in_iff : (p t : Text) → (occurs_in p t ≡ true) ↔ IsInfix p t
occurs_in_iff p t = (occurs_in-IsInfix p t, λ (pre, post, e). IsInfix-occurs_in p t pre post e)

-- What stands behind the last `c`, or the whole text: `find_last_of` and `substr`.
unfoldable pub after_last : ℕ → Text → Text
after_last c [] = []
after_last c (x ∷ t) =
    let rest = after_last c t in if has c t then rest else if x == c then t else x ∷ t
