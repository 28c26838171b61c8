-- ===== src/Aliases/Names.antt =====
-- Sets of names, the names that a set has not, and what can be reached from some.
use hippocrates.Base.{
  ℕ, suc, ◌+◌, ◌≤◌, ◌≡◌, refl, sym, subst, ◌↔◌, ◌⊎◌, inl, inr, Bool, true, false, List, [], ◌∷◌,
  if◌then◌else◌, Text, text_eq, text_eq_iff, Any, arith, Bool-cases, not_taken,
}
use hippocrates.Raise.{name_in}
use hippocrates.Aliases.{insert_function}

abbrev pub In : Text → List Text → Type 0
In x = Any (λ y. y ≡ x)

pub name_in-In : (x : Text) (xs : List Text) → name_in x xs ≡ true → In x xs
unfolding name_in
name_in-In x [] h = ground (arith, h)
name_in-In x (y ∷ ys) h = elim (Bool-cases (text_eq y x)) [
  | inl e ↦ inl ((text_eq_iff y x).0 e)
  | inr e ↦ inr (name_in-In x ys (not_taken _ _ _ _ e h))
]

pub In-name_in : (x : Text) (xs : List Text) → In x xs → name_in x xs ≡ true
unfolding name_in
In-name_in x [] h = absurd h
In-name_in x (y ∷ ys) h = elim (Bool-cases (text_eq y x)) [
  | inl e ↦ rw (name_in, e) refl
  | inr e ↦ elim h [
    | inl same ↦ absurd (apart e ((text_eq_iff y x).1 same))
    | inr there ↦ rw (name_in, e) (In-name_in x ys there)
  ]
]
  where
    apart : {b : Bool} → b ≡ false → b ≡ true → ⊥
    apart e f = ground (arith, e, f)

pub In-insert_function :
    (x f : Text) (fs : List Text) → In x (insert_function f fs) ↔ ((f ≡ x) ⊎ In x fs)
unfolding insert_function
In-insert_function x f fs = elim (Bool-cases (name_in f fs)) [
  | inl e ↦
      rw (insert_function, e)
        (
          λ h. inr h,
          λ h. elim h [
            | inl same ↦ subst (λ y. In y fs) same (name_in-In f fs e)
            | inr there ↦ there
          ],
        )
  | inr e ↦ rw (insert_function, e) (λ h. h, λ h. h)
]

-- How many of some names are not in a set.
unfoldable pub unseen : List Text → List Text → ℕ
unseen [] w = 0
unseen (x ∷ xs) w = (if name_in x w then 0 else 1) + unseen xs w

unseen-le : (xs w w' : List Text) → ((x : Text) → In x w → In x w') → unseen xs w' ≤ unseen xs w
unfolding unseen
unseen-le [] w w' h = omega arith
unseen-le (x ∷ xs) w w' h =
    let rest = unseen-le xs w w' h in
    elim (Bool-cases (name_in x w)) [
      | inl e ↦ rw (e, In-name_in x w' (h x (name_in-In x w e))) (omega (arith, rest))
      | inr e ↦ rw (e) (at_most (name_in x w') rest)
    ]
  where
    at_most : {a b : ℕ} (c : Bool) → a ≤ b → (if c then 0 else 1) + a ≤ 1 + b
    at_most c h = ground (arith, h)

-- A set with one more of them has fewer unseen.
pub unseen-more :
    (xs w w' : List Text) (f : Text)
    → ((x : Text) → In x w → In x w')
    → In f xs
    → name_in f w ≡ false
    → In f w'
    → suc (unseen xs w') ≤ unseen xs w
unfolding unseen
unseen-more [] w w' f h there new now = absurd there
unseen-more (x ∷ xs) w w' f h (inl same) new now =
    let rest = unseen-le xs w w' h in
    let out : name_in x w ≡ false = subst (λ y. name_in y w ≡ false) (sym same) new in
    let in_now : name_in x w' ≡ true = In-name_in x w' (subst (λ y. In y w') (sym same) now) in
    rw (out, in_now) (omega (arith, rest))
unseen-more (x ∷ xs) w w' f h (inr there) new now =
    let rest = unseen-more xs w w' f h there new now in
    let here = unseen-le (x ∷ []) w w' h in omega (arith, rest, here)

-- What is reached from the seeds by steps to what stands next.
pub data Reach (next : Text → List Text) (seeds : List Text) : Text → Type 0 where
  begins : (x : Text) → In x seeds → Reach next seeds x
  goes : (x y : Text) → Reach next seeds x → In y (next x) → Reach next seeds y

-- A set that has the seeds and all steps has what is reached.
pub Reach-In :
    (next : Text → List Text) (seeds w : List Text)
    → ((x : Text) → In x seeds → In x w)
    → ((x y : Text) → In x w → In y (next x) → In y w)
    → (x : Text) → Reach next seeds x
    → In x w
Reach-In next seeds w start closed _ (begins x h) = start x h
Reach-In next seeds w start closed _ (goes x y r h) =
    closed x y (Reach-In next seeds w start closed x r) h
