-- ===== src/Graph/Stores.antt =====
-- src/FlowAnalyzer.cpp: what calls and returns leave of the contexts. A context keeps its calls and
-- its parent, and only what it knows of persistent memory changes.
use hippocrates.Base.{
  taken, not_taken, Option-cases, ℕ, suc, ◌<◌, ◌≡◌, refl, sym, ◌∙◌, ap, subst, inl, inr, true,
  false, Option, none, some, List, ◌∷◌, if◌then◌else◌, ◌==◌, ==_iff, ok, arith, Bool-cases,
  ok_injective, went_on, ◌>>=◌,
}
use hippocrates.Ir.{Value}
use hippocrates.PmDesc.{Anders, PmDesc, add_known_pm_value, points_to_pm}
use hippocrates.Graph.{
  FnContext, Contexts, change, allocate, do_call, caller, with_pm, hand_back, call_value, returned,
  told, return_to_parent,
}

pub change-same {ℓ κ} :
    {A : Type ℓ} {B : Type κ} (f : A → B) (n x : ℕ) (a : A) (g : ℕ → A)
    → f a ≡ f (g n)
    → f (change n a g x) ≡ f (g x)
change-same f n x a g e = elim (Bool-cases (x == n)) [
  | inl h ↦ rw (h) (e ∙ ap (λ z. f (g z)) (sym ((==_iff x n).0 h)))
  | inr h ↦ rw (h) refl
]

pub change-other {ℓ} :
    {A : Type ℓ} (n x : ℕ) (a : A) (g : ℕ → A) → (x == n) ≡ false → change n a g x ≡ g x
change-other n x a g h = rw (h) refl

pub eq_refl : (n : ℕ) → (n == n) ≡ true
eq_refl n = ground arith

pub change-here {ℓ} : {A : Type ℓ} (n : ℕ) (a : A) (g : ℕ → A) → change n a g n ≡ a
change-here n a g = rw (eq_refl n) refl

-- The calls and the parent that a context has.
abbrev pub frame_of : FnContext → List ℕ × Option ℕ
frame_of c = (c.call_stack, c.parent)

-- No context is made, and all keep their frames.
abbrev pub SameFrames : Contexts → Contexts → Type 0
SameFrames cs cs' =
    (cs'.count ≡ cs.count) × ((x : ℕ) → frame_of (cs'.context x) ≡ frame_of (cs.context x))

pub with_pm-SameFrames : (n : ℕ) (d : PmDesc) (cs : Contexts) → SameFrames cs (with_pm n d cs)
with_pm-SameFrames n d cs =
    (refl, λ x. change-same frame_of n x (record (cs.context n) { pm = d }) cs.context refl)

hand_back-SameFrames : (p n : ℕ) (cs : Contexts) → SameFrames cs (hand_back p n cs)
hand_back-SameFrames p n cs = with_pm-SameFrames p _ cs

pub both_same : (a b c : Contexts) → SameFrames a b → SameFrames b c → SameFrames a c
both_same a b c (e, f) (g, h) = (g ∙ e, λ x. h x ∙ f x)

module _ (anders : Anders) where
  told-SameFrames :
      (c : FnContext) (p : ℕ) (v : Value) (cs cs' : Contexts)
      → told anders c p v cs ≡ ok cs'
      → SameFrames cs cs'
  unfolding told
  told-SameFrames c p v cs cs' ran =
      let (cb, e1, ran1) =
        went_on (caller c)
          (λ cb. add_known_pm_value anders (FnContext.pm (cs.context p)) (call_value cb v) >>= λ d.
            ok (with_pm p d cs))
          cs' ran in
      let (d, e2, end) =
        went_on (add_known_pm_value anders (FnContext.pm (cs.context p)) (call_value cb v))
          (λ d. ok (with_pm p d cs)) cs' ran1 in
      subst (SameFrames cs) (ok_injective end) (with_pm-SameFrames p d cs)

  returned-SameFrames :
      (c : FnContext) (p : ℕ) (v : Option Value) (cs cs' : Contexts)
      → returned anders c p v cs ≡ ok cs'
      → SameFrames cs cs'
  unfolding returned
  returned-SameFrames c p none cs cs' ran =
      subst (SameFrames cs) (ok_injective ran) (refl, λ x. refl)
  returned-SameFrames c p (some v) cs cs' ran = elim (Bool-cases v.pointer) [
    | inr e ↦
        subst (SameFrames cs) (ok_injective (not_taken v.pointer _ _ _ e ran)) (refl, λ x. refl)
    | inl e ↦
        let (b, e1, ran1) =
          went_on (points_to_pm anders c.pm v) (λ b. if b then told anders c p v cs else ok cs) cs'
            (taken v.pointer _ _ _ e ran) in
        elim (Bool-cases b) [
          | inl t ↦ told-SameFrames c p v cs cs' (taken b _ _ _ t ran1)
          | inr f ↦
              subst (SameFrames cs) (ok_injective (not_taken b _ _ _ f ran1)) (refl, λ x. refl)
        ]
  ]

  -- A return leads to the parent.
  pub return-SameFrames :
      (n : ℕ) (v : Option Value) (cs : Contexts) (r : ℕ × Contexts)
      → return_to_parent anders n v cs ≡ ok r
      → (FnContext.parent (cs.context n) ≡ some r.0) × SameFrames cs r.1
  unfolding return_to_parent
  return-SameFrames n v cs r ran = elim (Option-cases (FnContext.parent (cs.context n))) [
    | inl e ↦ absurd (ground (arith, rw (return_to_parent, e) at ran))
    | inr (p, e) ↦
        let (known, e1, end) =
          went_on (returned anders (cs.context n) p v cs) (λ known. ok (p, hand_back p n known)) r
            (rw (return_to_parent, e) at ran) in
        subst
          (λ (q : ℕ × Contexts). (FnContext.parent (cs.context n) ≡ some q.0) × SameFrames cs q.1)
          (ok_injective end)
          (
            e,
            both_same cs known (hand_back p n known)
                (returned-SameFrames (cs.context n) p v cs known e1)
                (hand_back-SameFrames p n known),
          )
  ]

-- A new context has the last number, and leaves the others.
pub do_call-new :
    (n cb : ℕ) (cs : Contexts)
    → let r = do_call n cb cs in
      (r.0 ≡ cs.count)
      × (Contexts.count r.1 ≡ suc cs.count)
      × (frame_of (Contexts.context r.1 cs.count)
          ≡ (cb ∷ FnContext.call_stack (cs.context n), some n))
      × ((x : ℕ) → x < cs.count → Contexts.context r.1 x ≡ cs.context x)
unfolding do_call allocate
do_call-new n cb cs = (
  refl,
  refl,
  ap frame_of (change-here cs.count _ cs.context),
  λ x h. change-other cs.count x _ cs.context (ground (arith, h)),
)
