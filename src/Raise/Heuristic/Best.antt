-- ===== src/Raise/Heuristic/Best.antt =====
-- The loop of the heuristic finds the first of the best frames (src/BugFixer.cpp,
-- `BugFixer::raiseFixLocation`).
use hippocrates.Base.{
  ℕ, ◌+◌, ◌≡◌, refl, sym, ◌∙◌, ap, subst, inl, inr, ◌↔◌, true, false, Option, none, some, List, [],
  ◌∷◌, ◌++◌, length, if◌then◌else◌, ok, aborted, ℤ, int_eq, int_lt, arith, All, Bool-cases,
  ok_injective,
}
use hippocrates.Raise.Heuristic.Pick.{int64_min, no_aliases_score, pick, best_frame}

-- The scores in front of the first frame without aliases.
abbrev pub in_reach : List ℤ → List ℤ
in_reach [] = []
in_reach (s ∷ ss) = if int_eq s no_aliases_score then [] else s ∷ in_reach ss

abbrev pub NotAbove : ℤ → List ℤ → Type 0
NotAbove s = All (λ t. int_lt s t ≡ false)

-- What the loop returns: the index it came with, where no score is above the one it came with, or
-- the first index of the highest score.
data Picked (l : ℕ) (ss : List ℤ) (max_idx : Option ℕ) (max_score : ℤ) (r : Option ℕ) : Type 0 where
  keeps : NotAbove max_score (in_reach ss) → r ≡ max_idx → Picked l ss max_idx max_score r
  takes :
      (before : List ℤ) (s : ℤ) (rest : List ℤ)
      → in_reach ss ≡ before ++ s ∷ rest
      → All (λ t. int_lt t s ≡ true) before
      → NotAbove s rest
      → int_lt max_score s ≡ true
      → r ≡ some (l + length before)
      → Picked l ss max_idx max_score r

int_lt_trans : (a b c : ℤ) → int_lt a b ≡ true → int_lt b c ≡ true → int_lt a c ≡ true
int_lt_trans a b c p q = ground arith

int_le_lt : (a b c : ℤ) → int_lt a b ≡ false → int_lt a c ≡ true → int_lt b c ≡ true
int_le_lt a b c p q = ground arith

reach_step :
    (s : ℤ) (ss : List ℤ) → int_eq s no_aliases_score ≡ false → in_reach (s ∷ ss) ≡ s ∷ in_reach ss
reach_step s ss e = rw (e) refl

reach_stop : (s : ℤ) (ss : List ℤ) → int_eq s no_aliases_score ≡ true → in_reach (s ∷ ss) ≡ []
reach_stop s ss e = rw (e) refl

All-middle :
    (P : ℤ → Type 0) (before : List ℤ) (s : ℤ) (rest : List ℤ) → All P (before ++ s ∷ rest) → P s
All-middle P [] s rest h = h.0
All-middle P (t ∷ before) s rest h = All-middle P before s rest h.1

better :
    (l : ℕ) (s : ℤ) (ss : List ℤ) (max_idx : Option ℕ) (max_score : ℤ) (r : Option ℕ)
    → int_eq s no_aliases_score ≡ false
    → int_lt max_score s ≡ true
    → Picked (l + 1) ss (some l) s r
    → Picked l (s ∷ ss) max_idx max_score r
better l s ss max_idx max_score r e lt (keeps all same) =
    takes [] s (in_reach ss) (reach_step s ss e) tt all lt (ground (arith, same))
better l s ss max_idx max_score r e lt (takes before t rest split below above lt' same) =
    takes (s ∷ before) t rest (reach_step s ss e ∙ ap (λ xs. s ∷ xs) split) (lt', below) above
      (int_lt_trans max_score s t lt lt') (ground (arith, same))

worse :
    (l : ℕ) (s : ℤ) (ss : List ℤ) (max_idx : Option ℕ) (max_score : ℤ) (r : Option ℕ)
    → int_eq s no_aliases_score ≡ false
    → int_lt max_score s ≡ false
    → Picked (l + 1) ss max_idx max_score r
    → Picked l (s ∷ ss) max_idx max_score r
worse l s ss max_idx max_score r e lt (keeps all same) =
    keeps (subst (NotAbove max_score) (sym (reach_step s ss e)) (lt, all)) same
worse l s ss max_idx max_score r e lt (takes before t rest split below above lt' same) =
    takes (s ∷ before) t rest (reach_step s ss e ∙ ap (λ xs. s ∷ xs) split)
      (int_le_lt max_score s t lt lt', below) above lt' (ground (arith, same))

pick-Picked :
    (l : ℕ) (ss : List ℤ) (max_idx : Option ℕ) (max_score : ℤ)
    → Picked l ss max_idx max_score (pick l ss max_idx max_score)
unfolding pick
pick-Picked l [] max_idx max_score = keeps tt refl
pick-Picked l (s ∷ ss) max_idx max_score = elim (Bool-cases (int_eq s no_aliases_score)) [
  | inl e ↦ rw (pick, e) (keeps (subst (NotAbove max_score) (sym (reach_stop s ss e)) tt) refl)
  | inr e ↦ elim (Bool-cases (int_lt max_score s)) [
    | inl lt ↦
        rw (pick, e, lt)
          (better l s ss max_idx max_score _ e lt (pick-Picked (l + 1) ss (some l) s))
    | inr lt ↦
        rw (pick, e, lt)
          (worse l s ss max_idx max_score _ e lt (pick-Picked (l + 1) ss max_idx max_score))
  ]
]

-- Where the heuristic picks a frame, it is the first one with the highest score among the frames in
-- front of the first one that has no aliases, and it has a location.
pub best_frame-first_max :
    (scores : List ℤ) (i : ℕ)
    → best_frame scores ≡ ok i
    → (before : List ℤ) × (s : ℤ) × (rest : List ℤ) × (in_reach scores ≡ before ++ s ∷ rest)
      × (i ≡ length before)
      × All (λ t. int_lt t s ≡ true) before
      × NotAbove s rest
      × (int_lt int64_min s ≡ true)
unfolding best_frame
best_frame-first_max scores i ran = elim (pick-Picked 0 scores none int64_min) [
  | keeps all same ↦ ground (arith, rw (best_frame, same) at ran)
  | takes before s rest split below above lt same ↦
      let eq = ok_injective (rw (best_frame, same) at ran) in
      (before, s, rest, split, ground (arith, eq), below, above, lt)
]

-- The heuristic fails exactly if no frame in front of the first one without aliases has a location.
pub best_frame-aborted :
    (scores : List ℤ)
    → (best_frame scores ≡ aborted) ↔ All (λ t. int_lt int64_min t ≡ false) (in_reach scores)
unfolding best_frame
best_frame-aborted scores = elim (pick-Picked 0 scores none int64_min) [
  | keeps all same ↦ (λ h. all, λ h. rw (best_frame, same) refl)
  | takes before s rest split below above lt same ↦ (
    λ h. ground (arith, rw (best_frame, same) at h),
    λ h. ground (
      arith,
      lt,
      All-middle (λ t. int_lt int64_min t ≡ false) before s rest
          (subst (All (λ t. int_lt int64_min t ≡ false)) split h),
    ),
  )
]
