-- ===== src/Aliases/Explored.antt =====
-- src/BugFixer.cpp: what `runTraceAA` explores from the whitelist.
use hippocrates.Base.{
  ℕ, zero, suc, ◌+◌, ◌≤◌, ◌<◌, ◌≡◌, refl, sym, subst, ◌↔◌, ◌⊎◌, inl, inr, some, List, [], ◌∷◌, ◌++◌,
  length, length-append, Text, Any-append, append-Any, arith, Bool-cases, some_injective,
}
use hippocrates.Raise.{name_in}
use hippocrates.Aliases.{push_new, explore}
use hippocrates.Aliases.Names.{In, name_in-In, unseen, unseen-more, Reach, begins, goes, Reach-In}

-- What a call of `push_new` does: all of the list are in the set, what is new in it waits, and nothing
-- else comes in.
abbrev Pushed : List Text → List Text × List Text → List Text × List Text → Type 0
Pushed cs s t =
    ((x : Text) → In x s.1 → In x t.1)
    × ((x : Text) → In x s.0 → In x t.0)
    × ((x : Text) → In x cs → In x t.1)
    × ((x : Text) → In x t.1 → In x s.1 ⊎ (In x cs × In x t.0))
    × ((x : Text) → In x t.0 → In x s.0 ⊎ In x t.1)

push_new-Pushed : (cs : List Text) (s : List Text × List Text) → Pushed cs s (push_new cs s)
unfolding push_new
push_new-Pushed [] s = (λ x h. h, λ x h. h, λ x h. absurd h, λ x h. inl h, λ x h. inl h)
push_new-Pushed (c ∷ cs) (e, w) = elim (Bool-cases (name_in c w)) [
  | inl known ↦
      let (sets, fronts, all, new, back) = push_new-Pushed cs (e, w) in
      rw (push_new, known)
        (
          sets,
          fronts,
          λ x h. elim h [
            | inl same ↦ sets x (subst (λ y. In y w) same (name_in-In c w known))
            | inr there ↦ all x there
          ],
          λ x h. elim (new x h) [ inl old ↦ inl old | inr (there, waits) ↦ inr (inr there, waits) ],
          back,
        )
  | inr unknown ↦
      let (sets, fronts, all, new, back) = push_new-Pushed cs (e ++ c ∷ [], c ∷ w) in
      rw (push_new, unknown)
        (
          λ x h. sets x (inr h),
          λ x h. fronts x (Any-append (λ y. y ≡ x) e (c ∷ []) (inl h)),
          λ x h. elim h [ inl same ↦ sets x (inl same) | inr there ↦ all x there ],
          λ x h. elim (new x h) [
            | inl (inl same) ↦
                inr (inl same, fronts x (Any-append (λ y. y ≡ x) e (c ∷ []) (inr (inl same))))
            | inl (inr old) ↦ inl old
            | inr (there, waits) ↦ inr (inr there, waits)
          ],
          λ x h. elim (back x h) [
            | inl waits ↦ elim (append-Any (λ y. y ≡ x) e (c ∷ []) waits) [
              | inl old ↦ inl old
              | inr (inl same) ↦ inr (sets x (inl same))
              | inr (inr never) ↦ absurd never
            ]
            | inr there ↦ inr there
          ],
        )
]

-- A name that is put into the set is one fewer to come.
push_new-fewer :
    (names cs : List Text) (s : List Text × List Text)
    → ((x : Text) → In x cs → In x names)
    → let t = push_new cs s in
      length t.0 + (unseen names t.1 + unseen names t.1)
      ≤ length s.0 + (unseen names s.1 + unseen names s.1)
unfolding push_new
push_new-fewer names [] s inside = omega arith
push_new-fewer names (c ∷ cs) (e, w) inside = elim (Bool-cases (name_in c w)) [
  | inl known ↦ rw (push_new, known) (push_new-fewer names cs (e, w) (λ x h. inside x (inr h)))
  | inr unknown ↦
      let rest = push_new-fewer names cs (e ++ c ∷ [], c ∷ w) (λ x h. inside x (inr h)) in
      let less =
        unseen-more names w (c ∷ w) c (λ x h. inr h) (inside c (inl refl)) unknown (inl refl) in
      let len = length-append e (c ∷ []) in rw (push_new, unknown) (omega (arith, rest, less, len))
]

module _ (next : Text → List Text) (seeds : List Text) where
  -- What has been put into the set is reached, and waits or has all behind it in the set.
  abbrev Explores : List Text → List Text → Type 0
  Explores frontier w =
      ((x : Text) → In x seeds → In x w)
      × ((x : Text) → In x w → Reach next seeds x)
      × ((x : Text) → In x frontier → In x w)
      × ((x : Text) → In x w → In x frontier ⊎ ((y : Text) → In y (next x) → In y w))

  Explores-next :
      (v : Text) (vs w : List Text)
      → Explores (v ∷ vs) w
      → Explores (push_new (next v) (vs, w)).0 (push_new (next v) (vs, w)).1
  Explores-next v vs w (start, reached, inside, closed) =
      let (sets, fronts, all, new, back) = push_new-Pushed (next v) (vs, w) in
      (
        λ x h. sets x (start x h),
        λ x h. elim (new x h) [
          | inl old ↦ reached x old
          | inr (there, waits) ↦ goes v x (reached v (inside v (inl refl))) there
        ],
        λ x h. elim (back x h) [ inl old ↦ sets x (inside x (inr old)) | inr there ↦ there ],
        λ x h. elim (new x h) [
          | inr (there, waits) ↦ inl waits
          | inl old ↦ elim (closed x old) [
            | inl (inl same) ↦ inr (λ y k. all y (subst (λ z. In y (next z)) (sym same) k))
            | inl (inr waits) ↦ inl (fronts x waits)
            | inr behind ↦ inr (λ y k. sets y (behind y k))
          ]
        ],
      )

  explore-Explores :
      (fuel : ℕ) (frontier w end : List Text)
      → Explores frontier w
      → explore next fuel frontier w ≡ some end
      → Explores [] end
  unfolding explore
  explore-Explores zero frontier w end inv ran = ground (arith, ran)
  explore-Explores (suc k) [] w end inv ran = subst (Explores []) (some_injective ran) inv
  explore-Explores (suc k) (v ∷ vs) w end inv ran =
      explore-Explores k (push_new (next v) (vs, w)).0 (push_new (next v) (vs, w)).1 end
        (Explores-next v vs w inv) ran

  -- What is explored is what is reached.
  pub explore-Reach :
      (fuel : ℕ) (end : List Text)
      → explore next fuel seeds seeds ≡ some end
      → (x : Text) → In x end ↔ Reach next seeds x
  explore-Reach fuel end ran x =
      let (start, reached, inside, closed) =
        explore-Explores fuel seeds seeds end (λ x h. h, λ x h. begins x h, λ x h. h, λ x h. inl h)
          ran in
      (
        reached x,
        Reach-In next seeds end start
            (λ x y h k. elim (closed x h) [ inl never ↦ absurd never | inr behind ↦ behind y k ]) x,
      )

  -- It ends, where all that stands next is among some names.
  pub explore-ends :
      (names : List Text) (fuel : ℕ) (frontier w : List Text)
      → ((x y : Text) → In y (next x) → In y names)
      → length frontier + (unseen names w + unseen names w) < fuel
      → (end : List Text) × (explore next fuel frontier w ≡ some end)
  unfolding explore
  explore-ends names zero frontier w inside enough = absurd (omega (arith, enough))
  explore-ends names (suc k) [] w inside enough = (w, refl)
  explore-ends names (suc k) (v ∷ vs) w inside enough =
      let fewer = push_new-fewer names (next v) (vs, w) (inside v) in
      explore-ends names k (push_new (next v) (vs, w)).0 (push_new (next v) (vs, w)).1 inside
        (omega (arith, enough, fewer))
