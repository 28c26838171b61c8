-- ===== src/Aliases/Grown.antt =====
-- src/BugFixer.cpp: the users of functions that `runTraceAA` adds, round by round.
use hippocrates.Base.{
  List-cases, ℕ, zero, suc, ◌≤◌, ◌<◌, ◌≡◌, refl, sym, subst, ◌↔◌, ◌⊎◌, inl, inr, Bool, true, false,
  some, List, [], ◌∷◌, ◌++◌, Text, Any-append, append-Any, arith, Bool-cases, some_injective,
}
use hippocrates.Raise.{name_in}
use hippocrates.Aliases.{insert_function, new_of, next_users, grow}
use hippocrates.Aliases.Names.{
  In, name_in-In, In-insert_function, unseen, unseen-more, Reach, goes, Reach-In,
}

In-new_of :
    (used fs next : List Text) (x : Text)
    → In x (new_of used fs next) ↔ (In x next ⊎ (In x fs × (name_in x used ≡ false)))
unfolding new_of
In-new_of used [] next x =
    (λ h. inl h, λ h. elim h [ inl old ↦ old | inr (never, e) ↦ absurd never ])
In-new_of used (f ∷ fs) next x = elim (Bool-cases (name_in f used)) [
  | inl known ↦
      let rest = In-new_of used fs next x in
      rw (new_of, known)
        (
          λ h. elim (rest.0 h) [ inl old ↦ inl old | inr (there, e) ↦ inr (inr there, e) ],
          λ h. elim h [
            | inl old ↦ rest.1 (inl old)
            | inr (inl same, e) ↦ absurd (apart (subst (λ y. name_in y used ≡ true) same known) e)
            | inr (inr there, e) ↦ rest.1 (inr (there, e))
          ],
        )
  | inr unknown ↦
      let rest = In-new_of used fs (insert_function f next) x in
      let put = In-insert_function x f next in
      rw (new_of, unknown)
        (
          λ h. elim (rest.0 h) [
            | inl now ↦ elim (put.0 now) [
              | inl same ↦ inr (inl same, subst (λ y. name_in y used ≡ false) same unknown)
              | inr old ↦ inl old
            ]
            | inr (there, e) ↦ inr (inr there, e)
          ],
          λ h. elim h [
            | inl old ↦ rest.1 (inl (put.1 (inr old)))
            | inr (inl same, e) ↦ rest.1 (inl (put.1 (inl same)))
            | inr (inr there, e) ↦ rest.1 (inr (there, e))
          ],
        )
]
  where
    apart : {b : Bool} → b ≡ true → b ≡ false → ⊥
    apart e f = ground (arith, e, f)

module _ (users : Text → List Text) where
  -- A user of one of some functions that is not in the set.
  abbrev User : List Text → List Text → Text → Type 0
  User used vs x = (v : Text) × In v vs × In x (users v) × (name_in x used ≡ false)

  In-next_users :
      (used vs next : List Text) (x : Text)
      → In x (next_users users used vs next) ↔ (In x next ⊎ User used vs x)
  unfolding next_users
  In-next_users used [] next x =
      (λ h. inl h, λ h. elim h [ inl old ↦ old | inr (v, never, uses, e) ↦ absurd never ])
  In-next_users used (v ∷ vs) next x =
      let rest = In-next_users used vs (new_of used (users v) next) x in
      let here = In-new_of used (users v) next x in
      (
        λ h. elim (rest.0 h) [
          | inl now ↦ elim (here.0 now) [
            | inl old ↦ inl old
            | inr (uses, e) ↦ inr (v, inl refl, uses, e)
          ]
          | inr (w, there, uses, e) ↦ inr (w, inr there, uses, e)
        ],
        λ h. elim h [
          | inl old ↦ rest.1 (inl (here.1 (inl old)))
          | inr (w, inl same, uses, e) ↦
              rest.1 (inl (here.1 (inr (subst (λ z. In x (users z)) (sym same) uses, e))))
          | inr (w, inr there, uses, e) ↦ rest.1 (inr (w, there, uses, e))
        ],
      )

  module _ (seeds : List Text) where
    abbrev pub Grows : List Text → Type 0
    Grows used =
        ((x : Text) → In x seeds → In x used) × ((x : Text) → In x used → Reach users seeds x)

    Grows-next : (used : List Text) → Grows used → Grows (used ++ next_users users used used [])
    Grows-next used (start, reached) = (
      λ x h. Any-append (λ y. y ≡ x) used (next_users users used used []) (inl (start x h)),
      λ x h. elim (append-Any (λ y. y ≡ x) used (next_users users used used []) h) [
        | inl old ↦ reached x old
        | inr new ↦ elim ((In-next_users used used [] x).0 new) [
          | inl never ↦ absurd never
          | inr (v, there, uses, e) ↦ goes v x (reached v there) uses
        ]
      ],
    )

    -- Where no user is new, all are there.
    closed :
        (used : List Text)
        → next_users users used used [] ≡ []
        → (x y : Text) → In x used
        → In y (users x)
        → In y used
    closed used e x y h k = elim (Bool-cases (name_in y used)) [
      | inl known ↦ name_in-In y used known
      | inr unknown ↦
          absurd (subst (In y) e ((In-next_users used used [] y).1 (inr (x, h, k, unknown))))
    ]

    pub grow-Reach :
        (fuel : ℕ) (used end : List Text)
        → Grows used
        → grow users fuel used ≡ some end
        → (x : Text) → In x end ↔ Reach users seeds x
    unfolding grow
    grow-Reach zero used end inv ran x = ground (arith, ran)
    grow-Reach (suc k) used end inv ran x = elim (List-cases (next_users users used used [])) [
      | inl e ↦
          let same : used ≡ end = some_injective (rw (grow, e) at ran) in
          subst (λ w. In x w ↔ Reach users seeds x) same
            (inv.1 x, Reach-In users seeds used inv.0 (closed used e) x)
      | inr (f, fs, e) ↦
          let more : grow users k (used ++ next_users users used used []) ≡ some end =
            rw (grow, e) at ran in
          grow-Reach k (used ++ next_users users used used []) end (Grows-next used inv) more x
    ]

  -- It ends, where all users are among some names.
  pub grow-ends :
      (names : List Text) (fuel : ℕ) (used : List Text)
      → ((x y : Text) → In y (users x) → In y names)
      → unseen names used < fuel
      → (end : List Text) × (grow users fuel used ≡ some end)
  unfolding grow
  grow-ends names zero used inside enough = absurd (omega (arith, enough))
  grow-ends names (suc k) used inside enough = elim (List-cases (next_users users used used [])) [
    | inl e ↦ (used, rw (grow, e) refl)
    | inr (f, fs, e) ↦
        let new : In f (next_users users used used []) = subst (In f) (sym e) (inl refl) in
        let all = used ++ next_users users used used [] in
        let less : suc (unseen names all) ≤ unseen names used =
          elim ((In-next_users used used [] f).0 new) [
            | inl never ↦ absurd never
            | inr (v, there, uses, unknown) ↦
                unseen-more names used all f
                  (λ x h. Any-append (λ y. y ≡ x) used (next_users users used used []) (inl h))
                  (inside v f uses) unknown
                  (Any-append (λ y. y ≡ f) used (next_users users used used []) (inr new))
          ] in
        rw (grow, e) (grow-ends names k all inside (omega (arith, enough, less)))
  ]
