-- ===== src/Flow/Down.antt =====
-- src/FlowAnalyzer.cpp: what the walk from the roots leaves at the nodes, in `redundantPaths`.
use hippocrates.Base.{
  ℕ, ◌≡◌, refl, sym, ◌∙◌, ap, subst, ◌⊎◌, inl, inr, Bool, true, false, not, ◌&&◌, some, List, [],
  ◌∷◌, ◌++◌, ◌==◌, ==_iff, ok, arith, Any-append, Bool-cases, ok_injective,
}
use hippocrates.Flow.{
  Info, Infos, ContextGraph, set, join_parents, go_down, behind, walk_down, member, fuel_for,
}
use hippocrates.Flow.Walk.{Has, traverse-keeps}

pub set-same :
    {B : Type 0}
    → (f : Info → B) (n x : ℕ) (i : Info) (infos : Infos) → f i ≡ f (infos n)
    → f (set n i infos x) ≡ f (infos x)
set-same f n x i infos e = elim (Bool-cases (x == n)) [
  | inl here ↦ rw (here) (e ∙ ap (λ k. f (infos k)) (sym ((==_iff x n).0 here)))
  | inr there ↦ rw (there) refl
]

set-here :
    {B : Type 0} → (f : Info → B) (n : ℕ) (i : Info) (infos : Infos) → f (set n i infos n) ≡ f i
set-here f n i infos = rw ((==_iff n n).1 refl) refl

three_true : (a b c : Bool) → (a && (not b && c)) ≡ true → (a ≡ true) × (b ≡ false)
three_true a b c h = ground (arith, h)

module _ (g : ContextGraph) where
  -- No parent of the node spoils the redundancy, by the verdicts that came with the walk.
  abbrev pub ParentsFit : Infos → ℕ → Type 0
  ParentsFit infos n = (p : ℕ) → Has p (g.parents n) → Info.is_not_redundant (infos p) ≡ false

  -- A step at a node changes what it says of its parents, and that of no other.
  join_parents-other :
      (n x : ℕ) (ps : List ℕ) (infos : Infos)
      → (x == n) ≡ false
      → join_parents g n ps infos x ≡ infos x
  unfolding join_parents
  join_parents-other n x [] infos e = refl
  join_parents-other n x (p ∷ ps) infos e =
      join_parents-other n x ps (set n _ infos) e ∙ rw (e) refl

  join_parents-spoils :
      (n x : ℕ) (ps : List ℕ) (infos : Infos)
      → Info.is_not_redundant (join_parents g n ps infos x) ≡ Info.is_not_redundant (infos x)
  unfolding join_parents
  join_parents-spoils n x [] infos = refl
  join_parents-spoils n x (p ∷ ps) infos =
      join_parents-spoils n x ps (set n _ infos) ∙ set-same Info.is_not_redundant n x _ infos refl

  -- A node that is redundant in its parents was so before, and no parent spoils.
  join_parents-fit :
      (n : ℕ) (ps : List ℕ) (infos : Infos)
      → Info.is_redt_in_parents (join_parents g n ps infos n) ≡ true
      → (Info.is_redt_in_parents (infos n) ≡ true)
        × ((p : ℕ) → Has p ps → Info.is_not_redundant (infos p) ≡ false)
  unfolding join_parents
  join_parents-fit n [] infos h = (h, λ p k. absurd k)
  join_parents-fit n (q ∷ ps) infos h =
      let b =
        Info.is_redt_in_parents (infos n)
        && (not (Info.is_not_redundant (infos q)) && Info.is_redt_in_parents (infos q)) in
      let i = record (infos n) { is_redt_in_parents = b } in
      let (here, rest) = join_parents-fit n ps (set n i infos) h in
      let (before, clean) =
        three_true (Info.is_redt_in_parents (infos n)) (Info.is_not_redundant (infos q))
          (Info.is_redt_in_parents (infos q))
          (sym (set-here Info.is_redt_in_parents n i infos) ∙ here) in
      (
        before,
        λ p k. elim k [
          | inl same ↦ subst (λ z. Info.is_not_redundant (infos z) ≡ false) same clean
          | inr there ↦ sym (set-same Info.is_not_redundant n p i infos refl) ∙ rest p there
        ],
      )

  -- The nodes visited so far: what is behind them is visited or waits, and where the verdict is that a
  -- node is redundant in its parents, none of them spoils.
  abbrev pub Closed : List ℕ → List ℕ → Type 0
  Closed frontier seen = (x c : ℕ) → Has x seen → Has c (g.children x) → Has c seen ⊎ Has c frontier

  abbrev pub Judged : Infos → List ℕ → Infos → Type 0
  Judged start seen infos =
      (x : ℕ)
      → Has x seen
      → Has x g.roots ⊎ (Info.is_redt_in_parents (infos x) ≡ true → ParentsFit start x)

  abbrev pub Down : Infos → List ℕ → List ℕ → Infos → Type 0
  Down start frontier seen infos =
      Closed frontier seen
      × Judged start seen infos
      × ((x : ℕ) → Info.is_not_redundant (infos x) ≡ Info.is_not_redundant (start x))
      × ((x : ℕ) → Has x g.roots → Has x seen)

  Down-skip :
      (start : Infos) (n : ℕ) (ns seen : List ℕ) (infos : Infos)
      → Has n seen
      → Down start (n ∷ ns) seen infos
      → Down start ns seen infos
  Down-skip start n ns seen infos h (closed, judged, spoils, roots) = (
    λ x c hx hc. elim (closed x c hx hc) [
      | inl there ↦ inl there
      | inr (inl e) ↦ inl (subst (λ z. Has z seen) e h)
      | inr (inr later) ↦ inr later
    ],
    judged,
    spoils,
    roots,
  )

  down-Judged :
      (start : Infos) (n : ℕ) (seen : List ℕ) (infos : Infos)
      → Judged start seen infos
      → ((x : ℕ) → Info.is_not_redundant (infos x) ≡ Info.is_not_redundant (start x))
      → Judged start (n ∷ seen) (join_parents g n (g.parents n) infos)
  down-Judged start n seen infos judged spoils x hx = elim (Bool-cases (x == n)) [
    | inl here ↦
        subst
          (λ z.
            Has z g.roots
            ⊎ (Info.is_redt_in_parents (join_parents g n (g.parents n) infos z) ≡ true
                → ParentsFit start z))
          (sym ((==_iff x n).0 here))
          (inr (λ yes p hp. sym (spoils p) ∙ (join_parents-fit n (g.parents n) infos yes).1 p hp))
    | inr there ↦ elim hx [
      | inl e ↦ ground (arith, there, e)
      | inr h ↦ elim (judged x h) [
        | inl root ↦ inl root
        | inr f ↦
            let same = join_parents-other n x (g.parents n) infos there in
            inr (λ yes. f (ap Info.is_redt_in_parents (sym same) ∙ yes))
      ]
    ]
  ]

  Down-step :
      (start : Infos) (n : ℕ) (ns seen : List ℕ) (infos : Infos) (r : List ℕ × Infos)
      → member n seen ≡ false
      → go_down g n infos ≡ ok r
      → Down start (n ∷ ns) seen infos
      → Down start (ns ++ r.0) (n ∷ seen) r.1
  Down-step start n ns seen infos r new ran (closed, judged, spoils, roots) =
      let after = join_parents g n (g.parents n) infos in
      let same : (g.children n, after) ≡ r = ok_injective ran in
      subst (λ (q : List ℕ × Infos). Down start (ns ++ q.0) (n ∷ seen) q.1) same
        (
          λ x c hx hc. elim hx [
            | inl e ↦
                let c_in = subst (λ z. Has c (g.children z)) (sym e) hc in
                inr (Any-append (λ z. z ≡ c) ns (g.children n) (inr c_in))
            | inr h ↦ elim (closed x c h hc) [
              | inl there ↦ inl (inr there)
              | inr (inl e) ↦ inl (inl e)
              | inr (inr later) ↦ inr (Any-append (λ z. z ≡ c) ns (g.children n) (inl later))
            ]
          ],
          λ x hx. down-Judged start n seen infos judged spoils x hx,
          λ x. join_parents-spoils n x (g.parents n) infos ∙ spoils x,
          λ x h. inr (roots x h),
        )

  pub behind-Has :
      (ns : List ℕ) (x c : ℕ) → Has x ns → Has c (g.children x) → Has c (behind g.children ns)
  unfolding behind
  behind-Has [] x c h hc = absurd h
  behind-Has (n ∷ ns) x c (inl e) hc =
      Any-append (λ z. z ≡ c) (g.children n) (behind g.children ns)
        (inl (subst (λ z. Has c (g.children z)) (sym e) hc))
  behind-Has (n ∷ ns) x c (inr h) hc =
      Any-append (λ z. z ≡ c) (g.children n) (behind g.children ns) (inr (behind-Has ns x c h hc))

  pub walk_down-Down :
      (infos : Infos) (end : List ℕ × Infos)
      → walk_down g infos ≡ ok (some end)
      → Down infos [] end.0 end.1
  unfolding walk_down
  walk_down-Down infos end ran =
      let frontier = behind g.children g.roots in
      traverse-keeps (go_down g) (Down infos) (Down-skip infos) (Down-step infos)
        (fuel_for g.children g.size frontier) frontier g.roots infos end
        (λ x c hx hc. inr (behind-Has g.roots x c hx hc), λ x hx. inl hx, λ x. refl, λ x h. h) ran
