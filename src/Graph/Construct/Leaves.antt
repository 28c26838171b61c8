-- ===== src/Graph/Construct/Leaves.antt =====
-- src/FlowAnalyzer.cpp: the leaves that `ContextGraph::construct` collects.
use hippocrates.Base.{
  ℕ, ◌≤◌, ◌<◌, ◌≡◌, refl, ◌∙◌, subst, ◌⊎◌, inl, inr, Bool, true, false, List, [], ◌∷◌, is_empty,
  ◌==◌, append-Any, arith, Bool-cases,
}
use hippocrates.Flow.Walk.{Has}
use hippocrates.Graph.{Contexts, Window, same_window}
use hippocrates.Graph.Stores.{change-here, change-other, change-same}
use hippocrates.Graph.Frames.{Later, Framed, same_window-Later}
use hippocrates.Graph.Successors.{Graph}
use hippocrates.Graph.Construct.{link, link_all, settle_at, add_leaf, end_at, is_terminator}

-- The contexts of all blocks have been made.
abbrev pub Seated : Window → Graph → Type 0
Seated end g =
    (end.ctx < Contexts.count g.contexts)
    × Framed g.contexts
    × ((x : ℕ) → x < g.size → Window.ctx (g.block x) < Contexts.count g.contexts)

abbrev pub Leaf : Window → Graph → ℕ → Type 0
Leaf end g n =
    (n < g.size)
    × (g.constructed n ≡ true)
    × ((same_window g.contexts (g.block n) end ≡ true) ⊎ (is_empty (g.children n) ≡ true))

abbrev pub Leafy : Window → Graph → Type 0
Leafy end g = (n : ℕ) → Has n g.leaves → Leaf end g n

-- Linking the children of one node changes no other.
pub link_all-others :
    (n : ℕ) (cs : List ℕ) (g : Graph) (x : ℕ)
    → (x == n) ≡ false
    → Graph.children (link_all n cs g) x ≡ g.children x
unfolding link_all
link_all-others n [] g x h = refl
link_all-others n (c ∷ cs) g x h =
    link_all-others n cs (link n c g) x h ∙ change-other n x _ g.children h

-- What linking leaves alone.
abbrev pub beside : Graph → Contexts × ((ℕ → Window) × ((ℕ → Bool) × List ℕ))
beside g = (g.contexts, (g.block, (g.constructed, g.leaves)))

pub link_all-beside : (n : ℕ) (cs : List ℕ) (g : Graph) → beside (link_all n cs g) ≡ beside g
unfolding link_all
link_all-beside n [] g = refl
link_all-beside n (c ∷ cs) g = link_all-beside n cs (link n c g)

-- A leaf stays one where its node is kept.
pub kept-Leaf :
    (end : Window) (g g' : Graph) (x : ℕ)
    → Seated end g
    → Later g.contexts g'.contexts
    → g.size ≤ g'.size
    → g'.block x ≡ g.block x
    → g'.constructed x ≡ true
    → g'.children x ≡ g.children x
    → Leaf end g x
    → Leaf end g' x
kept-Leaf end g g' x (end_in, framed, seated) later grown at_x done same (in_x, old, why) = (
  omega (arith, in_x, grown),
  done,
  elim why [
    | inl e ↦ inl (
        rw (at_x) (
          same_window-Later g.contexts g'.contexts (g.block x) end later (seated x in_x) end_in
          ∙ e))
    | inr e ↦ inr (rw (same) e)
  ],
)

Leafy-add :
    (end : Window) (n : ℕ) (g : Graph) → Leaf end g n → Leafy end g → Leafy end (add_leaf n g)
Leafy-add end n g leaf leafy x h = elim (append-Any (λ z. z ≡ x) g.leaves (n ∷ []) h) [
  | inl old ↦ leafy x old
  | inr (inl same) ↦ subst (Leaf end g) same leaf
  | inr (inr never) ↦ absurd never
]

module _ (end : Window) (n : ℕ) (g : Graph) where
  pub same_but_trace :
      (x : ℕ)
      → same_window g.contexts (Graph.block (end_at n end g) x) end
        ≡ same_window g.contexts (g.block x) end
  unfolding same_window
  same_but_trace x = change-same (λ (w : Window). same_window g.contexts w end) n x _ g.block refl

  pub end_at-Seated : Seated end g → Seated end (end_at n end g)
  end_at-Seated (end_in, framed, seated) = (
    end_in,
    framed,
    λ x h.
        rw
          (change-same Window.ctx n x (record (Graph.block g n) { trace_inst = end.trace_inst })
            g.block refl)
          (seated x h),
  )

  pub end_at-Leafy :
      n < g.size
      → same_window g.contexts (g.block n) end ≡ true
      → Leafy end g
      → Leafy end (add_leaf n (end_at n end g))
  end_at-Leafy in_n ends leafy =
      Leafy-add end n (end_at n end g)
        (in_n, change-here n true g.constructed, inl (same_but_trace n ∙ ends))
        (λ x h.
          let (in_x, done, why) = leafy x h in
          (
            in_x,
            elim (Bool-cases (x == n)) [ inl e ↦ rw (e) refl | inr e ↦ rw (e) done ],
            elim why [ inl e ↦ inl (same_but_trace x ∙ e) | inr e ↦ inr e ],
          ))

  pub settle_at-Leafy :
      n < g.size → Graph.constructed g n ≡ true → Leafy end g → Leafy end (settle_at n g)
  settle_at-Leafy in_n done leafy = elim (Bool-cases (is_terminator g n)) [
    | inl e ↦ rw (e) (Leafy-add end n g (in_n, done, inr (ground (arith, e))) leafy)
    | inr e ↦ rw (e) leafy
  ]

  pub settle_at-Seated : Seated end g → Seated end (settle_at n g)
  settle_at-Seated seated = elim (Bool-cases (is_terminator g n)) [
    | inl e ↦ rw (e) seated
    | inr e ↦ rw (e) seated
  ]
