-- ===== src/Graph/Rounds/Drops.antt =====
-- src/FlowAnalyzer.cpp: what is left for `ContextGraph::construct` falls with every node that is
-- constructed.
use hippocrates.Base.{
  ℕ, ◌+◌, ◌≤◌, ◌<◌, ◌≡◌, refl, sym, ap, ◌∙◌, subst, inl, inr, Bool, true, false, Option, some, List,
  if◌then◌else◌, arith, Bool-cases, Option-cases,
}
use hippocrates.Ir.{Module, Inst}
use hippocrates.Graph.{FnContext, Contexts, Window}
use hippocrates.Graph.Frames.{Later}
use hippocrates.Graph.Successors.{Graph, node_at}
use hippocrates.Graph.Rounds.{all_insts, ids, total, is_done, heavy, slot, left_in}
use hippocrates.Graph.Rounds.Keyed.{Keyed, Remembers}
use hippocrates.Graph.Rounds.Sums.{total-le, total-drop}

abbrev pub stack_at : Contexts → ℕ → List ℕ
stack_at cs c = FnContext.call_stack (cs.context c)

-- A graph that goes on from another: contexts, the cache and what is constructed stay.
abbrev pub GoesOn : Graph → Graph → Type 0
GoesOn g g' =
    Later g.contexts g'.contexts
    × Remembers g.cache g'.cache
    × ((x : ℕ) → x < g.size → g.constructed x ≡ true → g'.constructed x ≡ true)
    × ((x : ℕ) → x < g.size → Window.ctx (g'.block x) ≡ Window.ctx (g.block x))

-- The contexts of the nodes are there, and the cache has nodes only.
abbrev pub Sound : Graph → Type 0
Sound g =
    (0 < g.size)
    × ((x : ℕ) → x < g.size → Window.ctx (g.block x) < Contexts.count g.contexts)
    × ((key : ℕ × ℕ) (n : ℕ) → node_at key g.cache ≡ some n → n < g.size)

pub weigh : (b : Bool) (w : ℕ) → (if b then 0 else w) ≤ w
weigh b w = ground (arith, b)

is_done-some :
    (cache : List ((ℕ × ℕ) × ℕ)) (constructed : ℕ → Bool) (c p n : ℕ)
    → node_at (c, p) cache ≡ some n
    → is_done cache constructed c p ≡ constructed n
is_done-some cache constructed c p n e = rw (is_done, e) refl

is_done-later :
    (g g' : Graph) (c p : ℕ)
    → Sound g
    → GoesOn g g'
    → is_done g.cache g.constructed c p ≡ true
    → is_done g'.cache g'.constructed c p ≡ true
is_done-later g g' c p (some_in, seated, known) (later, remembers, more, at_ctx) e =
    elim (Option-cases (node_at (c, p) g.cache)) [
      | inl miss ↦ absurd (ground (arith, rw (is_done, miss) at e))
      | inr (n, hit) ↦
          is_done-some g'.cache g'.constructed c p n (remembers (c, p) n hit)
          ∙ more n (known (c, p) n hit) (sym (is_done-some g.cache g.constructed c p n hit) ∙ e)
    ]

module _ (m : Module) (succs : Inst → Option (List ℕ)) where
  abbrev pub slot_of : Graph → ℕ → ℕ → ℕ
  slot_of g = slot m succs g.contexts g.cache g.constructed

  slot-le :
      (g g' : Graph) (c p : ℕ)
      → Sound g
      → GoesOn g g'
      → c < Contexts.count g.contexts
      → slot_of g' c p ≤ slot_of g c p
  slot-le g g' c p sound on in_c = elim (Bool-cases (is_done g.cache g.constructed c p)) [
    | inl e ↦ rw (is_done-later g g' c p sound on e, e) (omega arith)
    | inr e ↦
        let same : stack_at g'.contexts c ≡ stack_at g.contexts c =
          ap (λ (f : List ℕ × Option ℕ). f.0) (on.0.1 c in_c) in
        rw (e, same)
          (weigh (is_done g'.cache g'.constructed c p) (heavy m succs (stack_at g.contexts c)))
  ]

  abbrev pub root_of : Graph → ℕ
  root_of g =
      if Graph.constructed g 0
      then 0
      else heavy m succs (stack_at g.contexts (Window.ctx (g.block 0)))

  root_stack :
      (g g' : Graph) (x : ℕ)
      → Sound g
      → GoesOn g g'
      → x < g.size
      → stack_at g'.contexts (Window.ctx (g'.block x))
        ≡ stack_at g.contexts (Window.ctx (g.block x))
  root_stack g g' x sound on in_x =
      ap (stack_at g'.contexts) (on.3 x in_x)
      ∙ ap (λ (f : List ℕ × Option ℕ). f.0) (on.0.1 (Window.ctx (g.block x)) (sound.1 x in_x))

  root-le : (g g' : Graph) → Sound g → GoesOn g g' → root_of g' ≤ root_of g
  root-le g g' sound on = elim (Bool-cases (g.constructed 0)) [
    | inl e ↦ rw (on.2 0 sound.0 e, e) (omega arith)
    | inr e ↦
        rw (e, root_stack g g' 0 sound on sound.0)
          (weigh (g'.constructed 0) (heavy m succs (stack_at g.contexts (Window.ctx (g.block 0)))))
  ]

  -- What the contexts that were there have left.
  abbrev pub old_left : Graph → Graph → ℕ
  old_left g g' = root_of g' + total (slot_of g') (Contexts.count g.contexts) (ids (all_insts m))

  pub old_left-le : (g g' : Graph) → Sound g → GoesOn g g' → old_left g g' ≤ left_in m succs g
  unfolding left_in
  old_left-le g g' sound on =
      let root = root-le g g' sound on in
      let rest =
        total-le (slot_of g') (slot_of g) (Contexts.count g.contexts) (ids (all_insts m))
          (λ c p in_c. slot-le g g' c p sound on in_c) in
      omega (arith, root, rest)

  -- A node that is constructed leaves less, by its weight.
  pub old_left-drop :
      (g g' : Graph) (n : ℕ)
      → Sound g
      → GoesOn g g'
      → Keyed m g
      → n < g.size
      → g.constructed n ≡ false
      → g'.constructed n ≡ true
      → old_left g g' + heavy m succs (stack_at g.contexts (Window.ctx (g.block n)))
        ≤ left_in m succs g
  unfolding left_in
  old_left-drop g g' n sound on keyed in_n new done = elim (keyed n in_n) [
    | inl at_root ↦
        let full : root_of g ≡ heavy m succs (stack_at g.contexts (Window.ctx (g.block 0))) =
          rw (subst (λ z. g.constructed z ≡ false) at_root new) refl in
        let gone : root_of g' ≡ 0 = rw (subst (λ z. g'.constructed z ≡ true) at_root done) refl in
        let rest =
          total-le (slot_of g') (slot_of g) (Contexts.count g.contexts) (ids (all_insts m))
            (λ c p in_c. slot-le g g' c p sound on in_c) in
        subst
          (λ z.
            old_left g g' + heavy m succs (stack_at g.contexts (Window.ctx (g.block z)))
            ≤ left_in m succs g)
          (sym at_root) (omega (arith, full, gone, rest))
    | inr (hit, there) ↦
        let c = Window.ctx (g.block n) in
        let x = Window.first (g.block n) in
        let open_slot : slot_of g c x ≡ heavy m succs (stack_at g.contexts c) =
          rw (is_done-some g.cache g.constructed c x n hit ∙ new) refl in
        let shut : slot_of g' c x ≡ 0 =
          rw (is_done-some g'.cache g'.constructed c x n (on.1 (c, x) n hit) ∙ done) refl in
        let root = root-le g g' sound on in
        let rest =
          total-drop (slot_of g') (slot_of g) (Contexts.count g.contexts) (ids (all_insts m)) c x
            (heavy m succs (stack_at g.contexts c)) (λ c p in_c. slot-le g g' c p sound on in_c)
            (sound.1 n in_n) (omega (arith, open_slot, shut)) there in
        omega (arith, root, rest)
  ]
