-- ===== src/Graph/Rounds/Round.antt =====
-- src/FlowAnalyzer.cpp: a round of the loop of `ContextGraph::construct` leaves fewer rounds.
use hippocrates.Base.{
  ℕ, suc, ◌+◌, ◌≤◌, ◌<◌, ◌≡◌, refl, sym, ap, ◌∙◌, subst, inl, inr, Bool, true, false, Option, some,
  List, [], ◌∷◌, length, ◌==◌, All, ok, arith, Bool-cases,
}
use hippocrates.Ir.{Module, Inst}
use hippocrates.PmDesc.{Anders}
use hippocrates.Generator.Remove.{inst_at}
use hippocrates.Flow.{member}
use hippocrates.Flow.Walk.{Has}
use hippocrates.Graph.{Contexts, Window, change, do_call}
use hippocrates.Graph.Stores.{change-here, do_call-new}
use hippocrates.Graph.Frames.{Later, Framed, Leads-Later}
use hippocrates.Graph.Moves.{Fits, points_after-Fits}
use hippocrates.Graph.Successors.{Graph, nodes_for, points_behind, begin_at}
use hippocrates.Graph.Construct.{link, link_all, settle_at, is_terminator, not_constructed}
use hippocrates.Graph.Construct.Rules.{nodes_for-rule}
use hippocrates.Graph.Construct.Extends.{Extends, nodes_for-Extends}
use hippocrates.Graph.Rounds.{is_done, all_insts, ids, widest, free, times, total, heavy, left_in}
use hippocrates.Graph.Rounds.Members.{inst_at-Has, inst_at-width}
use hippocrates.Graph.Rounds.Keyed.{Keyed, Remembers, nodes_for-Files}
use hippocrates.Graph.Rounds.Sums.{row-bound, weight-le, free-call}
use hippocrates.Graph.Rounds.Drops.{
  weigh, stack_at, GoesOn, Sound, slot_of, old_left, old_left-drop,
}

not_constructed-length : (g : Graph) (cs : List ℕ) → length (not_constructed g cs) ≤ length cs
unfolding not_constructed
not_constructed-length g [] = omega arith
not_constructed-length g (c ∷ cs) = ground (arith, not_constructed-length g cs)

pub change-true : (n x : ℕ) (f : ℕ → Bool) → f x ≡ true → change n true f x ≡ true
change-true n x f e = elim (Bool-cases (x == n)) [ inl h ↦ rw (h) refl | inr h ↦ rw (h) e ]

module _ (m : Module) (succs : Inst → Option (List ℕ)) where
  link_all-left_in :
      (n : ℕ) (cs : List ℕ) (g : Graph) → left_in m succs (link_all n cs g) ≡ left_in m succs g
  unfolding link_all left_in
  link_all-left_in n [] g = refl
  link_all-left_in n (c ∷ cs) g = link_all-left_in n cs (link n c g)

  pub link_all-Keyed : (n : ℕ) (cs : List ℕ) (g : Graph) → Keyed m g → Keyed m (link_all n cs g)
  unfolding link_all
  link_all-Keyed n [] g p = p
  link_all-Keyed n (c ∷ cs) g p = link_all-Keyed n cs (link n c g) p

  settle_at-left_in : (n : ℕ) (g : Graph) → left_in m succs (settle_at n g) ≡ left_in m succs g
  unfolding left_in
  settle_at-left_in n g = elim (Bool-cases (is_terminator g n)) [
    | inl e ↦ rw (e) refl
    | inr e ↦ rw (e) refl
  ]

  abbrev pub most : ℕ
  most = widest succs (all_insts m)

  heavy-pos : (stack : List ℕ) → suc most ≤ heavy m succs stack
  heavy-pos stack =
      weight-le (length (ids (all_insts m))) most 0 (free (ids (all_insts m)) stack) (omega arith)

  -- A context with one call more weighs so much less.
  heavy-call :
      (stack : List ℕ) (cb : ℕ)
      → Has cb (ids (all_insts m))
      → member cb stack ≡ false
      → suc most + times (length (ids (all_insts m))) (heavy m succs (cb ∷ stack))
        ≤ heavy m succs stack
  heavy-call stack cb there new =
      let step =
        weight-le (length (ids (all_insts m))) most (suc (free (ids (all_insts m)) (cb ∷ stack)))
          (free (ids (all_insts m)) stack) (free-call (ids (all_insts m)) stack cb there new) in
      omega (arith, step)

  pub left_in-same :
      (g g' : Graph)
      → Contexts.count g'.contexts ≡ Contexts.count g.contexts
      → left_in m succs g' ≡ old_left m succs g g'
  unfolding left_in
  left_in-same g g' e = rw (e) refl

  left_in-more :
      (g g' : Graph) (stack : List ℕ)
      → Contexts.count g'.contexts ≡ suc (Contexts.count g.contexts)
      → stack_at g'.contexts (Contexts.count g.contexts) ≡ stack
      → left_in m succs g'
        ≤ old_left m succs g g' + times (length (ids (all_insts m))) (heavy m succs stack)
  unfolding left_in total
  left_in-more g g' stack e at_new =
      let new = Contexts.count g.contexts in
      let bound =
        row-bound (slot_of m succs g' new) (ids (all_insts m)) (heavy m succs stack) (λ p.
          rw (at_new) (weigh (is_done g'.cache g'.constructed new p) (heavy m succs stack))) in
      rw (e) (omega (arith, bound))

module _ (anders : Anders) (m : Module) (succs : Inst → Option (List ℕ)) where
  nodes_for-length :
      (ps : List (ℕ × ℕ)) (g : Graph) (r : List ℕ × Graph)
      → nodes_for anders m succs ps g ≡ ok r
      → length r.0 ≡ length ps
  nodes_for-length =
      nodes_for-rule anders m succs (λ ps g r. length r.0 ≡ length ps) (λ g. refl)
        (λ k ps g n r e h. ap suc h) (λ k ps g w r e made h. ap suc h)

  -- A node that gets its successors.
  module _ (n : ℕ) (g : Graph) (last : Inst) (q : List (ℕ × ℕ) × Contexts) (s : List ℕ × Graph)
      (in_n : n < g.size) (new : g.constructed n ≡ false) (sound : Sound g)
      (framed : Framed g.contexts) (keyed : Keyed m g)
      (at_last : inst_at m (Window.last (g.block n)) ≡ some last)
      (behind : points_behind anders m succs (Window.ctx (g.block n)) last g.contexts ≡ ok q)
      (made : nodes_for anders m succs q.0 (begin_at n q.1 g) ≡ ok s) where
    abbrev ctx : ℕ
    ctx = Window.ctx (g.block n)

    fits : Fits anders m succs ctx last g.contexts q
    fits = points_after-Fits anders m succs ctx last last.op g.contexts q behind

    later : Later g.contexts q.1 × Framed q.1 × All (λ (pt : ℕ × ℕ). pt.0 < Contexts.count q.1) q.0
    later = Leads-Later ctx last.id g.contexts q (sound.1 n in_n) framed fits.0

    extends : Extends (begin_at n q.1 g) s.1
    extends = nodes_for-Extends anders m succs q.0 (begin_at n q.1 g) s made later.2

    files : Remembers g.cache (Graph.cache s.1) × Keyed m s.1
    files = nodes_for-Files anders m succs q.0 (begin_at n q.1 g) s made sound.0 keyed

    now_constructed : (x : ℕ) → x < g.size → Graph.constructed s.1 x ≡ change n true g.constructed x
    now_constructed x h = ap (λ (t : Window × (List ℕ × Bool)). t.1.1) (extends.3 x h)

    goes_on : GoesOn g s.1
    goes_on = (
      subst (Later g.contexts) (sym extends.0) later.0,
      files.0,
      λ x h e. now_constructed x h ∙ change-true n x g.constructed e,
      λ x h. ap (λ (t : Window × (List ℕ × Bool)). Window.ctx t.0) (extends.3 x h),
    )

    done : Graph.constructed s.1 n ≡ true
    done = now_constructed n in_n ∙ change-here n true g.constructed

    drop : old_left m succs g s.1 + heavy m succs (stack_at g.contexts ctx) ≤ left_in m succs g
    drop = old_left-drop m succs g s.1 n sound goes_on keyed in_n new done

    made-left_in : left_in m succs s.1 + suc (most m succs) ≤ left_in m succs g
    made-left_in = elim fits.0 [
      | inl ((size, same), here) ↦
          let all = left_in-same m succs g s.1 (ap Contexts.count extends.0 ∙ size) in
          let pos = heavy-pos m succs (stack_at g.contexts ctx) in
          let less = drop in omega (arith, all, pos, less)
      | inr (unseen, (next, same)) ↦
          let (at_new, size, frame, old) = do_call-new ctx last.id g.contexts in
          let contexts : (do_call ctx last.id g.contexts).1 ≡ Graph.contexts s.1 =
            ap (λ (t : List (ℕ × ℕ) × Contexts). t.1) same ∙ sym extends.0 in
          let stack = last.id ∷ stack_at g.contexts ctx in
          let more = left_in-more m succs g s.1 stack (sym (ap Contexts.count contexts) ∙ size) (
            sym (ap (λ (cs : Contexts). stack_at cs (Contexts.count g.contexts)) contexts)
            ∙ ap (λ (f : List ℕ × Option ℕ). f.0) frame) in
          let call =
            heavy-call m succs (stack_at g.contexts ctx) last.id
              (inst_at-Has m (Window.last (g.block n)) last at_last) unseen in
          let less = drop in omega (arith, more, call, less)
    ]

    -- The nodes that are put behind the frontier are paid for.
    pub expanded-drops :
        length (not_constructed (link_all n s.0 s.1) s.0)
          + suc (left_in m succs (settle_at n (link_all n s.0 s.1)))
        ≤ left_in m succs g
    expanded-drops =
        let few = not_constructed-length (link_all n s.0 s.1) s.0 in
        let as_many = nodes_for-length q.0 (begin_at n q.1 g) s made in
        let narrow = fits.1 in
        let wide = inst_at-width m succs (Window.last (g.block n)) last at_last in
        let settled = settle_at-left_in m succs n (link_all n s.0 s.1) in
        let linked = link_all-left_in m succs n s.0 s.1 in
        let less = made-left_in in omega (arith, few, as_many, narrow, wide, settled, linked, less)

    pub expanded-Keyed : Keyed m s.1
    expanded-Keyed = files.1
