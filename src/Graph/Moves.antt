-- ===== src/Graph/Moves.antt =====
-- src/FlowAnalyzer.cpp: the contexts and the instructions that come behind a block
-- (`ContextGraph::constructSuccessors`).
use hippocrates.Base.{
  ℕ, suc, ◌≤◌, ◌≡◌, refl, ap, subst, ◌⊎◌, inl, inr, false, Option, none, some, List, [], ◌∷◌,
  length, All, ok, ◌>>=◌, arith, Bool-cases, Option-cases, ok_injective, went_on, taken, not_taken,
}
use hippocrates.Ir.{Module, Inst, Op, Value, FnInfo, ret, call, called_function}
use hippocrates.PmDesc.{Anders}
use hippocrates.Graph.{allocate, FnContext, Contexts, calls_back, caller, do_call, return_to_parent}
use hippocrates.Graph.Stores.{SameFrames, return-SameFrames}
use hippocrates.Graph.Successors.{
  behind_return, behind_call, behind_end, points_after, next_inst, entry_inst, at_ctx,
}

-- The context or the one that called it.
abbrev pub Here : ℕ → Contexts → ℕ × ℕ → Type 0
Here ctx cs pt = (pt.0 ≡ ctx) ⊎ (FnContext.parent (cs.context ctx) ≡ some pt.0)

-- Either the contexts keep their frames, and one goes on in the context or in the caller's, or there
-- is one more, for a call that the context does not stand in yet.
abbrev pub Leads : ℕ → ℕ → Contexts → List (ℕ × ℕ) × Contexts → Type 0
Leads ctx cb cs q =
    (SameFrames cs q.1 × All (Here ctx cs) q.0)
    ⊎ ((calls_back (cs.context ctx) cb ≡ false)
        × ((next : ℕ) × (((cs.count, next) ∷ [], (do_call ctx cb cs).1) ≡ q)))

at_ctx-All : (ctx : ℕ) (cs : Contexts) (ps : List ℕ) → All (Here ctx cs) (at_ctx ctx ps)
at_ctx-All ctx cs [] = tt
at_ctx-All ctx cs (p ∷ ps) = (inl refl, at_ctx-All ctx cs ps)

-- As many as the instruction has successors, or one.
abbrev pub width : Option (List ℕ) → ℕ
width none = 1
width (some ps) = suc (length ps)

length-at_ctx : (ctx : ℕ) (ps : List ℕ) → length (at_ctx ctx ps) ≡ length ps
length-at_ctx ctx [] = refl
length-at_ctx ctx (p ∷ ps) = ap suc (length-at_ctx ctx ps)

module _ (anders : Anders) (m : Module) (succs : Inst → Option (List ℕ)) where
  abbrev pub Fits : ℕ → Inst → Contexts → List (ℕ × ℕ) × Contexts → Type 0
  Fits ctx last cs q = Leads ctx last.id cs q × (length q.0 ≤ width (succs last))

  one : (last : Inst) → 1 ≤ width (succs last)
  one last = elim (Option-cases (succs last)) [
    | inl e ↦ rw (e) (omega arith)
    | inr (ps, e) ↦ rw (e) (omega arith)
  ]

  behind_return-Fits :
      (ctx : ℕ) (last : Inst) (v : Option Value) (cs : Contexts) (q : List (ℕ × ℕ) × Contexts)
      → behind_return anders m succs ctx v cs ≡ ok q
      → Fits ctx last cs q
  unfolding behind_return
  behind_return-Fits ctx last v cs q ran = elim (Option-cases (FnContext.parent (cs.context ctx))) [
    | inl e ↦
        subst (Fits ctx last cs) (ok_injective (rw (behind_return, e) at ran))
          (inl ((refl, λ x. refl), tt), omega arith)
    | inr (p, e) ↦
        let (r, back, ran1) =
          went_on (return_to_parent anders ctx v cs)
            (λ (r : ℕ × Contexts). caller (Contexts.context r.1 ctx) >>= λ cb.
              next_inst m cb >>= λ next. ok ((r.0, next) ∷ [], r.1))
            q (rw (behind_return, e) at ran) in
        let (cb, e1, ran2) =
          went_on (caller (Contexts.context r.1 ctx))
            (λ cb. next_inst m cb >>= λ next. ok ((r.0, next) ∷ [], r.1)) q ran1 in
        let (next, e2, end) =
          went_on (next_inst m cb) (λ next. ok ((r.0, next) ∷ [], r.1)) q ran2 in
        let (led, same) = return-SameFrames anders ctx v cs r back in
        subst (Fits ctx last cs) (ok_injective end) (inl (same, (inr led, tt)), one last)
  ]

  behind_call-Fits :
      (ctx : ℕ) (last : Inst) (f : Option FnInfo) (cs : Contexts) (q : List (ℕ × ℕ) × Contexts)
      → behind_call anders m succs ctx last.id f cs ≡ ok q
      → Fits ctx last cs q
  unfolding behind_call do_call allocate
  behind_call-Fits ctx last none cs q ran = ground (arith, ran)
  behind_call-Fits ctx last (some f) cs q ran =
      elim (Bool-cases (calls_back (cs.context ctx) last.id)) [
        | inl e ↦
            let (next, e1, end) =
              went_on (next_inst m last.id) (λ next. ok ((ctx, next) ∷ [], cs)) q
                (taken _ _ _ _ e ran) in
            subst (Fits ctx last cs) (ok_injective end)
              (inl ((refl, λ x. refl), (inl refl, tt)), one last)
        | inr e ↦
            let (next, e1, end) =
              went_on (entry_inst m f.name)
                (λ next. ok ((cs.count, next) ∷ [], (do_call ctx last.id cs).1)) q
                (not_taken _ _ _ _ e ran) in
            subst (Fits ctx last cs) (ok_injective end) (inr (e, (next, refl)), one last)
      ]

  behind_end-Fits :
      (ctx : ℕ) (last : Inst) (cs : Contexts) (q : List (ℕ × ℕ) × Contexts)
      → behind_end anders m succs ctx (succs last) cs ≡ ok q
      → Fits ctx last cs q
  behind_end-Fits ctx last cs q ran = elim (Option-cases (succs last)) [
    | inl e ↦ absurd (ground (arith, rw (e) at ran))
    | inr (ps, e) ↦ subst (Fits ctx last cs) (ok_injective (rw (e) at ran)) (
      inl ((refl, λ x. refl), at_ctx-All ctx cs ps),
      rw (e) (ground (arith, length-at_ctx ctx ps)),
    )
  ]

  -- What comes behind a block, and how much.
  pub points_after-Fits :
      (ctx : ℕ) (last : Inst) (op : Op) (cs : Contexts) (q : List (ℕ × ℕ) × Contexts)
      → points_after anders m succs ctx last op cs ≡ ok q
      → Fits ctx last cs q
  unfolding points_after
  points_after-Fits ctx last (ret v) cs q ran = behind_return-Fits ctx last v cs q ran
  points_after-Fits ctx last (call callee args) cs q ran =
      behind_call-Fits ctx last (called_function (call callee args)) cs q ran
  points_after-Fits ctx last _ cs q ran = behind_end-Fits ctx last cs q ran
