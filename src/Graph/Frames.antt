-- ===== src/Graph/Frames.antt =====
-- src/FlowAnalyzer.cpp: contexts are only added, and keep their frames.
use hippocrates.Base.{
  ℕ, ◌≤◌, ◌<◌, ◌≡◌, refl, sym, ap, ◌∙◌, subst, inl, inr, Option, some, List, [], ◌∷◌, ◌==◌, ==_iff,
  All, arith, Bool-cases, some_injective,
}
use hippocrates.Graph.{FnContext, Contexts, do_call, Window, same_window}
use hippocrates.Graph.Stores.{SameFrames, frame_of, do_call-new}
use hippocrates.Graph.Moves.{Here, Leads}

-- The contexts that are there later, too, with their frames.
abbrev pub Later : Contexts → Contexts → Type 0
Later cs cs' =
    (cs.count ≤ cs'.count)
    × ((x : ℕ) → x < cs.count → frame_of (cs'.context x) ≡ frame_of (cs.context x))

pub Later-same : (cs : Contexts) → Later cs cs
Later-same cs = (omega arith, λ x h. refl)

pub Later-again : (a b c : Contexts) → Later a b → Later b c → Later a c
Later-again a b c (up, same) (up', same') =
    (omega (arith, up, up'), λ x h. same' x (omega (arith, h, up)) ∙ same x h)

-- Callers are contexts that have been made.
abbrev pub Framed : Contexts → Type 0
Framed cs = (x p : ℕ) → x < cs.count → FnContext.parent (cs.context x) ≡ some p → p < cs.count

pub SameFrames-Framed : (cs cs' : Contexts) → SameFrames cs cs' → Framed cs → Framed cs'
SameFrames-Framed cs cs' (size, same) framed x p h e =
    let in_p =
      framed x p (omega (arith, size, h))
        (sym (ap (λ (f : List ℕ × Option ℕ). f.1) (same x)) ∙ e) in
    omega (arith, size, in_p)

pub do_call-Later : (ctx cb : ℕ) (cs : Contexts) → Later cs (do_call ctx cb cs).1
do_call-Later ctx cb cs =
    let (at_new, size, frame, old) = do_call-new ctx cb cs in
    (omega (arith, size), λ x h. ap frame_of (old x h))

pub do_call-Framed :
    (ctx cb : ℕ) (cs : Contexts) → ctx < cs.count → Framed cs → Framed (do_call ctx cb cs).1
do_call-Framed ctx cb cs inside framed x p h e =
    let (at_new, size, frame, old) = do_call-new ctx cb cs in
    elim (Bool-cases (x == cs.count)) [
      | inl new ↦
          let at_x : x ≡ cs.count = (==_iff x cs.count).0 new in
          let up : some ctx ≡ some p =
            sym (ap (λ (f : List ℕ × Option ℕ). f.1) frame)
            ∙ ap (λ z. FnContext.parent (Contexts.context (do_call ctx cb cs).1 z)) (sym at_x)
            ∙ e in
          let same = some_injective up in omega (arith, inside, size, same)
      | inr known ↦
          let in_x : x < cs.count = ground (arith, known, h, size) in
          let in_p = framed x p in_x (ap FnContext.parent (sym (old x in_x)) ∙ e) in
          omega (arith, in_p, size)
    ]

All-Here :
    (ctx : ℕ) (cs : Contexts) (ps : List (ℕ × ℕ))
    → ctx < cs.count
    → Framed cs
    → All (Here ctx cs) ps
    → All (λ (pt : ℕ × ℕ). pt.0 < cs.count) ps
All-Here ctx cs [] inside framed h = tt
All-Here ctx cs (pt ∷ ps) inside framed (h, hs) = (
  elim h [ inl same ↦ omega (arith, same, inside) | inr up ↦ framed ctx pt.0 inside up ],
  All-Here ctx cs ps inside framed hs,
)

-- What comes behind a block stands in contexts that are there.
pub Leads-Later :
    (ctx cb : ℕ) (cs : Contexts) (q : List (ℕ × ℕ) × Contexts)
    → ctx < cs.count
    → Framed cs
    → Leads ctx cb cs q
    → Later cs q.1 × Framed q.1 × All (λ (pt : ℕ × ℕ). pt.0 < Contexts.count q.1) q.0
Leads-Later ctx cb cs q inside framed (inl ((size, same), here)) = (
  (omega (arith, size), λ x h. same x),
  SameFrames-Framed cs q.1 (size, same) framed,
  subst (λ n. All (λ (pt : ℕ × ℕ). pt.0 < n) q.0) (sym size)
      (All-Here ctx cs q.0 inside framed here),
)
Leads-Later ctx cb cs q inside framed (inr (new, (next, same))) =
    let (at_new, size, frame, old) = do_call-new ctx cb cs in
    subst
      (λ (q : List (ℕ × ℕ) × Contexts).
        Later cs q.1 × Framed q.1 × All (λ (pt : ℕ × ℕ). pt.0 < Contexts.count q.1) q.0)
      same
      (do_call-Later ctx cb cs, do_call-Framed ctx cb cs inside framed, (omega (arith, size), tt))

-- Blocks are compared by their calls only.
pub same_window-Later :
    (cs cs' : Contexts) (a b : Window)
    → Later cs cs'
    → a.ctx < cs.count
    → b.ctx < cs.count
    → same_window cs' a b ≡ same_window cs a b
unfolding same_window
same_window-Later cs cs' a b (up, same) in_a in_b =
    rw
      (
        ap (λ (f : List ℕ × Option ℕ). f.0) (same a.ctx in_a),
        ap (λ (f : List ℕ × Option ℕ). f.0) (same b.ctx in_b),
      )
      refl
