-- ===== src/Graph/View/Analysed.antt =====
-- src/FlowAnalyzer.cpp: the graph between two events, and the analysis of it.
use hippocrates.Base.{
  ℕ, ◌<◌, ◌≡◌, refl, ap, ◌∙◌, subst, ◌⊎◌, inl, inr, Bool, true, false, not, Option, some, List, [],
  ◌∷◌, is_empty, Text, All, Outcome, ok, aborted, assert, ◌>>=◌, ◌>>◌, arith, Option-cases,
  Outcome-cases, ok_injective, some_injective, went_on,
}
use hippocrates.Location.{LocationInfo}
use hippocrates.Ir.{Module, Inst}
use hippocrates.PmDesc.{Anders}
use hippocrates.Raise.{Mapper}
use hippocrates.Trace.{TraceEvent}
use hippocrates.Flow.{Infos, redundant_paths}
use hippocrates.Flow.Walk.{Has}
use hippocrates.Flow.Ends.{Inside, redundant_paths_ends}
use hippocrates.Graph.{Contexts, Window}
use hippocrates.Graph.Frames.{Framed}
use hippocrates.Graph.Locate.{locate}
use hippocrates.Graph.Successors.{Graph}
use hippocrates.Graph.Construct.{construct, context_graph, leaves_are_ends, rooted}
use hippocrates.Graph.Construct.Links.{Wired}
use hippocrates.Graph.Construct.Wiring.{construct-Wired}
use hippocrates.Graph.Rounds.{rounds}
use hippocrates.Graph.Rounds.Ends.{construct_ends}
use hippocrates.Graph.View.{view, no_contexts, graph_between}
use hippocrates.Graph.View.Seats.{locate-Located}

-- Either it stops at an assertion, or it gives a graph.
abbrev pub Ends : Outcome (Option Graph) → Type 0
Ends o = (o ≡ aborted) ⊎ ((g : Graph) × (o ≡ ok (some g)))

checked-Ends : (a b : Bool) (g : Graph) → Ends (assert a >> (assert b >> ok (some g)))
checked-Ends true true g = inr (g, refl)
checked-Ends true false g = inl refl
checked-Ends false b g = inl refl

checked-same :
    (a b : Bool) (g h : Graph) → (assert a >> (assert b >> ok (some g))) ≡ ok (some h) → g ≡ h
checked-same true true g h e = some_injective (ok_injective e)
checked-same true false g h e = ground (arith, e)
checked-same false b g h e = ground (arith, e)

Has-All : (size : ℕ) (xs : List ℕ) → ((x : ℕ) → Has x xs → x < size) → All (λ x. x < size) xs
Has-All size [] h = tt
Has-All size (x ∷ xs) h = (h x (inl refl), Has-All size xs (λ y k. h y (inr k)))

Wired-Inside : (g : Graph) → Wired g → Inside (view g) g.children × Inside (view g) g.parents
unfolding view
Wired-Inside g (mutual_links, linked, known) = (
  λ n. Has-All g.size (g.children n) (λ c h. (linked n c h).1),
  λ n. Has-All g.size (g.parents n) (λ c h. (linked c n ((mutual_links c n).1 h)).0),
)

module _ (anders : Anders) (m : Module) (succs : Inst → Option (List ℕ)) where
  context_graph-Ends :
      (cs : Contexts) (start end : Window)
      → Framed cs
      → start.ctx < cs.count
      → end.ctx < cs.count
      → Ends (context_graph anders m succs (rounds m succs cs start) cs start end)
  unfolding context_graph
  context_graph-Ends cs start end framed in_start in_end =
      elim (construct_ends anders m succs end cs start framed in_start in_end) [
        | inl e ↦ inl (rw (context_graph, e) refl)
        | inr (g, e) ↦
            rw (context_graph, e)
              (checked-Ends (not (is_empty g.leaves)) (leaves_are_ends g end g.leaves) g)
      ]

  context_graph-Wired :
      (fuel : ℕ) (cs : Contexts) (start end : Window) (g : Graph)
      → context_graph anders m succs fuel cs start end ≡ ok (some g)
      → Wired g
  unfolding context_graph
  context_graph-Wired fuel cs start end g ran =
      elim (Outcome-cases (construct anders m succs end fuel (0 ∷ []) (rooted cs start))) [
        | inl e ↦ absurd (ground (arith, rw (context_graph, e) at ran))
        | inr (done, e) ↦ elim (Option-cases done) [
          | inl f ↦ absurd (ground (arith, rw (context_graph, e, f) at ran))
          | inr (h, f) ↦
              let same : h ≡ g =
                checked-same (not (is_empty h.leaves)) (leaves_are_ends h end h.leaves) h g
                  (rw (context_graph, e, f) at ran) in
              subst Wired same (construct-Wired anders m succs end fuel cs start h (e ∙ ap ok f))
        ]
      ]

module _ (demangle : Text → Text) (anders : Anders) (m : Module) (mapper : Mapper)
    (insts_at : LocationInfo → Option (List ℕ)) (succs : Inst → Option (List ℕ)) where
  -- The constructor of the analysis ends: with the fuel that is counted for it, it stops at an assertion
  -- or makes the graph between the two events.
  pub graph_between-Ends :
      (start end : TraceEvent)
      → Ends (graph_between demangle anders m mapper insts_at succs start end)
  unfolding graph_between
  graph_between-Ends start end =
      elim (Outcome-cases (locate demangle anders m mapper insts_at start no_contexts)) [
        | inl e ↦ inl (rw (graph_between, e) refl)
        | inr (s, e) ↦ elim (Outcome-cases (locate demangle anders m mapper insts_at end s.1.1)) [
          | inl f ↦ inl (rw (graph_between, e, f) refl)
          | inr (t, f) ↦
              let (later, framed, in_s) =
                locate-Located demangle anders m mapper insts_at start no_contexts s e
                  (λ x p h. absurd (omega (arith, h))) in
              let (later_t, framed_t, in_t) =
                locate-Located demangle anders m mapper insts_at end s.1.1 t f framed in
              let more = later_t.0 in
              rw (graph_between, e, f)
                (context_graph-Ends anders m succs t.1.1 s.0 t.0 framed_t
                  (omega (arith, in_s, more)) in_t)
        ]
      ]

  -- The graph between two events is one that the analysis can walk: `redundantPaths` stops at an
  -- assertion or returns a list, whatever has been noted at its nodes.
  pub graph_between-redundant_paths :
      (start end : TraceEvent) (g : Graph) (infos : Infos)
      → graph_between demangle anders m mapper insts_at succs start end ≡ ok (some g)
      → (redundant_paths (view g) infos ≡ aborted)
        ⊎ ((points : List ℕ) × (redundant_paths (view g) infos ≡ ok (some points)))
  unfolding graph_between view
  graph_between-redundant_paths start end g infos ran =
      let (s, e, ran1) =
        went_on (locate demangle anders m mapper insts_at start no_contexts)
          (λ s. locate demangle anders m mapper insts_at end s.1.1 >>= λ e.
            context_graph anders m succs (rounds m succs e.1.1 s.0) e.1.1 s.0 e.0)
          (some g) ran in
      let (t, f, ran2) =
        went_on (locate demangle anders m mapper insts_at end s.1.1)
          (λ e. context_graph anders m succs (rounds m succs e.1.1 s.0) e.1.1 s.0 e.0) (some g)
          ran1 in
      let (down, up) =
        Wired-Inside g
          (context_graph-Wired anders m succs (rounds m succs t.1.1 s.0) t.1.1 s.0 t.0 g ran2) in
      redundant_paths_ends (view g) down up infos
