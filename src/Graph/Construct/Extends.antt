-- ===== src/Graph/Construct/Extends.antt =====
-- src/FlowAnalyzer.cpp: `ContextGraph::constructSuccessors` adds nodes to the graph and leaves those
-- that are there as they are.
use hippocrates.Base.{
  ℕ, ◌≤◌, ◌<◌, ◌≡◌, refl, sym, ap, ◌∙◌, subst, inl, inr, Bool, false, Option, List, [], ◌==◌,
  ==_iff, All, ok, arith, Bool-cases,
}
use hippocrates.Ir.{Module, Inst}
use hippocrates.PmDesc.{Anders}
use hippocrates.Graph.{Contexts, Window}
use hippocrates.Graph.Shape.{create_window-Run}
use hippocrates.Graph.Stores.{eq_refl}
use hippocrates.Graph.Successors.{Graph, add_node, nodes_for, remember}
use hippocrates.Graph.Construct.Rules.{nodes_for-rule}

-- A node as it is: its block, its children, and whether it is constructed.
abbrev pub node_of : Graph → ℕ → Window × (List ℕ × Bool)
node_of g n = (g.block n, (g.children n, g.constructed n))

-- A node that nothing is known of.
abbrev pub Fresh : Graph → ℕ → Type 0
Fresh g n =
    (Window.ctx (g.block n) < Contexts.count g.contexts)
    × (g.children n ≡ [])
    × (g.constructed n ≡ false)

abbrev pub Extends : Graph → Graph → Type 0
Extends g g' =
    (g'.contexts ≡ g.contexts)
    × (g'.leaves ≡ g.leaves)
    × (g.size ≤ g'.size)
    × ((x : ℕ) → x < g.size → node_of g' x ≡ node_of g x)
    × ((x : ℕ) → ¬ (x < g.size) → x < g'.size → Fresh g' x)

Extends-same : (g : Graph) → Extends g g
Extends-same g = (refl, refl, omega arith, λ x h. refl, λ x out h. absurd (out h))

pub remember-old :
    (k : ℕ × ℕ) (w : Window) (g : Graph) (x : ℕ)
    → x < g.size
    → node_of (remember k w g) x ≡ node_of g x
unfolding add_node
remember-old k w g x h = let apart : (x == g.size) ≡ false = ground (arith, h) in rw (apart) refl

pub remember-new :
    (k : ℕ × ℕ) (w : Window) (g : Graph) → node_of (remember k w g) g.size ≡ (w, ([], false))
unfolding add_node
remember-new k w g = rw (eq_refl g.size) refl

Fresh-made :
    (w : Window) (g : Graph) (x : ℕ)
    → node_of g x ≡ (w, ([], false))
    → w.ctx < Contexts.count g.contexts
    → Fresh g x
Fresh-made w g x e inside = (
  rw (ap (λ (t : Window × (List ℕ × Bool)). t.0) e) inside,
  ap (λ (t : Window × (List ℕ × Bool)). t.1.0) e,
  ap (λ (t : Window × (List ℕ × Bool)). t.1.1) e,
)

remember-Extends :
    (k : ℕ × ℕ) (w : Window) (g g' : Graph)
    → w.ctx < Contexts.count g.contexts
    → Extends (remember k w g) g'
    → Extends g g'
unfolding add_node
remember-Extends k w g g' inside (contexts, leaves, grown, old, new) = (
  contexts,
  leaves,
  omega (arith, grown),
  λ x h. old x (omega (arith, h)) ∙ remember-old k w g x h,
  λ x out h. elim (Bool-cases (x == g.size)) [
    | inl e ↦
        let at_x : x ≡ g.size = (==_iff x g.size).0 e in
        let made : node_of g' g.size ≡ (w, ([], false)) =
          old g.size (omega arith) ∙ remember-new k w g in
        subst (Fresh g') (sym at_x) (Fresh-made w g' g.size made (rw (contexts) inside))
    | inr e ↦ new x (ground (arith, out, e)) h
  ],
)

module _ (anders : Anders) (m : Module) (succs : Inst → Option (List ℕ)) where
  abbrev Grown : List (ℕ × ℕ) → Graph → List ℕ × Graph → Type 0
  Grown ps g r = All (λ (pt : ℕ × ℕ). pt.0 < Contexts.count g.contexts) ps → Extends g r.1

  pub nodes_for-Extends :
      (ps : List (ℕ × ℕ)) (g : Graph) (r : List ℕ × Graph)
      → nodes_for anders m succs ps g ≡ ok r
      → Grown ps g r
  unfolding add_node
  nodes_for-Extends =
      nodes_for-rule anders m succs Grown (λ g inside. Extends-same g)
        (λ k ps g n r e grown inside. grown inside.1)
        (λ k ps g w r e made grown inside.
          let (at_k, first, traced, block) = create_window-Run m k.0 k.1 k.1 w made in
          remember-Extends k w g r.1 (rw (at_k) inside.0) (grown inside.1))
