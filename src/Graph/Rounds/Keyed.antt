-- ===== src/Graph/Rounds/Keyed.antt =====
-- src/FlowAnalyzer.cpp: every node but the root is in the cache of `ContextGraph`, under its context
-- and its first instruction.
use hippocrates.Base.{
  ℕ, ◌<◌, ◌≡◌, refl, sym, ap, ◌∙◌, subst, ◌⊎◌, inl, inr, Bool, true, ◌&&◌, Option, none, some, List,
  ◌∷◌, ◌==◌, ==_iff, ok, arith, Bool-cases,
}
use hippocrates.Ir.{Module, Inst}
use hippocrates.PmDesc.{Anders}
use hippocrates.Flow.Walk.{Has}
use hippocrates.Graph.{Window, create_window}
use hippocrates.Graph.Shape.{create_window-Run}
use hippocrates.Graph.Stores.{eq_refl}
use hippocrates.Graph.Successors.{Graph, add_node, node_at, nodes_for, remember}
use hippocrates.Graph.Construct.Rules.{nodes_for-rule}
use hippocrates.Graph.Construct.Extends.{remember-old, remember-new}
use hippocrates.Graph.Rounds.{all_insts, ids}
use hippocrates.Graph.Rounds.Members.{parent-Has}

abbrev pub Filed : Module → Window → List ((ℕ × ℕ) × ℕ) → ℕ → Type 0
Filed m w cache n = (node_at (w.ctx, w.first) cache ≡ some n) × Has w.first (ids (all_insts m))

abbrev pub Keyed : Module → Graph → Type 0
Keyed m g = (n : ℕ) → n < g.size → (n ≡ 0) ⊎ Filed m (g.block n) g.cache n

-- What the cache has it keeps.
abbrev pub Remembers : List ((ℕ × ℕ) × ℕ) → List ((ℕ × ℕ) × ℕ) → Type 0
Remembers cache cache' =
    (key : ℕ × ℕ) (n : ℕ) → node_at key cache ≡ some n → node_at key cache' ≡ some n

node_at-hit : (key : ℕ × ℕ) (n : ℕ) (es : List ((ℕ × ℕ) × ℕ)) → node_at key ((key, n) ∷ es) ≡ some n
unfolding node_at
node_at-hit (c, p) n es = rw (eq_refl c, eq_refl p) refl

both_eq : (d c q p : ℕ) → (d == c) && (q == p) ≡ true → (d ≡ c) × (q ≡ p)
both_eq d c q p h = (ground (arith, h), ground (arith, h))

pair : {c d p q : ℕ} → d ≡ c → q ≡ p → ◌≡◌ {A = ℕ × ℕ} (c, p) (d, q)
pair e f = cc

some-none : {n : ℕ} → some n ≡ none → ⊥
some-none e = ground (arith, e)

-- A key that was not there hides no other.
node_at-miss :
    (k : ℕ × ℕ) (z : ℕ) (es : List ((ℕ × ℕ) × ℕ)) → node_at k es ≡ none → Remembers es ((k, z) ∷ es)
unfolding node_at
node_at-miss (d, q) z es miss (c, p) n e = elim (Bool-cases ((d == c) && (q == p))) [
  | inr h ↦ rw (node_at, h) e
  | inl h ↦
      let (at_c, at_p) = both_eq d c q p h in
      absurd (some-none (sym (subst (λ x. node_at x es ≡ some n) (pair at_c at_p) e) ∙ miss))
]

module _ (anders : Anders) (m : Module) (succs : Inst → Option (List ℕ)) where
  abbrev Files : List (ℕ × ℕ) → Graph → List ℕ × Graph → Type 0
  Files ps g r = 0 < g.size → Keyed m g → Remembers g.cache (Graph.cache r.1) × Keyed m r.1

  remember-Keyed :
      (k : ℕ × ℕ) (g : Graph) (w : Window)
      → node_at k g.cache ≡ none
      → create_window m k.0 k.1 k.1 ≡ ok w
      → Keyed m g
      → Keyed m (remember k w g)
  unfolding add_node
  remember-Keyed k g w miss made keyed n h =
      let (at_ctx, at_first, traced, (f, b, stands, run)) =
        create_window-Run m k.0 k.1 k.1 w made in
      elim (Bool-cases (n == g.size)) [
        | inl e ↦
            let at_n : n ≡ g.size = (==_iff n g.size).0 e in
            let at_size : Filed m (Graph.block (remember k w g) g.size)
                (Graph.cache (remember k w g)) g.size =
              subst (λ (z : Window). Filed m z ((k, g.size) ∷ g.cache) g.size)
                (sym (ap (λ (t : Window × (List ℕ × Bool)). t.0) (remember-new k w g)))
                (
                  subst (λ (key : ℕ × ℕ). node_at key ((k, g.size) ∷ g.cache) ≡ some g.size)
                      (pair at_ctx at_first) (node_at-hit k g.size g.cache),
                  subst (λ z. Has z (ids (all_insts m))) (sym at_first)
                      (parent-Has m k.1 f b stands),
                ) in
            inr (
              subst (λ z. Filed m (Graph.block (remember k w g) z) (Graph.cache (remember k w g)) z)
                (sym at_n) at_size)
        | inr e ↦
            let in_n : n < g.size = ground (arith, e, h) in
            let same : Graph.block (remember k w g) n ≡ g.block n =
              ap (λ (t : Window × (List ℕ × Bool)). t.0) (remember-old k w g n in_n) in
            elim (keyed n in_n) [
              | inl root ↦ inl root
              | inr (old, there) ↦ inr (
                  subst (λ (z : Window). Filed m z ((k, g.size) ∷ g.cache) n) (sym same)
                    (
                      node_at-miss k g.size g.cache miss
                          (Window.ctx (g.block n), Window.first (g.block n)) n old,
                      there,
                    ))
            ]
      ]

  pub nodes_for-Files :
      (ps : List (ℕ × ℕ)) (g : Graph) (r : List ℕ × Graph)
      → nodes_for anders m succs ps g ≡ ok r
      → Files ps g r
  unfolding add_node
  nodes_for-Files =
      nodes_for-rule anders m succs Files (λ g some_in keyed. (λ key n e. e, keyed))
        (λ k ps g n r e files. files)
        (λ k ps g w r miss made files some_in keyed.
          let (later, now) =
            files (omega (arith, some_in)) (remember-Keyed k g w miss made keyed) in
          (λ key n e. later key n (node_at-miss k g.size g.cache miss key n e), now))
