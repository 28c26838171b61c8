-- ===== src/Graph/Construct/Links.antt =====
-- src/FlowAnalyzer.cpp: `ContextGraph::construct` tells every child of its parents and every parent of
-- its children, and all are nodes of the graph.
use hippocrates.Base.{
  ℕ, ◌<◌, ◌≡◌, refl, sym, subst, ◌↔◌, ◌⊎◌, inl, inr, ◌&&◌, some, List, [], ◌∷◌, ◌==◌, ==_iff, arith,
  Bool-cases, some_injective, taken, not_taken,
}
use hippocrates.Flow.{member}
use hippocrates.Flow.Walk.{Has, member-Has}
use hippocrates.Graph.{change, Window}
use hippocrates.Graph.Stores.{change-other}
use hippocrates.Graph.Successors.{remember, Graph, add_node, node_at}
use hippocrates.Graph.Construct.{insert_node, insert_at, link, link_all}

abbrev pub Below : ℕ → List ℕ → Type 0
Below size xs = (x : ℕ) → Has x xs → x < size

pub Has-insert_node : (x n : ℕ) (ns : List ℕ) → Has x (insert_node n ns) ↔ ((n ≡ x) ⊎ Has x ns)
unfolding insert_node
Has-insert_node x n ns = elim (Bool-cases (member n ns)) [
  | inl e ↦
      rw (insert_node, e)
        (
          λ h. inr h,
          λ h. elim h [
            | inl same ↦ subst (λ y. Has y ns) same (member-Has n ns e)
            | inr there ↦ there
          ],
        )
  | inr e ↦ rw (insert_node, e) (λ h. h, λ h. h)
]

-- A list of a node, with one more in it.
pub Has-insert_at :
    (n x : ℕ) (f : ℕ → List ℕ) (a b : ℕ)
    → Has b (insert_at n x f a) ↔ (((a ≡ n) × (b ≡ x)) ⊎ Has b (f a))
Has-insert_at n x f a b = elim (Bool-cases (a == n)) [
  | inl e ↦
      let same : a ≡ n = (==_iff a n).0 e in
      let put = Has-insert_node b x (f n) in
      rw (e, same)
        (
          λ h. elim (put.0 h) [ inl now ↦ inl (refl, sym now) | inr there ↦ inr there ],
          λ h. elim h [ inl (s, now) ↦ put.1 (inl (sym now)) | inr there ↦ put.1 (inr there) ],
        )
  | inr e ↦
      rw (e) (
        λ h. inr h,
        λ h. elim h [ inl (s, now) ↦ absurd (ground (arith, e, s)) | inr there ↦ there ],
      )
]

-- Parents and children agree, and all nodes that are named are of the graph.
abbrev pub Wired : Graph → Type 0
Wired g =
    ((n c : ℕ) → Has c (Graph.children g n) ↔ Has n (Graph.parents g c))
    × ((n c : ℕ) → Has c (Graph.children g n) → (n < g.size) × (c < g.size))
    × ((key : ℕ × ℕ) (n : ℕ) → node_at key g.cache ≡ some n → n < g.size)

link-Wired : (n c : ℕ) (g : Graph) → n < g.size → c < g.size → Wired g → Wired (link n c g)
link-Wired n c g in_n in_c (mutual_links, linked, known) = (
  λ a b.
      let down = Has-insert_at n c g.children a b in
      let up = Has-insert_at c n g.parents b a in
      (
        λ h. elim (down.0 h) [
          | inl (at_a, at_b) ↦ up.1 (inl (at_b, at_a))
          | inr old ↦ up.1 (inr ((mutual_links a b).0 old))
        ],
        λ h. elim (up.0 h) [
          | inl (at_b, at_a) ↦ down.1 (inl (at_a, at_b))
          | inr old ↦ down.1 (inr ((mutual_links a b).1 old))
        ],
      ),
  λ a b h. elim ((Has-insert_at n c g.children a b).0 h) [
    | inl (at_a, at_b) ↦
        (subst (λ x. x < g.size) (sym at_a) in_n, subst (λ x. x < g.size) (sym at_b) in_c)
    | inr old ↦ linked a b old
  ],
  known,
)

pub link_all-size : (n : ℕ) (cs : List ℕ) (g : Graph) → Graph.size (link_all n cs g) ≡ g.size
unfolding link_all
link_all-size n [] g = refl
link_all-size n (c ∷ cs) g = link_all-size n cs (link n c g)

pub link_all-Wired :
    (n : ℕ) (cs : List ℕ) (g : Graph)
    → n < g.size
    → Below g.size cs
    → Wired g
    → Wired (link_all n cs g)
unfolding link_all
link_all-Wired n [] g in_n inside p = p
link_all-Wired n (c ∷ cs) g in_n inside p =
    link_all-Wired n cs (link n c g) in_n (λ x h. inside x (inr h))
      (link-Wired n c g in_n (inside c (inl refl)) p)

-- The lists of a new node are empty, and those of the others are kept.
pub Has-new :
    (n : ℕ) (f : ℕ → List ℕ) (a b : ℕ) → Has b (change n [] f a) → (¬ (a ≡ n)) × Has b (f a)
Has-new n f a b h = elim (Bool-cases (a == n)) [
  | inl e ↦ absurd (rw (e) at h)
  | inr e ↦ (λ same. ground (arith, e, same), rw (e) at h)
]

new-Has : (n : ℕ) (f : ℕ → List ℕ) (a b : ℕ) → ¬ (a ≡ n) → Has b (f a) → Has b (change n [] f a)
new-Has n f a b apart h = subst (Has b) (sym (change-other n a [] f (ground (arith, apart)))) h

pair : {c d p q : ℕ} → c ≡ d → p ≡ q → ◌≡◌ {A = ℕ × ℕ} (c, p) (d, q)
pair e f = cc

-- A new entry of the cache is for its own key.
pub node_at-cons :
    (key new : ℕ × ℕ) (n : ℕ) (es : List ((ℕ × ℕ) × ℕ)) (k : ℕ)
    → node_at key ((new, n) ∷ es) ≡ some k
    → ((key ≡ new) × (n ≡ k)) ⊎ (node_at key es ≡ some k)
unfolding node_at
node_at-cons (c, p) (d, q) n es k e = elim (Bool-cases ((d == c) && (q == p))) [
  | inl h ↦ inl (pair (ground (arith, h)) (ground (arith, h)), some_injective (taken _ _ _ _ h e))
  | inr h ↦ inr (not_taken _ _ _ _ h e)
]

pub remember-Wired : (key : ℕ × ℕ) (w : Window) (g : Graph) → Wired g → Wired (remember key w g)
unfolding add_node node_at
remember-Wired key w g (mutual_links, linked, known) = (
  λ a b. (
    λ h.
        let (apart, old) = Has-new g.size g.children a b h in
        let (in_a, in_b) = linked a b old in
        new-Has g.size g.parents b a (λ e. omega (arith, e, in_b)) ((mutual_links a b).0 old),
    λ h.
        let (apart, old) = Has-new g.size g.parents b a h in
        let back = (mutual_links a b).1 old in
        let (in_a, in_b) = linked a b back in
        new-Has g.size g.children a b (λ e. omega (arith, e, in_a)) back,
  ),
  λ a b h.
      let (apart, old) = Has-new g.size g.children a b h in
      let (in_a, in_b) = linked a b old in (omega (arith, in_a), omega (arith, in_b)),
  λ k n e. elim (node_at-cons k key g.size g.cache n e) [
    | inl (same, at_n) ↦ omega (arith, at_n)
    | inr old ↦ let in_n = known k n old in omega (arith, in_n)
  ],
)
