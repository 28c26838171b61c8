-- ===== src/Graph/Rounds/Sums.antt =====
-- Sums over the instructions of the contexts that fall.
use hippocrates.Base.{
  ℕ, zero, suc, ◌+◌, ◌≤◌, ◌<◌, ◌≡◌, sym, subst, inl, inr, false, List, [], ◌∷◌, length, ◌==◌,
  ==_iff, arith, Bool-cases,
}
use hippocrates.Flow.{member}
use hippocrates.Flow.Walk.{Has}
use hippocrates.Graph.Rounds.{free, times, weight, row, total}

pub row-le : (f g : ℕ → ℕ) (ps : List ℕ) → ((p : ℕ) → f p ≤ g p) → row f ps ≤ row g ps
unfolding row
row-le f g [] h = omega arith
row-le f g (p ∷ ps) h = let here = h p in let rest = row-le f g ps h in omega (arith, here, rest)

pub row-drop :
    (f g : ℕ → ℕ) (ps : List ℕ) (x a : ℕ)
    → ((p : ℕ) → f p ≤ g p)
    → f x + a ≤ g x
    → Has x ps
    → row f ps + a ≤ row g ps
unfolding row
row-drop f g [] x a h at_x there = absurd there
row-drop f g (p ∷ ps) x a h at_x (inl same) =
    let rest = row-le f g ps h in
    let here : f p + a ≤ g p = subst (λ z. f z + a ≤ g z) (sym same) at_x in
    omega (arith, rest, here)
row-drop f g (p ∷ ps) x a h at_x (inr there) =
    let rest = row-drop f g ps x a h at_x there in let here = h p in omega (arith, rest, here)

pub row-bound :
    (f : ℕ → ℕ) (ps : List ℕ) (w : ℕ) → ((p : ℕ) → f p ≤ w) → row f ps ≤ times (length ps) w
unfolding row
row-bound f [] w h = omega arith
row-bound f (p ∷ ps) w h =
    let here = h p in let rest = row-bound f ps w h in omega (arith, here, rest)

pub total-le :
    (f g : ℕ → ℕ → ℕ) (k : ℕ) (ps : List ℕ)
    → ((c p : ℕ) → c < k → f c p ≤ g c p)
    → total f k ps ≤ total g k ps
unfolding total
total-le f g zero ps h = omega arith
total-le f g (suc k) ps h =
    let here = row-le (f k) (g k) ps (λ p. h k p (omega arith)) in
    let rest = total-le f g k ps (λ c p below. h c p (omega (arith, below))) in
    omega (arith, here, rest)

pub total-drop :
    (f g : ℕ → ℕ → ℕ) (k : ℕ) (ps : List ℕ) (c x a : ℕ)
    → ((d p : ℕ) → d < k → f d p ≤ g d p)
    → c < k
    → f c x + a ≤ g c x
    → Has x ps
    → total f k ps + a ≤ total g k ps
unfolding total
total-drop f g zero ps c x a h below at_x there = absurd (omega (arith, below))
total-drop f g (suc k) ps c x a h below at_x there = elim (Bool-cases (c == k)) [
  | inl e ↦
      let same : c ≡ k = (==_iff c k).0 e in
      let here =
        row-drop (f k) (g k) ps x a (λ p. h k p (omega arith))
          (subst (λ z. f z x + a ≤ g z x) same at_x) there in
      let rest = total-le f g k ps (λ d p less. h d p (omega (arith, less))) in
      omega (arith, here, rest)
  | inr e ↦
      let here = row-le (f k) (g k) ps (λ p. h k p (omega arith)) in
      let rest =
        total-drop f g k ps c x a (λ d p less. h d p (omega (arith, less)))
          (ground (arith, below, e)) at_x there in
      omega (arith, here, rest)
]

pub times-le : (n a b : ℕ) → a ≤ b → times n a ≤ times n b
times-le zero a b h = omega arith
times-le (suc n) a b h = let rest = times-le n a b h in omega (arith, h, rest)

weight-suc : (n k d : ℕ) → weight n k d ≤ weight n k (suc d)
weight-suc n k zero = omega arith
weight-suc n k (suc d) =
    let more = times-le n (weight n k d) (weight n k (suc d)) (weight-suc n k d) in
    omega (arith, more)

pub weight-le : (n k a b : ℕ) → a ≤ b → weight n k a ≤ weight n k b
weight-le n k a zero h = let e : a ≡ 0 = omega (arith, h) in rw (e) (omega arith)
weight-le n k a (suc b) h = elim (Bool-cases (a == suc b)) [
  | inl e ↦
      let same : a ≡ suc b = (==_iff a (suc b)).0 e in
      subst (λ z. weight n k a ≤ weight n k z) same (omega arith)
  | inr e ↦
      let less : a ≤ b = ground (arith, h, e) in
      let below = weight-le n k a b less in
      let next = weight-suc n k b in omega (arith, below, next)
]

free-le : (ps stack : List ℕ) (cb : ℕ) → free ps (cb ∷ stack) ≤ free ps stack
unfolding free member
free-le [] stack cb = omega arith
free-le (p ∷ ps) stack cb = ground (arith, free-le ps stack cb)

-- One more call of the module in a stack leaves fewer.
pub free-call :
    (ps stack : List ℕ) (cb : ℕ)
    → Has cb ps
    → member cb stack ≡ false
    → suc (free ps (cb ∷ stack)) ≤ free ps stack
unfolding free member
free-call [] stack cb h new = absurd h
free-call (p ∷ ps) stack cb (inl same) new =
    let less = free-le ps stack cb in
    let out : member p stack ≡ false = subst (λ z. member z stack ≡ false) (sym same) new in
    ground (arith, less, out, same)
free-call (p ∷ ps) stack cb (inr there) new =
    let rest = free-call ps stack cb there new in ground (arith, rest)
