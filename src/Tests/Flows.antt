-- ===== src/Tests/Flows.antt =====
-- Runs of the walks over a small graph with a loop (src/FlowAnalyzer.cpp).
use hippocrates.Base.{
  ℕ, ◌+◌, ◌≡◌, refl, inl, inr, true, false, some, List, [], ◌∷◌, ◌==◌, if◌then◌else◌, ok, arith,
  Bool-cases,
}
use hippocrates.Flow.{
  ContextBlock, Infos, ContextGraph, redundant_paths, walk_down, walk_up, walk_points, traverse,
  member, edges, behind, join_parents, join_children, roots_fit, leaves_fit,
}
use hippocrates.Flow.Points.{Point, redundant_paths-Point}
use hippocrates.Flow.Ends.{Inside}

abbrev block_at : ℕ → ContextBlock
block_at n = record {
  first = 10 + n;
  last = 10 + n;
  trace_inst = 10 + n;
  pm = record { locals = []; globals = [] };
}

-- The root is followed by a block that is its own successor, and that by a leaf.
abbrev next : ℕ → List ℕ
next n = if n == 0 then 1 ∷ [] else if n == 1 then 1 ∷ 2 ∷ [] else []

abbrev before : ℕ → List ℕ
before n = if n == 1 then 0 ∷ 1 ∷ [] else if n == 2 then 1 ∷ [] else []

abbrev looping : ContextGraph
looping = record {
  size = 3;
  block = block_at;
  children = next;
  parents = before;
  roots = 0 ∷ [];
  leaves = 2 ∷ [];
}

abbrev pub clean : Infos
clean n = record {
  updated = true;
  is_not_redundant = false;
  is_redt_in_parents = true;
  is_redt_in_children = true;
}

one_point : redundant_paths looping clean ≡ ok (some (11 ∷ []))
unfolding redundant_paths walk_down walk_up walk_points traverse member edges behind join_parents
    join_children roots_fit leaves_fit
one_point = refl

redundant_paths-Point_example : Point looping clean 11
redundant_paths-Point_example =
    redundant_paths-Point looping clean (11 ∷ []) one_point 11 (inl refl)

next-Inside : Inside looping next
next-Inside n = elim (Bool-cases (n == 0)) [
  | inl e ↦ rw (e) (omega arith, tt)
  | inr e ↦ elim (Bool-cases (n == 1)) [
    | inl f ↦ rw (e, f) (omega arith, (omega arith, tt))
    | inr f ↦ rw (e, f) tt
  ]
]

before-Inside : Inside looping before
before-Inside n = elim (Bool-cases (n == 1)) [
  | inl e ↦ rw (e) (omega arith, (omega arith, tt))
  | inr e ↦ elim (Bool-cases (n == 2)) [
    | inl f ↦ rw (e, f) (omega arith, tt)
    | inr f ↦ rw (e, f) tt
  ]
]

-- A block that is reached over a spoiled block, too, but later.
abbrev late_next : ℕ → List ℕ
late_next n =
    if n == 0
    then 3 ∷ 1 ∷ []
    else if n == 1
    then 2 ∷ []
    else if n == 2
    then 3 ∷ []
    else if n == 3
    then 4 ∷ []
    else []

abbrev late_before : ℕ → List ℕ
late_before n =
    if n == 3
    then 0 ∷ 2 ∷ []
    else if n == 1
    then 0 ∷ []
    else if n == 2
    then 1 ∷ []
    else if n == 4
    then 3 ∷ []
    else []

abbrev late : ContextGraph
late = record {
  size = 5;
  block = block_at;
  children = late_next;
  parents = late_before;
  roots = 0 ∷ [];
  leaves = 4 ∷ [];
}

abbrev spoiled : Infos
spoiled n = record (clean n) { is_not_redundant = n == 1 }

-- Block 3 is a point, though a path to it goes through the spoiled block 1, and so is that block.
late_point : redundant_paths late spoiled ≡ ok (some (13 ∷ 11 ∷ []))
unfolding redundant_paths walk_down walk_up walk_points traverse member edges behind join_parents
    join_children roots_fit leaves_fit
late_point = refl
