-- ===== src/FixLoc/Walk.antt =====
-- `FixLoc::insts` collects the instructions from `first` to `last` (src/BugReports.cpp).
use mathlib.Core.List.{append-nil, append_assoc}
use hippocrates.Base.{
  ℕ, ◌≡◌, refl, sym, ◌≢◌, true, false, none, some, List, [], ◌∷◌, ◌++◌, arith, All, ok, subst,
}
use hippocrates.Ir.{Module, Inst, Block, Function, parent, after, non_debug}
use hippocrates.FixLoc.{FixLoc, is_valid, walk_to, head?, from, insts}

abbrev Apart : ℕ → List Inst → Type 0
Apart p = All (λ j. j.id ≢ p)

-- No two instructions have one address.
abbrev pub Distinct : List Inst → Type 0
Distinct [] = Unit
Distinct (i ∷ is) = All (λ j. j.id ≢ i.id) is × Distinct is

Apart-append : (p : ℕ) (xs ys : List Inst) → Apart p (xs ++ ys) → Apart p xs × Apart p ys
Apart-append p [] ys h = (tt, h)
Apart-append p (x ∷ xs) ys h = ground (arith, Apart-append p xs ys h.1)

Distinct-append : (xs ys : List Inst) → Distinct (xs ++ ys) → Distinct ys
Distinct-append [] ys h = h
Distinct-append (x ∷ xs) ys h = Distinct-append xs ys h.1

-- What stands in front of an instruction has another address.
Distinct-Apart :
    (xs : List Inst) (y : Inst) (ys : List Inst) → Distinct (xs ++ (y ∷ ys)) → Apart y.id xs
Distinct-Apart [] y ys h = tt
Distinct-Apart (x ∷ xs) y ys h =
    (λ e. (Apart-append x.id xs (y ∷ ys) h.0).1.0 (sym e), Distinct-Apart xs y ys h.1)

Apart-non_debug : (p : ℕ) (xs : List Inst) → Apart p xs → Apart p (non_debug xs)
unfolding non_debug
Apart-non_debug p [] h = tt
Apart-non_debug p (x ∷ xs) h = ground (arith, Apart-non_debug p xs h.1)

non_debug-append : (xs ys : List Inst) → non_debug (xs ++ ys) ≡ non_debug xs ++ non_debug ys
unfolding non_debug
non_debug-append [] ys = refl
non_debug-append (x ∷ xs) ys = ground (arith, non_debug-append xs ys)

after-append :
    (xs : List Inst) (y : Inst) (ys : List Inst) → Apart y.id xs → after y.id (xs ++ (y ∷ ys)) ≡ ys
unfolding after
after-append [] y ys h = ground arith
after-append (x ∷ xs) y ys h = ground (arith, after-append xs y ys h.1)

from-append :
    (xs : List Inst) (y : Inst) (ys : List Inst)
    → Apart y.id xs
    → from y.id (xs ++ (y ∷ ys)) ≡ y ∷ non_debug ys
unfolding from
from-append [] y ys h = ground arith
from-append (x ∷ xs) y ys h = ground (arith, from-append xs y ys h.1)

walk_to-none : (xs : List Inst) → walk_to none xs ≡ ok xs
unfolding walk_to
walk_to-none [] = refl
walk_to-none (x ∷ xs) = rw (walk_to-none xs)

walk_to-append :
    (xs : List Inst) (s : Inst) (ys : List Inst)
    → Apart s.id xs
    → walk_to (some s) (xs ++ (s ∷ ys)) ≡ ok xs
unfolding walk_to
walk_to-append [] s ys h = ground arith
walk_to-append (x ∷ xs) s ys h = ground (arith, walk_to-append xs s ys h.1)

-- The walk stops at the first of `rest`, or at the end of the block.
walk_to-head? :
    (xs rest : List Inst) → Distinct (xs ++ rest) → walk_to (head? rest) (xs ++ rest) ≡ ok xs
walk_to-head? xs [] h = rw append-nil (walk_to-none xs)
walk_to-head? xs (s ∷ rest) h = walk_to-append xs s rest (Distinct-Apart xs s rest h)

Distinct-non_debug : (xs : List Inst) → Distinct xs → Distinct (non_debug xs)
unfolding non_debug
Distinct-non_debug [] h = tt
Distinct-non_debug (x ∷ xs) h =
    ground (arith, Distinct-non_debug xs h.1, Apart-non_debug x.id xs h.0)

walk-single :
    (pre : List Inst) (i : Inst) (post : List Inst)
    → Distinct (pre ++ (i ∷ post))
    → walk_to (head? (non_debug (after i.id (pre ++ (i ∷ post))))) (from i.id (pre ++ (i ∷ post)))
      ≡ ok (i ∷ [])
walk-single pre i post d =
    let apart = Distinct-Apart pre i post d in
    let (fresh, d') = Distinct-append pre (i ∷ post) d in
    rw (after-append pre i post apart, from-append pre i post apart)
      (walk_to-head? (i ∷ []) (non_debug post)
        (Apart-non_debug i.id post fresh, Distinct-non_debug post d'))

range_split :
    (i : Inst) (mid : List Inst) (l : Inst) (post : List Inst)
    → l.is_debug ≡ false
    → i ∷ non_debug (mid ++ (l ∷ post)) ≡ (i ∷ (non_debug mid ++ (l ∷ []))) ++ non_debug post
unfolding non_debug
range_split i mid l post real = rw (non_debug-append mid (l ∷ post), real) (simp append_assoc)

walk-range :
    (pre : List Inst) (i : Inst) (mid : List Inst) (l : Inst) (post : List Inst)
    → Distinct (pre ++ (i ∷ (mid ++ (l ∷ post))))
    → l.is_debug ≡ false
    → walk_to
        (head? (non_debug (after l.id (pre ++ (i ∷ (mid ++ (l ∷ post)))))))
        (from i.id (pre ++ (i ∷ (mid ++ (l ∷ post)))))
      ≡ ok (i ∷ (non_debug mid ++ (l ∷ [])))
walk-range pre i mid l post d real =
    let apart = Distinct-Apart pre i (mid ++ (l ∷ post)) d in
    let shape : pre ++ (i ∷ (mid ++ (l ∷ post))) ≡ (pre ++ (i ∷ mid)) ++ (l ∷ post) =
      simp append_assoc in
    let d2 = subst Distinct shape d in
    let tail =
      after-append (pre ++ (i ∷ mid)) l post (Distinct-Apart (pre ++ (i ∷ mid)) l post d2) in
    let (fresh, d') = Distinct-append pre (i ∷ (mid ++ (l ∷ post))) d in
    let split = range_split i mid l post real in
    let apart' = Apart-non_debug i.id (mid ++ (l ∷ post)) fresh in
    let distinct = subst Distinct split (apart', Distinct-non_debug (mid ++ (l ∷ post)) d') in
    rw (from-append pre i (mid ++ (l ∷ post)) apart, shape, tail, split)
      (walk_to-head? (i ∷ (non_debug mid ++ (l ∷ []))) (non_debug post) distinct)

module _ (m : Module) (fl : FixLoc) (g : Function) (b : Block) (pre : List Inst) (i : Inst)
    (ok_loc : is_valid m fl ≡ true) (here : parent m fl.first ≡ some (g, b))
    (starts : fl.first ≡ i.id) (distinct : Distinct b.insts) where
  -- The instructions of a range: its first, then up to its last those that are no debug
  -- instructions.
  pub insts-range :
      (mid : List Inst) (l : Inst) (post : List Inst)
      → fl.last ≡ l.id
      → l.is_debug ≡ false
      → b.insts ≡ pre ++ (i ∷ (mid ++ (l ∷ post)))
      → insts m fl ≡ ok (i ∷ (non_debug mid ++ (l ∷ [])))
  unfolding insts
  insts-range mid l post ends real shape =
      rw (ok_loc, here) (cc (walk-range pre i mid l post (subst Distinct shape distinct) real))

  -- A single instruction is its own range.
  pub insts-single :
      (post : List Inst) → fl.last ≡ i.id → b.insts ≡ pre ++ (i ∷ post) → insts m fl ≡ ok (i ∷ [])
  unfolding insts
  insts-single post ends shape =
      rw (ok_loc, here) (cc (walk-single pre i post (subst Distinct shape distinct)))
