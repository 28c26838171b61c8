-- ===== src/Generator/Members.antt =====
-- The instructions of a location are those of the module (src/BugReports.cpp, `FixLoc::insts`).
use hippocrates.Base.{
  refl, ◌∙◌, ap, ==_iff, ℕ, ◌≡◌, sym, subst, ◌⊎◌, inl, inr, Bool, true, false, Option, none, some,
  List, [], ◌∷◌, ◌==◌, if◌then◌else◌, ok, arith, Any, Any-map, Bool-cases, Option-cases,
  ok_injective, went_on,
}
use hippocrates.Ir.{Module, Function, Block, Inst, parent, after, non_debug}
use hippocrates.FixLoc.{FixLoc, is_valid, walk_to, from, insts, insts_in, head?}
use hippocrates.Generator.Behind.{Member, In}
use hippocrates.Generator.Present.{parent-Stands}

if_no : {A : Type 0} (b : Bool) (x y : A) → b ≡ false → (if b then x else y) ≡ y
if_no b x y e = rw (e)

if_yes : {A : Type 0} (b : Bool) (x y : A) → b ≡ true → (if b then x else y) ≡ x
if_yes b x y e = rw (e)

non_debug-Member : (i : Inst) (is : List Inst) → Member i (non_debug is) → Member i is
unfolding non_debug
non_debug-Member i [] h = h
non_debug-Member i (j ∷ is) h = elim (Bool-cases j.is_debug) [
  | inl e ↦ inr (
      non_debug-Member i is
        (subst (Member i) (if_yes j.is_debug (non_debug is) (j ∷ non_debug is) e) h))
  | inr e ↦
      let new : (j ≡ i) ⊎ Member i (non_debug is) =
        subst (Member i) (if_no j.is_debug (non_debug is) (j ∷ non_debug is) e) h in
      elim new [ inl same ↦ inl same | inr there ↦ inr (non_debug-Member i is there) ]
]

from-Member : (p : ℕ) (i : Inst) (is : List Inst) → Member i (from p is) → Member i is
unfolding from
from-Member p i [] h = h
from-Member p i (j ∷ is) h = elim (Bool-cases (j.id == p)) [
  | inl e ↦ tail (rw (from, e) at h)
  | inr e ↦ inr (from-Member p i is (rw (from, e) at h))
]
  where
    tail : Member i (j ∷ non_debug is) → Member i (j ∷ is)
    tail (inl same) = inl same
    tail (inr there) = inr (non_debug-Member i is there)

walk_to-Member :
    (stop : Option Inst) (i : Inst) (is out : List Inst)
    → walk_to stop is ≡ ok out
    → Member i out
    → Member i is
unfolding walk_to
walk_to-Member none i [] out ran h = subst (Member i) (sym (ok_injective ran)) h
walk_to-Member none i (j ∷ is) out ran h =
    let (rest, done, end) = went_on (walk_to none is) (λ r. ok (j ∷ r)) out ran in
    let new : (j ≡ i) ⊎ Member i rest = subst (Member i) (sym (ok_injective end)) h in
    elim new [ inl same ↦ inl same | inr there ↦ inr (walk_to-Member none i is rest done there) ]
walk_to-Member (some stop) i [] out ran h = ground (arith, ran)
walk_to-Member (some stop) i (j ∷ is) out ran h = elim (Bool-cases (j.id == stop.id)) [
  | inl e ↦ absurd (subst (Member i) (sym (ok_injective (rw (walk_to, e) at ran))) h)
  | inr e ↦
      let (rest, done, end) =
        went_on (walk_to (some stop) is) (λ r. ok (j ∷ r)) out (rw (walk_to, e) at ran) in
      let new : (j ≡ i) ⊎ Member i rest = subst (Member i) (sym (ok_injective end)) h in
      elim new [
        | inl same ↦ inl same
        | inr there ↦ inr (walk_to-Member (some stop) i is rest done there)
      ]
]

pub block-In :
    (f : Function) (b : Block) (m : Module) (i : Inst)
    → Any (λ g. g ≡ f) m
    → Any (λ c. c ≡ b) f.blocks
    → Member i b.insts
    → In i m
block-In f b m i stands block h =
    Any-map m
      (λ g same.
        subst (λ (q : Function). Any (λ (c : Block). Member i c.insts) q.blocks) (sym same)
          (Any-map f.blocks (λ c e. subst (λ (q : Block). Member i q.insts) (sym e) h) block))
      stands

pub insts-In :
    (m : Module) (fl : FixLoc) (is : List Inst) (i : Inst)
    → insts m fl ≡ ok is
    → Member i is
    → In i m
unfolding insts insts_in
insts-In m fl is i ran h = elim (Bool-cases (is_valid m fl)) [
  | inr e ↦ absurd (subst (Member i) (sym (ok_injective (rw (insts, e) at ran))) h)
  | inl e ↦ elim (Option-cases (parent m fl.first)) [
    | inl lost ↦
        absurd (subst (Member i) (sym (ok_injective (rw (insts, insts_in, e, lost) at ran))) h)
    | inr ((f, b), found) ↦
        let at = parent-Stands fl.first m f b found in
        let stop = head? (non_debug (after fl.last b.insts)) in
        let ran' : walk_to stop (from fl.first b.insts) ≡ ok is =
          rw (insts, insts_in, e, found) at ran in
        block-In f b m i at.function at.block
          (from-Member fl.first i b.insts (walk_to-Member stop i (from fl.first b.insts) is ran' h))
  ]
]

-- A location of one instruction has no other.
walked-Member :
    (j i : Inst) (is out : List Inst) → walk_to (head? is) (j ∷ is) ≡ ok out → Member i out → j ≡ i
unfolding walk_to
walked-Member j i [] out ran h = elim (subst (Member i) (sym (ok_injective ran)) h) [
  | inl e ↦ e
  | inr never ↦ absurd never
]
walked-Member j i (k ∷ is) out ran h =
    let self : (k.id == k.id) ≡ true = (==_iff k.id k.id).1 refl in
    elim (Bool-cases (j.id == k.id)) [
      | inl e ↦ absurd (subst (Member i) (sym (ok_injective (rw (walk_to, e) at ran))) h)
      | inr e ↦ elim (subst (Member i) (sym (ok_injective (rw (walk_to, e, self) at ran))) h) [
        | inl same ↦ same
        | inr never ↦ absurd never
      ]
    ]

from-single :
    (p : ℕ) (i : Inst) (is out : List Inst)
    → walk_to (head? (non_debug (after p is))) (from p is) ≡ ok out
    → Member i out
    → i.id ≡ p
unfolding walk_to from after non_debug
from-single p i [] out ran h = absurd (subst (Member i) (sym (ok_injective ran)) h)
from-single p i (j ∷ is) out ran h = elim (Bool-cases (j.id == p)) [
  | inl e ↦
      let same = walked-Member j i (non_debug is) out (rw (from, after, e) at ran) h in
      ap Inst.id (sym same) ∙ (==_iff j.id p).0 e
  | inr e ↦ from-single p i is out (rw (from, after, e) at ran) h
]

pub single-Member :
    (m : Module) (fl : FixLoc) (is : List Inst) (i : Inst)
    → fl.first ≡ fl.last
    → insts m fl ≡ ok is
    → Member i is
    → i.id ≡ fl.last
unfolding insts insts_in
single-Member m fl is i one ran h = elim (Bool-cases (is_valid m fl)) [
  | inr e ↦ absurd (subst (Member i) (sym (ok_injective (rw (insts, e) at ran))) h)
  | inl e ↦ elim (Option-cases (parent m fl.first)) [
    | inl lost ↦
        absurd (subst (Member i) (sym (ok_injective (rw (insts, insts_in, e, lost) at ran))) h)
    | inr ((f, b), found) ↦
        let ran' : walk_to (head? (non_debug (after fl.last b.insts))) (from fl.first b.insts)
            ≡ ok is =
          rw (insts, insts_in, e, found) at ran in
        from-single fl.last i b.insts is
          (subst (λ q. walk_to (head? (non_debug (after fl.last b.insts))) (from q b.insts) ≡ ok is)
            one ran')
          h
  ]
]
