-- ===== src/Trace/Values/Pointers.antt =====
-- The values of an event are pointers (src/BugReports.cpp, `TraceEvent::pmValues`).
use hippocrates.Base.{
  ℕ, ◌≡◌, refl, sym, subst, inl, inr, Bool, true, false, not, ◌||◌, some, List, [], ◌∷◌, ◌++◌, ◌==◌,
  is_empty, if◌then◌else◌, codes, text_eq, ok, assert, ◌>>◌, arith, All, Bool-cases, Option-cases,
  ok_injective, went_on, some_injective,
}
use hippocrates.Ir.{
  Module, Inst, Op, Value, FnInfo, direct, inline_asm, indirect, call, store, cmp_xchg, ptr_to_int,
  cast, ret, branch, switch, other, parent,
}
use hippocrates.FixLoc.{FixLoc, insts}
use hippocrates.Raise.{Mapper}
use hippocrates.Generator.Behind.{Member, In}
use hippocrates.Generator.Present.{parent-Stands}
use hippocrates.Generator.Members.{insts-In, block-In}
use hippocrates.Generator.Remove.{is_removable, inst_at, find_inst, arg}
use hippocrates.Trace.{Source, TraceEvent, pmtest, generic, unknown}
use hippocrates.Trace
use hippocrates.Trace.Build.{is_invalid}
use hippocrates.Trace.Values.{
  is_request, writes_memory, request_values, cast_of, behind_inst, next_stored, inst_values,
  insts_values, generic_values, traced_op, traced_values, loc_values, locs_values, pm_values,
}

abbrev pub Pointers : List Value → Type 0
Pointers = All (λ (v : Value). v.pointer ≡ true)

-- The operand of a call, if it has one there, is a pointer.
abbrev pub PointerAt : List Value → ℕ → Type 0
PointerAt args k = (v : Value) → arg args k ≡ ok v → v.pointer ≡ true

abbrev pub traces : FnInfo → Bool
traces f =
    text_eq f.name (codes "C_createMetadata_Flush")
    || text_eq f.name (codes "C_createMetadata_Assign")

-- The operands that LLVM and the tracing functions type as pointers are pointers.
abbrev pub Typed : Op → Type 0
Typed (store value ptr) = ptr.pointer ≡ true
Typed (cmp_xchg ptr compare value) = ptr.pointer ≡ true
Typed (call f args) =
    ((writes_memory f || is_removable (call f args)) ≡ true → PointerAt args 0)
    × ((g : FnInfo) → f ≡ direct g → traces g ≡ true → PointerAt args 1)
Typed _ = Unit

assert-not : (b : Bool) (w : Unit {0}) → assert (not b) ≡ ok w → b ≡ false
assert-not true w h = ground (arith, h)
assert-not false w h = refl

append-Pointers : (xs ys : List Value) → Pointers xs → Pointers ys → Pointers (xs ++ ys)
append-Pointers [] ys h k = k
append-Pointers (x ∷ xs) ys h k = (h.0, append-Pointers xs ys h.1 k)

request_values-Pointers : (m : Module) (v : Value) → Pointers (request_values m v)
unfolding request_values
request_values-Pointers m v =
    let w = if v.pointer then v else cast_of (inst_at m v.addr) v in if_pointer w
  where
    if_pointer : (w : Value) → Pointers (if w.pointer then w ∷ [] else [])
    if_pointer w = elim (Bool-cases w.pointer) [
      | inl e ↦ subst (λ b. Pointers (if b then w ∷ [] else [])) (sym e) (e, tt)
      | inr e ↦ subst (λ b. Pointers (if b then w ∷ [] else [])) (sym e) tt
    ]

op_values-Pointers :
    (m : Module) (i : Inst) (op : Op) (vs : List Value)
    → i.op ≡ op
    → Typed op
    → inst_values m i ≡ ok vs
    → Pointers vs
unfolding inst_values
op_values-Pointers m i (call f args) vs e typed ran =
    elim (Bool-cases (writes_memory f || is_removable (call f args))) [
      | inl yes_call ↦
          let (v, at, end) =
            went_on (arg args 0) (λ v. ok (v ∷ [])) vs (rw (inst_values, e, yes_call) at ran) in
          subst Pointers (ok_injective end) (typed.0 yes_call v at, tt)
      | inr no_call ↦ subst Pointers (ok_injective (rw (inst_values, e, no_call) at ran)) tt
    ]
op_values-Pointers m i (store value ptr) vs e typed ran =
    elim (Bool-cases (is_request value.sort)) [
      | inl request ↦
          let (is, e1, ran1) =
            went_on (behind_inst m i.id) _ vs (rw (inst_values, e, request) at ran) in
          let (v, e2, end) = went_on (next_stored is) _ vs ran1 in
          subst Pointers (ok_injective end) (request_values-Pointers m v)
      | inr plain ↦ subst Pointers (ok_injective (rw (inst_values, e, plain) at ran)) (typed, tt)
    ]
op_values-Pointers m i (cmp_xchg p c v) vs e typed ran =
    subst Pointers (ok_injective (rw (inst_values, e) at ran)) (typed, tt)
op_values-Pointers m i (ptr_to_int p) vs e typed ran =
    subst Pointers (ok_injective (rw (inst_values, e) at ran)) tt
op_values-Pointers m i (cast v) vs e typed ran =
    subst Pointers (ok_injective (rw (inst_values, e) at ran)) tt
op_values-Pointers m i (ret v) vs e typed ran =
    subst Pointers (ok_injective (rw (inst_values, e) at ran)) tt
op_values-Pointers m i (branch v) vs e typed ran =
    subst Pointers (ok_injective (rw (inst_values, e) at ran)) tt
op_values-Pointers m i (switch v) vs e typed ran =
    subst Pointers (ok_injective (rw (inst_values, e) at ran)) tt
op_values-Pointers m i other vs e typed ran =
    subst Pointers (ok_injective (rw (inst_values, e) at ran)) tt

find_inst-Member : (p : ℕ) (is : List Inst) (i : Inst) → find_inst p is ≡ some i → Member i is
unfolding find_inst
find_inst-Member p [] i h = ground (arith, h)
find_inst-Member p (j ∷ is) i h = elim (Bool-cases (j.id == p)) [
  | inl e ↦ inl (some_injective (rw (find_inst, e) at h))
  | inr e ↦ inr (find_inst-Member p is i (rw (find_inst, e) at h))
]

inst_at-In : (m : Module) (p : ℕ) (i : Inst) → inst_at m p ≡ some i → In i m
unfolding inst_at
inst_at-In m p i h = elim (Option-cases (parent m p)) [
  | inl e ↦ ground (arith, rw (inst_at, e) at h)
  | inr ((f, b), e) ↦
      let at = parent-Stands p m f b e in
      block-In f b m i at.function at.block (find_inst-Member p b.insts i (rw (inst_at, e) at h))
]

traced_op-Pointers : (op : Op) (vs : List Value) → Typed op → traced_op op ≡ ok vs → Pointers vs
traced_op-Pointers (call (direct f) args) vs typed ran = elim (Bool-cases (traces f)) [
  | inr e ↦ ground (arith, rw (e) at ran)
  | inl e ↦
      let (v, at, end) = went_on (arg args 1) (λ v. ok (v ∷ [])) vs (rw (e) at ran) in
      subst Pointers (ok_injective end) (typed.1 f refl e v at, tt)
]
traced_op-Pointers (call (inline_asm a) args) vs typed ran = ground (arith, ran)
traced_op-Pointers (call indirect args) vs typed ran = ground (arith, ran)
traced_op-Pointers (store v p) vs typed ran = ground (arith, ran)
traced_op-Pointers (cmp_xchg p c v) vs typed ran = ground (arith, ran)
traced_op-Pointers (ptr_to_int p) vs typed ran = ground (arith, ran)
traced_op-Pointers (cast v) vs typed ran = ground (arith, ran)
traced_op-Pointers (ret v) vs typed ran = ground (arith, ran)
traced_op-Pointers (branch v) vs typed ran = ground (arith, ran)
traced_op-Pointers (switch v) vs typed ran = ground (arith, ran)
traced_op-Pointers other vs typed ran = ground (arith, ran)

module _ (m : Module) (typed : (i : Inst) → In i m → Typed i.op) where
  insts_values-Pointers :
      (is : List Inst) (vs : List Value)
      → ((i : Inst) → Member i is → In i m)
      → insts_values m is ≡ ok vs
      → Pointers vs
  unfolding insts_values
  insts_values-Pointers [] vs inside ran = subst Pointers (ok_injective ran) tt
  insts_values-Pointers (i ∷ is) vs inside ran =
      let (here, e1, ran1) = went_on (inst_values m i) _ vs ran in
      let (rest, e2, end) = went_on (insts_values m is) _ vs ran1 in
      subst Pointers (ok_injective end) (
        append-Pointers here rest
          (op_values-Pointers m i i.op here refl (typed i (inside i (inl refl))) e1)
          (insts_values-Pointers is rest (λ j h. inside j (inr h)) e2))

  traced_values-Pointers :
      (fl : FixLoc) (vs : List Value) → traced_values m fl ≡ ok vs → Pointers vs
  unfolding traced_values
  traced_values-Pointers fl vs ran = elim (Option-cases (inst_at m fl.last)) [
    | inl e ↦ ground (arith, rw (traced_values, e) at ran)
    | inr (i, e) ↦
        traced_op-Pointers i.op vs (typed i (inst_at-In m fl.last i e))
          (rw (traced_values, e) at ran)
  ]

  loc_values-Pointers :
      (source : Source) (fl : FixLoc) (vs : List Value)
      → loc_values m source fl ≡ ok vs
      → Pointers vs
  unfolding loc_values generic_values
  loc_values-Pointers pmtest fl vs ran = traced_values-Pointers fl vs ran
  loc_values-Pointers unknown fl vs ran = ground (arith, ran)
  loc_values-Pointers generic fl vs ran =
      let (is, e, more) = went_on (insts m fl) (insts_values m) vs ran in
      insts_values-Pointers is vs (λ i h. insts-In m fl is i e h) more

  locs_values-Pointers :
      (source : Source) (ls : List FixLoc) (vs : List Value)
      → locs_values m source ls ≡ ok vs
      → Pointers vs
  unfolding locs_values
  locs_values-Pointers source [] vs ran = subst Pointers (ok_injective ran) tt
  locs_values-Pointers source (l ∷ ls) vs ran =
      let (here, e1, ran1) = went_on (loc_values m source l) _ vs ran in
      let (rest, e2, end) = went_on (locs_values m source ls) _ vs ran1 in
      subst Pointers (ok_injective end) (
        append-Pointers here rest (loc_values-Pointers source l here e1)
          (locs_values-Pointers source ls rest e2))

  -- The values of an event are pointers, where the operands of the instructions that write, flush and
  -- trace are pointers, and an event whose location is in the module and that is no fence and no
  -- assertion has one.
  pub pm_values-Pointers :
      (mapper : Mapper) (te : TraceEvent) (vs : List Value)
      → pm_values m mapper te ≡ ok vs
      → Pointers vs
        × ((locs : List FixLoc)
            → mapper te.location ≡ some locs
            → (Trace.is_fence te.type || Trace.is_assertion te) ≡ false
            → is_empty vs ≡ false)
  unfolding pm_values
  pm_values-Pointers mapper te vs ran = elim (Option-cases (mapper te.location)) [
    | inl e ↦ (
      subst Pointers (ok_injective (rw (pm_values, e) at ran)) tt,
      λ locs there. ground (arith, e, there),
    )
    | inr (locs, e) ↦ elim (Bool-cases (Trace.is_fence te.type || Trace.is_assertion te)) [
      | inl skip ↦ (
        subst Pointers (ok_injective (rw (pm_values, e, skip) at ran)) tt,
        λ ls there op. ground (arith, skip, op),
      )
      | inr op ↦
          let (ws, e1, ran2) =
            went_on (assert (not (is_invalid te.type)) >> locs_values m te.source locs) _ vs
              (rw (pm_values, e, op) at ran) in
          let (u, valid, e2) =
            went_on (assert (not (is_invalid te.type))) (λ x. locs_values m te.source locs) ws e1 in
          let (w, e3, end) = went_on (assert (not (is_empty ws))) _ vs ran2 in
          subst
            (λ xs.
              Pointers xs
              × ((ls : List FixLoc)
                  → mapper te.location ≡ some ls
                  → (Trace.is_fence te.type || Trace.is_assertion te) ≡ false
                  → is_empty xs ≡ false))
            (ok_injective end)
            (locs_values-Pointers te.source locs ws e2, λ ls there k. assert-not (is_empty ws) w e3)
    ]
  ]
