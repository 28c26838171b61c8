-- ===== src/Generator/Calls.antt =====
-- The single changes of the generator: new instructions, a mark, another callee, and a copy of a
-- function (src/FixGenerator.cpp).
use hippocrates.Base.{
  ℕ, ◌<◌, ◌≤◌, ◌≡◌, refl, sym, ◌∙◌, ap, inl, inr, true, false, List, [], ◌==◌, if◌then◌else◌, arith,
  Any, Bool-cases, ==_iff,
}
use hippocrates.Ir.{
  Module, Function, Block, Inst, Op, FnInfo, call, cast, store, cmp_xchg, only_at, ptr_to_int, ret,
  branch, switch, other, change_at, has_inst,
}
use hippocrates.Generator.{Program, put, written}
use hippocrates.Generator.Behind.{Member, In, Behind, Behind-new}
use hippocrates.Generator.Insert.{is_reserved, lasting, Valid, Grows, Safe, rewrite-Grows}
use hippocrates.Generator.Clone.{mark}
use hippocrates.Generator.SubProgram.{with_callee, set_callee}

-- New instructions: their addresses are not taken, and are those of one instruction each.
pub record IsNew (s : Program) (new : List Inst) (next : ℕ) : Type 0 where
  pub above : s.next ≤ next
  pub fresh : (y : Inst) → Member y new → (s.next ≤ y.id) × (y.id < next)
  pub fresh_op : (y z : Inst) → Member y new → Member z new → y.id ≡ z.id → y.op ≡ z.op

abbrev new_at : ℕ → List Inst → Inst → List Inst
new_at p new i = if i.id == p then new else []

new_at-Member : (p : ℕ) (new : List Inst) (i y : Inst) → Member y (new_at p new i) → Member y new
new_at-Member p new i y h = elim (Bool-cases (i.id == p)) [
  | inl e ↦ rw (e) at h
  | inr e ↦ absurd (rw (e) at h)
]

put-Safe :
    (s : Program) (p : ℕ) (new : List Inst) (next : ℕ)
    → IsNew s new next
    → Safe s (λ i. i) (new_at p new) next
put-Safe s p new next n = record {
  same_id = λ i. refl;
  same_written = λ i. refl;
  same_lasting = λ i h l. refl;
  back_lasting = λ i l. refl;
  same_op = λ i j e o. o;
  above = n.above;
  fresh = λ i y h. n.fresh y (new_at-Member p new i y h);
  fresh_op =
      λ i j y z h k e. n.fresh_op y z (new_at-Member p new i y h) (new_at-Member p new j z k) e;
}

pub put-Grows :
    (s : Program) (p : ℕ) (new : List Inst) (next : ℕ)
    → Valid s
    → IsNew s new next
    → Grows s (record { m = put p new s.m; next = next })
put-Grows s p new next v n =
    rewrite-Grows s (λ i. i) (new_at p new) next v (put-Safe s p new next n)

-- What is put behind an address that is there is behind it.
pub put-Behind :
    (p : ℕ) (new : List Inst) (m : Module) (y : Inst)
    → Any (λ (f : Function). Any (λ (b : Block). has_inst p b.insts ≡ true) f.blocks) m
    → Member y new
    → Behind p y (put p new m)
put-Behind p new m y there h =
    Behind-new (λ i. i) (new_at p new) (λ i. refl) m p y there
      (λ i same. rw ((==_iff i.id p).1 same) h)

-- A change of one instruction that stays what it is to a store and to a flush.
pub record IsHarmless (s : Program) (p : ℕ) (g : Inst → Inst) : Type 0 where
  pub same_id : (i : Inst) → Inst.id (g i) ≡ i.id
  pub same_written : (i : Inst) → written (Inst.op (g i)) ≡ written i.op
  pub same_lasting : (i : Inst) → In i s.m → i.id ≡ p → lasting i.op ≡ true → Inst.op (g i) ≡ i.op
  pub back_lasting : (i : Inst) → lasting (Inst.op (g i)) ≡ true → Inst.op (g i) ≡ i.op
  pub same_op : (i j : Inst) → i.op ≡ j.op → Inst.op (g i) ≡ Inst.op (g j)

at_either :
    (P : Inst → Type 0) (p : ℕ) (g : Inst → Inst) (i : Inst)
    → (i.id ≡ p → P (g i))
    → P i
    → P (only_at p g i)
at_either P p g i here there = elim (Bool-cases (i.id == p)) [
  | inl e ↦ rw (e) (here ((==_iff i.id p).0 e))
  | inr e ↦ rw (e) there
]

only_at-op :
    (p : ℕ) (g : Inst → Inst)
    → ((i j : Inst) → i.op ≡ j.op → Inst.op (g i) ≡ Inst.op (g j))
    → (i j : Inst) → i.id ≡ j.id
    → i.op ≡ j.op
    → Inst.op (only_at p g i) ≡ Inst.op (only_at p g j)
only_at-op p g h i j e o = elim (Bool-cases (i.id == p)) [
  | inl k ↦ let k' : (j.id == p) ≡ true = ap (λ n. n == p) (sym e) ∙ k in rw (k, k') (h i j o)
  | inr k ↦ let k' : (j.id == p) ≡ false = ap (λ n. n == p) (sym e) ∙ k in rw (k, k') o
]

pub change_at-Grows :
    (s : Program) (p : ℕ) (g : Inst → Inst)
    → Valid s
    → IsHarmless s p g
    → Grows s (record s { m = change_at p g s.m })
change_at-Grows s p g v h =
    rewrite-Grows s (only_at p g) (λ i. []) s.next v
      (record {
        same_id = λ i. at_either (λ k. k.id ≡ i.id) p g i (λ e. h.same_id i) refl;
        same_written =
            λ i. at_either (λ k. written k.op ≡ written i.op) p g i (λ e. h.same_written i) refl;
        same_lasting =
            λ i there l. at_either (λ k. k.op ≡ i.op) p g i (λ e. h.same_lasting i there e l) refl;
        back_lasting = λ i.
            at_either (λ k. lasting k.op ≡ true → k.op ≡ i.op) p g i (λ e. h.back_lasting i)
              (λ l. refl);
        same_op = λ i j e o. only_at-op p g (h.same_op) i j e o;
        above = omega arith;
        fresh = λ i y k. absurd k;
        fresh_op = λ i j y z k. absurd k;
      })

-- The mark of a non-temporal store, and another callee for a call that is no flush and no fence.
pub mark-Grows : (s : Program) (p : ℕ) → Valid s → Grows s (record s { m = mark p s.m })
mark-Grows s p v =
    change_at-Grows s p (λ i. record i { nontemporal = true }) v
      (record {
        same_id = λ i. refl;
        same_written = λ i. refl;
        same_lasting = λ i h e l. refl;
        back_lasting = λ i l. refl;
        same_op = λ i j e. e;
      })

written-with_callee : (g : FnInfo) (op : Op) → written (with_callee g op) ≡ written op
written-with_callee g (call f args) = refl
written-with_callee g (store v p) = refl
written-with_callee g (cmp_xchg p c v) = refl
written-with_callee g (ptr_to_int p) = refl
written-with_callee g (cast v) = refl
written-with_callee g (ret v) = refl
written-with_callee g (branch v) = refl
written-with_callee g (switch v) = refl
written-with_callee g other = refl

with_callee-lasting :
    (g : FnInfo) (op : Op)
    → is_reserved g ≡ false
    → lasting (with_callee g op) ≡ true
    → with_callee g op ≡ op
with_callee-lasting g (call f args) r l = ground (arith, r, l)
with_callee-lasting g (store v p) r l = refl
with_callee-lasting g (cmp_xchg p c v) r l = refl
with_callee-lasting g (ptr_to_int p) r l = refl
with_callee-lasting g (cast v) r l = refl
with_callee-lasting g (ret v) r l = refl
with_callee-lasting g (branch v) r l = refl
with_callee-lasting g (switch v) r l = refl
with_callee-lasting g other r l = refl

pub set_callee-Grows :
    (s : Program) (p : ℕ) (g : FnInfo)
    → Valid s
    → is_reserved g ≡ false
    → ((i : Inst) → In i s.m → i.id ≡ p → lasting i.op ≡ false)
    → Grows s (set_callee p g s)
set_callee-Grows s p g v r free =
    change_at-Grows s p (λ i. record i { op = with_callee g i.op }) v
      (record {
        same_id = λ i. refl;
        same_written = λ i. written-with_callee g i.op;
        same_lasting = λ i h e l. ground (arith, free i h e, l);
        back_lasting = λ i l. with_callee-lasting g i.op r l;
        same_op = λ i j e. ap (with_callee g) e;
      })
