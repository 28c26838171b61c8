-- ===== src/Graph.antt =====
-- src/FlowAnalyzer.hpp and src/FlowAnalyzer.cpp: `FnContext`, the calls that lead to a block, and
-- `ContextBlock`, a run of instructions in such a context. Contexts are shared and change: they are
-- numbers, and what they hold is in a store. The cache of `doCall` is never written, so that no call
-- finds anything in it. A call stack has its last call in front. An instruction is its address.
pub mod Successors
pub mod Moves
pub mod Frames
pub mod Construct
pub mod Rounds
pub mod Locate
pub mod View
pub mod Stores
pub mod Returns
pub mod Shape
use hippocrates.Base.{
  ℕ, suc, Bool, true, false, not, ◌&&◌, Option, none, some, List, [], ◌∷◌, ◌==◌, if◌then◌else◌,
  Outcome, ok, aborted, ◌>>=◌,
}
use hippocrates.Ir.{
  Module, Inst, Op, Value, Sort, other_value, FnInfo, Intrinsic, not_intrinsic, called_function,
  parent, after, non_debug,
}
use hippocrates.Flow.{member}
use hippocrates.PmDesc.{Anders, PmDesc, add_known_pm_value, points_to_pm}
use hippocrates.PmDesc

pub record FnContext : Type 0 where
  pub call_stack : List ℕ
  pub parent : Option ℕ
  pub pm : PmDesc

-- The contexts made so far, which are the numbers below `count`.
pub record Contexts : Type 0 where
  pub count : ℕ
  pub context : ℕ → FnContext

abbrev pub change {ℓ} : {A : Type ℓ} → ℕ → A → (ℕ → A) → ℕ → A
change n a f x = if x == n then a else f x

-- `std::make_shared<FnContext>`, with the new context.
unfoldable pub allocate : FnContext → Contexts → ℕ × Contexts
allocate c cs = (cs.count, record { count = suc cs.count; context = change cs.count c cs.context })

abbrev pub first_context : FnContext
first_context = record { call_stack = []; parent = none; pm = record { locals = []; globals = [] } }

-- `FnContext::create`
unfoldable pub create_context : Contexts → ℕ × Contexts
create_context = allocate first_context

-- `doCall` on the context `n`.
unfoldable pub do_call : ℕ → ℕ → Contexts → ℕ × Contexts
do_call n cb cs =
    let c = cs.context n in
    allocate (record { call_stack = cb ∷ c.call_stack; parent = some n; pm = c.pm }) cs

abbrev pub calls_back : FnContext → ℕ → Bool
calls_back c cb = member cb c.call_stack

-- `callStack_.back()`
abbrev pub caller : FnContext → Outcome ℕ
caller c = elim c.call_stack [ [] ↦ aborted | cb ∷ cbs ↦ ok cb ]

abbrev pub with_pm : ℕ → PmDesc → Contexts → Contexts
with_pm n d cs = record cs {
  context = change n (record (Contexts.context cs n) { pm = d }) (Contexts.context cs);
}

-- The call as a value: a pointer of the type that is returned.
abbrev pub call_value : ℕ → Value → Value
call_value cb v = record v { addr = cb; sort = other_value }

-- `p->pm_.doReturn(pm_)`
abbrev pub hand_back : ℕ → ℕ → Contexts → Contexts
hand_back p n cs =
    with_pm p (PmDesc.do_return (FnContext.pm (cs.context p)) (FnContext.pm (cs.context n))) cs

module _ (anders : Anders) where
  -- The parent `p` of the context `c` knows that its call points to persistent memory.
  unfoldable pub told : FnContext → ℕ → Value → Contexts → Outcome Contexts
  told c p v cs = do
    cb ← caller c
    d ← add_known_pm_value anders (FnContext.pm (cs.context p)) (call_value cb v)
    ok (with_pm p d cs)

  -- It does where the value that is returned does. Integers point to nothing.
  unfoldable pub returned : FnContext → ℕ → Option Value → Contexts → Outcome Contexts
  returned c p none cs = ok cs
  returned c p (some v) cs =
      if v.pointer
      then (do b ← points_to_pm anders c.pm v; if b then told c p v cs else ok cs)
      else ok cs

  -- `doReturn` from the context `n`.
  unfoldable pub return_to_parent : ℕ → Option Value → Contexts → Outcome (ℕ × Contexts)
  return_to_parent n v cs = elim (FnContext.parent (cs.context n)) [
    | none ↦ aborted
    | some p ↦ do known ← returned (cs.context n) p v cs; ok (p, hand_back p n known)
  ]

-- `ContextBlock`
pub record Window : Type 0 where
  pub ctx : ℕ
  pub first : ℕ
  pub last : ℕ
  pub trace_inst : ℕ

unfoldable pub same_calls : List ℕ → List ℕ → Bool
same_calls [] [] = true
same_calls (x ∷ xs) (y ∷ ys) = (x == y) && same_calls xs ys
same_calls _ _ = false

-- `ContextBlock::operator==`, with that of the contexts.
unfoldable pub same_window : Contexts → Window → Window → Bool
same_window cs a b =
    (a.first == b.first)
    && ((a.last == b.last)
        && same_calls (FnContext.call_stack (cs.context a.ctx))
            (FnContext.call_stack (cs.context b.ctx)))

abbrev pub no_intrinsic : Intrinsic → Bool
no_intrinsic not_intrinsic = true
no_intrinsic _ = false

-- A call of a function that has a body.
abbrev pub enters : Op → Bool
enters op = elim (called_function op) [
  | none ↦ false
  | some f ↦ not f.declaration && no_intrinsic f.intrinsic
]

-- The last instruction of the block, from the last one so far and those behind it.
unfoldable pub scroll_down : ℕ → List Inst → ℕ
scroll_down last [] = last
scroll_down last (i ∷ is) = let rest = scroll_down i.id is in if enters i.op then i.id else rest

-- `ContextBlock::create` from a context and an instruction, which must be one of the module.
unfoldable pub create_window : Module → ℕ → ℕ → ℕ → Outcome Window
create_window m ctx first trace = elim (parent m first) [
  | none ↦ aborted
  | some (f, b) ↦ ok (record {
    ctx = ctx;
    first = first;
    last = scroll_down first (non_debug (after first b.insts));
    trace_inst = trace;
  })
]
