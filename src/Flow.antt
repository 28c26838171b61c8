-- ===== src/Flow.antt =====
-- src/FlowAnalyzer.cpp: `FlowAnalyzer::interpret`, `alwaysRedundant` and `redundantPaths` on the graph
-- of the blocks between two flushes. A node is a number; the graph, which `ContextGraph::construct`
-- makes, is an argument. What an analysis leaves at the nodes is its state.
pub mod Walk
pub mod Enough
pub mod Down
pub mod Points
pub mod Ends
use hippocrates.Base.{
  ℕ, zero, suc, ◌+◌, Bool, true, false, not, ◌&&◌, ◌||◌, Option, none, some, List, [], ◌∷◌, ◌++◌,
  length, is_empty, ◌==◌, if◌then◌else◌, Outcome, ok, aborted, assert, ◌>>=◌, ◌>>◌,
}
use hippocrates.Location.{no_location}
use hippocrates.Ir.{Module, Inst, Op, Value, store, parent}
use hippocrates.FixLoc.{insts_in, same_place}
use hippocrates.PmDesc.{Anders, PmDesc, points_to_pm}
use hippocrates.Utils.{get_flush, is_some}

-- `ContextBlock`, with the values that its context knows to be persistent.
pub record ContextBlock : Type 0 where
  pub first : ℕ
  pub last : ℕ
  pub trace_inst : ℕ
  pub pm : PmDesc

-- `FlowAnalyzer::Info`
pub record Info : Type 0 where
  pub updated : Bool
  pub is_not_redundant : Bool
  pub is_redt_in_parents : Bool
  pub is_redt_in_children : Bool

-- `ContextGraph`: nodes are the numbers below the size.
pub record ContextGraph : Type 0 where
  pub size : ℕ
  pub block : ℕ → ContextBlock
  pub children : ℕ → List ℕ
  pub parents : ℕ → List ℕ
  pub roots : List ℕ
  pub leaves : List ℕ

-- What `metadata` is at each node.
abbrev pub Infos : Type 0
Infos = ℕ → Info

abbrev pub set : ℕ → Info → Infos → Infos
set n i infos x = if x == n then i else infos x

abbrev pub stored_to : Op → Option Value
stored_to (store value ptr) = some ptr
stored_to _ = none

module _ (anders : Anders) where
  -- Whether a flush in front of the instructions makes one behind them redundant.
  unfoldable pub interpret_insts : PmDesc → List Inst → Bool → Outcome Bool
  interpret_insts pm [] still = ok still
  interpret_insts pm (i ∷ is) still = elim (stored_to i.op) [
    | some ptr ↦
        points_to_pm anders pm ptr >>= λ b. interpret_insts pm is (if b then false else still)
    | none ↦
        let rest = interpret_insts pm is still in
        if is_some (get_flush i.op) && not still then aborted else rest
  ]

  unfoldable pub interpret :
      Module → ContextGraph → ℕ → (start end : ℕ) → Infos → Outcome (Bool × Infos)
  interpret m g n start end infos =
      assert (same_place (parent m start) (parent m end))
      >> (if Info.updated (infos n) then ok (not (Info.is_not_redundant (infos n)), infos) else (do
        is ← insts_in (record { first = start; last = end; dbg_loc = no_location }) (parent m start)
        still ← interpret_insts (ContextBlock.pm (g.block n)) is true
        ok (
          still,
          set n (record (infos n) { is_not_redundant = not still; updated = true }) infos,
        )))

unfoldable pub member : ℕ → List ℕ → Bool
member n [] = false
member n (x ∷ xs) = if x == n then true else member n xs

-- The loop over the frontier: what a visit returns is put behind it, and no node is visited twice. It
-- runs on fuel, and `none` is that it has run out.
unfoldable pub traverse :
    {S : Type 0}
    → (ℕ → S → Outcome (List ℕ × S))
    → ℕ
    → (frontier traversed : List ℕ) → S
    → Outcome (Option (List ℕ × S))
traverse visit zero frontier seen s = ok none
traverse visit (suc k) [] seen s = ok (some (seen, s))
traverse visit (suc k) (n ∷ ns) seen s =
    let skipped = traverse visit k ns seen s in
    if member n seen
    then skipped
    else visit n s >>= λ r. traverse visit k (ns ++ r.0) (n ∷ seen) r.1

-- The fuel for a frontier: a round for each node in it, and for each node of the graph and its edges.
unfoldable pub edges : (ℕ → List ℕ) → ℕ → ℕ
edges next zero = 0
edges next (suc k) = suc (length (next k)) + edges next k

abbrev pub fuel_for : (ℕ → List ℕ) → ℕ → List ℕ → ℕ
fuel_for next size frontier = suc (length frontier + edges next size)

-- The nodes behind all those of a list.
unfoldable pub behind : (ℕ → List ℕ) → List ℕ → List ℕ
behind next [] = []
behind next (n ∷ ns) = next n ++ behind next ns

-- Goes on with the state of a loop that has ended.
abbrev pub ended :
    {A B : Type 0} → Outcome (Option A) → (A → Outcome (Option B)) → Outcome (Option B)
ended (ok (some a)) f = f a
ended (ok none) f = ok none
ended aborted f = aborted

module _ (anders : Anders) (m : Module) (g : ContextGraph) where
  -- A node behind the root; a leaf is interpreted up to the trace only.
  unfoldable pub look_at : ℕ → Bool × Infos → Outcome (List ℕ × (Bool × Infos))
  look_at n (redundant, infos) =
      let b = g.block n in
      if is_empty (g.children n)
      then (do
        r ← interpret anders m g n b.first b.trace_inst infos
        assert r.0
        ok ([], (redundant, r.1)))
      else (do
        r ← interpret anders m g n b.first b.last infos
        ok (g.children n, (r.0 && redundant, r.1)))

  unfoldable pub from_roots : List ℕ → Bool × Infos → Outcome (Option (Bool × Infos))
  from_roots [] s = ok (some s)
  from_roots (n ∷ ns) s =
      let b = g.block n in
      elim (g.children n) [
        | [] ↦ from_roots ns s
        | c ∷ cs ↦ interpret anders m g n b.trace_inst b.last s.1 >>= λ r.
            assert r.0
            >> ended
                (traverse look_at (fuel_for g.children g.size (c ∷ cs)) (c ∷ cs) (n ∷ [])
                  (s.0, r.1))
                (λ t. from_roots ns t.1)
      ]

  -- What the walk has found is not returned: the result is false.
  unfoldable pub always_redundant : Infos → Outcome (Option (Bool × Infos))
  always_redundant infos = ended (from_roots g.roots (true, infos)) (λ t. ok (some (false, t.1)))

module _ (g : ContextGraph) where
  -- A node is redundant in its parents if all of them are, and are no spoilers.
  unfoldable pub join_parents : ℕ → List ℕ → Infos → Infos
  join_parents n [] infos = infos
  join_parents n (p ∷ ps) infos =
      let b =
        Info.is_redt_in_parents (infos n)
        && (not (Info.is_not_redundant (infos p)) && Info.is_redt_in_parents (infos p)) in
      join_parents n ps (set n (record (infos n) { is_redt_in_parents = b }) infos)

  unfoldable pub join_children : ℕ → List ℕ → Infos → Infos
  join_children n [] infos = infos
  join_children n (c ∷ cs) infos =
      let b =
        Info.is_redt_in_children (infos n)
        && (not (Info.is_not_redundant (infos c)) && Info.is_redt_in_children (infos c)) in
      join_children n cs (set n (record (infos n) { is_redt_in_children = b }) infos)

  abbrev pub go_down : ℕ → Infos → Outcome (List ℕ × Infos)
  go_down n infos = ok (g.children n, join_parents n (g.parents n) infos)

  abbrev pub go_up : ℕ → Infos → Outcome (List ℕ × Infos)
  go_up n infos = ok (g.parents n, join_children n (g.children n) infos)

  -- A node that is redundant both ways is a point, and the walk does not go on behind it.
  abbrev pub go_points : Infos → ℕ → List ℕ → Outcome (List ℕ × List ℕ)
  go_points infos n points =
      if Info.is_redt_in_children (infos n) && Info.is_redt_in_parents (infos n)
      then ok ([], points ++ (ContextBlock.first (g.block n) ∷ []))
      else ok (g.children n, points)

  unfoldable pub roots_fit : List ℕ → Infos → Bool
  roots_fit [] infos = true
  roots_fit (n ∷ ns) infos =
      Info.updated (infos n) && not (is_empty (g.children n)) && roots_fit ns infos

  unfoldable pub leaves_fit : List ℕ → Infos → Bool
  leaves_fit [] infos = true
  leaves_fit (n ∷ ns) infos =
      Info.updated (infos n)
      && not (is_empty (g.parents n))
      && not (Info.is_not_redundant (infos n))
      && leaves_fit ns infos

  -- The nodes visited on the way down and the verdicts, then those on the way up, then the points.
  unfoldable pub walk_down : Infos → Outcome (Option (List ℕ × Infos))
  walk_down infos =
      let frontier = behind g.children g.roots in
      traverse go_down (fuel_for g.children g.size frontier) frontier g.roots infos

  unfoldable pub walk_up : Infos → Outcome (Option (List ℕ × Infos))
  walk_up infos =
      let frontier = behind g.parents g.leaves in
      traverse go_up (fuel_for g.parents g.size frontier) frontier g.leaves infos

  unfoldable pub walk_points : Infos → Outcome (Option (List ℕ × List ℕ))
  walk_points infos =
      let frontier = behind g.children g.roots in
      traverse (go_points infos) (fuel_for g.children g.size frontier) frontier g.roots []

  unfoldable pub redundant_paths : Infos → Outcome (Option (List ℕ))
  redundant_paths infos =
      assert (roots_fit g.roots infos)
      >> ended (walk_down infos) (λ down.
        assert (leaves_fit g.leaves down.1)
        >> ended (walk_up down.1) (λ up. ended (walk_points up.1) (λ r. ok (some r.1))))
