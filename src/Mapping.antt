-- ===== src/Mapping.antt =====
-- src/BugReports.cpp: `BugLocationMapper::insertMapping` and `createMappings`. The hash of a location
-- is a parameter. A hash map is a list of its entries, the first inserted in front; the source leaves
-- the order open. Blocks are told apart by their numbers.
pub mod Span
use hippocrates.Base.{
  ℕ, zero, suc, ◌+◌, Bool, true, false, not, ◌&&◌, ◌||◌, Option, none, some, List, [], ◌∷◌, ◌++◌,
  is_empty, ltb, ◌==◌, if◌then◌else◌, Text, Outcome, ok, aborted, assert, ◌>>=◌, ◌>>◌, pos,
}
use hippocrates.Location.{LocationInfo, eq}
use hippocrates.Ir.{
  Module, Function, Block, Inst, Op, Intrinsic, dbg_declare, called_function, FnInfo,
}
use hippocrates.FixLoc.{FixLoc}

-- An instruction with the block that it stands in.
pub record Located : Type 0 where
  pub inst : Inst
  pub block : Block

abbrev pub LocMap : Type 0
LocMap = List (LocationInfo × List Located)

-- The place of an instruction in its block, as `OrderedBasicBlock` counts.
unfoldable pub index_of : ℕ → List Inst → ℕ
index_of p [] = 0
index_of p (i ∷ is) = if i.id == p then 0 else suc (index_of p is)

-- `obb.dominates`
abbrev pub dominates : Block → Inst → Inst → Bool
dominates b i j = ltb (index_of i.id b.insts) (index_of j.id b.insts)

-- The loop over the instructions of a block, from the first and the last one so far.
unfoldable pub span : Block → List Inst → Inst → Inst → Inst × Inst
span b [] first last = (first, last)
span b (i ∷ is) first last =
    span b is (if dominates b i first then i else first) (if dominates b last i then i else last)

abbrev pub last_of : Inst → List Inst → Inst
last_of i [] = i
last_of i (j ∷ js) = last_of j js

unfoldable pub fix_loc_of : LocationInfo → Block → Inst → List Inst → FixLoc
fix_loc_of li b i is =
    let r = span b (i ∷ is) i (last_of i is) in
    record { first = r.0.id; last = r.1.id; dbg_loc = li }

abbrev pub is_dbg_declare : Intrinsic → Bool
is_dbg_declare dbg_declare = true
is_dbg_declare _ = false

unfoldable pub is_declare : Op → Bool
is_declare op = elim (called_function op) [ none ↦ false | some f ↦ is_dbg_declare f.intrinsic ]

-- `blocks[q->getParent()].push_back(q)`; a group is a block and its instructions, which are not none.
pub record Group : Type 0 where
  pub block : Block
  pub head : Inst
  pub tail : List Inst

unfoldable pub push_group : Located → List Group → List Group
push_group q [] = record { block = q.block; head = q.inst; tail = [] } ∷ []
push_group q (g ∷ gs) =
    let rest = push_group q gs in
    if g.block.label == q.block.label
    then (record g { tail = g.tail ++ q.inst ∷ [] }) ∷ gs
    else g ∷ rest

unfoldable pub group_all : List Located → List Group → List Group
group_all [] gs = gs
group_all (q ∷ qs) gs = group_all qs (if is_declare q.inst.op then gs else push_group q gs)

unfoldable pub locs_of : LocationInfo → List Group → List FixLoc
locs_of li [] = []
locs_of li (g ∷ gs) = fix_loc_of li g.block g.head g.tail ∷ locs_of li gs

-- The entry of `fixLocMap_` for an entry of `locMap_`.
abbrev pub fix_locs_at : LocationInfo × List Located → LocationInfo × List FixLoc
fix_locs_at (li, qs) = (li, locs_of li (group_all qs []))

module _ (hash_of : LocationInfo → ℕ) where
  abbrev pub one_key : LocationInfo → LocationInfo → Bool
  one_key a b = hash_of a == hash_of b && eq a b

  -- `locMap_[li].push_back(i)`
  unfoldable pub push : LocationInfo → Located → LocMap → LocMap
  push li q [] = (li, q ∷ []) ∷ []
  push li q ((l, qs) ∷ m) =
      let rest = push li q m in if one_key l li then (l, qs ++ q ∷ []) ∷ m else (l, qs) ∷ rest

  unfoldable pub insert_mapping : Function → Block → Inst → LocMap → LocMap
  insert_mapping f b i m = elim i.dbg [
    | none ↦ m
    | some (file, line) ↦
        push (record { function = f.name; file = file; line = pos line })
          (record { inst = i; block = b }) m
  ]

  unfoldable pub insert_insts : Function → Block → List Inst → LocMap → LocMap
  insert_insts f b [] m = m
  insert_insts f b (i ∷ is) m = insert_insts f b is (insert_mapping f b i m)

  unfoldable pub insert_blocks : Function → List Block → LocMap → LocMap
  insert_blocks f [] m = m
  insert_blocks f (b ∷ bs) m = insert_blocks f bs (insert_insts f b b.insts m)

  unfoldable pub insert_functions : Module → LocMap → LocMap
  insert_functions [] m = m
  insert_functions (f ∷ fs) m = insert_functions fs (insert_blocks f f.blocks m)

  unfoldable pub map_locs : LocMap → List (LocationInfo × List FixLoc)
  map_locs [] = []
  map_locs (e ∷ es) = fix_locs_at e ∷ map_locs es

  unfoldable pub create_mappings : Module → Outcome (List (LocationInfo × List FixLoc))
  create_mappings m = do
    let loc_map = insert_functions m []
    assert (not (is_empty loc_map))
    ok (map_locs loc_map)

  -- `fixLocMap_.at` and `count`, as the handlers use them.
  unfoldable pub mapper_of : List (LocationInfo × List FixLoc) → LocationInfo → Option (List FixLoc)
  mapper_of [] li = none
  mapper_of ((l, locs) ∷ m) li = if one_key l li then some locs else mapper_of m li
