-- ===== src/Tests/Generators.antt =====
-- Runs of the code generator (src/FixGenerator.cpp) on a small module.
use mathlib.Core.List.{append-nil}
use hippocrates.Base.{
  ◌<◌, if◌then◌else◌, ℤ, pos, negsuc, ℕ, ◌≡◌, refl, sym, subst, inl, inr, Bool, true, false, none,
  some, List, [], ◌∷◌, codes, Text, text_eq, Outcome, ok, aborted, ◌==◌, arith, Any, All,
}
use hippocrates.Generator.SubProgram.{
  insert_persistent_sub_program, raise_frames, raise_frame, fence_call, persistent_copy,
  redirect_insts, redirect_locs,
}
use hippocrates.Location.{LocationInfo}
use hippocrates.Ir.{
  find_block, has_inst, non_debug, after, rewrite_module, rewrite_blocks, rewrite_insts, FnInfo,
  Value, Inst, Block, Function, Module, not_intrinsic, other_value, direct, store, call, ret,
  parent,
}
use hippocrates.FixLoc.{insts, insts_in, is_valid, walk_to, from, same_place}
use hippocrates.Fix.{fix_desc, FixDesc, add_flush_and_fence, add_persist_callstack_opt}
use hippocrates.Fix.Map.{FixMap}
use hippocrates.Raise.{front_of, function_of, same_function, Mapper}
use hippocrates.PmDesc.{
  insert_all, insert, contains, points_to_pm, num_pm_aliases, count_both, has, points_to_set,
}
use hippocrates.Generator.{
  written, builder_at, insert_fence, insert_flush_at, insert_flushes, Program, insert_flush,
}
use hippocrates.Generator.Behind.{Member, In}
use hippocrates.Generator.Insert.{Grows, Valid, reserved_name}
use hippocrates.Generator.Names.{Unique}
use hippocrates.Generator.Stores.{CopyFlushed, persistent_copy-CopyFlushed}
use hippocrates.Generator.Clone.{
  analysed, clone_blocks, clone_insts, duplicate_function, flush_points, in_blocks, is_flush_point,
  make_all_stores_persistent, persist, persist_all, points_in, Settings,
}
use hippocrates.Generator.Generic.{generic}
use hippocrates.Generator.Keeps.{generic-Promises, generic-Done}
use hippocrates.Repair.Applied.{Done}
use hippocrates.Repair.{fix_bug, FixGenerator, apply_fixes}
use hippocrates.Tests.Samples.{main_at, value, function_info, inst, single, desc}

-- A function that writes through a pointer that is no byte pointer, and its caller.
abbrev pub target : Value
target = record {
  addr = 2;
  pointer = true;
  vector = false;
  bytes = false;
  bits = 0;
  sort = other_value;
}

abbrev pub writes : Inst
writes = inst 10 (store (value 1) target)

abbrev pub leaves : Inst
leaves = inst 11 (ret none)

abbrev pub calls : Inst
calls = inst 20 (call (direct (function_info (codes "update") not_intrinsic)) [])

abbrev pub ends : Inst
ends = inst 21 (ret none)

abbrev pub update : Function
update = record {
  info = function_info (codes "update") not_intrinsic;
  blocks = (record { label = 1; insts = writes ∷ leaves ∷ [] }) ∷ [];
}

abbrev pub main : Function
main = record {
  info = function_info (codes "main") not_intrinsic;
  blocks = (record { label = 2; insts = calls ∷ ends ∷ [] }) ∷ [];
}

abbrev pub start : Program
start = record { m = update ∷ main ∷ []; next = 30 }

pub at_start :
    (P : Inst → Type 0) → P writes → P leaves → P calls → P ends → (x : Inst) → In x start.m → P x
at_start P a b c d x (inl (inl (inl e))) = subst P e a
at_start P a b c d x (inl (inl (inr (inl e)))) = subst P e b
at_start P a b c d x (inl (inl (inr (inr h)))) = absurd h
at_start P a b c d x (inl (inr h)) = absurd h
at_start P a b c d x (inr (inl (inl (inl e)))) = subst P e c
at_start P a b c d x (inr (inl (inl (inr (inl e))))) = subst P e d
at_start P a b c d x (inr (inl (inl (inr (inr h))))) = absurd h
at_start P a b c d x (inr (inl (inr h))) = absurd h
at_start P a b c d x (inr (inr h)) = absurd h

start-Valid : Valid start
unfolding reserved_name text_eq
start-Valid = record {
  one_op = λ x y h k e.
      at_start (λ q. (z : Inst) → In z start.m → q.id ≡ z.id → q.op ≡ z.op)
        (λ y k.
          at_start (λ z. writes.id ≡ z.id → writes.op ≡ z.op) (λ e. refl) (λ e. ground (arith, e))
            (λ e. ground (arith, e)) (λ e. ground (arith, e)) y k)
        (λ y k.
          at_start (λ z. leaves.id ≡ z.id → leaves.op ≡ z.op) (λ e. ground (arith, e)) (λ e. refl)
            (λ e. ground (arith, e)) (λ e. ground (arith, e)) y k)
        (λ y k.
          at_start (λ z. calls.id ≡ z.id → calls.op ≡ z.op) (λ e. ground (arith, e))
            (λ e. ground (arith, e)) (λ e. refl) (λ e. ground (arith, e)) y k)
        (λ y k.
          at_start (λ z. ends.id ≡ z.id → ends.op ≡ z.op) (λ e. ground (arith, e))
            (λ e. ground (arith, e)) (λ e. ground (arith, e)) (λ e. refl) y k)
        x h y k e;
  low =
      λ x h. at_start (λ q. q.id < 30) (omega arith) (omega arith) (omega arith) (omega arith) x h;
  bodiless = (λ r. ground (arith, r), (λ r. ground (arith, r), tt));
}

abbrev c : Settings
c = record {
  use_nt = false;
  aa_map = none;
  anders = λ v. some (v ∷ []);
  pm = record { locals = target ∷ []; globals = [] };
  pointer_size = 8;
}

abbrev keep_name : Module → Text → Text
keep_name m name = name

keep_name-Unique : Unique keep_name
keep_name-Unique m name = ([], sym (append-nil name))

abbrev line_of : ℤ → ℕ
line_of (pos n) = n
line_of (negsuc n) = 0

abbrev by_line : Mapper
by_line li = if line_of li.line == 10 then some (single 10 ∷ []) else some (single 20 ∷ [])

abbrev fixer : FixGenerator Program
fixer = generic c (λ name. name) keep_name by_line (λ p name s. ok s)

abbrev stack : List LocationInfo
stack = main_at 10 ∷ main_at 20 ∷ []

abbrev fixes : FixMap
fixes =
    (single 10, desc add_flush_and_fence)
    ∷ (single 20, fix_desc add_persist_callstack_opt stack 1)
    ∷ []

-- The program that a run leaves.
abbrev left : Outcome (Bool × Program) → Program
left (ok (b, t)) = t
left aborted = start

unfoldable fixed : Program
unfolding apply_fixes fix_bug insert_flush insert_flushes insert_flush_at insert_fence
fixed = left (apply_fixes fixer fixes false start)

fixes_apply : apply_fixes fixer fixes false start ≡ ok (true, fixed)
unfolding fixed apply_fixes fix_bug insert_flush insert_flushes insert_flush_at insert_fence
    builder_at insts insts_in is_valid parent find_block has_inst text_eq walk_to non_debug after
    from rewrite_module rewrite_blocks rewrite_insts insert_persistent_sub_program raise_frames
    raise_frame clone_blocks clone_insts duplicate_function flush_points in_blocks is_flush_point
    make_all_stores_persistent persist persist_all points_in fence_call persistent_copy
    redirect_insts redirect_locs front_of function_of same_function contains points_to_pm
    num_pm_aliases count_both has points_to_set same_place insert_all insert
fixes_apply = refl

generic-Done_example :
    Grows start fixed
    × All
        (λ e.
          Done fixer
            (generic-Promises c
              (λ name. name)
              keep_name
              by_line
              keep_name-Unique
              (λ p name s. ok s))
            e.0
            (FixDesc.type e.1)
            fixed)
        fixes
generic-Done_example =
    generic-Done c (λ name. name) keep_name by_line keep_name-Unique (λ p name s. ok s) fixes false
      true start fixed start-Valid ((refl, omega arith), (tt, tt)) fixes_apply

-- The copy of the function.
abbrev copied : Outcome (FnInfo × Program) → FnInfo × Program
copied (ok q) = q
copied aborted = (update.info, start)

unfoldable copy : FnInfo × Program
copy = copied (persistent_copy c (λ name. name) keep_name by_line true update start)

copies : persistent_copy c (λ name. name) keep_name by_line true update start ≡ ok copy
unfolding copy persistent_copy clone_blocks clone_insts duplicate_function flush_points in_blocks
    is_flush_point make_all_stores_persistent persist persist_all points_in insert_flush_at
    builder_at parent find_block has_inst after contains points_to_pm num_pm_aliases count_both has
    points_to_set insert_all insert
copies = refl

stands : parent start.m 10 ≡ some (update, (record { label = 1; insts = writes ∷ leaves ∷ [] }))
unfolding parent find_block has_inst
stands = refl

persistent_copy-CopyFlushed_example :
    Grows start copy.1
    × ((i : Inst)
        → Any (λ (k : Block). Member i k.insts) update.blocks
        → is_flush_point c (analysed c.aa_map (written i.op)) ≡ ok true
        → CopyFlushed update.blocks 30 i copy.1)
persistent_copy-CopyFlushed_example =
    persistent_copy-CopyFlushed c (λ name. name) keep_name by_line 10 update
      (record { label = 1; insts = writes ∷ leaves ∷ [] }) start copy.1 copy.0 refl keep_name-Unique
      start-Valid stands copies
