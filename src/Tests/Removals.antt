-- ===== src/Tests/Removals.antt =====
-- The pass that removes flushes (src/remover/FlushRemover.cpp).
use hippocrates.Base.{
  ℕ, ◌≡◌, refl, sym, ap, ◌∙◌, ◌↔◌, inl, inr, true, none, ◌==◌, if◌then◌else◌, subst,
}
use hippocrates.Ir.{Inst, Op, ret}
use hippocrates.Generator.Behind.{In}
use hippocrates.Utils.Remover.{run_on_module}
use hippocrates.Utils.Remover.Kinds.{IsFlush}
use hippocrates.Utils.Remover.Removed.{LeftModule, OnePlace, run_on_module-LeftModule}
use hippocrates.Tests.Samples.{program, store_inst, flush_inst}

-- The operation at an address of the program.
abbrev op_at : ℕ → Op
op_at n =
    if n == 11
    then Inst.op (flush_inst 11)
    else if n == 13
    then ret none
    else Inst.op (store_inst 10)

program-op_at : (x : Inst) → In x program → x.op ≡ op_at x.id
program-op_at x (inl (inl (inl e))) = subst (λ (i : Inst). i.op ≡ op_at i.id) e refl
program-op_at x (inl (inl (inr (inl e)))) = subst (λ (i : Inst). i.op ≡ op_at i.id) e refl
program-op_at x (inl (inl (inr (inr (inl e))))) = subst (λ (i : Inst). i.op ≡ op_at i.id) e refl
program-op_at x (inl (inl (inr (inr (inr (inl e)))))) =
    subst (λ (i : Inst). i.op ≡ op_at i.id) e refl
program-op_at x (inl (inl (inr (inr (inr (inr h)))))) = elim h [ ]
program-op_at x (inl (inr h)) = elim h [ ]
program-op_at x (inr h) = elim h [ ]

program-OnePlace : OnePlace program
program-OnePlace x y h k e = program-op_at x h ∙ (ap op_at e ∙ sym (program-op_at y k))

run_on_module-LeftModule_example :
    LeftModule program (run_on_module program).0
    × (((run_on_module program).1 ≡ true) ↔ ((x : Inst) × In x program × IsFlush x.op))
run_on_module-LeftModule_example = run_on_module-LeftModule program program-OnePlace
