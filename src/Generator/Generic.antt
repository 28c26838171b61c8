-- ===== src/Generator/Generic.antt =====
-- src/FixGenerator.hpp: `GenericFixGenerator`, as the loop over the fixes sees it.
use hippocrates.Base.{ℕ, Text, Outcome}
use hippocrates.Ir.{Module}
use hippocrates.Raise.{Mapper}
use hippocrates.Repair.{FixGenerator}
use hippocrates.Generator.{Program, insert_flush, insert_fence}
use hippocrates.Generator.Clone.{Settings}
use hippocrates.Generator.SubProgram.{insert_persistent_sub_program}

-- `modifyCall` and the removal of the old call are an argument.
abbrev pub generic :
    Settings
    → (demangle : Text → Text) → (unique : Module → Text → Text) → Mapper
    → (replace : ℕ → Text → Program → Outcome Program) → FixGenerator Program
generic c demangle unique mapper replace = record {
  insert_flush = insert_flush;
  insert_fence = insert_fence;
  insert_persistent_sub_program = insert_persistent_sub_program c demangle unique mapper;
  replace_call = replace;
}
