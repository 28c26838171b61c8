-- ===== src/Utils/Remover.antt =====
-- src/remover/FlushRemover.cpp: `FlushRemover::runOnModule`. What it removes
-- is in Remover/Removed.antt.
pub mod Kinds
pub mod Collected
pub mod Removed
use hippocrates.Base.{Bool, not, List, [], ◌∷◌, ◌++◌, is_empty, if◌then◌else◌}
use hippocrates.Ir.{Module, Block, Inst}
use hippocrates.Utils.{is_flush}
use hippocrates.Generator.Remove.{erase}

-- The flushes of a module, in order.
unfoldable pub flushes_in : List Inst → List Inst
flushes_in [] = []
flushes_in (i ∷ is) = if is_flush i.op then i ∷ flushes_in is else flushes_in is

unfoldable pub flushes_of : List Block → List Inst
flushes_of [] = []
flushes_of (b ∷ bs) = flushes_in b.insts ++ flushes_of bs

unfoldable pub flushes : Module → List Inst
flushes [] = []
flushes (f ∷ fs) = flushes_of f.blocks ++ flushes fs

-- `eraseFromParent` of each instruction of the list.
unfoldable pub erase_all : List Inst → Module → Module
erase_all [] m = m
erase_all (i ∷ is) m = erase_all is (erase i.id m)

unfoldable pub run_on_module : Module → Module × Bool
run_on_module m = (erase_all (flushes m) m, not (is_empty (flushes m)))
