-- ===== src/Tests/Locations.antt =====
-- Locations and ranges of instructions (src/BugReports.cpp, the regions LocationInfo and FixLoc).
use hippocrates.Base.{
  ◌≡◌, refl, ◌↔◌, true, false, arith, ok, [], ◌∷◌, codes, text_eq, occurs_in, pos, negsuc,
}
use hippocrates.Location.{LocationInfo, eq, valid}
use hippocrates.Location.Matching.{SameFile, eq-SameFile, eq-not_transitive}
use hippocrates.Ir.{parent, has_inst, find_block, non_debug}
use hippocrates.FixLoc.{FixLoc, is_valid, insts}
use hippocrates.FixLoc.Walk.{insts-range}
use hippocrates.Tests.Samples.{main_at, program, store_inst, flush_inst, inst, block, main}

abbrev here : LocationInfo
here = main_at 3

abbrev other : LocationInfo
other = record { function = codes "main"; file = codes "b.c"; line = pos 3 }

here-eq : eq here (record here { file = codes "src/a.c" }) ≡ true
unfolding eq text_eq occurs_in
here-eq = refl

here-ne-other : eq here other ≡ false
unfolding eq text_eq occurs_in
here-ne-other = refl

valid_lines : (valid here ≡ true) × (valid (record here { line = negsuc 0 }) ≡ false)
unfolding valid
valid_lines = (refl, refl)

eq-SameFile_example :
    (eq here other ≡ true)
    ↔ ((here.function ≡ other.function) × (here.line ≡ other.line) × SameFile here.file other.file)
eq-SameFile_example = eq-SameFile here other

eq-not_transitive_example : (b : LocationInfo) × (eq here b ≡ true) × (eq b other ≡ true)
eq-not_transitive_example = eq-not_transitive here other refl refl here-ne-other

abbrev three : FixLoc
three = record { first = 10; last = 12; dbg_loc = here }

insts-range_example : insts program three ≡ ok (store_inst 10 ∷ flush_inst 11 ∷ store_inst 12 ∷ [])
unfolding is_valid parent has_inst find_block text_eq non_debug
insts-range_example =
    insts-range program three main block [] (store_inst 10) refl refl refl (omega arith)
      (flush_inst 11 ∷ []) (store_inst 12) (inst 13 _ ∷ []) refl refl refl
