-- ===== src/Tests/Analyses.antt =====
-- The analysis of persistent memory, the heuristic, and the passes (src/FlowAnalyzer.cpp,
-- src/BugFixer.cpp, src/cleaner/FunctionCleaner.cpp).
use hippocrates.Base.{
  ℕ, ◌≡◌, refl, ap, ◌==◌, if◌then◌else◌, ◌↔◌, ◌||◌, ◌++◌, Bool, true, false, Option, none, some,
  List, [], ◌∷◌, ok, length, ◌>>=◌, ℤ, pos, negsuc, int_lt, All,
}
use hippocrates.Ir.{Value, Module, Function, Inst}
use hippocrates.PmDesc.{Anders, PmDesc, points_to_set}
use hippocrates.PmDesc.Cache.{cached, Agrees, get_points_to_set, get_points_to_set-points_to_set}
use hippocrates.Raise.{Mapper}
use hippocrates.Raise.Heuristic.Pick.{best_frame, pick, choose_frame, int64_min, no_aliases_score}
use hippocrates.Raise.Heuristic.Best.{best_frame-first_max, in_reach, NotAbove}
use hippocrates.Raise.Heuristic.Fresh.{choose_frame-fresh_scores, fresh_scores}
use hippocrates.Raise.Heuristic
use hippocrates.Mapping.{fix_loc_of}
use hippocrates.Mapping.Span.{Between, fix_loc_of-Between}
use hippocrates.Utils.Cleaner.{NoneDead, run_on_module, run_on_module-NoneDead}
use hippocrates.Tests.Samples.{value, program, block, store_inst, main_at, single}

-- Pointers 1 and 2 point to the site 7, and all else to nothing.
abbrev site : Value
site = value 7

abbrev anders_at : ℕ → Option (List Value)
anders_at n = if (n == 1) || (n == 2) then some (site ∷ []) else some []

abbrev anders : Anders
anders v = anders_at v.addr

abbrev before : PmDesc
before = record { locals = []; globals = [] }

abbrev after : PmDesc
after = record { locals = site ∷ []; globals = [] }

by_addr : (a b : Value) → a.addr ≡ b.addr → anders a ≡ anders b
by_addr a b e = ap anders_at e

nothing_cached : Agrees anders []
unfolding cached
nothing_cached v s h = cc

-- The last frame is behind one without aliases.
abbrev scores : List ℤ
scores = int64_min ∷ pos 2 ∷ pos 5 ∷ negsuc 0 ∷ no_aliases_score ∷ pos 9 ∷ []

picks : best_frame scores ≡ ok 2
unfolding best_frame pick
picks = refl

best_frame-first_max_example :
    (front : List ℤ) × (s : ℤ) × (rest : List ℤ) × (in_reach scores ≡ front ++ s ∷ rest)
    × (2 ≡ length front)
    × All (λ t. int_lt t s ≡ true) front
    × NotAbove s rest
    × (int_lt int64_min s ≡ true)
best_frame-first_max_example = best_frame-first_max scores 2 picks

fix_loc_of-Between_example :
    (f : Inst) × (l : Inst) × ((fix_loc_of
        (main_at 10)
        block
        (store_inst 12)
        (store_inst 10 ∷ [])).first
      ≡ f.id)
    × ((fix_loc_of (main_at 10) block (store_inst 12) (store_inst 10 ∷ [])).last ≡ l.id)
    × All (Between block (f, l)) (store_inst 12 ∷ store_inst 10 ∷ [])
fix_loc_of-Between_example =
    fix_loc_of-Between block (main_at 10) (store_inst 12) (store_inst 10 ∷ [])

-- All frames are at one location, in a module without the analysis' instructions.
abbrev one_place : Mapper
one_place li = some (single 10 ∷ [])

empty-Agrees : Heuristic.Fresh.Agrees anders after program none one_place (λ li. 0) []
unfolding Heuristic.cached
empty-Agrees li a h = cc

choose_frame-fresh_scores_example :
    (choose_frame true anders after program none one_place (λ li. 0) [] (main_at 10 ∷ []) >>= λ q.
    ok q.0)
    ≡ (fresh_scores anders after program none one_place (λ li. 0) (main_at 10 ∷ []) >>= best_frame)
choose_frame-fresh_scores_example =
    choose_frame-fresh_scores anders after program none one_place (λ li. 0) [] (main_at 10 ∷ [])
      (λ a b h e. refl) empty-Agrees

-- A module with one function is dead as a whole.
abbrev alone : Module → Function → Bool
alone m f = elim m [ [] ↦ false | g ∷ gs ↦ true ]

run_on_module-NoneDead_example :
    let r = run_on_module alone program in
    NoneDead alone r.0 r.0 × ((r.1 ≡ false) ↔ (length r.0 ≡ length program))
run_on_module-NoneDead_example = run_on_module-NoneDead alone program

get_points_to_set-points_to_set_example :
    let r = get_points_to_set anders [] (value 1) in
    (r.0 ≡ points_to_set anders (value 1)) × Agrees anders r.1
get_points_to_set-points_to_set_example =
    get_points_to_set-points_to_set anders [] (value 1) by_addr nothing_cached
