-- ===== src/Raise/Heuristic/Pick.antt =====
-- The scores of the frames and the frame with the best one (src/BugFixer.cpp,
-- `BugFixer::raiseFixLocation`).
use hippocrates.Base.{
  ℕ, ◌+◌, ◌-◌, ◌^◌, ◌%◌, Bool, true, false, not, ◌&&◌, Option, none, some, List, [], ◌∷◌, length,
  is_empty, ltb, if◌then◌else◌, Outcome, ok, aborted, ◌>>=◌, ℤ, pos, negsuc, int_eq, int_lt,
}
use hippocrates.Location.{LocationInfo}
use hippocrates.Ir.{Module, Inst}
use hippocrates.PmDesc.{Anders, PmDesc}
use hippocrates.Raise.{Mapper, is_some}
use hippocrates.Raise.Heuristic.{Aliases, AliasCache, frame_aliases}

-- `INT64_MIN` is the score of a frame without a location, and `NO_ALIASES` is one above it.
abbrev pub int64_min : ℤ
int64_min = negsuc (2 ^ 63 - 1)

abbrev pub no_aliases_score : ℤ
no_aliases_score = negsuc (2 ^ 63 - 2)

-- A `size_t` that is read as an `int64_t`.
abbrev pub to_int64 : ℕ → ℤ
to_int64 n = if ltb n (2 ^ 63) then pos n else negsuc (2 ^ 64 - 1 - n)

-- `pmAlias.size() - volAlias.size()`, modulo 2 ^ 64.
unfoldable pub score : Aliases → ℤ
score a =
    if is_empty a.persistent && is_empty a.volatile
    then no_aliases_score
    else to_int64 ((length a.persistent + (2 ^ 64 - length a.volatile)) % 2 ^ 64)

module _ (anders : Anders) (pm : PmDesc) (m : Module) (vmap : Option (ℕ → Option Inst))
    (mapper : Mapper) (hash_of : LocationInfo → ℕ) where
  -- The first loop, over the stack.
  unfoldable pub scores_of : AliasCache → List LocationInfo → Outcome (List ℤ × AliasCache)
  scores_of c [] = ok ([], c)
  scores_of c (li ∷ lis) =
      if not (is_some (mapper li)) then (do r ← scores_of c lis; ok (int64_min ∷ r.0, r.1)) else (do
        a ← frame_aliases anders pm m vmap mapper hash_of c li
        r ← scores_of a.1 lis
        ok (score a.0 ∷ r.0, r.1))

-- The second loop; `none` is the index -1.
unfoldable pub pick : ℕ → List ℤ → Option ℕ → ℤ → Option ℕ
pick l [] max_idx max_score = max_idx
pick l (s ∷ ss) max_idx max_score =
    if int_eq s no_aliases_score then max_idx else elim (int_lt max_score s) [
      | true ↦ pick (l + 1) ss (some l) s
      | false ↦ pick (l + 1) ss max_idx max_score
    ]

unfoldable pub best_frame : List ℤ → Outcome ℕ
best_frame scores = elim (pick 0 scores none int64_min) [ none ↦ aborted | some i ↦ ok i ]

-- The start of the climb; without heuristics it is the innermost frame.
unfoldable pub choose_frame :
    Bool
    → Anders
    → PmDesc
    → Module
    → Option (ℕ → Option Inst)
    → Mapper
    → (LocationInfo → ℕ)
    → AliasCache
    → List LocationInfo
    → Outcome (ℕ × AliasCache)
choose_frame enable anders pm m vmap mapper hash_of c stack =
    if not enable
    then ok (0, c)
    else (do r ← scores_of anders pm m vmap mapper hash_of c stack; i ← best_frame r.0; ok (i, r.1))
