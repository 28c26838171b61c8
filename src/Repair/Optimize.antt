-- ===== src/Repair/Optimize.antt =====
-- src/BugFixer.cpp: `BugFixer::runFixMapOptimization`.
use hippocrates.Base.{
  Bool, true, false, not, ◌||◌, Option, none, some, List, [], ◌∷◌, ◌++◌, map, if◌then◌else◌,
  Outcome, ok, aborted, assert, ◌>>=◌, ◌>>◌,
}
use hippocrates.FixLoc.{FixLoc}
use hippocrates.Fix.{FixDesc}
use hippocrates.Fix.Map.{FixMap, lookup, erase}
use hippocrates.Fix.Merge.{is_primative}

abbrev pub is_some {ℓ} : {A : Type ℓ} → Option A → Bool
is_some none = false
is_some (some a) = true

-- `raiseFixLocation`, as the loop calls it.
abbrev pub Raiser : Type 0
Raiser = FixMap → FixLoc → FixDesc → Outcome (FixMap × Bool)

-- The locations that were moved, and whether one was.
pub record Moves : Type 0 where
  pub fixes : FixMap
  pub moved : List FixLoc
  pub res : Bool

module _ (raiser : Raiser) where
  -- One entry. Its fix is read when the loop comes to it, since raising can change it before.
  unfoldable pub move : FixLoc → FixDesc → Moves → Outcome Moves
  move fl desc s = if not (is_primative desc.type) then ok s else (do
    r ← raiser s.fixes fl desc
    ok (record {
      fixes = r.0;
      moved = if r.1 then s.moved ++ fl ∷ [] else s.moved;
      res = s.res || r.1;
    }))

  -- The loop over the keys. An entry that raising adds on the way has a raised type, which the loop
  -- passes over, so that the keys from before the loop are all that count.
  unfoldable pub move_all : List FixLoc → Moves → Outcome Moves
  move_all [] s = ok s
  move_all (fl ∷ fls) s = elim (lookup fl s.fixes) [
    | none ↦ aborted
    | some desc ↦ move fl desc s >>= λ s'. move_all fls s'
  ]

  -- `assert(fixMap_.erase(fl))`
  unfoldable pub erase_all : List FixLoc → FixMap → Outcome FixMap
  erase_all [] fixes = ok fixes
  erase_all (fl ∷ fls) fixes = do assert (is_some (lookup fl fixes)); erase_all fls (erase fl fixes)

  unfoldable pub run_fix_map_optimization : FixMap → Outcome (FixMap × Bool)
  run_fix_map_optimization fixes = do
    s ← move_all (map (λ e. e.0) fixes) (record { fixes = fixes; moved = []; res = false })
    fixes' ← erase_all s.moved s.fixes
    ok (fixes', s.res)
