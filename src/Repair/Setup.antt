-- ===== src/Repair/Setup.antt =====
-- src/BugFixer.cpp: the constructor of `BugFixer`: the immutable functions, the choice of the alias
-- analysis, and what is known of persistent memory from the events of the trace. The map of values to
-- those of a copy of the module is an argument.
use hippocrates.Base.{
  Bool, true, false, not, ◌&&◌, ◌||◌, ◌≡◌, ◌↔◌, ◌⊎◌, arith, Option, none, some, List, [], ◌∷◌, ◌++◌,
  if◌then◌else◌, Text, codes, occurs_in, Outcome, ok, aborted, ◌>>=◌,
}
use hippocrates.Ir.{Module, Value}
use hippocrates.Raise.{Mapper}
use hippocrates.PmDesc.{Anders, PmDesc, add_known_pm_value}
use hippocrates.Trace.{TraceEvent}
use hippocrates.Trace.Values.{pm_values}
use hippocrates.Repair.{add_immutable_functions}

-- `addImmutableModule`: a function without debug information is immutable, and one whose file is of
-- the library stops the pass. The file of a function is what its metadata says.
unfoldable pub add_immutable_module :
    (Text → Option Text) → Text → Module → List Text → Outcome (List Text)
add_immutable_module file_of lib [] immutable = ok immutable
add_immutable_module file_of lib (f ∷ fs) immutable = elim (file_of f.name) [
  | none ↦ add_immutable_module file_of lib fs (immutable ++ f.name ∷ [])
  | some file ↦
      let rest = add_immutable_module file_of lib fs immutable in
      if occurs_in lib file then aborted else rest
]

-- The names that the constructor begins with.
unfoldable pub immutable_at_start : (Text → Option Text) → Module → Outcome (List Text)
immutable_at_start file_of m =
    add_immutable_module file_of (codes "libc.so") m
      (add_immutable_functions m [] (codes "memset_mov_sse2_empty" ∷ []))

-- The value that the analysis knows for one of the module: the value itself, or its copy.
abbrev pub remapped : Option (Value → Option Value) → Value → Outcome Value
remapped none v = ok v
remapped (some f) v = elim (f v) [ none ↦ aborted | some w ↦ ok w ]

module _ (anders : Anders) (aa_map : Option (Value → Option Value)) where
  unfoldable pub add_values : PmDesc → List Value → Outcome PmDesc
  add_values d [] = ok d
  add_values d (v ∷ vs) = do
    w ← remapped aa_map v
    d' ← add_known_pm_value anders d w
    add_values d' vs

  unfoldable pub add_events : Module → Mapper → PmDesc → List TraceEvent → Outcome PmDesc
  add_events m mapper d [] = ok d
  add_events m mapper d (te ∷ tes) = do
    vs ← pm_values m mapper te
    d' ← add_values d vs
    add_events m mapper d' tes

  -- `new PmDesc`, and the values of all events.
  unfoldable pub known_at_start : Module → Mapper → List TraceEvent → Outcome PmDesc
  known_at_start m mapper tes = add_events m mapper (record { locals = []; globals = [] }) tes

-- The options that choose an analysis.
pub record Options : Type 0 where
  pub heuristic_raising : Bool
  pub trace_alias : Bool
  pub reduced_alias : Bool
  pub mmap_aa : Bool

pub data Analysis : Type 0 where
  no_analysis run_trace_aa run_reduced_alloc_aa whole_module : Analysis

abbrev pub xor : Bool → Bool → Bool
xor true b = not b
xor false b = b

-- What the constructor runs. The assertion is of the exclusive or of three, which also holds of three
-- options that are all set.
unfoldable pub choose_analysis : Options → Outcome Analysis
choose_analysis o =
    if not o.heuristic_raising
    then ok no_analysis
    else if (o.trace_alias || (o.reduced_alias || o.mmap_aa))
        && not (xor (xor o.trace_alias o.reduced_alias) o.mmap_aa)
    then aborted
    else if o.trace_alias
    then ok run_trace_aa
    else if o.reduced_alias
    then ok run_reduced_alloc_aa
    else ok whole_module

-- It stops exactly if two of the options are set.
pub choose_analysis-aborted :
    (o : Options)
    → o.heuristic_raising ≡ true
    → (choose_analysis o ≡ aborted) ↔ (
        ((o.trace_alias ≡ true) × (o.reduced_alias ≡ true) × (o.mmap_aa ≡ false))
        ⊎ (((o.trace_alias ≡ true) × (o.reduced_alias ≡ false) × (o.mmap_aa ≡ true))
            ⊎ ((o.trace_alias ≡ false) × (o.reduced_alias ≡ true) × (o.mmap_aa ≡ true))))
unfolding choose_analysis
choose_analysis-aborted o h = ground (arith, h)
