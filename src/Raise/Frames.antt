-- ===== src/Raise/Frames.antt =====
-- src/BugFixer.cpp: the frame that `BugFixer::raiseFixLocation` ends at.
use hippocrates.Base.{
  ℕ, ◌+◌, ◌≡◌, refl, sym, ◌∙◌, ap, inl, inr, Bool, true, false, not, none, some, List, [], ◌∷◌,
  ◌++◌, length, is_empty, ltb, if◌then◌else◌, ◌==◌, Text, Outcome, ok, ◌>>=◌, arith, All,
  Bool-cases, Option-cases, Outcome-cases, ok_injective,
}
use hippocrates.Location.{LocationInfo}
use hippocrates.Ir.{Module}
use hippocrates.FixLoc.{FixLoc}
use hippocrates.Fix.{FixDesc, fix_desc}
use hippocrates.Fix.Map.{FixMap}
use hippocrates.Fix.Merge.{add_fix_to_mapping}
use hippocrates.Raise.{
  Mapper, at, function_of, name_in, front_of, Climb, look, climb, drop_frames, raised_type, settle,
  raise_fix_location,
}

module _ (m : Module) (mapper : Mapper) (immutable : List Text) where
  -- A frame whose first location is this one, in a function that is immutable or not.
  pub record Front (li : LocationInfo) (loc : FixLoc) (fixed : Bool) : Type 0 where
    pub locs : List FixLoc
    pub name : Text
    pub mapped : mapper li ≡ some locs
    pub first : front_of m locs ≡ ok loc
    pub stands : function_of m loc.last ≡ ok name
    pub decided : name_in name immutable ≡ fixed

  -- A frame with no location, or in an immutable function.
  pub data Passed (li : LocationInfo) : Type 0 where
    unmapped : mapper li ≡ none → Passed li
    frozen : (loc : FixLoc) → Front li loc true → Passed li

  -- Where the climb ends: at the first frame in a mutable function, or past the last frame.
  pub data Landing (lis : List LocationInfo) (c c' : Climb) : Type 0 where
    found :
        (before : List LocationInfo) (li : LocationInfo) (rest : List LocationInfo) (loc : FixLoc)
        → lis ≡ before ++ li ∷ rest
        → All Passed before
        → Front li loc false
        → c'.idx ≡ c.idx + length before
        → c'.curr ≡ some loc
        → Landing lis c c'
    past : All Passed lis → c'.idx ≡ c.idx + length lis → Landing lis c c'

  -- One look: the frame is passed and the index is one up, or the loop ends at it.
  pub data Looked (li : LocationInfo) (c c' : Climb) (more : Bool) : Type 0 where
    passes : Passed li → c'.idx ≡ c.idx + 1 → more ≡ true → Looked li c c' more
    stops :
        (loc : FixLoc)
        → Front li loc false
        → c'.idx ≡ c.idx
        → c'.curr ≡ some loc
        → more ≡ false
        → Looked li c c' more

  landed :
      (li : LocationInfo) (lis : List LocationInfo) (c c' c'' : Climb)
      → Passed li
      → c'.idx ≡ c.idx + 1
      → Landing lis c' c''
      → Landing (li ∷ lis) c c''
  landed li lis c c' c'' p e (found before l rest loc split all front idx curr) =
      found (li ∷ before) l rest loc (ap (λ xs. li ∷ xs) split) (p, all) front (omega arith) curr
  landed li lis c c' c'' p e (past all idx) = past (p, all) (omega arith)

  -- What a look at a mapped frame does.
  look_mapped :
      (has_start : Bool) (li : LocationInfo) (c : Climb) (locs : List FixLoc)
      → mapper li ≡ some locs
      → look m mapper immutable has_start li c ≡ (
          front_of m locs >>= λ curr. function_of m curr.last >>= λ f. ok (
            if name_in f immutable
            then (record { idx = c.idx + 1; raised = true; curr = some curr }, true)
            else (record c { curr = some curr }, false)))
  unfolding look
  look_mapped true li c locs mapped = rw (at, mapped) refl
  look_mapped false li c locs mapped = rw (at, mapped) refl

  look_front :
      (has_start : Bool) (li : LocationInfo) (c c' : Climb) (more : Bool) (locs : List FixLoc)
      → mapper li ≡ some locs
      → look m mapper immutable has_start li c ≡ ok (c', more)
      → Looked li c c' more
  look_front has_start li c c' more locs mapped ran =
      let run = sym (look_mapped has_start li c locs mapped) ∙ ran in
      elim (Outcome-cases (front_of m locs)) [
        | inl e ↦ ground (arith, run, e)
        | inr (loc, first) ↦ elim (Outcome-cases (function_of m loc.last)) [
          | inl e ↦ ground (arith, run, first, e)
          | inr (name, stands) ↦ elim (Bool-cases (name_in name immutable)) [
            | inl frz ↦
                passes
                  (frozen loc (record {
                    locs = locs;
                    name = name;
                    mapped = mapped;
                    first = first;
                    stands = stands;
                    decided = frz;
                  }))
                  (ground arith) (ground arith)
            | inr free ↦
                stops loc
                  (record {
                    locs = locs;
                    name = name;
                    mapped = mapped;
                    first = first;
                    stands = stands;
                    decided = free;
                  })
                  (ground arith) (ground arith) (ground arith)
          ]
        ]
      ]

  look_unmapped :
      (has_start : Bool) (li : LocationInfo) (c c' : Climb) (more : Bool)
      → mapper li ≡ none
      → look m mapper immutable has_start li c ≡ ok (c', more)
      → Looked li c c' more
  unfolding look
  look_unmapped true li c c' more unmap ran = ground (arith, rw (at, unmap) at ran)
  look_unmapped false li c c' more unmap ran =
      passes (unmapped unmap) (ground (arith, rw (unmap) at ran))
        (ground (arith, rw (unmap) at ran))

  look_lem :
      (has_start : Bool) (li : LocationInfo) (c c' : Climb) (more : Bool)
      → look m mapper immutable has_start li c ≡ ok (c', more)
      → Looked li c c' more
  look_lem has_start li c c' more ran = elim (Option-cases (mapper li)) [
    | inl e ↦ look_unmapped has_start li c c' more e ran
    | inr (locs, e) ↦ look_front has_start li c c' more locs e ran
  ]

  climb-Landing :
      (has_start : Bool) (lis : List LocationInfo) (c c' : Climb)
      → climb m mapper immutable has_start lis c ≡ ok c'
      → Landing lis c c'
  unfolding climb
  climb-Landing has_start [] c c' ran = past tt (ground arith)
  climb-Landing has_start (li ∷ lis) c c' ran =
      elim (Outcome-cases (look m mapper immutable has_start li c)) [
        | inl e ↦ ground (arith, rw (e, climb) at ran)
        | inr ((c1, more), e) ↦ elim (look_lem has_start li c c1 more e) [
          | passes p idx go ↦
              landed li lis c c1 c' p idx
                (climb-Landing has_start lis c1 c' (rw (e, climb, go) at ran))
          | stops loc front idx curr go ↦
              (let same = ok_injective (rw (e, climb, go) at ran) in
                found [] li lis loc refl tt front (ground arith) (ground arith))
        ]
      ]

  settled :
      (fixes fixes' : FixMap) (desc : FixDesc) (c : Climb)
      → settle m fixes desc c ≡ ok (fixes', true)
      → (loc : FixLoc) × (c.curr ≡ some loc)
        × (add_fix_to_mapping m fixes loc (fix_desc (raised_type desc.type) desc.dyn_stack c.idx)
            ≡ ok (fixes', true))
  unfolding settle
  settled fixes fixes' desc c ran = elim (Bool-cases c.raised) [
    | inl up ↦ elim (Option-cases c.curr) [
      | inl e ↦ ground (arith, rw (settle, up, e) at ran)
      | inr (loc, e) ↦ (loc, e, rw (settle, up, e) at ran)
    ]
    | inr e ↦ ground (arith, rw (settle, e) at ran)
  ]

  -- Where a fix is raised and is new in the map, it was added at the first frame, counted from the
  -- one that the heuristic gives, that has a location and stands in a mutable function, with the
  -- index of that frame. Only if there is no such frame is the index past the end of the stack.
  pub raise-Landing :
      (heuristic : List LocationInfo → Outcome ℕ) (fixes fixes' : FixMap) (fl : FixLoc)
      (desc : FixDesc)
      → raise_fix_location m mapper immutable heuristic fixes fl desc ≡ ok (fixes', true)
      → (start : ℕ) × (loc : FixLoc) × (c : Climb) × (heuristic desc.dyn_stack ≡ ok start)
        × (c.curr ≡ some loc)
        × (add_fix_to_mapping m fixes loc (fix_desc (raised_type desc.type) desc.dyn_stack c.idx)
            ≡ ok (fixes', true))
        × Landing
            (drop_frames start desc.dyn_stack)
            (record { idx = start; raised = ltb 0 start; curr = none })
            c
  unfolding raise_fix_location
  raise-Landing heuristic fixes fixes' fl desc ran = elim (Bool-cases (is_empty desc.dyn_stack)) [
    | inl e ↦ ground (arith, rw (raise_fix_location, e) at ran)
    | inr some_frame ↦ elim (Outcome-cases (heuristic desc.dyn_stack)) [
      | inl e ↦ ground (arith, rw (raise_fix_location, some_frame, e) at ran)
      | inr (start, e) ↦
          elim (Outcome-cases (
            climb m mapper immutable (not (fl.last == 0)) (drop_frames start desc.dyn_stack)
              (record { idx = start; raised = ltb 0 start; curr = none }))) [
                | inl stuck ↦ ground (arith, rw (raise_fix_location, some_frame, e, stuck) at ran)
                | inr (c, up) ↦
                    let (loc, curr, added) =
                      settled fixes fixes' desc c
                        (rw (raise_fix_location, some_frame, e, up) at ran) in
                    (start, loc, c, e, curr, added, climb-Landing _ _ _ c up)
              ]
    ]
  ]
