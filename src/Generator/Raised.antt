-- ===== src/Generator/Raised.antt =====
-- src/FixGenerator.cpp: `insertPersistentSubProgram` keeps the flushes and the fences of the program.
use hippocrates.Base.{
  ℕ, zero, suc, ◌+◌, ltb, ◌≡◌, subst, inl, inr, Bool, true, false, not, Option, none, some, List,
  ◌++◌, is_empty, Text, codes, ok, assert, arith, Bool-cases, Option-cases, ok_injective, went_on,
}
use hippocrates.Location.{LocationInfo}
use hippocrates.Ir.{Module, Function, Block, FnInfo, parent}
use hippocrates.FixLoc.{FixLoc, insts}
use hippocrates.Raise.{Mapper, at, front_of}
use hippocrates.Generator.{Program}
use hippocrates.Generator.Present.{parent-Stands}
use hippocrates.Generator.Members.{insts-In}
use hippocrates.Generator.Insert.{is_reserved, Valid, Grows, Grows-refl, Grows-trans}
use hippocrates.Generator.Copies.{copy-Grows}
use hippocrates.Generator.Names.{Unique, copy-reserved_name, body-reserved_name}
use hippocrates.Generator.Ranges.{insert_fence-FenceBehind}
use hippocrates.Generator.Raises.{free-is_reserved, make_all_stores_persistent-Grows}
use hippocrates.Generator.Frames.{redirect_locs-Grows}
use hippocrates.Generator.Clone.{Settings, duplicate_function, make_all_stores_persistent}
use hippocrates.Generator.SubProgram.{
  calls_of, only, fence_call, at_inst, replace_unknown, persistent_copy, raise_frame, raise_frames,
  frame_at, insert_persistent_sub_program,
}
use hippocrates.Generator.Replacements.{calls_of-Member, only-Member, replace_callee-Grows}

fence_call-Grows :
    (b : Bool) (ret r : Option ℕ) (s t : Program)
    → Valid s
    → fence_call b ret s ≡ ok (r, t)
    → Grows s t
unfolding fence_call
fence_call-Grows false ret r s t valid ran =
    let same : (ret, s) ≡ (r, t) = ok_injective ran in
    subst (λ (q : Option ℕ × Program). Grows s q.1) same (Grows-refl s valid)
fence_call-Grows true none r s t valid ran = ground (arith, ran)
fence_call-Grows true (some p) r s t valid ran =
    let (q, e, end) = went_on _ _ (r, t) ran in
    let same : (some p, q.1) ≡ (r, t) = ok_injective end in
    subst (λ (q : Option ℕ × Program). Grows s q.1) same
      (insert_fence-FenceBehind (at_inst p) s q.1 q.0 valid e).0

module _ (c : Settings) (demangle : Text → Text) (unique : Module → Text → Text) (mapper : Mapper)
    (naming : Unique unique) where
  replace_unknown-Grows :
      (li : LocationInfo) (ret r : Option ℕ) (s t : Program)
      → Valid s
      → replace_unknown c demangle unique mapper li ret s ≡ ok (r, t)
      → Grows s t
  unfolding replace_unknown
  replace_unknown-Grows li ret r s t valid ran =
      let (locs, e1, ran1) = went_on (at mapper li) _ (r, t) ran in
      let (loc, e2, ran2) = went_on (only locs) _ (r, t) ran1 in
      let (is, e3, ran3) = went_on (insts s.m loc) _ (r, t) ran2 in
      let (i, e4, ran4) = went_on (only (calls_of is)) _ (r, t) ran3 in
      let there =
        insts-In s.m loc is i e3 (calls_of-Member i is (only-Member i (calls_of is) e4)) in
      replace_callee-Grows demangle i ret r s t valid there ran4

  persistent_copy-Grows :
      (b : Bool) (p : ℕ) (f : Function) (k : Block) (s t : Program) (g : FnInfo)
      → Valid s
      → parent s.m p ≡ some (f, k)
      → persistent_copy c demangle unique mapper b f s ≡ ok (g, t)
      → Grows s t × (is_reserved g ≡ false)
  unfolding persistent_copy duplicate_function
  persistent_copy-Grows false p f k s t g valid there ran =
      let same : (f.info, s) ≡ (g, t) = ok_injective ran in
      let at = parent-Stands p s.m f k there in
      subst (λ (q : FnInfo × Program). Grows s q.1 × (is_reserved q.0 ≡ false)) same
        (
          Grows-refl s valid,
          free-is_reserved f.info (body-reserved_name s.m f k valid.bodiless at.function at.block),
        )
  persistent_copy-Grows true p f k s t g valid there ran =
      let name = unique s.m (f.name ++ codes "_NT") in
      let free = copy-reserved_name unique s.m f naming in
      let d : FnInfo × Program = duplicate_function unique f s in
      let (u, e, end) =
        went_on (make_all_stores_persistent c f s.next d.1) (λ u. ok (d.0, u)) (g, t) ran in
      let at = parent-Stands p s.m f k there in
      let grows = copy-Grows s f name valid at.function free in
      let more = make_all_stores_persistent-Grows c f s.next d.1 u grows.valid e in
      let same : (d.0, u) ≡ (g, t) = ok_injective end in
      subst (λ (q : FnInfo × Program). Grows s q.1 × (is_reserved q.0 ≡ false)) same
        (Grows-trans s d.1 u grows more, free-is_reserved d.0 free)

  raise_frame-Grows :
      (b : Bool) (locs : List FixLoc) (caller : LocationInfo) (ret r : Option ℕ) (s t : Program)
      → Valid s
      → raise_frame c demangle unique mapper b locs caller ret s ≡ ok (r, t)
      → Grows s t
  unfolding raise_frame
  raise_frame-Grows b locs caller ret r s t valid ran =
      let (loc, e1, ran1) = went_on (front_of s.m locs) _ (r, t) ran in
      elim (Option-cases (parent s.m loc.last)) [
        | inl e ↦ ground (arith, rw (e) at ran1)
        | inr ((f, k), e) ↦
            let (d, e2, ran2) =
              went_on (persistent_copy c demangle unique mapper b f s) _ (r, t) (rw (e) at ran1) in
            let (next, e3, ran3) = went_on (at mapper caller) _ (r, t) ran2 in
            let (u, e4, ran4) = went_on (assert (not (is_empty next))) _ (r, t) ran3 in
            let (grows, free) = persistent_copy-Grows b loc.last f k s d.1 d.0 valid e e2 in
            let at = parent-Stands loc.last s.m f k e in
            let named = body-reserved_name s.m f k valid.bodiless at.function at.block in
            Grows-trans s d.1 t grows
              (redirect_locs-Grows f.name d.0 named free next ret r d.1 t grows.valid ran4)
      ]

  -- The program is one of the loop, wherever it ends.
  raise_frames-Grows :
      (b : Bool) (stack : List LocationInfo) (n i : ℕ) (ret : Option ℕ) (r : Option (Option ℕ))
      (s t : Program)
      → Valid s
      → raise_frames c demangle unique mapper b stack n i ret s ≡ ok (r, t)
      → Grows s t
  unfolding raise_frames
  raise_frames-Grows b stack zero i ret r s t valid ran =
      let same : (some ret, s) ≡ (r, t) = ok_injective ran in
      subst (λ (q : Option (Option ℕ) × Program). Grows s q.1) same (Grows-refl s valid)
  raise_frames-Grows b stack (suc n) i ret r s t valid ran =
      let (li, e1, ran1) = went_on (frame_at stack i) _ (r, t) ran in
      elim (Option-cases (mapper li)) [
        | inl e ↦ elim (Bool-cases (ltb 0 i)) [
          | inl inner ↦
              let same : (none, s) ≡ (r, t) = ok_injective (rw (e, inner) at ran1) in
              subst (λ (q : Option (Option ℕ) × Program). Grows s q.1) same (Grows-refl s valid)
          | inr first ↦
              let (caller, e2, ran2) =
                went_on (frame_at stack (i + 1)) _ (r, t) (rw (e, first) at ran1) in
              let (q, e3, ran3) =
                went_on (replace_unknown c demangle unique mapper caller ret s) _ (r, t) ran2 in
              let grows = replace_unknown-Grows caller ret q.0 s q.1 valid e3 in
              Grows-trans s q.1 t grows
                (raise_frames-Grows b stack n (i + 1) q.0 r q.1 t grows.valid ran3)
        ]
        | inr (locs, e) ↦
            let (caller, e2, ran2) = went_on (frame_at stack (i + 1)) _ (r, t) (rw (e) at ran1) in
            let (q, e3, ran3) =
              went_on (raise_frame c demangle unique mapper b locs caller ret s) _ (r, t) ran2 in
            let grows = raise_frame-Grows b locs caller ret q.0 s q.1 valid e3 in
            Grows-trans s q.1 t grows
              (raise_frames-Grows b stack n (i + 1) q.0 r q.1 t grows.valid ran3)
      ]

  pub insert_persistent_sub_program-Grows :
      (fl : FixLoc) (stack : List LocationInfo) (n : ℕ) (b add_fence : Bool) (r : Option ℕ)
      (s t : Program)
      → Valid s
      → insert_persistent_sub_program c demangle unique mapper fl stack n b add_fence s ≡ ok (r, t)
      → Grows s t
  unfolding insert_persistent_sub_program
  insert_persistent_sub_program-Grows fl stack n b add_fence r s t valid ran =
      let (q, e, ran1) =
        went_on (raise_frames c demangle unique mapper b stack n 0 none s) _ (r, t) ran in
      let grows = raise_frames-Grows b stack n 0 none q.0 s q.1 valid e in
      elim (Option-cases q.0) [
        | inl stop ↦
            let same : (none, q.1) ≡ (r, t) = ok_injective (rw (stop) at ran1) in
            subst (λ (p : Option ℕ × Program). Grows s p.1) same grows
        | inr (ret, went) ↦
            Grows-trans s q.1 t grows
              (fence_call-Grows add_fence ret r q.1 t grows.valid (rw (went) at ran1))
      ]
