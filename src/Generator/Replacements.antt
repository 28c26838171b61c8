-- ===== src/Generator/Replacements.antt =====
-- src/FixGenerator.cpp: the call that gets the persistent version of what it calls, in
-- `insertPersistentSubProgram`.
use hippocrates.Base.{
  ℕ, ◌≡◌, refl, ◌∙◌, subst, ◌⊎◌, inl, inr, false, Option, none, some, List, [], ◌∷◌, Text, codes,
  ok, ◌>>=◌, arith, Bool-cases, ok_injective, went_on,
}
use hippocrates.Ir.{
  Module, Inst, FnInfo, Intrinsic, not_intrinsic, memcpy, memset, memmove, dbg_declare, clwb,
  clflush, clflushopt, sfence, other_intrinsic,
}
use hippocrates.Generator.{Program}
use hippocrates.Generator.Behind.{Member, In}
use hippocrates.Generator.Insert.{lasting, is_reserved, Valid, Grows, Grows-refl}
use hippocrates.Generator.Raises.{persistent_version-free}
use hippocrates.Generator.Frames.{callee-Grows, callee-lasting, Callee-cases}
use hippocrates.Generator.Clone.{persistent_version}
use hippocrates.Generator.SubProgram.{
  callee, is_call, calls_of, only, replaced, replace_callee, replacement_for,
}

pub calls_of-Member : (i : Inst) (is : List Inst) → Member i (calls_of is) → Member i is
unfolding calls_of
calls_of-Member i [] h = h
calls_of-Member i (j ∷ is) h = elim (Bool-cases (is_call j.op)) [
  | inl e ↦
      let new : (j ≡ i) ⊎ Member i (calls_of is) = rw (calls_of, e) at h in
      elim new [ inl same ↦ inl same | inr there ↦ inr (calls_of-Member i is there) ]
  | inr e ↦ inr (calls_of-Member i is (rw (calls_of, e) at h))
]

pub only-Member : (i : Inst) (is : List Inst) → only is ≡ ok i → Member i is
only-Member i [] h = ground (arith, h)
only-Member i (j ∷ []) h = inl (ok_injective h)
only-Member i (j ∷ k ∷ is) h = ground (arith, h)

-- What is replaced is no flush and no fence, and neither is what it is replaced with.
abbrev pub Free : FnInfo → Option FnInfo → Type 0
Free f g = (is_reserved f ≡ false) × ((h : FnInfo) → g ≡ some h → is_reserved h ≡ false)

version-Free :
    (m : Module) (name : Text) (f : FnInfo) (g : Option FnInfo)
    → is_reserved f ≡ false
    → (persistent_version m name >>= λ h. ok (some h)) ≡ ok g
    → Free f g
version-Free m name f g free ran =
    let (h, e, end) = went_on (persistent_version m name) (λ h. ok (some h)) g ran in
    let same : some h ≡ g = ok_injective end in
    (free, λ k e'. ground (arith, persistent_version-free m name h e, same, e'))

replacement_for-Free :
    (k : Intrinsic) (demangle : Text → Text) (m : Module) (f : FnInfo) (g : Option FnInfo)
    → f.intrinsic ≡ k
    → replacement_for demangle m f ≡ ok g
    → Free f g
unfolding replacement_for is_reserved
replacement_for-Free memcpy demangle m f g e ran =
    version-Free m (codes "memcpy") f g (rw (e)) (rw (replacement_for, e) at ran)
replacement_for-Free memset demangle m f g e ran =
    version-Free m (codes "memset") f g (rw (e)) (rw (replacement_for, e) at ran)
replacement_for-Free memmove demangle m f g e ran =
    version-Free m (codes "memmove") f g (rw (e)) (rw (replacement_for, e) at ran)
replacement_for-Free not_intrinsic demangle m f g e ran = elim (Bool-cases f.declaration) [
  | inl d ↦ version-Free m (demangle f.name) f g (rw (e)) (rw (replacement_for, e, d) at ran)
  | inr d ↦
      let same : none ≡ g = ok_injective (rw (replacement_for, e, d) at ran) in
      (rw (e), λ h some_h. ground (arith, same, some_h))
]
replacement_for-Free dbg_declare demangle m f g e ran =
    ground (arith, rw (replacement_for, e) at ran)
replacement_for-Free clwb demangle m f g e ran = ground (arith, rw (replacement_for, e) at ran)
replacement_for-Free clflushopt demangle m f g e ran =
    ground (arith, rw (replacement_for, e) at ran)
replacement_for-Free clflush demangle m f g e ran = ground (arith, rw (replacement_for, e) at ran)
replacement_for-Free sfence demangle m f g e ran = ground (arith, rw (replacement_for, e) at ran)
replacement_for-Free other_intrinsic demangle m f g e ran =
    ground (arith, rw (replacement_for, e) at ran)

pub replace_callee-Grows :
    (demangle : Text → Text) (i : Inst) (ret r : Option ℕ) (s t : Program)
    → Valid s
    → In i s.m
    → replace_callee demangle i ret s ≡ ok (r, t)
    → Grows s t
unfolding replace_callee
replace_callee-Grows demangle i ret r s t valid there ran = elim (Callee-cases (callee i.op)) [
  | inl e ↦ ground (arith, rw (replace_callee, e) at ran)
  | inr (inr stop) ↦ elim stop [
    | inl (a, e) ↦ ground (arith, rw (replace_callee, e) at ran)
    | inr e ↦ ground (arith, rw (replace_callee, e) at ran)
  ]
  | inr (inl (f, e)) ↦
      let (g, e', end) =
        went_on (replacement_for demangle s.m f) (λ g. ok (replaced i.id g ret s)) (r, t)
          (rw (replace_callee, e) at ran) in
      let (old, new) = replacement_for-Free f.intrinsic demangle s.m f g refl e' in
      let same : replaced i.id g ret s ≡ (r, t) = ok_injective end in
      subst (λ (q : Option ℕ × Program). Grows s q.1) same
        (replaced-Grows g new (callee-lasting i.op f e ∙ old))
]
  where
    replaced-Grows :
        (g : Option FnInfo)
        → ((h : FnInfo) → g ≡ some h → is_reserved h ≡ false)
        → lasting i.op ≡ false
        → Grows s ((replaced i.id g ret s).1)
    replaced-Grows none new free = Grows-refl s valid
    replaced-Grows (some h) new free =
        callee-Grows s s i h valid (Grows-refl s valid) there free (new h refl)
