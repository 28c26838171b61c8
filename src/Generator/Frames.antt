-- ===== src/Generator/Frames.antt =====
-- src/FixGenerator.cpp: what `insertPersistentSubProgram` keeps of the program, frame by frame.
use hippocrates.Generator.SubProgram.{set_callee, redirect_insts, redirect_locs}
use hippocrates.Base.{
  ℕ, ◌≡◌, refl, sym, ◌∙◌, ap, subst, ◌⊎◌, inl, inr, false, Option, none, some, List, [], ◌∷◌, Text,
  text_eq, text_eq_iff, ok, arith, Bool-cases, ok_injective, went_on,
}
use hippocrates.Ir.{
  Inst, Op, FnInfo, Callee, inline_asm, indirect, store, cmp_xchg, ptr_to_int, ret, branch, switch,
  call, direct, cast, other,
}
use hippocrates.FixLoc.{FixLoc, insts}
use hippocrates.Generator.{Program}
use hippocrates.Generator.Behind.{Member, In}
use hippocrates.Generator.Members.{insts-In}
use hippocrates.Generator.Insert.{
  lasting, is_reserved, reserved_name, Valid, Grows, Grows-refl, Grows-trans,
}
use hippocrates.Generator.Calls.{set_callee-Grows}
use hippocrates.Generator.Raises.{free-is_reserved}
use hippocrates.Generator.SubProgram.{callee, set_callee, redirect_insts, redirect_locs}

-- A call that no flush and no fence is, and all others with its address, may get another callee.
pub callee-Grows :
    (s t : Program) (i : Inst) (g : FnInfo)
    → Valid s
    → Grows s t
    → In i s.m
    → lasting i.op ≡ false
    → is_reserved g ≡ false
    → Grows t (set_callee i.id g t)
callee-Grows s t i g valid grows there free r = set_callee-Grows t i.id g grows.valid r (λ j h e.
    elim (Bool-cases (lasting j.op)) [
      | inr no_flush ↦ no_flush
      | inl l ↦
          let (k, old, ids, same) = grows.lasted j (omega (arith, valid.low i there, e)) h l in
          let op : k.op ≡ i.op = valid.one_op k i old there (ids ∙ e) in
          ap lasting (sym same ∙ op) ∙ free
    ])

pub Callee-cases :
    (o : Option Callee)
    → (o ≡ none)
      ⊎ (((f : FnInfo) × (o ≡ some (direct f)))
          ⊎ (((a : Text) × (o ≡ some (inline_asm a))) ⊎ (o ≡ some indirect)))
Callee-cases none = inl refl
Callee-cases (some (direct f)) = inr (inl (f, refl))
Callee-cases (some (inline_asm a)) = inr (inr (inl (a, refl)))
Callee-cases (some indirect) = inr (inr (inr refl))

pub callee-lasting :
    (op : Op) (f : FnInfo) → callee op ≡ some (direct f) → lasting op ≡ is_reserved f
callee-lasting (call (direct g) args) f e = ground (arith, e)
callee-lasting (call (inline_asm a) args) f e = ground (arith, e)
callee-lasting (call indirect args) f e = ground (arith, e)
callee-lasting (store v p) f e = ground (arith, e)
callee-lasting (cmp_xchg p c v) f e = ground (arith, e)
callee-lasting (ptr_to_int p) f e = ground (arith, e)
callee-lasting (cast v) f e = ground (arith, e)
callee-lasting (ret v) f e = ground (arith, e)
callee-lasting (branch v) f e = ground (arith, e)
callee-lasting (switch v) f e = ground (arith, e)
callee-lasting other f e = ground (arith, e)

abbrev Calls : List Inst → Program → Type 0
Calls is s = (i : Inst) → Member i is → In i s.m

module _ (name : Text) (g : FnInfo) (no_flush_name : reserved_name name ≡ false)
    (free : is_reserved g ≡ false) where
  redirect_insts-Grows :
      (is : List Inst) (last r : Option ℕ) (s t u : Program)
      → Valid s
      → Grows s t
      → Calls is s
      → redirect_insts name g is last t ≡ ok (r, u)
      → Grows t u
  unfolding redirect_insts
  redirect_insts-Grows [] last r s t u valid grows calls ran =
      let same : (last, t) ≡ (r, u) = ok_injective ran in
      subst (λ (q : Option ℕ × Program). Grows t q.1) same (Grows-refl t grows.valid)
  redirect_insts-Grows (i ∷ is) last r s t u valid grows calls ran =
      let rest : Calls is s = λ j h. calls j (inr h) in
      elim (Callee-cases (callee i.op)) [
        | inl e ↦
            redirect_insts-Grows is last r s t u valid grows rest (rw (redirect_insts, e) at ran)
        | inr (inr stop) ↦ elim stop [
          | inl (a, e) ↦ ground (arith, rw (redirect_insts, e) at ran)
          | inr e ↦ ground (arith, rw (redirect_insts, e) at ran)
        ]
        | inr (inl (f, e)) ↦ elim (Bool-cases (text_eq f.name name)) [
          | inr no_match ↦
              redirect_insts-Grows is last r s t u valid grows rest
                (rw (redirect_insts, e, no_match) at ran)
          | inl match ↦
              let names : f.name ≡ name = (text_eq_iff f.name name).0 match in
              let no_flush =
                callee-lasting i.op f e
                ∙ free-is_reserved f (ap reserved_name names ∙ no_flush_name) in
              let step = callee-Grows s t i g valid grows (calls i (inl refl)) no_flush free in
              Grows-trans t (set_callee i.id g t) u step (
                redirect_insts-Grows is (some i.id) r s (set_callee i.id g t) u valid
                  (Grows-trans s t (set_callee i.id g t) grows step) rest
                  (rw (redirect_insts, e, match) at ran))
        ]
      ]

  pub redirect_locs-Grows :
      (ls : List FixLoc) (last r : Option ℕ) (s t : Program)
      → Valid s
      → redirect_locs name g ls last s ≡ ok (r, t)
      → Grows s t
  unfolding redirect_locs
  redirect_locs-Grows [] last r s t valid ran =
      let same : (last, s) ≡ (r, t) = ok_injective ran in
      subst (λ (q : Option ℕ × Program). Grows s q.1) same (Grows-refl s valid)
  redirect_locs-Grows (l ∷ ls) last r s t valid ran =
      let (is, e, ran1) = went_on (insts s.m l) _ (r, t) ran in
      let (q, e', ran2) = went_on (redirect_insts name g is last s) _ (r, t) ran1 in
      let grows =
        redirect_insts-Grows is last q.0 s s q.1 valid (Grows-refl s valid)
          (λ i h. insts-In s.m l is i e h) e' in
      Grows-trans s q.1 t grows (redirect_locs-Grows ls q.0 r q.1 t grows.valid ran2)
