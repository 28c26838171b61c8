-- ===== src/Utils/Cleaner.antt =====
-- src/cleaner/FunctionCleaner.cpp: `FunctionCleaner::runOnModule`. Which functions are trivially dead,
-- given the functions that are left, is LLVM's to say and a parameter.
use Prim.Native.Nat.{◌-◌}
use hippocrates.Base.{
  ℕ, zero, suc, ◌+◌, ◌≤◌, ◌<◌, ◌≡◌, refl, sym, ap, subst, inl, inr, ◌↔◌, Bool, true, false, [], ◌∷◌,
  length, ltb, if◌then◌else◌, arith, All, Bool-cases,
}
use hippocrates.Ir.{Module, Function}

module _ (dead : Module → Function → Bool) where
  -- The functions that a round leaves; `whole` is the module at its start.
  unfoldable pub survivors : Module → Module → Module
  survivors whole [] = []
  survivors whole (f ∷ fs) = if dead whole f then survivors whole fs else f ∷ survivors whole fs

  -- The `do` loop, on fuel, and the number of the functions that it removed.
  unfoldable pub clean : ℕ → Module → ℕ → Module × ℕ
  clean zero m nremoved = (m, nremoved)
  clean (suc n) m nremoved =
      let left = survivors m m in
      let removed = length m - length left in
      elim (ltb 0 removed) [ true ↦ clean n left (nremoved + removed) | false ↦ (left, nremoved) ]

  -- Each round but the last removes a function, so that one more round than functions is enough.
  unfoldable pub run_on_module : Module → Module × Bool
  run_on_module m = let r = clean (length m + 1) m 0 in (r.0, ltb 0 r.1)

  length-survivors : (whole m : Module) → length (survivors whole m) ≤ length m
  unfolding survivors
  length-survivors whole [] = omega arith
  length-survivors whole (f ∷ fs) = ground (arith, length-survivors whole fs)

  abbrev pub NoneDead : Module → Module → Type 0
  NoneDead whole = All (λ f. dead whole f ≡ false)

  -- Nothing is removed: nothing is dead, and the module stays.
  survivors-all :
      (whole m : Module)
      → length m ≤ length (survivors whole m)
      → NoneDead whole m × (survivors whole m ≡ m)
  unfolding survivors
  survivors-all whole [] h = (tt, refl)
  survivors-all whole (f ∷ fs) h = elim (Bool-cases (dead whole f)) [
    | inl e ↦ absurd (ground (arith, rw (survivors, e) at h, length-survivors whole fs))
    | inr e ↦
        let (all, same) = survivors-all whole fs (ground (arith, rw (survivors, e) at h)) in
        ((e, all), rw (survivors, e) (ap (λ gs. f ∷ gs) same))
  ]

  clean-NoneDead :
      (n : ℕ) (m : Module) (k : ℕ)
      → length m < n
      → NoneDead (clean n m k).0 (clean n m k).0
        × ((clean n m k).1 + length (clean n m k).0 ≡ k + length m)
  unfolding clean
  clean-NoneDead zero m k h = absurd (omega arith)
  clean-NoneDead (suc n) m k h = elim (Bool-cases (ltb 0 (length m - length (survivors m m)))) [
    | inl e ↦
        rw (clean, e)
          (let few = length-survivors m m in
            let (all, sum) =
              clean-NoneDead n (survivors m m) (k + (length m - length (survivors m m)))
                (ground arith) in
            (all, ground arith))
    | inr e ↦
        rw (clean, e)
          (let (all, same) = survivors-all m m (ground arith) in
            subst (λ left. NoneDead left left × (k + length left ≡ k + length m)) (sym same)
              (all, refl))
  ]

  -- The pass leaves no function that is trivially dead, and says exactly when it removed one.
  pub run_on_module-NoneDead :
      (m : Module)
      → let r = run_on_module m in NoneDead r.0 r.0 × ((r.1 ≡ false) ↔ (length r.0 ≡ length m))
  unfolding run_on_module
  run_on_module-NoneDead m =
      let (all, sum) = clean-NoneDead (length m + 1) m 0 (omega arith) in (all, ground arith)
