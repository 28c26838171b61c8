-- ===== src/Repair/Replaced.antt =====
-- Which calls are replaced where raising is off (src/BugFixer.cpp,
-- `BugFixer::patchMemoryPrimitives`).
use hippocrates.Base.{
  ℕ, ◌≡◌, refl, ap, inl, inr, true, false, List, [], ◌∷◌, ◌++◌, map, Option-cases, Text,
}
use hippocrates.Ir.{Module, Block, Inst}
use hippocrates.Repair.Patch.{replacement, replaced_insts, replaced_blocks, replace_map}

abbrev pub calls : List (ℕ × Text) → List ℕ
calls = map (λ r. r.0)

calls-append : (xs ys : List (ℕ × Text)) → calls (xs ++ ys) ≡ calls xs ++ calls ys
calls-append [] ys = refl
calls-append (x ∷ xs) ys = ap (λ r. x.0 ∷ r) (calls-append xs ys)

same_insts : (is : List Inst) → calls (replaced_insts true is) ≡ calls (replaced_insts false is)
unfolding replaced_insts
same_insts [] = refl
same_insts (i ∷ is) = elim (Option-cases (replacement i.op)) [
  | inl e ↦ rw (replaced_insts, e) (same_insts is)
  | inr (name, e) ↦ rw (replaced_insts, e) (ap (λ r. i.id ∷ r) (same_insts is))
]

same_blocks : (bs : List Block) → calls (replaced_blocks true bs) ≡ calls (replaced_blocks false bs)
unfolding replaced_blocks
same_blocks [] = refl
same_blocks (b ∷ bs) =
    rw
      (
        calls-append (replaced_insts true b.insts) (replaced_blocks true bs),
        calls-append (replaced_insts false b.insts) (replaced_blocks false bs),
        same_insts b.insts,
        same_blocks bs,
      )
      refl

-- The option for the naive versions changes no choice of the calls that are replaced.
pub replace_map-same : (m : Module) → calls (replace_map true m) ≡ calls (replace_map false m)
unfolding replace_map
replace_map-same [] = refl
replace_map-same (f ∷ fs) =
    rw
      (
        calls-append (replaced_blocks true f.blocks) (replace_map true fs),
        calls-append (replaced_blocks false f.blocks) (replace_map false fs),
        same_blocks f.blocks,
        replace_map-same fs,
      )
      refl
