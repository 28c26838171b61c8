-- ===== src/Generator/Keeps.antt =====
-- src/FixGenerator.cpp: `GenericFixGenerator` keeps what the loop over the fixes asks of a generator.
use hippocrates.Base.{
  ℕ, ◌<◌, ◌≡◌, refl, sym, ◌∙◌, ap, subst, inl, inr, Bool, Option, none, some, [], ◌∷◌, Text,
  Outcome, ok, arith, All, ok_injective, went_on, ==_iff,
}
use hippocrates.Location.{no_location}
use hippocrates.Ir.{Module, Inst, Value}
use hippocrates.FixLoc.{FixLoc, insts}
use hippocrates.Raise.{Mapper}
use hippocrates.Generator.{
  Program, written, put, new_inst, builder_at, insert_flush, insert_flushes, insert_fence,
}
use hippocrates.Generator.Behind.{In, Behind, Behind-rewrite}
use hippocrates.Generator.Members.{insts-In, single-Member}
use hippocrates.Generator.Generic.{generic}
use hippocrates.Generator.Insert.{Valid, Grows, Grows-refl, Grows-trans}
use hippocrates.Generator.Names.{Unique}
use hippocrates.Generator.Flushes.{FlushBehind, FlushBehind-Grows, sfence_call}
use hippocrates.Generator.Ranges.{
  FenceBehind, FenceBehind-Grows, insert_flushes-Result, insert_fence-FenceBehind,
}
use hippocrates.Generator.Clone.{Settings}
use hippocrates.Generator.Raised.{insert_persistent_sub_program-Grows}
use hippocrates.Repair.{FixGenerator, apply_fixes}
use hippocrates.Fix.{FixDesc}
use hippocrates.Fix.Map.{FixMap}
use hippocrates.Repair.Applied.{Promises, Placed, Done, apply_fixes-Done}

-- Every store at the location has a flush of its pointer behind it.
abbrev pub Flushed : FixLoc → Program → Type 0
Flushed fl s =
    (fl.last < s.next)
    × ((x : Inst) (v : Value)
        → In x s.m
        → x.id ≡ fl.last
        → written x.op ≡ some v
        → (n : ℕ) × FlushBehind v fl.last n s.m)

-- The location of one instruction of the program.
abbrev pub Known : FixLoc → Program → Type 0
Known fl s = (fl.first ≡ fl.last) × (fl.last < s.next)

pub Flushed-Grows : (fl : FixLoc) (s t : Program) → Grows s t → Flushed fl s → Flushed fl t
Flushed-Grows fl s t g (low, h) = (
  omega (arith, low, g.above),
  λ x v there e w.
      let (y, old, ids, same) = g.stores x v (omega (arith, e, low)) there w in
      let (n, f) = h y v old (ids ∙ e) same in (n, FlushBehind-Grows v fl.last n s t g f),
)

pub insert_flush-Flushed :
    (fl : FixLoc) (s t : Program) (r : Option ℕ)
    → Valid s
    → Known fl s
    → insert_flush fl s ≡ ok (r, t)
    → Grows s t × ((n : ℕ) → r ≡ some n → Flushed fl t)
unfolding insert_flush
insert_flush-Flushed fl s t r valid (one, low) ran =
    let (is, e, ran1) = went_on (insts s.m fl) (λ is. insert_flushes is none s) (r, t) ran in
    let (g, all, from) = insert_flushes-Result is none r s t valid ran1 in
    (
      g,
      λ n found. elim (from n found) [
        | inl no_store ↦ ground (arith, no_store)
        | inr (i, h, (v, w, f)) ↦
            let at_last = single-Member s.m fl is i one e h in
            let there = insts-In s.m fl is i e h in
            (
              omega (arith, low, g.above),
              λ x u x_in x_id x_w.
                  let (y, old, ids, same) = g.stores x u (omega (arith, x_id, low)) x_in x_w in
                  let op = valid.one_op i y there old (at_last ∙ sym (ids ∙ x_id)) in
                  let (k, flush) = all i u h (ap written op ∙ same) in
                  (k, subst (λ p. FlushBehind u p k t.m) at_last flush),
            )
      ],
    )

pub flush_fence-FenceBehind :
    (fl : FixLoc) (s t u : Program) (n : ℕ) (r : Option ℕ)
    → Valid s
    → Known fl s
    → insert_flush fl s ≡ ok (some n, t)
    → insert_fence (record { first = n; last = n; dbg_loc = no_location }) t ≡ ok (r, u)
    → FenceBehind fl.last u.m
unfolding insert_flush insert_fence
flush_fence-FenceBehind fl s t u n r valid (one, low) ran fence =
    let (is, e, ran1) = went_on (insts s.m fl) (λ is. insert_flushes is none s) (some n, t) ran in
    let (g, all, from) = insert_flushes-Result is none (some n) s t valid ran1 in
    elim (from n refl) [
      | inl no_store ↦ ground (arith, no_store)
      | inr (i, h, (v, w, (c, there, c_id, f))) ↦
          let at_last = single-Member s.m fl is i one e h in
          let (dbg, e', end) = went_on (builder_at t.m n) _ (r, u) fence in
          let new = new_inst t.next sfence_call dbg in
          let same : put n (new ∷ []) t.m ≡ u.m = ap (λ q. Program.m q.1) (ok_injective end) in
          subst (λ m. FenceBehind fl.last m) same
            (
              new,
              Behind-rewrite (λ i. i) _ (λ i. refl) t.m fl.last c new
                  (subst (λ p. Behind p c t.m) at_last there)
                  (rw ((==_iff c.id n).1 c_id) (inr (inl refl))),
              refl,
            )
    ]

module _ (c : Settings) (demangle : Text → Text) (unique : Module → Text → Text) (mapper : Mapper)
    (naming : Unique unique) where
  abbrev fixer : (ℕ → Text → Program → Outcome Program) → FixGenerator Program
  fixer = generic c demangle unique mapper

  abbrev pub generic-Promises :
      (replace : ℕ → Text → Program → Outcome Program) → Promises (fixer replace)
  generic-Promises replace = record {
    Valid = Valid;
    Known = Known;
    Flushed = Flushed;
    Fenced = λ fl s. FenceBehind fl.last s.m;
    Grows = Grows;
    grown = λ s t g. g.valid;
    known_stays = λ fl s t g k. (k.0, omega (arith, k.1, g.above));
    flushed_stays = Flushed-Grows;
    fenced_stays = λ fl s t g h. FenceBehind-Grows fl.last s t g h;
    stays = Grows-refl;
    further = Grows-trans;
    flush_lem = insert_flush-Flushed;
    fence_lem =
        λ fl s t r v ran. let (g, f) = insert_fence-FenceBehind fl s t r v ran in (g, λ n e. f);
    pair_lem = λ fl s t u n k v known ran fence.
        flush_fence-FenceBehind fl s t u n (some k) v known ran fence;
    sub_program_lem = λ fl stack i b a s t r v ran.
        insert_persistent_sub_program-Grows c demangle unique mapper naming fl stack i b a r s t v
          ran;
  }

  -- The fixes that the loop makes with this generator, where the program is valid, a new name begins
  -- with the name asked for, and every location at which a flush or a fence is to be added is that of
  -- one instruction of the program: behind each store there is a flush of its pointer, behind the
  -- location a fence, or both, and no later fix has taken one of them away.
  pub generic-Done :
      (replace : ℕ → Text → Program → Outcome Program) (fixes : FixMap) (modified b : Bool)
      (s t : Program)
      → Valid s
      → All (λ e. Placed (fixer replace) (generic-Promises replace) e.0 (FixDesc.type e.1) s) fixes
      → apply_fixes (fixer replace) fixes modified s ≡ ok (b, t)
      → Grows s t
        × All (λ e. Done (fixer replace) (generic-Promises replace) e.0 (FixDesc.type e.1) t) fixes
  generic-Done replace fixes modified b s t valid placed ran =
      apply_fixes-Done (fixer replace) (generic-Promises replace) fixes modified b s t valid placed
        ran
