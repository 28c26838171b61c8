-- ===== src/Fix/Effects.antt =====
-- What a fix does to the program: whether it flushes, and whether it fences. These are the terms in
-- which merging fixes is specified (src/BugFixer.cpp, `addFixToMapping` and `fixBug`).
use hippocrates.Base.{
  ◌↔◌, ◌≡◌, Bool, true, false, ◌&&◌, ◌||◌, [], Option, none, some, arith, if◌then◌else◌, ok,
  aborted,
}
use hippocrates.Fix.{
  FixType, FixDesc, add_flush_only, add_fence_only, add_flush_and_fence,
  add_persist_callstack_opt_nofence, add_persist_callstack_opt, is, desc_eq,
}
use hippocrates.Fix.Merge.{resolve, is_primative}

abbrev pub flushes : FixType → Bool
flushes add_flush_only = true
flushes add_flush_and_fence = true
flushes add_persist_callstack_opt_nofence = true
flushes add_persist_callstack_opt = true
flushes _ = false

abbrev pub fences : FixType → Bool
fences add_fence_only = true
fences add_flush_and_fence = true
fences add_persist_callstack_opt = true
fences _ = false

-- A fix that adds a flush or a fence.
abbrev pub is_correctness : FixType → Bool
is_correctness t = flushes t || fences t

-- A fix that names no other locations, as all fixes do but a conditional removal.
pub record IsPlain (d : FixDesc) : Type 0 where
  pub no_originals : d.originals ≡ []
  pub no_points : d.points ≡ []

abbrev pub or_old : FixDesc → Option FixDesc → FixDesc
or_old old none = old
or_old old (some d) = d

pub record Joins (old desc new : FixDesc) : Type 0 where
  pub flush : flushes new.type ≡ flushes old.type || flushes desc.type
  pub fence : fences new.type ≡ fences old.type || fences desc.type

pub resolve-Joins :
    (old desc : FixDesc) (r : Option FixDesc)
    → is_correctness old.type ≡ true
    → is_correctness desc.type ≡ true
    → resolve old desc ≡ ok r
    → Joins old desc (or_old old r)
unfolding resolve
resolve-Joins old desc r p q h = ground arith

-- Two fixes that `operator==` takes for one have the effects of one.
pub eq-Joins : (old desc : FixDesc) → desc_eq old desc ≡ true → Joins old desc old
unfolding desc_eq
eq-Joins old desc h = ground arith

pub desc_eq-plain : (a b : FixDesc) → IsPlain a → IsPlain b → desc_eq a b ≡ is a.type b.type
unfolding desc_eq
desc_eq-plain a b p q = ground arith

-- A raised flush meets a fix of another kind that does not make it a raised flush and fence.
abbrev pub clash : FixType → FixType → Bool
clash add_persist_callstack_opt_nofence t = is t add_flush_only
clash t u = is_primative t && is u add_persist_callstack_opt_nofence

pub resolve-clash :
    (old desc : FixDesc)
    → is_correctness old.type ≡ true
    → is_correctness desc.type ≡ true
    → is old.type desc.type ≡ false
    → (resolve old desc ≡ aborted) ↔ (clash old.type desc.type ≡ true)
unfolding resolve is_primative
resolve-clash old desc p q d = ground arith

-- Two different low-level fixes always merge.
pub resolve-primative :
    (old desc : FixDesc)
    → is_primative old.type ≡ true
    → is_primative desc.type ≡ true
    → is old.type desc.type ≡ false
    → resolve old desc
      ≡ ok (
          if is old.type add_flush_and_fence
          then none
          else some (record old { type = add_flush_and_fence }))
unfolding resolve is_primative
resolve-primative old desc p q d = ground arith
