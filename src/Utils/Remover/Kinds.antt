-- ===== src/Utils/Remover/Kinds.antt =====
-- The flushes (src/common/PassUtils.cpp, `isFlush`), described apart from the code that finds them.
use hippocrates.Base.{
  Text, ◌≡◌, refl, ◌≢◌, ◌↔◌, ◌⊎◌, inl, inr, Bool, true, false, List, codes, IsInfix, occurs_in_iff,
  text_eq, text_eq_iff, arith, Bool-cases,
}
use hippocrates.Ir.{
  Op, Value, Intrinsic, not_intrinsic, clwb, clflushopt, clflush, call, direct, inline_asm,
  indirect, memcpy, memset, memmove, dbg_declare, sfence, other_intrinsic, store, cmp_xchg,
  ptr_to_int, cast, ret, branch, switch, other,
}
use hippocrates.Utils.{
  is_flush, is_intrinsic, is_flush_intrinsic, get_flush, check_intrinsic_inst, check_inline_asm_eq,
}

-- An intrinsic that writes a line back.
pub data WritesBack : Intrinsic → Type 0 where
  clwb_call : WritesBack clwb
  clflushopt_call : WritesBack clflushopt
  clflush_call : WritesBack clflush

-- A flush: a call of one of the three intrinsics, of another intrinsic that is named for `clflush`, or
-- one of two lines of assembly.
abbrev pub IsFlush : Op → Type 0
IsFlush (call (direct f) args) =
    WritesBack f.intrinsic ⊎ ((f.intrinsic ≢ not_intrinsic) × IsInfix (codes "clflush") f.name)
IsFlush (call (inline_asm text) args) =
    (text ≡ codes ".byte 0x66; clflush $0") ⊎ (text ≡ codes ".byte 0x66; xsaveopt $0")
IsFlush op = ⊥

module _ (name : Text) (declaration : Bool) (args : List Value) where
  abbrev call_of : Intrinsic → Op
  call_of k = call (direct (record { name = name; intrinsic = k; declaration = declaration })) args

  -- An intrinsic that is found by its name alone.
  named :
      (k : Intrinsic)
      → is_intrinsic k ≡ true
      → is_flush_intrinsic k ≡ false
      → k ≢ not_intrinsic
      → ¬ WritesBack k
      → (is_flush (call_of k) ≡ true) ↔ IsFlush (call_of k)
  unfolding is_flush get_flush check_intrinsic_inst check_inline_asm_eq
  named k is no_flush differs keeps = (
    λ h. inr (differs, (occurs_in_iff (codes "clflush") name).0 (ground (arith, h, is, no_flush))),
    λ h. elim h [
      | inl w ↦ absurd (keeps w)
      | inr (_, found) ↦ ground (arith, (occurs_in_iff (codes "clflush") name).1 found, is)
    ],
  )

  is_flush-intrinsic : (k : Intrinsic) → (is_flush (call_of k) ≡ true) ↔ IsFlush (call_of k)
  unfolding is_flush get_flush check_intrinsic_inst check_inline_asm_eq
  is_flush-intrinsic not_intrinsic =
      (λ h. cc, λ h. elim h [ inl w ↦ elim w [ ] | inr (differs, _) ↦ absurd (differs refl) ])
  is_flush-intrinsic clwb = (λ h. inl clwb_call, λ h. ground arith)
  is_flush-intrinsic clflushopt = (λ h. inl clflushopt_call, λ h. ground arith)
  is_flush-intrinsic clflush = (λ h. inl clflush_call, λ h. ground arith)
  is_flush-intrinsic memcpy = named memcpy refl refl (λ e. cc) (λ w. elim w [ ])
  is_flush-intrinsic memset = named memset refl refl (λ e. cc) (λ w. elim w [ ])
  is_flush-intrinsic memmove = named memmove refl refl (λ e. cc) (λ w. elim w [ ])
  is_flush-intrinsic dbg_declare = named dbg_declare refl refl (λ e. cc) (λ w. elim w [ ])
  is_flush-intrinsic sfence = named sfence refl refl (λ e. cc) (λ w. elim w [ ])
  is_flush-intrinsic other_intrinsic = named other_intrinsic refl refl (λ e. cc) (λ w. elim w [ ])

is_flush-asm :
    (text : Text) (args : List Value)
    → (is_flush (call (inline_asm text) args) ≡ true) ↔ IsFlush (call (inline_asm text) args)
unfolding is_flush get_flush check_intrinsic_inst check_inline_asm_eq
is_flush-asm text args =
    let a = text_eq_iff text (codes ".byte 0x66; clflush $0") in
    let b = text_eq_iff text (codes ".byte 0x66; xsaveopt $0") in
    (
      λ h. elim (Bool-cases (text_eq text (codes ".byte 0x66; clflush $0"))) [
        | inl e ↦ inl (a.0 e)
        | inr e ↦ inr (b.0 (ground (arith, h)))
      ],
      λ h. elim h [ inl e ↦ ground (arith, a.1 e) | inr e ↦ ground (arith, b.1 e) ],
    )

-- `isFlush` finds the flushes.
pub is_flush-IsFlush : (op : Op) → (is_flush op ≡ true) ↔ IsFlush op
unfolding is_flush get_flush check_intrinsic_inst check_inline_asm_eq
is_flush-IsFlush (call (direct f) args) = is_flush-intrinsic f.name f.declaration args f.intrinsic
is_flush-IsFlush (call (inline_asm text) args) = is_flush-asm text args
is_flush-IsFlush (call indirect args) = (λ h. cc, λ h. absurd h)
is_flush-IsFlush (store v p) = (λ h. cc, λ h. absurd h)
is_flush-IsFlush (cmp_xchg p c v) = (λ h. cc, λ h. absurd h)
is_flush-IsFlush (ptr_to_int p) = (λ h. cc, λ h. absurd h)
is_flush-IsFlush (cast v) = (λ h. cc, λ h. absurd h)
is_flush-IsFlush (ret v) = (λ h. cc, λ h. absurd h)
is_flush-IsFlush (branch v) = (λ h. cc, λ h. absurd h)
is_flush-IsFlush (switch v) = (λ h. cc, λ h. absurd h)
is_flush-IsFlush other = (λ h. cc, λ h. absurd h)
