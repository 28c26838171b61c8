-- ===== src/Generator/Raises.antt =====
-- src/FixGenerator.cpp: what `makeAllStoresPersistent` and `insertPersistentSubProgram` keep of the
-- program.
use hippocrates.Base.{
  some_injective, ℕ, ◌+◌, ltb, ◌≡◌, refl, sym, ◌∙◌, ap, subst, inl, inr, true, false, some, List,
  [], ◌∷◌, ◌++◌, Text, codes, text_eq, text_eq_iff, ok, assert, arith, Bool-cases, Option-cases,
  ok_injective, went_on,
}
use hippocrates.Ir.{Module, Function, Block, Inst, Op, Value, FnInfo}
use hippocrates.Generator.{Program, Debug, written, builder_at, insert_flush_at}
use hippocrates.Generator.Insert.{is_reserved, reserved_name, Valid, Grows, Grows-refl, Grows-trans}
use hippocrates.Generator.Calls.{IsNew, put-Grows, mark-Grows}
use hippocrates.Generator.Flushes.{one-IsNew, two-IsNew, insert_flush_at-FlushBehind}
use hippocrates.Generator.Clone.{
  Settings, stored_bits, find_function, persistent_version, notice, mark, persist, persist_all,
  make_all_stores_persistent, flush_points, clone_op,
}

-- What has the prefix of the tool is no name of a flush or a fence.
find_function-name :
    (m : Module) (name : Text) (f : Function) → find_function m name ≡ some f → f.name ≡ name
unfolding find_function
find_function-name [] name f h = ground (arith, h)
find_function-name (g ∷ m) name f h = elim (Bool-cases (text_eq g.name name)) [
  | inl e ↦
      let same : g ≡ f = some_injective (rw (find_function, e) at h) in
      ap (λ (q : Function). q.name) (sym same) ∙ (text_eq_iff g.name name).0 e
  | inr e ↦ find_function-name m name f (rw (find_function, e) at h)
]

pub free-is_reserved : (f : FnInfo) → reserved_name f.name ≡ false → is_reserved f ≡ false
unfolding is_reserved
free-is_reserved f e = ground (arith, e)

prefix-reserved_name : (name : Text) → reserved_name (codes "PMFIXER_" ++ name) ≡ false
unfolding reserved_name text_eq
prefix-reserved_name name = refl

pub persistent_version-free :
    (m : Module) (name : Text) (g : FnInfo)
    → persistent_version m name ≡ ok g
    → is_reserved g ≡ false
unfolding persistent_version
persistent_version-free m name g h =
    elim (Option-cases (find_function m (codes "PMFIXER_" ++ name))) [
      | inl e ↦ ground (arith, rw (persistent_version, e) at h)
      | inr (f, e) ↦
          let same : f.info ≡ g = ok_injective (rw (persistent_version, e) at h) in
          subst (λ k. is_reserved k ≡ false) same
            (free-is_reserved f.info (
              subst (λ n. reserved_name n ≡ false) (sym (find_function-name m _ f e))
                (prefix-reserved_name name)))
    ]

notice-IsNew :
    (s : Program) (f : FnInfo) (v : Value) (len : ℕ) (dbg : Debug)
    → IsNew s (notice f v len s.next dbg) (s.next + 2)
notice-IsNew s f v len dbg = elim (Bool-cases v.bytes) [
  | inl e ↦ rw (e) (one-IsNew s _ (s.next + 2) (omega arith) (omega arith))
  | inr e ↦ rw (e) (two-IsNew s _ _ (s.next + 2) (omega arith) (omega arith) (omega arith))
]

module _ (c : Settings) where
  noticed-Grows :
      (p : ℕ) (op : Op) (v : Value) (s t : Program)
      → c.use_nt ≡ true
      → Valid s
      → persist c p op v s ≡ ok t
      → Grows s t
  unfolding persist
  noticed-Grows p op v s t nt valid ran =
      let marked : Program = record s { m = mark p s.m } in
      let g = mark-Grows s p valid in
      let (f, e1, ran1) =
        went_on (persistent_version marked.m (codes "valgrind_flush")) _ t
          (rw (persist, nt) at ran) in
      let (dbg, e2, ran2) = went_on (builder_at marked.m p) _ t ran1 in
      let (u, e3, ran3) = went_on (assert (ltb 0 (stored_bits c.pointer_size op))) _ t ran2 in
      subst (λ q. Grows s q) (ok_injective ran3)
        (Grows-trans s marked _ g
          (put-Grows marked p _ (s.next + 2) g.valid (notice-IsNew marked f v _ dbg)))

  persist-Grows :
      (p : ℕ) (op : Op) (v : Value) (s t : Program)
      → Valid s
      → persist c p op v s ≡ ok t
      → Grows s t
  unfolding persist
  persist-Grows p op v s t valid ran = elim (Bool-cases c.use_nt) [
    | inl nt ↦ noticed-Grows p op v s t nt valid ran
    | inr no_nt ↦
        let (r, e, end) =
          went_on (insert_flush_at p v s) (λ r. ok r.1) t (rw (persist, no_nt) at ran) in
        subst (λ q. Grows s q) (ok_injective end)
          (insert_flush_at-FlushBehind p v s r.1 r.0 valid e).0
  ]

  persist_all-Grows :
      (blocks : List Block) (offset : ℕ) (is : List Inst) (s t : Program)
      → Valid s
      → persist_all c blocks offset is s ≡ ok t
      → Grows s t
  unfolding persist_all
  persist_all-Grows blocks offset [] s t valid ran =
      subst (λ q. Grows s q) (ok_injective ran) (Grows-refl s valid)
  persist_all-Grows blocks offset (i ∷ is) s t valid ran =
      let op = clone_op blocks offset i.op in
      elim (Option-cases (written op)) [
        | inl e ↦ ground (arith, rw (persist_all, e) at ran)
        | inr (v, e) ↦
            let (u, one, more) =
              went_on (persist c (i.id + offset) op v s) (persist_all c blocks offset is) t
                (rw (persist_all, e) at ran) in
            let g = persist-Grows (i.id + offset) op v s u valid one in
            Grows-trans s u t g (persist_all-Grows blocks offset is u t g.valid more)
      ]

  pub make_all_stores_persistent-Grows :
      (f : Function) (offset : ℕ) (s t : Program)
      → Valid s
      → make_all_stores_persistent c f offset s ≡ ok t
      → Grows s t
  unfolding make_all_stores_persistent
  make_all_stores_persistent-Grows f offset s t valid ran =
      let (points, e, more) = went_on (flush_points c f.blocks) _ t ran in
      persist_all-Grows f.blocks offset points s t valid more
