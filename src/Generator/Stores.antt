-- ===== src/Generator/Stores.antt =====
-- src/FixGenerator.cpp: the flushes that `makeAllStoresPersistent` adds to a copy.
use hippocrates.Base.{
  ℕ, ◌+◌, ◌≡◌, refl, sym, ◌∙◌, ap, subst, inl, inr, Bool, true, false, some, List, [], ◌∷◌, ◌++◌,
  if◌then◌else◌, Text, codes, ok, arith, Any, Any-append, Option-cases, ok_injective, went_on,
}
use hippocrates.Ir.{Module, Function, Block, Inst, Op, Value, FnInfo, parent}
use hippocrates.Raise.{Mapper}
use hippocrates.Generator.Copies.{copy-Grows}
use hippocrates.Generator.Names.{Unique, copy-reserved_name}
use hippocrates.Generator.SubProgram.{persistent_copy}
use hippocrates.Generator.{Program, written, insert_flush_at}
use hippocrates.Generator.Behind.{Member}
use hippocrates.Generator.Present.{parent-Stands}
use hippocrates.Generator.Insert.{Valid, Grows, Grows-refl, Grows-trans}
use hippocrates.Generator.Flushes.{FlushBehind, FlushBehind-Grows, insert_flush_at-FlushBehind}
use hippocrates.Generator.Clone.{
  Settings, clone_op, persist, persist_all, is_flush_point, analysed, points_in, flush_points,
  make_all_stores_persistent, duplicate_function,
}

-- The copy of an instruction is flushed: behind it there is a flush of what the copy writes to.
abbrev pub CopyFlushed : List Block → ℕ → Inst → Program → Type 0
CopyFlushed blocks offset i t =
    (v : Value) × (written (clone_op blocks offset i.op) ≡ some v)
    × ((n : ℕ) × FlushBehind v (i.id + offset) n t.m)

at_cons :
    (P : Inst → Type 0) (i : Inst) (is : List Inst) (j : Inst)
    → P i
    → ((k : Inst) → Member k is → P k)
    → Member j (i ∷ is)
    → P j
at_cons P i is j here all (inl e) = subst P e here
at_cons P i is j here all (inr h) = all j h

kept_Member :
    (b : Bool) (i j : Inst) (is : List Inst) → Member i is → Member i (if b then j ∷ is else is)
kept_Member true i j is h = inr h
kept_Member false i j is h = h

module _ (c : Settings) (flushing : c.use_nt ≡ false) where
  persist-FlushBehind :
      (p : ℕ) (op : Op) (v : Value) (s t : Program)
      → Valid s
      → persist c p op v s ≡ ok t
      → Grows s t × ((n : ℕ) × FlushBehind v p n t.m)
  unfolding persist
  persist-FlushBehind p op v s t valid ran =
      let (r, e, end) =
        went_on (insert_flush_at p v s) (λ r. ok r.1) t (rw (persist, flushing) at ran) in
      let (g, f) = insert_flush_at-FlushBehind p v s r.1 r.0 valid e in
      subst (λ (q : Program). Grows s q × ((n : ℕ) × FlushBehind v p n q.m)) (ok_injective end)
        (g, (r.0, f))

  persist_all-CopyFlushed :
      (blocks : List Block) (offset : ℕ) (is : List Inst) (s t : Program)
      → Valid s
      → persist_all c blocks offset is s ≡ ok t
      → Grows s t × ((i : Inst) → Member i is → CopyFlushed blocks offset i t)
  unfolding persist_all
  persist_all-CopyFlushed blocks offset [] s t valid ran =
      (subst (λ q. Grows s q) (ok_injective ran) (Grows-refl s valid), λ i h. absurd h)
  persist_all-CopyFlushed blocks offset (i ∷ is) s t valid ran =
      let op = clone_op blocks offset i.op in
      elim (Option-cases (written op)) [
        | inl e ↦ ground (arith, rw (persist_all, e) at ran)
        | inr (v, e) ↦
            let (u, one, more) =
              went_on (persist c (i.id + offset) op v s) (persist_all c blocks offset is) t
                (rw (persist_all, e) at ran) in
            let (g, (n, f)) = persist-FlushBehind (i.id + offset) op v s u valid one in
            let (g', all) = persist_all-CopyFlushed blocks offset is u t g.valid more in
            let here : CopyFlushed blocks offset i t =
              (v, e, (n, FlushBehind-Grows v (i.id + offset) n u t g' f)) in
            (
              Grows-trans s u t g g',
              λ j h. at_cons (λ k. CopyFlushed blocks offset k t) i is j here all h,
            )
      ]

module _ (c : Settings) where
  -- An instruction of the function that is to be flushed is one of the list.
  points_in-Member :
      (is out : List Inst) (i : Inst)
      → points_in c is ≡ ok out
      → Member i is
      → is_flush_point c (analysed c.aa_map (written i.op)) ≡ ok true
      → Member i out
  unfolding points_in
  points_in-Member [] out i ran h e = absurd h
  points_in-Member (j ∷ is) out i ran h e =
      let (b, at_j, ran1) =
        went_on (is_flush_point c (analysed c.aa_map (written j.op))) _ out ran in
      let (rest, at_rest, end) = went_on (points_in c is) _ out ran1 in
      let same : (if b then j ∷ rest else rest) ≡ out = ok_injective end in
      subst (Member i) same (
        at_cons
          (λ k.
            is_flush_point c (analysed c.aa_map (written k.op)) ≡ ok true
            → Member k (if b then j ∷ rest else rest))
          j is i
          (λ found.
            subst (λ x. Member j (if x then j ∷ rest else rest))
              (sym (ok_injective (sym at_j ∙ found))) (inl refl))
          (λ k there found. kept_Member b k j rest (points_in-Member is rest k at_rest there found))
          h e)

  flush_points-Member :
      (bs : List Block) (out : List Inst) (i : Inst)
      → flush_points c bs ≡ ok out
      → Any (λ (b : Block). Member i b.insts) bs
      → is_flush_point c (analysed c.aa_map (written i.op)) ≡ ok true
      → Member i out
  unfolding flush_points
  flush_points-Member [] out i ran h e = absurd h
  flush_points-Member (b ∷ bs) out i ran h e =
      let (xs, at_b, ran1) = went_on (points_in c b.insts) _ out ran in
      let (ys, at_bs, end) = went_on (flush_points c bs) _ out ran1 in
      let same : xs ++ ys ≡ out = ok_injective end in
      subst (Member i) same (
        Any-append (λ z. z ≡ i) xs ys
          (elim h [
            | inl here ↦ inl (points_in-Member b.insts xs i at_b here e)
            | inr there ↦ inr (flush_points-Member bs ys i at_bs there e)
          ]))

-- The copy that is made of a function of the program for a raised fix, where its stores are to be
-- flushed, the program is valid, and the name that a new function is given begins with the name asked
-- for: behind the copy of every instruction that writes to what may be persistent memory there is a
-- flush of what the copy writes to; and the calls of `llvm.x86.clwb` and `llvm.x86.sse.sfence` that the
-- program has stay behind what they stand behind.
pub persistent_copy-CopyFlushed :
    (c : Settings) (demangle : Text → Text) (unique : Module → Text → Text) (mapper : Mapper)
    (p : ℕ) (f : Function) (b : Block) (s t : Program) (g : FnInfo)
    → c.use_nt ≡ false
    → Unique unique
    → Valid s
    → parent s.m p ≡ some (f, b)
    → persistent_copy c demangle unique mapper true f s ≡ ok (g, t)
    → Grows s t
      × ((i : Inst)
          → Any (λ (k : Block). Member i k.insts) f.blocks
          → is_flush_point c (analysed c.aa_map (written i.op)) ≡ ok true
          → CopyFlushed f.blocks s.next i t)
unfolding persistent_copy make_all_stores_persistent duplicate_function
persistent_copy-CopyFlushed c demangle unique mapper p f b s t g flushing naming valid there ran =
    let name = unique s.m (f.name ++ codes "_NT") in
    let d : FnInfo × Program = duplicate_function unique f s in
    let at = parent-Stands p s.m f b there in
    let grows = copy-Grows s f name valid at.function (copy-reserved_name unique s.m f naming) in
    let (u, e, end) =
      went_on (make_all_stores_persistent c f s.next d.1) (λ u. ok (d.0, u)) (g, t) ran in
    let (points, e1, e2) = went_on (flush_points c f.blocks) _ u e in
    let (more, all) =
      persist_all-CopyFlushed c flushing f.blocks s.next points d.1 u grows.valid e2 in
    let same : u ≡ t = ap (λ q. q.1) (ok_injective end) in
    subst
      (λ q.
        Grows s q
        × ((i : Inst)
            → Any (λ (k : Block). Member i k.insts) f.blocks
            → is_flush_point c (analysed c.aa_map (written i.op)) ≡ ok true
            → CopyFlushed f.blocks s.next i q))
      same
      (
        Grows-trans s d.1 u grows more,
        λ i h found. all i (flush_points-Member c f.blocks points i e1 h found),
      )
