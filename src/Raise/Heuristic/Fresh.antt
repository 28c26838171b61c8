-- ===== src/Raise/Heuristic/Fresh.antt =====
-- The cache of the aliases of frames (src/BugFixer.cpp, `heuristicCache_`).
use hippocrates.Base.{
  ℕ, ◌≡◌, refl, sym, ◌∙◌, ap, ◌⊎◌, inl, inr, true, not, ◌&&◌, Option, some, List, [], ◌∷◌, ◌==◌,
  if◌then◌else◌, Outcome, ok, aborted, ◌>>=◌, ℤ, arith, Bool-cases, Option-cases, Outcome-cases,
  ==_iff,
}
use hippocrates.Location.{LocationInfo, eq}
use hippocrates.Ir.{Module, Inst}
use hippocrates.PmDesc.{Anders, PmDesc}
use hippocrates.Raise.{Mapper, is_some, at}
use hippocrates.Raise.Heuristic.{Aliases, AliasCache, count_aliases, cached, frame_aliases}
use hippocrates.Raise.Heuristic.Pick.{int64_min, score, scores_of, best_frame, choose_frame}

module _ (anders : Anders) (pm : PmDesc) (m : Module) (vmap : Option (ℕ → Option Inst))
    (mapper : Mapper) (hash_of : LocationInfo → ℕ) where
  -- Every entry of the cache is what would be counted for any location that finds it.
  abbrev pub Agrees : AliasCache → Type 0
  Agrees c =
      (li : LocationInfo) (a : Aliases)
      → cached anders pm m vmap mapper hash_of c li ≡ some a
      → count_aliases anders pm m vmap mapper hash_of li ≡ ok a

  -- Locations that are one key of the maps have the same instructions.
  abbrev pub OneKey : Type 0
  OneKey = (a b : LocationInfo) → hash_of a ≡ hash_of b → eq a b ≡ true → mapper a ≡ mapper b

  fresh-key :
      OneKey
      → (a b : LocationInfo) → hash_of a == hash_of b && eq a b ≡ true
      → count_aliases anders pm m vmap mapper hash_of a
        ≡ count_aliases anders pm m vmap mapper hash_of b
  unfolding count_aliases
  fresh-key key a b h =
      rw (at, key a b ((==_iff (hash_of a) (hash_of b)).0 (ground arith)) (ground arith)) refl

  Agrees-kept :
      (c : AliasCache) (li : LocationInfo) (a : Aliases)
      → OneKey
      → count_aliases anders pm m vmap mapper hash_of li ≡ ok a
      → Agrees c
      → Agrees ((li, a) ∷ c)
  unfolding cached
  Agrees-kept c li a key e agrees li' a' hit =
      elim (Bool-cases (hash_of li == hash_of li' && eq li li')) [
        | inl same ↦ sym (fresh-key key li li' same) ∙ e ∙ ground (arith, rw (cached, same) at hit)
        | inr other ↦ agrees li' a' rw (cached, other) at hit
      ]

  -- What a lookup leaves: the count_aliases anders pm m vmap mapper hash_of aliases and a cache that agrees.
  frame_aliases-fresh :
      (c : AliasCache) (li : LocationInfo)
      → OneKey
      → Agrees c
      → ((frame_aliases anders pm m vmap mapper hash_of c li ≡ aborted)
          × (count_aliases anders pm m vmap mapper hash_of li ≡ aborted))
        ⊎ ((a : Aliases) × (c' : AliasCache) × (frame_aliases anders pm m vmap mapper hash_of c li
              ≡ ok (a, c'))
            × (count_aliases anders pm m vmap mapper hash_of li ≡ ok a)
            × Agrees c')
  unfolding frame_aliases
  frame_aliases-fresh c li key agrees =
      elim (Option-cases (cached anders pm m vmap mapper hash_of c li)) [
        | inr (a, e) ↦ inr (a, c, rw (frame_aliases, e) refl, agrees li a e, agrees)
        | inl e ↦ elim (Outcome-cases (count_aliases anders pm m vmap mapper hash_of li)) [
          | inl no_way ↦ inl (rw (frame_aliases, e, no_way) refl, no_way)
          | inr (a, e') ↦
              inr (
                a,
                (li, a) ∷ c,
                rw (frame_aliases, e, e') refl,
                e',
                Agrees-kept c li a key e' agrees,
              )
        ]
      ]

  -- The scores that are counted without a cache.
  abbrev pub fresh_score : LocationInfo → Outcome ℤ
  fresh_score li =
      if not (is_some (mapper li))
      then ok int64_min
      else (count_aliases anders pm m vmap mapper hash_of li >>= λ a. ok (score a))

  abbrev pub fresh_scores : List LocationInfo → Outcome (List ℤ)
  fresh_scores [] = ok []
  fresh_scores (li ∷ lis) = fresh_score li >>= λ s. fresh_scores lis >>= λ ss. ok (s ∷ ss)

  abbrev with_score : ℤ → List ℤ × AliasCache → Outcome (List ℤ × AliasCache)
  with_score s r = ok (s ∷ r.0, r.1)

  cons_score :
      (s : ℤ) (o : Outcome (List ℤ × AliasCache)) (f : Outcome (List ℤ))
      → (o >>= λ r. ok r.0) ≡ f
      → (o >>= with_score s >>= λ r. ok r.0) ≡ (f >>= λ ss. ok (s ∷ ss))
  cons_score s (ok r) f h = ap (λ g. g >>= λ ss. ok (s ∷ ss)) h
  cons_score s aborted f h = ap (λ g. g >>= λ ss. ok (s ∷ ss)) h

  scores_of-fresh_scores :
      (c : AliasCache) (lis : List LocationInfo)
      → OneKey
      → Agrees c
      → (scores_of anders pm m vmap mapper hash_of c lis >>= λ r. ok r.0) ≡ fresh_scores lis
  unfolding scores_of
  scores_of-fresh_scores c [] key agrees = refl
  scores_of-fresh_scores c (li ∷ lis) key agrees = elim (Bool-cases (is_some (mapper li))) [
    | inl there ↦ elim (frame_aliases-fresh c li key agrees) [
      | inl (e, e') ↦ rw (scores_of, there, e, e') refl
      | inr (a, c', e, e', agrees') ↦
          let rest = scores_of-fresh_scores c' lis key agrees' in
          rw (there, e, e')
            (cons_score (score a) (scores_of anders pm m vmap mapper hash_of c' lis)
              (fresh_scores lis) rest)
    ]
    | inr e ↦
        let rest = scores_of-fresh_scores c lis key agrees in
        rw (e) (
          cons_score int64_min (scores_of anders pm m vmap mapper hash_of c lis) (fresh_scores lis)
            rest)
  ]

  abbrev pick_frame : List ℤ × AliasCache → Outcome (ℕ × AliasCache)
  pick_frame r = do i ← best_frame r.0; ok (i, r.1)

  pick_first : (r : List ℤ × AliasCache) → (pick_frame r >>= λ q. ok q.0) ≡ best_frame r.0
  pick_first r = elim (Outcome-cases (best_frame r.0)) [
    | inl e ↦ rw (e) refl
    | inr (i, e) ↦ rw (e) refl
  ]

  choice :
      (o : Outcome (List ℤ × AliasCache)) (f : Outcome (List ℤ))
      → (o >>= λ r. ok r.0) ≡ f
      → (o >>= pick_frame >>= λ q. ok q.0) ≡ (f >>= best_frame)
  choice (ok r) f h = pick_first r ∙ ap (λ g. g >>= best_frame) h
  choice aborted f h = ap (λ g. g >>= best_frame) h

  -- Where one key of the maps has one list of locations and the cache holds what would be counted
  -- anew, the frame that the heuristic picks is the one that it picks without the cache.
  pub choose_frame-fresh_scores :
      (c : AliasCache) (stack : List LocationInfo)
      → OneKey
      → Agrees c
      → (choose_frame true anders pm m vmap mapper hash_of c stack >>= λ q. ok q.0)
        ≡ (fresh_scores stack >>= best_frame)
  unfolding choose_frame
  choose_frame-fresh_scores c stack key agrees =
      choice (scores_of anders pm m vmap mapper hash_of c stack) (fresh_scores stack)
        (scores_of-fresh_scores c stack key agrees)
