-- ===== src/Location/Matching.antt =====
-- Which locations `LocationInfo::operator==` takes for one, and how that fits the hash
-- (src/BugReports.cpp, the region LocationInfo, and src/BugReports.hpp, `LocationInfo::Hash`).
use hippocrates.Base.{
  ℕ, ◌+◌, ◌≤◌, ◌≡◌, refl, sym, ap, ◌∙◌, ◌≢◌, ◌↔◌, ◌⊎◌, inl, inr, true, false, [], ◌∷◌, ◌++◌, arith,
  length, length-append, Text, IsInfix, text_eq_iff, occurs_in_iff, int_eq_iff, has, after_last, ℤ,
}
use mathlib.Core.List.{append-nil, append_assoc}
use hippocrates.Location.{LocationInfo, get_filename, hash, eq}

-- One of two files is a part of the other.
abbrev pub SameFile : Text → Text → Type 0
SameFile s t = IsInfix s t ⊎ IsInfix t s

length-nil : (t : Text) → length t ≡ 0 → t ≡ []
length-nil [] h = refl
length-nil (x ∷ t) h = absurd (omega arith)

IsInfix-length : (p t : Text) → IsInfix p t → length p ≤ length t
IsInfix-length p t (pre, post, e) =
    omega (arith, ap length e, length-append pre (p ++ post), length-append p post)

-- A part that is no shorter is the whole.
IsInfix-eq : (p t : Text) → length t ≤ length p → IsInfix p t → t ≡ p
IsInfix-eq p t h (pre, post, e) =
    let total : length t ≡ length pre + (length p + length post) =
      omega (arith, ap length e, length-append pre (p ++ post), length-append p post) in
    let no_pre = length-nil pre (omega arith) in
    let no_post = length-nil post (omega arith) in e ∙ rw (no_pre, no_post) (append-nil p)

SameFile-shorter : (s t : Text) → length t ≤ length s → IsInfix s t → IsInfix t s
SameFile-shorter s t h i = ([], [], sym (append-nil t ∙ IsInfix-eq s t h i))

-- Two locations are equal exactly when they name one function and one line, and one of the files
-- is a part of the other.
pub eq-SameFile :
    (a b : LocationInfo)
    → (eq a b ≡ true) ↔ ((a.function ≡ b.function) × (a.line ≡ b.line) × SameFile a.file b.file)
unfolding eq
eq-SameFile a b = ground (
  arith,
  text_eq_iff a.function b.function,
  int_eq_iff a.line b.line,
  occurs_in_iff a.file b.file,
  occurs_in_iff b.file a.file,
  SameFile-shorter a.file b.file,
  SameFile-shorter b.file a.file,
)

-- It is reflexive and symmetric.
pub eq_refl : (a : LocationInfo) → eq a a ≡ true
eq_refl a = (eq-SameFile a a).1 (refl, refl, inl ([], [], sym (append-nil a.file)))

pub eq_comm : (a b : LocationInfo) → eq a b ≡ true → eq b a ≡ true
eq_comm a b h =
    let (f, l, s) = (eq-SameFile a b).0 h in
    (eq-SameFile b a).1 (sym f, sym l, elim s [ inl x ↦ inr x | inr x ↦ inl x ])

-- It is not transitive: of any two locations in one function and line that differ, some third
-- location equals both.
pub eq-not_transitive :
    (a c : LocationInfo)
    → a.function ≡ c.function
    → a.line ≡ c.line
    → eq a c ≡ false
    → (b : LocationInfo) × (eq a b ≡ true) × (eq b c ≡ true)
eq-not_transitive a c f l differ =
    let b = record a { file = [] } in
    (
      b,
      (eq-SameFile a b).1 (refl, refl, inr (a.file, [], sym (append-nil a.file))),
      (eq-SameFile b c).1 (f, l, inl (c.file, [], sym (append-nil c.file))),
    )

has-append : (c : ℕ) (s t : Text) → has c t ≡ true → has c (s ++ t) ≡ true
unfolding has
has-append c [] t h = h
has-append c (x ∷ s) t h = ground (arith, has-append c s t)

after_last-append : (c : ℕ) (s t : Text) → has c t ≡ true → after_last c (s ++ t) ≡ after_last c t
unfolding after_last
after_last-append c [] t h = refl
after_last-append c (x ∷ s) t h = ground (arith, has-append c s t, after_last-append c s t)

after_last-none : (c : ℕ) (t : Text) → has c t ≡ false → after_last c t ≡ t
unfolding after_last has
after_last-none c [] h = refl
after_last-none c (x ∷ t) h = ground arith

after_last-sep : (c : ℕ) (t : Text) → after_last c (c ∷ t) ≡ after_last c t
unfolding after_last
after_last-sep c t = ground (arith, after_last-none c t)

has_sep : (c : ℕ) (t : Text) → has c (c ∷ t) ≡ true
unfolding has
has_sep c t = ground arith

get_filename-directory :
    (a : LocationInfo) (dir : Text)
    → get_filename (record a { file = dir ++ (b'/' ∷ a.file) }) ≡ get_filename a
unfolding get_filename
get_filename-directory a dir =
    after_last-append b'/' dir (b'/' ∷ a.file) (has_sep b'/' a.file) ∙ after_last-sep b'/' a.file

-- Locations whose files differ by a directory in front are equal, and have one hash.
pub eq-hash_directory :
    (hash_text : Text → ℕ) (hash_int : ℤ → ℕ) (a : LocationInfo) (dir : Text)
    → let b = record a { file = dir ++ (b'/' ∷ a.file) } in
      (eq a b ≡ true) × (hash hash_text hash_int a ≡ hash hash_text hash_int b)
unfolding hash
eq-hash_directory hash_text hash_int a dir =
    let b = record a { file = dir ++ (b'/' ∷ a.file) } in
    (
      (eq-SameFile a b).1
          (refl, refl, inl (dir ++ (b'/' ∷ []), [], simp (append_assoc, append-nil))),
      rw (get_filename-directory a dir),
    )

-- A file name that only ends in another one equals it, but another name is hashed.
pub eq-get_filename_suffix :
    (a : LocationInfo) (x : ℕ) (pre : Text)
    → has b'/' (x ∷ (pre ++ a.file)) ≡ false
    → let b = record a { file = x ∷ (pre ++ a.file) } in
      (eq a b ≡ true) × (get_filename a ≢ get_filename b)
unfolding get_filename
eq-get_filename_suffix a x pre h =
    let b = record a { file = x ∷ (pre ++ a.file) } in
    let kept = has-append b'/' (x ∷ pre) a.file in
    (
      (eq-SameFile a b).1 (refl, refl, inl (x ∷ pre, [], simp append-nil)),
      λ same. omega (
        arith,
        ap length same,
        length-append pre a.file,
        ap length (after_last-none b'/' (x ∷ (pre ++ a.file)) h),
        ap length (after_last-none b'/' a.file (ground arith)),
      ),
    )
