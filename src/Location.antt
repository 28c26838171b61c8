-- ===== src/Location.antt =====
-- src/BugReports.hpp and src/BugReports.cpp: `LocationInfo`. A text is the list of its bytes, and
-- `std::hash` is a parameter of the hash function.
pub mod Matching
use Prim.Native.Nat.{bit_xor}
use hippocrates.Base.{
  ℕ, Bool, true, false, not, ◌&&◌, length, ltb, if◌then◌else◌, Text, text_eq, occurs_in, after_last,
  [], ℤ, pos, negsuc, int_eq, int_lt,
}

pub record LocationInfo : Type 0 where
  pub function : Text
  pub file : Text
  pub line : ℤ

-- The default constructor: `line = -1` stands for an unknown line.
abbrev pub no_location : LocationInfo
no_location = record { function = []; file = []; line = negsuc 0 }

-- Just the file name, without its directories.
unfoldable pub get_filename : LocationInfo → Text
get_filename li = after_last b'/' li.file

module _ (hash_text : Text → ℕ) (hash_int : ℤ → ℕ) where
  unfoldable pub hash : LocationInfo → ℕ
  hash li =
      bit_xor (bit_xor (hash_text li.function) (hash_text (get_filename li))) (hash_int li.line)

-- `operator==`. The shorter file name is searched in the longer one.
unfoldable pub eq : LocationInfo → LocationInfo → Bool
eq a b =
    if not (text_eq a.function b.function)
    then false
    else if not (int_eq a.line b.line)
    then false
    else if ltb (length a.file) (length b.file)
    then occurs_in a.file b.file
    else occurs_in b.file a.file

unfoldable pub valid : LocationInfo → Bool
valid li = int_lt (pos 0) li.line
