-- ===== src/Http/FileName.antt =====
-- Dtool_impl/src/utils/file_name.rs; `get_file_name` on the path of a URL as the codes of its characters.
use mathlib.Core.List.{append-nil, append_assoc}
use rs_dtool.Base.{
  ℕ, ◌≡◌, refl, false, List, [], ◌∷◌, ◌++◌, Option, none, some, ◌==◌, if◌then◌else◌, Bool-cases,
  inl, inr, sym, ◌∙◌, arith,
}
use rs_dtool.Http.{Library}

abbrev pub slash : ℕ
slash = 47

-- What `rsplit('/')` gives first: the characters after the last `/`, or all if there is none. `seen`
-- are those since the last one so far.
pub after_last : List ℕ → List ℕ → List ℕ
after_last seen [] = seen
after_last seen (c ∷ cs) = if c == slash then after_last [] cs else after_last (seen ++ c ∷ []) cs

pub get_file_name : List ℕ → Option (List ℕ)
unfolding after_last
get_file_name path = elim (after_last [] path) [ [] ↦ none | c ∷ cs ↦ some (c ∷ cs) ]

-- `get_file_size`, from the content range of a response.
abbrev pub get_file_size : (L : Library) → L.Response → Option ℕ
get_file_size L response = elim (L.content_range (L.headers response)) [
  | none ↦ none
  | some bytes_len ↦ bytes_len
]

-- No character is a `/`.
abbrev pub NoSlash : List ℕ → Type 0
NoSlash [] = Unit
NoSlash (c ∷ cs) = ¬ (c ≡ slash) × NoSlash cs

after_last-NoSlash : (seen name : List ℕ) → NoSlash name → after_last seen name ≡ seen ++ name
unfolding after_last
after_last-NoSlash seen [] free = sym (append-nil seen)
after_last-NoSlash seen (c ∷ cs) free =
    let e : (c == slash) ≡ false = ground (arith, free.0) in
    rw e (after_last-NoSlash (seen ++ c ∷ []) cs free.1 ∙ append_assoc seen (c ∷ []) cs)

after_last-slash :
    (seen directory name : List ℕ)
    → NoSlash name
    → after_last seen (directory ++ slash ∷ name) ≡ name
unfolding after_last
after_last-slash seen [] name free = after_last-NoSlash [] name free
after_last-slash seen (c ∷ cs) name free = elim (Bool-cases (c == slash)) [
  | inl e ↦ rw e (after_last-slash [] cs name free)
  | inr e ↦ rw e (after_last-slash (seen ++ c ∷ []) cs name free)
]

-- The name of a file is what comes after the last `/` of the path, if this is not empty.
pub get_file_name-after_slash :
    (directory : List ℕ) (c : ℕ) (name : List ℕ)
    → NoSlash (c ∷ name)
    → get_file_name (directory ++ slash ∷ c ∷ name) ≡ some (c ∷ name)
unfolding get_file_name
get_file_name-after_slash directory c name free =
    rw (after_last-slash [] directory (c ∷ name) free, get_file_name) refl

-- A path that ends in `/` names no file, whatever comes before.
pub get_file_name_of_directory :
    (directory : List ℕ) → get_file_name (directory ++ slash ∷ []) ≡ none
unfolding get_file_name
get_file_name_of_directory directory = rw (after_last-slash [] directory [] tt, get_file_name) refl
