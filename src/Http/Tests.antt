-- ===== src/Http/Tests.antt =====
-- Examples for the headers, requests and responses: header maps are functions, and a value is a number.
use rs_dtool.Base.{
  ℕ, ◌≡◌, refl, Bool, true, false, Option, none, some, ◌==◌, if◌then◌else◌, ◌↔◌, ◌⊎◌, arith, [],
  ◌∷◌, ◌++◌, returns,
}
use rs_dtool.Http.{
  Library, resumable, set_file_version, check_response_resumability, RequestInfo, build_request,
  with_parts, with_url,
}
use rs_dtool.Http.Resume.{
  HeaderLaws, Fills, set_file_version-true_iff, check_response_resumability-resumable_iff,
  check_response_resumability_again, set_file_version_thrice,
}
use rs_dtool.Http.Requests.{RequestLaws, build_request-with_parts, build_request-with_url}
use rs_dtool.Http.FileName.{
  slash, get_file_name, get_file_name-after_slash, get_file_name_of_directory,
}

abbrev pub Headers : Type 0
Headers = ℕ → Option ℕ

abbrev is_some : Option ℕ → Bool
is_some none = false
is_some (some _) = true

abbrev pub plain : Library
plain = record {
  HeaderMap = Headers;
  Name = ℕ;
  Value = ℕ;
  empty = λ n. none;
  get = λ m n. m n;
  insert = λ m n v n'. if n == n' then some v else m n';
  etag = 0;
  last_modified = 1;
  if_unmodified_since = 2;
  has_etag = λ m. is_some (m 0);
  has_last_modified = λ m. is_some (m 1);
  has_range = λ m. is_some (m 3);
  content_range = λ m. elim (m 4) [ none ↦ none | some n ↦ some (some n) ];
  accept_ranges = λ m. elim (m 5) [ none ↦ none | some n ↦ some (n == 1) ];
  Response = Headers × Option ℕ × ℕ;
  headers = λ r. r.0;
  content_length = λ r. r.1;
  status = λ r. r.2;
  Url = ℕ;
  Version = ℕ;
  default_version = 11;
  Request = ℕ × Headers × ℕ;
  new_get = λ u. (u, λ n. none, 11);
  set_headers = λ r h. (r.0, h, r.2);
  url_of = λ r. r.0;
  headers_of = λ r. r.1;
  version_of = λ r. r.2;
}

header_laws : HeaderLaws plain
header_laws = record {
  get-insert = λ m n v. ground arith;
  get-insert_other = λ m n n' v differ. ground arith;
  names_differ = λ e. absurd (omega (arith, e));
}

pub request_laws : RequestLaws plain
request_laws = record {
  url_of-new = λ u. refl;
  version_of-new = λ u. refl;
  headers_of-set = λ r h. refl;
  url_of-set = λ r h. refl;
  version_of-set = λ r h. refl;
}

-- An answer with an ETag and no date, whose 100 bytes can be asked for in ranges.
abbrev answered : Headers
answered n = if n == 0 then some 7 else if n == 5 then some 1 else none

abbrev answer : Headers × Option ℕ × ℕ
answer = (answered, some 100, 200)

abbrev asked : Headers
asked n = none

set_file_version-true_iff_example :
    ((set_file_version plain asked answered).0 ≡ true)
    ↔ (Fills plain asked 0 answered 0 ⊎ Fills plain asked 2 answered 1)
set_file_version-true_iff_example = set_file_version-true_iff plain asked answered

-- The first look says that the download is resumable.
first_look : (check_response_resumability plain asked answer false).0 ≡ resumable 100
unfolding check_response_resumability
first_look = refl

check_response_resumability-resumable_iff_example :
    ((check_response_resumability plain asked answer false).0 ≡ resumable 100) ↔ (
      (((set_file_version plain asked answered).0 ≡ true) ⊎ (◌≡◌ {A = Bool} false true))
      × ((plain.content_range answered ≡ some (some 100))
          ⊎ ((plain.content_range answered ≡ some none) × (plain.content_length answer ≡ some 100))
          ⊎ ((plain.content_range answered ≡ none)
              × (plain.content_length answer ≡ some 100)
              × (plain.accept_ranges answered ≡ some true))))
check_response_resumability-resumable_iff_example =
    check_response_resumability-resumable_iff plain asked answer false 100

check_response_resumability_again_example : ¬ (
    (check_response_resumability plain
      (check_response_resumability plain asked answer false).1
      answer
      false).0
    ≡ resumable 100)
check_response_resumability_again_example =
    check_response_resumability_again plain header_laws asked answer 7 100 refl refl refl

set_file_version_thrice_test :
    (set_file_version plain
      (set_file_version plain (set_file_version plain asked answered).1 answered).1
      answered).0
    ≡ false
set_file_version_thrice_test = set_file_version_thrice plain header_laws asked answered

abbrev info : RequestInfo plain
info = record { url = 5; headers = asked; version = 20 }

build_request-with_parts_example :
    (plain.url_of (build_request plain info) ≡ 5)
    × (plain.headers_of (build_request plain info) ≡ asked)
    × (plain.has_range (plain.headers_of (build_request plain info)) ≡ false)
    × (plain.version_of (build_request plain info) ≡ 11)
unfolding with_parts
build_request-with_parts_example = build_request-with_parts plain request_laws 5 asked 20 info refl

build_request-with_url_test :
    (made : RequestInfo plain) × (with_url plain 5 ≡ returns made)
    × (plain.url_of (build_request plain made) ≡ 5)
    × (plain.headers_of (build_request plain made) ≡ plain.empty)
build_request-with_url_test = build_request-with_url plain request_laws 5 refl

get_file_name-after_slash_test :
    get_file_name ((slash ∷ 97 ∷ []) ++ slash ∷ 98 ∷ 99 ∷ []) ≡ some (98 ∷ 99 ∷ [])
get_file_name-after_slash_test =
    get_file_name-after_slash (slash ∷ 97 ∷ []) 98 (99 ∷ [])
      ((λ e. absurd (omega (arith, e))), ((λ e. absurd (omega (arith, e))), tt))

-- `/a/`
get_file_name_of_directory_test : get_file_name ((slash ∷ 97 ∷ []) ++ slash ∷ []) ≡ none
get_file_name_of_directory_test = get_file_name_of_directory (slash ∷ 97 ∷ [])
