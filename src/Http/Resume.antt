-- ===== src/Http/Resume.antt =====
-- `set_file_version` and `check_response_resumability` of Dtool_impl/src/downloader/group_impl.rs: when
-- an answer makes a download resumable, and what a second look at the same answer says.
use rs_dtool.Base.{
  ℕ, ◌≡◌, ap, Bool, true, false, none, some, ◌⊎◌, inl, inr, ◌↔◌, arith, Option-cases,
}
use rs_dtool.Http.{
  Library, resumable, set_modified, set_file_version, resumability, check_response_resumability,
}

-- The documented behaviour of a header map: a lookup finds what was inserted last under a name, and
-- an insertion leaves the other names. The two names of a version are different.
pub record HeaderLaws (L : Library) : Type 0 where
  pub get-insert : (m : L.HeaderMap) (n : L.Name) (v : L.Value) → L.get (L.insert m n v) n ≡ some v
  pub get-insert_other :
      (m : L.HeaderMap) (n n' : L.Name) (v : L.Value)
      → ¬ (n ≡ n')
      → L.get (L.insert m n v) n' ≡ L.get m n'
  pub names_differ : ¬ (L.if_unmodified_since ≡ L.etag)

-- A header that the request lacks and the answer has.
abbrev pub Fills : (L : Library) → L.HeaderMap → L.Name → L.HeaderMap → L.Name → Type 0
Fills L info n response n' = (L.get info n ≡ none) × ((v : L.Value) × (L.get response n' ≡ some v))

module _ (L : Library) where
  -- `set_file_version` gives true exactly if there is something new to note: the request has no ETag
  -- and the answer has one, or the request has no date and the answer has one.
  pub set_file_version-true_iff :
      (info response : L.HeaderMap)
      → ((set_file_version L info response).0 ≡ true) ↔ (
          Fills L info L.etag response L.etag
          ⊎ Fills L info L.if_unmodified_since response L.last_modified)
  unfolding set_file_version set_modified
  set_file_version-true_iff info response = ground arith

  -- `check_response_resumability` says that a download of `n` bytes is resumable exactly if the
  -- version was newly noted or an unversioned file is allowed, and the length `n` is that of the
  -- content range or, in an answer whose range has none, the content's, or the answer has no
  -- content range, has that content length and accepts ranges of bytes.
  pub check_response_resumability-resumable_iff :
      (info : L.HeaderMap) (response : L.Response) (allow : Bool) (n : ℕ)
      → ((check_response_resumability L info response allow).0 ≡ resumable n) ↔ (
          (((set_file_version L info (L.headers response)).0 ≡ true) ⊎ (allow ≡ true))
          × ((L.content_range (L.headers response) ≡ some (some n))
              ⊎ ((L.content_range (L.headers response) ≡ some none)
                  × (L.content_length response ≡ some n))
              ⊎ ((L.content_range (L.headers response) ≡ none)
                  × (L.content_length response ≡ some n)
                  × (L.accept_ranges (L.headers response) ≡ some true))))
  unfolding check_response_resumability resumability
  check_response_resumability-resumable_iff info response allow n = ground arith

module _ (L : Library) (laws : HeaderLaws L) where
  -- If an answer has an ETag and no date, then a second look at it, with the headers that the first
  -- look left and with unversioned files not allowed, never says that the download is resumable,
  -- whatever the first one said. The header maps are as documented.
  pub check_response_resumability_again :
      (info : L.HeaderMap) (response : L.Response) (etag : L.Value) (n : ℕ)
      → L.get info L.etag ≡ none
      → L.get (L.headers response) L.etag ≡ some etag
      → L.get (L.headers response) L.last_modified ≡ none
      → ¬ (
          (check_response_resumability L
            (check_response_resumability L info response false).1
            response
            false).0
          ≡ resumable n)
  unfolding check_response_resumability set_file_version set_modified
  check_response_resumability_again info response etag n new tagged undated =
      let noted = laws.get-insert info L.etag etag in ground arith

  -- Looking at an answer whose version is noted, and at one that has none of what is missing.
  noted-set_file_version :
      (info response : L.HeaderMap)
      → ¬ (L.get info L.etag ≡ none) ⊎ (L.get response L.etag ≡ none)
      → ¬ (L.get info L.if_unmodified_since ≡ none) ⊎ (L.get response L.last_modified ≡ none)
      → set_file_version L info response ≡ (false, info)
  unfolding set_file_version set_modified
  noted-set_file_version info response tagged dated = ground arith

  set_modified-tagged :
      (info response : L.HeaderMap)
      → ¬ (L.get info L.etag ≡ none) ⊎ (L.get response L.etag ≡ none)
      → ¬ (L.get (set_modified L info response).1 L.etag ≡ none) ⊎ (L.get response L.etag ≡ none)
  unfolding set_modified
  set_modified-tagged info response tagged = elim (Option-cases (L.get response L.last_modified)) [
    | inl none_there ↦ ground arith
    | inr (v, there) ↦
        let here = laws.get-insert_other info L.if_unmodified_since L.etag v laws.names_differ in
        ground arith
  ]

  set_modified-dated :
      (info response : L.HeaderMap)
      → ¬ (L.get (set_modified L info response).1 L.if_unmodified_since ≡ none)
        ⊎ (L.get response L.last_modified ≡ none)
  unfolding set_modified
  set_modified-dated info response = elim (Option-cases (L.get response L.last_modified)) [
    | inl none_there ↦ inr none_there
    | inr (v, there) ↦ let here = laws.get-insert info L.if_unmodified_since v in ground arith
  ]

  set_file_version-tagged :
      (info response : L.HeaderMap)
      → ¬ (L.get (set_file_version L info response).1 L.etag ≡ none)
        ⊎ (L.get response L.etag ≡ none)
  unfolding set_file_version
  set_file_version-tagged info response = elim (Option-cases (L.get response L.etag)) [
    | inl none_there ↦ inr none_there
    | inr (v, there) ↦
        let here = laws.get-insert info L.etag v in
        let later = set_modified-tagged info response in ground arith
  ]

  set_file_version_of_tagged :
      (info response : L.HeaderMap)
      → ¬ (L.get info L.etag ≡ none) ⊎ (L.get response L.etag ≡ none)
      → set_file_version L info response ≡ set_modified L info response
  unfolding set_file_version
  set_file_version_of_tagged info response tagged = ground arith

  -- A third look at an answer never finds a version to note: after two calls of `set_file_version`
  -- with the same answer, one more gives false. The header maps are as documented.
  pub set_file_version_thrice :
      (info response : L.HeaderMap)
      → (set_file_version L
          (set_file_version L (set_file_version L info response).1 response).1
          response).0
        ≡ false
  unfolding set_file_version set_modified
  set_file_version_thrice info response =
      let first = (set_file_version L info response).1 in
      let tagged = set_file_version-tagged info response in
      let second = set_file_version_of_tagged first response tagged in
      let tagged' = set_modified-tagged first response tagged in
      let dated = set_modified-dated first response in
      rw second (
        ap (λ p. p.0)
          (noted-set_file_version (set_modified L first response).1 response tagged' dated))
