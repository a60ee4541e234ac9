-- ===== src/Http.antt =====
-- Dtool_impl/src/downloader/httprequest.rs, the answers' part of group_impl.rs, and
-- Dtool_impl/src/utils/file_name.rs, on the headers, requests and responses of the HTTP libraries.
mod Resume
pub mod Requests
mod FileName
pub mod Tests
use rs_dtool.Base.{
  ℕ, ◌≡◌, Bool, true, false, Option, none, some, Exec, returns, panics, ◌==◌, ◌&&◌, ◌||◌, not,
  if◌then◌else◌, List, [], ◌∷◌,
}
use rs_dtool.Error.{Result, ok, err}

-- The libraries: `content_range` is `typed_get::<ContentRange>()` with `bytes_len`, `accept_ranges`
-- is `typed_get::<AcceptRanges>()` with `is_bytes`, and the three tests are `typed_get` and `is_some`
-- at `ETag`, `LastModified` and `Range`.
pub record Library : Type 1 where
  pub HeaderMap : Type 0
  pub Name : Type 0
  pub Value : Type 0
  pub empty : HeaderMap
  pub get : HeaderMap → Name → Option Value
  pub insert : HeaderMap → Name → Value → HeaderMap
  pub etag : Name
  pub last_modified : Name
  pub if_unmodified_since : Name
  pub has_etag : HeaderMap → Bool
  pub has_last_modified : HeaderMap → Bool
  pub has_range : HeaderMap → Bool
  pub content_range : HeaderMap → Option (Option ℕ)
  pub accept_ranges : HeaderMap → Option Bool
  pub Response : Type 0
  pub headers : Response → HeaderMap
  pub content_length : Response → Option ℕ
  pub status : Response → ℕ
  pub Url : Type 0
  pub Version : Type 0
  pub default_version : Version
  pub Request : Type 0
  pub new_get : Url → Request
  pub set_headers : Request → HeaderMap → Request
  pub url_of : Request → Url
  pub headers_of : Request → HeaderMap
  pub version_of : Request → Version

-- `ResourceType`
pub data ResourceType : Type 0 where
  resumable : ℕ → ResourceType
  un_resumable : ℕ → ResourceType
  unconfirmed : ℕ → ResourceType
  unknown_length : ResourceType

abbrev pub resume_able : ResourceType → Bool
resume_able (resumable _) = true
resume_able (un_resumable _) = false
resume_able (unconfirmed _) = false
resume_able unknown_length = false

-- `ResourceType::length`, which gives nothing for `Unconfirmed`.
abbrev pub length_of : ResourceType → Option ℕ
length_of (resumable v) = some v
length_of (un_resumable v) = some v
length_of (unconfirmed _) = none
length_of unknown_length = none

module _ (L : Library) where
  abbrev pub include_resume_check_header : L.HeaderMap → Bool
  include_resume_check_header headers = L.has_etag headers || L.has_last_modified headers

  -- The second and the third branch of `set_file_version`.
  unfoldable pub set_modified : L.HeaderMap → L.HeaderMap → Bool × L.HeaderMap
  set_modified info response = elim (L.get info L.if_unmodified_since) [
    | none ↦ elim (L.get response L.last_modified) [
      | some motified ↦ (true, L.insert info L.if_unmodified_since motified)
      | none ↦ (false, info)
    ]
    | some _ ↦ (false, info)
  ]

  unfoldable pub set_file_version : L.HeaderMap → L.HeaderMap → Bool × L.HeaderMap
  unfolding set_modified
  set_file_version info response = elim (L.get info L.etag) [
    | none ↦ elim (L.get response L.etag) [
      | some etag ↦ (true, L.insert info L.etag etag)
      | none ↦ set_modified info response
    ]
    | some _ ↦ set_modified info response
  ]

  -- `check_response_resumability` after its first step, and with the headers that it leaves.
  unfoldable pub resumability : L.Response → ResourceType
  resumability response = elim (L.content_range (L.headers response)) [
    | some range ↦ elim range [
      | some len ↦ resumable len
      | none ↦ elim (L.content_length response) [ some len ↦ resumable len | none ↦ unknown_length ]
    ]
    | none ↦ elim (L.content_length response) [
      | none ↦ unknown_length
      | some length ↦ elim (L.accept_ranges (L.headers response)) [
        | some is_bytes ↦ if is_bytes then resumable length else un_resumable length
        | none ↦ unconfirmed length
      ]
    ]
  ]

  unfoldable pub check_response_resumability :
      L.HeaderMap → L.Response → Bool → ResourceType × L.HeaderMap
  unfolding set_file_version resumability
  check_response_resumability info response allow_unversioned_file =
      let (versioned, info') = set_file_version info (L.headers response) in
      let unversioned : ResourceType = elim (L.content_length response) [
        | some length ↦ un_resumable length
        | none ↦ unknown_length
      ] in
      if not versioned && not allow_unversioned_file
      then (unversioned, info')
      else (resumability response, info')

  abbrev pub is_partial_response : L.Response → Bool
  is_partial_response response = L.status response == 206

  -- `hendle_range_response`, without the stream of the body.
  abbrev pub hendle_range_response : L.Response → Bool
  hendle_range_response response = L.status response == 206

  pub record RequestInfo : Type 0 where
    pub url : L.Url
    pub headers : L.HeaderMap
    pub version : L.Version

  -- `RequestInfo::new`
  unfoldable pub new : L.Url → L.HeaderMap → RequestInfo
  new url headers = record { url = url; headers = headers; version = L.default_version }

  -- `RequestInfo::into`, which `build_request` and `into_request` call.
  pub build_request : RequestInfo → L.Request
  build_request info = L.set_headers (L.new_get info.url) info.headers

  unfoldable pub with_parts : L.Url → L.HeaderMap → L.Version → Result RequestInfo (Unit {0})
  with_parts url headers version =
      if not (L.has_range headers)
      then ok (record { url = url; headers = headers; version = version })
      else err tt

  -- The headers that the function builds first are dropped.
  pub with_url : L.Url → Exec RequestInfo
  unfolding with_parts
  with_url url = elim (with_parts url L.empty L.default_version) [
    | ok info ↦ returns info
    | err _ ↦ panics
  ]

  abbrev pub into_raw : RequestInfo → L.Url × L.HeaderMap × L.Version
  into_raw info = (info.url, info.headers, info.version)

  abbrev pub into_request : RequestInfo → L.Request
  unfolding build_request
  into_request info = build_request info

  -- The accessors, and the writes through the mutable ones.
  abbrev pub url : RequestInfo → L.Url
  url info = info.url

  abbrev pub url_mut : RequestInfo → L.Url → RequestInfo
  url_mut info new_url = record info { url = new_url }

  abbrev pub headers : RequestInfo → L.HeaderMap
  headers info = info.headers

  abbrev pub version : RequestInfo → L.Version
  version info = info.version

  abbrev pub version_mut : RequestInfo → L.Version → RequestInfo
  version_mut info new_version = record info { version = new_version }

  -- It looks the value of `If-Match` up, and does nothing with it.
  abbrev pub upate_etag : RequestInfo → L.Value → RequestInfo
  upate_etag info etag = info

  abbrev pub update_last_motifield : RequestInfo → Exec RequestInfo
  update_last_motifield info = panics
