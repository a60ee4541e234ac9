-- ===== src/Http/Requests.antt =====
-- The requests that a `RequestInfo` of Dtool_impl/src/downloader/httprequest.rs makes.
use rs_dtool.Base.{arith, ◌≡◌, ◌∙◌, ap, false, returns}
use rs_dtool.Error.{ok}
use rs_dtool.Http.{Library, RequestInfo, build_request, with_parts, with_url}

-- The documented behaviour of a request: it keeps what it is made with, a new one has the default
-- version, and `headers_mut` gives its headers and no other part of it.
pub record RequestLaws (L : Library) : Type 0 where
  pub url_of-new : (u : L.Url) → L.url_of (L.new_get u) ≡ u
  pub version_of-new : (u : L.Url) → L.version_of (L.new_get u) ≡ L.default_version
  pub headers_of-set : (r : L.Request) (h : L.HeaderMap) → L.headers_of (L.set_headers r h) ≡ h
  pub url_of-set : (r : L.Request) (h : L.HeaderMap) → L.url_of (L.set_headers r h) ≡ L.url_of r
  pub version_of-set :
      (r : L.Request) (h : L.HeaderMap) → L.version_of (L.set_headers r h) ≡ L.version_of r

module _ (L : Library) (laws : RequestLaws L) where
  -- A request made from what `with_parts` gave has its URL and its headers, which do not ask for a
  -- range, and the default version, whichever was given. The requests are as documented.
  pub build_request-with_parts :
      (url : L.Url) (headers : L.HeaderMap) (version : L.Version) (info : RequestInfo L)
      → with_parts L url headers version ≡ ok info
      → (L.url_of (build_request L info) ≡ url)
        × (L.headers_of (build_request L info) ≡ headers)
        × (L.has_range (L.headers_of (build_request L info)) ≡ false)
        × (L.version_of (build_request L info) ≡ L.default_version)
  unfolding build_request with_parts
  build_request-with_parts url headers version info made =
      let e : info.headers ≡ headers = ground arith in
      let e' : info.url ≡ url = ground arith in
      let free : L.has_range headers ≡ false = ground arith in
      let url_kept = laws.url_of-set (L.new_get info.url) info.headers in
      let kept = laws.headers_of-set (L.new_get info.url) info.headers in
      let version_kept = laws.version_of-set (L.new_get info.url) info.headers in
      (
        url_kept ∙ laws.url_of-new info.url ∙ e',
        kept ∙ e,
        ap L.has_range (kept ∙ e) ∙ free,
        version_kept ∙ laws.version_of-new info.url,
      )

  -- `with_url` gives an information, and so does not panic, if an empty header map asks for no
  -- range; its request is for the URL, with no header. The requests are as documented.
  pub build_request-with_url :
      (url : L.Url)
      → L.has_range L.empty ≡ false
      → (info : RequestInfo L) × (with_url L url ≡ returns info)
        × (L.url_of (build_request L info) ≡ url)
        × (L.headers_of (build_request L info) ≡ L.empty)
  unfolding build_request with_url with_parts
  build_request-with_url url free = (
    record { url = url; headers = L.empty; version = L.default_version },
    ground arith,
    laws.url_of-set (L.new_get url) L.empty ∙ laws.url_of-new url,
    laws.headers_of-set (L.new_get url) L.empty,
  )
