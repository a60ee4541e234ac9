-- ===== src/Client.antt =====
-- Requests over a client: the functions of Dtool_impl/src/downloader/group_impl.rs that send a request and look at
-- the answer, and Dtool_impl/src/downloader/stream_creater.rs. The client, the network and the `Range`
-- header are the libraries'. `test_unpatical_response_resumeable`, which three of them call, is
-- read as `check_response_resumability`, its name now.
mod Answers
mod Download
mod Race
mod Tests
use rs_dtool.Base.{
  ℕ, ◌≡◌, Bool, false, Option, none, some, Exec, returns, panics, ◌>>=◌, unwrap, Build,
  if◌then◌else◌, ◌==◌,
}
use rs_dtool.Error.{IntoNetWorkError, Result, ok, err}
use rs_dtool.Http.{
  Library, RequestInfo, ResourceType, build_request, check_response_resumability,
  is_partial_response,
}
use rs_dtool.Transfer.{BufWriter, Stream}
use rs_dtool.Transfer.Download.{DownloadContextError, DownloadContext, new_context, download}

-- `Net` is the state of the client and of the servers behind it. `range` is `Range::bytes`, at the bounds
-- `..` and `n..` that the code writes, and `insert_range` is `typed_insert` of a `Range`.
pub record Client (L : Library) : Type 1 where
  pub Net : Type 0
  pub Error : Type 0
  pub execute : Net → L.Request → Result L.Response Error × Net
  pub error_for_status : L.Response → Result L.Response Error
  pub Bounds : Type 0
  pub unbounded : Bounds
  pub from : ℕ → Bounds
  pub Range : Type 0
  pub range : Bounds → Option Range
  pub insert_range : L.HeaderMap → Range → L.HeaderMap

-- The trait of `stream_creater.rs`; `Family` is the state of what makes the streams.
pub record StreamFamily (L : Library) (Family : Type 0) : Type 1 where
  pub Error : Type 0
  pub new_stream :
      {S : Type 0} → Family → RequestInfo L → Exec (Result S (IntoNetWorkError Error) × Family)

-- `Result::unwrap`
abbrev pub unwrap_result {ℓ κ} : {A : Type ℓ} {E : Type κ} → Result A E → Exec A
unwrap_result (ok a) = returns a
unwrap_result (err e) = panics

module _ {L : Library} (C : Client L) where
  open C use {Net, Error}

  unfoldable pub send_request : Net → RequestInfo L → Result L.Response Error × Net
  send_request net info =
      let (r, net') = C.execute net (build_request L info) in
      elim r [ ok response ↦ (C.error_for_status response, net') | err e ↦ (err e, net') ]

  unfoldable pub simple_test :
      Net → RequestInfo L → Bool → Result (L.Response × ResourceType) Error × RequestInfo L × Net
  unfolding send_request
  simple_test net info allow_unversioned_file =
      let (r, net') = send_request net info in
      elim r [
        | ok response ↦
            let (resource_type, headers) =
              check_response_resumability L info.headers response allow_unversioned_file in
            (ok (response, resource_type), record info { headers = headers }, net')
        | err e ↦ (err e, info, net')
      ]

  -- A request of the information, with a range in its headers.
  unfoldable pub range_request : RequestInfo L → C.Bounds → Exec L.Request
  range_request info bounds = do
    let request = build_request L info
    range ← unwrap (C.range bounds)
    returns (L.set_headers request (C.insert_range (L.headers_of request) range))

  -- `client.execute(_).await.unwrap().error_for_status().unwrap()`
  unfoldable pub execute_unwrap : Net → L.Request → Exec (L.Response × Net)
  execute_unwrap net request = do
    let (r, net') = C.execute net request
    answer ← unwrap_result r
    response ← unwrap_result (C.error_for_status answer)
    returns (response, net')

  -- `Result<_, ()>` for the declared `DownloadContextError<(), ()>`, whose declaration is missing.
  unfoldable pub handle_first_request :
      Net
      → RequestInfo L
      → Exec (Result (L.Response × ResourceType) (Unit {0}) × RequestInfo L × Net)
  unfolding range_request execute_unwrap
  handle_first_request net info = do
    request ← range_request info C.unbounded
    (response, net') ← execute_unwrap net request
    let (resource_type, headers) = check_response_resumability L info.headers response false
    returns (ok (response, resource_type), record info { headers = headers }, net')

  unfoldable pub handle_test_request :
      Net → RequestInfo L → C.Bounds → Exec (Result (Option L.Response) (Unit {0}) × Net)
  unfolding range_request execute_unwrap
  handle_test_request net info bounds = do
    request ← range_request info bounds
    (response, net') ← execute_unwrap net request
    let confirmed = if L.status response == 206 then some response else none
    returns (ok confirmed, net')

  -- The headers of the first request are borrowed and left; a second one is sent.
  unfoldable pub send_second_request : Net → RequestInfo L → Exec (L.Response × Net)
  send_second_request net info = do
    let (r, net') = C.execute net (build_request L info)
    response ← unwrap_result r
    returns (response, net')

  abbrev pub test_partial_request_rangeable : L.Response → Bool
  test_partial_request_rangeable response = is_partial_response L response

  -- `new_stream` of `StreamFamily`, whose error is never returned; `into_request` is `build_request`.
  module _ {B : Type 0} (bytes_stream : L.Response → B) where
    unfoldable pub new_stream : Net → RequestInfo L → Exec (B × Net)
    new_stream net info = do
      let (r, net') = C.execute net (build_request L info)
      response ← unwrap_result r
      returns (bytes_stream response, net')

    abbrev pub handle_first_full_response :
        RequestInfo L → L.Response → Bool → B × ResourceType × RequestInfo L
    handle_first_full_response info response allow_unversioned_file =
        let (resource_type, headers) =
          check_response_resumability L info.headers response allow_unversioned_file in
        (bytes_stream response, resource_type, record info { headers = headers })

    abbrev pub handle_retry_full_response : L.Response → B
    handle_retry_full_response response = bytes_stream response

  -- `first_response_download`: `abort_me` is a cell that no other task sets while this one runs. The
  -- function returns nothing, and the result of `download` is dropped.
  module _ {W : BufWriter} {S : Type 0} (bytes_stream : L.Response → Stream W S) where
    unfoldable pub first_response_download :
        Build
        → Net
        → RequestInfo L
        → W.Disk
        → ℕ
        → Bool
        → Exec (RequestInfo L × DownloadContext W S × ℕ × Net)
    unfolding range_request execute_unwrap
    first_response_download b net info writer remain abort_me = do
      request ← range_request info (C.from 0)
      (response, net') ← execute_unwrap net request
      let (_, headers) = check_response_resumability L info.headers response false
      let task = new_context (bytes_stream response) writer none
      (_, task', remain', _) ← download b (λ a. (a, a)) task 0 remain abort_me
      returns (record info { headers = headers }, task', remain', net')
