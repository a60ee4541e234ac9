-- ===== src/Client/Race.antt =====
-- `build_new` of Dtool_impl/src/downloader/group_impl.rs: where the answer to a first request leaves open
-- whether the download can be split, it is fetched while a second request asks, and the fetching is
-- stopped when the answer to that comes first. The function returns nothing, and a variable that its last lines
-- read is never assigned: `build_new` here ends before them and gives what the fetching leaves, and
-- `resource_type` is what they make of a value of that variable.
use rs_dtool.Base.{ℕ, zero, suc, Bool, true, false, Option, none, some, Exec, returns, ◌>>=◌, Build}
use rs_dtool.Http.{
  Library, RequestInfo, ResourceType, resumable, un_resumable, unconfirmed,
  check_response_resumability,
}
use rs_dtool.Error.{Result, ok, err}
use rs_dtool.Transfer.{BufWriter, Stream}
use rs_dtool.Transfer.Download.{DownloadContext, new_context, download}
use rs_dtool.Client.{Client, range_request, execute_unwrap, handle_test_request}
use rs_dtool.Client.Answers.{Answers}

-- Which future `select` finds done first. A request that is dropped leaves the network somehow; the
-- answer to the test comes while the download is in the round of that number.
pub data Selected (Net : Type 0) : Type 0 where
  download_first : Net → Selected Net
  test_first : ℕ → Selected Net

-- `abort_signal` with the rounds until it is set, if it is.
abbrev pub abort_signal : Option ℕ → Bool × Option ℕ
abort_signal none = (false, none)
abort_signal (some zero) = (true, some zero)
abort_signal (some (suc n)) = (false, some n)

-- What the fetching leaves: the context and the counter.
abbrev pub Fetched : BufWriter → Type 0 → Type 0
Fetched W S = DownloadContext W S × ℕ

-- The last lines: the type of the resource by `test_response`.
abbrev pub resource_type : {R : Type 0} → ℕ → Result (Option R) (Unit {0}) → ResourceType
resource_type len (ok (some _)) = resumable len
resource_type len (ok none) = un_resumable len
resource_type len (err _) = unconfirmed len

module _ {L : Library} (C : Client L) {W : BufWriter} {S : Type 0}
    (bytes_stream : L.Response → Stream W S) where
  -- The two arms of the `select`.
  abbrev pub select_test :
      Build
      → C.Net
      → RequestInfo L
      → DownloadContext W S
      → ℕ
      → Selected C.Net
      → Exec (Option (Fetched W S) × C.Net)
  select_test b net info task remain (download_first net') = do
    (_, task', remain', _) ← download b abort_signal task 0 remain none
    returns (some (task', remain'), net')
  select_test b net info task remain (test_first n) = do
    (_, net') ← handle_test_request C net info (C.from 1000)
    (_, task', remain', _) ← download b abort_signal task 0 remain (some n)
    returns (some (task', remain'), net')

  abbrev pub if_unconfirmed :
      Build
      → C.Net
      → RequestInfo L
      → L.Response
      → W.Disk
      → Selected C.Net
      → ResourceType
      → Exec (Option (Fetched W S) × C.Net)
  if_unconfirmed b net info response pwriter selected (unconfirmed len) =
      select_test b net info (new_context (bytes_stream response) pwriter (some len)) len selected
  if_unconfirmed b net info response pwriter selected _ = returns (none, net)

  -- What follows the check of the answer, with the headers that it leaves.
  abbrev pub checked :
      Build
      → C.Net
      → RequestInfo L
      → L.Response
      → W.Disk
      → Selected C.Net
      → ResourceType × L.HeaderMap
      → Exec (RequestInfo L × Option (Fetched W S) × C.Net)
  checked b net info response pwriter selected (range_type, headers) = do
    let info' = record info { headers = headers }
    (fetched, net') ← if_unconfirmed b net info' response pwriter selected range_type
    returns (info', fetched, net')

  unfoldable pub build_new :
      Build
      → C.Net
      → RequestInfo L
      → W.Disk
      → Selected C.Net
      → Exec (RequestInfo L × Option (Fetched W S) × C.Net)
  build_new b net info pwriter selected = do
    request ← range_request C info C.unbounded
    (response, net') ← execute_unwrap C net request
    checked b net' info response pwriter selected
        (check_response_resumability L info.headers response false)
