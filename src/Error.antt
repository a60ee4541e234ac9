-- ===== src/Error.antt =====
-- Dtool_impl/src/downloader/error.rs: what can go wrong, and what to do about it. The error of a
-- stream and that of a writer are types of the code around, `S` and `W`; a `Duration`, an `Instant`
-- and a `SystemTime` are numbers.
mod Status
mod Display
mod Sources
mod Tests
use rs_dtool.Base.{ℕ, Option, none, some}

pub data Result {ℓ κ} (A : Type ℓ) (E : Type κ) : Type (ℓ ⊔ κ) where
  ok : A → Result A E
  err : E → Result A E

pub data SubDownloadError : Type 0 where
  unexcepted_eof : SubDownloadError

-- `StatusCode` is its number.
pub data DownloaderError : Type 0 where
  too_slow : DownloaderError
  error_succes_status : ℕ → DownloaderError
  error_content_range : DownloaderError
  error_content_length : DownloaderError

pub data RetrySuggest : Type 0 where
  break_off : RetrySuggest
  immediately : RetrySuggest
  wait_fuzzy : RetrySuggest
  wait_second : ℕ → RetrySuggest
  wait_until : ℕ → RetrySuggest
  wait_for_network : RetrySuggest

-- `CustomRetry` is not among the variants that the type lists; `error_for_succes` returns it.
pub data SubError (S W : Type 0) : Type 0 where
  writer : W → SubError S W
  network : S → Option RetrySuggest → SubError S W
  sub_download : SubDownloadError → SubError S W
  download : DownloaderError → SubError S W
  custom_retry : RetrySuggest → S → SubError S W

pub record RawNetWorkError (T : Type 0) : Type 0 where
  pub error : T

pub record IntoNetWorkError (T : Type 0) : Type 0 where
  pub error : T
  pub suggest : Option RetrySuggest

module _ {S W : Type 0} where
  abbrev pub new_network : S → SubError S W
  new_network e = network e none

  abbrev pub new_network_with_suggest : S → RetrySuggest → SubError S W
  new_network_with_suggest e suggest = network e (some suggest)

module _ {T : Type 0} where
  abbrev pub add_suggest : RawNetWorkError T → RetrySuggest → IntoNetWorkError T
  add_suggest r suggest = record { error = r.error; suggest = some suggest }

  abbrev pub none_suggest : RawNetWorkError T → IntoNetWorkError T
  none_suggest r = record { error = r.error; suggest = none }

  abbrev pub into_network_error : RawNetWorkError T → Option RetrySuggest → IntoNetWorkError T
  into_network_error r suggest = record { error = r.error; suggest = suggest }

  abbrev pub with_suggest : T → RetrySuggest → IntoNetWorkError T
  with_suggest e suggest = record { error = e; suggest = some suggest }

  abbrev pub with_raw : T → Option RetrySuggest → IntoNetWorkError T
  with_raw e suggest = record { error = e; suggest = suggest }

-- The conversions into `SubError`.
module _ {S W : Type 0} where
  abbrev pub from_raw_network : RawNetWorkError S → SubError S W
  from_raw_network r = network r.error none

  abbrev pub from_into_network : IntoNetWorkError S → SubError S W
  from_into_network v = network v.error none

  abbrev pub from_into_writer : W → SubError S W
  from_into_writer e = writer e

module _ {T : Type 0} where
  -- `RawNetWorkError::from`, `IntoNetWorkError::new` and `from`, and what `source` gives of each.
  abbrev pub into_raw_network : T → RawNetWorkError T
  into_raw_network e = record { error = e }

  abbrev pub new_into_network : T → IntoNetWorkError T
  new_into_network e = record { error = e; suggest = none }

  abbrev pub into_network : T → IntoNetWorkError T
  into_network e = record { error = e; suggest = none }

  abbrev pub source_of_raw : RawNetWorkError T → Option T
  source_of_raw r = some r.error

  abbrev pub source_of_into : IntoNetWorkError T → Option T
  source_of_into v = some v.error

-- `From<SubDownloadError>`, whose body names the type where it means the value.
abbrev pub from_sub_download : {S W : Type 0} → SubDownloadError → SubError S W
from_sub_download e = sub_download e

-- After retries: `Info` is what the limiter has noted of them.
pub data SuperError (S Info W : Type 0) : Type 0 where
  super_writer : W → SuperError S Info W
  super_other : DownloaderError → SuperError S Info W
  super_network : Info → S → SuperError S Info W

pub record NetWorkError (S Info : Type 0) : Type 0 where
  pub retry_info : Info
  pub error : S

pub data RetryOperation (S Info W : Type 0) : Type 0 where
  break_with_error : SuperError S Info W → RetryOperation S Info W
  operate_immediately : RetryOperation S Info W
  operate_fuzzy : RetryOperation S Info W
  operate_second : ℕ → RetryOperation S Info W
  operate_until : ℕ → RetryOperation S Info W
  operate_for_network_fuzzy : RetryOperation S Info W

pub data RetryResult (S Info W : Type 0) : Type 0 where
  break_result : SuperError S Info W → RetryResult S Info W
  wait_result : ℕ → RetryResult S Info W

-- A limiter with its state; `report_result` gives the state that it leaves too. The limit that the
-- trait gives is no time.
pub record RequestLimiter (S W : Type 0) : Type 1 where
  pub Limiter : Type 0
  pub Info : Type 0
  pub report_result : Limiter → S → Option RetrySuggest → RetryOperation S Info W × Limiter

abbrev pub get_request_limit : {S W : Type 0} (R : RequestLimiter S W) → R.Limiter → ℕ
get_request_limit R limiter = 0
