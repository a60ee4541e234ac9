-- ===== src/Error/Sources.antt =====
-- Dtool_impl/src/downloader/error.rs: what `source` and `Debug` give of the errors, and the text of
-- `SubError`. Where a `match` has no arm for a variant, there is nothing to give: the Rust compiler
-- refuses it. How a field is written by `Debug` is its own type's.
use Prim.Native.String.{String}
use rs_dtool.Base.{Option, none, some}
use rs_dtool.Error.{
  DownloaderError, RetrySuggest, SubError, writer, network, sub_download, download, custom_retry,
  SuperError, super_writer, super_other, super_network,
}
use rs_dtool.Error.Display.{◌<>◌}

-- What an error refers to as its cause.
pub data Source (S W : Type 0) : Type 0 where
  of_stream : S → Source S W
  of_writer : W → Source S W
  of_download : DownloaderError → Source S W
  of_suggest : RetrySuggest → Source S W

module _ {S W : Type 0} where
  -- `SubError`'s `Display`: no arm for `SubDownload`.
  abbrev pub display_sub : SubError S W → Option String
  display_sub (network _ _) = some "网络错误"
  display_sub (writer _) = some "写入错误"
  display_sub (download _) = some "逻辑错误"
  display_sub (custom_retry _ _) = some "todo"
  display_sub (sub_download _) = none

  -- Its `source`: no arm for `SubDownload` either.
  abbrev pub source_of_sub : SubError S W → Option (Source S W)
  source_of_sub (network e _) = some (of_stream e)
  source_of_sub (writer e) = some (of_writer e)
  source_of_sub (download e) = some (of_download e)
  source_of_sub (custom_retry r _) = some (of_suggest r)
  source_of_sub (sub_download _) = none

  -- `SuperError`'s `source`, where the arms lack the `Some`.
  abbrev pub source_of_super : {Info : Type 0} → SuperError S Info W → Source S W
  source_of_super (super_network _ e) = of_stream e
  source_of_super (super_writer e) = of_writer e
  source_of_super (super_other e) = of_download e

-- `f.debug_tuple(name).field(e).finish()`
abbrev pub debug_tuple : String → String → String
debug_tuple name field = name <> "(" <> field <> ")"

module _ {S W : Type 0} (stream : S → String) (writes : W → String)
    (other : DownloaderError → String) where
  abbrev pub debug_sub : SubError S W → Option String
  debug_sub (writer e) = some (debug_tuple "Writer" (writes e))
  debug_sub (download e) = some (debug_tuple "Other" (other e))
  debug_sub (network e _) = some (debug_tuple "NetWork" (stream e))
  debug_sub (sub_download _) = none
  debug_sub (custom_retry _ _) = none

  abbrev pub debug_super : {Info : Type 0} → SuperError S Info W → String
  debug_super (super_network _ e) = debug_tuple "NetWork" (stream e)
  debug_super (super_writer e) = debug_tuple "Writer" (writes e)
  debug_super (super_other e) = debug_tuple "Other" (other e)

-- `IntoWriterError`, which wraps the error of a writer.
pub record IntoWriterError (E : Type 0) : Type 0 where
  pub error : E

module _ {T : Type 0} where
  abbrev pub into_writer : T → IntoWriterError T
  into_writer e = record { error = e }

  abbrev pub display_into_writer : (T → String) → IntoWriterError T → String
  display_into_writer display e = display e.error

  abbrev pub source_of_into_writer : IntoWriterError T → Option T
  source_of_into_writer e = some e.error

abbrev pub from_wrapped_writer : {S W : Type 0} → IntoWriterError W → SubError S W
from_wrapped_writer e = writer e.error
