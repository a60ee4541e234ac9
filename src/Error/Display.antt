-- ===== src/Error/Display.antt =====
-- `Display` of the errors of Dtool_impl/src/downloader/error.rs: what each writes. How a status, a number or a
-- time is written, and the reason of a status, are the libraries'.
use Prim.Native.Char.{Char}
use Prim.Native.String.{String}
use native.Mathlib.Decide.{ℕ_discrete}
use rs_dtool.Base.{
  zero, suc, ap, sym, ◌∙◌, ℕ, ◌≡◌, ◌≢◌, ◌==◌, Option, none, some, if◌then◌else◌, false, arith,
}
use rs_dtool.Error.{
  SubDownloadError, unexcepted_eof, DownloaderError, too_slow, error_succes_status,
  error_content_range, error_content_length, RetrySuggest, break_off, immediately, wait_fuzzy,
  wait_second, wait_until, wait_for_network, RawNetWorkError, IntoNetWorkError, SuperError,
  super_writer, super_other, super_network, NetWorkError,
}

-- Two pieces of what `write!` writes.
infixr 5 ◌<>◌
abbrev pub ◌<>◌ : String → String → String
String.[] <> t = t
(String.◌∷◌ c s) <> t = String.◌∷◌ c (s <> t)

pub record Texts : Type 0 where
  pub number : ℕ → String
  pub status : ℕ → String
  pub time : ℕ → String
  pub canonical_reason : ℕ → Option String

abbrev pub display_sub_download : SubDownloadError → String
display_sub_download unexcepted_eof = "Unexcept Response EOF"

abbrev refused : String
refused = "服务器拒绝了范围请求(200 Ok)"

module _ (T : Texts) where
  abbrev pub reason_or_none : ℕ → String
  reason_or_none c = elim (T.canonical_reason c) [ some r ↦ r | none ↦ "None" ]

  unfoldable pub display_downloader : DownloaderError → String
  display_downloader too_slow = "错误：下载过慢"
  display_downloader error_content_length = "服务器返回的数据长度不一致"
  display_downloader error_content_range = "服务器返回的数据范围不一致"
  display_downloader (error_succes_status c) =
      if c == 200
      then refused
      else "服务器返回了意料之外的成功响应码：" <> (T.status c <> " " <> reason_or_none c <> " ")

  unfoldable pub display_suggest : RetrySuggest → String
  display_suggest break_off = "建议退出重试"
  display_suggest immediately = "建议立即重试"
  display_suggest wait_fuzzy = "建议一会后重试"
  display_suggest (wait_second s) = "建议" <> T.number s <> "秒后重试"
  display_suggest (wait_until t) = "建议" <> T.time t <> " 后重试"
  display_suggest wait_for_network = "似乎是网络问题，建议一会后重试"

abbrev pub display_raw : {A : Type 0} → RawNetWorkError A → String
display_raw r = "RawNetWorkError"

abbrev pub display_into : {A : Type 0} → IntoNetWorkError A → String
display_into v = "IntoNetWorkError"

-- The patterns have one field fewer than the variants, which the texts do not use.
abbrev pub display_super : {S Info W : Type 0} → SuperError S Info W → String
display_super (super_network _ _) = "网络错误（可能经过重试）"
display_super (super_writer _) = "写入器错误"
display_super (super_other _) = "下载错误"

-- `source` and `retry_error` are displayed by their own types.
abbrev pub display_network :
    {S Info : Type 0} → (S → String) → (Info → String) → NetWorkError S Info → String
display_network source retry_error e =
    "网络错误: " <> source e.error <> "， 重试错误：" <> retry_error e.retry_info

char_at : ℕ → String → Option Char
char_at n String.[] = none
char_at zero (String.◌∷◌ c s) = some c
char_at (suc n) (String.◌∷◌ c s) = char_at n s

-- The fourth characters differ.
apart : (x : String) → ("服务器返回了意料之外的成功响应码：" <> x) ≢ refused
unfolding char_at
apart x h =
    let returned : Char = "返" in
    let refuses : Char = "拒" in let e : some returned ≡ some refuses = ap (char_at 3) h in absurd cc

module _ (T : Texts) where
  -- Whatever the libraries write, the text of a refused range, a success with the status 200, is that
  -- of no other error of the downloader.
  pub display_downloader-refused :
      (e : DownloaderError)
      → display_downloader T e ≡ display_downloader T (error_succes_status 200)
      → e ≡ error_succes_status 200
  unfolding display_downloader
  display_downloader-refused too_slow h = cc
  display_downloader-refused error_content_length h = cc
  display_downloader-refused error_content_range h = cc
  display_downloader-refused (error_succes_status c) h = elim (ℕ_discrete c 200) [
    | yes e ↦ ap error_succes_status e
    | no ne ↦
        let other : (c == 200) ≡ false = ground arith in
        absurd (
          apart _ (
            sym (
              ap
                (λ b.
                  if b
                  then refused
                  else "服务器返回了意料之外的成功响应码：" <> (T.status c <> " " <> reason_or_none T c <> " "))
                other)
            ∙ h))
  ]
