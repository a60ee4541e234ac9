-- ===== src/Transfer/Download.antt =====
-- Dtool_impl/src/downloader/group_impl.rs: `DownloadContext`, the other loop over a stream, which takes
-- the counter and the position as arguments. `abort_token` has a state of type `T`. No other task
-- changes the counter while the loop runs.
use rs_dtool.Base.{
  if◌then◌else◌, ℕ, Bool, [], ◌∷◌, Exec, returns, ◌>>=◌, Build, add_u64, ◌||◌, leb, min, length,
  Option, none, some,
}
use rs_dtool.Error.{Result, ok, err}
use rs_dtool.Transfer.{Bytes, BufWriter, Stream, pwrite, slice, wrapping_sub, i64_max, i64_negative}

-- The enum is used by the loop, and its declaration is missing: these are the constructors used.
pub data DownloadContextError (S E : Type 0) : Type 0 where
  stream_error : S → DownloadContextError S E
  write_error : E → DownloadContextError S E
  cancelled : DownloadContextError S E

pub record DownloadContext (W : BufWriter) (S : Type 0) : Type 0 where
  pub stream : Stream W S
  pub writer : W.Disk
  pub remain_cache : ℕ

-- `<= 0` on `i64`
unfoldable pub at_most_zero : ℕ → Bool
at_most_zero x = leb x 0 || i64_negative x

module _ {W : BufWriter} {S : Type 0} where
  -- `DownloadContext::new`
  abbrev pub new_context : Stream W S → W.Disk → Option ℕ → DownloadContext W S
  new_context stream writer last_remain = record {
    stream = stream;
    writer = writer;
    remain_cache = elim last_remain [ none ↦ i64_max | some remain ↦ remain ];
  }

  -- `DownloadContext::new_stream`
  abbrev pub new_stream : DownloadContext W S → Stream W S → DownloadContext W S
  new_stream context stream = record context { stream = stream }

  -- `DownloadContext::into_raw` and `into_stream`
  abbrev pub into_raw : DownloadContext W S → Stream W S × W.Disk × ℕ
  into_raw context = (context.stream, context.writer, context.remain_cache)

  abbrev pub into_stream : DownloadContext W S → Stream W S
  into_stream context = context.stream

module _ {W : BufWriter} {S T : Type 0} where
  -- The rest of the loop of `download` at a stream, with the context's writer and cache, `process`,
  -- the counter and the state of `abort_token`. The result of `pwrite` is mapped and dropped.
  unfoldable pub download_loop :
      Build
      → (T → Bool × T)
      → Stream W S
      → W.Disk
      → ℕ
      → ℕ
      → ℕ
      → T
      → Exec (Result (Unit {0}) (DownloadContextError S W.Error) × DownloadContext W S × ℕ × T)
  unfolding pwrite
  download_loop b abort_token [] disk cache process remain t =
      returns (ok tt, record { stream = []; writer = disk; remain_cache = cache }, remain, t)
  download_loop b abort_token (err e ∷ stream) disk cache process remain t = returns (
    err (stream_error e),
    record { stream = stream; writer = disk; remain_cache = cache },
    remain,
    t,
  )
  download_loop b abort_token (ok bytes ∷ stream) disk cache process remain t = do
    let write_length = min (length bytes) cache
    write_bytes ← slice bytes write_length
    let disk' = (pwrite W disk process write_bytes).1
    let remain' = wrapping_sub remain write_length
    process' ← add_u64 b process write_length
    let here : DownloadContext W S = record {
      stream = stream;
      writer = disk';
      remain_cache = remain;
    }
    let t' = (abort_token t).1
    let rest = download_loop b abort_token stream disk' remain process' remain' t'
    let next = if (abort_token t).0 then returns (err cancelled, here, remain', t') else rest
    if at_most_zero remain then returns (ok tt, here, remain', t) else next

  -- `DownloadContext::download`
  unfoldable pub download :
      Build
      → (T → Bool × T)
      → DownloadContext W S
      → ℕ
      → ℕ
      → T
      → Exec (Result (Unit {0}) (DownloadContextError S W.Error) × DownloadContext W S × ℕ × T)
  unfolding download_loop
  download b abort_token self process remain t =
      download_loop b abort_token self.stream self.writer self.remain_cache process remain t

-- `check_if_return_early`: what is to be written of a chunk, and the counter.
abbrev pub check_if_return_early : Bytes → ℕ → ℕ → Exec (Option Bytes × ℕ)
check_if_return_early bytes writed remain =
    let remain' = wrapping_sub remain writed in
    if at_most_zero remain
    then returns (none, remain')
    else do part ← slice bytes (min remain (length bytes)); returns (some part, remain')
