-- ===== src/Transfer/Chunks.antt =====
-- Dtool_impl/src/downloader/subcontext.rs: the functions that fetch up to a condition or one chunk at a time. They
-- borrow the stream, so each gives back what is left of it. `?` in `fetch_util` is read as its callers
-- need it, `Some(Err(_))`, and the returns of `fetech_chunk`, `fetch_chunk_in_remain` and
-- `fetch_chunk` that do not have the declared type as the values that they build.
mod Taken
mod Until
mod Rest
mod Tests
use rs_dtool.Base.{
  ℕ, Bool, true, false, if◌then◌else◌, ltb, Option, none, some, [], ◌∷◌, Exec, returns, ◌>>=◌,
  Build, length,
}
use rs_dtool.Error.{Result, ok, err, SubError}
use rs_dtool.Transfer.{
  BufWriter, Bytes, ControlFlow, continue_on, break_with, Stream, Writer, Remain, RemainWriter,
  slice, write_all,
}
use rs_dtool.Transfer.Fetch.{Context, Outcome, write_in_remain}

-- `Writer::new`, `Writer::process`, `RemainWriter::new`, `RemainWriter::write_process` and
-- `RemainWriter::remain_cache`
module _ {W : BufWriter} where
  abbrev pub new_writer : W.Disk → ℕ → Writer W
  new_writer disk process = record { disk = disk; process = process }

  abbrev pub process : Writer W → ℕ
  process w = w.process

  abbrev pub new_remain_writer : Writer W → Remain → RemainWriter W
  new_remain_writer w context = record { writer = w; remain = context }

  abbrev pub write_process : RemainWriter W → ℕ
  write_process t = t.writer.process

  abbrev pub remain_cache : RemainWriter W → ℕ
  remain_cache t = t.remain.cache

-- `Remain::cache`, `Remain::cache_mut` followed by a write, `Remain::remain` and `Remain::into_raw`
abbrev pub cache : Remain → ℕ
cache r = r.cache

abbrev pub cache_mut : Remain → ℕ → Remain
cache_mut r value = record r { cache = value }

abbrev pub remain : Remain → ℕ
remain r = r.remain

abbrev pub into_raw : Remain → ℕ × ℕ
into_raw r = (r.remain, r.cache)

-- What `fetch_chunk_in_remain` finds: the end of the stream, or how much it has written of a chunk, and whether that
-- is all that remained.
pub data InRemain : Type 0 where
  stream_end : InRemain
  wrote : ℕ → Bool → InRemain

module _ (C : Context) where
  open C use {W, S, from_stream, from_writer}

  -- What a call gives: its value, the writer or task that it leaves, and what is left of the stream.
  abbrev pub Given : Type 0 → Type 0 → Type 0
  Given T A = Exec (A × T × Stream W S)

  -- The same, and the state that the condition of `fetch_util` leaves.
  abbrev pub GivenUtil : Type 0 → Type 0
  GivenUtil Q = Exec (Option (Result (Unit {0}) (SubError S W.Error)) × Writer W × Stream W S × Q)

  -- What `fetch_util` does with what the condition says; `rest` is the next round.
  abbrev pub util_tested :
      {Q : Type 0} → Writer W → Stream W S → (Q → GivenUtil Q) → Bool × Q → GivenUtil Q
  util_tested w stream rest (true, q) = returns (none, w, stream, q)
  util_tested w stream rest (false, q) = rest q

  -- What it does once a chunk has been written.
  unfoldable pub util_written :
      {Q : Type 0}
      → (ℕ → Q → Bool × Q)
      → Q
      → Writer W
      → Stream W S
      → Result (Unit {0}) W.Error
      → (Q → GivenUtil Q)
      → GivenUtil Q
  util_written condition q w stream (ok _) rest = util_tested w stream rest (condition w.process q)
  util_written condition q w stream (err e) rest =
      returns (some (err (from_writer e)), w, stream, q)

  -- `Writer::fetch_util`; `none` means that the condition held. The condition is an `FnMut`: each call
  -- of it is on its state, `q` at first.
  unfoldable pub fetch_util :
      {Q : Type 0} → Build → Writer W → Stream W S → (ℕ → Q → Bool × Q) → Q → GivenUtil Q
  unfolding util_written
  fetch_util b w [] condition q = returns (some (ok tt), w, [], q)
  fetch_util b w (err e ∷ stream) condition q = returns (some (err (from_stream e)), w, stream, q)
  fetch_util b w (ok bytes ∷ stream) condition q = do
    (r, w') ← write_all b w bytes
    util_written condition q w' stream r (λ q'. fetch_util b w' stream condition q')

  -- `Writer::fetech_chunk`
  unfoldable pub fetech_chunk :
      Build
      → Writer W
      → Stream W S
      → Given (Writer W) (Result (ControlFlow (Unit {0})) (SubError S W.Error))
  fetech_chunk b w [] = returns (ok (break_with tt), w, [])
  fetech_chunk b w (err e ∷ stream) = returns (err (from_stream e), w, stream)
  fetech_chunk b w (ok bytes ∷ stream) = do
    (r, w') ← write_all b w bytes
    elim r [
      | ok _ ↦ returns (ok continue_on, w', stream)
      | err e ↦ returns (err (from_writer e), w', stream)
    ]

  -- `write_all(..).await?`, then the return.
  unfoldable pub in_remain_written :
      Build
      → Writer W
      → Stream W S
      → Bytes
      → InRemain
      → Given (Writer W) (Result InRemain (SubError S W.Error))
  in_remain_written b w stream bytes found = do
    (r, w') ← write_all b w bytes
    elim r [
      | ok _ ↦ returns (ok found, w', stream)
      | err e ↦ returns (err (from_writer e), w', stream)
    ]

  -- `Writer::fetch_chunk_in_remain`
  unfoldable pub fetch_chunk_in_remain :
      Build → Writer W → Stream W S → ℕ → Given (Writer W) (Result InRemain (SubError S W.Error))
  unfolding in_remain_written
  fetch_chunk_in_remain b w [] remain = returns (ok stream_end, w, [])
  fetch_chunk_in_remain b w (err e ∷ stream) remain = returns (err (from_stream e), w, stream)
  fetch_chunk_in_remain b w (ok bytes ∷ stream) remain =
      if ltb (length bytes) remain
      then in_remain_written b w stream bytes (wrote (length bytes) false)
      else (slice bytes remain >>= λ part. in_remain_written b w stream part (wrote remain true))

  -- `map_break(|_| {})` on the result of a write in what remains, and `?`.
  abbrev pub chunk_written :
      Stream W S
      → Result (ControlFlow ℕ) W.Error × RemainWriter W
      → Given (RemainWriter W) (Result (ControlFlow (Unit {0})) (SubError S W.Error))
  chunk_written stream (ok continue_on, t) = returns (ok continue_on, t, stream)
  chunk_written stream (ok (break_with _), t) = returns (ok (break_with tt), t, stream)
  chunk_written stream (err e, t) = returns (err (from_writer e), t, stream)

  -- `RemainWriter::fetch_chunk`
  unfoldable pub fetch_chunk :
      Build
      → RemainWriter W
      → Stream W S
      → Given (RemainWriter W) (Result (ControlFlow (Unit {0})) (SubError S W.Error))
  fetch_chunk b t [] = returns (ok (break_with tt), t, [])
  fetch_chunk b t (err e ∷ stream) = returns (err (from_stream e), t, stream)
  fetch_chunk b t (ok bytes ∷ stream) = write_in_remain b t bytes >>= chunk_written stream
