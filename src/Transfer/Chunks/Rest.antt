-- ===== src/Transfer/Chunks/Rest.antt =====
-- Dtool_impl/src/downloader/subcontext.rs: a fetch up to a condition or of one chunk, and what is left of the
-- stream after it.
use native.Mathlib.Decide.{dec_lt}
use rs_dtool.Base.{
  ℕ, ◌≢◌, ◌≤◌, ◌≡◌, if◌then◌else◌, [], ◌∷◌, Exec, returns, ◌>>=◌, >>=-assoc, >>=-cong, >>=-returns,
  Build, length, lt→ltb, le→ltb, ap, arith, ◌∙◌, refl, sym,
}
use rs_dtool.Error.{Result, ok, err, SubError}
use rs_dtool.Transfer.{
  Bytes, ControlFlow, continue_on, break_with, Stream, Writer, Remain, RemainWriter, write_all,
  split_chunk, record_writed,
}
use rs_dtool.Transfer.Fetch.Rounds.{fetch_round, fetch_stream-fetch_round}
use rs_dtool.Transfer.Fetch.{
  Context, Outcome, write_in_remain, fetch_all, fetch_stream, write_then, record_then,
  write_in_round,
}
use rs_dtool.Transfer.Chunks.{fetech_chunk, chunk_written, fetch_chunk}
use rs_dtool.Transfer.Chunks.Taken.{slice_whole}

continue_on-ne : {n : ℕ} → continue_on ≢ break_with n
continue_on-ne e = cc

module _ (C : Context) (b : Build) where
  open C use {W, S, from_stream, from_writer}

  -- After `fetech_chunk`: unless it says that the stream is at its end, the rest is fetched.
  abbrev pub fetch_on :
      Result (ControlFlow (Unit {0})) (SubError S W.Error) × Writer W × Stream W S
      → Exec (Result (Unit {0}) (SubError S W.Error) × Writer W)
  fetch_on (ok continue_on, w, stream) = fetch_all C b w stream
  fetch_on (ok (break_with _), w, stream) = returns (ok tt, w)
  fetch_on (err e, w, stream) = returns (err e, w)

  chunk_on :
      (stream : Stream W S) (out : Result (Unit {0}) W.Error × Writer W)
      → (elim out.0 [
        | ok _ ↦ returns (ok continue_on, out.1, stream)
        | err e ↦ returns (err (from_writer e), out.1, stream)
      ]
          >>= fetch_on)
        ≡ elim out.0 [
          | ok _ ↦ fetch_all C b out.1 stream
          | err e ↦ returns (err (from_writer e), out.1)
        ]
  chunk_on stream (ok _, w) = refl
  chunk_on stream (err e, w) = refl

  -- A fetch of one chunk, with the rest fetched after it, is `fetch_all`.
  pub fetech_chunk-fetch_all :
      (w : Writer W) (stream : Stream W S)
      → (fetech_chunk C b w stream >>= fetch_on) ≡ fetch_all C b w stream
  unfolding fetech_chunk fetch_all
  fetech_chunk-fetch_all w [] = refl
  fetech_chunk-fetch_all w (err e ∷ stream) = refl
  fetech_chunk-fetch_all w (ok bytes ∷ stream) =
      >>=-assoc (write_all b w bytes) _ _ ∙ >>=-cong (write_all b w bytes) _ _ (chunk_on stream)

  -- After `fetch_chunk`: unless it says that the stream or the segment is at its end, `fetch_stream` fetches the
  -- rest.
  abbrev pub stream_on :
      Result (ControlFlow (Unit {0})) (SubError S W.Error) × RemainWriter W × Stream W S
      → Outcome W (SubError S W.Error) (Unit {0})
  stream_on (ok continue_on, t, stream) = fetch_stream C b t stream
  stream_on (ok (break_with _), t, stream) = returns (ok tt, t)
  stream_on (err e, t, stream) = returns (err e, t)

  abbrev chunk_and_on :
      Stream W S
      → Result (ControlFlow ℕ) W.Error × RemainWriter W
      → Outcome W (SubError S W.Error) (Unit {0})
  chunk_and_on stream out = chunk_written C stream out >>= stream_on

  write_then-on :
      (stream : Stream W S) (cf : ControlFlow ℕ) (len : ℕ) (t : RemainWriter W)
      (out : Result (Unit {0}) W.Error × Writer W)
      → (elim out.0 [
        | ok _ ↦
            record_then {W = W} b (record t { writer = out.1 }) len (λ t''. returns (ok cf, t''))
        | err e ↦ returns (err e, record t { writer = out.1 })
      ]
          >>= chunk_and_on stream)
        ≡ elim out.0 [
          | ok _ ↦
              record_then {W = W} b
                (record t { writer = out.1 })
                len
                (λ t''. chunk_and_on stream (ok cf, t''))
          | err e ↦ returns (err (from_writer e), record t { writer = out.1 })
        ]
  unfolding record_then
  write_then-on stream cf len t (ok _, w) = >>=-assoc (record_writed b t.remain len) _ _
  write_then-on stream cf len t (err e, w) = refl

  in_remain-on :
      (stream : Stream W S) (cf : ControlFlow ℕ) (len : ℕ) (t : RemainWriter W) (bytes : Bytes)
      → (write_then {W = W}
            (λ e. e)
            b
            t
            bytes
            (λ t'. record_then b t' len (λ t''. returns (ok cf, t'')))
          >>= chunk_and_on stream)
        ≡ write_then {W = W} from_writer b t bytes
            (λ t'. record_then b t' len (λ t''. chunk_and_on stream (ok cf, t'')))
  unfolding write_then
  in_remain-on stream cf len t bytes =
      >>=-assoc (write_all b t.writer bytes) _ _
      ∙ >>=-cong (write_all b t.writer bytes) _ _ (write_then-on stream cf len t)

  round-on :
      (stream : Stream W S) (cf : ControlFlow ℕ) (t : RemainWriter W) (bytes : Bytes)
      → ((n : ℕ) → cf ≡ break_with n → length bytes ≡ n)
      → (write_in_round b t bytes cf >>= chunk_and_on stream)
        ≡ fetch_round C b t bytes cf (λ t'. fetch_stream C b t' stream)
  unfolding write_in_round fetch_round
  round-on stream continue_on t bytes whole = in_remain-on stream continue_on (length bytes) t bytes
  round-on stream (break_with n) t bytes whole =
      in_remain-on stream (break_with n) n t bytes
      ∙ sym (>>=-returns _ (slice_whole n bytes (whole n refl)))

  split_whole :
      (r : Remain) (len n : ℕ) → len ≤ r.cache → split_chunk r len ≡ break_with n → len ≡ n
  unfolding split_chunk
  split_whole r len n fits e = elim (dec_lt len r.cache) [
    | yes below ↦ absurd (
        continue_on-ne (
          sym (ap (λ t. if t then continue_on else break_with r.cache) (lt→ltb len r.cache below))
          ∙ e))
    | no above ↦
        let m : break_with r.cache ≡ break_with n =
          sym (
            ap (λ t. if t then continue_on else break_with r.cache)
              (le→ltb len r.cache (omega arith)))
          ∙ e in
        let m' : r.cache ≡ n = cc in omega arith
  ]

  -- The first chunk is no longer than the cache says.
  abbrev pub FirstFits : ℕ → Stream W S → Type 0
  FirstFits cache [] = Unit {0}
  FirstFits cache (err _ ∷ _) = Unit {0}
  FirstFits cache (ok bytes ∷ _) = length bytes ≤ cache

  -- A fetch of one chunk that is no longer than the cached remainder, with the rest fetched after it
  -- by `fetch_stream` unless it says to stop, is `fetch_stream`: the same writes, counter, cache and
  -- result, and a panic where it panics.
  pub fetch_chunk-fetch_stream :
      (t : RemainWriter W) (stream : Stream W S)
      → FirstFits t.remain.cache stream
      → (fetch_chunk C b t stream >>= stream_on) ≡ fetch_stream C b t stream
  unfolding fetch_chunk fetch_stream write_in_remain
  fetch_chunk-fetch_stream t [] fits = refl
  fetch_chunk-fetch_stream t (err e ∷ stream) fits = refl
  fetch_chunk-fetch_stream t (ok bytes ∷ stream) fits =
      >>=-assoc (write_in_remain b t bytes) _ _
      ∙ round-on stream (split_chunk t.remain (length bytes)) t bytes
          (λ n e. split_whole t.remain (length bytes) n fits e)
      ∙ sym (fetch_stream-fetch_round C b t bytes stream)
