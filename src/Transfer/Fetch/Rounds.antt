-- ===== src/Transfer/Fetch/Rounds.antt =====
-- The loop of `RemainWriter::fetch_stream` of Dtool_impl/src/downloader/subcontext.rs, one round and what follows it.
use rs_dtool.Base.{ℕ, ◌≡◌, refl, ◌∷◌, returns, ◌>>=◌, >>=-assoc, >>=-cong, Build, length, ◌∙◌}
use rs_dtool.Error.{Result, ok, err, SubError}
use rs_dtool.Transfer.{
  Bytes, ControlFlow, continue_on, break_with, Stream, Writer, RemainWriter, split_chunk,
  record_writed, slice, write_all,
}
use rs_dtool.Transfer.Fetch.{
  Outcome, Context, After, recorded, round_on, round, follow, write_then, record_then, fetch_stream,
}

module _ (C : Context) where
  open C use {W, S, from_writer, from_stream}

  -- A round and what follows it, `k`, with each write before what it leads to.
  unfoldable pub fetch_round :
      Build
      → RemainWriter W
      → Bytes
      → ControlFlow ℕ
      → (RemainWriter W → Outcome W (SubError S W.Error) (Unit {0}))
      → Outcome W (SubError S W.Error) (Unit {0})
  unfolding write_then record_then
  fetch_round b t bytes continue_on k =
      write_then from_writer b t bytes (λ t'. record_then b t' (length bytes) k)
  fetch_round b t bytes (break_with len) k = do
    part ← slice bytes len
    write_then from_writer b t part (λ t'. record_then b t' len (λ t''. returns (ok tt, t'')))

module _ (C : Context) (b : Build) where
  open C use {W, S, from_writer, from_stream}

  module _ (k : RemainWriter W → Outcome W (SubError S W.Error) (Unit {0})) where
    recorded-follow :
        (t : RemainWriter W) (len : ℕ) (after : After C)
        (out : Result (Unit {0}) W.Error × Writer W)
        → (recorded C b t len after out >>= follow C k) ≡ elim out.0 [
          | ok _ ↦
              record_then {W = W} b (record t { writer = out.1 }) len (λ t'. follow C k (after, t'))
          | err e ↦ returns (err (from_writer e), record t { writer = out.1 })
        ]
    unfolding recorded record_then
    recorded-follow t len after (ok _, writer) = >>=-assoc (record_writed b t.remain len) _ _
    recorded-follow t len after (err e, writer) = refl

    write-follow :
        (t : RemainWriter W) (buffer : Bytes) (len : ℕ) (after : After C)
        → ((write_all b t.writer buffer >>= recorded C b t len after) >>= follow C k)
          ≡ write_then {W = W} from_writer b t buffer
              (λ t'. record_then b t' len (λ t''. follow C k (after, t'')))
    unfolding write_then
    write-follow t buffer len after =
        >>=-assoc (write_all b t.writer buffer) _ _
        ∙ >>=-cong (write_all b t.writer buffer) _ _ (recorded-follow t len after)

    round_on-follow :
        (t : RemainWriter W) (bytes : Bytes) (cf : ControlFlow ℕ)
        → (round_on C b t bytes cf >>= follow C k) ≡ fetch_round C b t bytes cf k
    unfolding round_on fetch_round
    round_on-follow t bytes continue_on = write-follow t bytes (length bytes) continue_on
    round_on-follow t bytes (break_with len) =
        >>=-assoc (slice bytes len) _ _
        ∙ >>=-cong (slice bytes len) _ _ (λ part. write-follow t part len (break_with (ok tt)))

  pub fetch_stream-fetch_round :
      (t : RemainWriter W) (bytes : Bytes) (stream : Stream W S)
      → fetch_stream C b t (ok bytes ∷ stream)
        ≡ fetch_round C b t bytes
            (split_chunk t.remain (length bytes))
            (λ t'. fetch_stream C b t' stream)
  unfolding fetch_stream round
  fetch_stream-fetch_round t bytes stream =
      round_on-follow (λ t'. fetch_stream C b t' stream) t bytes
        (split_chunk t.remain (length bytes))
