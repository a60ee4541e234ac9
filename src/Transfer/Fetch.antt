-- ===== src/Transfer/Fetch.antt =====
-- Dtool_impl/src/downloader/subcontext.rs: the loops over a stream. The conversions of a stream's
-- and a writer's error into `SubError`, which `?` makes, are arguments, as the functions ask for
-- them by a bound. No other task changes the counter while a loop runs.
pub mod Rounds
use rs_dtool.Base.{
  true, false, if◌then◌else◌, none, some, Option, Bool, ℕ, [], ◌∷◌, Exec, returns, ◌>>=◌, Build,
  length,
}
use rs_dtool.Error.{network, Result, ok, err, SubError}
use rs_dtool.Transfer.{
  Writer, Bytes, ControlFlow, continue_on, break_with, split_chunk, record_writed, BufWriter,
  Stream, RemainWriter, slice, write_all,
}

-- What a call gives: its result, with an error of type `X`, and the task that it leaves.
abbrev pub Outcome : BufWriter → Type 0 → Type 0 → Type 0
Outcome W X A = Exec (Result A X × RemainWriter W)

module _ {W : BufWriter} {X A : Type 0} where
  -- `writer.write_all(buffer).await?`, where `?` converts the error, then what follows.
  unfoldable pub write_then :
      (W.Error → X)
      → Build
      → RemainWriter W
      → Bytes
      → (RemainWriter W → Outcome W X A)
      → Outcome W X A
  write_then convert b t buffer k = do
    (r, writer) ← write_all b t.writer buffer
    let t' = record t { writer = writer }
    elim r [ ok _ ↦ k t' | err e ↦ returns (err (convert e), t') ]

  -- `remain.record_writed(len)`, then what follows.
  unfoldable pub record_then :
      Build → RemainWriter W → ℕ → (RemainWriter W → Outcome W X A) → Outcome W X A
  record_then b t len k = do remain ← record_writed b t.remain len; k (record t { remain = remain })

-- The body of `write_in_remain`, on what `split_chunk` says.
unfoldable pub write_in_round :
    {W : BufWriter}
    → Build
    → RemainWriter W
    → Bytes
    → ControlFlow ℕ
    → Outcome W W.Error (ControlFlow ℕ)
unfolding write_then record_then
write_in_round b t buffer continue_on =
    write_then (λ e. e) b t buffer
      (λ t'. record_then b t' (length buffer) (λ t''. returns (ok continue_on, t'')))
write_in_round b t buffer (break_with new_len) =
    write_then (λ e. e) b t buffer
      (λ t'. record_then b t' new_len (λ t''. returns (ok (break_with new_len), t'')))

-- `RemainWriter::write_in_remain`
unfoldable pub write_in_remain :
    {W : BufWriter} → Build → RemainWriter W → Bytes → Outcome W W.Error (ControlFlow ℕ)
unfolding write_in_round
write_in_remain b t buffer = write_in_round b t buffer (split_chunk t.remain (length buffer))

-- The types of a loop: the writer, the error of the stream, and the two conversions.
pub record Context : Type 1 where
  pub W : BufWriter
  pub S : Type 0
  pub from_stream : S → SubError S W.Error
  pub from_writer : W.Error → SubError S W.Error

module _ (C : Context) where
  open C use {W, S, from_stream, from_writer}

  -- What a loop does after a round: it goes on, or ends with a result.
  abbrev pub After : Type 0
  After = ControlFlow (Result (Unit {0}) (SubError S W.Error))

  -- `?` on the result of a write, and `record_writed`, then `after`.
  unfoldable pub recorded :
      Build
      → RemainWriter W
      → ℕ
      → After
      → Result (Unit {0}) W.Error × Writer W
      → Exec (After × RemainWriter W)
  recorded b t len after (ok _, writer) = do
    remain ← record_writed b t.remain len
    returns (after, record { writer = writer; remain = remain })
  recorded b t len after (err e, writer) =
      returns (break_with (err (from_writer e)), record t { writer = writer })

  -- The body of the loop of `fetch_stream`, on what `split_chunk` says.
  unfoldable pub round_on :
      Build → RemainWriter W → Bytes → ControlFlow ℕ → Exec (After × RemainWriter W)
  unfolding recorded
  round_on b t bytes continue_on =
      write_all b t.writer bytes >>= recorded b t (length bytes) continue_on
  round_on b t bytes (break_with len) = do
    part ← slice bytes len
    write_all b t.writer part >>= recorded b t len (break_with (ok tt))

  unfoldable pub round : Build → RemainWriter W → Bytes → Exec (After × RemainWriter W)
  unfolding round_on
  round b t bytes = round_on b t bytes (split_chunk t.remain (length bytes))

  -- What follows a round: another, by `k`, or the end.
  abbrev pub follow :
      (RemainWriter W → Outcome W (SubError S W.Error) (Unit {0}))
      → After × RemainWriter W
      → Outcome W (SubError S W.Error) (Unit {0})
  follow k (continue_on, t) = k t
  follow k (break_with r, t) = returns (r, t)

  -- `RemainWriter::fetch_stream`
  unfoldable pub fetch_stream :
      Build → RemainWriter W → Stream W S → Outcome W (SubError S W.Error) (Unit {0})
  unfolding round
  fetch_stream b t [] = returns (ok tt, t)
  fetch_stream b t (err e ∷ _) = returns (err (from_stream e), t)
  fetch_stream b t (ok bytes ∷ stream) = round b t bytes >>= follow (λ t'. fetch_stream b t' stream)

  -- What `fetch_conditional` gives; `none` means that the condition held.
  abbrev pub Conditional : Type 0
  Conditional = Exec (Option (Result (Unit {0}) (SubError S W.Error)) × RemainWriter W)

  -- What it does with what the condition says; `rest` is the next round.
  abbrev pub conditional_tested :
      {Q : Type 0} → RemainWriter W → (Q → Conditional) → Bool × Q → Conditional
  conditional_tested t rest (true, _) = returns (none, t)
  conditional_tested t rest (false, q) = rest q

  -- What it does once a whole chunk has been written.
  unfoldable pub conditional_written :
      {Q : Type 0}
      → (ℕ → Q → Bool × Q)
      → Q
      → RemainWriter W
      → Result (Unit {0}) W.Error
      → (Q → Conditional)
      → Conditional
  conditional_written condition q t (ok _) rest =
      conditional_tested t rest (condition t.writer.process q)
  conditional_written condition q t (err e) rest = returns (some (err (from_writer e)), t)

  -- The body of its loop, on what `split_chunk` says. The last write's result is dropped.
  unfoldable pub conditional_round :
      {Q : Type 0}
      → Build
      → (ℕ → Q → Bool × Q)
      → Q
      → RemainWriter W
      → Bytes
      → ControlFlow ℕ
      → (RemainWriter W → Q → Conditional)
      → Conditional
  unfolding conditional_written
  conditional_round b condition q t bytes continue_on k = do
    (r, writer) ← write_all b t.writer bytes
    let t' = record t { writer = writer }
    conditional_written condition q t' r (k t')
  conditional_round b condition q t bytes (break_with new_len) k = do
    part ← slice bytes new_len
    (_, writer) ← write_all b t.writer part
    returns (some (ok tt), record t { writer = writer })

  -- `RemainWriter::fetch_conditional`. The condition is an `FnMut`: each call of it is on its state, `q`
  -- at first.
  unfoldable pub fetch_conditional :
      {Q : Type 0} → Build → RemainWriter W → Stream W S → (ℕ → Q → Bool × Q) → Q → Conditional
  unfolding conditional_round
  fetch_conditional b t [] condition q = returns (some (ok tt), t)
  fetch_conditional b t (err e ∷ _) condition q = returns (some (err (network e none)), t)
  fetch_conditional b t (ok bytes ∷ stream) condition q =
      conditional_round b condition q t bytes (split_chunk t.remain (length bytes))
        (λ t' q'. fetch_conditional b t' stream condition q')

  -- `Writer::fetch_all`
  unfoldable pub fetch_all :
      Build → Writer W → Stream W S → Exec (Result (Unit {0}) (SubError S W.Error) × Writer W)
  fetch_all b w [] = returns (ok tt, w)
  fetch_all b w (err e ∷ _) = returns (err (from_stream e), w)
  fetch_all b w (ok bytes ∷ stream) = do
    (r, w') ← write_all b w bytes
    elim r [ ok _ ↦ fetch_all b w' stream | err e ↦ returns (err (from_writer e), w') ]
