-- ===== src/Transfer/Stale.antt =====
-- `DownloadContext::download` of Dtool_impl/src/downloader/group_impl.rs, whose cache is the counter as it
-- was before the last write, and which drops the result of a write.
use rs_dtool.Base.{
  if◌then◌else◌, ◌>>=◌, true, panics, waits, undefined, add_u64, ℕ, ◌+◌, ◌-◌, ◌^◌, ◌≤◌, ◌<◌, ◌≡◌,
  ap, List, [], ◌∷◌, map, Bool, false, returns, Build, u64_mod, >>=-returns, length, arith, ◌∙◌,
  Exec, add_u64_lem, min, take, refl,
}
use rs_dtool.Error.{err, ok, Result}
use rs_dtool.Transfer.{Bytes, pwrite, Stream, slice, BufWriter, wrapping_sub}
use rs_dtool.Transfer.Download.{
  download, write_error, cancelled, DownloadContext, DownloadContextError, download_loop,
  at_most_zero,
}
use rs_dtool.Transfer.Clip.{size, write_each}

-- A token that never aborts.
abbrev pub never : {T : Type 0} → T → Bool × T
never t = (false, t)

at_most_zero_lem : (r : ℕ) → 0 < r → r < 2 ^ 63 → at_most_zero r ≡ false
unfolding at_most_zero
at_most_zero_lem r h k = ground arith

take-length : {A : Type 0} (xs : List A) → take (length xs) xs ≡ xs
take-length [] = refl
take-length (x ∷ xs) = ap (◌∷◌ x) (take-length xs)

slice_whole : (c : Bytes) → slice c (length c) ≡ returns c
slice_whole c =
    let whole : slice c (length c) ≡ returns (take (length c) c) = ground arith in
    whole ∙ ap returns (take-length c)

-- The chunks are not empty.
abbrev pub NonEmpty : List Bytes → Type 0
NonEmpty [] = Unit
NonEmpty (c ∷ cs) = (0 < length c) × NonEmpty cs

module _ (W : BufWriter) (S T : Type 0) (b : Build) where
  abbrev pub context : Stream W S → W.Disk → ℕ → DownloadContext W S
  context stream writer remain_cache = record {
    stream = stream;
    writer = writer;
    remain_cache = remain_cache;
  }

  abbrev run :
      Stream W S
      → W.Disk
      → ℕ
      → ℕ
      → ℕ
      → T
      → Exec (Result (Unit {0}) (DownloadContextError S W.Error) × DownloadContext W S × ℕ × T)
  run = download_loop {W = W} {S = S} {T = T} b never

  -- What follows a write, on what the token says.
  abbrev pub after_round :
      (T → Bool × T)
      → W.Disk
      → ℕ
      → ℕ
      → ℕ
      → Stream W S
      → Bool × T
      → Exec (Result (Unit {0}) (DownloadContextError S W.Error) × DownloadContext W S × ℕ × T)
  after_round abort_token disk cache pos left stream (stops, t) =
      if stops
      then returns (err cancelled, context stream disk cache, left, t)
      else download_loop {W = W} {S = S} {T = T} b abort_token stream disk cache pos left t

  -- A round with bytes left, up to what the token says.
  pub round_by :
      (abort_token : T → Bool × T) (disk : W.Disk) (cache pos r : ℕ) (t : T) (c : Bytes)
      (stream : Stream W S)
      → 0 < r
      → r < 2 ^ 63
      → length c ≤ cache
      → pos + length c < u64_mod
      → download_loop {W = W} {S = S} {T = T} b abort_token (ok c ∷ stream) disk cache pos r t
        ≡ after_round abort_token
            (pwrite W disk pos c).1
            r
            (pos + length c)
            (wrapping_sub r (length c))
            stream
            (abort_token t)
  unfolding download_loop
  round_by abort_token disk cache pos r t c stream some_left small within fits =
      let size : min (length c) cache ≡ length c = omega arith in
      rw size (
        >>=-returns _ (slice_whole c)
        ∙ >>=-returns _ (add_u64_lem b pos (length c) fits)
        ∙ rw (at_most_zero_lem r some_left small) refl)

  run-write_each :
      (disk : W.Disk) (cache pos r : ℕ) (t : T) (cs : List Bytes) (stop left : ℕ)
      → r ≤ cache
      → r < 2 ^ 63
      → pos + r < u64_mod
      → size cs ≤ r
      → NonEmpty cs
      → stop ≡ pos + size cs
      → left + size cs ≡ r
      → (cache' : ℕ) × (run (map ok cs) disk cache pos r t
          ≡ returns (ok tt, context [] (write_each W disk pos cs) cache', left, t))
  unfolding download_loop write_each
  run-write_each disk cache pos r t [] stop left cached small fits within full at_stop are_left =
      let e : r ≡ left = omega arith in (cache, rw e refl)
  run-write_each disk cache pos r t (c ∷ cs) stop left cached small fits within full at_stop
        are_left =
      let some_left : 0 < length c = full.0 in
      let (cache', rest) =
        run-write_each (pwrite W disk pos c).1 r (pos + length c) (r - length c) t cs stop left
          (omega arith) (omega arith) (omega arith) (omega arith) full.1 (omega arith)
          (omega arith) in
      let e : wrapping_sub r (length c) ≡ r - length c = omega arith in
      (
        cache',
        round_by never disk cache pos r t c (map ok cs) (omega arith) small (omega arith)
              (omega arith)
            ∙ rw e rest,
      )

  -- A stream of non-empty chunks, which together are at most the `r` bytes that remain, is written
  -- whole by `download`, chunk after chunk, whether the writes succeed or not; the counter has moved
  -- by as much and the result is no error. The cache is at least the counter, the range is an `i64`
  -- and its end a `u64`, and the token does not abort.
  pub download-write_each :
      (disk : W.Disk) (cache pos r : ℕ) (t : T) (cs : List Bytes)
      → r ≤ cache
      → r < 2 ^ 63
      → pos + r < u64_mod
      → size cs ≤ r
      → NonEmpty cs
      → (cache' : ℕ) × (download {W = W} {S = S} {T = T} b never
            (context (map ok cs) disk cache)
            pos
            r
            t
          ≡ returns (ok tt, context [] (write_each W disk pos cs) cache', r - size cs, t))
  unfolding download
  download-write_each disk cache pos r t cs cached small fits within full =
      run-write_each disk cache pos r t cs (pos + size cs) (r - size cs) cached small fits within
        full (omega arith) (omega arith)

  -- Where a stream is two chunks, the first shorter than the `r` bytes that remain, the second at most
  -- as long, and the two together more, `download` writes both whole, with a token that never stops
  -- it: it cuts the second by the counter as it was before the first. The counter is then below 0,
  -- by as much as was written past the end of the range. The cache is at least the counter, `r` is
  -- an `i64`, and the position and `r` twice are together a `u64`.
  pub download_overrun :
      (disk : W.Disk) (cache pos r : ℕ) (t : T) (c d : Bytes)
      → r ≤ cache
      → r < 2 ^ 63
      → pos + r + r < u64_mod
      → length c < r
      → length d ≤ r
      → r < length c + length d
      → download {W = W} {S = S} {T = T} b never (context (ok c ∷ ok d ∷ []) disk cache) pos r t
        ≡ returns (
          ok tt,
          context [] (write_each W disk pos (c ∷ d ∷ [])) (r - length c),
          u64_mod - (length c + length d - r),
          t,
        )
  unfolding download download_loop write_each
  download_overrun disk cache pos r t c d cached small fits below within over =
      let e : wrapping_sub r (length c) ≡ r - length c = omega arith in
      let e' : wrapping_sub (r - length c) (length d) ≡ u64_mod - (length c + length d - r) =
        omega arith in
      round_by never disk cache pos r t c (ok d ∷ []) (omega arith) small (omega arith)
        (omega arith)
      ∙ rw e (
          round_by never (pwrite W disk pos c).1 r (pos + length c) (r - length c) t d []
            (omega arith) (omega arith) within (omega arith)
          ∙ rw e' refl)

-- A computation that does not give a write error.
module _ {S E D N T : Type 0} where
  abbrev NoWriteError : Exec (Result (Unit {0}) (DownloadContextError S E) × D × N × T) → Type 0
  NoWriteError m =
      (out : Result (Unit {0}) (DownloadContextError S E) × D × N × T) (e : E)
      → m ≡ returns out
      → ¬ (out.0 ≡ err (write_error e))

  NoWriteError->>= :
      {A : Type 0} (m : Exec A)
      (f : A → Exec (Result (Unit {0}) (DownloadContextError S E) × D × N × T))
      → ((a : A) → NoWriteError (f a))
      → NoWriteError (m >>= f)
  NoWriteError->>= (returns a) f each = each a
  NoWriteError->>= panics f each = λ out e h. absurd cc
  NoWriteError->>= waits f each = λ out e h. absurd cc
  NoWriteError->>= undefined f each = λ out e h. absurd cc

  NoWriteError-if :
      (test : Bool) (x y : Exec (Result (Unit {0}) (DownloadContextError S E) × D × N × T))
      → NoWriteError x
      → NoWriteError y
      → NoWriteError (if test then x else y)
  NoWriteError-if true x y p q = p
  NoWriteError-if false x y p q = q

module _ (W : BufWriter) (S T : Type 0) (b : Build) (abort_token : T → Bool × T) where
  loop-NoWriteError :
      (stream : Stream W S) (disk : W.Disk) (cache pos r : ℕ) (t : T)
      → NoWriteError {S = S} {E = W.Error} {D = DownloadContext W S} {N = ℕ} {T = T}
          (download_loop {W = W} {S = S} {T = T} b abort_token stream disk cache pos r t)
  unfolding download_loop
  loop-NoWriteError [] disk cache pos r t = λ out e h k. ground arith
  loop-NoWriteError (err e' ∷ stream) disk cache pos r t = λ out e h k. ground arith
  loop-NoWriteError (ok c ∷ stream) disk cache pos r t =
      let n = min (length c) cache in
      NoWriteError->>= (slice c n) _ (λ part. NoWriteError->>= (add_u64 b pos n) _ (λ pos'.
        NoWriteError-if (at_most_zero r) _ _ (λ out e h k. ground arith)
          (NoWriteError-if (abort_token t).0 _ _ (λ out e h k. ground arith)
            (loop-NoWriteError stream (pwrite W disk pos part).1 r pos' (wrapping_sub r n)
              (abort_token t).1))))

  -- Whatever the writer answers, `download` never gives its error: the variant of the error that
  -- stands for a failed write is never a result, on any stream and for any token.
  pub download-no_write_error :
      (context : DownloadContext W S) (pos r : ℕ) (t : T) (e : W.Error)
      (out : Result (Unit {0}) (DownloadContextError S W.Error) × DownloadContext W S × ℕ × T)
      → download {W = W} {S = S} {T = T} b abort_token context pos r t ≡ returns out
      → ¬ (out.0 ≡ err (write_error e))
  unfolding download
  download-no_write_error context pos r t e out =
      loop-NoWriteError context.stream context.writer context.remain_cache pos r t out e
