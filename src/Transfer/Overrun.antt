-- ===== src/Transfer/Overrun.antt =====
-- `RemainWriter` of Dtool_impl/src/downloader/subcontext.rs, from the cache that `Remain::new` sets, on a
-- first chunk that is longer than what remains.
use rs_dtool.Base.{
  ℕ, ◌+◌, ◌-◌, ◌^◌, ◌<◌, ◌≡◌, ap, List, [], ◌∷◌, map, returns, Build, debug, release, u64_mod,
  >>=-returns, length, arith, ◌∙◌,
}
use rs_dtool.Error.{ok}
use rs_dtool.Transfer.{
  Bytes, continue_on, pwrite, new, Stream, RemainWriter, split_chunk, record_writed,
}
use rs_dtool.Transfer.Fetch.Rounds.{fetch_round, fetch_stream-fetch_round}
use rs_dtool.Transfer.Fetch.{Context, fetch_stream}
use rs_dtool.Transfer.Clip.{size, Accepts, write_each, write_all_lem}

pub split_large :
    (remain cache n : ℕ)
    → n < cache
    → split_chunk (record { remain = remain; cache = cache }) n ≡ continue_on
unfolding split_chunk
split_large remain cache n h = ground arith

-- The counter, and the cache, after `n` bytes too many.
abbrev pub over : ℕ → ℕ
over n = u64_mod - n

pub record_over :
    (b : Build) (r cache n : ℕ)
    → r < n
    → n < 2 ^ 63
    → record_writed b (record { remain = r; cache = cache }) n
      ≡ returns (record { remain = over (n - r); cache = over (n - r) })
unfolding record_writed
record_over debug r cache n h k = ground arith
record_over release r cache n h k = ground arith

record_further :
    (b : Build) (m cache n : ℕ)
    → 0 < m
    → m + n < 2 ^ 63
    → record_writed b (record { remain = over m; cache = cache }) n
      ≡ returns (record { remain = over (m + n); cache = over (m + n) })
unfolding record_writed
record_further debug m cache n h k = ground arith
record_further release m cache n h k = ground arith

module _ (C : Context) (b : Build) (accepts : Accepts C.W) where
  -- A task at position `pos`, with `remain` the counter and `cache` the cache.
  abbrev pub task_of : C.W.Disk → ℕ → ℕ → ℕ → RemainWriter C.W
  task_of disk pos remain cache = record {
    writer = record { disk = disk; process = pos };
    remain = record { remain = remain; cache = cache };
  }

  pub round_whole :
      (disk : C.W.Disk) (pos remain cache remain' : ℕ) (c : Bytes) (stream : Stream C.W C.S)
      → length c < cache
      → pos + length c < u64_mod
      → record_writed b (record { remain = remain; cache = cache }) (length c)
        ≡ returns (record { remain = remain'; cache = remain' })
      → fetch_stream C b (task_of disk pos remain cache) (ok c ∷ stream)
        ≡ fetch_stream C b
            (task_of (pwrite C.W disk pos c).1 (pos + length c) remain' remain')
            stream
  unfolding fetch_round
  round_whole disk pos remain cache remain' c stream below fits recorded =
      fetch_stream-fetch_round C b (task_of disk pos remain cache) c stream
      ∙ ap
          (λ cf.
            fetch_round C b (task_of disk pos remain cache) c cf (λ t. fetch_stream C b t stream))
          (split_large remain cache (length c) below)
      ∙ >>=-returns _ (write_all_lem C.W b disk pos c accepts fits)
      ∙ >>=-returns _ recorded

  pub fetch_stream_negative :
      (disk : C.W.Disk) (pos m : ℕ) (cs : List Bytes) (stop out : ℕ)
      → 0 < m
      → m + size cs < 2 ^ 63
      → pos + size cs < u64_mod
      → stop ≡ pos + size cs
      → out ≡ m + size cs
      → fetch_stream C b (task_of disk pos (over m) (over m)) (map ok cs)
        ≡ returns (ok tt, task_of (write_each C.W disk pos cs) stop (over out) (over out))
  unfolding fetch_stream write_each
  fetch_stream_negative disk pos m [] stop out some_over small fits at_stop at_out =
      let p : pos ≡ stop = omega arith in let q : m ≡ out = omega arith in rw (p, q)
  fetch_stream_negative disk pos m (c ∷ cs) stop out some_over small fits at_stop at_out =
      round_whole disk pos (over m) (over m) (over (m + length c)) c (map ok cs) (omega arith)
        (omega arith) (record_further b m (over m) (length c) some_over (omega arith))
      ∙ fetch_stream_negative (pwrite C.W disk pos c).1 (pos + length c) (m + length c) cs stop out
          (omega arith) (omega arith) (omega arith) (omega arith) (omega arith)

  -- From the cache that `Remain::new` sets, on a first chunk that is longer than the `r` bytes that
  -- remain: no chunk of the stream is cut, all are written, one after the other, past the end of
  -- the task's range, and the counter ends below 0, by as much as was written too many. The stream
  -- is shorter than 2 ^ 63 - 1 bytes and its end a `u64`.
  pub fetch_stream-new_overrun :
      (disk : C.W.Disk) (pos r : ℕ) (c : Bytes) (cs : List Bytes)
      → r < length c
      → size (c ∷ cs) < 2 ^ 63 - 1
      → pos + size (c ∷ cs) < u64_mod
      → fetch_stream C b
          (record { writer = record { disk = disk; process = pos }; remain = new r })
          (map ok (c ∷ cs))
        ≡ returns (
          ok tt,
          task_of
              (write_each C.W disk pos (c ∷ cs))
              (pos + size (c ∷ cs))
              (u64_mod - (size (c ∷ cs) - r))
              (u64_mod - (size (c ∷ cs) - r)),
        )
  unfolding new write_each
  fetch_stream-new_overrun disk pos r c cs longer small fits =
      round_whole disk pos r (2 ^ 63 - 1) (over (length c - r)) c (map ok cs) (omega arith)
        (omega arith) (record_over b r (2 ^ 63 - 1) (length c) longer (omega arith))
      ∙ fetch_stream_negative (pwrite C.W disk pos c).1 (pos + length c) (length c - r) cs
          (pos + size (c ∷ cs)) (size (c ∷ cs) - r) (omega arith) (omega arith) (omega arith)
          (omega arith) (omega arith)
