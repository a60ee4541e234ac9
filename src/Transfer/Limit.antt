-- ===== src/Transfer/Limit.antt =====
-- `RemainWriter::fetch_stream` of Dtool_impl/src/downloader/subcontext.rs, from a cache that agrees
-- with the counter.
use native.Mathlib.Decide.{dec_lt}
use mathlib.Core.Path.{ap₂}
use mathlib.Core.List.{flatten}
use rs_dtool.Base.{
  ℕ, ◌+◌, ◌-◌, ◌^◌, ◌≤◌, ◌<◌, ◌≡◌, ap, List, [], ◌∷◌, map, returns, Build, u64_mod, >>=-returns,
  length, length-take, take, arith, min, sym, ◌∙◌,
}
use rs_dtool.Error.{ok}
use rs_dtool.Transfer.{
  Bytes, continue_on, break_with, pwrite, Stream, RemainWriter, split_chunk, slice,
}
use rs_dtool.Transfer.Fetch.Rounds.{fetch_round, fetch_stream-fetch_round}
use rs_dtool.Transfer.Fetch.{Context, fetch_stream}
use rs_dtool.Transfer.Clip.{
  size, size-clip, clip_below, clip_above, clip, flatten-clip, record_writed_lem, Accepts,
  write_each, write_all_lem,
}

pub split_below : (r n : ℕ) → n < r → split_chunk (record { remain = r; cache = r }) n ≡ continue_on
unfolding split_chunk
split_below r n h = ground arith

pub split_above :
    (r n : ℕ) → r ≤ n → split_chunk (record { remain = r; cache = r }) n ≡ break_with r
unfolding split_chunk
split_above r n h = ground arith

pub slice_lem : (r : ℕ) (c : Bytes) → r ≤ length c → slice c r ≡ returns (take r c)
slice_lem r c h = ground arith

module _ (C : Context) (b : Build) (accepts : Accepts C.W) where
  -- A task at position `pos` with `r` bytes left, by counter and cache.
  abbrev pub task : C.W.Disk → ℕ → ℕ → RemainWriter C.W
  task disk pos r = record {
    writer = record { disk = disk; process = pos };
    remain = record { remain = r; cache = r };
  }

  -- One round of the loop: a chunk that fits, and the last one.
  fetch_fits :
      (disk : C.W.Disk) (pos r : ℕ) (c : Bytes) (stream : Stream C.W C.S)
      → length c < r
      → r < 2 ^ 63
      → pos + r < u64_mod
      → fetch_stream C b (task disk pos r) (ok c ∷ stream)
        ≡ fetch_stream C b (task (pwrite C.W disk pos c).1 (pos + length c) (r - length c)) stream
  unfolding fetch_round
  fetch_fits disk pos r c stream below small fits =
      fetch_stream-fetch_round C b (task disk pos r) c stream
      ∙ ap (λ cf. fetch_round C b (task disk pos r) c cf (λ t. fetch_stream C b t stream))
          (split_below r (length c) below)
      ∙ >>=-returns _ (write_all_lem C.W b disk pos c accepts (omega arith))
      ∙ >>=-returns _ (record_writed_lem b r r (length c) small (omega arith))

  fetch_last :
      (disk : C.W.Disk) (pos r : ℕ) (c : Bytes) (stream : Stream C.W C.S)
      → r ≤ length c
      → r < 2 ^ 63
      → pos + r < u64_mod
      → fetch_stream C b (task disk pos r) (ok c ∷ stream)
        ≡ returns (ok tt, task (pwrite C.W disk pos (take r c)).1 (pos + length (take r c)) (r - r))
  unfolding fetch_round
  fetch_last disk pos r c stream above small fits =
      let size : length (take r c) ≡ r = omega (arith, length-take r c) in
      fetch_stream-fetch_round C b (task disk pos r) c stream
      ∙ ap (λ cf. fetch_round C b (task disk pos r) c cf (λ t. fetch_stream C b t stream))
          (split_above r (length c) above)
      ∙ >>=-returns _ (slice_lem r c above)
      ∙ >>=-returns _ (write_all_lem C.W b disk pos (take r c) accepts (omega arith))
      ∙ >>=-returns _ (record_writed_lem b r r r small (omega arith))

  fetch_stream-clip :
      (disk : C.W.Disk) (pos r : ℕ) (cs : List Bytes) (stop left : ℕ)
      → r < 2 ^ 63
      → pos + r < u64_mod
      → stop ≡ pos + size (clip r cs)
      → left + size (clip r cs) ≡ r
      → fetch_stream C b (task disk pos r) (map ok cs)
        ≡ returns (ok tt, task (write_each C.W disk pos (clip r cs)) stop left)
  unfolding fetch_stream clip write_each
  fetch_stream-clip disk pos r [] stop left small fits at_stop are_left =
      let e : pos ≡ stop = omega arith in let e' : r ≡ left = omega arith in rw (e, e')
  fetch_stream-clip disk pos r (c ∷ cs) stop left small fits at_stop are_left =
      elim (dec_lt (length c) r) [
        | yes below ↦
            let split : clip r (c ∷ cs) ≡ c ∷ clip (r - length c) cs = clip_below r c cs below in
            let parts : size (clip r (c ∷ cs)) ≡ length c + size (clip (r - length c) cs) =
              ap size split in
            fetch_fits disk pos r c (map ok cs) below small fits
            ∙ fetch_stream-clip (pwrite C.W disk pos c).1 (pos + length c) (r - length c) cs stop
                left (omega arith) (omega arith) (omega arith) (omega arith)
            ∙ ap (λ ps. returns (ok tt, task (write_each C.W disk pos ps) stop left)) (sym split)
        | no above ↦
            let split : clip r (c ∷ cs) ≡ take r c ∷ [] = clip_above r c cs (omega arith) in
            let parts : size (clip r (c ∷ cs)) ≡ length (take r c) + 0 = ap size split in
            let len : length (take r c) ≡ r = omega (arith, length-take r c) in
            let e : pos + length (take r c) ≡ stop = omega arith in
            let e' : r - r ≡ left = omega arith in
            fetch_last disk pos r c (map ok cs) (omega arith) small fits
            ∙ ap₂ (λ p l. returns (ok tt, task (pwrite C.W disk pos (take r c)).1 p l)) e e'
            ∙ ap (λ ps. returns (ok tt, task (write_each C.W disk pos ps) stop left)) (sym split)
      ]

  -- If the cache agrees with the counter, and the writer takes every write, `fetch_stream` returns
  -- with no error, and what it writes, piece after piece from where the task stands, is the first
  -- `r` bytes of the stream, for the `r` bytes that remain, or all of it. The position and the
  -- counter have moved by as much. The range is to be an `i64`, and its end a `u64`.
  pub fetch_stream-take :
      (disk : C.W.Disk) (pos r : ℕ) (cs : List Bytes)
      → r < 2 ^ 63
      → pos + r < u64_mod
      → (pieces : List Bytes) × (flatten pieces ≡ take r (flatten cs))
        × (fetch_stream C b (task disk pos r) (map ok cs)
            ≡ returns (
              ok tt,
              task (write_each C.W disk pos pieces) (pos + min r (size cs)) (r - min r (size cs)),
            ))
  fetch_stream-take disk pos r cs small fits = (
    clip r cs,
    flatten-clip r cs,
    fetch_stream-clip disk pos r cs (pos + min r (size cs)) (r - min r (size cs)) small fits
        (omega (arith, size-clip r cs)) (omega (arith, size-clip r cs)),
  )
