-- ===== src/Transfer/Ends.antt =====
-- How the loops of Dtool_impl/src/downloader/subcontext.rs end: where the segment ends after them, the whole
-- stream, and an error of the writer.
use rs_dtool.Base.{
  ℕ, ◌+◌, ◌-◌, ◌^◌, ◌≤◌, ◌<◌, ◌≡◌, ap, List, [], ◌∷◌, map, returns, Build, u64_mod, >>=-returns,
  returns-injective, length, arith, ◌∙◌, sym, min, add_u64_lem, refl,
}
use rs_dtool.Error.{Result, ok, SubError}
use rs_dtool.Transfer.{Bytes, pwrite, RemainWriter, end_cache}
use rs_dtool.Transfer.Fetch.{Context, fetch_stream, fetch_all}
use rs_dtool.Transfer.Clip.{size, Accepts, write_each, write_all_lem}
use rs_dtool.Transfer.Limit.{task, fetch_stream-take}

module _ (C : Context) (b : Build) (accepts : Accepts C.W) where
  end_cache_lem :
      (disk : C.W.Disk) (pos r m : ℕ)
      → m ≤ r
      → pos + r < u64_mod
      → end_cache b (task C b accepts disk (pos + m) (r - m)) ≡ returns (pos + r)
  unfolding end_cache
  end_cache_lem disk pos r m le fits =
      let e : (pos + m) + (r - m) ≡ pos + r = omega arith in
      add_u64_lem b (pos + m) (r - m) (omega arith) ∙ ap returns e

  -- However much of its stream `fetch_stream` writes, the end that the position and the cache give
  -- is the end of the segment as before. The cache agrees with the counter, the writer takes every
  -- write, the range is an `i64`, and its end a `u64`.
  pub end_cache-fetch_stream :
      (disk : C.W.Disk) (pos r : ℕ) (cs : List Bytes)
      (out : Result (Unit {0}) (SubError C.S C.W.Error) × RemainWriter C.W)
      → r < 2 ^ 63
      → pos + r < u64_mod
      → fetch_stream C b (task C b accepts disk pos r) (map ok cs) ≡ returns out
      → end_cache b out.1 ≡ end_cache b (task C b accepts disk pos r)
  unfolding end_cache
  end_cache-fetch_stream disk pos r cs out small fits runs =
      let (pieces, _, e) = fetch_stream-take C b accepts disk pos r cs small fits in
      let m : ℕ = min r (size cs) in
      let here = returns-injective (sym e ∙ runs) in
      ap (λ o. end_cache b o.1) (sym here)
      ∙ end_cache_lem (write_each C.W disk pos pieces) pos r m (omega arith) fits
      ∙ sym (add_u64_lem b pos r fits)

  -- `fetch_all` writes the whole stream, chunk after chunk, with no error, and moves the position by
  -- its length. The writer takes every write, and the end is a `u64`.
  pub fetch_all-write_each :
      (disk : C.W.Disk) (pos : ℕ) (cs : List Bytes) (stop : ℕ)
      → stop ≡ pos + size cs
      → stop < u64_mod
      → fetch_all C b (record { disk = disk; process = pos }) (map ok cs)
        ≡ returns (ok tt, record { disk = write_each C.W disk pos cs; process = stop })
  unfolding fetch_all write_each
  fetch_all-write_each disk pos [] stop at_stop fits = let e : pos ≡ stop = omega arith in rw e refl
  fetch_all-write_each disk pos (c ∷ cs) stop at_stop fits =
      >>=-returns _ (write_all_lem C.W b disk pos c accepts (omega arith))
      ∙ fetch_all-write_each (pwrite C.W disk pos c).1 (pos + length c) cs stop (omega arith) fits

module _ (C : Context) (b : Build) where
  -- A task at position `pos` with `r` bytes left, by counter and cache.
  abbrev pub task_at : C.W.Disk → ℕ → ℕ → RemainWriter C.W
  task_at disk pos r = record {
    writer = record { disk = disk; process = pos };
    remain = record { remain = r; cache = r };
  }
