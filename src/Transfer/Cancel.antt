-- ===== src/Transfer/Cancel.antt =====
-- `DownloadContext::download` of Dtool_impl/src/downloader/group_impl.rs when its `abort_token` asks it to stop:
-- `build_new` of that file stops a download so, to take it up again with another answer.
mod Tests
use rs_dtool.Base.{
  ℕ, zero, suc, ◌+◌, ◌-◌, ◌^◌, ◌≤◌, ◌<◌, ◌≡◌, refl, ap, sym, ◌∙◌, List, [], ◌∷◌, ◌++◌, map, Bool,
  true, false, returns, Build, u64_mod, length, arith, Exec,
}
use rs_dtool.Error.{ok, err, Result}
use rs_dtool.Transfer.{Bytes, BufWriter, Stream, pwrite, wrapping_sub}
use rs_dtool.Transfer.Download.{
  download, download_loop, cancelled, DownloadContext, DownloadContextError,
}
use rs_dtool.Transfer.Clip.{size, write_each}
use rs_dtool.Transfer.Stale.{NonEmpty, context, round_by, after_round, never, download-write_each}

-- The token lets `n` rounds go on, and stops the next.
abbrev pub StopsAfter : {T : Type 0} → (T → Bool × T) → ℕ → T → T → Type 0
StopsAfter abort_token zero t u = abort_token t ≡ (true, u)
StopsAfter {T} abort_token (suc n) t u =
    (v : T) × (abort_token t ≡ (false, v)) × StopsAfter abort_token n v u

module _ (W : BufWriter) (S T : Type 0) (b : Build) (abort_token : T → Bool × T)
    (rest : Stream W S) where
  abbrev after :
      W.Disk
      → ℕ
      → ℕ
      → Bytes
      → Stream W S
      → Bool × T
      → Exec (Result (Unit {0}) (DownloadContextError S W.Error) × DownloadContext W S × ℕ × T)
  after disk pos r c =
      after_round W S T b abort_token (pwrite W disk pos c).1 r (pos + length c)
        (wrapping_sub r (length c))

  first :
      (disk : W.Disk) (cache pos r : ℕ) (t : T) (c : Bytes) (stream : Stream W S)
      → r ≤ cache
      → r < 2 ^ 63
      → pos + r < u64_mod
      → length c ≤ r
      → 0 < length c
      → download_loop {W = W} {S = S} {T = T} b abort_token (ok c ∷ stream) disk cache pos r t
        ≡ after disk pos r c stream (abort_token t)
  first disk cache pos r t c stream cached small fits within full =
      round_by W S T b abort_token disk cache pos r t c stream (omega arith) small (omega arith)
        (omega arith)

  pub stopped :
      (disk : W.Disk) (cache pos r left : ℕ) (t u : T) (c : Bytes) (cs : List Bytes)
      → r ≤ cache
      → r < 2 ^ 63
      → pos + r < u64_mod
      → left + size (c ∷ cs) ≡ r
      → NonEmpty (c ∷ cs)
      → StopsAfter abort_token (length cs) t u
      → (cache' : ℕ) × (left ≤ cache')
        × (download_loop {W = W} {S = S} {T = T} b abort_token
              (map ok (c ∷ cs) ++ rest)
              disk
              cache
              pos
              r
              t
            ≡ returns (
              err cancelled,
              context W S T b rest (write_each W disk pos (c ∷ cs)) cache',
              left,
              u,
            ))
  unfolding write_each
  stopped disk cache pos r left t u c [] cached small fits are_left full stops =
      let e : wrapping_sub r (length c) ≡ left = omega arith in
      (
        r,
        omega arith,
        first disk cache pos r t c rest cached small fits (omega arith) full.0
            ∙ ap (after disk pos r c rest) stops
            ∙ rw e refl,
      )
  stopped disk cache pos r left t u c (d ∷ cs) cached small fits are_left full (v, goes_on, stops) =
      let (cache', above, later) =
        stopped (pwrite W disk pos c).1 r (pos + length c) (r - length c) left v u d cs
          (omega arith) (omega arith) (omega arith) (omega arith) full.1 stops in
      let e : wrapping_sub r (length c) ≡ r - length c = omega arith in
      (
        cache',
        above,
        first disk cache pos r t c (map ok (d ∷ cs) ++ rest) cached small fits (omega arith) full.0
            ∙ ap (after disk pos r c (map ok (d ∷ cs) ++ rest)) goes_on
            ∙ rw e later,
      )

size-append : (xs ys : List Bytes) → size (xs ++ ys) ≡ size xs + size ys
size-append [] ys = omega arith
size-append (x ∷ xs) ys = omega (arith, size-append xs ys)

module _ (W : BufWriter) where
  write_each-append :
      (disk : W.Disk) (pos : ℕ) (xs ys : List Bytes)
      → write_each W disk pos (xs ++ ys)
        ≡ write_each W (write_each W disk pos xs) (pos + size xs) ys
  unfolding write_each
  write_each-append disk pos [] ys =
      let e : pos ≡ pos + size [] = omega arith in ap (λ p. write_each W disk p ys) e
  write_each-append disk pos (x ∷ xs) ys =
      let e : pos + length x + size xs ≡ pos + size (x ∷ xs) = omega arith in
      let disk' = (pwrite W disk pos x).1 in
      write_each-append disk' (pos + length x) xs ys
      ∙ ap (λ p. write_each W (write_each W disk' (pos + length x) xs) p ys) e

module _ (W : BufWriter) (S T : Type 0) (b : Build) (abort_token : T → Bool × T) where
  -- A token that stops `download` after some chunks stops it there: these chunks are written, position
  -- after position, and counted; the result is `Cancelled`, and the context has the rest of the
  -- stream. Taken up again with that context, at the position behind them and over the counter that
  -- is left, by a token that does not stop it, it writes the chunks that were still to come, and all
  -- is as if it had not been stopped. The chunks are not empty and together at most the `r` bytes that
  -- remain; the cache is at least the counter, the range is an `i64` and its end a `u64`.
  pub download_cancelled :
      (disk : W.Disk) (cache pos r : ℕ) (t u : T) (c : Bytes) (cs ds : List Bytes)
      → r ≤ cache
      → r < 2 ^ 63
      → pos + r < u64_mod
      → size (c ∷ cs) + size ds ≤ r
      → NonEmpty (c ∷ cs)
      → NonEmpty ds
      → StopsAfter abort_token (length cs) t u
      → (here : DownloadContext W S) × (here.stream ≡ map ok ds)
        × (here.writer ≡ write_each W disk pos (c ∷ cs))
        × (download {W = W} {S = S} {T = T} b abort_token
              (context W S T b (map ok (c ∷ cs) ++ map ok ds) disk cache)
              pos
              r
              t
            ≡ returns (err cancelled, here, r - size (c ∷ cs), u))
        × (end : ℕ) × (download {W = W} {S = S} {T = T} b never here
              (pos + size (c ∷ cs))
              (r - size (c ∷ cs))
              u
            ≡ returns (
              ok tt,
              context W S T b [] (write_each W disk pos ((c ∷ cs) ++ ds)) end,
              r - size ((c ∷ cs) ++ ds),
              u,
            ))
  unfolding download
  download_cancelled disk cache pos r t u c cs ds cached small fits within full full' stops =
      let (cache', above, ran) =
        stopped W S T b abort_token (map ok ds) disk cache pos r (r - size (c ∷ cs)) t u c cs cached
          small fits (omega arith) full stops in
      let disk' : W.Disk = write_each W disk pos (c ∷ cs) in
      let (end, resumed) =
        download-write_each W S T b disk' cache' (pos + size (c ∷ cs)) (r - size (c ∷ cs)) u ds
          above (omega arith) (omega arith) (omega arith) full' in
      let left : r - size (c ∷ cs) - size ds ≡ r - size ((c ∷ cs) ++ ds) =
        omega (arith, size-append (c ∷ cs) ds) in
      let written : write_each W disk pos ((c ∷ cs) ++ ds)
          ≡ write_each W disk' (pos + size (c ∷ cs)) ds =
        write_each-append W disk pos (c ∷ cs) ds in
      (
        context W S T b (map ok ds) disk' cache',
        refl,
        refl,
        ran,
        end,
        resumed
            ∙ ap (λ (p : W.Disk × ℕ). returns (ok tt, context W S T b [] p.0 end, p.1, u))
                (λ i. (sym written i, left i)),
      )
