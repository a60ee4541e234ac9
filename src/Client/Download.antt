-- ===== src/Client/Download.antt =====
-- `first_response_download` of Dtool_impl/src/downloader/group_impl.rs: the first request with the download of its
-- answer.
use rs_dtool.Base.{
  ℕ, ◌-◌, ◌^◌, ◌≤◌, ◌<◌, ◌≡◌, Bool, false, some, returns, >>=-returns, >>=-cong, List, [], ◌∷◌, map,
  arith, refl, ap, Build, add_u64, min, length, ◌∙◌,
}
use rs_dtool.Error.{ok, err}
use rs_dtool.Http.{Library, RequestInfo, check_response_resumability}
use rs_dtool.Transfer.{Bytes, BufWriter, Stream, slice, i64_max}
use rs_dtool.Transfer.Clip.{size, write_each}
use rs_dtool.Transfer.Download.{download, download_loop}
use rs_dtool.Transfer.Stale.{never, NonEmpty, context, download-write_each}
use rs_dtool.Client.{Client, first_response_download}
use rs_dtool.Client.Answers.{with_range, Answers, range_request-with_range, Answers-execute_unwrap}

module _ {W : BufWriter} {S : Type 0} (b : Build) where
  -- A token that reads a cell that nobody sets.
  download_loop-token :
      (stream : Stream W S) (disk : W.Disk) (cache process remain : ℕ)
      → download_loop {W = W} {S = S} b (λ a. (a, a)) stream disk cache process remain false
        ≡ download_loop {W = W} {S = S} b never stream disk cache process remain false
  unfolding download_loop
  download_loop-token [] disk cache process remain = refl
  download_loop-token (err e ∷ stream) disk cache process remain = refl
  download_loop-token (ok bytes ∷ stream) disk cache process remain =
      >>=-cong (slice bytes (min (length bytes) cache)) _ _ (λ part.
        >>=-cong (add_u64 b process (min (length bytes) cache)) _ _
          (λ process'. rw (download_loop-token stream) refl))

module _ {L : Library} (C : Client L) {W : BufWriter} {S : Type 0}
    (bytes_stream : L.Response → Stream W S) (b : Build) where
  -- The answer to the first request is written whole, from position 0 on, chunk after chunk, whether
  -- the writes succeed or not, and the counter moves by as much: where `0..` makes a range, the
  -- server answers to the request with it, with no error status, and with a body of non-empty chunks
  -- that together are at most what the counter, an `i64`, says, and the cell is not set.
  pub first_response_download-write_each :
      (net net' : C.Net) (info : RequestInfo L) (range : C.Range) (response : L.Response)
      (disk : W.Disk) (remain : ℕ) (cs : List Bytes)
      → C.range (C.from 0) ≡ some range
      → Answers C net (with_range C info range) response net'
      → bytes_stream response ≡ map ok cs
      → remain < 2 ^ 63
      → size cs ≤ remain
      → NonEmpty cs
      → (cache : ℕ) × (first_response_download C {W = W} {S = S} bytes_stream b net info disk remain
            false
          ≡ returns (
            record info { headers = (check_response_resumability L info.headers response false).1 },
            context W S (Unit {0}) b [] (write_each W disk 0 cs) cache,
            remain - size cs,
            net',
          ))
  unfolding first_response_download download
  first_response_download-write_each net net' info range response disk remain cs from_zero answers
        body small within full =
      let (cache, ran) =
        download-write_each W S Bool b disk i64_max 0 remain false cs (omega arith) small
          (omega arith) within full in
      (
        cache,
        >>=-returns _ (range_request-with_range C info (C.from 0) range from_zero)
            ∙ >>=-returns _
                (Answers-execute_unwrap C net (with_range C info range) response net' answers)
            ∙ >>=-returns _ (
                download_loop-token b (bytes_stream response) disk i64_max 0 remain
                ∙ ap (λ stream. download_loop b never stream disk i64_max 0 remain false) body
                ∙ ran),
      )
