-- ===== src/Transfer/Chunks/Taken.antt =====
-- `fetch_chunk_in_remain` of Dtool_impl/src/downloader/subcontext.rs, where a number remains.
use native.Mathlib.Decide.{dec_lt}
use rs_dtool.Base.{
  ℕ, zero, suc, true, false, ◌+◌, ◌≤◌, ◌<◌, ◌≡◌, min, [], ◌∷◌, returns, >>=-returns, Build, u64_mod,
  length, length-take, take, leb, lt→ltb, le→ltb, ap, arith, ◌∙◌, refl,
}
use rs_dtool.Error.{ok}
use rs_dtool.Transfer.{Bytes, Stream, slice, pwrite}
use rs_dtool.Transfer.Fetch.{Context}
use rs_dtool.Transfer.Clip.{Accepts, write_all_lem}
use rs_dtool.Transfer.Limit.{slice_lem}
use rs_dtool.Transfer.Chunks.{InRemain, wrote, in_remain_written, fetch_chunk_in_remain}

take_whole : (n : ℕ) (bytes : Bytes) → length bytes ≤ n → take n bytes ≡ bytes
take_whole zero [] h = refl
take_whole (suc n) [] h = refl
take_whole zero (x ∷ bytes) h = absurd (omega arith)
take_whole (suc n) (x ∷ bytes) h = ap (x ∷◌) (take_whole n bytes (omega arith))

pub slice_whole : (n : ℕ) (bytes : Bytes) → length bytes ≡ n → slice bytes n ≡ returns bytes
slice_whole n bytes e =
    slice_lem n bytes (omega arith) ∙ ap returns (take_whole n bytes (omega arith))

module _ (C : Context) (b : Build) where
  open C use {W, S, from_stream, from_writer}

  in_remain_written-take :
      (accepts : Accepts W) (disk : W.Disk) (pos n : ℕ) (bytes part : Bytes) (stream : Stream W S)
      (found : InRemain)
      → length part ≡ n
      → pos + n < u64_mod
      → in_remain_written C b (record { disk = disk; process = pos }) stream part found
        ≡ returns
            (ok found, record { disk = (pwrite W disk pos part).1; process = pos + n }, stream)
  unfolding in_remain_written
  in_remain_written-take accepts disk pos n bytes part stream found size fits =
      >>=-returns _ (write_all_lem W b disk pos part accepts (omega arith))
      ∙ ap
          (λ k.
            returns
              (ok found, record { disk = (pwrite W disk pos part).1; process = pos + k }, stream))
          size

  -- With a number that remains, `fetch_chunk_in_remain` writes the first bytes of a chunk, as many as
  -- remain, at its position; it moves by as many, and says how many they are and whether the chunk
  -- has reached what remains. The writer takes every write, and the new position is a `u64`.
  pub fetch_chunk_in_remain-take :
      (accepts : Accepts W) (disk : W.Disk) (pos remain : ℕ) (bytes : Bytes) (stream : Stream W S)
      → pos + min remain (length bytes) < u64_mod
      → fetch_chunk_in_remain C b (record { disk = disk; process = pos }) (ok bytes ∷ stream) remain
        ≡ returns (
          ok (wrote (min remain (length bytes)) (leb remain (length bytes))),
          record {
            disk = (pwrite W disk pos (take remain bytes)).1;
            process = pos + min remain (length bytes);
          },
          stream,
        )
  unfolding fetch_chunk_in_remain
  fetch_chunk_in_remain-take accepts disk pos remain bytes stream fits =
      elim (dec_lt (length bytes) remain) [
        | yes below ↦
            let m : length bytes ≡ min remain (length bytes) = omega arith in
            let no_more : leb remain (length bytes) ≡ false = ground arith in
            rw
              (
                lt→ltb (length bytes) remain below,
                no_more,
                take_whole remain bytes (omega arith),
                ← m,
              )
              (in_remain_written-take accepts disk pos (length bytes) bytes bytes stream
                (wrote (length bytes) false) refl (omega arith))
        | no above ↦
            let m : remain ≡ min remain (length bytes) = omega arith in
            let all : leb remain (length bytes) ≡ true = ground arith in
            rw (le→ltb (length bytes) remain (omega arith), ← m)
              (>>=-returns _ (slice_lem remain bytes (omega arith))
                ∙ rw all (
                    in_remain_written-take accepts disk pos remain bytes (take remain bytes) stream
                      (wrote remain true) (omega (arith, length-take remain bytes)) (omega arith)))
      ]
