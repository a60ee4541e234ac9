-- ===== src/Transfer/Chunks/Tests.antt =====
-- Examples for a fetch up to a condition and of one chunk.
use rs_dtool.Transfer.Clip.{write_each}
use rs_dtool.Base.{
  Bool, ℕ, ◌≡◌, ◌+◌, ◌++◌, none, leb, refl, [], ◌∷◌, returns, ◌>>=◌, debug, arith, true,
}
use rs_dtool.Error.{ok}
use rs_dtool.Transfer.{Stream, Writer, pwrite}
use rs_dtool.Transfer.Fetch.{fetch_all, fetch_stream}
use rs_dtool.Transfer.Limit.{task}
use rs_dtool.Transfer.Examples.{write_at, bytes_at, setting_at, blank, bytes_at_accepts}
use rs_dtool.Transfer.Chunks.{fetch_util, fetech_chunk, wrote, fetch_chunk_in_remain, fetch_chunk}
use rs_dtool.Transfer.Chunks.Until.{fetch_util-write_each}
use rs_dtool.Transfer.Chunks.Taken.{fetch_chunk_in_remain-take}
use rs_dtool.Transfer.Chunks.Rest.{
  fetch_on, fetech_chunk-fetch_all, stream_on, fetch_chunk-fetch_stream,
}

abbrev three_two : Stream bytes_at ℕ
three_two = ok (1 ∷ 2 ∷ 3 ∷ []) ∷ ok (4 ∷ 5 ∷ []) ∷ []

abbrev at_ten : Writer bytes_at
at_ten = record { disk = blank; process = 10 }

-- A condition that counts its calls, and holds at the second.
abbrev second_call : ℕ → ℕ → Bool × ℕ
second_call p n = (leb 2 (n + 1), n + 1)

fetch_util-write_each_example :
    fetch_util setting_at debug at_ten (three_two ++ ok (6 ∷ []) ∷ []) second_call 0
    ≡ returns (
      none,
      record { disk = write_at (write_at blank 10 (1 ∷ 2 ∷ 3 ∷ [])) 13 (4 ∷ 5 ∷ []); process = 15 },
      ok (6 ∷ []) ∷ [],
      2,
    )
unfolding write_each pwrite
fetch_util-write_each_example =
    fetch_util-write_each setting_at debug bytes_at_accepts second_call (ok (6 ∷ []) ∷ []) blank 10
      15 (1 ∷ 2 ∷ 3 ∷ []) ((4 ∷ 5 ∷ []) ∷ []) 0 2 (1, refl, refl) refl (omega arith)

fetech_chunk-fetch_all_test :
    (fetech_chunk setting_at debug at_ten three_two >>= fetch_on setting_at debug)
    ≡ fetch_all setting_at debug at_ten three_two
fetech_chunk-fetch_all_test = fetech_chunk-fetch_all setting_at debug at_ten three_two

fetch_chunk-fetch_stream_example :
    (fetch_chunk setting_at debug (task setting_at debug bytes_at_accepts blank 10 4) three_two
      >>= stream_on setting_at debug)
    ≡ fetch_stream setting_at debug (task setting_at debug bytes_at_accepts blank 10 4) three_two
fetch_chunk-fetch_stream_example =
    fetch_chunk-fetch_stream setting_at debug (task setting_at debug bytes_at_accepts blank 10 4)
      three_two (omega arith)

-- Two bytes remain of three.
fetch_chunk_in_remain-take_test :
    fetch_chunk_in_remain setting_at debug at_ten three_two 2
    ≡ returns (
      ok (wrote 2 true),
      record { disk = write_at blank 10 (1 ∷ 2 ∷ []); process = 12 },
      ok (4 ∷ 5 ∷ []) ∷ [],
    )
unfolding pwrite
fetch_chunk_in_remain-take_test =
    fetch_chunk_in_remain-take setting_at debug bytes_at_accepts blank 10 2 (1 ∷ 2 ∷ 3 ∷ [])
      (ok (4 ∷ 5 ∷ []) ∷ []) (omega arith)
