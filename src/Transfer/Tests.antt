-- ===== src/Transfer/Tests.antt =====
-- Examples for the loops over a stream: a writer that keeps each write, with its position.
use rs_dtool.Base.{
  false, some, ℕ, ◌≡◌, ◌+◌, ◌-◌, List, [], ◌∷◌, ◌++◌, map, take, min, returns, debug, refl, arith,
  u64_mod,
}
use mathlib.Core.List.{flatten}
use rs_dtool.Error.{SubError, Result, ok, err, new_network, from_into_writer}
use rs_dtool.Transfer.{
  end_cache, record_writed, RemainWriter, break_with, split_chunk, write_all, Bytes, BufWriter, new,
  pwrite,
}
use rs_dtool.Transfer.Fetch.{fetch_all, Context, fetch_stream, fetch_conditional, write_in_remain}
use rs_dtool.Transfer.Clip.{Accepts, size, write_each}
use rs_dtool.Transfer.Limit.{task, fetch_stream-take}
use rs_dtool.Transfer.Unrecorded.{write_in_remain_whole, fetch_conditional-remain}
use rs_dtool.Transfer.Ends.{end_cache-fetch_stream, fetch_all-write_each}
use rs_dtool.Transfer.Overrun.{task_of, fetch_stream-new_overrun}
use rs_dtool.Transfer.Download.{
  DownloadContext, DownloadContextError, write_error, download, at_most_zero,
}
use rs_dtool.Transfer.Stale.{
  context, never, download-write_each, download_overrun, download-no_write_error,
}

abbrev pub recorder : BufWriter
recorder = record {
  Disk = List (ℕ × Bytes);
  Error = ℕ;
  pwrite_raw = λ disk pos buffer. (ok tt, buffer, disk ++ (pos, buffer) ∷ []);
}

pub recorder_accepts : Accepts recorder
unfolding pwrite
recorder_accepts disk pos buffer = refl

-- Each write fails.
abbrev broken : BufWriter
broken = record {
  Disk = Unit {0};
  Error = ℕ;
  pwrite_raw = λ disk pos buffer. (err 5, buffer, disk);
}

abbrev pub setting : Context
setting = record { W = recorder; S = ℕ; from_stream = new_network; from_writer = from_into_writer }

abbrev pub chunks : List Bytes
chunks = (1 ∷ 2 ∷ 3 ∷ []) ∷ (4 ∷ 5 ∷ []) ∷ (6 ∷ []) ∷ []

fetch_stream-take_example :
    (pieces : List Bytes) × (flatten pieces ≡ take 4 (flatten chunks))
    × (fetch_stream setting debug (task setting debug recorder_accepts [] 10 4) (map ok chunks)
        ≡ returns (
          ok tt,
          task setting debug recorder_accepts
              (write_each recorder [] 10 pieces)
              (10 + min 4 (size chunks))
              (4 - min 4 (size chunks)),
        ))
fetch_stream-take_example =
    fetch_stream-take setting debug recorder_accepts [] 10 4 chunks (omega arith) (omega arith)

-- Two bytes remain, and six are written.
fetch_stream-new_overrun_example :
    fetch_stream setting debug
      (record { writer = record { disk = []; process = 10 }; remain = new 2 })
      (map ok chunks)
    ≡ returns (
      ok tt,
      task_of setting debug recorder_accepts
          (write_each recorder [] 10 chunks)
          16
          (u64_mod - 4)
          (u64_mod - 4),
    )
fetch_stream-new_overrun_example =
    fetch_stream-new_overrun setting debug recorder_accepts [] 10 2 (1 ∷ 2 ∷ 3 ∷ [])
      ((4 ∷ 5 ∷ []) ∷ (6 ∷ []) ∷ []) (omega arith) (omega arith) (omega arith)

download-write_each_test :
    (cache : ℕ) × (download {W = recorder} {S = ℕ} {T = Unit {0}} debug never
        (context recorder ℕ (Unit {0}) debug (map ok chunks) [] 9)
        10
        9
        tt
      ≡ returns (
        ok tt,
        context recorder ℕ (Unit {0}) debug [] (write_each recorder [] 10 chunks) cache,
        3,
        tt,
      ))
download-write_each_test =
    download-write_each recorder ℕ (Unit {0}) debug [] 9 10 9 tt chunks (omega arith) (omega arith)
      (omega arith) (omega arith) (omega arith, (omega arith, (omega arith, tt)))

-- Four bytes remain, and five are written.
download_overrun_example :
    download {W = recorder} {S = ℕ} {T = Unit {0}} debug never
      (context recorder ℕ (Unit {0}) debug (ok (1 ∷ 2 ∷ 3 ∷ []) ∷ ok (4 ∷ 5 ∷ []) ∷ []) [] 4)
      10
      4
      tt
    ≡ returns (
      ok tt,
      context recorder ℕ
          (Unit {0})
          debug
          []
          (write_each recorder [] 10 ((1 ∷ 2 ∷ 3 ∷ []) ∷ (4 ∷ 5 ∷ []) ∷ []))
          1,
      u64_mod - 1,
      tt,
    )
download_overrun_example =
    download_overrun recorder ℕ (Unit {0}) debug [] 4 10 4 tt (1 ∷ 2 ∷ 3 ∷ []) (4 ∷ 5 ∷ [])
      (omega arith) (omega arith) (omega arith) (omega arith) (omega arith) (omega arith)

abbrev after_failures :
    Result (Unit {0}) (DownloadContextError ℕ ℕ) × DownloadContext broken ℕ × ℕ × Unit {0}
after_failures = (ok tt, record { stream = []; writer = tt; remain_cache = 9 }, 6, tt)

fails_silently :
    download {W = broken} {S = ℕ} {T = Unit {0}} debug never
      (record { stream = ok (1 ∷ 2 ∷ 3 ∷ []) ∷ []; writer = tt; remain_cache = 9 })
      10
      9
      tt
    ≡ returns after_failures
unfolding download at_most_zero
fails_silently = refl

download-no_write_error_example : ¬ (after_failures.0 ≡ err (write_error 5))
download-no_write_error_example =
    download-no_write_error broken ℕ (Unit {0}) debug never
      (record { stream = ok (1 ∷ 2 ∷ 3 ∷ []) ∷ []; writer = tt; remain_cache = 9 }) 10 9 tt 5
      after_failures fails_silently

-- Two bytes remain, and three are written.
write_in_remain_whole_example :
    write_in_remain debug (task setting debug recorder_accepts [] 10 2) (1 ∷ 2 ∷ 3 ∷ [])
    ≡ returns (
      ok (break_with 2),
      task setting debug recorder_accepts (pwrite recorder [] 10 (1 ∷ 2 ∷ 3 ∷ [])).1 13 0,
    )
write_in_remain_whole_example =
    write_in_remain_whole setting debug recorder_accepts [] 10 2 (1 ∷ 2 ∷ 3 ∷ []) (omega arith)
      (omega arith) (omega arith)

abbrev unconditional : RemainWriter recorder
unconditional = record {
  writer = record { disk = []; process = 10 };
  remain = record { remain = 9; cache = 9 };
}

abbrev after_chunks : RemainWriter recorder
after_chunks = record {
  writer = record {
    disk = (10, 1 ∷ 2 ∷ 3 ∷ []) ∷ (13, 4 ∷ 5 ∷ []) ∷ (15, 6 ∷ []) ∷ [];
    process = 16;
  };
  remain = record { remain = 9; cache = 9 };
}

writes_chunks :
    fetch_conditional setting debug unconditional (map ok chunks) (λ n calls. (false, calls + 1)) 0
    ≡ returns (some (ok tt), after_chunks)
unfolding fetch_conditional split_chunk write_all
writes_chunks = refl

-- Six bytes are written, and nine remain as before.
fetch_conditional-remain_example : after_chunks.remain ≡ unconditional.remain
fetch_conditional-remain_example =
    fetch_conditional-remain setting debug (λ n (calls : ℕ). (false, calls + 1)) unconditional
      (map ok chunks) 0 (some (ok tt), after_chunks) writes_chunks

-- Four of the six bytes are written, and the segment ends at 14 as before.
abbrev after_four : Result (Unit {0}) (SubError ℕ ℕ) × RemainWriter recorder
after_four = (
  ok tt,
  record {
    writer = record { disk = (10, 1 ∷ 2 ∷ 3 ∷ []) ∷ (13, 4 ∷ []) ∷ []; process = 14 };
    remain = record { remain = 0; cache = 0 };
  },
)

writes_four :
    fetch_stream setting debug (task setting debug recorder_accepts [] 10 4) (map ok chunks)
    ≡ returns after_four
unfolding fetch_stream split_chunk record_writed write_all
writes_four = refl

end_cache-fetch_stream_test :
    end_cache debug after_four.1 ≡ end_cache debug (task setting debug recorder_accepts [] 10 4)
end_cache-fetch_stream_test =
    end_cache-fetch_stream setting debug recorder_accepts [] 10 4 chunks after_four (omega arith)
      (omega arith) writes_four

fetch_all-write_each_test :
    fetch_all setting debug (record { disk = []; process = 10 }) (map ok chunks)
    ≡ returns (ok tt, record { disk = write_each recorder [] 10 chunks; process = 16 })
fetch_all-write_each_test =
    fetch_all-write_each setting debug recorder_accepts [] 10 chunks 16 (omega arith) (omega arith)

abbrev broken_setting : Context
broken_setting = record {
  W = broken;
  S = ℕ;
  from_stream = new_network;
  from_writer = from_into_writer;
}
