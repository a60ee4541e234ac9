-- ===== src/Transfer.antt =====
-- Dtool_impl/src/downloader/subcontext.rs and pwriter.rs: a task writes the chunks of its stream at
-- consecutive positions, and counts down what remains of its segment. An `i64` is its bit pattern, a
-- number below 2 ^ 64, so that the casts to and from `usize` and `u64` do nothing.
pub mod Fetch
pub mod Download
pub mod Chunks
pub mod Clip
mod Limit
mod Overrun
mod Ends
pub mod File
pub mod Stale
pub mod Cancel
mod Unrecorded
mod Whole
pub mod Examples
pub mod Parallel
mod Tests
use rs_dtool.Base.{
  ℕ, ◌+◌, ◌-◌, ◌%◌, ◌^◌, Bool, ◌&&◌, List, [], Exec, returns, panics, ◌>>=◌, Build, debug, release,
  u64_mod, add_u64, ltb, leb, if◌then◌else◌, length, take, Option,
}
use rs_dtool.Error.{Result, ok, err, SubError}

abbrev pub Bytes : Type 0
Bytes = List ℕ

-- `std::ops::ControlFlow<B>`
pub data ControlFlow (B : Type 0) : Type 0 where
  continue_on : ControlFlow B
  break_with : B → ControlFlow B

abbrev pub i64_max : ℕ
i64_max = 2 ^ 63 - 1

abbrev pub i64_negative : ℕ → Bool
i64_negative x = leb (2 ^ 63) x

-- The order of `i64` is that of these numbers.
abbrev pub bias : ℕ → ℕ
bias x = (x + 2 ^ 63) % u64_mod

-- `-` on `i64`, which `debug` checks, and `fetch_sub`, which wraps in each build.
abbrev pub wrapping_sub : ℕ → ℕ → ℕ
wrapping_sub x y = (x + u64_mod - y) % u64_mod

abbrev pub sub_i64 : Build → ℕ → ℕ → Exec ℕ
sub_i64 debug x y =
    if leb (bias y) (bias x + 2 ^ 63) && ltb (bias x) (bias y + 2 ^ 63)
    then returns (wrapping_sub x y)
    else panics
sub_i64 release x y = returns (wrapping_sub x y)

-- `remain` is the value of the shared counter.
pub record Remain : Type 0 where
  pub remain : ℕ
  pub cache : ℕ

-- `Remain::new`
unfoldable pub new : ℕ → Remain
new remain = record { remain = remain; cache = i64_max }

unfoldable pub split_chunk : Remain → ℕ → ControlFlow ℕ
split_chunk r chunk_len = if ltb chunk_len r.cache then continue_on else break_with r.cache

unfoldable pub record_writed : Build → Remain → ℕ → Exec Remain
record_writed b r writed = do
  progress_now ← sub_i64 b r.remain writed
  returns (record { remain = wrapping_sub r.remain writed; cache = progress_now })

abbrev pub flash_cache : Remain → Remain
flash_cache r = record r { cache = r.remain }

-- What is written to: a trait, whose implementations are not in the repository. `Disk` is its state.
pub record BufWriter : Type 1 where
  pub Disk : Type 0
  pub Error : Type 0
  pub pwrite_raw : Disk → ℕ → Bytes → Result (Unit {0}) Error × Bytes × Disk

module _ (W : BufWriter) where
  -- The method that the trait gives.
  unfoldable pub pwrite : W.Disk → ℕ → Bytes → Result (Unit {0}) W.Error × W.Disk
  pwrite disk pos buffer = let (r, _, disk') = W.pwrite_raw disk pos buffer in (r, disk')

  -- What `try_next` gives until it gives `None`: chunks and errors.
  abbrev pub Stream : Type 0 → Type 0
  Stream S = List (Result Bytes S)

-- `Writer`, with the state of the writer that it refers to.
pub record Writer (W : BufWriter) : Type 0 where
  pub disk : W.Disk
  pub process : ℕ

pub record RemainWriter (W : BufWriter) : Type 0 where
  pub writer : Writer W
  pub remain : Remain

-- `Bytes::slice(..len)`
abbrev pub slice : Bytes → ℕ → Exec Bytes
slice bytes len = if leb len (length bytes) then returns (take len bytes) else panics

module _ {W : BufWriter} where
  unfoldable pub write_all : Build → Writer W → Bytes → Exec (Result (Unit {0}) W.Error × Writer W)
  unfolding pwrite
  write_all b w buffer =
      let (r, disk) = pwrite W w.disk w.process buffer in
      let after : Exec (Result (Unit {0}) W.Error × Writer W) = elim r [
        | ok _ ↦ do
          process ← add_u64 b w.process (length buffer)
          returns (ok tt, record { disk = disk; process = process })
        | err e ↦ returns (err e, record w { disk = disk })
      ] in
      after

  -- `end_cache`
  pub end_cache : Build → RemainWriter W → Exec ℕ
  end_cache b w = add_u64 b w.writer.process w.remain.cache
