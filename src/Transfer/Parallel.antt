-- ===== src/Transfer/Parallel.antt =====
-- Several tasks of Dtool_impl/src/downloader/subcontext.rs on one writer: each runs `fetch_stream`, and they
-- take turns in any order. A task waits for its stream and for its writes, so a turn is a round of
-- the loop. Each task has a counter of its own, and no other
-- lowers it. The code that would start the tasks is unfinished.
mod Round
mod Invariant
pub mod Steps
pub mod Weight
pub mod Outcome
mod Split
pub mod Tests
use rs_dtool.Base.{
  ℕ, zero, suc, ◌+◌, ◌≡◌, List, [], ◌∷◌, Option, none, some, Exec, returns, ◌>>=◌, Build, length,
  get_elem?, set,
}
use rs_dtool.Error.{Result, ok, err, SubError}
use rs_dtool.Segment.{Segment}
use rs_dtool.Transfer.{continue_on, break_with, Stream, Writer, Remain, RemainWriter}
use rs_dtool.Transfer.Fetch.{Context, After, round}

-- A task between two turns: what it has still to read, its position and its counter; and its
-- result, once it has ended. The segment is the one that it was given.
pub record Fetcher (C : Context) : Type 0 where
  pub segment : Segment
  pub stream : Stream C.W C.S
  pub process : ℕ
  pub remain : Remain
  pub result : Option (Result (Unit {0}) (SubError C.S C.W.Error))

pub record System (C : Context) : Type 0 where
  pub disk : C.W.Disk
  pub fetchers : List (Fetcher C)

module _ (C : Context) (b : Build) where
  abbrev pub result_of : After C → Option (Result (Unit {0}) (SubError C.S C.W.Error))
  result_of continue_on = none
  result_of (break_with r) = some r

  abbrev pub as_writer : C.W.Disk → Fetcher C → RemainWriter C.W
  as_writer disk f = record {
    writer = record { disk = disk; process = f.process };
    remain = f.remain;
  }

  unfoldable pub turn_on : C.W.Disk → Fetcher C → Stream C.W C.S → Exec (Fetcher C × C.W.Disk)
  turn_on disk f [] = returns (record f { result = some (ok tt) }, disk)
  turn_on disk f (err e ∷ stream) =
      returns (record f { stream = stream; result = some (err (C.from_stream e)) }, disk)
  turn_on disk f (ok bytes ∷ stream) = do
    (after, t) ← round C b (as_writer disk f) bytes
    returns (
      record f {
        stream = stream;
        process = t.writer.process;
        remain = t.remain;
        result = result_of after;
      },
      t.writer.disk,
    )

  unfoldable pub turn : C.W.Disk → Fetcher C → Exec (Fetcher C × C.W.Disk)
  unfolding turn_on
  turn disk f = turn_on disk f f.stream

  -- Any task that has not ended may take the next turn.
  pub data Step (s : System C) : System C → Type 0 where
    take_turn :
        (i : ℕ) {f f' : Fetcher C} {disk' : C.W.Disk}
        → get_elem? s.fetchers i ≡ some f
        → f.result ≡ none
        → turn s.disk f ≡ returns (f', disk')
        → Step s (record { disk = disk'; fetchers = set s.fetchers i f' })

  -- What `n` turns lead to.
  pub data Reach (s : System C) : ℕ → System C → Type 0 where
    here : Reach s 0 s
    later : {n : ℕ} {t u : System C} → Reach s n t → Step t u → Reach s (suc n) u

-- The turns that a task may still take, and those of all.
abbrev pub weight_on :
    {C : Context} → Fetcher C → Option (Result (Unit {0}) (SubError C.S C.W.Error)) → ℕ
weight_on f none = suc (length f.stream)
weight_on f (some _) = 0

abbrev pub weight : {C : Context} → Fetcher C → ℕ
weight f = weight_on f f.result

abbrev pub total : {C : Context} → List (Fetcher C) → ℕ
total [] = 0
total (f ∷ fs) = weight f + total fs
