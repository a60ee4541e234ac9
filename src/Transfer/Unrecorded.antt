-- ===== src/Transfer/Unrecorded.antt =====
-- The other methods of `RemainWriter` of Dtool_impl/src/downloader/subcontext.rs, and what they leave of the
-- counter and of the position.
use rs_dtool.Base.{
  ℕ, ◌+◌, ◌-◌, ◌^◌, ◌≤◌, ◌<◌, ◌≡◌, ap, Bool, true, false, Option, [], ◌∷◌, Exec, returns, panics,
  waits, undefined, Build, u64_mod, ◌>>=◌, >>=-returns, returns-injective, length, arith, ◌∙◌, sym,
  refl,
}
use rs_dtool.Error.{Result, ok, err, SubError}
use rs_dtool.Transfer.{
  Bytes, ControlFlow, continue_on, break_with, pwrite, Remain, Stream, RemainWriter, split_chunk,
  slice, write_all, BufWriter,
}
use rs_dtool.Transfer.Fetch.{
  Context, write_in_round, write_in_remain, fetch_conditional, Conditional, conditional_tested,
  conditional_written, conditional_round,
}
use rs_dtool.Transfer.Clip.{Accepts, write_all_lem, record_writed_lem}
use rs_dtool.Transfer.Limit.{task, split_above}

module _ (C : Context) (b : Build) (accepts : Accepts C.W) where
  -- Given at least the `r` bytes that remain, `write_in_remain` writes the whole buffer and moves the
  -- position by its length, but counts `r` bytes and reports as many. The cache agrees with the
  -- counter, the writer takes every write, `r` is an `i64`, and the end of the buffer a `u64`.
  pub write_in_remain_whole :
      (disk : C.W.Disk) (pos r : ℕ) (buffer : Bytes)
      → r ≤ length buffer
      → r < 2 ^ 63
      → pos + length buffer < u64_mod
      → write_in_remain b (task C b accepts disk pos r) buffer
        ≡ returns (
          ok (break_with r),
          task C b accepts (pwrite C.W disk pos buffer).1 (pos + length buffer) 0,
        )
  unfolding write_in_remain
  write_in_remain_whole disk pos r buffer above small fits =
      let e : r - r ≡ 0 = omega arith in
      ap (write_in_round b (task C b accepts disk pos r) buffer)
        (split_above r (length buffer) above)
      ∙ >>=-returns _ (write_all_lem C.W b disk pos buffer accepts fits)
      ∙ >>=-returns _ (record_writed_lem b r r r small (omega arith))
      ∙ ap
          (λ l. returns (
            ok (break_with r),
            task C b accepts (pwrite C.W disk pos buffer).1 (pos + length buffer) l,
          ))
          e

-- A computation that leaves a task with this remain.
module _ {W : BufWriter} {A : Type 0} where
  abbrev Leaves : Remain → Exec (A × RemainWriter W) → Type 0
  Leaves remain m = (out : A × RemainWriter W) → m ≡ returns out → out.1.remain ≡ remain

  Leaves->>= :
      {B : Type 0} (remain : Remain) (m : Exec B) (f : B → Exec (A × RemainWriter W))
      → ((x : B) → Leaves remain (f x))
      → Leaves remain (m >>= f)
  Leaves->>= remain (returns x) f each = each x
  Leaves->>= remain panics f each = λ out h. absurd cc
  Leaves->>= remain waits f each = λ out h. absurd cc
  Leaves->>= remain undefined f each = λ out h. absurd cc

  Leaves-returns :
      (remain : Remain) (a : A) (t : RemainWriter W)
      → t.remain ≡ remain
      → Leaves remain (returns (a, t))
  Leaves-returns remain a t e out h = ap (λ o. o.1.remain) (sym (returns-injective h)) ∙ e

module _ (C : Context) (b : Build) {Q : Type 0} (condition : ℕ → Q → Bool × Q) where
  conditional_tested-Leaves :
      (remain : Remain) (t : RemainWriter C.W) (rest : Q → Conditional C) (said : Bool × Q)
      → t.remain ≡ remain
      → ((q : Q) → Leaves remain (rest q))
      → Leaves remain (conditional_tested C t rest said)
  conditional_tested-Leaves remain t rest (true, q) e later = Leaves-returns remain _ t e
  conditional_tested-Leaves remain t rest (false, q) e later = later q

  conditional_written-Leaves :
      (remain : Remain) (q : Q) (t : RemainWriter C.W) (r : Result (Unit {0}) C.W.Error)
      (rest : Q → Conditional C)
      → t.remain ≡ remain
      → ((q : Q) → Leaves remain (rest q))
      → Leaves remain (conditional_written C condition q t r rest)
  unfolding conditional_written
  conditional_written-Leaves remain q t (ok _) rest e later =
      conditional_tested-Leaves remain t rest (condition t.writer.process q) e later
  conditional_written-Leaves remain q t (err _) rest e later = Leaves-returns remain _ t e

  conditional_round-Leaves :
      (q : Q) (t : RemainWriter C.W) (c : Bytes) (cf : ControlFlow ℕ)
      (k : RemainWriter C.W → Q → Conditional C)
      → ((t' : RemainWriter C.W) (q' : Q) → t'.remain ≡ t.remain → Leaves t.remain (k t' q'))
      → Leaves t.remain (conditional_round C b condition q t c cf k)
  unfolding conditional_round
  conditional_round-Leaves q t c continue_on k later =
      Leaves->>= t.remain (write_all b t.writer c) _ (λ out.
        conditional_written-Leaves t.remain q (record t { writer = out.1 }) out.0 _ refl
          (λ q'. later (record t { writer = out.1 }) q' refl))
  conditional_round-Leaves q t c (break_with n) k later = Leaves->>= t.remain (slice c n) _ (λ part.
      Leaves->>= t.remain (write_all b t.writer part) _
        (λ out. Leaves-returns t.remain _ (record t { writer = out.1 }) refl))

  fetch_conditional-Leaves :
      (t : RemainWriter C.W) (stream : Stream C.W C.S) (q : Q)
      → Leaves t.remain (fetch_conditional C b t stream condition q)
  unfolding fetch_conditional
  fetch_conditional-Leaves t [] q = Leaves-returns t.remain _ t refl
  fetch_conditional-Leaves t (err e ∷ stream) q = Leaves-returns t.remain _ t refl
  fetch_conditional-Leaves t (ok c ∷ stream) q =
      conditional_round-Leaves q t c (split_chunk t.remain (length c)) _
        (λ t' q' e out h. fetch_conditional-Leaves t' stream q' out h ∙ e)

  -- However much of a stream `fetch_conditional` writes, and whatever it then returns, the task's
  -- counter and cache are those before the call.
  pub fetch_conditional-remain :
      (t : RemainWriter C.W) (stream : Stream C.W C.S) (q : Q)
      (out : Option (Result (Unit {0}) (SubError C.S C.W.Error)) × RemainWriter C.W)
      → fetch_conditional C b t stream condition q ≡ returns out
      → out.1.remain ≡ t.remain
  fetch_conditional-remain t stream q = fetch_conditional-Leaves t stream q
