-- ===== src/Transfer/Parallel/Round.antt =====
-- One turn of a task of Dtool_impl/src/downloader/subcontext.rs, on a chunk below its cache and on one that is not.
use rs_dtool.Base.{
  ℕ, ◌+◌, ◌-◌, ◌^◌, ◌≤◌, ◌<◌, ◌≡◌, ap, returns, Build, u64_mod, >>=-returns, length, length-take,
  take, arith, ◌∙◌,
}
use rs_dtool.Error.{ok}
use rs_dtool.Transfer.{Bytes, continue_on, break_with, pwrite}
use rs_dtool.Transfer.Fetch.{Context, round, round_on}
use rs_dtool.Transfer.Clip.{Accepts, write_all_lem, record_writed_lem}
use rs_dtool.Transfer.Limit.{task, split_above, slice_lem}
use rs_dtool.Transfer.Overrun.{task_of, split_large}

module _ (C : Context) (b : Build) (accepts : Accepts C.W) where
  pub round_fits :
      (disk : C.W.Disk) (pos r cache : ℕ) (c : Bytes)
      → length c < cache
      → length c ≤ r
      → r < 2 ^ 63
      → pos + r < u64_mod
      → round C b (task_of C b accepts disk pos r cache) c
        ≡ returns (
          continue_on,
          task C b accepts (pwrite C.W disk pos c).1 (pos + length c) (r - length c),
        )
  unfolding round
  round_fits disk pos r cache c below within small fits =
      ap (round_on C b (task_of C b accepts disk pos r cache) c)
        (split_large r cache (length c) below)
      ∙ >>=-returns _ (write_all_lem C.W b disk pos c accepts (omega arith))
      ∙ >>=-returns _ (record_writed_lem b r cache (length c) small (omega arith))

  pub round_last :
      (disk : C.W.Disk) (pos r : ℕ) (c : Bytes)
      → r ≤ length c
      → r < 2 ^ 63
      → pos + r < u64_mod
      → round C b (task C b accepts disk pos r) c
        ≡ returns (
          break_with (ok tt),
          task C b accepts (pwrite C.W disk pos (take r c)).1 (pos + length (take r c)) (r - r),
        )
  unfolding round
  round_last disk pos r c above small fits =
      let size : length (take r c) ≡ r = omega (arith, length-take r c) in
      ap (round_on C b (task C b accepts disk pos r) c) (split_above r (length c) above)
      ∙ >>=-returns _ (slice_lem r c above)
      ∙ >>=-returns _ (write_all_lem C.W b disk pos (take r c) accepts (omega arith))
      ∙ >>=-returns _ (record_writed_lem b r r r small (omega arith))
