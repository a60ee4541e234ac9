-- ===== src/Transfer/Chunks/Until.antt =====
-- `fetch_util` of Dtool_impl/src/downloader/subcontext.rs, which fetches until a condition holds.
use rs_dtool.Base.{
  ℕ, ◌+◌, ◌<◌, ◌≡◌, ap, ◌∙◌, List, [], ◌∷◌, ◌++◌, map, Bool, true, false, none, returns,
  >>=-returns, Build, u64_mod, length, arith,
}
use rs_dtool.Error.{ok}
use rs_dtool.Transfer.{Bytes, pwrite, Stream}
use rs_dtool.Transfer.Fetch.{Context}
use rs_dtool.Transfer.Clip.{size, Accepts, write_each, write_all_lem}
use rs_dtool.Transfer.Chunks.{fetch_util, util_tested, util_written}

-- Called on the positions after the chunks of `cs` and after `c`, in this order, the condition says no, and
-- after the last of them yes; its state goes from `q` to `q'`.
abbrev pub HoldsAfter : {Q : Type 0} → (ℕ → Q → Bool × Q) → ℕ → Bytes → List Bytes → Q → Q → Type 0
HoldsAfter condition pos c [] q q' = condition (pos + length c) q ≡ (true, q')
HoldsAfter {Q} condition pos c (d ∷ cs) q q' =
    (r : Q) × (condition (pos + length c) q ≡ (false, r))
    × HoldsAfter condition (pos + length c) d cs r q'

module _ (C : Context) (b : Build) (accepts : Accepts C.W) {Q : Type 0}
    (condition : ℕ → Q → Bool × Q) (rest : Stream C.W C.S) where
  -- A condition that first holds after some chunk stops `fetch_util` there: it gives `None`, the chunks up
  -- to that one are written whole from the position on, each where the one before it ends, what is
  -- left is the rest of the stream, and the condition has been asked once after each chunk, at the
  -- position then reached. The writer takes every write, and the new position is a `u64`.
  pub fetch_util-write_each :
      (disk : C.W.Disk) (pos stop : ℕ) (c : Bytes) (cs : List Bytes) (q q' : Q)
      → HoldsAfter condition pos c cs q q'
      → pos + size (c ∷ cs) ≡ stop
      → stop < u64_mod
      → fetch_util C b (record { disk = disk; process = pos }) (map ok (c ∷ cs) ++ rest) condition q
        ≡ returns
            (none, record { disk = write_each C.W disk pos (c ∷ cs); process = stop }, rest, q')
  unfolding fetch_util util_written write_each
  fetch_util-write_each disk pos stop c [] q q' holds ends fits =
      let e : pos + length c ≡ stop = omega arith in
      >>=-returns _ (write_all_lem C.W b disk pos c accepts (omega arith))
      ∙ ap
          (util_tested C (record { disk = (pwrite C.W disk pos c).1; process = pos + length c })
            rest
            (λ q.
              fetch_util C b (record { disk = (pwrite C.W disk pos c).1; process = pos + length c })
                rest condition q))
          holds
      ∙ ap (λ p. returns (none, record { disk = (pwrite C.W disk pos c).1; process = p }, rest, q'))
          e
  fetch_util-write_each disk pos stop c (d ∷ cs) q q' (r, not_yet, holds) ends fits =
      >>=-returns _ (write_all_lem C.W b disk pos c accepts (omega arith))
      ∙ ap
          (util_tested C (record { disk = (pwrite C.W disk pos c).1; process = pos + length c })
            (map ok (d ∷ cs) ++ rest)
            (λ q.
              fetch_util C b (record { disk = (pwrite C.W disk pos c).1; process = pos + length c })
                (map ok (d ∷ cs) ++ rest) condition q))
          not_yet
      ∙ fetch_util-write_each (pwrite C.W disk pos c).1 (pos + length c) stop d cs r q' holds
          (omega arith) fits
