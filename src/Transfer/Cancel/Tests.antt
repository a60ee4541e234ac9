-- ===== src/Transfer/Cancel/Tests.antt =====
-- A download that a token stops after its second chunk, and that is taken up again.
use rs_dtool.Base.{
  ℕ, zero, suc, ◌≡◌, refl, Bool, true, false, List, [], ◌∷◌, ◌++◌, map, returns, debug, arith,
}
use rs_dtool.Error.{ok, err}
use rs_dtool.Transfer.{Bytes}
use rs_dtool.Transfer.Download.{download, cancelled, DownloadContext}
use rs_dtool.Transfer.Clip.{write_each}
use rs_dtool.Transfer.Stale.{context, never}
use rs_dtool.Transfer.Cancel.{download_cancelled}
use rs_dtool.Transfer.Tests.{recorder}

-- It says how often it is still to say no.
abbrev countdown : ℕ → Bool × ℕ
countdown zero = (true, 0)
countdown (suc n) = (false, n)

abbrev before : List Bytes
before = (1 ∷ 2 ∷ []) ∷ (3 ∷ []) ∷ []

abbrev behind : List Bytes
behind = (4 ∷ 5 ∷ []) ∷ []

download_cancelled_example :
    (here : DownloadContext recorder ℕ) × (here.stream ≡ map ok behind)
    × (here.writer ≡ write_each recorder [] 10 before)
    × (download {W = recorder} {S = ℕ} {T = ℕ} debug countdown
          (context recorder ℕ ℕ debug (map ok before ++ map ok behind) [] 9)
          10
          9
          1
        ≡ returns (err cancelled, here, 6, 0))
    × (end : ℕ) × (download {W = recorder} {S = ℕ} {T = ℕ} debug never here 13 6 0
        ≡ returns (
          ok tt,
          context recorder ℕ ℕ debug [] (write_each recorder [] 10 (before ++ behind)) end,
          4,
          0,
        ))
download_cancelled_example =
    download_cancelled recorder ℕ ℕ debug countdown [] 9 10 9 1 0 (1 ∷ 2 ∷ []) ((3 ∷ []) ∷ [])
      behind (omega arith) (omega arith) (omega arith) (omega arith)
      (omega arith, (omega arith, tt)) (omega arith, tt) (0, refl, refl)
