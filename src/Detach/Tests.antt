-- ===== src/Detach/Tests.antt =====
-- Examples for Dtool_impl/src/downloader/pwriter.rs.
use rs_dtool.Base.{ℕ, ◌≡◌, List, [], ◌∷◌, ◌>>=◌, returns, refl, arith}
use rs_dtool.Detach.{DetachRef, new, slice}
use rs_dtool.Detach.Slices.{slice-slice}

abbrev five : DetachRef (List ℕ)
five = new (1 ∷ 2 ∷ 3 ∷ 4 ∷ 5 ∷ [])

slice_of_five : slice five 2 4 ≡ returns (new (3 ∷ 4 ∷ []))
unfolding slice
slice_of_five = refl

slice-slice_test : (slice five 1 5 >>= λ r. slice r 1 3) ≡ slice five 2 4
slice-slice_test = slice-slice five 1 5 1 3 (omega arith) (omega arith) (omega arith) (omega arith)
