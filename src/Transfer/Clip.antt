-- ===== src/Transfer/Clip.antt =====
-- What a loop of Dtool_impl/src/downloader/subcontext.rs writes: the chunks up to what remains.
use native.Mathlib.Decide.{dec_lt}
use mathlib.Core.List.{flatten, append-nil}
use native.Mathlib.Nat.{sub-zero}
use rs_dtool.Base.{
  ℕ, zero, suc, ◌+◌, ◌-◌, ◌^◌, ◌≤◌, ◌<◌, ◌≡◌, refl, ap, List, [], ◌∷◌, ◌++◌, returns, Build, debug,
  release, u64_mod, add_u64_lem, length-append, length-take, min, ltb, lt→ltb, le→ltb,
  if◌then◌else◌, length, take, arith,
}
use rs_dtool.Error.{ok}
use rs_dtool.Transfer.{Bytes, record_writed, BufWriter, pwrite, write_all}

-- The chunks as they are written while `r` bytes remain: the last one is cut short.
unfoldable pub clip : ℕ → List Bytes → List Bytes
clip r [] = []
clip r (c ∷ cs) = if ltb (length c) r then c ∷ clip (r - length c) cs else take r c ∷ []

pub take-append_of_ge {ℓ} :
    {A : Type ℓ} (xs ys : List A) (r : ℕ)
    → length xs ≤ r
    → take r (xs ++ ys) ≡ xs ++ take (r - length xs) ys
take-append_of_ge [] ys r h = rw sub-zero
take-append_of_ge (x ∷ xs) ys zero h = absurd (omega arith)
take-append_of_ge (x ∷ xs) ys (suc r) h =
    let e : suc r - suc (length xs) ≡ r - length xs = omega arith in
    rw e (ap (◌∷◌ x) (take-append_of_ge xs ys r (omega arith)))

take-append_of_le {ℓ} :
    {A : Type ℓ} (xs ys : List A) (r : ℕ) → r ≤ length xs → take r (xs ++ ys) ≡ take r xs
take-append_of_le xs ys zero h = refl
take-append_of_le [] ys (suc r) h = absurd (omega arith)
take-append_of_le (x ∷ xs) ys (suc r) h = ap (◌∷◌ x) (take-append_of_le xs ys r (omega arith))

-- Together these are the first `r` bytes of the stream.
pub flatten-clip : (r : ℕ) (cs : List Bytes) → flatten (clip r cs) ≡ take r (flatten cs)
unfolding clip flatten
flatten-clip zero [] = refl
flatten-clip (suc r) [] = refl
flatten-clip r (c ∷ cs) = elim (dec_lt (length c) r) [
  | yes below ↦
      rw (lt→ltb (length c) r below, take-append_of_ge c (flatten cs) r (omega arith))
        (ap (◌++◌ c) (flatten-clip (r - length c) cs))
  | no above ↦
      rw (le→ltb (length c) r (omega arith), take-append_of_le c (flatten cs) r (omega arith))
        (append-nil (take r c))
]

pub record_writed_lem :
    (b : Build) (r : ℕ) (cache n : ℕ)
    → r < 2 ^ 63
    → n ≤ r
    → record_writed b (record { remain = r; cache = cache }) n
      ≡ returns (record { remain = r - n; cache = r - n })
unfolding record_writed
record_writed_lem debug r cache n h k = ground arith
record_writed_lem release r cache n h k = ground arith

-- A writer that takes every write.
abbrev pub Accepts : BufWriter → Type 0
Accepts W = (disk : W.Disk) (pos : ℕ) (buffer : Bytes) → (pwrite W disk pos buffer).0 ≡ ok tt

-- The writes, each where the one before it ends.
unfoldable pub write_each : (W : BufWriter) → W.Disk → ℕ → List Bytes → W.Disk
write_each W disk pos [] = disk
write_each W disk pos (c ∷ cs) = write_each W (pwrite W disk pos c).1 (pos + length c) cs

pub write_all_lem :
    (W : BufWriter) (b : Build) (disk : W.Disk) (pos : ℕ) (buffer : Bytes)
    → Accepts W
    → pos + length buffer < u64_mod
    → write_all {W = W} b (record { disk = disk; process = pos }) buffer
      ≡ returns
          (ok tt, record { disk = (pwrite W disk pos buffer).1; process = pos + length buffer })
unfolding write_all
write_all_lem W b disk pos buffer accepts fits =
    rw (accepts disk pos buffer, write_all) (rw (add_u64_lem b pos (length buffer) fits))

pub clip_below :
    (r : ℕ) (c : Bytes) (cs : List Bytes)
    → length c < r
    → clip r (c ∷ cs) ≡ c ∷ clip (r - length c) cs
unfolding clip
clip_below r c cs h = rw (lt→ltb (length c) r h)

pub clip_above :
    (r : ℕ) (c : Bytes) (cs : List Bytes) → r ≤ length c → clip r (c ∷ cs) ≡ take r c ∷ []
unfolding clip
clip_above r c cs h = rw (le→ltb (length c) r h)

-- How many bytes a list of chunks has.
abbrev pub size : List Bytes → ℕ
size [] = 0
size (c ∷ cs) = length c + size cs

pub length-flatten : (cs : List Bytes) → length (flatten cs) ≡ size cs
unfolding flatten
length-flatten [] = refl
length-flatten (c ∷ cs) = omega (arith, length-append c (flatten cs), length-flatten cs)

pub size-clip : (r : ℕ) (cs : List Bytes) → size (clip r cs) ≡ min r (size cs)
size-clip r cs = omega (
  arith,
  length-flatten (clip r cs),
  length-flatten cs,
  ap length (flatten-clip r cs),
  length-take r (flatten cs),
)
