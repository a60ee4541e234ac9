-- ===== src/Transfer/File.antt =====
-- What the file holds after `RemainWriter::fetch_stream` of Dtool_impl/src/downloader/subcontext.rs: a task
-- whose stream is its segment of a file leaves that segment, and nothing else.
use native.Mathlib.Decide.{dec_lt}
use mathlib.Core.Path.{ap₂}
use native.Mathlib.Nat.{sub-zero}
use mathlib.Core.List.{flatten}
use rs_dtool.Base.{
  zero, suc, length-take, ℕ, ◌+◌, ◌-◌, ◌^◌, ◌≤◌, ◌<◌, ◌≡◌, ◌⊎◌, inl, ap, List, [], ◌∷◌, ◌++◌, map,
  some, returns, Build, u64_mod, length, get_elem?, get_elem?-append_left, get_elem?-take,
  get_elem?-some_lt, arith, ◌∙◌, sym, min, refl,
}
use rs_dtool.Error.{ok}
use rs_dtool.Transfer.{Bytes, BufWriter, pwrite}
use rs_dtool.Transfer.Fetch.{Context, fetch_stream}
use rs_dtool.Transfer.Clip.{size, Accepts, write_each, length-flatten}
use rs_dtool.Transfer.Limit.{task, fetch_stream-take}

-- A writer to a file: the byte at each position can be read, and a write changes the bytes that it
-- is given and no others.
pub record FileLaws (W : BufWriter) : Type 0 where
  pub read : W.Disk → ℕ → ℕ
  pub inside :
      (disk : W.Disk) (pos : ℕ) (buffer : Bytes) (i x : ℕ)
      → get_elem? buffer i ≡ some x
      → read (pwrite W disk pos buffer).1 (pos + i) ≡ x
  pub outside :
      (disk : W.Disk) (pos : ℕ) (buffer : Bytes) (p : ℕ)
      → (p < pos) ⊎ (pos + length buffer ≤ p)
      → read (pwrite W disk pos buffer).1 p ≡ read disk p

pub get_elem?-append_right :
    (xs ys : Bytes) (i : ℕ) → length xs ≤ i → get_elem? (xs ++ ys) i ≡ get_elem? ys (i - length xs)
get_elem?-append_right [] ys i h = rw sub-zero refl
get_elem?-append_right (x ∷ xs) ys zero h = absurd (omega arith)
get_elem?-append_right (x ∷ xs) ys (suc i) h =
    let e : suc i - suc (length xs) ≡ i - length xs = omega arith in
    rw e (get_elem?-append_right xs ys i (omega arith))

module _ {W : BufWriter} (laws : FileLaws W) where
  write_each_outside :
      (disk : W.Disk) (pos : ℕ) (pieces : List Bytes) (p : ℕ)
      → (p < pos) ⊎ (pos + size pieces ≤ p)
      → laws.read (write_each W disk pos pieces) p ≡ laws.read disk p
  unfolding write_each
  write_each_outside disk pos [] p out = refl
  write_each_outside disk pos (c ∷ cs) p out =
      let later : (p < pos + length c) ⊎ (pos + length c + size cs ≤ p) = ground arith in
      let first : (p < pos) ⊎ (pos + length c ≤ p) = ground arith in
      write_each_outside (pwrite W disk pos c).1 (pos + length c) cs p later
      ∙ laws.outside disk pos c p first

  write_each_inside :
      (disk : W.Disk) (pos : ℕ) (pieces : List Bytes) (i p x : ℕ)
      → pos + i ≡ p
      → get_elem? (flatten pieces) i ≡ some x
      → laws.read (write_each W disk pos pieces) p ≡ x
  unfolding write_each flatten
  write_each_inside disk pos [] i p x at h = absurd cc
  write_each_inside disk pos (c ∷ cs) i p x at h = elim (dec_lt i (length c)) [
    | yes below ↦
        write_each_outside (pwrite W disk pos c).1 (pos + length c) cs p (inl (omega arith))
        ∙ rw (← at)
            (laws.inside disk pos c i x (sym (get_elem?-append_left c (flatten cs) i below) ∙ h))
    | no above ↦
        write_each_inside (pwrite W disk pos c).1 (pos + length c) cs (i - length c) p x
          (omega arith) (sym (get_elem?-append_right c (flatten cs) i (omega arith)) ∙ h)
  ]

module _ (C : Context) (b : Build) (accepts : Accepts C.W) (laws : FileLaws C.W) where
  pub enough :
      (file : ℕ → ℕ) (pos r : ℕ) (cs : List Bytes)
      → ((i : ℕ) → i < r → get_elem? (flatten cs) i ≡ some (file (pos + i)))
      → r ≤ size cs
  enough file pos zero cs serves = omega arith
  enough file pos (suc r) cs serves =
      omega (arith, get_elem?-some_lt (flatten cs) r (serves r (omega arith)), length-flatten cs)

  -- Where the stream of a task begins with the bytes of a file from the task's position on, at least
  -- the `r` that remain, `fetch_stream` returns with no error, nothing remains, the `r` positions
  -- from there hold the bytes of the file, and every other position holds what it held. The cache
  -- agrees with the counter, the writer takes every write, into a file, the range is an `i64`, and
  -- its end a `u64`.
  pub fetch_stream-file :
      (file : ℕ → ℕ) (disk : C.W.Disk) (pos r : ℕ) (cs : List Bytes)
      → r < 2 ^ 63
      → pos + r < u64_mod
      → ((i : ℕ) → i < r → get_elem? (flatten cs) i ≡ some (file (pos + i)))
      → (disk' : C.W.Disk) × (fetch_stream C b (task C b accepts disk pos r) (map ok cs)
          ≡ returns (ok tt, task C b accepts disk' (pos + r) 0))
        × ((i : ℕ) → i < r → laws.read disk' (pos + i) ≡ file (pos + i))
        × ((p : ℕ) → (p < pos) ⊎ (pos + r ≤ p) → laws.read disk' p ≡ laws.read disk p)
  fetch_stream-file file disk pos r cs small fits serves =
      let (pieces, flat, runs) = fetch_stream-take C b accepts disk pos r cs small fits in
      let m : min r (size cs) ≡ r = omega (arith, enough file pos r cs serves) in
      let e : r - min r (size cs) ≡ 0 = omega arith in
      let written : size pieces ≡ r = omega (
        arith,
        length-flatten pieces,
        ap length flat,
        length-take r (flatten cs),
        length-flatten cs,
      ) in
      (
        write_each C.W disk pos pieces,
        runs
            ∙ ap₂
                (λ n l.
                  returns (ok tt, task C b accepts (write_each C.W disk pos pieces) (pos + n) l))
                m e,
        λ i lt.
            write_each_inside laws disk pos pieces i (pos + i) (file (pos + i)) refl
              (ap (λ bs. get_elem? bs i) flat ∙ get_elem?-take (flatten cs) r i lt ∙ serves i lt),
        λ p out.
            let out' : (p < pos) ⊎ (pos + size pieces ≤ p) = ground arith in
            write_each_outside laws disk pos pieces p out',
      )
