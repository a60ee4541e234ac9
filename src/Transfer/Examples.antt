-- ===== src/Transfer/Examples.antt =====
-- Examples for what a file holds: a disk is the byte at each position, and a server gives any range of
-- the file in one chunk.
use mathlib.Core.List.{flatten, append-nil}
use rs_dtool.Base.{
  ℕ, zero, suc, true, false, ◌≡◌, ◌+◌, ◌-◌, ◌<◌, ◌≤◌, ◌⊎◌, inl, inr, List, [], ◌∷◌, map, some, none,
  returns, debug, refl, arith, ◌∙◌, ap, length, get_elem?, ltb, if◌then◌else◌, get_elem?-ge,
}
use rs_dtool.Error.{ok, new_network, from_into_writer}
use rs_dtool.Segment.{Segment, SegmentIter, split_by_times, take_next}
use rs_dtool.Transfer.{Bytes, BufWriter, pwrite}
use rs_dtool.Transfer.Fetch.{Context, fetch_stream}
use rs_dtool.Transfer.Clip.{Accepts}
use rs_dtool.Transfer.Limit.{task}
use rs_dtool.Transfer.File.{FileLaws, fetch_stream-file}
use rs_dtool.Transfer.Whole.{fetch_segments, split_by_times-fetch_segments}

abbrev pub write_at : (ℕ → ℕ) → ℕ → Bytes → ℕ → ℕ
write_at disk pos buffer p =
    if ltb p pos then disk p else (elim (get_elem? buffer (p - pos)) [ some x ↦ x | none ↦ disk p ])

abbrev pub bytes_at : BufWriter
bytes_at = record {
  Disk = ℕ → ℕ;
  Error = ℕ;
  pwrite_raw = λ disk pos buffer. (ok tt, buffer, write_at disk pos buffer);
}

pub bytes_at_accepts : Accepts bytes_at
unfolding pwrite
bytes_at_accepts disk pos buffer = refl

pub write_at_inside :
    (disk : ℕ → ℕ) (pos : ℕ) (buffer : Bytes) (i x : ℕ)
    → get_elem? buffer i ≡ some x
    → write_at disk pos buffer (pos + i) ≡ x
write_at_inside disk pos buffer i x h =
    let e : (pos + i) - pos ≡ i = omega arith in
    let e' : ltb (pos + i) pos ≡ false = ground arith in rw (e', e, h) refl

pub write_at_outside :
    (disk : ℕ → ℕ) (pos : ℕ) (buffer : Bytes) (p : ℕ)
    → (p < pos) ⊎ (pos + length buffer ≤ p)
    → write_at disk pos buffer p ≡ disk p
write_at_outside disk pos buffer p (inl below) =
    let e : ltb p pos ≡ true = ground arith in rw e refl
write_at_outside disk pos buffer p (inr above) =
    let e : ltb p pos ≡ false = ground arith in
    rw (e, get_elem?-ge buffer (p - pos) (omega arith)) refl

unfoldable pub bytes_at_laws : FileLaws bytes_at
unfolding pwrite
bytes_at_laws = record {
  read = λ disk p. disk p;
  inside = write_at_inside;
  outside = write_at_outside;
}

abbrev pub setting_at : Context
setting_at = record {
  W = bytes_at;
  S = ℕ;
  from_stream = new_network;
  from_writer = from_into_writer;
}

-- The byte at a position is the position and 5.
abbrev pub content : ℕ → ℕ
content p = p + 5

abbrev pub range : ℕ → ℕ → Bytes
range start zero = []
range start (suc n) = content start ∷ range (start + 1) n

get_elem?-range : (start n i : ℕ) → i < n → get_elem? (range start n) i ≡ some (content (start + i))
get_elem?-range start zero i h = absurd (omega arith)
get_elem?-range start (suc n) zero h =
    let e : content start ≡ content (start + 0) = omega arith in ap some e
get_elem?-range start (suc n) (suc i) h =
    let e : content (start + 1 + i) ≡ content (start + suc i) = omega arith in
    get_elem?-range (start + 1) n i (omega arith) ∙ ap some e

length-range : (start n : ℕ) → length (range start n) ≡ n
length-range start zero = refl
length-range start (suc n) = ap suc (length-range (start + 1) n)

abbrev pub serve : Segment → List Bytes
serve s = range s.start s.remain ∷ []

pub served :
    (s : Segment) (i : ℕ)
    → i < s.remain
    → get_elem? (flatten (serve s)) i ≡ some (content (s.start + i))
unfolding flatten
served s i h =
    ap (λ bs. get_elem? bs i) (append-nil (range s.start s.remain))
    ∙ get_elem?-range s.start s.remain i h

pub first_within : (s : Segment) → length (range s.start s.remain) ≤ s.remain
first_within s = omega (arith, length-range s.start s.remain)

abbrev pub blank : ℕ → ℕ
blank p = 0

abbrev pub hundred : Segment
hundred = record { start = 7; remain = 100 }

fetch_stream-file_test :
    (disk : ℕ → ℕ) × (fetch_stream setting_at debug
        (task setting_at debug bytes_at_accepts blank 7 100)
        (map ok (serve hundred))
      ≡ returns (ok tt, task setting_at debug bytes_at_accepts disk 107 0))
    × ((i : ℕ) → i < 100 → disk (7 + i) ≡ content (7 + i))
    × ((p : ℕ) → (p < 7) ⊎ (107 ≤ p) → disk p ≡ 0)
unfolding bytes_at_laws
fetch_stream-file_test =
    fetch_stream-file setting_at debug bytes_at_accepts bytes_at_laws content blank 7 100
      (serve hundred) (omega arith) (omega arith) (served hundred)

split_by_times-fetch_segments_test :
    (iter : SegmentIter) × (last : SegmentIter) × (parts : List Segment) × (disk : ℕ → ℕ)
    × (split_by_times debug hundred 3 ≡ returns iter)
    × (take_next debug 3 iter ≡ returns (parts, last))
    × (last.remain ≡ none)
    × (fetch_segments setting_at debug serve blank parts ≡ returns (ok tt, disk))
    × ((p : ℕ) → 7 ≤ p → p < 107 → disk p ≡ content p)
    × ((p : ℕ) → (p < 7) ⊎ (107 ≤ p) → disk p ≡ 0)
unfolding bytes_at_laws
split_by_times-fetch_segments_test =
    split_by_times-fetch_segments setting_at debug bytes_at_accepts bytes_at_laws content serve
      blank hundred 3 (omega arith) (omega arith) (omega arith) (omega arith) (omega arith) served
