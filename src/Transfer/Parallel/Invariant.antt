-- ===== src/Transfer/Parallel/Invariant.antt =====
-- What holds of a task of Dtool_impl/src/downloader/subcontext.rs between two turns, and one turn of it.
use native.Mathlib.Decide.{dec_lt}
use mathlib.Core.List.{flatten}
use rs_dtool.Base.{
  ℕ, ◌+◌, ◌-◌, ◌^◌, ◌≤◌, ◌<◌, ◌≡◌, ◌⊎◌, inl, inr, ap, subst, List, [], ◌∷◌, map, none, some,
  returns, Build, u64_mod, >>=-returns, length, length-take, get_elem?, get_elem?-append_left,
  get_elem?-take, take, arith, ◌∙◌, sym, refl,
}
use rs_dtool.Error.{Result, ok, SubError}
use rs_dtool.Transfer.{i64_max, Bytes, pwrite, Stream}
use rs_dtool.Transfer.Overrun.{task_of}
use rs_dtool.Transfer.Fetch.{Context}
use rs_dtool.Transfer.Clip.{Accepts}
use rs_dtool.Transfer.Limit.{task}
use rs_dtool.Transfer.File.{FileLaws, get_elem?-append_right, enough}
use rs_dtool.Transfer.Parallel.{Fetcher, as_writer, turn_on}
use rs_dtool.Transfer.Parallel.Round.{round_fits, round_last}

-- The first chunk, if there is one, is at most `r` bytes long.
abbrev pub FirstWithin : ℕ → List Bytes → Type 0
FirstWithin r [] = Unit {0}
FirstWithin r (c ∷ _) = length c ≤ r

-- The cache agrees with the counter, `r`; or it is new, and the first chunk is no longer than that.
abbrev pub RightOrNew : ℕ → ℕ → List Bytes → Type 0
RightOrNew cache r cs = (cache ≡ r) ⊎ ((cache ≡ i64_max) × FirstWithin r cs)

module _ (C : Context) (b : Build) (accepts : Accepts C.W) (laws : FileLaws C.W)
    (file : ℕ → ℕ) where
  -- A stream that begins with `r` bytes of the file, from `pos` on, and a cache that is right or new.
  abbrev pub Serves : Stream C.W C.S → ℕ → ℕ → ℕ → Type 0
  Serves stream pos r cache =
      (cs : List Bytes) × (stream ≡ map ok cs)
      × ((i : ℕ) → i < r → get_elem? (flatten cs) i ≡ some (file (pos + i)))
      × RightOrNew cache r cs

  -- While a task has not ended, its cache agrees with its counter or is as `Remain::new` left it, which
  -- does where the next chunk fits; position and counter give the segment's end; the file's bytes
  -- are there up to the position; and the stream has what remains, until the task has ended with no
  -- error and with nothing left.
  pub record OnCourse (disk : C.W.Disk) (f : Fetcher C) : Type 0 where
    pub small : f.segment.remain < 2 ^ 63
    pub ends : f.segment.start + f.segment.remain < u64_mod
    pub low : f.segment.start ≤ f.process
    pub high : f.process + f.remain.remain ≡ f.segment.start + f.segment.remain
    pub written : (p : ℕ) → f.segment.start ≤ p → p < f.process → laws.read disk p ≡ file p
    pub ahead : f.result ≡ none → Serves f.stream f.process f.remain.remain f.remain.cache
    pub ended :
        (r : Result (Unit {0}) (SubError C.S C.W.Error))
        → f.result ≡ some r
        → (r ≡ ok tt) × (f.remain.remain ≡ 0)

  -- What a turn does.
  pub record Turned (disk : C.W.Disk) (f : Fetcher C) (stream : Stream C.W C.S) : Type 0 where
    pub next : Fetcher C
    pub disk' : C.W.Disk
    pub ran : turn_on C b disk f stream ≡ returns (next, disk')
    pub same : next.segment ≡ f.segment
    pub on_course : OnCourse disk' next
    pub kept :
        (p : ℕ)
        → (p < f.segment.start) ⊎ (f.segment.start + f.segment.remain ≤ p)
        → laws.read disk' p ≡ laws.read disk p

  -- A write of the file's bytes at the end of what is there.
  lands :
      (disk : C.W.Disk) (a pos : ℕ) (buffer : Bytes)
      → ((p : ℕ) → a ≤ p → p < pos → laws.read disk p ≡ file p)
      → ((i : ℕ) → i < length buffer → get_elem? buffer i ≡ some (file (pos + i)))
      → (p : ℕ) → a ≤ p
      → p < pos + length buffer
      → laws.read (pwrite C.W disk pos buffer).1 p ≡ file p
  lands disk a pos buffer before is_file p low below = elim (dec_lt p pos) [
    | yes old ↦ laws.outside disk pos buffer p (inl old) ∙ before p low old
    | no new ↦
        let e : pos + (p - pos) ≡ p = omega arith in
        subst (λ q. laws.read (pwrite C.W disk pos buffer).1 q ≡ file q) e
          (laws.inside disk pos buffer (p - pos) (file (pos + (p - pos)))
            (is_file (p - pos) (omega arith)))
  ]

  as_task :
      (disk : C.W.Disk) (f : Fetcher C)
      → f.remain.cache ≡ f.remain.remain
      → as_writer C b disk f ≡ task C b accepts disk f.process f.remain.remain
  as_task disk f e = ap (λ c. task_of C b accepts disk f.process f.remain.remain c) e

  served_after :
      (c : Bytes) (cs : List Bytes) (pos r i : ℕ)
      → ((j : ℕ) → j < r → get_elem? (flatten (c ∷ cs)) j ≡ some (file (pos + j)))
      → i < r - length c
      → get_elem? (flatten cs) i ≡ some (file (pos + length c + i))
  unfolding flatten
  served_after c cs pos r i serves h =
      let e : length c + i - length c ≡ i = omega arith in
      let e' : pos + (length c + i) ≡ pos + length c + i = omega arith in
      ap (get_elem? (flatten cs)) (sym e)
      ∙ sym (get_elem?-append_right c (flatten cs) (length c + i) (omega arith))
      ∙ serves (length c + i) (omega arith)
      ∙ ap (λ q. some (file q)) e'

  module _ (disk : C.W.Disk) (f : Fetcher C) (o : OnCourse disk f) where
    -- The stream is at its end.
    Turned-end : f.remain.remain ≤ 0 → Turned disk f []
    unfolding turn_on
    Turned-end nothing = record {
      next = record f { result = some (ok tt) };
      disk' = disk;
      ran = refl;
      same = refl;
      on_course = record {
        small = o.small;
        ends = o.ends;
        low = o.low;
        high = o.high;
        written = o.written;
        ahead = λ e. absurd (cc e);
        ended = λ r e. (cc e, omega arith);
      };
      kept = λ p out. refl;
    }

    module _ (c : Bytes) (cs : List Bytes)
        (serves : (i : ℕ)
          → i < f.remain.remain
          → get_elem? (flatten (c ∷ cs)) i ≡ some (file (f.process + i))) where
      -- A chunk that fits in what remains, and is shorter than the cache says.
      Turned-fits :
          length c < f.remain.cache → length c ≤ f.remain.remain → Turned disk f (map ok (c ∷ cs))
      unfolding turn_on flatten
      Turned-fits below within = record {
        next = record f {
          stream = map ok cs;
          process = f.process + length c;
          remain = record {
            remain = f.remain.remain - length c;
            cache = f.remain.remain - length c;
          };
          result = none;
        };
        disk' = (pwrite C.W disk f.process c).1;
        ran = >>=-returns _ (
            round_fits C b accepts disk f.process f.remain.remain f.remain.cache c below within
              (omega (arith, o.small, o.high, o.low)) (omega (arith, o.ends, o.high)));
        same = refl;
        on_course = record {
          small = o.small;
          ends = o.ends;
          low = omega (arith, o.low);
          high = omega (arith, o.high);
          written =
              lands disk f.segment.start f.process c o.written
                (λ i h. sym (get_elem?-append_left c (flatten cs) i h) ∙ serves i (omega arith));
          ahead = λ _.
              (cs, refl, λ i h. served_after c cs f.process f.remain.remain i serves h, inl refl);
          ended = λ _ e. absurd (cc e);
        };
        kept = λ p out.
            let out' : (p < f.process) ⊎ (f.process + length c ≤ p) = ground arith in
            laws.outside disk f.process c p out';
      }

      -- The last chunk, which is cut.
      Turned-last :
          f.remain.cache ≡ f.remain.remain
          → f.remain.remain ≤ length c
          → Turned disk f (map ok (c ∷ cs))
      unfolding turn_on flatten
      Turned-last agrees above =
          let part : Bytes = take f.remain.remain c in
          let size : length part ≡ f.remain.remain = omega (arith, length-take f.remain.remain c) in
          record {
            next = record f {
              stream = map ok cs;
              process = f.process + length part;
              remain = record {
                remain = f.remain.remain - f.remain.remain;
                cache = f.remain.remain - f.remain.remain;
              };
              result = some (ok tt);
            };
            disk' = (pwrite C.W disk f.process part).1;
            ran = rw (as_task disk f agrees) (
                >>=-returns _ (
                  round_last C b accepts disk f.process f.remain.remain c above
                    (omega (arith, o.small, o.high, o.low)) (omega (arith, o.ends, o.high))));
            same = refl;
            on_course = record {
              small = o.small;
              ends = o.ends;
              low = omega (arith, o.low);
              high = omega (arith, o.high);
              written = lands disk f.segment.start f.process part o.written (λ i h.
                  get_elem?-take c f.remain.remain i (omega arith)
                  ∙ sym (get_elem?-append_left c (flatten cs) i (omega arith))
                  ∙ serves i (omega arith));
              ahead = λ e. absurd (cc e);
              ended = λ r e. (cc e, omega arith);
            };
            kept = λ p out.
                let out' : (p < f.process) ⊎ (f.process + length part ≤ p) = ground arith in
                laws.outside disk f.process part p out';
          }

  turned :
      (disk : C.W.Disk) (f : Fetcher C) (cs : List Bytes)
      → OnCourse disk f
      → ((i : ℕ) → i < f.remain.remain → get_elem? (flatten cs) i ≡ some (file (f.process + i)))
      → RightOrNew f.remain.cache f.remain.remain cs
      → Turned disk f (map ok cs)
  turned disk f [] o serves cached =
      Turned-end disk f o (enough C b accepts laws file f.process f.remain.remain [] serves)
  turned disk f (c ∷ cs) o serves (inl agrees) = elim (dec_lt (length c) f.remain.cache) [
    | yes below ↦ Turned-fits disk f o c cs serves below (omega arith)
    | no above ↦ Turned-last disk f o c cs serves agrees (omega arith)
  ]
  turned disk f (c ∷ cs) o serves (inr (is_new, first)) = elim (dec_lt (length c) f.remain.cache) [
    | yes below ↦ Turned-fits disk f o c cs serves below first
    | no above ↦
        Turned-last disk f o c cs serves (omega (arith, o.small, o.high, o.low)) (omega arith)
  ]

  -- A task on its course that has not ended takes its turn with no panic, and stays on its course;
  -- outside its segment nothing changes.
  pub turn-OnCourse :
      (disk : C.W.Disk) (f : Fetcher C) → OnCourse disk f → f.result ≡ none → Turned disk f f.stream
  turn-OnCourse disk f o going =
      let (cs, e, serves, cached) = o.ahead going in
      subst (Turned disk f) (sym e) (turned disk f cs o serves cached)
