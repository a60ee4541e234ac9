-- ===== src/Transfer/Parallel/Outcome.antt =====
-- Runs of tasks of Dtool_impl/src/downloader/subcontext.rs, from their start on segments that do not
-- meet.
use mathlib.Core.Option.{some-injective}
use mathlib.Core.List.{flatten}
use rs_dtool.Base.{
  ℕ, zero, suc, ◌+◌, ◌≤◌, ◌<◌, ◌^◌, ◌≡◌, ◌≢◌, ◌⊎◌, inl, inr, ap, subst, List, [], ◌∷◌, map, Option,
  some, none, Build, u64_mod, get_elem?, set, arith, ◌∙◌, sym, refl,
}
use rs_dtool.Error.{ok}
use rs_dtool.Segment.{Segment}
use rs_dtool.Transfer.{Bytes, new}
use rs_dtool.Transfer.Fetch.{Context}
use rs_dtool.Transfer.Clip.{Accepts}
use rs_dtool.Transfer.File.{FileLaws}
use rs_dtool.Transfer.Parallel.{Fetcher, System, turn, Step, take_turn, Reach, later, total}
use rs_dtool.Transfer.Parallel.Invariant.{FirstWithin, OnCourse, Turned, turn-OnCourse}
use rs_dtool.Transfer.Parallel.Weight.{Step-total}
use rs_dtool.Transfer.Parallel.Steps.{Disjoint, Outside, segments, Inv, Reach-Inv}

module _ (C : Context) (b : Build) where
  -- The tasks as they start, each with what `Remain::new` makes of a counter.
  abbrev pub fetcher_of : (Segment → List Bytes) → Segment → Fetcher C
  fetcher_of streams s = record {
    segment = s;
    stream = map ok (streams s);
    process = s.start;
    remain = new s.remain;
    result = none;
  }

  abbrev pub start_of : (Segment → List Bytes) → C.W.Disk → List Segment → System C
  start_of streams disk ss = record { disk = disk; fetchers = map (fetcher_of streams) ss }

  segments-start_of :
      (streams : Segment → List Bytes) (ss : List Segment)
      → segments (map (fetcher_of streams) ss) ≡ ss
  segments-start_of streams [] = refl
  segments-start_of streams (s ∷ ss) = ap (s ∷◌) (segments-start_of streams ss)

  get_elem?-start_of :
      (streams : Segment → List Bytes) (ss : List Segment) (i : ℕ) (f : Fetcher C)
      → get_elem? (map (fetcher_of streams) ss) i ≡ some f
      → (s : Segment) × (get_elem? ss i ≡ some s) × (fetcher_of streams s ≡ f)
  get_elem?-start_of streams [] i f h = absurd cc
  get_elem?-start_of streams (s ∷ ss) zero f h =
      (s, refl, some-injective (fetcher_of streams s) f h)
  get_elem?-start_of streams (s ∷ ss) (suc i) f h = get_elem?-start_of streams ss i f h

-- Whether the task at some index has not ended.
abbrev Going : {C : Context} → List (Fetcher C) → Type 0
Going {C} fs = (i : ℕ) × (f : Fetcher C) × (get_elem? fs i ≡ some f) × (f.result ≡ none)

abbrev pub Ended : {C : Context} → List (Fetcher C) → Type 0
Ended {C} fs = (i : ℕ) (f : Fetcher C) → get_elem? fs i ≡ some f → f.result ≢ none

none_or_not : {A : Type 0} (r : Option A) → (r ≡ none) ⊎ (r ≢ none)
none_or_not none = inl refl
none_or_not (some a) = inr (λ e. cc)

Ended-cons :
    {C : Context} (g : Fetcher C) (fs : List (Fetcher C))
    → g.result ≢ none
    → Ended fs
    → Ended (g ∷ fs)
Ended-cons g fs no_end ended zero f h e = no_end (ap (λ q. q.result) (some-injective g f h) ∙ e)
Ended-cons g fs no_end ended (suc i) f h e = ended i f h e

pub find_unfinished : {C : Context} (fs : List (Fetcher C)) → Going fs ⊎ Ended fs
find_unfinished [] = inr (λ i f h. absurd cc)
find_unfinished (g ∷ fs) = elim (none_or_not g.result) [
  | inl going ↦ inl (0, g, refl, going)
  | inr no_end ↦ elim (find_unfinished fs) [
    | inl (i, f, at, going) ↦ inl (suc i, f, at, going)
    | inr ended ↦ inr (Ended-cons g fs no_end ended)
  ]
]

module _ (C : Context) (b : Build) (accepts : Accepts C.W) (laws : FileLaws C.W) (file : ℕ → ℕ)
    (streams : Segment → List Bytes) (disk : C.W.Disk) (ss : List Segment) where
  -- Segments that do not meet, each an `i64` that ends in a `u64`, and a server that gives the file, in
  -- a first chunk that is no longer than the segment.
  pub record Served : Type 0 where
    pub disjoint : Disjoint ss
    pub small : (i : ℕ) (s : Segment) → get_elem? ss i ≡ some s → s.remain < 2 ^ 63
    pub ends : (i : ℕ) (s : Segment) → get_elem? ss i ≡ some s → s.start + s.remain < u64_mod
    pub serves :
        (i : ℕ) (s : Segment) (k : ℕ)
        → get_elem? ss i ≡ some s
        → k < s.remain
        → get_elem? (flatten (streams s)) k ≡ some (file (s.start + k))
    pub first : (i : ℕ) (s : Segment) → get_elem? ss i ≡ some s → FirstWithin s.remain (streams s)

  module _ (served : Served) where
    fetcher_of-OnCourse :
        (i : ℕ) (s : Segment)
        → get_elem? ss i ≡ some s
        → OnCourse C b accepts laws file disk (fetcher_of C b streams s)
    unfolding new
    fetcher_of-OnCourse i s at = record {
      small = served.small i s at;
      ends = served.ends i s at;
      low = omega arith;
      high = refl;
      written = λ p low high. absurd (omega arith);
      ahead =
          λ _. (streams s, refl, λ k h. served.serves i s k at h, inr (refl, served.first i s at));
      ended = λ r e. absurd cc;
    }

    start_of-Inv : Inv C b accepts laws file ss disk (start_of C b streams disk ss)
    start_of-Inv = record {
      same = segments-start_of C b streams ss;
      on_course = λ i f h.
          let (s, at, e) = get_elem?-start_of C b streams ss i f h in
          subst (OnCourse C b accepts laws file disk) e (fetcher_of-OnCourse i s at);
      kept = λ p out. refl;
    }

    reached :
        {n : ℕ} {t : System C}
        → Reach C b (start_of C b streams disk ss) n t
        → Inv C b accepts laws file ss disk t
    reached reach =
        Reach-Inv C b accepts laws file ss disk served.disjoint (start_of C b streams disk ss)
          start_of-Inv reach

    -- A task that has not ended can take its turn.
    pub may_turn :
        {n : ℕ} {t : System C} (i : ℕ) (f : Fetcher C)
        → Reach C b (start_of C b streams disk ss) n t
        → get_elem? t.fetchers i ≡ some f
        → f.result ≡ none
        → (u : System C) × Step C b t u
    unfolding turn
    may_turn {n} {t} i f reach at going =
        let done : Turned C b accepts laws file t.disk f f.stream =
          turn-OnCourse C b accepts laws file t.disk f ((reached reach).on_course i f at) going in
        (
          record { disk = done.disk'; fetchers = set t.fetchers i done.next },
          take_turn i at going done.ran,
        )

    -- The run goes on, with what is left to turn, until all have ended.
    go_on :
        (k : ℕ) {n : ℕ} {t : System C}
        → Reach C b (start_of C b streams disk ss) n t
        → total t.fetchers ≤ k
        → (m : ℕ) × (u : System C) × (n ≤ m)
          × Reach C b (start_of C b streams disk ss) m u
          × Ended u.fetchers
    go_on zero {n} {t} reach fuel = elim (find_unfinished t.fetchers) [
      | inr ended ↦ (n, t, omega arith, reach, ended)
      | inl (i, f, at, going) ↦
          let (u, step) = may_turn i f reach at going in
          absurd (omega (arith, Step-total C b t u step))
    ]
    go_on (suc k) {n} {t} reach fuel = elim (find_unfinished t.fetchers) [
      | inr ended ↦ (n, t, omega arith, reach, ended)
      | inl (i, f, at, going) ↦
          let (u, step) = may_turn i f reach at going in
          let (m, u', le, reach', ended) =
            go_on k (later reach step) (omega (arith, Step-total C b t u step)) in
          (m, u', omega arith, reach', ended)
    ]

    pub Reach-Ended :
        {n : ℕ} {t : System C}
        → Reach C b (start_of C b streams disk ss) n t
        → (m : ℕ) × (u : System C) × (n ≤ m)
          × Reach C b (start_of C b streams disk ss) m u
          × Ended u.fetchers
    Reach-Ended {n} {t} reach = go_on (total t.fetchers) reach (omega arith)

    segment_of :
        (fs : List (Fetcher C)) (i : ℕ) (s : Segment)
        → get_elem? (segments fs) i ≡ some s
        → (f : Fetcher C) × (get_elem? fs i ≡ some f) × (f.segment ≡ s)
    segment_of [] i s h = absurd cc
    segment_of (f ∷ fs) zero s h = (f, refl, some-injective f.segment s h)
    segment_of (f ∷ fs) (suc i) s h = segment_of fs i s h

    ended_ok :
        {A : Type 0} (r : Option A) (a : A) → r ≢ none → ((x : A) → r ≡ some x → x ≡ a) → r ≡ some a
    ended_ok none a no_end e = absurd (no_end refl)
    ended_ok (some x) a no_end e = ap some (e x refl)

    -- Whichever turns have led there, when every task has ended, every one has ended with no error, each
    -- position in a segment holds the byte of the file, and each position outside them what it held.
    -- Each task starts with what `Remain::new` makes of its counter; the segments do not meet, each
    -- is an `i64` that ends in a `u64`; each stream begins with its segment of the file, in a first
    -- chunk that is no longer; and the writer takes every write, into a file.
    pub Ended-file :
        {n : ℕ} {t : System C}
        → Reach C b (start_of C b streams disk ss) n t
        → Ended t.fetchers
        → ((i : ℕ) (f : Fetcher C) → get_elem? t.fetchers i ≡ some f → f.result ≡ some (ok tt))
          × ((i : ℕ) (s : Segment) (p : ℕ)
              → get_elem? ss i ≡ some s
              → s.start ≤ p
              → p < s.start + s.remain
              → laws.read t.disk p ≡ file p)
          × ((p : ℕ) → Outside ss p → laws.read t.disk p ≡ laws.read disk p)
    Ended-file {n} {t} reach ended =
        let v : Inv C b accepts laws file ss disk t = reached reach in
        (
          λ i f at.
              ended_ok f.result (ok tt) (ended i f at) (λ r e. ((v.on_course i f at).ended r e).0),
          λ i s p at low high.
              let (f, at', e) =
                segment_of t.fetchers i s (subst (λ ts. get_elem? ts i ≡ some s) (sym v.same) at) in
              let o : OnCourse C b accepts laws file t.disk f = v.on_course i f at' in
              let done = ended_ok f.result (ok tt) (ended i f at') (λ r q. (o.ended r q).0) in
              let nothing : f.remain.remain ≡ 0 = (o.ended (ok tt) done).1 in
              let e1 : f.segment.start ≡ s.start = ap (λ q. q.start) e in
              let e2 : f.segment.remain ≡ s.remain = ap (λ q. q.remain) e in
              o.written p (omega arith) (omega (arith, o.high)),
          v.kept,
        )
