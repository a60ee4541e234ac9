-- ===== src/Transfer/Parallel/Steps.antt =====
-- The invariant of tasks of Dtool_impl/src/downloader/subcontext.rs that take turns on one writer.
use mathlib.Core.Option.{some-injective}
use native.Mathlib.Decide.{ℕ_discrete}
use rs_dtool.Base.{
  ℕ, zero, suc, ◌+◌, ◌≤◌, ◌<◌, ◌≡◌, ◌≢◌, ◌⊎◌, ap, subst, List, [], ◌∷◌, map, some, none, returns,
  returns-injective, Build, get_elem?, get_elem?-some_lt, get_elem?-set_self, get_elem?-set_ne, set,
  arith, ◌∙◌, sym, refl,
}
use rs_dtool.Segment.{Segment}
use rs_dtool.Transfer.Fetch.{Context}
use rs_dtool.Transfer.Clip.{Accepts}
use rs_dtool.Transfer.File.{FileLaws}
use rs_dtool.Transfer.Parallel.{Fetcher, System, turn, Step, take_turn, Reach, here, later}
use rs_dtool.Transfer.Parallel.Invariant.{OnCourse, Turned, turn-OnCourse}

abbrev pub Apart : Segment → Segment → Type 0
Apart s t = (s.start + s.remain ≤ t.start) ⊎ (t.start + t.remain ≤ s.start)

abbrev pub Disjoint : List Segment → Type 0
Disjoint ss =
    (i j : ℕ) (s t : Segment)
    → get_elem? ss i ≡ some s
    → get_elem? ss j ≡ some t
    → i ≢ j
    → Apart s t

-- A position in none of the segments.
abbrev pub Outside : List Segment → ℕ → Type 0
Outside ss p =
    (i : ℕ) (s : Segment) → get_elem? ss i ≡ some s → (p < s.start) ⊎ (s.start + s.remain ≤ p)

abbrev pub segments : {C : Context} → List (Fetcher C) → List Segment
segments fs = map (λ f. f.segment) fs

get_elem?-segments :
    {C : Context} (fs : List (Fetcher C)) (i : ℕ) {f : Fetcher C}
    → get_elem? fs i ≡ some f
    → get_elem? (segments fs) i ≡ some f.segment
get_elem?-segments [] i h = absurd cc
get_elem?-segments (g ∷ fs) zero {f} h = ap (λ q. some q.segment) (some-injective g f h)
get_elem?-segments (g ∷ fs) (suc i) h = get_elem?-segments fs i h

segments-set :
    {C : Context} (fs : List (Fetcher C)) (i : ℕ) {f : Fetcher C} (f' : Fetcher C)
    → get_elem? fs i ≡ some f
    → f'.segment ≡ f.segment
    → segments (set fs i f') ≡ segments fs
segments-set [] i f' h e = refl
segments-set (g ∷ fs) zero {f} f' h e =
    ap (λ s. s ∷ segments fs) (e ∙ sym (ap (λ q. q.segment) (some-injective g f h)))
segments-set (g ∷ fs) (suc i) f' h e = ap (g.segment ∷◌) (segments-set fs i f' h e)

module _ (C : Context) (b : Build) (accepts : Accepts C.W) (laws : FileLaws C.W)
    (file : ℕ → ℕ) where
  -- What a turn has done, read off its result.
  record Moved (disk : C.W.Disk) (f f' : Fetcher C) (disk' : C.W.Disk) : Type 0 where
    same : f'.segment ≡ f.segment
    on_course : OnCourse C b accepts laws file disk' f'
    kept :
        (p : ℕ)
        → (p < f.segment.start) ⊎ (f.segment.start + f.segment.remain ≤ p)
        → laws.read disk' p ≡ laws.read disk p

  turn-Moved :
      (disk : C.W.Disk) (f f' : Fetcher C) (disk' : C.W.Disk)
      → OnCourse C b accepts laws file disk f
      → f.result ≡ none
      → turn C b disk f ≡ returns (f', disk')
      → Moved disk f f' disk'
  unfolding turn
  turn-Moved disk f f' disk' o going ran =
      let t : Turned C b accepts laws file disk f f.stream =
        turn-OnCourse C b accepts laws file disk f o going in
      let m : Moved disk f t.next t.disk' = record {
        same = t.same;
        on_course = t.on_course;
        kept = t.kept;
      } in
      subst (λ (out : Fetcher C × C.W.Disk). Moved disk f out.0 out.1)
        (returns-injective (sym t.ran ∙ ran)) m

  -- A write elsewhere keeps a task on its course.
  OnCourse-kept :
      (disk disk' : C.W.Disk) (f : Fetcher C) (s : Segment)
      → Apart s f.segment
      → ((p : ℕ) → (p < s.start) ⊎ (s.start + s.remain ≤ p) → laws.read disk' p ≡ laws.read disk p)
      → OnCourse C b accepts laws file disk f
      → OnCourse C b accepts laws file disk' f
  OnCourse-kept disk disk' f s apart kept o = record {
    small = o.small;
    ends = o.ends;
    low = o.low;
    high = o.high;
    written = λ p low high.
        let below : p < f.segment.start + f.segment.remain = omega (arith, o.high) in
        let out : (p < s.start) ⊎ (s.start + s.remain ≤ p) = ground arith in
        kept p out ∙ o.written p low high;
    ahead = o.ahead;
    ended = o.ended;
  }

  -- The tasks have the given segments, each is on its course, and elsewhere the disk is as it was.
  pub record Inv (ss : List Segment) (disk : C.W.Disk) (s : System C) : Type 0 where
    pub same : segments s.fetchers ≡ ss
    pub on_course :
        (i : ℕ) (f : Fetcher C)
        → get_elem? s.fetchers i ≡ some f
        → OnCourse C b accepts laws file s.disk f
    pub kept : (p : ℕ) → Outside ss p → laws.read s.disk p ≡ laws.read disk p

  module _ (ss : List Segment) (disk : C.W.Disk) (disjoint : Disjoint ss) where
    segment_at :
        (fs : List (Fetcher C)) (i : ℕ) {f : Fetcher C}
        → segments fs ≡ ss
        → get_elem? fs i ≡ some f
        → get_elem? ss i ≡ some f.segment
    segment_at fs i {f} e h =
        subst (λ ts. get_elem? ts i ≡ some f.segment) e (get_elem?-segments fs i h)

    Step-Inv : (s t : System C) → Inv ss disk s → Step C b s t → Inv ss disk t
    Step-Inv s t v (take_turn i {f} {f'} {disk'} at going ran) =
        let m : Moved s.disk f f' disk' =
          turn-Moved s.disk f f' disk' (v.on_course i f at) going ran in
        let lt = get_elem?-some_lt s.fetchers i at in
        record {
          same = segments-set s.fetchers i f' at m.same ∙ v.same;
          on_course = λ j g h. elim (ℕ_discrete i j) [
            | yes e ↦
                let own : get_elem? (set s.fetchers i f') j ≡ some f' =
                  subst (λ k. get_elem? (set s.fetchers i f') k ≡ some f') e
                    (get_elem?-set_self s.fetchers i f' lt) in
                subst (OnCourse C b accepts laws file disk') (some-injective f' g (sym own ∙ h))
                  m.on_course
            | no ne ↦
                let h' = sym (get_elem?-set_ne s.fetchers i j f' ne) ∙ h in
                OnCourse-kept s.disk disk' g f.segment
                  (disjoint i j f.segment g.segment (segment_at s.fetchers i v.same at)
                    (segment_at s.fetchers j v.same h') ne)
                  m.kept (v.on_course j g h')
          ];
          kept = λ p out.
              m.kept p (out i f.segment (segment_at s.fetchers i v.same at)) ∙ v.kept p out;
        }

    pub Reach-Inv :
        (s : System C) {n : ℕ} {t : System C} → Inv ss disk s → Reach C b s n t → Inv ss disk t
    Reach-Inv s v here = v
    Reach-Inv s v (later {n = n} {t = u} {u = t} reach step) =
        Step-Inv u t (Reach-Inv s v reach) step
