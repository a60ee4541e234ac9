-- ===== src/Transfer/Parallel/Weight.antt =====
-- The turns that are left to tasks of Dtool_impl/src/downloader/subcontext.rs, as a number.
use mathlib.Core.Option.{some-injective}
use rs_dtool.Base.{
  ℕ, zero, suc, ◌+◌, ◌≤◌, ◌≡◌, ap, subst, List, [], ◌∷◌, some, returns, returns-injective,
  >>=-eq-returns, Build, length, get_elem?, set, arith,
}
use rs_dtool.Error.{ok, err}
use rs_dtool.Transfer.{continue_on, break_with, Stream}
use rs_dtool.Transfer.Fetch.{Context, After, round}
use rs_dtool.Transfer.Parallel.{
  Fetcher, System, result_of, as_writer, turn_on, turn, Step, take_turn, Reach, here, later,
  weight_on, weight, total,
}

module _ (C : Context) (b : Build) where
  weight-result_of :
      (f : Fetcher C) (after : After C) → weight_on f (result_of C b after) ≤ suc (length f.stream)
  weight-result_of f continue_on = omega arith
  weight-result_of f (break_with r) = omega arith

  turn_on-weight :
      (disk : C.W.Disk) (f f' : Fetcher C) (disk' : C.W.Disk) (stream : Stream C.W C.S)
      → turn_on C b disk f stream ≡ returns (f', disk')
      → weight f' ≤ length stream
  unfolding turn_on
  turn_on-weight disk f f' disk' [] ran =
      subst (λ (out : Fetcher C × C.W.Disk). weight out.0 ≤ 0) (returns-injective ran) (omega arith)
  turn_on-weight disk f f' disk' (err e ∷ stream) ran =
      subst (λ (out : Fetcher C × C.W.Disk). weight out.0 ≤ suc (length stream))
        (returns-injective ran) (omega arith)
  turn_on-weight disk f f' disk' (ok bytes ∷ stream) ran =
      let ((after, t), _, e) = >>=-eq-returns (round C b (as_writer C b disk f) bytes) _ ran in
      subst (λ (out : Fetcher C × C.W.Disk). weight out.0 ≤ suc (length stream))
        (returns-injective e)
        (weight-result_of
          (record f {
            stream = stream;
            process = t.writer.process;
            remain = t.remain;
            result = result_of C b after;
          })
          after)

  total-set :
      (fs : List (Fetcher C)) (i : ℕ) (f f' : Fetcher C)
      → get_elem? fs i ≡ some f
      → total (set fs i f') + weight f ≡ total fs + weight f'
  total-set [] i f f' h = absurd cc
  total-set (g ∷ fs) zero f f' h =
      let e : weight g ≡ weight f = ap weight (some-injective g f h) in omega arith
  total-set (g ∷ fs) (suc i) f f' h = omega (arith, total-set fs i f f' h)

  pub Step-total : (s t : System C) → Step C b s t → suc (total t.fetchers) ≤ total s.fetchers
  unfolding turn
  Step-total s t (take_turn i {f} {f'} {disk'} at going ran) =
      let e : weight f ≡ suc (length f.stream) = ap (weight_on f) going in
      omega (arith, total-set s.fetchers i f f' at, turn_on-weight s.disk f f' disk' f.stream ran)

  -- The turns that are taken and those that are left are never more than those that there were: with
  -- any streams and any writer, and whatever the turns do, the tasks cannot go on for ever.
  pub Reach-total :
      (s : System C) {n : ℕ} {t : System C}
      → Reach C b s n t
      → n + total t.fetchers ≤ total s.fetchers
  Reach-total s here = omega arith
  Reach-total s (later {n = n} {t = u} {u = t} reach step) =
      omega (arith, Reach-total s reach, Step-total u t step)
