-- ===== src/Detach/Slices.antt =====
-- A slice of a slice, over `DetachRef::slice` of Dtool_impl/src/downloader/pwriter.rs.
use rs_dtool.Base.{
  ℕ, zero, suc, ◌+◌, ◌-◌, ◌≤◌, ◌≡◌, ap, sym, refl, ◌∙◌, List, [], ◌∷◌, true, returns, ◌>>=◌,
  >>=-returns, leb, length, take, arith, length-take,
}
use rs_dtool.Detach.{DetachRef, new, drop, slice}

module _ {A : Type 0} where
  length-drop : (n : ℕ) (xs : List A) → length (drop n xs) ≡ length xs - n
  length-drop zero xs = omega arith
  length-drop (suc n) [] = omega arith
  length-drop (suc n) (x ∷ xs) = omega (arith, length-drop n xs)

  drop-nil : (n : ℕ) → drop {A = A} n [] ≡ []
  drop-nil zero = refl
  drop-nil (suc n) = refl

  take-nil : (n : ℕ) → take {A = A} n [] ≡ []
  take-nil zero = refl
  take-nil (suc n) = refl

  drop-drop : (m n k : ℕ) (xs : List A) → m + n ≡ k → drop n (drop m xs) ≡ drop k xs
  drop-drop zero n k xs e = ap (λ i. drop i xs) (omega (arith, e))
  drop-drop (suc m) n zero xs e = absurd (omega (arith, e))
  drop-drop (suc m) n (suc k) [] e = drop-nil n
  drop-drop (suc m) n (suc k) (x ∷ xs) e = drop-drop m n k xs (omega (arith, e))

  drop-take : (m n k : ℕ) (xs : List A) → n - m ≡ k → drop m (take n xs) ≡ take k (drop m xs)
  drop-take zero n k xs e = ap (λ i. take i xs) (omega (arith, e))
  drop-take (suc m) zero zero xs e = refl
  drop-take (suc m) zero (suc k) xs e = absurd (omega (arith, e))
  drop-take (suc m) (suc n) k [] e = sym (take-nil k)
  drop-take (suc m) (suc n) k (x ∷ xs) e = drop-take m n k xs (omega (arith, e))

  take-take : (m n : ℕ) (xs : List A) → m ≤ n → take m (take n xs) ≡ take m xs
  take-take zero n xs h = refl
  take-take (suc m) zero xs h = absurd (omega arith)
  take-take (suc m) (suc n) [] h = refl
  take-take (suc m) (suc n) (x ∷ xs) h = ap (x ∷◌) (take-take m n xs (omega arith))

  slice-returns :
      (r : DetachRef (List A)) (start end : ℕ)
      → start ≤ end
      → end ≤ length r.inner
      → slice r start end ≡ returns (new (take (end - start) (drop start r.inner)))
  unfolding slice
  slice-returns r start end low high =
      let e : leb start end ≡ true = ground arith in
      let e' : leb end (length r.inner) ≡ true = ground arith in rw (e, e') refl

  -- A slice of a slice is one slice: the range within counts from the start of the first. Both ranges
  -- are in order and end within what they cut.
  pub slice-slice :
      (r : DetachRef (List A)) (start end start' end' : ℕ)
      → start ≤ end
      → end ≤ length r.inner
      → start' ≤ end'
      → end' ≤ end - start
      → (slice r start end >>= λ r'. slice r' start' end') ≡ slice r (start + start') (start + end')
  slice-slice r start end start' end' low high low' high' =
      let cut : List A = take (end - start) (drop start r.inner) in
      let size : length cut ≡ end - start =
        omega (arith, length-take (end - start) (drop start r.inner), length-drop start r.inner) in
      >>=-returns _ (slice-returns r start end low high)
      ∙ slice-returns (new cut) start' end' low' (omega arith)
      ∙ ap (λ xs. returns (new xs))
          (ap (take (end' - start'))
              (drop-take start' (end - start) (end - start - start') (drop start r.inner) refl)
            ∙ take-take (end' - start') (end - start - start') (drop start' (drop start r.inner))
                (omega arith)
            ∙ ap (take (end' - start')) (drop-drop start start' (start + start') r.inner refl)
            ∙ ap (λ n. take n (drop (start + start') r.inner)) (omega arith))
      ∙ sym (slice-returns r (start + start') (start + end') (omega arith) (omega arith))
