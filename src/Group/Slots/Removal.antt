-- ===== src/Group/Slots/Removal.antt =====
-- What `Vec::swap_remove` leaves at each position.
use rs_dtool.Base.{
  ℕ, ◌+◌, ◌-◌, ◌≤◌, ◌<◌, ◌≡◌, ◌≢◌, List, some, returns, panics, length, get_elem?, set, take,
  length-set, length-take, get_elem?-set_self, get_elem?-set_ne, get_elem?-take, get_elem?-lt,
  get_elem?-ge, arith,
}
use rs_dtool.Group.Slots.{swap_remove}

module _ {ℓ} {A : Type ℓ} where
  -- The vector after a removal at `i`, in terms of the vector before.
  pub record SwapRemoved (xs : List A) (i : ℕ) : Type ℓ where
    pub removed : A
    pub last : A
    pub rest : List A
    pub ran : swap_remove xs i ≡ returns (removed, rest)
    pub hit : get_elem? xs i ≡ some removed
    pub was_last : get_elem? xs (length rest) ≡ some last
    pub shorter : length rest + 1 ≡ length xs
    pub moved : i < length rest → get_elem? rest i ≡ some last
    pub kept : (j : ℕ) → j < length rest → i ≢ j → get_elem? rest j ≡ get_elem? xs j

  pub swap_removed : (xs : List A) (i : ℕ) → i < length xs → SwapRemoved xs i
  unfolding swap_remove
  swap_removed xs i lt =
      let (removed, hit) = get_elem?-lt xs i lt in
      let (last, at_end) = get_elem?-lt xs (length xs - 1) (omega arith) in
      let size : length (take (length xs - 1) (set xs i last)) ≡ length xs - 1 =
        omega (arith, length-take (length xs - 1) (set xs i last), length-set xs i last) in
      record {
        removed = removed;
        last = last;
        rest = take (length xs - 1) (set xs i last);
        ran = rw (hit, at_end);
        hit = hit;
        was_last = rw size at_end;
        shorter = omega arith;
        moved = λ h.
            rw (get_elem?-take (set xs i last) (length xs - 1) i (omega arith))
              (get_elem?-set_self xs i last lt);
        kept = λ j h ne.
            rw (get_elem?-take (set xs i last) (length xs - 1) j (omega arith))
              (get_elem?-set_ne xs i j last ne);
      }

  pub swap_remove_out : (xs : List A) (i : ℕ) → length xs ≤ i → swap_remove xs i ≡ panics
  unfolding swap_remove
  swap_remove_out xs i le = rw (get_elem?-ge xs i le)
