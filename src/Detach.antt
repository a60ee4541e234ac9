-- ===== src/Detach.antt =====
-- Dtool_impl/src/downloader/pwriter.rs: references that may be sent to another thread. A reference is the value
-- that it refers to; what a caller must see to for `new` (how long the value lives, and that nobody
-- writes to it) is not a value. A borrowed part `&mut U` of a `T` is a way to read and to write it.
mod Slices
mod Pointers
mod Tests
use rs_dtool.Base.{
  ℕ, ◌-◌, ◌&&◌, List, [], ◌∷◌, zero, suc, Exec, returns, panics, ◌>>=◌, leb, if◌then◌else◌, length,
  take,
}

pub record DetachRef (T : Type 0) : Type 0 where
  pub inner : T

module _ {T : Type 0} where
  abbrev pub new : T → DetachRef T
  new inner = record { inner = inner }

  abbrev pub into_raw : DetachRef T → T
  into_raw r = r.inner

  abbrev pub map_ref : {U : Type 0} → DetachRef T → (T → U) → DetachRef U
  map_ref r f = record { inner = f r.inner }

  abbrev pub deref : DetachRef T → T
  deref r = r.inner

-- `[start..end]` of the standard library: it panics unless `start <= end <= len`.
abbrev pub drop : {A : Type 0} → ℕ → List A → List A
drop zero xs = xs
drop (suc n) [] = []
drop (suc n) (x ∷ xs) = drop n xs

abbrev pub index_range : {A : Type 0} → List A → ℕ → ℕ → Exec (List A)
index_range xs start end =
    if leb start end && leb end (length xs)
    then returns (take (end - start) (drop start xs))
    else panics

-- `DetachRef::slice`, at a range `start..end`.
unfoldable pub slice : {A : Type 0} → DetachRef (List A) → ℕ → ℕ → Exec (DetachRef (List A))
slice r start end = do part ← index_range r.inner start end; returns (new part)

pub record DetechMut (T : Type 0) : Type 0 where
  pub inner : T

-- `FnOnce(&mut T) -> &mut U`
pub record Part (T U : Type 0) : Type 0 where
  pub read : T → U
  pub write : T → U → T

module _ {T : Type 0} where
  abbrev pub new_mut : T → DetechMut T
  new_mut inner = record { inner = inner }

  abbrev pub into_raw_mut : DetechMut T → T
  into_raw_mut r = r.inner

  abbrev pub map_of_mut : {U : Type 0} → DetechMut T → (T → U) → DetachRef U
  map_of_mut r f = record { inner = f r.inner }

  abbrev pub map_mut : {U : Type 0} → DetechMut T → Part T U → DetechMut U
  map_mut r p = record { inner = p.read r.inner }

  abbrev pub deref_of_mut : DetechMut T → T
  deref_of_mut r = r.inner

  abbrev pub deref_mut : DetechMut T → (T → T) → DetechMut T
  deref_mut r f = new_mut (f r.inner)
