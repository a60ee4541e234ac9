-- ===== src/Detach/Pointers.antt =====
-- Dtool_impl/src/downloader/pwriter.rs: the owners of a buffer whose references may be sent to another thread, and the
-- traits of what is written to and read from such references. The pointers are the libraries'; `deref` and
-- `deref_mut` are theirs too.
use rs_dtool.Base.{ℕ, List}
use rs_dtool.Error.{Result}
use rs_dtool.Detach.{DetachRef, DetechMut, new, new_mut}

-- `DetachWriter` and `DetachRead`: a method that takes `&mut self` gives the new one.
pub record DetachWriter (W : Type 0) : Type 1 where
  pub Error : Type 0
  pub write : W → DetachRef (List ℕ) → Result ℕ Error × W
  pub write_all : W → DetachRef (List ℕ) → Result (Unit {0}) Error × W

-- What is read goes into the buffer.
pub record DetachRead (R : Type 0) : Type 1 where
  pub Error : Type 0
  pub read : R → DetachRef (List ℕ) → Result ℕ Error × DetachRef (List ℕ)
  pub read_all : R → DetachRef (List ℕ) → Result (Unit {0}) Error × DetachRef (List ℕ) × R

pub record DerefDetech (P : Type 0) : Type 1 where
  pub Target : Type 0
  pub detech : P → DetachRef Target

pub record DerefDetechMut (P : Type 0) (D : DerefDetech P) : Type 1 where
  pub detech_mut : P → DetechMut D.Target

-- A pointer to a `T` that is dropped by hand.
module _ {P T : Type 0} (deref : P → T) where
  abbrev pub box : DerefDetech P
  box = record { Target = T; detech = λ p. new (deref p) }

  abbrev pub rc : DerefDetech P
  rc = record { Target = T; detech = λ p. new (deref p) }

  abbrev pub arc : DerefDetech P
  arc = record { Target = T; detech = λ p. new (deref p) }

  abbrev pub box_mut : (P → T) → DerefDetechMut P box
  box_mut deref_mut = record { detech_mut = λ p. new_mut (deref_mut p) }

-- The buffers of `bytes`.
module _ {P : Type 0} (deref : P → List ℕ) where
  abbrev pub bytes : DerefDetech P
  bytes = record { Target = List ℕ; detech = λ p. new (deref p) }

  abbrev pub bytes_mut : DerefDetech P
  bytes_mut = record { Target = List ℕ; detech = λ p. new (deref p) }

  abbrev pub bytes_mut_mut : (P → List ℕ) → DerefDetechMut P bytes_mut
  bytes_mut_mut deref_mut = record { detech_mut = λ p. new_mut (deref_mut p) }

-- `&T` and `&mut T`, which are the value.
module _ {T : Type 0} where
  abbrev pub shared_ref : DerefDetech T
  shared_ref = record { Target = T; detech = λ p. new p }

  abbrev pub unique_ref : DerefDetech T
  unique_ref = record { Target = T; detech = λ p. new p }

  abbrev pub unique_ref_mut : DerefDetechMut T unique_ref
  unique_ref_mut = record { detech_mut = λ p. new_mut p }
