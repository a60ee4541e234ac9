-- ===== src/Family/Models.antt =====
-- The thread models of Dtool_impl/src/downloader/family.rs. `Arc`, `Rc`, `Atom`, `Cell` and the raw mutex are the
-- libraries'; so is the trait `Radium` of atomic cells, of which this is what the downloader calls.
use rs_dtool.Base.{ℕ, Bool}
use rs_dtool.Family.{Lockable, borrow_checker}

-- `RefCounted`, with `Deref` and `Clone`.
pub record RefCounted : Type 1 where
  pub Counter : Type 0 → Type 0
  pub new : {T : Type 0} → T → Counter T
  pub deref : {T : Type 0} → Counter T → T
  pub clone : {T : Type 0} → Counter T → Counter T

-- The types of which the downloader has atomic cells; an `i64` is its bit pattern.
pub data Atomic : Type 0 where
  of_bool of_u64 of_i64 : Atomic

abbrev pub Item : Atomic → Type 0
Item of_bool = Bool
Item of_u64 = ℕ
Item of_i64 = ℕ

-- `Radium<Item = T>`: a method that changes the cell gives the new one.
pub record Radium (T : Type 0) : Type 1 where
  pub Cell : Type 0
  pub new : T → Cell
  pub load : Cell → T
  pub fetch_sub : Cell → T → T × Cell

pub record ThreadModel : Type 1 where
  pub RefCounter : RefCounted
  pub AtomicCell : (t : Atomic) → Radium (Item t)
  pub Mutex : Lockable

-- The abbreviations of the parts, and `SharedAtomic`.
module _ (F : ThreadModel) where
  abbrev pub RefCounter : Type 0 → Type 0
  RefCounter T = F.RefCounter.Counter T

  abbrev pub AtomicCell : Atomic → Type 0
  AtomicCell t = (F.AtomicCell t).Cell

  abbrev pub Mutex : Type 0
  Mutex = F.Mutex.Lock

  abbrev pub SharedAtomic : Atomic → Type 0
  SharedAtomic t = RefCounter (AtomicCell t)

-- A counted pointer of the standard library.
pub record Pointer : Type 1 where
  pub To : Type 0 → Type 0
  pub make : {T : Type 0} → T → To T
  pub deref : {T : Type 0} → To T → T
  pub clone : {T : Type 0} → To T → To T

-- `RefCounted for Arc<T>` and `RefCounted for Rc<T>`
abbrev pub arc_counted : Pointer → RefCounted
arc_counted Arc = record { Counter = Arc.To; new = Arc.make; deref = Arc.deref; clone = Arc.clone }

abbrev pub rc_counted : Pointer → RefCounted
rc_counted Rc = record { Counter = Rc.To; new = Rc.make; deref = Rc.deref; clone = Rc.clone }

-- `ThreadSafe` and `ThreadLocal`
abbrev pub thread_safe : Pointer → ((t : Atomic) → Radium (Item t)) → Lockable → ThreadModel
thread_safe Arc Atom RawMutex = record {
  RefCounter = arc_counted Arc;
  AtomicCell = Atom;
  Mutex = RawMutex;
}

abbrev pub thread_local : Pointer → ((t : Atomic) → Radium (Item t)) → ThreadModel
thread_local Rc Cell = record {
  RefCounter = rc_counted Rc;
  AtomicCell = Cell;
  Mutex = borrow_checker;
}
