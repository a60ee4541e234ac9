-- ===== src/Family.antt =====
-- Dtool_impl/src/downloader/family.rs: the lock of a thread model; Family/Models has the models themselves.
pub mod Models
mod Borrow
mod Tests
use rs_dtool.Base.{Bool, true, false, not, Exec, returns, panics, ◌>>=◌, ◌≡◌, if◌then◌else◌}

-- The trait `Lockable`; a method that takes `&self` gives the lock that it leaves.
pub record Lockable : Type 1 where
  pub Lock : Type 0
  pub new : Lock
  pub acquire : Lock → Exec Lock
  pub release : Lock → Exec Lock

-- What the groups ask of a lock: `acquire` returns only on a lock that is not held, and leaves it
-- held; `release` of a held lock frees it.
pub record Excludes (L : Lockable) : Type 1 where
  pub Held : L.Lock → Type 0
  pub new_free : ¬ Held L.new
  pub acquire_free : (l l' : L.Lock) → L.acquire l ≡ returns l' → ¬ Held l
  pub acquire_holds : (l l' : L.Lock) → L.acquire l ≡ returns l' → Held l'
  pub release_frees : (l l' : L.Lock) → Held l → L.release l ≡ returns l' → ¬ Held l'

-- The lock of `ThreadLocal`.
pub record BorrowChecker : Type 0 where
  pub borrowed : Bool

unfoldable pub new : BorrowChecker
new = record { borrowed = false }

-- `&mut unsafe { *self.borrowed.get() }` borrows a copy: the value of a block is moved out of the
-- place that it names, here copied, as a `bool` is `Copy`. So each method writes to a temporary, the
-- second part of the pair, and leaves the cell alone.
pub acquire_copy : BorrowChecker → Exec (BorrowChecker × Bool)
acquire_copy c = let p = c.borrowed in if not p then returns (c, true) else panics

unfoldable pub acquire : BorrowChecker → Exec BorrowChecker
unfolding acquire_copy
acquire c = do (c', _) ← acquire_copy c; returns c'

pub release : BorrowChecker → Exec BorrowChecker
release c = returns c

abbrev pub borrow_checker : Lockable
borrow_checker = record { Lock = BorrowChecker; new = new; acquire = acquire; release = release }
