-- ===== src/Family/Borrow.antt =====
-- `BorrowChecker` of Dtool_impl/src/downloader/family.rs as a lock.
use rs_dtool.Base.{◌≡◌, refl, returns, arith}
use rs_dtool.Family.{Excludes, BorrowChecker, new, acquire, borrow_checker}

-- Where `acquire` returns, it leaves the checker as it was, so that a second one returns as well.
pub acquire-acquire :
    (c c' : BorrowChecker) → acquire c ≡ returns c' → (c' ≡ c) × (acquire c' ≡ returns c')
unfolding acquire
acquire-acquire c c' h = ground arith

-- The borrow checker obeys the laws of a lock under no notion of a lock that is held.
pub borrow_checker-not_Excludes : ¬ Excludes borrow_checker
unfolding acquire new
borrow_checker-not_Excludes e = e.acquire_free new new refl (e.acquire_holds new new refl)
