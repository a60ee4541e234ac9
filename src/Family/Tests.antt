-- ===== src/Family/Tests.antt =====
-- The borrow checker at work.
use rs_dtool.Base.{true, ◌≡◌, refl, returns, panics}
use rs_dtool.Family.{new, acquire}
use rs_dtool.Family.Borrow.{acquire-acquire}

acquire_marked : acquire (record { borrowed = true }) ≡ panics
unfolding acquire
acquire_marked = refl

acquires_again : (new ≡ new) × (acquire new ≡ returns new)
unfolding acquire new
acquires_again = acquire-acquire new new refl
