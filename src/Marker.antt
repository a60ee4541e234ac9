-- ===== src/Marker.antt =====
-- Dtool_impl/src/downloader/marker.rs: the roles that closures have. A closure is a function of the state that it
-- has caught, and gives the new state. `track` calls its closure without the length that the closure
-- takes, so that its body has no meaning; the trait alone is here.
use rs_dtool.Base.{ℕ, Bool, Exec}

-- `wake` takes the closure by value: it runs once. `World` is what it acts on.
pub record DoneWaker (World T : Type 0) : Type 0 where
  pub wake : T → World → Exec World

abbrev pub closure_wakes : {World : Type 0} → DoneWaker World (World → Exec World)
closure_wakes = record { wake = λ f w. f w }

pub record AbortToken (T : Type 0) : Type 0 where
  pub aborted : T → Bool × T

abbrev pub closure_aborts : {T : Type 0} → (T → Bool × T) → AbortToken T
closure_aborts f = record { aborted = f }

pub record StreamTracker (T : Type 0) : Type 0 where
  pub track : T → ℕ → Exec T
