-- ===== src/Group/Tasks/Steps.antt =====
-- Every step of the tasks of a group keeps the invariant, over any lock that excludes.
use native.Mathlib.Decide.{ℕ_discrete}
use mathlib.Core.Logic.{if_pos, if_neg}
use rs_dtool.Base.{ℕ, Bool, true, false, ◌≡◌, ◌≢◌, refl, sym, ◌∙◌, subst, ap}
use rs_dtool.Family.{Lockable, Excludes}
use rs_dtool.Group.Slots.{GroupExt, Reporter}
use rs_dtool.Group.Shared.{World, state_of, new_group}
use rs_dtool.Group.Tasks.{
  Handle, nothing, group, reporter, group_guard, busy_group, idle_group, reporter_guard,
  reporter_busy, reporter_idle, holds_lock, System, Step, update, Reach, here, later, IsStart, move,
  hire,
}
use rs_dtool.Group.Tasks.Moves.{Move-Effect, Hire-effect}
use rs_dtool.Group.Tasks.Invariant.{
  Knows, IsIndexedIn, Inv, Kind, takes, gives, works, Relocked-IsIndexed,
}
use rs_dtool.Group.Tasks.Effects.{StaysBusy}

pub update_cases {ℓ} :
    (P : Handle → Type ℓ) (pc : ℕ → Handle) (i : ℕ) (h : Handle) (j : ℕ)
    → (i ≡ j → P h)
    → (i ≢ j → P (pc j))
    → P (update pc i h j)
update_cases P pc i h j at_i other = elim (ℕ_discrete i j) [
  | yes e ↦ rw (if_pos _ e) (at_i e)
  | no ne ↦ rw (if_neg _ ne) (other ne)
]

not_true : (b : Bool) → ¬ (b ≡ true) → b ≡ false
not_true true h = absurd (h refl)
not_true false h = refl

module _ {E : GroupExt} {L : Lockable} (X : Excludes L) where
  Knows-unlocked : (w : World E L) (h : Handle) → holds_lock h ≡ false → Knows w h
  Knows-unlocked w nothing e = tt
  Knows-unlocked w (group _) e = tt
  Knows-unlocked w (reporter _) e = tt
  Knows-unlocked w (group_guard _) e = tt
  Knows-unlocked w (reporter_guard _) e = tt
  Knows-unlocked w (busy_group _) e = cc
  Knows-unlocked w (reporter_busy _) e = cc
  Knows-unlocked w (idle_group _) e = cc
  Knows-unlocked w (reporter_idle _) e = cc

  -- If no task but `i` can hold the lock after the move, the invariant rests on what `i` holds.
  alone :
      (s : System E L) (i : ℕ) (w : World E L) (h : Handle)
      → ((j : ℕ) → i ≢ j → holds_lock (s.pc j) ≡ false)
      → (holds_lock h ≡ true → X.Held w.shared.mutex)
      → Knows w h
      → IsIndexedIn w
      → Inv X (record { world = w; pc = update s.pc i h })
  alone s i w h others held kn indexed = record {
    held = λ j.
        update_cases (λ x. holds_lock x ≡ true → X.Held w.shared.mutex) s.pc i h j (λ _. held)
          (λ ne q. absurd (cc (others j ne)));
    unique = λ j k p q. sym (only j p) ∙ only k q;
    knows = λ j.
        update_cases (Knows w) s.pc i h j (λ _. kn) (λ ne. Knows-unlocked w (s.pc j) (others j ne));
    indexed = indexed;
  }
    where
      only : (j : ℕ) → holds_lock (update s.pc i h j) ≡ true → i ≡ j
      only j =
          update_cases (λ x. holds_lock x ≡ true → i ≡ j) s.pc i h j (λ e _. e)
            (λ ne q. absurd (cc (others j ne)))

  by_kind :
      (s : System E L) (i : ℕ) (w : World E L) (h : Handle)
      → Inv X s
      → {a b : Bool} → Kind X s.world w a b
      → holds_lock (s.pc i) ≡ a
      → holds_lock h ≡ b
      → Knows w h
      → Inv X (record { world = w; pc = update s.pc i h })
  by_kind s i w h inv (takes r free held) p q kn =
      alone s i w h (λ j ne. not_true _ (λ e. free (inv.held j e))) (λ _. held) kn
        (Relocked-IsIndexed s.world w r inv.indexed)
  by_kind s i w h inv (gives r) p q kn =
      alone s i w h (λ j ne. not_true _ (λ e. ne (inv.unique i j p e))) (λ e. absurd (cc e)) kn
        (Relocked-IsIndexed s.world w r inv.indexed)
  by_kind s i w h inv (works m _ keeps) p q kn =
      alone s i w h (λ j ne. not_true _ (λ e. ne (inv.unique i j p e))) (λ _. rw m (inv.held i p))
        kn (keeps inv.indexed)

  -- A new reporter holds no lock, and the task that makes it goes on to hold it.
  by_hire :
      (s : System E L) (i k : ℕ) (w : World E L) (r : Reporter)
      → Inv X s
      → s.pc k ≡ nothing
      → (holds_lock (s.pc i) ≡ true)
      → StaysBusy s.world w
      → (Knows s.world (s.pc i) → Knows w (s.pc i))
      → Inv X (record { world = w; pc = update s.pc k (reporter r) })
  by_hire s i k w r inv free p b kn = record {
    held = λ j.
        update_cases (λ x. holds_lock x ≡ true → X.Held w.shared.mutex) s.pc k (reporter r) j
          (λ _ q. absurd (cc q)) (λ _ q. rw b.same_mutex (inv.held j q));
    unique = λ j l q q'. inv.unique j l (held_before j q) (held_before l q');
    knows = λ j. update_cases (Knows w) s.pc k (reporter r) j (λ _. tt) (λ _. knows j);
    indexed = b.keeps inv.indexed;
  }
    where
      held_before :
          (j : ℕ) → holds_lock (update s.pc k (reporter r) j) ≡ true → holds_lock (s.pc j) ≡ true
      held_before j =
          update_cases (λ x. holds_lock x ≡ true → holds_lock (s.pc j) ≡ true) s.pc k (reporter r) j
            (λ _ q. absurd (cc q)) (λ _ q. q)

      knows : (j : ℕ) → Knows w (s.pc j)
      knows j = elim (ℕ_discrete i j) [
        | yes e ↦ subst (λ x. Knows w (s.pc x)) e (kn (inv.knows i))
        | no ne ↦ Knows-unlocked w (s.pc j) (not_true _ (λ q. ne (inv.unique i j p q)))
      ]

  -- Every step keeps the invariant, whatever task is scheduled.
  pub Step-Inv : {s t : System E L} → Step E L s t → Inv X s → Inv X t
  Step-Inv {s} (move i {w} {h} m) inv =
      let (k, kn) = Move-Effect X m in by_kind s i w h inv k refl refl kn
  Step-Inv {s} (hire i k {w} {r} free m) inv =
      let (p, b, kn) = Hire-effect X m in by_hire s i k w r inv free p b kn

  start-Inv : {s : System E L} → IsStart E L s → Inv X s
  unfolding new_group
  start-Inv {s} h = record {
    held = λ i p. absurd (cc (h.unlocked i));
    unique = λ i j p q. absurd (cc (h.unlocked i));
    knows = λ i. Knows-unlocked s.world (s.pc i) (h.unlocked i);
    indexed = λ b e. absurd (cc (ap state_of h.is_new));
  }

  -- In every state that the tasks reach from a new group whose lock excludes: at most one task holds
  -- the lock, and the lock is held; every task that has seen the state is right about it; and the
  -- slots of a busy group are indexed. Each task has one handle, and one that gives the group a
  -- `Busy`, or writes through `slots_mut` or `my_index_mut`, leaves the slots indexed.
  pub Reach-Inv : {s t : System E L} → IsStart E L s → Reach E L s t → Inv X t
  Reach-Inv h here = start-Inv h
  Reach-Inv h (later r st) = Step-Inv st (Reach-Inv h r)
