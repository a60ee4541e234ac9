-- ===== src/Group/Tasks/Invariant.antt =====
-- What holds between two steps of the tasks of a group, and what one move changes.
use rs_dtool.Base.{
  ℕ, Bool, true, false, ◌≡◌, refl, returns, >>=-eq-returns, returns-injective, sym, ap, ◌∙◌,
}
use rs_dtool.Family.{Lockable, Excludes}
use rs_dtool.Group.Slots.{GroupExt}
use rs_dtool.Group.Slots.Indices.{IsIndexed}
use rs_dtool.Group.Slots.Exts.{ext_at, KeepsExts}
use rs_dtool.Group.Shared.{State, Busy, World, state_of, is_busy, is_idle, acquire, release}
use rs_dtool.Group.Tasks.{
  Handle, nothing, group, reporter, group_guard, reporter_guard, busy_group, idle_group,
  reporter_busy, reporter_idle, holds_lock, System,
}

module _ {E : GroupExt} {L : Lockable} where
  -- A task that knows the state is right about it.
  abbrev pub Knows : World E L → Handle → Type 0
  Knows w (busy_group _) = is_busy (state_of w) ≡ true
  Knows w (reporter_busy _) = is_busy (state_of w) ≡ true
  Knows w (idle_group _) = is_idle (state_of w) ≡ true
  Knows w (reporter_idle _) = is_idle (state_of w) ≡ true
  Knows w _ = Unit {0}

  pub Knows-same_state :
      (w w' : World E L) (h : Handle) → state_of w' ≡ state_of w → Knows w h → Knows w' h
  Knows-same_state w w' nothing e k = tt
  Knows-same_state w w' (group _) e k = tt
  Knows-same_state w w' (reporter _) e k = tt
  Knows-same_state w w' (group_guard _) e k = tt
  Knows-same_state w w' (reporter_guard _) e k = tt
  Knows-same_state w w' (busy_group _) e k = ap is_busy e ∙ k
  Knows-same_state w w' (reporter_busy _) e k = ap is_busy e ∙ k
  Knows-same_state w w' (idle_group _) e k = ap is_idle e ∙ k
  Knows-same_state w w' (reporter_idle _) e k = ap is_idle e ∙ k

  -- The slots of a busy group are indexed.
  abbrev pub IsIndexedIn : World E L → Type 0
  IsIndexedIn w = (b : Busy E) → state_of w ≡ State.busy b → IsIndexed w.heap b.slots

  -- At most one task holds the lock, and the lock knows; who knows the state is right; the slots are
  -- indexed.
  pub record Inv (X : Excludes L) (s : System E L) : Type 0 where
    pub held : (i : ℕ) → holds_lock (s.pc i) ≡ true → X.Held s.world.shared.mutex
    pub unique : (i j : ℕ) → holds_lock (s.pc i) ≡ true → holds_lock (s.pc j) ≡ true → i ≡ j
    pub knows : (i : ℕ) → Knows s.world (s.pc i)
    pub indexed : IsIndexedIn s.world

  -- `acquire` and `release` change the lock alone.
  pub record Relocked (w w' : World E L) : Type 0 where
    pub same_share : w'.shared.share ≡ w.shared.share
    pub same_heap : w'.heap ≡ w.heap
    pub same_state : state_of w' ≡ state_of w

  -- What belongs to the user of the group stays as it is: its part of what is shared, and what it has
  -- put into the cells.
  pub record Leaves (w w' : World E L) : Type 0 where
    pub same_share : w'.shared.share ≡ w.shared.share
    pub exts : KeepsExts w.heap w'.heap

  -- A move takes the lock, gives it back, or works under it.
  pub data Kind (X : Excludes L) (w w' : World E L) : Bool → Bool → Type 0 where
    takes :
        Relocked w w' → ¬ X.Held w.shared.mutex → X.Held w'.shared.mutex → Kind X w w' false true
    gives : Relocked w w' → Kind X w w' true false
    works :
        w'.shared.mutex ≡ w.shared.mutex
        → Leaves w w'
        → (IsIndexedIn w → IsIndexedIn w')
        → Kind X w w' true true

  pub same_heap-Leaves :
      (w w' : World E L) → w'.shared.share ≡ w.shared.share → w'.heap ≡ w.heap → Leaves w w'
  same_heap-Leaves w w' share e = record {
    same_share = share;
    exts = λ a x h. ap (λ heap. ext_at heap a) e ∙ h;
  }

  pub Kind-Leaves : {X : Excludes L} {w w' : World E L} {a b : Bool} → Kind X w w' a b → Leaves w w'
  Kind-Leaves {w = w} {w' = w'} (takes r _ _) = same_heap-Leaves w w' r.same_share r.same_heap
  Kind-Leaves {w = w} {w' = w'} (gives r) = same_heap-Leaves w w' r.same_share r.same_heap
  Kind-Leaves (works _ leaves _) = leaves

  relock :
      (w w' : World E L) (l : L.Lock)
      → record w { shared = record (w.shared) { mutex = l } } ≡ w'
      → Relocked w w' × (w'.shared.mutex ≡ l)
  relock w w' l p =
      rw (← p) (record { same_share = refl; same_heap = refl; same_state = refl }, refl)

  pub acquire_lem :
      (X : Excludes L) (w w' : World E L)
      → acquire w ≡ returns w'
      → Relocked w w' × (¬ X.Held w.shared.mutex) × X.Held w'.shared.mutex
  unfolding acquire
  acquire_lem X w w' h =
      let (l, e, q) = >>=-eq-returns (L.acquire w.shared.mutex) _ h in
      let (r, m) = relock w w' l (returns-injective q) in
      (r, X.acquire_free _ l e, rw m (X.acquire_holds _ l e))

  pub release_lem : (w w' : World E L) → release w ≡ returns w' → Relocked w w'
  unfolding release
  release_lem w w' h =
      let (l, e, q) = >>=-eq-returns (L.release w.shared.mutex) _ h in
      (relock w w' l (returns-injective q)).0

  pub Relocked-IsIndexed : (w w' : World E L) → Relocked w w' → IsIndexedIn w → IsIndexedIn w'
  Relocked-IsIndexed w w' r v b e i s p = rw r.same_heap (v b (sym r.same_state ∙ e) i s p)
