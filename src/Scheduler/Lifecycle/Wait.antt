-- ===== src/Scheduler/Lifecycle/Wait.antt =====
-- What a parent learns of its children (tasking/scheduler.rs, `terminated_child`).

use leaf_os_alpha.Base.{
  ℕ, ◌≡◌, ◌≢◌, ◌⊎◌, refl, ap, subst, true, false, Option, none, some, List, arith, slot,
  slot_in_range, inl, inr, ok, err, position, position-some, position-none, Result,
}
use leaf_os_alpha.Scheduler.Task.{Task, terminated, Scheduler, SchedulerError, child_running}
use leaf_os_alpha.Scheduler.Ops.{holds}
use leaf_os_alpha.Scheduler.Lifecycle.{
  is_child, is_ended_child, terminated_child, child_reply, childless, id_at,
}

holds-true : (o : Option ℕ) (a : ℕ) → holds o a ≡ true → o ≡ some a
holds-true none a h = cc
holds-true (some b) a h = ground arith

true-holds : (o : Option ℕ) (a : ℕ) → o ≡ some a → holds o a ≡ true
true-holds none a h = cc
true-holds (some b) a h = ground arith

module _ {Space : Type 0} where
  -- The task is a child of `parent`, and the one asked for, if one is.
  abbrev pub IsChild : ℕ → Option ℕ → Task Space → Type 0
  IsChild parent none t = t.parent ≡ some parent
  IsChild parent (some id) t = (t.parent ≡ some parent) × (t.id ≡ id)

  module _ (tasks : List (Option (Task Space))) (parent : ℕ) (child : Option ℕ) where
    abbrev pub Ended : Result ℕ SchedulerError → Type 0
    Ended r =
        (i : ℕ) × (t : Task Space) × (slot tasks i ≡ some t)
        × IsChild parent child t
        × (t.state ≡ terminated)
        × (r ≡ ok t.id)

    abbrev pub StillRuns : Result ℕ SchedulerError → Type 0
    StillRuns r =
        ((i : ℕ) × (t : Task Space) × (slot tasks i ≡ some t) × IsChild parent child t)
        × ((i : ℕ) (t : Task Space)
            → slot tasks i ≡ some t
            → IsChild parent child t
            → t.state ≢ terminated)
        × (r ≡ err child_running)

    abbrev pub Absent : Result ℕ SchedulerError → Type 0
    Absent r =
        ((i : ℕ) (t : Task Space) → slot tasks i ≡ some t → ¬ IsChild parent child t)
        × (r ≡ err (childless child))

  is_child-IsChild :
      (parent : ℕ) (child : Option ℕ) (t : Task Space)
      → is_child parent child (some t) ≡ true
      → IsChild parent child t
  is_child-IsChild parent none t h = holds-true t.parent parent (ground arith)
  is_child-IsChild parent (some id) t h = (holds-true t.parent parent (ground arith), ground arith)

  IsChild-is_child :
      (parent : ℕ) (child : Option ℕ) (t : Task Space)
      → IsChild parent child t
      → is_child parent child (some t) ≡ true
  IsChild-is_child parent none t h = ground (arith, true-holds t.parent parent h)
  IsChild-is_child parent (some id) t h = ground (arith, true-holds t.parent parent h.0)

  module _ (tasks : List (Option (Task Space))) (parent : ℕ) (child : Option ℕ) where
    match_at :
        (i : ℕ) (o : Option (Task Space))
        → slot tasks i ≡ o
        → is_child parent child o ≡ true
        → (t : Task Space) × (slot tasks i ≡ some t) × IsChild parent child t
    match_at i none e h = cc
    match_at i (some t) e h = (t, e, is_child-IsChild parent child t h)

    ended_at :
        (i : ℕ) (o : Option (Task Space))
        → slot tasks i ≡ o
        → is_ended_child parent child o ≡ true
        → (t : Task Space) × (slot tasks i ≡ some t)
          × IsChild parent child t
          × (t.state ≡ terminated)
    ended_at i none e h = cc
    ended_at i (some t) e h = (t, e, is_child-IsChild parent child t (ground arith), ground arith)

    none_ended :
        position (is_ended_child parent child) tasks ≡ none
        → (i : ℕ) (t : Task Space) → slot tasks i ≡ some t
        → IsChild parent child t
        → t.state ≢ terminated
    none_ended e i t at c r =
        let miss =
          position-none (is_ended_child parent child) tasks e i (slot_in_range tasks i t at) in
        let miss' : is_ended_child parent child (some t) ≡ false =
          subst (λ o. is_ended_child parent child o ≡ false) at miss in
        ground (arith, IsChild-is_child parent child t c)

    no_match_at :
        position (is_child parent child) tasks ≡ none
        → (i : ℕ) (t : Task Space) → slot tasks i ≡ some t
        → ¬ IsChild parent child t
    no_match_at e i t at c =
        let miss = position-none (is_child parent child) tasks e i (slot_in_range tasks i t at) in
        let miss' : is_child parent child (some t) ≡ false =
          subst (λ o. is_child parent child o ≡ false) at miss in
        let hit = IsChild-is_child parent child t c in cc

  reply_cases :
      (s : Scheduler Space) (parent : ℕ) (child ended matching : Option ℕ)
      → position (is_ended_child parent child) s.tasks ≡ ended
      → position (is_child parent child) s.tasks ≡ matching
      → let r = child_reply s child ended matching in
        Ended s.tasks parent child r
        ⊎ StillRuns s.tasks parent child r
        ⊎ Absent s.tasks parent child r
  unfolding child_reply
  reply_cases s parent child (some i) m e f =
      let (_, hit, _) = position-some (is_ended_child parent child) s.tasks i e in
      let (t, at, c, r) = ended_at s.tasks parent child i (slot s.tasks i) refl hit in
      inl (i, t, at, c, r, ap (λ o. ok (id_at o)) at)
  reply_cases s parent child none (some i) e f =
      let (_, hit, _) = position-some (is_child parent child) s.tasks i f in
      let (t, at, c) = match_at s.tasks parent child i (slot s.tasks i) refl hit in
      inr (inl ((i, t, at, c), none_ended s.tasks parent child e, refl))
  reply_cases s parent child none none e f = inr (inr (no_match_at s.tasks parent child f, refl))

  -- `terminated_child` names a child of the parent that has ended, if there is one; it reports that a
  -- child still runs if there is one and none has ended; and else that there is no child, or no such
  -- task if one is asked for. Where a child is asked for, all of this is about that child.
  pub terminated_child-cases :
      (s : Scheduler Space) (parent : ℕ) (child : Option ℕ)
      → let r = terminated_child s parent child in
        Ended s.tasks parent child r
        ⊎ StillRuns s.tasks parent child r
        ⊎ Absent s.tasks parent child r
  unfolding terminated_child
  terminated_child-cases s parent child = reply_cases s parent child _ _ refl refl
