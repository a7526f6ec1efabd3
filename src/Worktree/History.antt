-- ===== src/Worktree/History.antt =====
-- Histories of the store in skills/agentdesk/scripts/worktree_lifecycle_store.py: its operations,
-- one after another under the lock, in any order and with any arguments.
use dockyard.Base.{
  ◌≡◌, refl, sym, ap, subst, ◌∙◌, ◌==◌, comparable_string, String, false, Option, none, some,
  returns, arith, inl, inr, Bool-cases, ==-refl, eq_of_==,
}
use dockyard.Worktree.{Platform, WorktreePhase}
use dockyard.Worktree.Records.{WorktreeRecord, WorktreeRequest, WorktreeReservation, check_record}
use dockyard.Worktree.Store.{WorktreeStore, advance_record, create_record, reserve, write_file}
use dockyard.Worktree.Moves.{RecordGrows, RecordGrows-refl, RecordGrows-trans}
use dockyard.Worktree.Changes.{Advance, advance_record-Advance, moved, replayed}
use dockyard.Worktree.Saves.{
  Created, Reserved, again, create_record-Created, found, fresh, reserve-Reserved, wrote,
}

module _ (os : Platform) where
  pub data Step (s t : WorktreeStore) : Type 0 where
    reserves :
        (root : String) (q : WorktreeRequest) (r : WorktreeReservation)
        → reserve os root s q ≡ returns (t, r)
        → Step s t
    -- A record is one that its constructor accepted.
    creates :
        (r x : WorktreeRecord)
        → check_record os r ≡ returns tt
        → create_record os s r ≡ returns (t, x)
        → Step s t
    advances :
        (id : String) (expected target : WorktreePhase) (inventory at : String)
        (head : Option String) (r : WorktreeRecord)
        → advance_record os s id expected target inventory at head ≡ returns (t, r)
        → Step s t

  pub data Reach (s : WorktreeStore) : WorktreeStore → Type 0 where
    here : Reach s s
    next : {t u : WorktreeStore} → Reach s t → Step t u → Reach s u

pub write_file-own :
    {A : Type 0} (id : String) (a : A) (f : String → Option A) → write_file id a f id ≡ some a
unfolding write_file
write_file-own id a f = rw (==-refl id) refl

pub write_file-other :
    {A : Type 0} (id i : String) (a : A) (f : String → Option A)
    → (i == id) ≡ false
    → write_file id a f i ≡ f i
unfolding write_file
write_file-other id i a f h = rw h refl

-- What every operation keeps.
pub record Progress (s t : WorktreeStore) : Type 0 where
  pub reservations_kept :
      (id : String) (v : WorktreeReservation)
      → s.reservations id ≡ some v
      → t.reservations id ≡ some v
  pub records_grow :
      (id : String) (a : WorktreeRecord)
      → s.records id ≡ some a
      → (b : WorktreeRecord) × (t.records id ≡ some b) × RecordGrows a b

Progress-refl : (s : WorktreeStore) → Progress s s
Progress-refl s = record {
  reservations_kept = λ id v h. h;
  records_grow = λ id a h. (a, h, RecordGrows-refl a);
}

Progress-trans : (s t u : WorktreeStore) → Progress s t → Progress t u → Progress s u
Progress-trans s t u g h = record {
  reservations_kept = λ id v e. h.reservations_kept id v (g.reservations_kept id v e);
  records_grow = λ id a e.
      let (b, there, grown) = g.records_grow id a e in
      let (c, now, more) = h.records_grow id b there in
      (c, now, RecordGrows-trans a b c grown more);
}

reservation-Progress :
    (s : WorktreeStore) (id : String) (v : WorktreeReservation)
    → s.reservations id ≡ none
    → Progress s (record s { reservations = write_file id v s.reservations })
reservation-Progress s id v empty = record {
  reservations_kept = λ i w h. elim (Bool-cases (i == id)) [
    | inl own ↦
        let e = sym empty ∙ ap s.reservations (sym (eq_of_== i id own)) ∙ h in
        absurd (ground (arith))
    | inr other ↦ write_file-other id i v s.reservations other ∙ h
  ];
  records_grow = λ i a h. (a, h, RecordGrows-refl a);
}

-- A record is written where none was, or where an earlier one was.
record-Progress :
    (s : WorktreeStore) (id : String) (r : WorktreeRecord)
    → ((a : WorktreeRecord) → s.records id ≡ some a → RecordGrows a r)
    → Progress s (record s { records = write_file id r s.records })
record-Progress s id r later = record {
  reservations_kept = λ i v h. h;
  records_grow = λ i a h. elim (Bool-cases (i == id)) [
    | inl own ↦
        let same = eq_of_== i id own in
        (
          r,
          ap (write_file id r s.records) same ∙ write_file-own id r s.records,
          later a (ap s.records (sym same) ∙ h),
        )
    | inr other ↦ (a, write_file-other id i r s.records other ∙ h, RecordGrows-refl a)
  ];
}

pub some-injective : {A : Type 0} {o : Option A} {a b : A} → o ≡ some a → o ≡ some b → a ≡ b
some-injective {o = none} h k = absurd (ground (arith))
some-injective {o = some x} h k = ground (arith)

module _ (os : Platform) where
  Reserved-Progress :
      (s t : WorktreeStore) (id : String) (r : WorktreeReservation)
      → Reserved os s t id r
      → Progress s t
  Reserved-Progress s t id r (wrote empty is own loads) = rw is (reservation-Progress s id r empty)
  Reserved-Progress s t id r (found there is) = rw is (Progress-refl s)

  Created-Progress :
      (s t : WorktreeStore) (r x : WorktreeRecord) → Created os s t r x → Progress s t
  Created-Progress s t r x (fresh v empty there bound is same loads) =
      rw is (
        record-Progress s r.worktree_id r (λ a h. let e = sym empty ∙ h in absurd (ground (arith))))
  Created-Progress s t r x (again there is) = rw is (Progress-refl s)

  Advance-Progress :
      (s t : WorktreeStore) (id : String) (target : WorktreePhase) (c r : WorktreeRecord)
      → s.records id ≡ some c
      → Advance os s t id target c r
      → Progress s t
  Advance-Progress s t id target c r stored (replayed is same) = rw is (Progress-refl s)
  Advance-Progress s t id target c r stored (moved is grown step loads) =
      rw is (
        record-Progress s id r
          (λ a h. subst (λ x. RecordGrows x r) (some-injective stored h) grown))

  Step-Progress : (s t : WorktreeStore) → Step os s t → Progress s t
  Step-Progress s t (reserves root q r h) =
      Reserved-Progress s t q.expected_worktree_id r (reserve-Reserved os root s t q r h)
  Step-Progress s t (creates r x valid h) =
      Created-Progress s t r x (create_record-Created os s t r x valid h).0
  Step-Progress s t (advances id expected target inventory at head r h) =
      let (c, stored, loaded, phase, outcome) =
        advance_record-Advance os s t id expected target inventory at head r h in
      Advance-Progress s t id target c r stored outcome

  -- Whatever operations run in whatever order, with whatever arguments, from any store: every
  -- reservation stays as it is; every record stays, with the same ids, repository, path, branch,
  -- base commit, task, revision, attempt and dispatch, in no earlier phase, and a time that was
  -- set is unchanged.
  pub Reach-Progress : {s t : WorktreeStore} → Reach os s t → Progress s t
  Reach-Progress here = Progress-refl _
  Reach-Progress (next before step) =
      Progress-trans _ _ _ (Reach-Progress before) (Step-Progress _ _ step)
