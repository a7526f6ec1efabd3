-- ===== src/Worktree/Sound.antt =====
-- What the files of a reached store in skills/agentdesk/scripts/worktree_lifecycle_store.py say.
use dockyard.Base.{
  ◌≤◌, ◌≡◌, refl, sym, ap, ◌∙◌, ◌==◌, comparable_string, String, true, some, returns, arith, inl,
  inr, Bool-cases, eq_of_==,
}
use dockyard.Worktree.{Platform, WorktreePhase, creating, position}
use dockyard.Worktree.Records.{WorktreeRecord, WorktreeReservation}
use dockyard.Worktree.Store.{WorktreeStore, is_bound, load_record, load_reservation, write_file}
use dockyard.Worktree.Moves.{without_progress}
use dockyard.Worktree.Changes.{Advance, advance_record-Advance, moved, replayed}
use dockyard.Worktree.Saves.{
  Created, Reserved, again, create_record-Created, found, fresh, reserve-Reserved, wrote,
}
use dockyard.Worktree.History.{
  Reach, Step, advances, creates, here, next, reserves, some-injective, write_file-other,
  write_file-own,
}

-- The same worktree is bound to the same reservation.
same-is_bound :
    (a b : WorktreeRecord) (v : WorktreeReservation)
    → without_progress b ≡ without_progress a
    → is_bound b v ≡ is_bound a v
unfolding is_bound without_progress
same-is_bound a b v same = ap (λ r. is_bound r v) same

module _ (os : Platform) where
  -- A file stands under its worktree's id and can be read, and a record has its reservation.
  pub record IsSound (s : WorktreeStore) : Type 0 where
    pub reservations_sound :
        (id : String) (v : WorktreeReservation)
        → s.reservations id ≡ some v
        → (v.worktree_id ≡ id) × (load_reservation os v ≡ returns v)
    pub records_sound :
        (id : String) (r : WorktreeRecord)
        → s.records id ≡ some r
        → (r.worktree_id ≡ id) × (load_record os r ≡ returns r)
    pub records_bound :
        (id : String) (r : WorktreeRecord)
        → s.records id ≡ some r
        → (v : WorktreeReservation) × (s.reservations id ≡ some v) × (is_bound r v ≡ true)
    pub records_begun :
        (id : String) (r : WorktreeRecord) → s.records id ≡ some r → 1 ≤ position r.phase

  Reserved-IsSound :
      (s t : WorktreeStore) (id : String) (r : WorktreeReservation)
      → IsSound s
      → Reserved os s t id r
      → IsSound t
  Reserved-IsSound s t id r sound (found there is) = rw is sound
  Reserved-IsSound s t id r sound (wrote empty is own loads) = rw is (record {
    reservations_sound = λ i v h. elim (Bool-cases (i == id)) [
      | inl same ↦
          let e = eq_of_== i id same in
          let w : r ≡ v =
            some-injective (write_file-own id r s.reservations)
              (ap (write_file id r s.reservations) (sym e) ∙ h) in
          rw (← w, e) (own, loads)
      | inr other ↦
          sound.reservations_sound i v (sym (write_file-other id i r s.reservations other) ∙ h)
    ];
    records_sound = sound.records_sound;
    records_begun = sound.records_begun;
    records_bound = λ i a h. elim (Bool-cases (i == id)) [
      | inl same ↦
          let e = eq_of_== i id same in
          let (v, there, bound) = sound.records_bound i a h in
          let absent = sym empty ∙ ap s.reservations (sym e) ∙ there in absurd (ground (arith))
      | inr other ↦
          let (v, there, bound) = sound.records_bound i a h in
          (v, write_file-other id i r s.reservations other ∙ there, bound)
    ];
  })

  -- Writing a record that can be read, under its id, bound to the reservation there.
  write_record-IsSound :
      (s : WorktreeStore) (id : String) (r : WorktreeRecord) (v : WorktreeReservation)
      → IsSound s
      → r.worktree_id ≡ id
      → load_record os r ≡ returns r
      → s.reservations id ≡ some v
      → is_bound r v ≡ true
      → 1 ≤ position r.phase
      → IsSound (record s { records = write_file id r s.records })
  write_record-IsSound s id r v sound own loads there bound begun = record {
    reservations_sound = sound.reservations_sound;
    records_sound = λ i a h. elim (Bool-cases (i == id)) [
      | inl same ↦
          let e = eq_of_== i id same in
          let w : r ≡ a =
            some-injective (write_file-own id r s.records)
              (ap (write_file id r s.records) (sym e) ∙ h) in
          rw (← w, e) (own, loads)
      | inr other ↦ sound.records_sound i a (sym (write_file-other id i r s.records other) ∙ h)
    ];
    records_begun = λ i a h. elim (Bool-cases (i == id)) [
      | inl same ↦
          let w : r ≡ a =
            some-injective (write_file-own id r s.records)
              (ap (write_file id r s.records) (sym (eq_of_== i id same)) ∙ h) in
          rw (← w) begun
      | inr other ↦ sound.records_begun i a (sym (write_file-other id i r s.records other) ∙ h)
    ];
    records_bound = λ i a h. elim (Bool-cases (i == id)) [
      | inl same ↦
          let e = eq_of_== i id same in
          let w : r ≡ a =
            some-injective (write_file-own id r s.records)
              (ap (write_file id r s.records) (sym e) ∙ h) in
          (v, ap s.reservations e ∙ there, rw (← w) bound)
      | inr other ↦ sound.records_bound i a (sym (write_file-other id i r s.records other) ∙ h)
    ];
  }

  Created-IsSound :
      (s t : WorktreeStore) (r x : WorktreeRecord)
      → IsSound s
      → r.phase ≡ creating
      → Created os s t r x
      → IsSound t
  unfolding position
  Created-IsSound s t r x sound begun (again there is) = rw is sound
  Created-IsSound s t r x sound begun (fresh v empty there bound is same loads) = rw is (
      write_record-IsSound s r.worktree_id r v sound refl loads there bound
        (rw begun (omega arith)))

  Advance-IsSound :
      (s t : WorktreeStore) (id : String) (target : WorktreePhase) (c r : WorktreeRecord)
      → IsSound s
      → s.records id ≡ some c
      → Advance os s t id target c r
      → IsSound t
  unfolding without_progress
  Advance-IsSound s t id target c r sound stored (replayed is same) = rw is sound
  Advance-IsSound s t id target c r sound stored (moved is grown step loads) =
      let (v, there, bound) = sound.records_bound id c stored in
      let own = ap (λ x. x.worktree_id) grown.identity ∙ (sound.records_sound id c stored).0 in
      rw is (
        write_record-IsSound s id r v sound own loads there
          (same-is_bound c r v grown.identity ∙ bound)
          (let p = grown.phase_kept in let q = sound.records_begun id c stored in omega arith))

  pub Step-IsSound : (s t : WorktreeStore) → IsSound s → Step os s t → IsSound t
  Step-IsSound s t sound (reserves root q r h) =
      Reserved-IsSound s t q.expected_worktree_id r sound (reserve-Reserved os root s t q r h)
  Step-IsSound s t sound (creates r x valid h) =
      let (outcome, begun) = create_record-Created os s t r x valid h in
      Created-IsSound s t r x sound begun outcome
  Step-IsSound s t sound (advances id expected target inventory at head r h) =
      let (c, stored, loaded, phase, outcome) =
        advance_record-Advance os s t id expected target inventory at head r h in
      Advance-IsSound s t id target c r sound stored outcome

  -- Soundness is kept by every sequence of operations: each file stands under its worktree id and
  -- passes the checks and the digest of its decoder; each record has a reservation with its
  -- reservation id, path, branch and base commit; and no record is in phase RESERVED.
  pub Reach-IsSound : {s t : WorktreeStore} → IsSound s → Reach os s t → IsSound t
  Reach-IsSound sound here = sound
  Reach-IsSound sound (next before step) = Step-IsSound _ _ (Reach-IsSound sound before) step
