-- ===== src/Worktree/Stages.antt =====
-- The store in skills/agentdesk/scripts/worktree_lifecycle_store.py as an automaton of stages.
use dockyard.Base.{
  ◌+◌, ◌≤◌, ◌≡◌, refl, sym, ap, ◌∙◌, ◌==◌, comparable_string, String, Option, none, some, arith,
  ◌⊎◌, inl, inr, Bool-cases, Option-cases, eq_of_==,
}
use dockyard.Worktree.{
  Platform, WorktreePhase, creating, position, ready, released, releasing, reserved,
}
use dockyard.Worktree.Records.{WorktreeRecord, WorktreeReservation}
use dockyard.Worktree.Store.{WorktreeStore, write_file}
use dockyard.Worktree.Changes.{Advance, advance_record-Advance, moved, replayed}
use dockyard.Worktree.Saves.{
  Created, Reserved, again, create_record-Created, found, fresh, reserve-Reserved, wrote,
}
use dockyard.Worktree.History.{Step, advances, creates, reserves, write_file-other, write_file-own}
use dockyard.Worktree.Sound.{IsSound}

-- How far a worktree is: unknown, reserved without a record, or in the phase of its record.
pub data Stage : Type 0 where
  unknown promised : Stage
  in_phase : WorktreePhase → Stage

-- The only ways on.
pub data Onward : Stage → Stage → Type 0 where
  promise : Onward unknown promised
  begin : Onward promised (in_phase creating)
  ready_now : Onward (in_phase creating) (in_phase ready)
  release_asked : Onward (in_phase ready) (in_phase releasing)
  release_done : Onward (in_phase releasing) (in_phase released)

unfoldable pub stage_of : Option WorktreeRecord → Option WorktreeReservation → Stage
stage_of none none = unknown
stage_of none (some v) = promised
stage_of (some r) v = in_phase r.phase

abbrev pub stage : WorktreeStore → String → Stage
stage s id = stage_of (s.records id) (s.reservations id)

onward :
    (p q : WorktreePhase)
    → 1 ≤ position p
    → position q ≡ position p + 1
    → Onward (in_phase p) (in_phase q)
unfolding position
onward reserved q begun h = absurd (omega (arith, begun))
onward creating ready begun h = ready_now
onward ready releasing begun h = release_asked
onward releasing released begun h = release_done
onward creating reserved begun h = absurd (omega (arith, h))
onward creating creating begun h = absurd (omega (arith, h))
onward creating releasing begun h = absurd (omega (arith, h))
onward creating released begun h = absurd (omega (arith, h))
onward ready reserved begun h = absurd (omega (arith, h))
onward ready creating begun h = absurd (omega (arith, h))
onward ready ready begun h = absurd (omega (arith, h))
onward ready released begun h = absurd (omega (arith, h))
onward releasing reserved begun h = absurd (omega (arith, h))
onward releasing creating begun h = absurd (omega (arith, h))
onward releasing ready begun h = absurd (omega (arith, h))
onward releasing releasing begun h = absurd (omega (arith, h))
onward released reserved begun h = absurd (omega (arith, h))
onward released creating begun h = absurd (omega (arith, h))
onward released ready begun h = absurd (omega (arith, h))
onward released releasing begun h = absurd (omega (arith, h))
onward released released begun h = absurd (omega (arith, h))

module _ (os : Platform) where
  Reserved-Onward :
      (s t : WorktreeStore) (id : String) (r : WorktreeReservation)
      → IsSound os s
      → Reserved os s t id r
      → (i : String) → (stage t i ≡ stage s i) ⊎ Onward (stage s i) (stage t i)
  unfolding stage_of
  Reserved-Onward s t id r sound (found there is) i = inl (ap (λ u. stage u i) is)
  Reserved-Onward s t id r sound (wrote empty is own loads) i = rw is (elim (Bool-cases (i == id)) [
    | inl same ↦
        let e = eq_of_== i id same in
        let after : write_file id r s.reservations i ≡ some r =
          ap (write_file id r s.reservations) e ∙ write_file-own id r s.reservations in
        let before : s.reservations i ≡ none = ap s.reservations e ∙ empty in
        elim (Option-cases (s.records i)) [
          | inl none_yet ↦ inr (rw (after, before, none_yet) promise)
          | inr (a, h) ↦
              let (v, there, bound) = sound.records_bound i a h in
              let absent = sym before ∙ there in absurd (ground (arith))
        ]
    | inr other ↦ inl (rw (write_file-other id i r s.reservations other) refl)
  ])

  record-Onward :
      (s : WorktreeStore) (id : String) (r : WorktreeRecord)
      → Onward (stage s id) (in_phase r.phase)
      → (i : String)
      → (stage (record s { records = write_file id r s.records }) i ≡ stage s i)
        ⊎ Onward (stage s i) (stage (record s { records = write_file id r s.records }) i)
  unfolding stage_of
  record-Onward s id r on i = elim (Bool-cases (i == id)) [
    | inl same ↦
        let e = eq_of_== i id same in
        let after : write_file id r s.records i ≡ some r =
          ap (write_file id r s.records) e ∙ write_file-own id r s.records in
        inr (rw (after, e) on)
    | inr other ↦ inl (rw (write_file-other id i r s.records other) refl)
  ]

  Created-Onward :
      (s t : WorktreeStore) (r x : WorktreeRecord)
      → r.phase ≡ creating
      → Created os s t r x
      → (i : String) → (stage t i ≡ stage s i) ⊎ Onward (stage s i) (stage t i)
  unfolding stage_of
  Created-Onward s t r x begun (again there is) i = inl (ap (λ u. stage u i) is)
  Created-Onward s t r x begun (fresh v empty there bound is same loads) i =
      rw is (record-Onward s r.worktree_id r (rw (empty, there, begun) begin) i)

  Advance-Onward :
      (s t : WorktreeStore) (id : String) (target : WorktreePhase) (c r : WorktreeRecord)
      → IsSound os s
      → s.records id ≡ some c
      → r.phase ≡ target
      → Advance os s t id target c r
      → (i : String) → (stage t i ≡ stage s i) ⊎ Onward (stage s i) (stage t i)
  unfolding stage_of
  Advance-Onward s t id target c r sound stored phase (replayed is same) i =
      inl (ap (λ u. stage u i) is)
  Advance-Onward s t id target c r sound stored phase (moved is grown step loads) i =
      let begun = sound.records_begun id c stored in
      rw is (record-Onward s id r (rw (stored, phase) (onward c.phase target begun step)) i)

  -- The store refines an automaton: on a sound store, an operation that returns leaves every
  -- worktree in its stage or moves it one stage on (unknown, reserved, CREATING, READY,
  -- RELEASING, RELEASED), so no stage is skipped and none comes back.
  pub Step-Onward :
      (s t : WorktreeStore)
      → IsSound os s
      → Step os s t
      → (id : String) → (stage t id ≡ stage s id) ⊎ Onward (stage s id) (stage t id)
  Step-Onward s t sound (reserves root q r h) id =
      Reserved-Onward s t q.expected_worktree_id r sound (reserve-Reserved os root s t q r h) id
  Step-Onward s t sound (creates r x valid h) id =
      let (outcome, begun) = create_record-Created os s t r x valid h in
      Created-Onward s t r x begun outcome id
  Step-Onward s t sound (advances other expected target inventory at head r h) id =
      let (c, stored, loaded, phase, outcome) =
        advance_record-Advance os s t other expected target inventory at head r h in
      Advance-Onward s t other target c r sound stored phase outcome id
