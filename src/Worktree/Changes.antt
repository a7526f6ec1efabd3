-- ===== src/Worktree/Changes.antt =====
-- What the operations of the store in skills/agentdesk/scripts/worktree_lifecycle_store.py leave
-- as it is.

use dockyard.Base.{
  ◌+◌, ◌≡◌, refl, sym, ap, subst, ◌∙◌, ◌==◌, comparable_number, comparable_string, String, ◌&&◌,
  Option, none, some, returns, or_raise, arith, inl, inr, Bool-cases, peel, past, guarded,
  returned_same, eq_of_==,
}
use dockyard.Worktree.{
  Platform, WorktreeError, WorktreePhase, check_digest, check_safe_id, check_timestamp_text,
  comparable_phase, comparable_action, creating, not_found_error, position, ready, released,
  releasing, reserved,
}
use dockyard.Worktree.Records.{WorktreeRecord, check_record, fields_digest, record_fields}
use dockyard.Worktree.Store.{
  WorktreeStore, advance_current, advance_record, load_record, moved_to, read_record, stamp,
  with_head, write_file,
}
use dockyard.Worktree.Moves.{
  RecordGrows, load_record-same, moved-RecordGrows, store_advanced-writes, with_head-returns,
}

pub or_raise-some :
    {A : Type 0} (o : Option A) (e : WorktreeError) (a : A) → or_raise o e ≡ returns a → o ≡ some a
or_raise-some none e a h = absurd (ground (arith))
or_raise-some (some b) e a h = ground (arith)

stamp-phase :
    (target : WorktreePhase) (at : String) (r : WorktreeRecord)
    → (stamp target at r).phase ≡ r.phase
unfolding stamp
stamp-phase reserved at r = refl
stamp-phase creating at r = refl
stamp-phase ready at r = refl
stamp-phase releasing at r = refl
stamp-phase released at r = refl

pub moved_to-phase :
    (target : WorktreePhase) (inventory at : String) (r : WorktreeRecord)
    → (moved_to target inventory at r).phase ≡ target
unfolding moved_to
moved_to-phase target inventory at r =
    stamp-phase target at (record r { phase = target; inventory_digest = inventory })

module _ (os : Platform) where
  pub read_record-stored :
      (s : WorktreeStore) (id : String) (r : WorktreeRecord)
      → read_record os s id ≡ returns r
      → (s.records id ≡ some r) × (load_record os r ≡ returns r)
  unfolding read_record
  read_record-stored s id r h =
      let (f, found, loaded) =
        peel (or_raise (s.records id) (not_found_error "evidence_missing")) _ r
          (past (check_safe_id os id "evidence_worktree_id" "WT-") _ r h) in
      let (same, valid, digest) = load_record-same os f r loaded in
      (
        or_raise-some (s.records id) _ f found ∙ ap some (sym same),
        subst (λ x. load_record os x ≡ returns r) (sym same) loaded,
      )

  -- The outcome of an advance at the record `c`.
  pub data Advance (s t : WorktreeStore) (id : String) (target : WorktreePhase)
      (c r : WorktreeRecord) : Type 0 where
    replayed : t ≡ s → r ≡ c → Advance s t id target c r
    moved :
        t ≡ record s { records = write_file id r s.records }
        → RecordGrows c r
        → position target ≡ position c.phase + 1
        → load_record os r ≡ returns r
        → Advance s t id target c r

  advance_current-Advance :
      (s t : WorktreeStore) (id : String) (expected target : WorktreePhase) (inventory at : String)
      (head : Option String) (c r : WorktreeRecord)
      → check_record os c ≡ returns tt
      → advance_current os s id expected target inventory at head c ≡ returns (t, r)
      → (r.phase ≡ target) × Advance s t id target c r
  unfolding advance_current
  advance_current-Advance s t id expected target inventory at head c r valid h =
      elim (Bool-cases (c.phase == target)) [
        | inl same ↦
            let pair = returned_same (returns (s, c)) refl (rw same at h) in
            let is : c ≡ r = ap (λ p. p.1) pair in
            (
              ap (λ x. x.phase) (sym is) ∙ eq_of_== c.phase target same,
              replayed (sym (ap (λ p. p.0) pair)) (sym is),
            )
        | inr other ↦
            let step = rw other at h in
            let (order, rest) =
              guarded (c.phase == expected && position target == position expected + 1) _ _ step in
            let (headed, put, write) = peel (with_head head c) _ (t, r) rest in
            let (hash, is_headed) = with_head-returns os head c headed put in
            let (wrote, is, loads, checked) =
              store_advanced-writes os s t id (moved_to target inventory at headed) r write in
            let from : c.phase ≡ expected = ground (arith) in
            let one : position target ≡ position expected + 1 = ground (arith) in
            let next : position target ≡ position c.phase + 1 =
              one ∙ ap (λ p. position p + 1) (sym from) in
            let digest = fields_digest os (record_fields (moved_to target inventory at headed)) in
            let grown = moved-RecordGrows os c target inventory at hash digest valid next in
            let made =
              ap (λ z. record (moved_to target inventory at z) { content_digest = digest })
                (sym is_headed)
              ∙ sym is in
            (
              ap (λ x. x.phase) is ∙ moved_to-phase target inventory at headed,
              moved wrote (subst (λ x. RecordGrows c x) made grown) next loads,
            )
      ]

  pub advance_record-Advance :
      (s t : WorktreeStore) (id : String) (expected target : WorktreePhase) (inventory at : String)
      (head : Option String) (r : WorktreeRecord)
      → advance_record os s id expected target inventory at head ≡ returns (t, r)
      → (c : WorktreeRecord) × (s.records id ≡ some c)
        × (load_record os c ≡ returns c)
        × (r.phase ≡ target)
        × Advance s t id target c r
  unfolding advance_record
  advance_record-Advance s t id expected target inventory at head r h =
      let identified = past (check_safe_id os id "advance_worktree_id" "WT-") _ (t, r) h in
      let digested = past (check_digest inventory "advance_inventory_digest") _ (t, r) identified in
      let timed = past (check_timestamp_text at "operation_at") _ (t, r) digested in
      let (c, read, rest) = peel (read_record os s id) _ (t, r) timed in
      let (stored, loaded) = read_record-stored s id c read in
      let (_, valid, _) = load_record-same os c c loaded in
      let (phase, outcome) =
        advance_current-Advance s t id expected target inventory at head c r valid rest in
      (c, stored, loaded, phase, outcome)
