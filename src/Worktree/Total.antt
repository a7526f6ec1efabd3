-- ===== src/Worktree/Total.antt =====
-- Advances of a stored record in skills/agentdesk/scripts/worktree_lifecycle_store.py succeed.
use dockyard.Base.Text.{◌<>◌}
use dockyard.Base.{
  ℕ, ◌+◌, ◌≡◌, refl, sym, ap, ◌∙◌, ◌==◌, comparable_number, comparable_string, String, true, false,
  List, Option, none, some, returns, arith, inl, inr, Bool-cases, first_returns, guarded, and_next,
  ==-refl, eq_of_==, ℕ_discrete,
}
use dockyard.Portfolio.Codec.{Line, Scalar}
use dockyard.Worktree.{
  Platform, WorktreePhase, check_digest, check_safe_id, check_sha40, check_timestamp_text,
  comparable_phase, creating, position, ready, released, releasing, reserved, schema_version,
}
use dockyard.Worktree.Records.{
  WorktreeRecord, check_identity, document_text, encode_record, fields_digest, record_fields,
  with_record_digest, zero_digest,
}
use dockyard.Worktree.Store.{
  WorktreeStore, advance_current, advance_record, load_record, moved_to, read_record, record_file,
  stamp, store_advanced, with_head, write_file,
}
use dockyard.Worktree.Moves.{load_record-same}
use dockyard.Worktree.Changes.{moved_to-phase}
use dockyard.Worktree.Sound.{IsSound}
use dockyard.Worktree.Checks.{
  Checked, Checked-check_record, check_digest-name, check_record-Checked, check_safe_id-name,
  check_sha40-name, moved-Checked,
}

module _ (os : Platform) where
  encode_record-own :
      (r : WorktreeRecord)
      → r.content_digest ≡ fields_digest os (record_fields r)
      → (file : Line) × (encode_record os r ≡ returns file)
  unfolding encode_record record_file
  encode_record-own r own =
      (record_file r, rw (own, ==-refl (fields_digest os (record_fields r))) refl)

  fields_apart :
      (r : WorktreeRecord) (d : String)
      → record_fields r ≡ record_fields (record r { content_digest = d })
  unfolding record_fields
  fields_apart r d = refl

  zero_digest-valid : check_digest zero_digest "record_digest" ≡ returns tt
  unfolding check_digest ℕ_discrete
  zero_digest-valid = refl

  -- The record under its own digest.
  abbrev pub digested : WorktreeRecord → WorktreeRecord
  digested u = record u { content_digest = fields_digest os (record_fields u) }

  with_record_digest-total :
      (u : WorktreeRecord)
      → check_digest (fields_digest os (record_fields u)) "record_digest" ≡ returns tt
      → ((d : String)
          → check_digest d "record_digest" ≡ returns tt
          → Checked os (record u { content_digest = d }))
      → with_record_digest os u ≡ returns (digested u)
  unfolding with_record_digest
  with_record_digest-total u hash ok =
      let blank = record u { content_digest = zero_digest } in
      and_next (Checked-check_record os blank (ok zero_digest zero_digest-valid)) (
        and_next
          (Checked-check_record os (digested u) (ok (fields_digest os (record_fields u)) hash))
          refl)

  store_advanced-total :
      (s : WorktreeStore) (id : String) (u : WorktreeRecord)
      → check_digest (fields_digest os (record_fields u)) "record_digest" ≡ returns tt
      → ((d : String)
          → check_digest d "record_digest" ≡ returns tt
          → Checked os (record u { content_digest = d }))
      → check_digest u.content_digest "record_digest" ≡ returns tt
      → store_advanced os s id u
        ≡ returns (record s { records = write_file id (digested u) s.records }, digested u)
  unfolding store_advanced
  store_advanced-total s id u hash ok old =
      let made = with_record_digest-total u hash ok in
      let own = ap (fields_digest os) (fields_apart u (fields_digest os (record_fields u))) in
      let (file, encoded) = encode_record-own (digested u) own in
      and_next (Checked-check_record os u (ok u.content_digest old)) (rw (made, encoded) refl)

  moved_to-digest :
      (target : WorktreePhase) (inventory at : String) (c : WorktreeRecord)
      → (moved_to target inventory at c).content_digest ≡ c.content_digest
  unfolding moved_to stamp
  moved_to-digest reserved inventory at c = refl
  moved_to-digest creating inventory at c = refl
  moved_to-digest ready inventory at c = refl
  moved_to-digest releasing inventory at c = refl
  moved_to-digest released inventory at c = refl

  with_head-total :
      (head : Option String) (c : WorktreeRecord)
      → check_sha40 c.head_commit "record_head" ≡ returns tt
      → ((h : String) → head ≡ some h → check_sha40 h "advance_head" ≡ returns tt)
      → (h : String) × (with_head head c ≡ returns (record c { head_commit = h }))
        × (check_sha40 h "record_head" ≡ returns tt)
  unfolding with_head
  with_head-total none c old new = (c.head_commit, refl, old)
  with_head-total (some h) c old new =
      (h, and_next (new h refl) refl, check_sha40-name h "advance_head" "record_head" (new h refl))

  read_record-total :
      (s : WorktreeStore) (id : String) (c : WorktreeRecord)
      → check_safe_id os id "record_worktree_id" "WT-" ≡ returns tt
      → s.records id ≡ some c
      → load_record os c ≡ returns c
      → read_record os s id ≡ returns c
  unfolding read_record
  read_record-total s id c safe stored loads =
      and_next (check_safe_id-name os id "record_worktree_id" "evidence_worktree_id" "WT-" safe)
        (rw (stored, loads) refl)

  Checked-safe_id :
      (r : WorktreeRecord)
      → Checked os r
      → check_safe_id os r.worktree_id "record_worktree_id" "WT-" ≡ returns tt
  unfolding check_identity
  Checked-safe_id r c =
      let rest = (guarded (r.record_schema == schema_version) _ _ c.identity).1 in
      first_returns (check_safe_id os r.worktree_id "record_worktree_id" "WT-") _ tt rest

  advance_current-total :
      (s : WorktreeStore) (id : String) (target : WorktreePhase) (inventory at : String)
      (head : Option String) (c u : WorktreeRecord) (x : WorktreeStore × WorktreeRecord)
      → position target ≡ position c.phase + 1
      → with_head head c ≡ returns u
      → store_advanced os s id (moved_to target inventory at u) ≡ returns x
      → advance_current os s id c.phase target inventory at head c ≡ returns x
  unfolding advance_current
  advance_current-total s id target inventory at head c u x step headed written =
      let other : (c.phase == target) ≡ false = elim (Bool-cases (c.phase == target)) [
        | inl t ↦ let e = ap position (eq_of_== c.phase target t) in absurd (omega (arith, e))
        | inr f ↦ f
      ] in
      let next : (position target == position c.phase + 1) ≡ true = ground (arith) in
      rw (other, ==-refl c.phase, next, headed) written

  fields_digest-valid :
      ((cs : List ℕ) → check_digest ("sha256:" <> os.sha256 cs) "record_digest" ≡ returns tt)
      → (fields : List (String × Scalar))
      → check_digest (fields_digest os fields) "record_digest" ≡ returns tt
  unfolding fields_digest
  fields_digest-valid hashes fields = hashes (document_text fields)

  -- On a sound store, if digests of hashlib are 64 hexadecimal digits, advance_record with the
  -- stored phase, the phase after it, a well-formed inventory digest and time and no head or a
  -- well-formed one returns the record in the next phase, with its time and its own digest, and
  -- writes it: no check of the constructor, which runs three times, fails.
  pub advance_record-total :
      (s : WorktreeStore) (id : String) (target : WorktreePhase) (inventory at : String)
      (head : Option String) (c : WorktreeRecord)
      → ((cs : List ℕ) → check_digest ("sha256:" <> os.sha256 cs) "record_digest" ≡ returns tt)
      → IsSound os s
      → s.records id ≡ some c
      → position target ≡ position c.phase + 1
      → check_digest inventory "advance_inventory_digest" ≡ returns tt
      → check_timestamp_text at "operation_at" ≡ returns tt
      → ((h : String) → head ≡ some h → check_sha40 h "advance_head" ≡ returns tt)
      → (h : String) × (let r =
            digested (moved_to target inventory at (record c { head_commit = h })) in
          (advance_record os s id c.phase target inventory at head
            ≡ returns (record s { records = write_file id r s.records }, r))
          × (r.phase ≡ target))
  unfolding advance_record
  advance_record-total s id target inventory at head c hashes sound stored step inv time heads =
      let (own, loads) = sound.records_sound id c stored in
      let ok = check_record-Checked os c (load_record-same os c c loads).1 in
      let (h, headed, hash) = with_head-total head c ok.head heads in
      let u = moved_to target inventory at (record c { head_commit = h }) in
      let inv_named =
        check_digest-name inventory "advance_inventory_digest" "inventory_digest" inv in
      let checked : (d : String)
          → check_digest d "record_digest" ≡ returns tt
          → Checked os (record u { content_digest = d }) =
        λ d v. moved-Checked os c target inventory at h d ok step inv_named time hash v in
      let old : check_digest u.content_digest "record_digest" ≡ returns tt =
        ap (λ d. check_digest d "record_digest")
          (moved_to-digest target inventory at (record c { head_commit = h }))
        ∙ ok.digest in
      let written =
        store_advanced-total s id u (fields_digest-valid hashes (record_fields u)) checked old in
      let safe : check_safe_id os id "record_worktree_id" "WT-" ≡ returns tt =
        ap (λ i. check_safe_id os i "record_worktree_id" "WT-") (sym own) ∙ Checked-safe_id c ok in
      let read = read_record-total s id c safe stored loads in
      let current =
        advance_current-total s id target inventory at head c (record c { head_commit = h }) _ step
          headed written in
      (
        h,
        (
          and_next (check_safe_id-name os id "record_worktree_id" "advance_worktree_id" "WT-" safe)
              (and_next inv (and_next time (rw read current))),
          moved_to-phase target inventory at (record c { head_commit = h }),
        ),
      )
