-- ===== src/Worktree/Roundtrip.antt =====
-- The encoder and the decoder of a record in
-- skills/agentdesk/scripts/worktree_lifecycle_store.py, one after the other.
use mathlib.Core.List.{map}
use dockyard.Base.Text.{codes, list_eq, Printable, Printable-of_any}
use dockyard.Base.{
  ◌≡◌, refl, sym, ◌==◌, comparable_string, eq_of_==, String, true, false, List, [], ◌∷◌, All,
  All-map, All-of_any, any, ltb, Option, none, some, returns, ◌>>=◌, ◌>>◌, require, guarded, peel,
  bind_next, ◌&◌, ℕ_discrete,
}
use dockyard.Portfolio.Codec.{Line, Scalar, text, optional}
use dockyard.Portfolio.Codec.RoundTrip.{list_eq_refl, eq_of_list_eq}
use dockyard.Worktree.{
  Platform, WorktreePhase, check_optional_timestamp, creating, phase_text, ready, released,
  releasing, reserved, schema_error, schema_version,
}
use dockyard.Worktree.Records.{
  WorktreeRecord, check_record, document_text, encode_record, fields_digest, record_fields,
}
use dockyard.Worktree.Checks.{check_record-Checked}
use dockyard.Worktree.Printing.{
  check_branch-Printable, check_digest-Printable, check_path-Printable, check_safe_id-Printable,
  check_sha40-Printable, check_timestamp_text-Printable, matches_task-Printable,
}
use dockyard.Worktree.Document.{has_start, document}
use dockyard.Portfolio.Codec.Printed.{IsPlain}
use dockyard.Worktree.Document.Lines.{IsPlainField, name_of, value_of, document-document_text}
use dockyard.Worktree.Decoding.{record_keys, decode_record}
use dockyard.Worktree.Decoded.{
  all_fields, check_identity-Identified, check_task-Tasked, record_of-values,
}

pub names-Printable :
    (keys : List String)
    → any (λ k. any (λ c. ltb c 32) (text k)) keys ≡ false
    → All (λ k. Printable (text k)) keys
names-Printable keys h =
    All-map _ _ (λ k. Printable-of_any (text k)) keys
      (All-of_any (λ k. any (λ c. ltb c 32) (text k)) keys h)

pub plain_fields :
    (fields : List (String × Scalar))
    → All (λ k. Printable (text k)) (map name_of fields)
    → All IsPlain (map value_of fields)
    → All IsPlainField fields
plain_fields [] h k = tt
plain_fields (f ∷ fs) h k = ((h.0, k.0), plain_fields fs h.1 k.1)

pub phase_text-Printable : (p : WorktreePhase) → Printable (codes (phase_text p))
unfolding phase_text
phase_text-Printable reserved = Printable-of_any (codes "RESERVED") refl
phase_text-Printable creating = Printable-of_any (codes "CREATING") refl
phase_text-Printable ready = Printable-of_any (codes "READY") refl
phase_text-Printable releasing = Printable-of_any (codes "RELEASING") refl
phase_text-Printable released = Printable-of_any (codes "RELEASED") refl

pub schema-Printable : (s : String) → (s == schema_version) ≡ true → Printable (codes s)
schema-Printable s h =
    let same : s ≡ schema_version = eq_of_== s schema_version h in
    rw same (Printable-of_any (codes schema_version) refl)

optional-IsPlain :
    (o : Option String) (name : String)
    → check_optional_timestamp o name ≡ returns tt
    → IsPlain (optional o)
unfolding check_optional_timestamp
optional-IsPlain none name h = tt
optional-IsPlain (some s) name h = check_timestamp_text-Printable s name h

module _ (os : Platform) where
  all_fields-IsPlain :
      (r : WorktreeRecord) → check_record os r ≡ returns tt → All IsPlainField (all_fields r)
  unfolding record_fields
  all_fields-IsPlain r h =
      let c = check_record-Checked os r h in
      let i = check_identity-Identified os r c.identity in
      let t = check_task-Tasked os r c.task in
      plain_fields (all_fields r) (names-Printable record_keys refl) (
        schema-Printable r.record_schema i.schema
        & check_safe_id-Printable os r.worktree_id "record_worktree_id" "WT-" i.worktree
        & check_safe_id-Printable os r.reservation_id "record_reservation_id" "WTR-" i.reservation
        & check_path-Printable os r.repository_common_dir "record_common_dir" i.common_dir
        & check_path-Printable os r.repository_root "record_root" i.root
        & check_path-Printable os r.worktree_path "record_path" i.path
        & check_branch-Printable os r.branch i.own_branch
        & check_sha40-Printable r.base_commit "record_base" i.base
        & check_sha40-Printable r.head_commit "record_head" c.head
        & matches_task-Printable (codes r.task_id) t.own_task
        & tt
        & tt
        & check_safe_id-Printable os r.dispatch_id "record_dispatch_id" "DSP-" t.dispatched
        & phase_text-Printable r.phase
        & optional-IsPlain r.created_at "created_at" c.created
        & optional-IsPlain r.release_requested_at "release_requested_at" c.requested
        & optional-IsPlain r.released_at "released_at" c.gone
        & check_digest-Printable r.inventory_digest "inventory_digest" c.inventory
        & check_digest-Printable r.content_digest "record_digest" c.digest
        & tt)

  starts : (r : WorktreeRecord) → has_start (document_text (all_fields r)) ≡ true
  unfolding record_fields document_text ℕ_discrete
  starts r = refl

  record_document :
      (r : WorktreeRecord)
      → check_record os r ≡ returns tt
      → document record_keys "record" (document_text (all_fields r))
        ≡ returns (map value_of (all_fields r))
  unfolding record_fields
  record_document r h =
      document-document_text "record" (all_fields r) (all_fields-IsPlain r h) (starts r)

  encode_record-text :
      (r : WorktreeRecord) (file : Line)
      → encode_record os r ≡ returns file
      → file ≡ document_text (all_fields r)
  unfolding encode_record
  encode_record-text r file k =
      let made = (guarded (r.content_digest == fields_digest os (record_fields r)) _ _ k).1 in cc

  -- A file that encode_record makes of a record that passes the checks of its constructor is
  -- decoded to that record.
  pub decode_record-encode_record :
      (r : WorktreeRecord) (file : Line)
      → check_record os r ≡ returns tt
      → encode_record os r ≡ returns file
      → decode_record os file ≡ returns r
  unfolding decode_record
  decode_record-encode_record r file h k =
      let parsed : document record_keys "record" file ≡ returns (map value_of (all_fields r)) =
        rw (encode_record-text r file k) (record_document r h) in
      bind_next _ parsed
        (bind_next _ (record_of-values os r h) (bind_next _ k (rw (list_eq_refl file) refl)))

  same_file :
      (v r : WorktreeRecord) (content : Line)
      → (do
        file ← encode_record os v
        require (list_eq file content) (schema_error "record_noncanonical")
        returns v)
        ≡ returns r
      → (v ≡ r) × (encode_record os r ≡ returns content)
  same_file v r content h =
      let (file, encoded, rest) = peel (encode_record os v) _ r h in
      let (same, is) = guarded (list_eq file content) _ _ rest in
      let own : v ≡ r = cc in (own, rw (sym own, sym (eq_of_list_eq file content same)) encoded)
