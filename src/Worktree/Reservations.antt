-- ===== src/Worktree/Reservations.antt =====
-- The encoder and the decoder of a reservation in
-- skills/agentdesk/scripts/worktree_lifecycle_store.py, one after the other.
use dockyard.Base.Text.{codes}
use dockyard.Base.{
  ◌≡◌, refl, ◌==◌, comparable_string, String, true, List, [], ◌∷◌, ◌++◌, All, map, none, some,
  returns, guarded, first_returns, past, and_next, bind_next, ◌▸⟨◌⟩◌, ◌&◌, ℕ_discrete,
}
use dockyard.Portfolio.Codec.{Line, Scalar, words}
use dockyard.Portfolio.Codec.RoundTrip.{list_eq_refl}
use dockyard.Worktree.{
  Platform, check_branch, check_digest, check_path, check_positive, check_safe_id, check_sha40,
  check_timestamp_text, comparable_phase, input_error, matches_task, reserved, schema_error,
  schema_version,
}
use dockyard.Worktree.Records.{
  WorktreeReservation, check_reservation, document_text, encode_reservation, fields_digest,
  reservation_fields,
}
use dockyard.Worktree.Printing.{
  check_branch-Printable, check_digest-Printable, check_path-Printable, check_safe_id-Printable,
  check_sha40-Printable, check_timestamp_text-Printable, matches_task-Printable,
}
use dockyard.Worktree.Document.{has_start, document}
use dockyard.Worktree.Document.Lines.{IsPlainField, value_of, document-document_text}
use dockyard.Worktree.Decoding.{reservation_keys, reservation_of, decode_reservation}
use dockyard.Worktree.Decoded.{
  checked_branch_of-words, digest_of-words, path_of-words, phase_of-words, positive_of-number,
  safe_id_of-words, schema_of-words, sha_of-words, task_of-words, time_of-words,
}
use dockyard.Worktree.Roundtrip.{
  names-Printable, phase_text-Printable, plain_fields, schema-Printable,
}

-- The fields of a reservation with its digest.
abbrev all_fields : WorktreeReservation → List (String × Scalar)
all_fields r = reservation_fields r ++ (("content_digest", words r.content_digest) ∷ [])

module _ (os : Platform) where
  -- The checks of a reservation, one by one.
  record CheckedReservation (r : WorktreeReservation) : Type 0 where
    pub schema : (r.reservation_schema == schema_version) ≡ true
    pub reservation : check_safe_id os r.reservation_id "reservation_id" "WTR-" ≡ returns tt
    pub worktree : check_safe_id os r.worktree_id "worktree_id" "WT-" ≡ returns tt
    pub common_dir : check_path os r.repository_common_dir "repository_common_dir" ≡ returns tt
    pub root : check_path os r.repository_root "repository_root" ≡ returns tt
    pub path : check_path os r.worktree_path "worktree_path" ≡ returns tt
    pub own_branch : check_branch r.branch ≡ returns tt
    pub base : check_sha40 r.base_commit "base_commit" ≡ returns tt
    pub own_task : matches_task (codes r.task_id) ≡ true
    pub revised : check_positive r.revision "revision" none ≡ returns tt
    pub attempted : check_positive r.attempt "attempt" (some 3) ≡ returns tt
    pub dispatched : check_safe_id os r.dispatch_id "dispatch_id" "DSP-" ≡ returns tt
    pub own_phase : (r.phase == reserved) ≡ true
    pub at : check_timestamp_text r.reserved_at "reserved_at" ≡ returns tt
    pub digest : check_digest r.content_digest "reservation_digest" ≡ returns tt

  check_reservation-Checked :
      (r : WorktreeReservation) → check_reservation os r ≡ returns tt → CheckedReservation r
  unfolding check_reservation
  check_reservation-Checked r h =
      let (schema, h₁) = guarded (r.reservation_schema == schema_version) _ _ h in
      let h₂ = past (check_safe_id os r.reservation_id "reservation_id" "WTR-") _ tt h₁ in
      let h₃ = past (check_safe_id os r.worktree_id "worktree_id" "WT-") _ tt h₂ in
      let h₄ = past (check_path os r.repository_common_dir "repository_common_dir") _ tt h₃ in
      let h₅ = past (check_path os r.repository_root "repository_root") _ tt h₄ in
      let h₆ = past (check_path os r.worktree_path "worktree_path") _ tt h₅ in
      let h₇ = past (check_branch r.branch) _ tt h₆ in
      let h₈ = past (check_sha40 r.base_commit "base_commit") _ tt h₇ in
      let (own_task, h₉) = guarded (matches_task (codes r.task_id)) _ _ h₈ in
      let h₁₀ = past (check_positive r.revision "revision" none) _ tt h₉ in
      let h₁₁ = past (check_positive r.attempt "attempt" (some 3)) _ tt h₁₀ in
      let h₁₂ = past (check_safe_id os r.dispatch_id "dispatch_id" "DSP-") _ tt h₁₁ in
      let (own_phase, h₁₃) = guarded (r.phase == reserved) _ _ h₁₂ in
      let h₁₄ = past (check_timestamp_text r.reserved_at "reserved_at") _ tt h₁₃ in
      record {
        schema = schema;
        reservation =
            first_returns (check_safe_id os r.reservation_id "reservation_id" "WTR-") _ tt h₁;
        worktree = first_returns (check_safe_id os r.worktree_id "worktree_id" "WT-") _ tt h₂;
        common_dir =
            first_returns (check_path os r.repository_common_dir "repository_common_dir") _ tt h₃;
        root = first_returns (check_path os r.repository_root "repository_root") _ tt h₄;
        path = first_returns (check_path os r.worktree_path "worktree_path") _ tt h₅;
        own_branch = first_returns (check_branch r.branch) _ tt h₆;
        base = first_returns (check_sha40 r.base_commit "base_commit") _ tt h₇;
        own_task = own_task;
        revised = first_returns (check_positive r.revision "revision" none) _ tt h₉;
        attempted = first_returns (check_positive r.attempt "attempt" (some 3)) _ tt h₁₀;
        dispatched = first_returns (check_safe_id os r.dispatch_id "dispatch_id" "DSP-") _ tt h₁₁;
        own_phase = own_phase;
        at = first_returns (check_timestamp_text r.reserved_at "reserved_at") _ tt h₁₃;
        digest = h₁₄;
      }

  reservation_of-values :
      (r : WorktreeReservation)
      → check_reservation os r ≡ returns tt
      → reservation_of os (map value_of (all_fields r)) ≡ returns r
  unfolding reservation_of reservation_fields
  reservation_of-values r h =
      let c = check_reservation-Checked r h in
      phase_of-words r.phase (schema_error "reservation_fields")
      ▸⟨ _ ⟩ schema_of-words r.reservation_schema (input_error "reservation_schema") c.schema
      ▸⟨ _ ⟩ safe_id_of-words os r.reservation_id "reservation_id" "WTR-" c.reservation
      ▸⟨ _ ⟩ safe_id_of-words os r.worktree_id "worktree_id" "WT-" c.worktree
      ▸⟨ _ ⟩ path_of-words os r.repository_common_dir "repository_common_dir" c.common_dir
      ▸⟨ _ ⟩ path_of-words os r.repository_root "repository_root" c.root
      ▸⟨ _ ⟩ path_of-words os r.worktree_path "worktree_path" c.path
      ▸⟨ _ ⟩ checked_branch_of-words r.branch c.own_branch
      ▸⟨ _ ⟩ sha_of-words r.base_commit "base_commit" c.base
      ▸⟨ _ ⟩ task_of-words r.task_id "task_id" c.own_task
      ▸⟨ _ ⟩ positive_of-number r.revision "revision" none c.revised
      ▸⟨ _ ⟩ positive_of-number r.attempt "attempt" (some 3) c.attempted
      ▸⟨ _ ⟩ safe_id_of-words os r.dispatch_id "dispatch_id" "DSP-" c.dispatched
      ▸⟨ _ ⟩
        and_next (rw c.own_phase refl) (
          time_of-words r.reserved_at "reserved_at" c.at
          ▸⟨ _ ⟩ digest_of-words r.content_digest "reservation_digest" c.digest
          ▸⟨ _ ⟩ refl)

  all_fields-IsPlain :
      (r : WorktreeReservation)
      → check_reservation os r ≡ returns tt
      → All IsPlainField (all_fields r)
  unfolding reservation_fields
  all_fields-IsPlain r h =
      let c = check_reservation-Checked r h in
      plain_fields (all_fields r) (names-Printable reservation_keys refl) (
        schema-Printable r.reservation_schema c.schema
        & check_safe_id-Printable os r.reservation_id "reservation_id" "WTR-" c.reservation
        & check_safe_id-Printable os r.worktree_id "worktree_id" "WT-" c.worktree
        & check_path-Printable os r.repository_common_dir "repository_common_dir" c.common_dir
        & check_path-Printable os r.repository_root "repository_root" c.root
        & check_path-Printable os r.worktree_path "worktree_path" c.path
        & check_branch-Printable os r.branch c.own_branch
        & check_sha40-Printable r.base_commit "base_commit" c.base
        & matches_task-Printable (codes r.task_id) c.own_task
        & tt
        & tt
        & check_safe_id-Printable os r.dispatch_id "dispatch_id" "DSP-" c.dispatched
        & phase_text-Printable r.phase
        & check_timestamp_text-Printable r.reserved_at "reserved_at" c.at
        & check_digest-Printable r.content_digest "reservation_digest" c.digest
        & tt)

  starts : (r : WorktreeReservation) → has_start (document_text (all_fields r)) ≡ true
  unfolding reservation_fields document_text ℕ_discrete
  starts r = refl

  reservation_document :
      (r : WorktreeReservation)
      → check_reservation os r ≡ returns tt
      → document reservation_keys "reservation" (document_text (all_fields r))
        ≡ returns (map value_of (all_fields r))
  unfolding reservation_fields
  reservation_document r h =
      document-document_text "reservation" (all_fields r) (all_fields-IsPlain r h) (starts r)

  encode_reservation-text :
      (r : WorktreeReservation) (file : Line)
      → encode_reservation os r ≡ returns file
      → file ≡ document_text (all_fields r)
  unfolding encode_reservation
  encode_reservation-text r file k =
      let made = (guarded (r.content_digest == fields_digest os (reservation_fields r)) _ _ k).1 in
      cc

  -- A file that encode_reservation makes of a reservation that passes the checks of its constructor
  -- is decoded to that reservation.
  pub decode_reservation-encode_reservation :
      (r : WorktreeReservation) (file : Line)
      → check_reservation os r ≡ returns tt
      → encode_reservation os r ≡ returns file
      → decode_reservation os file ≡ returns r
  unfolding decode_reservation
  decode_reservation-encode_reservation r file h k =
      let parsed : document reservation_keys "reservation" file
          ≡ returns (map value_of (all_fields r)) =
        rw (encode_reservation-text r file k) (reservation_document r h) in
      bind_next _ parsed
        (bind_next _ (reservation_of-values r h) (bind_next _ k (rw (list_eq_refl file) refl)))
