-- ===== src/Worktree/Examples.antt =====
-- A worktree is reserved, created, advanced and reconciled.
use dockyard.Base.Sort
use dockyard.Base.Text
use dockyard.Base.Text.{codes, ◌<>◌}
use dockyard.Base.{
  ℕ, Option, keep, ◌+◌, ◌≡◌, refl, String, true, false, List, [], ◌∷◌, some, none,
  comparable_string, returns, ℕ_discrete, String-discrete, ◌⊎◌, arith,
}
use dockyard.Portfolio.Codec
use dockyard.Worktree
use dockyard.Worktree.Records
use dockyard.Worktree.Identity
use dockyard.Worktree.Inventory
use dockyard.Worktree.Store
use dockyard.Worktree.Reconcile
use dockyard.Worktree.{
  Platform, WorktreePhase-discrete, LifecycleAction-discrete, creating, ready, releasing, create,
  resume_release, check_digest, check_sha40, check_timestamp_text, schema_version, position,
  WorktreePhase,
}
use dockyard.Worktree.Records.{
  WorktreeRecord, WorktreeRequest, WorktreeReservation, check_record, record_fields, zero_digest,
}
use dockyard.Worktree.Bindings.{parts_of-binding_text}
use dockyard.Worktree.Identity.{
  check_binding, parts_of, request_binding, fresh_record, fresh_reservation,
}
use dockyard.Worktree.Store.{
  WorktreeStore, advance_record, create_record, moved_to, reserve, write_file,
}
use dockyard.Worktree.Inventory.{InventoryEntry, parse_worktree_inventory}
use dockyard.Worktree.Reconcile.{ReconciliationDecision, only_entry, reconcile_worktree, same_place}
use dockyard.Worktree.History.{
  Progress, Reach, Reach-Progress, advances, creates, here, next, reserves,
}
use dockyard.Worktree.Sound.{IsSound, Reach-IsSound}
use dockyard.Worktree.Stages.{Onward, Step-Onward, stage}
use dockyard.Worktree.Paths.{parse_worktree_inventory-only_entry}
use dockyard.Worktree.Replay.{reserve-again}
use dockyard.Worktree.Total.{advance_record-total, digested}

unfoldable pub program : Unit {0}
unfolding Worktree.starts_with Worktree.check_trimmed Worktree.is_safe_id Worktree.matches_safe_id
    Worktree.stem Worktree.is_reserved Worktree.check_safe_id Worktree.check_positive
    Worktree.check_sha40 Worktree.check_digest Worktree.check_timestamp_text
    Worktree.check_optional_timestamp Worktree.matches_task Worktree.check_parts
    Worktree.behind_first Worktree.without_slashes Worktree.check_path Worktree.split_slash
    Worktree.check_branch Worktree.position Worktree.phase_text Records.check_since
    Records.document_text Records.check_reservation Records.check_identity Records.check_task
    Records.check_evidence Records.check_phase_times Records.check_record Records.reservation_fields
    Records.record_fields Records.fields_digest Records.with_reservation_digest
    Records.with_record_digest Records.encode_reservation Records.encode_record
    Identity.request_binding Identity.parts_of Identity.binding_text Identity.check_binding
    Identity.binding_parts Identity.derive_worktree_id Identity.derive_reservation_id
    Identity.expected_branch Identity.expected_worktree_path Identity.validate_request_identity
    Identity.fresh_reservation Identity.make_reservation Identity.head_or_base Identity.fresh_record
    Identity.make_record Store.write_file Store.load_reservation Store.load_record
    Store.read_reservation Store.read_record Store.reservation_file Store.record_file
    Store.save_reservation Store.reserve Store.save_record Store.is_bound Store.create_record
    Store.stamp Store.with_head Store.moved_to Store.store_advanced Store.advance_current
    Store.advance_record Inventory.ends_with_nul Inventory.split_nul Inventory.without_last
    Inventory.grouped Inventory.partition Inventory.drop_codes Inventory.set_field
    Inventory.read_token Inventory.read_tokens Inventory.read_group Inventory.read_groups
    Inventory.check_entry Inventory.parse_worktree_inventory Sort.sort_by Sort.insert_by
    Inventory.entry_leb Reconcile.action_text Reconcile.decision_fields Reconcile.check_present
    Reconcile.is_exact Reconcile.exact Reconcile.is_own Reconcile.by_phase Reconcile.verdict
    Reconcile.check_decision Reconcile.with_decision_digest Reconcile.undigested Reconcile.decision
    Reconcile.same_place Reconcile.only_entry Reconcile.reconcile_worktree Codec.field Codec.scalar
    Codec.quote Codec.escape Codec.digits Codec.digits_from Text.strip Text.lstrip Text.is_space
    Text.is_wrapped Text.is_blank Text.decimal Text.decimal_from ℕ_discrete String-discrete
    WorktreePhase-discrete LifecycleAction-discrete
program = tt

abbrev hex : String
hex = "0123456789abcdef0123456789abcdef0123456789abcdef0123456789abcdef"

abbrev pub os : Platform
os = record {
  sha256 = λ cs. hex;
  casefold = λ s. s;
  normcase = λ s. s;
  normpath = λ s. s;
  is_absolute = λ s. true;
  parts = λ s. "/" ∷ s ∷ [];
  sibling = λ root suffix leaf. root <> suffix <> "/" <> leaf;
}

abbrev id : String
id = "WT-0123456789abcdef0123456789abcdef0123456789abcdef0123456789abcdef"

abbrev commit : String
commit = "0123456789012345678901234567890123456789"

abbrev at : String
at = "2026-01-01T00:00:00.000000Z"

abbrev digest : String
digest = "sha256:0123456789abcdef0123456789abcdef0123456789abcdef0123456789abcdef"

abbrev request : WorktreeRequest
request = record {
  request_schema = schema_version;
  operation_id = "OP-1";
  action = create;
  repository_common_dir = "/repo/.git";
  repository_root = "/repo";
  worktree_path = "/repo-agentdesk-worktrees/" <> id;
  branch = "agentdesk/TC-001/r1/a1/DSP-1";
  base_commit = commit;
  task_id = "TC-001";
  revision = 1;
  attempt = 1;
  dispatch_id = "DSP-1";
  expected_worktree_id = id;
  requested_at = at;
}

abbrev empty : WorktreeStore
empty = record { reservations = λ i. none; records = λ i. none }

abbrev pub reservation : WorktreeReservation
reservation = record (fresh_reservation os request ("WTR-" <> hex)) { content_digest = digest }

abbrev reserved_store : WorktreeStore
reserved_store = record empty { reservations = write_file id reservation (λ i. none) }

reserving : reserve os "/repo" empty request ≡ returns (reserved_store, reservation)
unfolding program
reserving = refl

abbrev pub made : WorktreeRecord
made = record (fresh_record os reservation creating digest none none none none) {
  content_digest = digest;
}

abbrev created_store : WorktreeStore
created_store = record reserved_store { records = write_file id made (λ i. none) }

pub made_valid : check_record os made ≡ returns tt
unfolding program
made_valid = refl

creating_it : create_record os reserved_store made ≡ returns (created_store, made)
unfolding program
creating_it = refl

abbrev ready_record : WorktreeRecord
ready_record = record made { phase = ready; created_at = some at }

abbrev ready_store : WorktreeStore
ready_store = record created_store { records = write_file id ready_record created_store.records }

readying :
    advance_record os created_store id creating ready digest at none
    ≡ returns (ready_store, ready_record)
unfolding program
readying = refl

lived : Reach os empty ready_store
lived =
    next
      (next (next here (reserves "/repo" request reservation reserving))
        (creates made made made_valid creating_it))
      (advances id creating ready digest at none ready_record readying)

Reach-Progress_example : Progress empty ready_store
Reach-Progress_example = Reach-Progress os lived

empty-IsSound : IsSound os empty
empty-IsSound = record {
  reservations_sound = λ i v h. absurd (ground (arith));
  records_sound = λ i r h. absurd (ground (arith));
  records_bound = λ i r h. absurd (ground (arith));
  records_begun = λ i r h. absurd (ground (arith));
}

Reach-IsSound_example : IsSound os ready_store
Reach-IsSound_example = Reach-IsSound os empty-IsSound lived

created-IsSound : IsSound os created_store
created-IsSound = Reach-IsSound os empty-IsSound (
    next (next here (reserves "/repo" request reservation reserving))
      (creates made made made_valid creating_it))

Step-Onward_example :
    (stage ready_store id ≡ stage created_store id)
    ⊎ Onward (stage created_store id) (stage ready_store id)
Step-Onward_example =
    Step-Onward os created_store ready_store created-IsSound
      (advances id creating ready digest at none ready_record readying) id

hashes : (cs : List ℕ) → check_digest ("sha256:" <> os.sha256 cs) "record_digest" ≡ returns tt
unfolding program
hashes cs = refl

made_stored : created_store.records id ≡ some made
unfolding program
made_stored = refl

follows : position ready ≡ position made.phase + 1
unfolding program
follows = refl

digest_valid : check_digest digest "advance_inventory_digest" ≡ returns tt
unfolding program
digest_valid = refl

at_valid : check_timestamp_text at "operation_at" ≡ returns tt
unfolding program
at_valid = refl

advance_record-total_example :
    (h : String) × (let r =
        digested os (moved_to ready digest at (record made { head_commit = h })) in
      (advance_record os created_store id made.phase ready digest at none
        ≡ returns (record created_store { records = write_file id r created_store.records }, r))
      × (r.phase ≡ ready))
advance_record-total_example =
    advance_record-total os created_store id ready digest at none made hashes created-IsSound
      made_stored follows digest_valid at_valid (λ h e. absurd (ground (arith)))

abbrev leaving : WorktreeRecord
leaving = record ready_record { phase = releasing; release_requested_at = some at }

abbrev entry : InventoryEntry
entry = record {
  common_dir = "/repo/.git";
  entry_path = "/repo-agentdesk-worktrees/" <> id;
  entry_head = commit;
  entry_branch = some "agentdesk/TC-001/r1/a1/DSP-1";
  is_bare = false;
  is_detached = false;
  is_locked = false;
  is_prunable = false;
}

abbrev removal : ReconciliationDecision
removal = record {
  decision_schema = schema_version;
  decided_id = id;
  action = resume_release;
  reason = "resume_release";
  expected_phase = releasing;
  observed_present = true;
  observed_head = some commit;
  observed_branch = some "agentdesk/TC-001/r1/a1/DSP-1";
  observed_clean = some true;
  content_digest = digest;
}

reserve-again_example : reserve os "/repo" ready_store request ≡ returns (ready_store, reservation)
reserve-again_example =
    reserve-again os "/repo" empty reserved_store ready_store request reservation reserving (
      next (next here (creates made made made_valid creating_it))
        (advances id creating ready digest at none ready_record readying))

abbrev listing : String
listing =
    "worktree /repo\0HEAD 0123456789012345678901234567890123456789\0branch refs/heads/main\0\0"

abbrev main_entry : InventoryEntry
main_entry = record {
  common_dir = "/repo/.git";
  entry_path = "/repo";
  entry_head = commit;
  entry_branch = some "main";
  is_bare = false;
  is_detached = false;
  is_locked = false;
  is_prunable = false;
}

listed : parse_worktree_inventory os listing "/repo/.git" ≡ returns (main_entry ∷ [])
unfolding program
listed = refl

parse_worktree_inventory-only_entry_example :
    (o : Option InventoryEntry) × (only_entry os
        (keep (same_place os reservation) (main_entry ∷ []))
      ≡ returns o)
parse_worktree_inventory-only_entry_example =
    parse_worktree_inventory-only_entry os listing "/repo/.git" (main_entry ∷ []) listed reservation

binding_valid : check_binding os (request_binding request) ≡ returns tt
unfolding program
binding_valid = refl

parts_of-binding_text_example :
    parts_of (request_binding request) ≡ parts_of (request_binding request)
parts_of-binding_text_example =
    parts_of-binding_text os (request_binding request) (request_binding request) binding_valid
      binding_valid refl
