-- ===== src/Worktree/Reconcile.antt =====
-- `reconcile_worktree` of skills/agentdesk/scripts/worktree_lifecycle_store.py, and the decision
-- that it makes.

use dockyard.Base.{
  ◌==◌, comparable_string, String, Bool, true, false, not, ◌&&◌, List, [], ◌∷◌, any, keep, Option,
  none, some, if◌then◌else◌, Attempt, returns, raises, require, ◌>>=◌, ◌>>◌,
}
use dockyard.Portfolio.Codec.{Scalar, flag, null, optional, words}
use dockyard.Worktree.{
  Platform, ReconciliationAction, WorktreeError, WorktreePhase, adopt_ready, check_digest,
  check_safe_id, check_sha40, check_trimmed, conflict_error, fail_closed, input_error, no_op,
  phase_text, ready, reject, released, releasing, reserved, resume_create, resume_release,
  schema_version,
}
use dockyard.Worktree.Records.{WorktreeRecord, WorktreeReservation, fields_digest, zero_digest}
use dockyard.Worktree.Inventory.{InventoryEntry}

pub record ReconciliationDecision : Type 0 where
  pub decision_schema : String
  pub decided_id : String
  pub action : ReconciliationAction
  pub reason : String
  pub expected_phase : WorktreePhase
  pub observed_present : Bool
  pub observed_head : Option String
  pub observed_branch : Option String
  pub observed_clean : Option Bool
  pub content_digest : String

abbrev reconciliation_reasons : List String
reconciliation_reasons =
    "reservation_missing" ∷ "resume_create" ∷ "adopt_ready" ∷ "ready_exact" ∷ "resume_release"
    ∷ "released_exact" ∷ "identity_divergent" ∷ "inventory_missing" ∷ "dirty_or_unknown"
    ∷ "phase_unsupported" ∷ []

unfoldable pub action_text : ReconciliationAction → String
action_text no_op = "NO_OP"
action_text resume_create = "RESUME_CREATE"
action_text adopt_ready = "ADOPT_READY"
action_text resume_release = "RESUME_RELEASE"
action_text reject = "REJECT"
action_text fail_closed = "FAIL_CLOSED"

abbrev clean_scalar : Option Bool → Scalar
clean_scalar none = null
clean_scalar (some b) = flag b

-- `_decision_values` with their names, without the digest.
unfoldable pub decision_fields : ReconciliationDecision → List (String × Scalar)
unfolding action_text phase_text
decision_fields d =
    ("schema_version", words d.decision_schema)
    ∷ ("worktree_id", words d.decided_id)
    ∷ ("action", words (action_text d.action))
    ∷ ("reason", words d.reason)
    ∷ ("expected_phase", words (phase_text d.expected_phase))
    ∷ ("observed_present", flag d.observed_present)
    ∷ ("observed_head", optional d.observed_head)
    ∷ ("observed_branch", optional d.observed_branch)
    ∷ ("observed_clean", clean_scalar d.observed_clean)
    ∷ []

-- The arguments of `_decision` behind the worktree's id.
pub record Verdict : Type 0 where
  pub act : ReconciliationAction
  pub because : String
  pub at_phase : WorktreePhase
  pub seen : Option InventoryEntry
  pub clean : Option Bool

-- The optional check of a text.
unfoldable pub check_present :
    (String → Attempt WorktreeError (Unit {0})) → Option String → Attempt WorktreeError (Unit {0})
check_present check none = returns tt
check_present check (some s) = check s

abbrev head_of : Option InventoryEntry → Option String
head_of none = none
head_of (some e) = some e.entry_head

abbrev branch_of : Option InventoryEntry → Option String
branch_of none = none
branch_of (some e) = e.entry_branch

abbrev is_there : Option InventoryEntry → Bool
is_there none = false
is_there (some e) = true

abbrev text_is : Option String → String → Bool
text_is none s = false
text_is (some t) s = t == s

abbrev is_clean : Option Bool → Bool
is_clean none = false
is_clean (some b) = b

-- `exact`
unfoldable pub is_exact : WorktreeReservation → Option WorktreeRecord → InventoryEntry → Bool
is_exact v none e =
    text_is e.entry_branch v.branch
    && (e.entry_head == v.base_commit
        && (not e.is_bare && (not e.is_detached && not e.is_prunable)))
is_exact v (some r) e =
    text_is e.entry_branch v.branch
    && (e.entry_head == r.head_commit
        && (not e.is_bare && (not e.is_detached && not e.is_prunable)))

unfoldable pub exact : WorktreeReservation → Option WorktreeRecord → Option InventoryEntry → Bool
unfolding is_exact
exact v o none = false
exact v o (some e) = is_exact v o e

unfoldable pub is_own : WorktreeReservation → WorktreeRecord → Bool
is_own v r =
    r.worktree_id == v.worktree_id
    && (r.reservation_id == v.reservation_id
        && (r.worktree_path == v.worktree_path
            && (r.branch == v.branch && r.base_commit == v.base_commit)))

-- The branches on the phase.
unfoldable pub by_phase :
    WorktreePhase
    → WorktreeReservation
    → Option WorktreeRecord
    → Option InventoryEntry
    → Option Bool
    → Verdict
unfolding exact
by_phase ready v o entry clean =
    if exact v o entry && is_clean clean
    then record {
      act = no_op;
      because = "ready_exact";
      at_phase = ready;
      seen = entry;
      clean = some true;
    }
    else record {
      act = fail_closed;
      because = if is_there entry then "dirty_or_unknown" else "inventory_missing";
      at_phase = ready;
      seen = entry;
      clean = clean;
    }
by_phase releasing v o none clean = record {
  act = no_op;
  because = "released_exact";
  at_phase = releasing;
  seen = none;
  clean = clean;
}
by_phase releasing v o (some e) clean =
    if exact v o (some e) && (is_clean clean && not e.is_locked)
    then record {
      act = resume_release;
      because = "resume_release";
      at_phase = releasing;
      seen = some e;
      clean = some true;
    }
    else record {
      act = fail_closed;
      because = "dirty_or_unknown";
      at_phase = releasing;
      seen = some e;
      clean = clean;
    }
by_phase released v o none clean = record {
  act = no_op;
  because = "released_exact";
  at_phase = released;
  seen = none;
  clean = clean;
}
by_phase released v o (some e) clean = record {
  act = fail_closed;
  because = "phase_unsupported";
  at_phase = released;
  seen = some e;
  clean = clean;
}
-- RESERVED and CREATING
by_phase phase v o none clean = record {
  act = resume_create;
  because = "resume_create";
  at_phase = phase;
  seen = none;
  clean = clean;
}
by_phase phase v o (some e) clean =
    if exact v o (some e)
    then record {
      act = adopt_ready;
      because = "adopt_ready";
      at_phase = phase;
      seen = some e;
      clean = clean;
    }
    else record {
      act = fail_closed;
      because = "identity_divergent";
      at_phase = phase;
      seen = some e;
      clean = clean;
    }

-- The branches behind the checks of the reservation.
unfoldable pub verdict :
    WorktreeReservation → Option WorktreeRecord → Option InventoryEntry → Option Bool → Verdict
unfolding is_own by_phase
verdict v none entry clean = by_phase reserved v none entry clean
verdict v (some r) entry clean =
    if is_own v r then by_phase r.phase v (some r) entry clean else record {
      act = fail_closed;
      because = "identity_divergent";
      at_phase = r.phase;
      seen = entry;
      clean = clean;
    }

abbrev pub no_reservation : Option Bool → Verdict
no_reservation clean = record {
  act = no_op;
  because = "reservation_missing";
  at_phase = reserved;
  seen = none;
  clean = clean;
}

module _ (os : Platform) where
  -- `WorktreeReconciliationDecision.__post_init__`
  unfoldable pub check_decision : ReconciliationDecision → Attempt WorktreeError (Unit {0})
  unfolding check_safe_id check_present check_sha40 check_trimmed check_digest
  check_decision d = do
    require (d.decision_schema == schema_version) (input_error "decision_schema")
    check_safe_id os d.decided_id "decision_worktree_id" "WT-"
    require (any (λ x. x == d.reason) reconciliation_reasons) (input_error "decision_reason")
    check_present (λ s. check_sha40 s "observed_head") d.observed_head
    check_present (λ s. check_trimmed s "observed_branch") d.observed_branch
    check_digest d.content_digest "decision_digest"

  -- `_with_decision_digest`
  unfoldable pub with_decision_digest :
      ReconciliationDecision → Attempt WorktreeError ReconciliationDecision
  unfolding check_decision decision_fields fields_digest
  with_decision_digest d = do
    check_decision (record d { content_digest = zero_digest })
    check_decision (record d { content_digest = fields_digest os (decision_fields d) })
    returns (record d { content_digest = fields_digest os (decision_fields d) })

  unfoldable pub undigested : String → Verdict → ReconciliationDecision
  undigested worktree_id w = record {
    decision_schema = schema_version;
    decided_id = worktree_id;
    action = w.act;
    reason = w.because;
    expected_phase = w.at_phase;
    observed_present = is_there w.seen;
    observed_head = head_of w.seen;
    observed_branch = branch_of w.seen;
    observed_clean = w.clean;
    content_digest = zero_digest;
  }

  -- `_decision`
  unfoldable pub decision : String → Verdict → Attempt WorktreeError ReconciliationDecision
  unfolding undigested check_decision with_decision_digest
  decision worktree_id w = do
    check_decision (undigested worktree_id w)
    with_decision_digest (undigested worktree_id w)

  unfoldable pub same_place : WorktreeReservation → InventoryEntry → Bool
  same_place v e = os.normcase e.entry_path == os.normcase v.worktree_path

  -- The only entry at the place of the reservation.
  unfoldable pub only_entry : List InventoryEntry → Attempt WorktreeError (Option InventoryEntry)
  only_entry [] = returns none
  only_entry (e ∷ []) = returns (some e)
  only_entry (e ∷ f ∷ es) = raises (conflict_error "reconcile_duplicate")

  unfoldable pub reconcile_worktree :
      String
      → Option WorktreeReservation
      → Option WorktreeRecord
      → List InventoryEntry
      → Option Bool
      → Attempt WorktreeError ReconciliationDecision
  unfolding check_safe_id same_place only_entry verdict decision
  reconcile_worktree worktree_id none o inventory clean = do
    check_safe_id os worktree_id "reconcile_worktree_id" "WT-"
    decision worktree_id (no_reservation clean)
  reconcile_worktree worktree_id (some v) o inventory clean = do
    check_safe_id os worktree_id "reconcile_worktree_id" "WT-"
    entry ← only_entry (keep (same_place v) inventory)
    require (v.worktree_id == worktree_id) (conflict_error "reconcile_reservation_identity")
    decision worktree_id (verdict v o entry clean)
