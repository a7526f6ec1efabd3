-- ===== src/Portfolio/Policy/Filters.antt =====
-- The validation and the filters of skills/agentdesk/scripts/portfolio_scheduler_policy.py.
use dockyard.Base.Text
use dockyard.Base.Text.{◌<>◌}
use dockyard.Base.{
  leb, ℕ, ◌==◌, comparable_string, comparable_number, String, Bool, true, false, not, ◌&&◌, ◌||◌,
  List, [], ◌∷◌, map, if◌then◌else◌, any, keep, Attempt, returns, ◌>>◌, require,
}
use dockyard.CoreTypes.{WorkerKind, comparable_kind}
use dockyard.Portfolio.Entry.{
  QueuePhase, ConflictKeyClass, ConflictKey, QueueEntry, comparable_phase, comparable_class,
  comparable_priority,
}

pub data PolicyError : Type 0 where
  duplicate_queue_identity duplicate_enqueue_sequence unknown_conflict forbidden_global_key :
      PolicyError
  unsupported_policy_version selected_at_invalid : PolicyError
  key_error : PolicyError

pub record AdvisoryAuthorization : Type 0 where
  pub queue_id : String
  pub task_id : String
  pub revision : ℕ
  pub authorized_by : String

pub record AdmissionContext : Type 0 where
  pub policy_version : String
  pub evaluated_at : String
  pub active_hard_conflict_keys : List String
  pub advisory_conflict_keys : List String
  pub advisory_authorizations : List AdvisoryAuthorization
  pub available_worker_kinds : List WorkerKind
  pub max_selections : ℕ

abbrev pub schema_version : String
schema_version = "agentdesk.portfolio-scheduler/v1"

abbrev pub mem_text : String → List String → Bool
mem_text s ss = any (λ t. t == s) ss

-- `_TIMESTAMP_RE`, with a template in which 0 stands for any digit.
unfoldable pub fits_template : List ℕ → List ℕ → Bool
fits_template [] [] = true
fits_template (t ∷ ts) (c ∷ cs) =
    (if t == 48 then leb 48 c && leb c 57 else c == t) && fits_template ts cs
fits_template _ _ = false

-- `_validate_timestamp`; `parses` says which texts `datetime.fromisoformat` accepts.
unfoldable pub is_timestamp : (String → Bool) → String → Bool
unfolding fits_template
is_timestamp parses text =
    fits_template (Text.codes "0000-00-00T00:00:00.000000Z") (Text.codes text) && parses text

module _ (casefold : String → String) where
  -- The loop over `entry.conflict_keys` in `_validate_snapshot`.
  unfoldable pub validate_keys : List ConflictKey → Attempt PolicyError (Unit {0})
  validate_keys [] = returns tt
  validate_keys (k ∷ ks) = do
    require (not (k.classification == ConflictKeyClass.unknown)) unknown_conflict
    require (not (casefold k.value == "global")) forbidden_global_key
    validate_keys ks

  -- `_validate_snapshot` with the ids and sequences seen so far.
  unfoldable pub validate_from :
      List String → List ℕ → List QueueEntry → Attempt PolicyError (Unit {0})
  unfolding validate_keys
  validate_from ids seqs [] = returns tt
  validate_from ids seqs (e ∷ es) = do
    require (not (mem_text e.queue_id ids)) duplicate_queue_identity
    require (not (any (λ n. n == e.enqueue_sequence) seqs)) duplicate_enqueue_sequence
    validate_keys e.conflict_keys
    validate_from (e.queue_id ∷ ids) (e.enqueue_sequence ∷ seqs) es

  unfoldable pub validate_snapshot : List QueueEntry → Attempt PolicyError (Unit {0})
  unfolding validate_from
  validate_snapshot es = validate_from [] [] es

  unfoldable pub validate_admission_context : AdmissionContext → Attempt PolicyError (Unit {0})
  validate_admission_context c =
      require (c.policy_version == schema_version) unsupported_policy_version

  -- `_has_active_hard_conflict`
  unfoldable pub has_active_hard_conflict : QueueEntry → List String → Bool
  has_active_hard_conflict e active =
      any
        (λ k.
          k.classification == ConflictKeyClass.hard_exclusive && mem_text (casefold k.value) active)
        e.conflict_keys

  -- `_advisory_entry_keys`
  unfoldable pub advisory_entry_keys : QueueEntry → List String
  advisory_entry_keys e =
      map (λ k. casefold k.value)
        (keep (λ k. k.classification == ConflictKeyClass.advisory) e.conflict_keys)

  -- `_advisory_authorized`
  unfoldable pub advisory_authorized : QueueEntry → List String → List AdvisoryAuthorization → Bool
  advisory_authorized e keys auths =
      any
        (λ a.
          mem_text (casefold a.authorized_by) keys
          && (a.queue_id == e.queue_id || (a.task_id == e.task_id && a.revision == e.revision)))
        auths

  -- `_check_advisory_blocked`: the set operations as filters.
  unfoldable pub check_advisory_blocked : QueueEntry → AdmissionContext → List String → Bool
  unfolding advisory_entry_keys advisory_authorized
  check_advisory_blocked e c active =
      let shared = keep (λ k. mem_text k active) (advisory_entry_keys e) in
      any (λ k. true) shared && not (advisory_authorized e shared c.advisory_authorizations)

  -- Steps 2 to 6 of `select_next`: the entries that may be selected.
  unfoldable pub blocked_ids : AdmissionContext → List QueueEntry → List String
  unfolding check_advisory_blocked
  blocked_ids c es =
      map (λ e. e.queue_id)
        (keep (λ e. check_advisory_blocked e c (map casefold c.advisory_conflict_keys)) es)

  unfoldable pub unblocked_ids : AdmissionContext → List QueueEntry → List String
  unfolding check_advisory_blocked
  unblocked_ids c es =
      map (λ e. e.queue_id)
        (keep (λ e. not (check_advisory_blocked e c (map casefold c.advisory_conflict_keys))) es)

  unfoldable pub without_hard_conflict : AdmissionContext → List QueueEntry → List QueueEntry
  unfolding has_active_hard_conflict
  without_hard_conflict c es =
      keep (λ e. not (has_active_hard_conflict e (map casefold c.active_hard_conflict_keys)))
        (keep (λ e. e.state == QueuePhase.queued) es)

  unfoldable pub eligible_entries : AdmissionContext → List QueueEntry → List QueueEntry
  unfolding blocked_ids without_hard_conflict
  eligible_entries c es =
      let free = without_hard_conflict c es in
      keep (λ e. any (λ k. k == e.worker_kind_request) c.available_worker_kinds)
        (keep (λ e. not (mem_text e.queue_id (blocked_ids c free))) free)
