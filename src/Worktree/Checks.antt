-- ===== src/Worktree/Checks.antt =====
-- The checks of a record in skills/agentdesk/scripts/worktree_lifecycle_store.py, before and after an
-- advance.
use dockyard.Base.Text.{codes}
use dockyard.Base.{
  ℕ, ◌+◌, ◌≡◌, refl, sym, ap, ◌∙◌, comparable_number, comparable_string, String, true, not, Option,
  none, some, returns, arith, past, first_returns, guarded, required, and_next, leb, ltb,
}
use dockyard.Worktree.{
  Platform, WorktreePhase, check_digest, check_optional_timestamp, check_safe_id, check_sha40,
  check_timestamp_text, check_trimmed, comparable_phase, creating, is_reserved, is_safe_id,
  position, ready, released, releasing, reserved, starts_with,
}
use dockyard.Worktree.Records.{
  WorktreeRecord, check_evidence, check_identity, check_phase_times, check_record, check_since,
  check_task,
}
use dockyard.Worktree.Store.{moved_to, stamp}
use dockyard.Worktree.Moves.{without_progress}

-- The name of a field changes an error only.
pub check_digest-name :
    (value name other : String)
    → check_digest value name ≡ returns tt
    → check_digest value other ≡ returns tt
unfolding check_digest
check_digest-name value name other h = let ok = required _ _ h in rw ok refl

pub check_sha40-name :
    (value name other : String)
    → check_sha40 value name ≡ returns tt
    → check_sha40 value other ≡ returns tt
unfolding check_sha40
check_sha40-name value name other h = let ok = required _ _ h in rw ok refl

pub check_timestamp_text-name :
    (value name other : String)
    → check_timestamp_text value name ≡ returns tt
    → check_timestamp_text value other ≡ returns tt
unfolding check_timestamp_text
check_timestamp_text-name value name other h = let ok = required _ _ h in rw ok refl

pub check_trimmed-name :
    (value name other : String)
    → check_trimmed value name ≡ returns tt
    → check_trimmed value other ≡ returns tt
unfolding check_trimmed
check_trimmed-name value name other h = let ok = required _ _ h in rw ok refl

pub check_since-next :
    (n : ℕ) (p q : WorktreePhase) (o : Option String) (name : String)
    → check_since n p o name ≡ returns tt
    → position q ≡ position p + 1
    → (position q ≡ n → ⊥)
    → check_since n q o name ≡ returns tt
unfolding check_since
check_since-next n p q none name h step other =
    let before = required (ltb (position p) n) _ h in
    let still : ltb (position q) n ≡ true = ground (arith) in rw still refl
check_since-next n p q (some at) name h step other =
    let after = required (leb n (position p)) _ h in
    let still : leb n (position q) ≡ true = ground (arith) in rw still refl

module _ (os : Platform) where
  pub check_safe_id-name :
      (value name other prefix : String)
      → check_safe_id os value name prefix ≡ returns tt
      → check_safe_id os value other prefix ≡ returns tt
  unfolding check_safe_id
  check_safe_id-name value name other prefix h =
      let trimmed =
        check_trimmed-name value name other (first_returns (check_trimmed value name) _ tt h) in
      let formed = past (check_trimmed value name) _ tt h in
      let (format, begun) = guarded (is_safe_id (codes value)) _ _ formed in
      let (first, last) = guarded (starts_with value prefix) _ _ begun in
      let free = required (not (is_reserved os value)) _ last in
      and_next trimmed (rw (format, first, free) refl)

  -- The identity does not depend on the progress.
  identity_apart :
      (r : WorktreeRecord) → check_identity os r ≡ check_identity os (without_progress r)
  unfolding check_identity without_progress
  identity_apart r = refl

  task_apart : (r : WorktreeRecord) → check_task os r ≡ check_task os (without_progress r)
  unfolding check_task without_progress
  task_apart r = refl

  same_identity :
      (a b : WorktreeRecord)
      → without_progress a ≡ without_progress b
      → check_identity os b ≡ returns tt
      → check_identity os a ≡ returns tt
  same_identity a b e h = identity_apart a ∙ ap (check_identity os) e ∙ sym (identity_apart b) ∙ h

  same_task :
      (a b : WorktreeRecord)
      → without_progress a ≡ without_progress b
      → check_task os b ≡ returns tt
      → check_task os a ≡ returns tt
  same_task a b e h = task_apart a ∙ ap (check_task os) e ∙ sym (task_apart b) ∙ h

  -- What a record that passes its checks satisfies.
  pub record Checked (r : WorktreeRecord) : Type 0 where
    pub identity : check_identity os r ≡ returns tt
    pub head : check_sha40 r.head_commit "record_head" ≡ returns tt
    pub task : check_task os r ≡ returns tt
    pub created : check_optional_timestamp r.created_at "created_at" ≡ returns tt
    pub requested :
        check_optional_timestamp r.release_requested_at "release_requested_at" ≡ returns tt
    pub gone : check_optional_timestamp r.released_at "released_at" ≡ returns tt
    pub inventory : check_digest r.inventory_digest "inventory_digest" ≡ returns tt
    pub digest : check_digest r.content_digest "record_digest" ≡ returns tt
    pub since_ready : check_since 2 r.phase r.created_at "created_at" ≡ returns tt
    pub since_asked : check_since 3 r.phase r.release_requested_at "release_requested" ≡ returns tt
    pub since_gone : check_since 4 r.phase r.released_at "released_at" ≡ returns tt

  pub check_record-Checked : (r : WorktreeRecord) → check_record os r ≡ returns tt → Checked r
  unfolding check_record check_evidence check_phase_times
  check_record-Checked r h =
      let headed = past (check_identity os r) _ tt h in
      let tasked = past (check_sha40 r.head_commit "record_head") _ tt headed in
      let seen = past (check_task os r) _ tt tasked in
      let evidence = first_returns (check_evidence r) _ tt seen in
      let times = past (check_evidence r) _ tt seen in
      let a = check_optional_timestamp r.created_at "created_at" in
      let b = check_optional_timestamp r.release_requested_at "release_requested_at" in
      let c = check_optional_timestamp r.released_at "released_at" in
      let d = check_digest r.inventory_digest "inventory_digest" in
      let e = check_since 2 r.phase r.created_at "created_at" in
      let f = check_since 3 r.phase r.release_requested_at "release_requested" in
      let past_a = past a _ tt evidence in
      let past_b = past b _ tt past_a in
      let past_c = past c _ tt past_b in
      let past_e = past e _ tt times in
      record {
        identity = first_returns (check_identity os r) _ tt h;
        head = first_returns (check_sha40 r.head_commit "record_head") _ tt headed;
        task = first_returns (check_task os r) _ tt tasked;
        created = first_returns a _ tt evidence;
        requested = first_returns b _ tt past_a;
        gone = first_returns c _ tt past_b;
        inventory = first_returns d _ tt past_c;
        digest = past d _ tt past_c;
        since_ready = first_returns e _ tt times;
        since_asked = first_returns f _ tt past_e;
        since_gone = past f _ tt past_e;
      }

  pub Checked-check_record : (r : WorktreeRecord) → Checked r → check_record os r ≡ returns tt
  unfolding check_record check_evidence check_phase_times
  Checked-check_record r c = and_next c.identity (
      and_next c.head (
        and_next c.task (
          and_next
            (and_next c.created
              (and_next c.requested (and_next c.gone (and_next c.inventory c.digest))))
            (and_next c.since_ready (and_next c.since_asked c.since_gone)))))

  -- The record that an advance builds passes, whatever its valid digest is.
  pub moved-Checked :
      (c : WorktreeRecord) (target : WorktreePhase) (inventory at h d : String)
      → Checked c
      → position target ≡ position c.phase + 1
      → check_digest inventory "inventory_digest" ≡ returns tt
      → check_timestamp_text at "operation_at" ≡ returns tt
      → check_sha40 h "record_head" ≡ returns tt
      → check_digest d "record_digest" ≡ returns tt
      → Checked (record (moved_to target inventory at (record c { head_commit = h })) {
        content_digest = d;
      })
  unfolding moved_to stamp position check_optional_timestamp check_since without_progress
  moved-Checked c reserved inventory at h d ok step inv time head digest =
      absurd (omega (arith, step))
  moved-Checked c creating inventory at h d ok step inv time head digest = record {
    identity = same_identity _ c refl ok.identity;
    head = head;
    task = same_task _ c refl ok.task;
    created = ok.created;
    requested = ok.requested;
    gone = ok.gone;
    inventory = inv;
    digest = digest;
    since_ready =
        check_since-next 2 c.phase creating c.created_at _ ok.since_ready step
          (λ e. omega (arith, e));
    since_asked =
        check_since-next 3 c.phase creating c.release_requested_at _ ok.since_asked step
          (λ e. omega (arith, e));
    since_gone =
        check_since-next 4 c.phase creating c.released_at _ ok.since_gone step
          (λ e. omega (arith, e));
  }
  moved-Checked c ready inventory at h d ok step inv time head digest = record {
    identity = same_identity _ c refl ok.identity;
    head = head;
    task = same_task _ c refl ok.task;
    created = check_timestamp_text-name at "operation_at" "created_at" time;
    requested = ok.requested;
    gone = ok.gone;
    inventory = inv;
    digest = digest;
    since_ready = refl;
    since_asked =
        check_since-next 3 c.phase ready c.release_requested_at _ ok.since_asked step
          (λ e. omega (arith, e));
    since_gone =
        check_since-next 4 c.phase ready c.released_at _ ok.since_gone step (λ e. omega (arith, e));
  }
  moved-Checked c releasing inventory at h d ok step inv time head digest = record {
    identity = same_identity _ c refl ok.identity;
    head = head;
    task = same_task _ c refl ok.task;
    created = ok.created;
    requested = check_timestamp_text-name at "operation_at" "release_requested_at" time;
    gone = ok.gone;
    inventory = inv;
    digest = digest;
    since_ready =
        check_since-next 2 c.phase releasing c.created_at _ ok.since_ready step
          (λ e. omega (arith, e));
    since_asked = refl;
    since_gone =
        check_since-next 4 c.phase releasing c.released_at _ ok.since_gone step
          (λ e. omega (arith, e));
  }
  moved-Checked c released inventory at h d ok step inv time head digest = record {
    identity = same_identity _ c refl ok.identity;
    head = head;
    task = same_task _ c refl ok.task;
    created = ok.created;
    requested = ok.requested;
    gone = check_timestamp_text-name at "operation_at" "released_at" time;
    inventory = inv;
    digest = digest;
    since_ready =
        check_since-next 2 c.phase released c.created_at _ ok.since_ready step
          (λ e. omega (arith, e));
    since_asked =
        check_since-next 3 c.phase released c.release_requested_at _ ok.since_asked step
          (λ e. omega (arith, e));
    since_gone = refl;
  }
