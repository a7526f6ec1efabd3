-- ===== src/Worktree/Moves.antt =====
-- What reading, creating and advancing a record of
-- skills/agentdesk/scripts/worktree_lifecycle_store.py guarantee.

use dockyard.Base.{
  ℕ, ◌+◌, ◌≤◌, ◌≡◌, refl, sym, ap, subst, ◌∙◌, ◌==◌, comparable_number, comparable_string, String,
  Option, none, some, returns, arith, peel, past, first_returns, guarded, returned_same, required,
  ==-refl, eq_of_==, leb,
}
use dockyard.Worktree.{
  Platform, WorktreePhase, check_sha40, comparable_phase, creating, position, ready, released,
  releasing, reserved,
}
use dockyard.Worktree.Records.{
  WorktreeRecord, check_evidence, check_identity, check_phase_times, check_record, check_since,
  check_task, encode_record, fields_digest, record_fields, with_record_digest, zero_digest,
}
use dockyard.Worktree.Store.{
  WorktreeStore, load_record, moved_to, stamp, store_advanced, with_head, write_file,
}

-- What a record says whatever its phase.
unfoldable pub without_progress : WorktreeRecord → WorktreeRecord
without_progress r = record r {
  head_commit = "";
  phase = reserved;
  created_at = none;
  release_requested_at = none;
  released_at = none;
  inventory_digest = "";
  content_digest = "";
}

abbrev pub Stays : Option String → Option String → Type 0
Stays before after = (at : String) → before ≡ some at → after ≡ some at

-- The same worktree, later or as late.
pub record RecordGrows (a b : WorktreeRecord) : Type 0 where
  pub identity : without_progress b ≡ without_progress a
  pub phase_kept : position a.phase ≤ position b.phase
  pub created_kept : Stays a.created_at b.created_at
  pub requested_kept : Stays a.release_requested_at b.release_requested_at
  pub released_kept : Stays a.released_at b.released_at

pub RecordGrows-refl : (a : WorktreeRecord) → RecordGrows a a
RecordGrows-refl a = record {
  identity = refl;
  phase_kept = omega arith;
  created_kept = λ at h. h;
  requested_kept = λ at h. h;
  released_kept = λ at h. h;
}

pub RecordGrows-trans :
    (a b c : WorktreeRecord) → RecordGrows a b → RecordGrows b c → RecordGrows a c
RecordGrows-trans a b c g h = record {
  identity = h.identity ∙ g.identity;
  phase_kept = let p = g.phase_kept in let q = h.phase_kept in omega arith;
  created_kept = λ at e. h.created_kept at (g.created_kept at e);
  requested_kept = λ at e. h.requested_kept at (g.requested_kept at e);
  released_kept = λ at e. h.released_kept at (g.released_kept at e);
}

check_since-early :
    (n : ℕ) (phase : WorktreePhase) (o : Option String) (name at : String)
    → check_since n phase o name ≡ returns tt
    → o ≡ some at
    → n ≤ position phase
unfolding check_since
check_since-early n phase none name at h e = cc
check_since-early n phase (some x) name at h e =
    let ok = required (leb n (position phase)) _ h in ground (arith)

module _ (os : Platform) where
  pub load_record-same :
      (r x : WorktreeRecord)
      → load_record os r ≡ returns x
      → (x ≡ r)
        × (check_record os r ≡ returns tt)
        × (r.content_digest ≡ fields_digest os (record_fields r))
  unfolding load_record encode_record
  load_record-same r x h =
      let checked = first_returns (check_record os r) _ x h in
      let (file, encoded, out) = peel (encode_record os r) _ x (past (check_record os r) _ x h) in
      let digest =
        (guarded (r.content_digest == fields_digest os (record_fields r)) _ _ encoded).0 in
      (sym (returned_same (returns r) refl out), checked, eq_of_== r.content_digest _ digest)

  -- A record that passes the checks and has its own digest is what its file decodes to.
  pub load_record-valid :
      (r : WorktreeRecord)
      → check_record os r ≡ returns tt
      → r.content_digest ≡ fields_digest os (record_fields r)
      → load_record os r ≡ returns r
  unfolding load_record encode_record
  load_record-valid r checked digest =
      rw (checked, digest, ==-refl (fields_digest os (record_fields r))) refl

  -- The fields do not read the digest.
  digest_apart :
      (r : WorktreeRecord) (d : String)
      → record_fields (record r { content_digest = d }) ≡ record_fields r
  unfolding record_fields
  digest_apart r d = refl

  pub with_record_digest-valid :
      (r x : WorktreeRecord)
      → with_record_digest os r ≡ returns x
      → (x ≡ record r { content_digest = fields_digest os (record_fields r) })
        × (load_record os x ≡ returns x)
  unfolding with_record_digest
  with_record_digest-valid r x h =
      let d = fields_digest os (record_fields r) in
      let y = record r { content_digest = d } in
      let rest = past (check_record os (record r { content_digest = zero_digest })) _ x h in
      let checked = first_returns (check_record os y) _ x rest in
      let same = returned_same (returns y) refl (past (check_record os y) _ x rest) in
      let own : d ≡ fields_digest os (record_fields y) =
        ap (fields_digest os) (sym (digest_apart r d)) in
      (sym same, subst (λ z. load_record os z ≡ returns z) same (load_record-valid y checked own))

  -- What an advance writes.
  pub store_advanced-writes :
      (s t : WorktreeStore) (id : String) (u r : WorktreeRecord)
      → store_advanced os s id u ≡ returns (t, r)
      → (t ≡ record s { records = write_file id r s.records })
        × (r ≡ record u { content_digest = fields_digest os (record_fields u) })
        × (load_record os r ≡ returns r)
        × (check_record os u ≡ returns tt)
  unfolding store_advanced
  store_advanced-writes s t id u r h =
      let checked = first_returns (check_record os u) _ (t, r) h in
      let (a, made, rest) =
        peel (with_record_digest os u) _ (t, r) (past (check_record os u) _ (t, r) h) in
      let (file, encoded, out) = peel (encode_record os a) _ (t, r) rest in
      let pair =
        returned_same (returns (record s { records = write_file id a s.records }, a)) refl out in
      let same : a ≡ r = ap (λ p. p.1) pair in
      let (is, loads) = with_record_digest-valid u a made in
      (
        sym (ap (λ p. p.0) pair) ∙ ap (λ b. record s { records = write_file id b s.records }) same,
        sym same ∙ is,
        subst (λ b. load_record os b ≡ returns b) same loads,
        checked,
      )

  -- When a value may be there.
  pub phase_times :
      (r : WorktreeRecord) (at : String)
      → check_record os r ≡ returns tt
      → (r.created_at ≡ some at → 2 ≤ position r.phase)
        × (r.release_requested_at ≡ some at → 3 ≤ position r.phase)
        × (r.released_at ≡ some at → 4 ≤ position r.phase)
  unfolding check_record check_phase_times
  phase_times r at h =
      let headed = past (check_identity os r) _ tt h in
      let tasked = past (check_sha40 r.head_commit "record_head") _ tt headed in
      let times = past (check_evidence r) _ tt (past (check_task os r) _ tt tasked) in
      let c = check_since 2 r.phase r.created_at "created_at" in
      let q = check_since 3 r.phase r.release_requested_at "release_requested" in
      let more = past c _ tt times in
      (
        λ e. check_since-early 2 r.phase r.created_at _ at (first_returns c _ tt times) e,
        λ e. check_since-early 3 r.phase r.release_requested_at _ at (first_returns q _ tt more) e,
        λ e. check_since-early 4 r.phase r.released_at _ at (past q _ tt more) e,
      )

  pub with_head-returns :
      (head : Option String) (r u : WorktreeRecord)
      → with_head head r ≡ returns u
      → (h : String) × (u ≡ record r { head_commit = h })
  unfolding with_head
  with_head-returns none r u h = (r.head_commit, sym (returned_same (returns r) refl h))
  with_head-returns (some head) r u h = (
    head,
    sym (
        returned_same (returns (record r { head_commit = head })) refl
          (past (check_sha40 head "advance_head") _ u h)),
  )

  pub moved-RecordGrows :
      (r : WorktreeRecord) (target : WorktreePhase) (inventory at head digest : String)
      → check_record os r ≡ returns tt
      → position target ≡ position r.phase + 1
      → RecordGrows r (record (moved_to target inventory at (record r { head_commit = head })) {
        content_digest = digest;
      })
  unfolding without_progress moved_to stamp position
  moved-RecordGrows r reserved inventory at head digest valid next = absurd (omega (arith, next))
  moved-RecordGrows r creating inventory at head digest valid next = record {
    identity = refl;
    phase_kept = omega (arith, next);
    created_kept = λ t e. e;
    requested_kept = λ t e. e;
    released_kept = λ t e. e;
  }
  moved-RecordGrows r ready inventory at head digest valid next = record {
    identity = refl;
    phase_kept = omega (arith, next);
    created_kept = λ t e. let early = (phase_times r t valid).0 e in absurd (omega (arith, next));
    requested_kept = λ t e. e;
    released_kept = λ t e. e;
  }
  moved-RecordGrows r releasing inventory at head digest valid next = record {
    identity = refl;
    phase_kept = omega (arith, next);
    created_kept = λ t e. e;
    requested_kept = λ t e. let early = (phase_times r t valid).1 e in absurd (omega (arith, next));
    released_kept = λ t e. e;
  }
  moved-RecordGrows r released inventory at head digest valid next = record {
    identity = refl;
    phase_kept = omega (arith, next);
    created_kept = λ t e. e;
    requested_kept = λ t e. e;
    released_kept = λ t e. let early = (phase_times r t valid).2 e in absurd (omega (arith, next));
  }
