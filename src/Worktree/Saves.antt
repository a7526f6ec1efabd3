-- ===== src/Worktree/Saves.antt =====
-- What reserving a worktree and creating its record write
-- (skills/agentdesk/scripts/worktree_lifecycle_store.py).
use dockyard.Base.Text.{list_eq}
use dockyard.Base.{
  ◌≡◌, refl, sym, ap, subst, ◌∙◌, ◌==◌, comparable_string, String, true, Option, none, some,
  returns, or_raise, peel, past, first_returns, guarded, returned_same, ==-refl, eq_of_==,
}
use dockyard.Portfolio.Codec.{Line}
use dockyard.Worktree.{
  Platform, check_safe_id, comparable_action, comparable_phase, create, creating, not_found_error,
}
use dockyard.Worktree.Records.{
  WorktreeRecord, WorktreeRequest, WorktreeReservation, check_record, check_reservation,
  encode_record, encode_reservation, fields_digest, record_fields, reservation_fields,
  with_reservation_digest, zero_digest,
}
use dockyard.Worktree.Identity.{
  derive_reservation_id, fresh_reservation, make_reservation, validate_request_identity,
}
use dockyard.Worktree.Store.{
  WorktreeStore, create_record, is_bound, load_record, load_reservation, read_reservation,
  record_file, reservation_file, reserve, save_record, save_reservation, write_file,
}
use dockyard.Worktree.Moves.{load_record-same, load_record-valid}
use dockyard.Worktree.Changes.{or_raise-some}

module _ (os : Platform) where
  pub load_reservation-same :
      (r x : WorktreeReservation) → load_reservation os r ≡ returns x → x ≡ r
  unfolding load_reservation
  load_reservation-same r x h =
      let (file, encoded, out) =
        peel (encode_reservation os r) _ x (past (check_reservation os r) _ x h) in
      sym (returned_same (returns r) refl out)

  pub load_reservation-valid :
      (r : WorktreeReservation)
      → check_reservation os r ≡ returns tt
      → r.content_digest ≡ fields_digest os (reservation_fields r)
      → load_reservation os r ≡ returns r
  unfolding load_reservation encode_reservation
  load_reservation-valid r checked digest =
      rw (checked, digest, ==-refl (fields_digest os (reservation_fields r))) refl

  pub read_reservation-stored :
      (s : WorktreeStore) (id : String) (v : WorktreeReservation)
      → read_reservation os s id ≡ returns v
      → s.reservations id ≡ some v
  unfolding read_reservation
  read_reservation-stored s id v h =
      let (f, found, loaded) =
        peel (or_raise (s.reservations id) (not_found_error "evidence_missing")) _ v
          (past (check_safe_id os id "evidence_worktree_id" "WT-") _ v h) in
      or_raise-some (s.reservations id) _ f found ∙ ap some (sym (load_reservation-same f v loaded))

  digest_apart :
      (r : WorktreeReservation) (d : String)
      → reservation_fields (record r { content_digest = d }) ≡ reservation_fields r
  unfolding reservation_fields
  digest_apart r d = refl

  with_reservation_digest-valid :
      (r x : WorktreeReservation)
      → with_reservation_digest os r ≡ returns x
      → (x ≡ record r { content_digest = fields_digest os (reservation_fields r) })
        × (load_reservation os x ≡ returns x)
  unfolding with_reservation_digest
  with_reservation_digest-valid r x h =
      let d = fields_digest os (reservation_fields r) in
      let y = record r { content_digest = d } in
      let rest = past (check_reservation os (record r { content_digest = zero_digest })) _ x h in
      let checked = first_returns (check_reservation os y) _ x rest in
      let same = returned_same (returns y) refl (past (check_reservation os y) _ x rest) in
      let own : d ≡ fields_digest os (reservation_fields y) =
        ap (fields_digest os) (sym (digest_apart r d)) in
      (
        sym same,
        subst (λ z. load_reservation os z ≡ returns z) same (load_reservation-valid y checked own),
      )

  -- A reservation made for a request is for its worktree, and its file can be read.
  pub make_reservation-valid :
      (q : WorktreeRequest) (v : WorktreeReservation)
      → make_reservation os q ≡ returns v
      → (v.worktree_id ≡ q.expected_worktree_id) × (load_reservation os v ≡ returns v)
  unfolding make_reservation fresh_reservation
  make_reservation-valid q v h =
      let (id, derived, rest) =
        peel (derive_reservation_id os q.expected_worktree_id q) _ v
          (past (validate_request_identity os q) _ v h) in
      let fresh = fresh_reservation os q id in
      let (is, loads) =
        with_reservation_digest-valid fresh v (past (check_reservation os fresh) _ v rest) in
      (ap (λ x. x.worktree_id) is, loads)

  -- The outcome of a reservation: written, or found.
  pub data Reserved (s t : WorktreeStore) (id : String) (r : WorktreeReservation) : Type 0 where
    wrote :
        s.reservations id ≡ none
        → t ≡ record s { reservations = write_file id r s.reservations }
        → r.worktree_id ≡ id
        → load_reservation os r ≡ returns r
        → Reserved s t id r
    found : s.reservations id ≡ some r → t ≡ s → Reserved s t id r

  save_reservation-Reserved :
      (s t : WorktreeStore) (v r : WorktreeReservation) (file : Line)
      (o : Option WorktreeReservation)
      → s.reservations v.worktree_id ≡ o
      → load_reservation os v ≡ returns v
      → save_reservation os s v file o ≡ returns (t, r)
      → Reserved s t v.worktree_id r
  unfolding save_reservation
  save_reservation-Reserved s t v r file none empty loads h =
      let pair =
        returned_same
          (returns (record s { reservations = write_file v.worktree_id v s.reservations }, v)) refl
          h in
      let is : v ≡ r = ap (λ p. p.1) pair in
      wrote empty
        (sym (ap (λ p. p.0) pair)
          ∙ ap (λ x. record s { reservations = write_file v.worktree_id x s.reservations }) is)
        (ap (λ x. x.worktree_id) (sym is)) (subst (λ x. load_reservation os x ≡ returns x) is loads)
  save_reservation-Reserved s t v r file (some e) there loads h =
      let same = (guarded (list_eq (reservation_file e) file) _ _ h).1 in
      let (x, loaded, out) = peel (load_reservation os e) _ (t, r) same in
      let pair = returned_same (returns (s, x)) refl out in
      found (there ∙ ap some (sym (load_reservation-same e x loaded) ∙ ap (λ p. p.1) pair))
        (sym (ap (λ p. p.0) pair))

  pub reserve-Reserved :
      (root : String) (s t : WorktreeStore) (q : WorktreeRequest) (r : WorktreeReservation)
      → reserve os root s q ≡ returns (t, r)
      → Reserved s t q.expected_worktree_id r
  unfolding reserve
  reserve-Reserved root s t q r h =
      let acted =
        (guarded (q.action == create) _ _ (past (validate_request_identity os q) _ (t, r) h)).1 in
      let rooted = (guarded (os.normcase q.repository_root == os.normcase root) _ _ acted).1 in
      let (v, made, rest) = peel (make_reservation os q) _ (t, r) rooted in
      let (file, encoded, more) = peel (encode_reservation os v) _ (t, r) rest in
      let saved =
        past (check_safe_id os v.worktree_id "evidence_worktree_id" "WT-") _ (t, r) more in
      let (own, loads) = make_reservation-valid q v made in
      subst (λ id. Reserved s t id r) own
        (save_reservation-Reserved s t v r file (s.reservations v.worktree_id) refl loads saved)

  -- The outcome of creating a record.
  pub data Created (s t : WorktreeStore) (r x : WorktreeRecord) : Type 0 where
    fresh :
        (v : WorktreeReservation)
        → s.records r.worktree_id ≡ none
        → s.reservations r.worktree_id ≡ some v
        → is_bound r v ≡ true
        → t ≡ record s { records = write_file r.worktree_id r s.records }
        → x ≡ r
        → load_record os r ≡ returns r
        → Created s t r x
    again : s.records r.worktree_id ≡ some x → t ≡ s → Created s t r x

  save_record-Created :
      (s t : WorktreeStore) (v : WorktreeReservation) (r x : WorktreeRecord) (file : Line)
      (o : Option WorktreeRecord)
      → s.records r.worktree_id ≡ o
      → s.reservations r.worktree_id ≡ some v
      → is_bound r v ≡ true
      → load_record os r ≡ returns r
      → save_record os s r file o ≡ returns (t, x)
      → Created s t r x
  unfolding save_record
  save_record-Created s t v r x file none empty there bound loads h =
      let pair =
        returned_same (returns (record s { records = write_file r.worktree_id r s.records }, r))
          refl h in
      fresh v empty there bound (sym (ap (λ p. p.0) pair)) (sym (ap (λ p. p.1) pair)) loads
  save_record-Created s t v r x file (some e) stored there bound loads h =
      let same = (guarded (list_eq (record_file e) file) _ _ h).1 in
      let (y, loaded, out) = peel (load_record os e) _ (t, x) same in
      let pair = returned_same (returns (s, y)) refl out in
      again (stored ∙ ap some (sym (load_record-same os e y loaded).0 ∙ ap (λ p. p.1) pair))
        (sym (ap (λ p. p.0) pair))

  pub create_record-Created :
      (s t : WorktreeStore) (r x : WorktreeRecord)
      → check_record os r ≡ returns tt
      → create_record os s r ≡ returns (t, x)
      → Created s t r x × (r.phase ≡ creating)
  unfolding create_record encode_record
  create_record-Created s t r x valid h =
      let (first, begun) = guarded (r.phase == creating) _ _ h in
      let (v, read, rest) = peel (read_reservation os s r.worktree_id) _ (t, x) begun in
      let (bound, more) = guarded (is_bound r v) _ _ rest in
      let (file, encoded, last) = peel (encode_record os r) _ (t, x) more in
      let digest =
        (guarded (r.content_digest == fields_digest os (record_fields r)) _ _ encoded).0 in
      let saved =
        past (check_safe_id os r.worktree_id "evidence_worktree_id" "WT-") _ (t, x) last in
      let loads = load_record-valid os r valid (eq_of_== r.content_digest _ digest) in
      (
        save_record-Created s t v r x file (s.records r.worktree_id) refl
            (read_reservation-stored s r.worktree_id v read) bound loads saved,
        eq_of_== r.phase creating first,
      )
