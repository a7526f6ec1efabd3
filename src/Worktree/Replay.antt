-- ===== src/Worktree/Replay.antt =====
-- A reservation in skills/agentdesk/scripts/worktree_lifecycle_store.py that is asked for again.
use dockyard.Base.Text.{list_eq}
use dockyard.Base.{
  ◌≡◌, refl, sym, ap, subst, ◌∙◌, ◌==◌, comparable_string, String, true, Option, none, some,
  returns, peel, past, first_returns, guarded, returned_same, and_next, bind_next, require,
}
use dockyard.Portfolio.Codec.{Line}
use dockyard.Portfolio.Codec.RoundTrip.{list_eq_refl}
use dockyard.Worktree.{
  Platform, check_safe_id, comparable_action, conflict_error, create, input_error,
}
use dockyard.Worktree.Records.{
  WorktreeRequest, WorktreeReservation, encode_reservation, fields_digest, reservation_fields,
}
use dockyard.Worktree.Identity.{make_reservation, validate_request_identity}
use dockyard.Worktree.Store.{
  WorktreeStore, load_reservation, reservation_file, reserve, save_reservation, write_file,
}
use dockyard.Worktree.Saves.{load_reservation-same, make_reservation-valid}
use dockyard.Worktree.History.{Reach, Reach-Progress, write_file-own}

module _ (os : Platform) where
  encode_reservation-file :
      (v : WorktreeReservation) (file : Line)
      → encode_reservation os v ≡ returns file
      → reservation_file v ≡ file
  unfolding encode_reservation reservation_file
  encode_reservation-file v file h =
      returned_same (returns (reservation_file v)) refl
        (guarded (v.content_digest == fields_digest os (reservation_fields v)) _ _ h).1

  -- A reservation that was saved or found is there, can be read, and has the text of the request.
  save_reservation-there :
      (s t : WorktreeStore) (v r : WorktreeReservation) (file : Line)
      (o : Option WorktreeReservation)
      → s.reservations v.worktree_id ≡ o
      → load_reservation os v ≡ returns v
      → reservation_file v ≡ file
      → save_reservation os s v file o ≡ returns (t, r)
      → (t.reservations v.worktree_id ≡ some r)
        × (load_reservation os r ≡ returns r)
        × (list_eq (reservation_file r) file ≡ true)
  unfolding save_reservation
  save_reservation-there s t v r file none empty loads text h =
      let pair =
        returned_same
          (returns (record s { reservations = write_file v.worktree_id v s.reservations }, v)) refl
          h in
      let is : v ≡ r = ap (λ p. p.1) pair in
      let there =
        ap (λ p. p.0.reservations v.worktree_id) (sym pair)
        ∙ write_file-own v.worktree_id v s.reservations in
      (
        there ∙ ap some is,
        subst (λ x. load_reservation os x ≡ returns x) is loads,
        subst (λ x. list_eq (reservation_file x) file ≡ true) is
            (subst (λ f. list_eq (reservation_file v) f ≡ true) text
              (list_eq_refl (reservation_file v))),
      )
  save_reservation-there s t v r file (some e) stored loads text h =
      let (same, rest) = guarded (list_eq (reservation_file e) file) _ _ h in
      let (x, loaded, out) = peel (load_reservation os e) _ (t, r) rest in
      let pair = returned_same (returns (s, x)) refl out in
      let is : e ≡ r = sym (load_reservation-same os e x loaded) ∙ ap (λ p. p.1) pair in
      let reads : load_reservation os e ≡ returns e =
        loaded ∙ ap returns (load_reservation-same os e x loaded) in
      (
        ap (λ p. p.0.reservations v.worktree_id) (sym pair) ∙ stored ∙ ap some is,
        subst (λ y. load_reservation os y ≡ returns y) is reads,
        subst (λ y. list_eq (reservation_file y) file ≡ true) is same,
      )

  save_reservation-again :
      (u : WorktreeStore) (v r : WorktreeReservation) (file : Line)
      → load_reservation os r ≡ returns r
      → list_eq (reservation_file r) file ≡ true
      → save_reservation os u v file (some r) ≡ returns (u, r)
  unfolding save_reservation
  save_reservation-again u v r file loads same = rw (same, loads) refl

  -- A reservation is made once: when reserve has returned a reservation for a request, then in
  -- every later store reserve with that request returns the same reservation and writes nothing.
  pub reserve-again :
      (root : String) (s t u : WorktreeStore) (q : WorktreeRequest) (r : WorktreeReservation)
      → reserve os root s q ≡ returns (t, r)
      → Reach os t u
      → reserve os root u q ≡ returns (u, r)
  unfolding reserve
  reserve-again root s t u q r h later =
      let identified = first_returns (validate_request_identity os q) _ (t, r) h in
      let (acted, rest) =
        guarded (q.action == create) _ _ (past (validate_request_identity os q) _ (t, r) h) in
      let (rooted, more) = guarded (os.normcase q.repository_root == os.normcase root) _ _ rest in
      let (v, made, last) = peel (make_reservation os q) _ (t, r) more in
      let (file, encoded, saving) = peel (encode_reservation os v) _ (t, r) last in
      let safe =
        first_returns (check_safe_id os v.worktree_id "evidence_worktree_id" "WT-") _ (t, r)
          saving in
      let saved =
        past (check_safe_id os v.worktree_id "evidence_worktree_id" "WT-") _ (t, r) saving in
      let (there, loads, same) =
        save_reservation-there s t v r file (s.reservations v.worktree_id) refl
          (make_reservation-valid os q v made).1 (encode_reservation-file v file encoded) saved in
      let still = (Reach-Progress os later).reservations_kept v.worktree_id r there in
      and_next identified (
        and_next (ap (λ b. require b (input_error "reserve_action")) acted) (
          and_next (ap (λ b. require b (conflict_error "repository_root")) rooted) (
            bind_next _ made (
              bind_next _ encoded (
                and_next safe (
                  ap (save_reservation os u v file) still
                  ∙ save_reservation-again u v r file loads same))))))
