-- ===== src/Pairing/Revoked.antt =====
-- What `authenticate` and the revocations (skills/agentdesk/scripts/dockyard_pairing.py) write.
use dockyard.Base.Text
use dockyard.Base.{
  ℕ, ◌+◌, ◌≡◌, sym, ap, subst, ◌∙◌, ltb, ◌==◌, comparable_number, comparable_string, String, Bool,
  true, false, not, [], ◌∷◌, some, if◌then◌else◌, returns, require, or_raise, arith, inl, inr,
  Bool-cases, ==-refl, peel, past, guarded,
}
use dockyard.Pairing.Records.{
  DeviceRecord, PairingStore, AuthenticateRequest, AuthenticationResult, DeviceScope, Primitives,
  comparable_scope, absent, write_device, make_device, instant, check_after, last_used_clock,
  revoked_clock, clock_rollback, divergent_replay, scope_text, request_digest, device_missing,
  device_revoked, stale_generation, already_revoked,
}
use dockyard.Pairing.Devices.{
  check_device, check_used, authenticated, authenticate, revoked, revoke_found, revoke_device,
  revoke_one,
}
use dockyard.Pairing.Changes.{
  is_active, Keeps, Keeps-refl, Filed, IsFiled, write_device-Keeps, or_raise-some, same-true,
}

module _ (env : Primitives) where
  check_device-stored :
      (s : PairingStore) (id token : String) (scope : DeviceScope) (d : DeviceRecord)
      → check_device env s id token scope ≡ returns d
      → (s.devices id ≡ some d) × (is_active d ≡ true)
  unfolding check_device
  check_device-stored s id token scope d h =
      let (e, stored, k) = peel (or_raise (s.devices id) device_missing) _ d h in
      let (active, k₁) = guarded (absent e.revoked_at) device_revoked _ k in
      let same : e ≡ d = ground (arith, k₁) in
      (
        or_raise-some (s.devices id) device_missing e stored ∙ ap some same,
        ap is_active (sym same) ∙ active,
      )

  write_device-stored :
      (s : PairingStore) (id : String) (f e : DeviceRecord)
      → f ≡ e
      → (write_device s id f).devices id ≡ some e
  unfolding write_device
  write_device-stored s id f e h = rw (==-refl id) (ap some h)

  revoked-at :
      (d f : DeviceRecord) (at operation digest : String)
      → revoked env d at operation digest ≡ returns f
      → f.revoked_at ≡ some at
  unfolding revoked make_device
  revoked-at d f at operation digest h =
      let (t₁, i₁, k₁) = peel (instant env d.issued_at) _ f h in
      let k₂ = past (check_after env d.last_used_at t₁ last_used_clock) _ f k₁ in
      ground (arith, past (check_after env (some at) t₁ revoked_clock) _ f k₂)

  make_device-id : (d e : DeviceRecord) → make_device env d ≡ returns e → e.device_id ≡ d.device_id
  unfolding make_device
  make_device-id d e h =
      let (t₁, i₁, k₁) = peel (instant env d.issued_at) _ e h in
      let k₂ = past (check_after env d.last_used_at t₁ last_used_clock) _ e k₁ in
      let k₃ = past (check_after env d.revoked_at t₁ revoked_clock) _ e k₂ in
      let same : record d { content_digest = env.device_digest d } ≡ e = ground (arith) in
      ap (λ x. x.device_id) (sym same)

  revoked-id :
      (d f : DeviceRecord) (at operation digest : String)
      → revoked env d at operation digest ≡ returns f
      → f.device_id ≡ d.device_id
  unfolding revoked
  revoked-id d f at operation digest h =
      make_device-id
        (record d {
          revoked_at = some at;
          generation = d.generation + 1;
          last_operation_id = operation;
          last_request_digest = digest;
        })
        f h

  abbrev renewed : DeviceRecord → AuthenticateRequest → DeviceRecord
  renewed d q = record d {
    last_used_at = some q.authenticated_at;
    generation = d.generation + 1;
    last_operation_id = q.operation_id;
    last_request_digest =
        request_digest env "authenticate"
          (q.device_id ∷ scope_text q.required_scope ∷ q.authenticated_at ∷ []);
  }

  authenticated-id :
      (d : DeviceRecord) (q : AuthenticateRequest) (e : DeviceRecord × Bool)
      → authenticated env d q ≡ returns e
      → e.0.device_id ≡ d.device_id
  unfolding authenticated
  authenticated-id d q e h = elim (Bool-cases (d.last_operation_id == q.operation_id)) [
    | inl same ↦
        let k = rw same at h in
        let (equal, k₁) =
          guarded (d.last_request_digest == (renewed d q).last_request_digest) divergent_replay _
            k in
        let out : (d, true) ≡ e = ground (arith, k₁) in ap (λ x. x.0.device_id) (sym out)
    | inr other ↦
        let k = rw other at h in
        let (now, i₁, k₁) = peel (instant env q.authenticated_at) _ e k in
        let (issued, i₂, k₂) = peel (instant env d.issued_at) _ e k₁ in
        let k₃ = past (require (not (ltb now issued)) clock_rollback) _ e k₂ in
        let k₄ = past (check_used env d.last_used_at now) _ e k₃ in
        let (u, made, k₅) = peel (make_device env (renewed d q)) _ e k₄ in
        let out : (u, false) ≡ e = ground (arith, k₅) in
        ap (λ x. x.0.device_id) (sym out) ∙ make_device-id (renewed d q) u made
  ]

  pub authenticate-Keeps :
      (s t : PairingStore) (q : AuthenticateRequest) (r : AuthenticationResult)
      → Filed s
      → authenticate env s q ≡ returns (t, r)
      → Keeps s t
  unfolding authenticate IsFiled
  authenticate-Keeps s t q r f h =
      let (d, checked, k) =
        peel (check_device env s q.device_id q.device_token q.required_scope) _ (t, r) h in
      let (e, made, k₁) = peel (authenticated env d q) _ (t, r) k in
      let (found, active) =
        check_device-stored s q.device_id q.device_token q.required_scope d checked in
      let stored = ap s.devices (f.devices_filed q.device_id d found) ∙ found in
      let written : (if e.1 then s else write_device s d.device_id e.0) ≡ t = ground (arith) in
      subst (λ u. Keeps s u) written
        (either e.1 (Keeps-refl s f) (
          write_device-Keeps s d.device_id e.0 f (authenticated-id d q e made)
            (λ old there. same-true is_active (s.devices d.device_id) d old stored active there)))
    where
      either :
          (b : Bool) {x y : PairingStore} → Keeps s x → Keeps s y → Keeps s (if b then x else y)
      either true k l = k
      either false k l = l

  revoke_found-Keeps :
      (s t : PairingStore) (id : String) (g : ℕ) (at operation : String) (d e : DeviceRecord)
      → Filed s
      → s.devices d.device_id ≡ some d
      → revoke_found env s id g at operation d ≡ returns (t, e)
      → Keeps s t
  unfolding revoke_found
  revoke_found-Keeps s t id g at operation d e filed stored h =
      elim (Bool-cases (d.last_operation_id == operation)) [
        | inl same ↦
            let k = rw same at h in
            let equal : s ≡ t = ground (arith) in subst (λ u. Keeps s u) equal (Keeps-refl s filed)
        | inr other ↦
            let k = rw other at h in
            let k₁ = past (require (d.generation == g) stale_generation) _ (t, e) k in
            let (active, k₂) = guarded (absent d.revoked_at) already_revoked _ k₁ in
            let (now, i₁, k₃) = peel (instant env at) _ (t, e) k₂ in
            let (issued, i₂, k₄) = peel (instant env d.issued_at) _ (t, e) k₃ in
            let k₅ = past (require (not (ltb now issued)) clock_rollback) _ (t, e) k₄ in
            let (f, made, k₆) =
              peel
                (revoked env d at operation
                  (request_digest env "revoke" (id ∷ Text.decimal g ∷ at ∷ [])))
                _ (t, e) k₅ in
            let written : write_device s d.device_id f ≡ t = ground (arith) in
            subst (λ u. Keeps s u) written
              (write_device-Keeps s d.device_id f filed (revoked-id d f at operation _ made)
                (λ old there.
                  same-true is_active (s.devices d.device_id) d old stored active there))
      ]

  pub revoke_device-Keeps :
      (s t : PairingStore) (id : String) (g : ℕ) (at operation : String) (e : DeviceRecord)
      → Filed s
      → revoke_device env s id g at operation ≡ returns (t, e)
      → Keeps s t
  unfolding revoke_device IsFiled
  revoke_device-Keeps s t id g at operation e filed h =
      let (d, stored, k) = peel (or_raise (s.devices id) device_missing) _ (t, e) h in
      let found = or_raise-some (s.devices id) device_missing d stored in
      revoke_found-Keeps s t id g at operation d e filed
        (ap s.devices (filed.devices_filed id d found) ∙ found) k

  -- A turn of `revoke_all` leaves its device revoked.
  pub revoke_one-Keeps :
      (s t : PairingStore) (at operation id : String) (e : DeviceRecord)
      → Filed s
      → revoke_one env s at operation id ≡ returns (t, e)
      → Keeps s t × (t.devices id ≡ some e) × (is_active e ≡ false)
  unfolding revoke_one IsFiled
  revoke_one-Keeps s t at operation id e filed h =
      let (d, found, k) = peel (or_raise (s.devices id) device_missing) _ (t, e) h in
      let stored = or_raise-some (s.devices id) device_missing d found in
      elim (Bool-cases (absent d.revoked_at)) [
        | inl active ↦
            let k₁ = rw active at k in
            let (f, made, k₂) =
              peel
                (revoked env d at operation
                  (request_digest env "revoke_all" (d.device_id ∷ at ∷ operation ∷ [])))
                _ (t, e) k₁ in
            let written : write_device s id f ≡ t = ground (arith) in
            let out : f ≡ e = ground (arith) in
            (
              subst (λ u. Keeps s u) written
                  (write_device-Keeps s id f filed
                    (revoked-id d f at operation _ made ∙ filed.devices_filed id d stored)
                    (λ old there. same-true is_active (s.devices id) d old stored active there)),
              subst (λ u. u.devices id ≡ some e) written (write_device-stored s id f e out),
              ap is_active (sym out) ∙ ap absent (revoked-at d f at operation _ made),
            )
        | inr gone ↦
            let k₁ = rw gone at k in
            let equal : s ≡ t = ground (arith) in
            let out : d ≡ e = ground (arith) in
            (
              subst (λ u. Keeps s u) equal (Keeps-refl s filed),
              ap (λ u. u.devices id) (sym equal) ∙ stored ∙ ap some out,
              ap is_active (sym out) ∙ gone,
            )
      ]
