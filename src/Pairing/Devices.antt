-- ===== src/Pairing/Devices.antt =====
-- Paired devices in skills/agentdesk/scripts/dockyard_pairing.py: tokens and their revocation.
use dockyard.Base.Text
use dockyard.Base.Text.{◌<>◌}
use dockyard.Base.{
  ℕ, ◌+◌, ltb, ◌==◌, comparable_number, comparable_string, String, Bool, true, false, not, List, [],
  ◌∷◌, any, length, Option, none, some, if◌then◌else◌, Attempt, returns, raises, require, or_raise,
  ◌>>=◌, ◌>>◌,
}
use dockyard.Pairing.Records.{
  AuthenticateRequest, AuthenticationResult, DeviceRecord, DeviceScope, PairingError, PairingStore,
  Primitives, absent, already_revoked, clock_rollback, comparable_scope, device_limit,
  device_missing, device_revoked, device_scope, divergent_replay, instant, make_device,
  device_token, request_digest, scope_text, stale_generation, write_device,
}

abbrev collect :
    DeviceRecord
    → PairingStore × Attempt PairingError (List DeviceRecord)
    → PairingStore × Attempt PairingError (List DeviceRecord)
collect d (t, m) = (t, (m >>= λ ds. returns (d ∷ ds)))

module _ (env : Primitives) where
  -- The checks that `verify_device_token` and `authenticate` begin with.
  unfoldable pub check_device :
      PairingStore → String → String → DeviceScope → Attempt PairingError DeviceRecord
  check_device s id token scope = do
    d ← or_raise (s.devices id) device_missing
    require (absent d.revoked_at) device_revoked
    require (env.hash token == d.token_verifier) device_token
    require (any (λ x. scope == x) d.scopes) device_scope
    returns d

  unfoldable pub verify_device_token :
      PairingStore → String → String → DeviceScope → Attempt PairingError DeviceRecord
  unfolding check_device
  verify_device_token s id token scope = check_device s id token scope

  -- Not before the last use.
  unfoldable pub check_used : Option String → ℕ → Attempt PairingError (Unit {0})
  unfolding instant
  check_used none now = returns tt
  check_used (some t) now = do last ← instant env t; require (not (ltb now last)) clock_rollback

  -- `authenticate` after the checks of the device: a replay, or the new record.
  unfoldable pub authenticated :
      DeviceRecord → AuthenticateRequest → Attempt PairingError (DeviceRecord × Bool)
  unfolding instant check_used make_device request_digest
  authenticated d q =
      let digest =
        request_digest env "authenticate"
          (q.device_id ∷ scope_text q.required_scope ∷ q.authenticated_at ∷ []) in
      if d.last_operation_id == q.operation_id
      then (do require (d.last_request_digest == digest) divergent_replay; returns (d, true))
      else (do
        now ← instant env q.authenticated_at
        issued ← instant env d.issued_at
        require (not (ltb now issued)) clock_rollback
        check_used d.last_used_at now
        updated ← make_device env (record d {
          last_used_at = some q.authenticated_at;
          generation = d.generation + 1;
          last_operation_id = q.operation_id;
          last_request_digest = digest;
        })
        returns (updated, false))

  -- A replay writes nothing.
  unfoldable pub authenticate :
      PairingStore
      → AuthenticateRequest
      → Attempt PairingError (PairingStore × AuthenticationResult)
  unfolding check_device authenticated write_device
  authenticate s q = do
    d ← check_device s q.device_id q.device_token q.required_scope
    (e, replayed) ← authenticated d q
    let t = (if replayed then s else write_device s d.device_id e)
    returns (
      t,
      record {
        device_id = e.device_id;
        granted_scope = q.required_scope;
        authenticated_at = q.authenticated_at;
        generation = e.generation;
        replayed = replayed;
      },
    )

  -- The record of a device that is revoked.
  unfoldable pub revoked :
      DeviceRecord → String → String → String → Attempt PairingError DeviceRecord
  unfolding make_device
  revoked d at operation_id digest = make_device env (record d {
    revoked_at = some at;
    generation = d.generation + 1;
    last_operation_id = operation_id;
    last_request_digest = digest;
  })

  -- `revoke_device` on a stored device.
  unfoldable pub revoke_found :
      PairingStore
      → String
      → ℕ
      → String
      → String
      → DeviceRecord
      → Attempt PairingError (PairingStore × DeviceRecord)
  unfolding instant revoked request_digest write_device
  revoke_found s id expected_generation at operation_id d =
      let digest = request_digest env "revoke" (id ∷ Text.decimal expected_generation ∷ at ∷ []) in
      if d.last_operation_id == operation_id
      then (do require (d.last_request_digest == digest) divergent_replay; returns (s, d))
      else (do
        require (d.generation == expected_generation) stale_generation
        require (absent d.revoked_at) already_revoked
        now ← instant env at
        issued ← instant env d.issued_at
        require (not (ltb now issued)) clock_rollback
        updated ← revoked d at operation_id digest
        returns (write_device s d.device_id updated, updated))

  unfoldable pub revoke_device :
      PairingStore
      → String
      → ℕ
      → String
      → String
      → Attempt PairingError (PairingStore × DeviceRecord)
  unfolding revoke_found
  revoke_device s id expected_generation at operation_id = do
    d ← or_raise (s.devices id) device_missing
    revoke_found s id expected_generation at operation_id d

  -- One turn of the loop of `revoke_all`.
  unfoldable pub revoke_one :
      PairingStore → String → String → String → Attempt PairingError (PairingStore × DeviceRecord)
  unfolding revoked request_digest write_device
  revoke_one s at operation_id id = do
    d ← or_raise (s.devices id) device_missing
    let digest = request_digest env "revoke_all" (d.device_id ∷ at ∷ operation_id ∷ [])
    let updated = revoked d at operation_id digest
    if absent d.revoked_at
        then (updated >>= λ e. returns (write_device s id e, e))
        else returns (s, d)

  -- The loop of `revoke_all`: a device is written before the next is looked at.
  unfoldable pub revoke_each :
      PairingStore
      → String
      → String
      → List String
      → PairingStore × Attempt PairingError (List DeviceRecord)
  unfolding revoke_one
  revoke_each s at operation_id [] = (s, returns [])
  revoke_each s at operation_id (id ∷ ids) = elim (revoke_one s at operation_id id) [
    | raises e ↦ (s, raises e)
    | returns (t, d) ↦ collect d (revoke_each t at operation_id ids)
  ]

  unfoldable pub revoke_all :
      PairingStore → String → String → PairingStore × Attempt PairingError (List DeviceRecord)
  unfolding revoke_each instant
  revoke_all s at operation_id = elim (instant env at) [
    | raises e ↦ (s, raises e)
    | returns u ↦
        (if ltb 1024 (length s.names)
          then (s, raises device_limit)
          else revoke_each s at operation_id s.names)
  ]
