-- ===== src/Pairing/Codes.antt =====
-- Pairing codes in skills/agentdesk/scripts/dockyard_pairing.py: `issue` and `consume`.
use dockyard.Base.Sort
use dockyard.Base.{
  ℕ, ◌+◌, leb, ltb, ◌==◌, comparable_number, comparable_string, String, not, [], ◌∷◌, ◌++◌, map,
  none, some, if◌then◌else◌, Attempt, returns, raises, require, or_raise, ◌>>=◌, ◌>>◌,
}
use dockyard.Pairing.Records.{
  CodeRecord, ConsumeRequest, DeviceRecord, PairingError, PairingStore, Primitives, absent,
  clock_rollback, comparable_scope, device_exists, instant, make_code, make_device,
  pairing_consumed, pairing_exhausted, pairing_exists, pairing_expired, pairing_missing,
  request_digest, scope_text, write_code, write_device, wrong_code,
}

module _ (env : Primitives) where
  unfoldable pub fresh_code : String → String → String → String → ℕ → String → CodeRecord
  fresh_code secret pairing_id created_at expires_at max_attempts operation_id = record {
    pairing_id = pairing_id;
    code_verifier = env.hash secret;
    created_at = created_at;
    expires_at = expires_at;
    consumed_at = none;
    failed_attempts = 0;
    max_attempts = max_attempts;
    last_operation_id = operation_id;
    content_digest = "sha256:0000000000000000000000000000000000000000000000000000000000000000";
  }

  -- The secret of `secrets.token_urlsafe(32)` is an argument.
  unfoldable pub issue :
      PairingStore
      → String
      → String
      → String
      → String
      → ℕ
      → String
      → Attempt PairingError (PairingStore × String)
  unfolding make_code fresh_code write_code
  issue s secret pairing_id created_at expires_at max_attempts operation_id = do
    require (absent (s.codes pairing_id)) pairing_exists
    c ← make_code env (fresh_code secret pairing_id created_at expires_at max_attempts operation_id)
    returns (write_code s pairing_id c, secret)

  -- `consume` up to the comparison of the code.
  unfoldable pub usable_code : PairingStore → ConsumeRequest → Attempt PairingError CodeRecord
  unfolding instant
  usable_code s q = do
    c ← or_raise (s.codes q.pairing_id) pairing_missing
    require (absent c.consumed_at) pairing_consumed
    consumed ← instant env q.consumed_at
    created ← instant env c.created_at
    expires ← instant env c.expires_at
    require (not (ltb consumed created)) clock_rollback
    require (not (ltb expires consumed)) pairing_expired
    require (not (leb c.max_attempts c.failed_attempts)) pairing_exhausted
    returns c

  unfoldable pub fresh_device : String → ConsumeRequest → DeviceRecord
  unfolding request_digest
  fresh_device token q =
      let scopes = Sort.sort_by (λ x y. Sort.text_leb (scope_text x) (scope_text y)) q.scopes in
      record {
        device_id = q.device_id;
        display_name = q.display_name;
        pairing_id = q.pairing_id;
        token_verifier = env.hash token;
        scopes = scopes;
        issued_at = q.consumed_at;
        last_used_at = none;
        revoked_at = none;
        generation = 1;
        last_operation_id = q.operation_id;
        last_request_digest = request_digest env "consume" (
            q.pairing_id
            ∷ q.device_id
            ∷ q.display_name
            ∷ (map scope_text scopes ++ (q.consumed_at ∷ [])));
        content_digest = "sha256:0000000000000000000000000000000000000000000000000000000000000000";
      }

  -- The records that a right code leads to.
  unfoldable pub pair_device :
      PairingStore
      → String
      → ConsumeRequest
      → CodeRecord
      → Attempt PairingError (DeviceRecord × CodeRecord)
  unfolding make_code make_device fresh_device
  pair_device s token q c = do
    require (absent (s.devices q.device_id)) device_exists
    d ← make_device env (fresh_device token q)
    used ←
        make_code env
          (record c { consumed_at = some q.consumed_at; last_operation_id = q.operation_id })
    returns (d, used)

  -- The two writes of a pairing, to the files of the ids that the records hold.
  unfoldable pub store_pair : PairingStore → CodeRecord → DeviceRecord → CodeRecord → PairingStore
  unfolding write_code write_device
  store_pair s c d used = write_code (write_device s d.device_id d) c.pairing_id used

  -- A wrong code is counted, in the file of the id that the record holds.
  unfoldable pub count_failure :
      PairingStore
      → CodeRecord
      → Attempt PairingError CodeRecord
      → PairingStore × Attempt PairingError (DeviceRecord × String)
  unfolding write_code
  count_failure s c (raises e) = (s, raises e)
  count_failure s c (returns failed) = (write_code s c.pairing_id failed, raises wrong_code)

  unfoldable pub finish_pair :
      PairingStore
      → String
      → CodeRecord
      → Attempt PairingError (DeviceRecord × CodeRecord)
      → PairingStore × Attempt PairingError (DeviceRecord × String)
  unfolding store_pair
  finish_pair s token c (raises e) = (s, raises e)
  finish_pair s token c (returns (d, used)) = (store_pair s c d used, returns (d, token))

  unfoldable pub consume_code :
      PairingStore
      → String
      → ConsumeRequest
      → Attempt PairingError CodeRecord
      → PairingStore × Attempt PairingError (DeviceRecord × String)
  unfolding make_code count_failure pair_device finish_pair
  consume_code s token q (raises e) = (s, raises e)
  consume_code s token q (returns c) =
      if env.hash q.pairing_code == c.code_verifier
      then finish_pair s token c (pair_device s token q c)
      else count_failure s c (
          make_code env (record c {
            failed_attempts = c.failed_attempts + 1;
            last_operation_id = q.operation_id;
          }))

  -- The token is an argument, as the secret of `issue` is.
  unfoldable pub consume :
      PairingStore
      → String
      → ConsumeRequest
      → PairingStore × Attempt PairingError (DeviceRecord × String)
  unfolding usable_code consume_code
  consume s token q = consume_code s token q (usable_code s q)
