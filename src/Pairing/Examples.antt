-- ===== src/Pairing/Examples.antt =====
-- A device is paired with a code and revoked.
use dockyard.Base.Sort
use dockyard.Base.Text
use dockyard.Base.Text.{◌<>◌}
use dockyard.Base.{
  ◌≡◌, refl, String, [], ◌∷◌, List, some, none, if◌then◌else◌, ◌==◌, comparable_string,
  comparable_number, returns, raises, arith, ℕ_discrete, String-discrete,
}
use dockyard.Pairing.Records.{
  DeviceScope, read, DeviceScope-discrete, CodeRecord, DeviceRecord, PairingStore, Primitives,
  ConsumeRequest, AuthenticateRequest, request_text, write, write_code, write_device, instant,
  check_after, make_code, make_device, request_digest, pairing_consumed, device_revoked,
}
use dockyard.Pairing.Codes.{
  fresh_code, issue, usable_code, fresh_device, pair_device, store_pair, count_failure, finish_pair,
  consume_code, consume,
}
use dockyard.Pairing.Devices.{
  check_device, verify_device_token, check_used, authenticated, authenticate, revoked, revoke_found,
  revoke_device, revoke_one, revoke_each, revoke_all,
}
use dockyard.Pairing.Changes.{Filed, IsFiled, write-IsFiled}
use dockyard.Pairing.History.{here, revoked-final, consume-once}

program : Unit {0}
unfolding request_text write_code write_device instant check_after make_code make_device
    request_digest check_device verify_device_token fresh_code issue usable_code fresh_device
    pair_device store_pair count_failure finish_pair consume_code consume check_used authenticated
    authenticate revoked revoke_found revoke_device revoke_one revoke_each revoke_all Sort.sort_by
    Sort.insert_by Sort.text_leb Sort.list_leb Text.decimal Text.decimal_from DeviceScope-discrete
    ℕ_discrete String-discrete
program = tt

abbrev start : String
start = "2026-01-01T00:00:00Z"

abbrev soon : String
soon = "2026-01-01T00:05:00Z"

abbrev env : Primitives
env = record {
  hash = λ s. "sha256:" <> s;
  code_digest = λ c. "sha256:c";
  device_digest = λ d. "sha256:d";
  utc = λ t. if t == start then some 0 else (if t == soon then some 300000000 else none);
}

abbrev code : CodeRecord
code = record {
  pairing_id = "P-1";
  code_verifier = "sha256:secret";
  created_at = start;
  expires_at = soon;
  consumed_at = none;
  failed_attempts = 0;
  max_attempts = 3;
  last_operation_id = "OP-1";
  content_digest = "sha256:c";
}

abbrev offered : PairingStore
offered = record { codes = write "P-1" code (λ id. none); devices = λ id. none; names = [] }

abbrev request : ConsumeRequest
request = record {
  pairing_id = "P-1";
  pairing_code = "secret";
  device_id = "D-1";
  display_name = "phone";
  scopes = read ∷ [];
  consumed_at = start;
  operation_id = "OP-2";
}

abbrev device : DeviceRecord
device = record (fresh_device env "token" request) { content_digest = "sha256:d" }

abbrev gone : DeviceRecord
gone = record device { revoked_at = some soon; generation = 2 }

abbrev paired : PairingStore
paired = record {
  codes = λ id. none;
  devices = write "D-1" device (λ id. none);
  names = "D-1" ∷ [];
}

abbrev closed : PairingStore
closed = record paired { devices = write "D-1" gone (λ id. none) }

offered-Filed : Filed offered
unfolding IsFiled
offered-Filed = record {
  codes_filed =
      write-IsFiled (λ c. c.pairing_id) (λ id. none) "P-1" code refl
        (λ id a h. absurd (ground (arith)));
  devices_filed = λ id a h. absurd (ground (arith));
}

closed-Filed : Filed closed
unfolding IsFiled fresh_device
closed-Filed = record {
  codes_filed = λ id a h. absurd (ground (arith));
  devices_filed =
      write-IsFiled (λ d. d.device_id) (λ id. none) "D-1" gone refl
        (λ id a h. absurd (ground (arith)));
}

offering :
    issue env
      (record { codes = λ id. none; devices = λ id. none; names = [] })
      "secret"
      "P-1"
      start
      soon
      3
      "OP-1"
    ≡ returns (offered, "secret")
unfolding program
offering = refl

pairing : (consume env offered "token" request).1 ≡ returns (device, "token")
unfolding program
pairing = refl

consume-once_example :
    consume env (consume env offered "token" request).0 "other" request
    ≡ ((consume env offered "token" request).0, raises pairing_consumed)
consume-once_example =
    consume-once env offered (consume env offered "token" request).0 "token" "other" request request
      (device, "token") offered-Filed pairing here refl

listed_revoked : closed.devices "D-1" ≡ some gone
unfolding program
listed_revoked = refl

revoked-final_example :
    ((token : String) (scope : DeviceScope)
      → verify_device_token env closed "D-1" token scope ≡ raises device_revoked)
    × ((q : AuthenticateRequest)
        → q.device_id ≡ "D-1"
        → authenticate env closed q ≡ raises device_revoked)
revoked-final_example =
    revoked-final env closed closed "D-1" gone closed-Filed listed_revoked refl here

abbrev after : List DeviceRecord
after =
    record gone {
      last_operation_id = "OP-3";
      last_request_digest = request_digest env "revoke_all" ("D-1" ∷ soon ∷ "OP-3" ∷ []);
    }
    ∷ []

revoking : (revoke_all env paired soon "OP-3").1 ≡ returns after
unfolding program
revoking = refl
