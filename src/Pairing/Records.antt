-- ===== src/Pairing/Records.antt =====
-- The records of skills/agentdesk/scripts/dockyard_pairing.py, their checks, and the store.
use dockyard.Base.Sort
use dockyard.Base.Text
use dockyard.Base.Text.{◌<>◌}
use dockyard.Base.{
  ℕ, ◌*◌, ◌-◌, leb, ltb, ◌==◌, Comparable, comparable_number, comparable_string, String, Bool, true,
  false, ◌&&◌, List, [], ◌∷◌, length, Option, none, some, if◌then◌else◌, Attempt, returns, require,
  or_raise, ◌>>=◌, ◌>>◌,
}

pub data DeviceScope : Type 0 where
  read approve retry terminate : DeviceScope

unfoldable pub DeviceScope-discrete : Discrete DeviceScope
DeviceScope-discrete = hlevel

instance abbrev pub comparable_scope : Comparable DeviceScope
comparable_scope = record { dec = DeviceScope-discrete }

abbrev pub scope_text : DeviceScope → String
scope_text read = "READ"
scope_text approve = "APPROVE"
scope_text retry = "RETRY"
scope_text terminate = "TERMINATE"

pub data PairingError : Type 0 where
  bad_time pairing_ttl consumed_clock failed_attempt_limit max_attempts_range : PairingError
  last_used_clock revoked_clock pairing_exists pairing_missing pairing_consumed : PairingError
  clock_rollback pairing_expired pairing_exhausted wrong_code device_exists : PairingError
  device_missing device_revoked device_token device_scope divergent_replay : PairingError
  stale_generation already_revoked device_limit : PairingError

pub record CodeRecord : Type 0 where
  pub pairing_id : String
  pub code_verifier : String
  pub created_at : String
  pub expires_at : String
  pub consumed_at : Option String
  pub failed_attempts : ℕ
  pub max_attempts : ℕ
  pub last_operation_id : String
  pub content_digest : String

pub record DeviceRecord : Type 0 where
  pub device_id : String
  pub display_name : String
  pub pairing_id : String
  pub token_verifier : String
  pub scopes : List DeviceScope
  pub issued_at : String
  pub last_used_at : Option String
  pub revoked_at : Option String
  pub generation : ℕ
  pub last_operation_id : String
  pub last_request_digest : String
  pub content_digest : String

-- The two directories; `names` lists the devices in the order of their files.
pub record PairingStore : Type 0 where
  pub codes : String → Option CodeRecord
  pub devices : String → Option DeviceRecord
  pub names : List String

pub record ConsumeRequest : Type 0 where
  pub pairing_id : String
  pub pairing_code : String
  pub device_id : String
  pub display_name : String
  pub scopes : List DeviceScope
  pub consumed_at : String
  pub operation_id : String

pub record AuthenticateRequest : Type 0 where
  pub device_id : String
  pub device_token : String
  pub required_scope : DeviceScope
  pub authenticated_at : String
  pub operation_id : String

pub record AuthenticationResult : Type 0 where
  pub device_id : String
  pub granted_scope : DeviceScope
  pub authenticated_at : String
  pub generation : ℕ
  pub replayed : Bool

abbrev pub absent : {A : Type 0} → Option A → Bool
absent none = true
absent (some a) = false

-- The text of which `_request_digest` takes the digest.
unfoldable pub request_text : List String → String
unfolding Text.decimal
request_text [] = ""
request_text (v ∷ vs) = Text.decimal (length (Text.codes v)) <> (":" <> (v <> request_text vs))

abbrev pub write : {A : Type 0} → String → A → (String → Option A) → String → Option A
write id a m j = if j == id then some a else m j

unfoldable pub write_code : PairingStore → String → CodeRecord → PairingStore
write_code s id c = record s { codes = write id c s.codes }

-- Files are listed by name.
abbrev file_leb : String → String → Bool
file_leb a b = Sort.text_leb (a <> ".json") (b <> ".json")

-- A new file joins the listing.
unfoldable pub write_device : PairingStore → String → DeviceRecord → PairingStore
write_device s id d = record s {
  devices = write id d s.devices;
  names = if absent (s.devices id) then Sort.insert_by file_leb id s.names else s.names;
}

-- SHA-256 of a text and of a record's canonical JSON, and the instant of an ISO text in
-- microseconds.
pub record Primitives : Type 0 where
  pub hash : String → String
  pub code_digest : CodeRecord → String
  pub device_digest : DeviceRecord → String
  pub utc : String → Option ℕ

module _ (env : Primitives) where
  -- `_utc`
  unfoldable pub instant : String → Attempt PairingError ℕ
  instant t = or_raise (env.utc t) bad_time

  -- A time is missing, or is not before the other.
  unfoldable pub check_after : Option String → ℕ → PairingError → Attempt PairingError (Unit {0})
  unfolding instant
  check_after none start e = returns tt
  check_after (some t) start e = do u ← instant t; require (leb start u) e

  -- The checks of `DockyardPairingCodeRecord.__post_init__` on numbers and times, and
  -- `_with_code_digest`.
  unfoldable pub make_code : CodeRecord → Attempt PairingError CodeRecord
  unfolding instant check_after
  make_code c = do
    created ← instant c.created_at
    expires ← instant c.expires_at
    require (ltb created expires && leb (expires - created) (600 * 1000000)) pairing_ttl
    check_after c.consumed_at created consumed_clock
    require (leb 1 c.max_attempts && leb c.max_attempts 10) max_attempts_range
    require (leb c.failed_attempts c.max_attempts) failed_attempt_limit
    returns (record c { content_digest = env.code_digest c })

  -- The same for `DockyardDeviceRecord` and `_with_device_digest`.
  unfoldable pub make_device : DeviceRecord → Attempt PairingError DeviceRecord
  unfolding instant check_after
  make_device d = do
    issued ← instant d.issued_at
    check_after d.last_used_at issued last_used_clock
    check_after d.revoked_at issued revoked_clock
    returns (record d { content_digest = env.device_digest d })

  unfoldable pub request_digest : String → List String → String
  unfolding request_text
  request_digest action values = env.hash (request_text (action ∷ values))
