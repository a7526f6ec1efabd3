-- ===== src/Pairing/Changes.antt =====
-- What writes of skills/agentdesk/scripts/dockyard_pairing.py leave as it is.
use dockyard.Base.{
  ◌≡◌, refl, sym, ap, ◌∙◌, ◌==◌, comparable_number, comparable_string, String, Bool, true, false,
  Option, none, some, returns, or_raise, arith, inl, inr, Bool-cases, eq_of_==,
}
use dockyard.Pairing.Records.{
  CodeRecord, DeviceRecord, PairingStore, PairingError, comparable_scope, absent, write, write_code,
  write_device,
}

-- What is stored stays stored, and what is final stays as it is.
unfoldable pub KeepsFinal :
    {A : Type 0} → (A → Bool) → (String → Option A) → (String → Option A) → Type 0
KeepsFinal {A} open_still m n =
    (id : String) (a : A)
    → m id ≡ some a
    → (b : A) × (n id ≡ some b) × (open_still a ≡ false → b ≡ a)

pub KeepsFinal-refl : {A : Type 0} (p : A → Bool) (m : String → Option A) → KeepsFinal p m m
unfolding KeepsFinal
KeepsFinal-refl p m id a h = (a, h, λ f. refl)

pub KeepsFinal-trans :
    {A : Type 0} (p : A → Bool) (m n o : String → Option A)
    → KeepsFinal p m n
    → KeepsFinal p n o
    → KeepsFinal p m o
unfolding KeepsFinal
KeepsFinal-trans p m n o h k id a stored =
    let (b, there, same) = h id a stored in
    let (c, still, equal) = k id b there in (c, still, λ f. equal (ap p (same f) ∙ f) ∙ same f)

pub write-KeepsFinal :
    {A : Type 0} (p : A → Bool) (m : String → Option A) (id : String) (new : A)
    → ((old : A) → m id ≡ some old → p old ≡ true)
    → KeepsFinal p m (write id new m)
unfolding KeepsFinal
write-KeepsFinal p m id new w j a h = elim (Bool-cases (j == id)) [
  | inl t ↦ (
    new,
    rw t refl,
    λ f. let o : p a ≡ true = w a (ap m (sym (eq_of_== j id t)) ∙ h) in absurd (ground (arith)),
  )
  | inr f ↦ (a, rw f h, λ g. refl)
]

abbrev pub is_unused : CodeRecord → Bool
is_unused c = absent c.consumed_at

abbrev pub is_active : DeviceRecord → Bool
is_active d = absent d.revoked_at

-- A record stands in the file of the id that it holds.
unfoldable pub IsFiled : {A : Type 0} → (A → String) → (String → Option A) → Type 0
IsFiled {A} name m = (id : String) (a : A) → m id ≡ some a → name a ≡ id

pub write-IsFiled :
    {A : Type 0} (name : A → String) (m : String → Option A) (id : String) (new : A)
    → name new ≡ id
    → IsFiled name m
    → IsFiled name (write id new m)
unfolding IsFiled
write-IsFiled name m id new own f j a h = elim (Bool-cases (j == id)) [
  | inl t ↦
      let same : new ≡ a = let k = rw t at h in ground (arith) in
      ap name (sym same) ∙ own ∙ sym (eq_of_== j id t)
  | inr g ↦ f j a (rw g at h)
]

pub record Filed (s : PairingStore) : Type 0 where
  pub codes_filed : IsFiled (λ (c : CodeRecord). c.pairing_id) s.codes
  pub devices_filed : IsFiled (λ (d : DeviceRecord). d.device_id) s.devices

pub record Keeps (s t : PairingStore) : Type 0 where
  pub codes : KeepsFinal is_unused s.codes t.codes
  pub devices : KeepsFinal is_active s.devices t.devices
  pub filed : Filed t

pub Keeps-refl : (s : PairingStore) → Filed s → Keeps s s
Keeps-refl s f = record {
  filed = f;
  codes = KeepsFinal-refl is_unused s.codes;
  devices = KeepsFinal-refl is_active s.devices;
}

pub Keeps-trans : (s t u : PairingStore) → Keeps s t → Keeps t u → Keeps s u
Keeps-trans s t u a b = record {
  filed = b.filed;
  codes = KeepsFinal-trans is_unused s.codes t.codes u.codes a.codes b.codes;
  devices = KeepsFinal-trans is_active s.devices t.devices u.devices a.devices b.devices;
}

pub write_code-Keeps :
    (s : PairingStore) (id : String) (c : CodeRecord)
    → Filed s
    → c.pairing_id ≡ id
    → ((old : CodeRecord) → s.codes id ≡ some old → is_unused old ≡ true)
    → Keeps s (write_code s id c)
unfolding write_code
write_code-Keeps s id c f own w = record {
  filed = record {
    codes_filed = write-IsFiled _ s.codes id c own f.codes_filed;
    devices_filed = f.devices_filed;
  };
  codes = write-KeepsFinal is_unused s.codes id c w;
  devices = KeepsFinal-refl is_active s.devices;
}

pub write_device-Keeps :
    (s : PairingStore) (id : String) (d : DeviceRecord)
    → Filed s
    → d.device_id ≡ id
    → ((old : DeviceRecord) → s.devices id ≡ some old → is_active old ≡ true)
    → Keeps s (write_device s id d)
unfolding write_device
write_device-Keeps s id d f own w = record {
  filed = record {
    codes_filed = f.codes_filed;
    devices_filed = write-IsFiled _ s.devices id d own f.devices_filed;
  };
  codes = KeepsFinal-refl is_unused s.codes;
  devices = write-KeepsFinal is_active s.devices id d w;
}

pub or_raise-some :
    {A : Type 0} (o : Option A) (e : PairingError) (a : A) → or_raise o e ≡ returns a → o ≡ some a
or_raise-some none e a h = absurd (ground (arith))
or_raise-some (some b) e a h = ground (arith)

pub absent-none : {A : Type 0} (o : Option A) → absent o ≡ true → o ≡ none
absent-none none h = refl
absent-none (some a) h = cc

pub same-true :
    {A : Type 0} (p : A → Bool) (o : Option A) (a b : A)
    → o ≡ some a
    → p a ≡ true
    → o ≡ some b
    → p b ≡ true
same-true p o a b h t k = ap p (let e : b ≡ a = ground (arith) in e) ∙ t
