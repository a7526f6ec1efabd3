-- ===== src/Pairing/History.antt =====
-- Histories of the store of skills/agentdesk/scripts/dockyard_pairing.py: its operations, one after
-- another under the store's lock, in any order and with any arguments.
use dockyard.Base.{
  ℕ, ◌≡◌, ◌≢◌, refl, sym, ap, subst, ◌∙◌, String, false, List, [], ◌∷◌, ltb, length, some, Attempt,
  returns, raises, arith, inl, inr, Bool-cases, attempt_cases, ==-refl, peel, ◌==◌,
  comparable_string,
}
use dockyard.Base.Members.{In}
use dockyard.Pairing.Records.{
  CodeRecord, DeviceRecord, PairingStore, PairingError, ConsumeRequest, AuthenticateRequest,
  AuthenticationResult, DeviceScope, Primitives, absent, write_code, instant, pairing_consumed,
  device_revoked,
}
use dockyard.Pairing.Codes.{
  issue, consume, consume_code, usable_code, pair_device, finish_pair, count_failure, store_pair,
}
use dockyard.Pairing.Devices.{
  authenticate, revoke_device, revoke_one, revoke_each, revoke_all, check_device,
  verify_device_token,
}
use dockyard.Pairing.Changes.{
  Filed, IsFiled, Keeps, KeepsFinal, Keeps-refl, Keeps-trans, is_unused, is_active,
}
use dockyard.Pairing.Paired.{issue-Keeps, consume-Keeps, pair_device-new, usable_code-stored}
use dockyard.Pairing.Revoked.{authenticate-Keeps, revoke_device-Keeps, revoke_one-Keeps}

module _ (env : Primitives) where
  -- `consume` and `revoke_all` may write and raise.
  pub data Step (s t : PairingStore) : Type 0 where
    issued :
        (secret id created expires : String) (n : ℕ) (operation x : String)
        → issue env s secret id created expires n operation ≡ returns (t, x)
        → Step s t
    consumed : (token : String) (q : ConsumeRequest) → (consume env s token q).0 ≡ t → Step s t
    admitted :
        (q : AuthenticateRequest) (r : AuthenticationResult)
        → authenticate env s q ≡ returns (t, r)
        → Step s t
    revoked_one :
        (id : String) (g : ℕ) (at operation : String) (d : DeviceRecord)
        → revoke_device env s id g at operation ≡ returns (t, d)
        → Step s t
    revoked_all : (at operation : String) → (revoke_all env s at operation).0 ≡ t → Step s t

  pub data Reach (s : PairingStore) : PairingStore → Type 0 where
    here : Reach s s
    next : {t u : PairingStore} → Reach s t → Step t u → Reach s u

  revoke_each-Keeps :
      (s : PairingStore) (at operation : String) (ids : List String)
      → Filed s
      → Keeps s (revoke_each env s at operation ids).0
  unfolding revoke_each
  revoke_each-Keeps s at operation [] f = Keeps-refl s f
  revoke_each-Keeps s at operation (id ∷ ids) f =
      elim (attempt_cases (revoke_one env s at operation id)) [
        | inl (e, h) ↦ rw (revoke_each, h) (Keeps-refl s f)
        | inr ((t, d), h) ↦
            let first = (revoke_one-Keeps env s t at operation id d f h).0 in
            rw (revoke_each, h)
              (Keeps-trans s t _ first (revoke_each-Keeps t at operation ids first.filed))
      ]

  revoke_all-Keeps :
      (s : PairingStore) (at operation : String)
      → Filed s
      → Keeps s (revoke_all env s at operation).0
  unfolding revoke_all
  revoke_all-Keeps s at operation filed = elim (attempt_cases (instant env at)) [
    | inl (e, h) ↦ rw (revoke_all, h) (Keeps-refl s filed)
    | inr (u, h) ↦ elim (Bool-cases (ltb 1024 (length s.names))) [
      | inl t ↦ rw (revoke_all, h, t) (Keeps-refl s filed)
      | inr f ↦ rw (revoke_all, h, f) (revoke_each-Keeps s at operation s.names filed)
    ]
  ]

  Step-Keeps : (s t : PairingStore) → Filed s → Step s t → Keeps s t
  Step-Keeps s t f (issued secret id created expires n operation x h) =
      issue-Keeps env s t secret id created expires n operation x f h
  Step-Keeps s t f (consumed token q h) = subst (λ u. Keeps s u) h (consume-Keeps env s token q f)
  Step-Keeps s t f (admitted q r h) = authenticate-Keeps env s t q r f h
  Step-Keeps s t f (revoked_one id g at operation d h) =
      revoke_device-Keeps env s t id g at operation d f h
  Step-Keeps s t f (revoked_all at operation h) =
      subst (λ u. Keeps s u) h (revoke_all-Keeps s at operation f)

  -- Along a history the records stay in the files of their ids, what is stored stays stored, and
  -- used codes and revoked devices stay as they are.
  pub Reach-Keeps : {s t : PairingStore} → Reach s t → Filed s → Keeps s t
  Reach-Keeps here f = Keeps-refl _ f
  Reach-Keeps (next before step) f =
      let earlier = Reach-Keeps before f in
      Keeps-trans _ _ _ earlier (Step-Keeps _ _ earlier.filed step)

  check_device-revoked :
      (s : PairingStore) (id : String) (d : DeviceRecord)
      → s.devices id ≡ some d
      → is_active d ≡ false
      → (token : String) (scope : DeviceScope)
      → check_device env s id token scope ≡ raises device_revoked
  unfolding check_device
  check_device-revoked s id d stored gone token scope = rw (stored, gone) refl

  -- A device that is revoked on a store in which every code and every device stands in the file
  -- of its own id stays out: in every later store, whatever operations ran, verify_device_token
  -- and authenticate for its id raise device_revoked, whatever the token.
  pub revoked-final :
      (s t : PairingStore) (id : String) (d : DeviceRecord)
      → Filed s
      → s.devices id ≡ some d
      → is_active d ≡ false
      → Reach s t
      → ((token : String) (scope : DeviceScope)
          → verify_device_token env t id token scope ≡ raises device_revoked)
        × ((q : AuthenticateRequest)
            → q.device_id ≡ id
            → authenticate env t q ≡ raises device_revoked)
  unfolding verify_device_token authenticate KeepsFinal
  revoked-final s t id d filed stored gone later =
      let (e, there, same) = (Reach-Keeps later filed).devices id d stored in
      let refused = check_device-revoked t id e there (ap is_active (same gone) ∙ gone) in
      (
        (λ token scope. refused token scope),
        (λ q own.
            let h =
              ap (λ i. check_device env t i q.device_token q.required_scope) own
              ∙ refused q.device_token q.required_scope in
            rw h refl),
      )

  store_pair-used :
      (s : PairingStore) (c : CodeRecord) (d : DeviceRecord) (u : CodeRecord)
      → (store_pair env s c d u).codes c.pairing_id ≡ some u
  unfolding store_pair write_code
  store_pair-used s c d u = rw (==-refl c.pairing_id) refl

  finish_pair-used :
      (s : PairingStore) (token : String) (q : ConsumeRequest) (c : CodeRecord)
      (m : Attempt PairingError (DeviceRecord × CodeRecord)) (x : DeviceRecord × String)
      → pair_device env s token q c ≡ m
      → (finish_pair env s token c m).1 ≡ returns x
      → (u : CodeRecord) × ((finish_pair env s token c m).0.codes c.pairing_id ≡ some u)
        × (is_unused u ≡ false)
  unfolding finish_pair
  finish_pair-used s token q c (raises e) x h k = absurd (ground (arith))
  finish_pair-used s token q c (returns (d, u)) x h k =
      let (new, spent, own) = pair_device-new env s token q c d u h in
      (u, store_pair-used s c d u, ap absent spent)

  count_failure-raises :
      (s : PairingStore) (c : CodeRecord) (m : Attempt PairingError CodeRecord)
      (x : DeviceRecord × String)
      → (count_failure env s c m).1 ≢ returns x
  unfolding count_failure
  count_failure-raises s c (raises e) x h = ground (arith)
  count_failure-raises s c (returns failed) x h = ground (arith)

  consume_code-used :
      (s : PairingStore) (token : String) (q : ConsumeRequest) (m : Attempt PairingError CodeRecord)
      (x : DeviceRecord × String)
      → Filed s
      → usable_code env s q ≡ m
      → (consume_code env s token q m).1 ≡ returns x
      → (u : CodeRecord) × ((consume_code env s token q m).0.codes q.pairing_id ≡ some u)
        × (is_unused u ≡ false)
  unfolding consume_code IsFiled
  consume_code-used s token q (raises e) x filed usable h = absurd (ground (arith))
  consume_code-used s token q (returns c) x filed usable h =
      let own = filed.codes_filed q.pairing_id c (usable_code-stored env s q c usable).0 in
      elim (Bool-cases (env.hash q.pairing_code == c.code_verifier)) [
        | inl t ↦
            subst
              (λ i.
                (u : CodeRecord) × ((consume_code env s token q (returns c)).0.codes i ≡ some u)
                × (is_unused u ≡ false))
              own
              (rw t (finish_pair-used s token q c (pair_device env s token q c) x refl (rw t at h)))
        | inr f ↦ absurd (count_failure-raises s c _ x (rw f at h))
      ]

  consume-used :
      (s : PairingStore) (token : String) (q : ConsumeRequest) (x : DeviceRecord × String)
      → Filed s
      → (consume env s token q).1 ≡ returns x
      → (u : CodeRecord) × ((consume env s token q).0.codes q.pairing_id ≡ some u)
        × (is_unused u ≡ false)
  unfolding consume
  consume-used s token q x filed h =
      consume_code-used s token q (usable_code env s q) x filed refl h

  consume-refused :
      (s : PairingStore) (token : String) (q : ConsumeRequest) (c : CodeRecord)
      → s.codes q.pairing_id ≡ some c
      → is_unused c ≡ false
      → consume env s token q ≡ (s, raises pairing_consumed)
  unfolding consume consume_code usable_code
  consume-refused s token q c stored used = rw (stored, used) refl

  -- A pairing code pairs one device: once consume has returned for a pairing id on a store in
  -- which every code and every device stands in the file of its own id, then in every later
  -- store, whatever operations ran, every call of consume with that pairing id raises
  -- pairing_consumed and writes nothing, whatever its code and its device.
  pub consume-once :
      (s t : PairingStore) (token again : String) (q r : ConsumeRequest) (x : DeviceRecord × String)
      → Filed s
      → (consume env s token q).1 ≡ returns x
      → Reach (consume env s token q).0 t
      → r.pairing_id ≡ q.pairing_id
      → consume env t again r ≡ (t, raises pairing_consumed)
  unfolding KeepsFinal
  consume-once s t token again q r x filed h later own =
      let (c, stored, used) = consume-used s token q x filed h in
      let kept = (consume-Keeps env s token q filed).filed in
      let (d, there, same) = (Reach-Keeps later kept).codes q.pairing_id c stored in
      consume-refused t again r d (ap t.codes own ∙ there) (ap is_unused (same used) ∙ used)

  one-revokes :
      (t : PairingStore) (at operation j : String) (js : List String) (id : String)
      (d : DeviceRecord)
      → Filed t
      → (t.devices j ≡ some d) × (is_active d ≡ false)
      → (In id js
          → (e : DeviceRecord) × ((revoke_each env t at operation js).0.devices id ≡ some e)
            × (is_active e ≡ false))
      → In id (j ∷ js)
      → (e : DeviceRecord) × ((revoke_each env t at operation js).0.devices id ≡ some e)
        × (is_active e ≡ false)
  unfolding KeepsFinal
  one-revokes t at operation j js id d filed (stored, gone) others (inr k) = others k
  one-revokes t at operation j js id d filed (stored, gone) others (inl equal) =
      let (e, there, same) = (revoke_each-Keeps t at operation js filed).devices j d stored in
      (
        e,
        ap (revoke_each env t at operation js).0.devices (sym equal) ∙ there,
        ap is_active (same gone) ∙ gone,
      )

  revoke_each-revokes :
      (s : PairingStore) (at operation : String) (ids : List String) (ds : List DeviceRecord)
      → Filed s
      → (revoke_each env s at operation ids).1 ≡ returns ds
      → (id : String) → In id ids
      → (d : DeviceRecord) × ((revoke_each env s at operation ids).0.devices id ≡ some d)
        × (is_active d ≡ false)
  unfolding revoke_each
  revoke_each-revokes s at operation [] ds filed h id i = absurd i
  revoke_each-revokes s at operation (j ∷ js) ds filed h id i =
      elim (attempt_cases (revoke_one env s at operation j)) [
        | inl (e, k) ↦ let raised = rw (revoke_each, k) at h in absurd (ground (arith))
        | inr ((t, d), k) ↦
            let (kept, stored, gone) = revoke_one-Keeps env s t at operation j d filed k in
            rw (revoke_each, k)
              (one-revokes t at operation j js id d kept.filed (stored, gone)
                (λ m.
                  let (es, rest, out) =
                    peel (revoke_each env t at operation js).1 _ ds (rw (revoke_each, k) at h) in
                  revoke_each-revokes t at operation js es kept.filed rest id m)
                i)
      ]

  -- When revoke_all returns on a store whose records stand under their ids, every device of the listing is stored as revoked.
  pub revoke_all-revokes :
      (s : PairingStore) (at operation : String) (ds : List DeviceRecord)
      → Filed s
      → (revoke_all env s at operation).1 ≡ returns ds
      → (id : String) → In id s.names
      → (d : DeviceRecord) × ((revoke_all env s at operation).0.devices id ≡ some d)
        × (is_active d ≡ false)
  unfolding revoke_all
  revoke_all-revokes s at operation ds filed h id i = elim (attempt_cases (instant env at)) [
    | inl (e, k) ↦ let raised = rw (revoke_all, k) at h in absurd (ground (arith))
    | inr (u, k) ↦ elim (Bool-cases (ltb 1024 (length s.names))) [
      | inl t ↦ let raised = rw (revoke_all, k, t) at h in absurd (ground (arith))
      | inr f ↦
          rw (revoke_all, k, f)
            (revoke_each-revokes s at operation s.names ds filed (rw (revoke_all, k, f) at h) id i)
    ]
  ]
