-- ===== src/Pairing/Paired.antt =====
-- What `issue` and `consume` (skills/agentdesk/scripts/dockyard_pairing.py) write.
use dockyard.Base.{
  ℕ, ◌+◌, ◌*◌, ◌-◌, ◌≡◌, refl, sym, ap, subst, ◌∙◌, leb, ltb, ◌==◌, comparable_number,
  comparable_string, String, true, ◌&&◌, none, some, Attempt, returns, raises, require, or_raise,
  arith, inl, inr, Bool-cases, peel, past, guarded,
}
use dockyard.Pairing.Records.{
  CodeRecord, DeviceRecord, PairingStore, PairingError, ConsumeRequest, Primitives,
  comparable_scope, absent, write_code, write_device, make_code, make_device, instant, check_after,
  last_used_clock, revoked_clock, pairing_ttl, consumed_clock, max_attempts_range,
  failed_attempt_limit, pairing_exists, pairing_missing, pairing_consumed, device_exists,
}
use dockyard.Pairing.Codes.{
  issue, usable_code, pair_device, store_pair, count_failure, finish_pair, consume_code, consume,
  fresh_code, fresh_device,
}
use dockyard.Pairing.Changes.{
  is_unused, Keeps, Keeps-refl, Keeps-trans, Filed, IsFiled, write_code-Keeps, write_device-Keeps,
  or_raise-some, same-true, absent-none,
}

module _ (env : Primitives) where
  make_code-returns :
      (c u : CodeRecord)
      → make_code env c ≡ returns u
      → record c { content_digest = env.code_digest c } ≡ u
  unfolding make_code
  make_code-returns c u h =
      let (t₁, i₁, k₁) = peel (instant env c.created_at) _ u h in
      let (t₂, i₂, k₂) = peel (instant env c.expires_at) _ u k₁ in
      let k₃ = past (require (ltb t₁ t₂ && leb (t₂ - t₁) (600 * 1000000)) pairing_ttl) _ u k₂ in
      let k₄ = past (check_after env c.consumed_at t₁ consumed_clock) _ u k₃ in
      let k₅ =
        past (require (leb 1 c.max_attempts && leb c.max_attempts 10) max_attempts_range) _ u k₄ in
      let k₆ = past (require (leb c.failed_attempts c.max_attempts) failed_attempt_limit) _ u k₅ in
      ground (arith, k₆)

  make_code-id : (c u : CodeRecord) → make_code env c ≡ returns u → u.pairing_id ≡ c.pairing_id
  make_code-id c u h = ap (λ x. x.pairing_id) (sym (make_code-returns c u h))

  make_code-consumed :
      (c u : CodeRecord) → make_code env c ≡ returns u → u.consumed_at ≡ c.consumed_at
  make_code-consumed c u h = ap (λ x. x.consumed_at) (sym (make_code-returns c u h))

  make_device-id : (d e : DeviceRecord) → make_device env d ≡ returns e → e.device_id ≡ d.device_id
  unfolding make_device
  make_device-id d e h =
      let (t₁, i₁, k₁) = peel (instant env d.issued_at) _ e h in
      let k₂ = past (check_after env d.last_used_at t₁ last_used_clock) _ e k₁ in
      let k₃ = past (check_after env d.revoked_at t₁ revoked_clock) _ e k₂ in
      let same : record d { content_digest = env.device_digest d } ≡ e = ground (arith) in
      ap (λ x. x.device_id) (sym same)

  pub usable_code-stored :
      (s : PairingStore) (q : ConsumeRequest) (c : CodeRecord)
      → usable_code env s q ≡ returns c
      → (s.codes q.pairing_id ≡ some c) × (is_unused c ≡ true)
  unfolding usable_code
  usable_code-stored s q c h =
      let (e, stored, k) = peel (or_raise (s.codes q.pairing_id) pairing_missing) _ c h in
      let (unused, k₁) = guarded (absent e.consumed_at) pairing_consumed _ k in
      let (t₁, i₁, k₂) = peel (instant env q.consumed_at) _ c k₁ in
      let (t₂, i₂, k₃) = peel (instant env e.created_at) _ c k₂ in
      let (t₃, i₃, k₄) = peel (instant env e.expires_at) _ c k₃ in
      let same : e ≡ c = ground (arith, k₄) in
      (
        or_raise-some (s.codes q.pairing_id) pairing_missing e stored ∙ ap some same,
        ap is_unused (sym same) ∙ unused,
      )

  pub issue-Keeps :
      (s t : PairingStore) (secret id created expires : String) (n : ℕ) (operation x : String)
      → Filed s
      → issue env s secret id created expires n operation ≡ returns (t, x)
      → Keeps s t
  unfolding issue fresh_code
  issue-Keeps s t secret id created expires n operation x f h =
      let (new, k) = guarded (absent (s.codes id)) pairing_exists _ h in
      let (c, made, k₁) =
        peel (make_code env (fresh_code env secret id created expires n operation)) _ (t, x) k in
      let written : write_code s id c ≡ t = ground (arith) in
      subst (λ u. Keeps s u) written
        (write_code-Keeps s id c f
          (make_code-id (fresh_code env secret id created expires n operation) c made)
          (λ old there. absurd (ground (arith))))

  failure-Keeps :
      (s : PairingStore) (c u : CodeRecord) (m : Attempt PairingError CodeRecord)
      → Filed s
      → s.codes c.pairing_id ≡ some c
      → is_unused c ≡ true
      → u.pairing_id ≡ c.pairing_id
      → make_code env u ≡ m
      → Keeps s (count_failure env s c m).0
  unfolding count_failure
  failure-Keeps s c u (raises e) f stored unused own h = Keeps-refl s f
  failure-Keeps s c u (returns failed) f stored unused own h =
      write_code-Keeps s c.pairing_id failed f (make_code-id u failed h ∙ own)
        (λ old there. same-true is_unused (s.codes c.pairing_id) c old stored unused there)

  store_pair-Keeps :
      (s : PairingStore) (c used : CodeRecord) (d : DeviceRecord)
      → Filed s
      → s.codes c.pairing_id ≡ some c
      → is_unused c ≡ true
      → s.devices d.device_id ≡ none
      → used.pairing_id ≡ c.pairing_id
      → Keeps s (store_pair env s c d used)
  unfolding store_pair write_device
  store_pair-Keeps s c used d f stored unused new own =
      let first =
        write_device-Keeps s d.device_id d f refl (λ old there. absurd (ground (arith))) in
      Keeps-trans s (write_device s d.device_id d) _ first (
        write_code-Keeps (write_device s d.device_id d) c.pairing_id used first.filed own
          (λ old there. same-true is_unused (s.codes c.pairing_id) c old stored unused there))

  -- The device is new and the code is marked as used; both keep their ids.
  pub pair_device-new :
      (s : PairingStore) (token : String) (q : ConsumeRequest) (c : CodeRecord) (d : DeviceRecord)
      (used : CodeRecord)
      → pair_device env s token q c ≡ returns (d, used)
      → (s.devices d.device_id ≡ none)
        × (used.consumed_at ≡ some q.consumed_at)
        × (used.pairing_id ≡ c.pairing_id)
  unfolding pair_device fresh_device
  pair_device-new s token q c d used h =
      let (new, k) = guarded (absent (s.devices q.device_id)) device_exists _ h in
      let (e, made, k₁) = peel (make_device env (fresh_device env token q)) _ (d, used) k in
      let (u, marked, k₂) =
        peel
          (make_code env
            (record c { consumed_at = some q.consumed_at; last_operation_id = q.operation_id }))
          _ (d, used) k₁ in
      let same : u ≡ used = ground (arith) in
      let device : e ≡ d = ground (arith) in
      let named : d.device_id ≡ q.device_id =
        ap (λ x. x.device_id) (sym device) ∙ make_device-id (fresh_device env token q) e made in
      (
        ap s.devices named ∙ absent-none (s.devices q.device_id) new,
        ap (λ x. x.consumed_at) (sym same)
            ∙ make_code-consumed
                (record c { consumed_at = some q.consumed_at; last_operation_id = q.operation_id })
                u marked,
        ap (λ x. x.pairing_id) (sym same)
            ∙ make_code-id
                (record c { consumed_at = some q.consumed_at; last_operation_id = q.operation_id })
                u marked,
      )

  finish_pair-Keeps :
      (s : PairingStore) (token : String) (q : ConsumeRequest) (c : CodeRecord)
      (m : Attempt PairingError (DeviceRecord × CodeRecord))
      → Filed s
      → s.codes c.pairing_id ≡ some c
      → is_unused c ≡ true
      → pair_device env s token q c ≡ m
      → Keeps s (finish_pair env s token c m).0
  unfolding finish_pair
  finish_pair-Keeps s token q c (raises e) f stored unused h = Keeps-refl s f
  finish_pair-Keeps s token q c (returns (d, used)) f stored unused h =
      let (new, spent, own) = pair_device-new s token q c d used h in
      store_pair-Keeps s c used d f stored unused new own

  consume_code-Keeps :
      (s : PairingStore) (token : String) (q : ConsumeRequest) (m : Attempt PairingError CodeRecord)
      → Filed s
      → usable_code env s q ≡ m
      → Keeps s (consume_code env s token q m).0
  unfolding consume_code IsFiled
  consume_code-Keeps s token q (raises e) f h = Keeps-refl s f
  consume_code-Keeps s token q (returns c) f h =
      let (found, unused) = usable_code-stored s q c h in
      let stored = ap s.codes (f.codes_filed q.pairing_id c found) ∙ found in
      elim (Bool-cases (env.hash q.pairing_code == c.code_verifier)) [
        | inl t ↦
            rw t (finish_pair-Keeps s token q c (pair_device env s token q c) f stored unused refl)
        | inr wrong ↦ rw wrong (
            failure-Keeps s c
              (record c {
                failed_attempts = c.failed_attempts + 1;
                last_operation_id = q.operation_id;
              })
              _ f stored unused refl refl)
      ]

  pub consume-Keeps :
      (s : PairingStore) (token : String) (q : ConsumeRequest)
      → Filed s
      → Keeps s (consume env s token q).0
  unfolding consume
  consume-Keeps s token q f = consume_code-Keeps s token q (usable_code env s q) f refl
