-- ===== src/Portfolio/Policy/Eligible.antt =====
-- The filters of `select_next` as one test, and what `_validate_snapshot` guarantees.
use dockyard.Base.{
  ℕ, ◌≡◌, sym, ap, ◌∙◌, ◌≢◌, ◌==◌, comparable_string, comparable_number, String, Bool, true, false,
  not, ◌&&◌, List, [], ◌∷◌, map, any, keep, arith, All, All-map, inl, inr, Bool-cases, eq_of_==,
  ==-refl, returns,
}
use dockyard.Base.Members.{
  In, In-keep, In-of_keep, In-All, All-In, In-map, In-map_of, keep-keep, keep-congr, any-In,
  In-of_any,
}
use dockyard.Portfolio.Entry.{QueueEntry, QueuePhase, comparable_phase}
use dockyard.CoreTypes.{comparable_kind}
use dockyard.Portfolio.Policy.{
  AdmissionContext, mem_text, has_active_hard_conflict, check_advisory_blocked, blocked_ids,
  without_hard_conflict, eligible_entries, validate_from, validate_snapshot,
}
use dockyard.Portfolio.Policy.Ranks.{Distinct, Distinct-id, Distinct-keep}

differs : (p q : String) (ids : List String) → mem_text q (p ∷ ids) ≡ false → p ≢ q
differs p q ids h same = ground (arith, ==-refl q)

other : (p q : String) (ids : List String) → mem_text q (p ∷ ids) ≡ false → mem_text q ids ≡ false
other p q ids h = ground arith

clash : (a b : Bool) → a ≡ b → a ≡ true → b ≡ false → ⊥
clash a b h t f = cc

module _ (casefold : String → String) where
  Distinct-of_validate_from :
      (ids : List String) (seqs : List ℕ) (es : List QueueEntry)
      → validate_from casefold ids seqs es ≡ returns tt
      → Distinct es × All (λ e. mem_text e.queue_id ids ≡ false) es
  unfolding validate_from
  Distinct-of_validate_from ids seqs [] h = (tt, tt)
  Distinct-of_validate_from ids seqs (e ∷ es) h = elim (Bool-cases (mem_text e.queue_id ids)) [
    | inl old ↦ absurd (ground arith)
    | inr new ↦
        let rest : validate_from casefold (e.queue_id ∷ ids) (e.enqueue_sequence ∷ seqs) es
            ≡ returns tt =
          ground arith in
        let (d, u) =
          Distinct-of_validate_from (e.queue_id ∷ ids) (e.enqueue_sequence ∷ seqs) es rest in
        (
          (
            All-map (λ f. mem_text f.queue_id (e.queue_id ∷ ids) ≡ false)
                (λ f. e.queue_id ≢ f.queue_id)
                (λ f h same. differs e.queue_id f.queue_id ids h same) es u,
            d,
          ),
          (
            new,
            All-map (λ f. mem_text f.queue_id (e.queue_id ∷ ids) ≡ false)
                (λ f. mem_text f.queue_id ids ≡ false) (λ f h. other e.queue_id f.queue_id ids h) es
                u,
          ),
        )
  ]

  -- The queue ids of a snapshot that passes validation differ pairwise.
  pub validate_snapshot-Distinct :
      (es : List QueueEntry) → validate_snapshot casefold es ≡ returns tt → Distinct es
  unfolding validate_snapshot
  validate_snapshot-Distinct es h = (Distinct-of_validate_from [] [] es h).0

  -- An entry that may be selected: queued, no hard conflict, not blocked, its worker available.
  abbrev pub blocked : AdmissionContext → QueueEntry → Bool
  blocked c e = check_advisory_blocked casefold e c (map casefold c.advisory_conflict_keys)

  abbrev pub unconflicted : AdmissionContext → QueueEntry → Bool
  unconflicted c e =
      e.state == QueuePhase.queued
      && not (has_active_hard_conflict casefold e (map casefold c.active_hard_conflict_keys))

  abbrev pub available : AdmissionContext → QueueEntry → Bool
  available c e = any (λ k. k == e.worker_kind_request) c.available_worker_kinds

  abbrev pub is_eligible : AdmissionContext → QueueEntry → Bool
  is_eligible c e = (unconflicted c e && not (blocked c e)) && available c e

  module _ (c : AdmissionContext) (es : List QueueEntry) (d : Distinct es) where
    blocked_ids-mem :
        (e : QueueEntry) → In e es → mem_text e.queue_id (blocked_ids casefold c es) ≡ blocked c e
    unfolding blocked_ids
    blocked_ids-mem e i = elim (Bool-cases (blocked c e)) [
      | inl t ↦
          any-In (λ t. t == e.queue_id) e.queue_id _
            (In-map_of (λ f. f.queue_id) e _ (In-keep (blocked c) e es i t)) (==-refl e.queue_id)
          ∙ sym t
      | inr f ↦
          elim (Bool-cases (mem_text e.queue_id (map (λ f. f.queue_id) (keep (blocked c) es)))) [
            | inl hit ↦
                let (q, j, same) =
                  In-of_any (λ t. t == e.queue_id) (map (λ f. f.queue_id) (keep (blocked c) es))
                    hit in
                let (g, k, named) = In-map (λ f. f.queue_id) q (keep (blocked c) es) j in
                let (l, b) = In-of_keep (blocked c) g es k in
                let g_is_e =
                  All-In (λ f. f.queue_id ≡ e.queue_id → f ≡ e) g es (Distinct-id e es d i) l
                    (sym named ∙ eq_of_== q e.queue_id same) in
                absurd (clash (blocked c g) (blocked c e) (ap (blocked c) g_is_e) b f)
            | inr miss ↦ miss ∙ sym f
          ]
    ]

    unblocked-keep :
        keep (λ e. not (mem_text e.queue_id (blocked_ids casefold c es))) es
        ≡ keep (λ e. not (blocked c e)) es
    unblocked-keep =
        keep-congr (λ e. not (mem_text e.queue_id (blocked_ids casefold c es)))
          (λ e. not (blocked c e)) es
          (In-All (λ e. not (mem_text e.queue_id (blocked_ids casefold c es)) ≡ not (blocked c e))
            es (λ e i. ap not (blocked_ids-mem e i)))

  -- On a snapshot with distinct queue ids the three filters keep, in order, exactly the entries
  -- that are queued, have no active hard conflict, are not advisory-blocked and whose worker kind
  -- is available.
  pub eligible_entries-eq_keep :
      (c : AdmissionContext) (es : List QueueEntry)
      → Distinct es
      → eligible_entries casefold c es ≡ keep (is_eligible c) es
  unfolding eligible_entries without_hard_conflict
  eligible_entries-eq_keep c es d =
      let free = keep (unconflicted c) es in
      let e₁ : without_hard_conflict casefold c es ≡ free =
        keep-keep
          (λ e.
            not (has_active_hard_conflict casefold e (map casefold c.active_hard_conflict_keys)))
          (λ e. e.state == QueuePhase.queued) es in
      ap
        (λ xs.
          keep (available c) (keep (λ e. not (mem_text e.queue_id (blocked_ids casefold c xs))) xs))
        e₁
      ∙ ap (keep (available c)) (unblocked-keep c free (Distinct-keep (unconflicted c) es d))
      ∙ ap (keep (available c)) (keep-keep (λ e. not (blocked c e)) (unconflicted c) es)
      ∙ keep-keep (available c) (λ e. unconflicted c e && not (blocked c e)) es
