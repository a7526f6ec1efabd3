-- ===== src/Portfolio/Policy/SelectNext.antt =====
-- The contract of `select_next` (skills/agentdesk/scripts/portfolio_scheduler_policy.py).
use dockyard.Base.Text.{◌<>◌}
use dockyard.Base.{require, ◌>>◌, true, false}
use dockyard.Base.{
  ◌≤◌, ◌≡◌, refl, sym, ap, subst, ◌∙◌, ◌==◌, comparable_string, comparable_number, String, Bool,
  true, false, not, List, [], ◌∷◌, any, keep, arith, All, inl, inr, ◌⊎◌, Bool-cases, Option, none,
  some, ==-refl, ℕ_discrete, Attempt, returns,
}
use dockyard.Base.Members.{In, In-keep, In-of_keep, All-of_keep, any-In, In-map_of, In-of_any}
use dockyard.Portfolio.Entry.{QueueEntry, ScheduleReceipt}
use dockyard.Portfolio.Policy.{
  PolicyError, AdmissionContext, mem_text, unblocked_ids, without_hard_conflict, eligible_entries,
  validate_snapshot, validate_admission_context, choose, select_next, selection_reason_parts,
  priority_value, completed_receipt, is_timestamp, selected_at_invalid, join_colon,
}
use dockyard.Portfolio.Policy.Ranks.{Distinct-keep}
use dockyard.Portfolio.Policy.Selection.{Precedes, choose-Chosen, receipt_of, dated, choose-nil}
use dockyard.Portfolio.Policy.Eligible.{
  is_eligible, validate_snapshot-Distinct, eligible_entries-eq_keep, blocked,
}

keep_none : (p : QueueEntry → Bool) (es : List QueueEntry) → any p es ≡ false → keep p es ≡ []
keep_none p [] h = refl
keep_none p (e ∷ es) h = ground (arith, keep_none p es)

apart :
    (r : ScheduleReceipt)
    → ◌≡◌ {A = Attempt PolicyError (Option ScheduleReceipt)} (returns none) (returns (some r))
    → ⊥
apart r h = cc

dated_returns :
    (b : Bool) (r : ScheduleReceipt)
    → b ≡ true
    → (require b selected_at_invalid >> returns (some r)) ≡ returns (some r)
dated_returns b r t = rw t refl

dated_same :
    (b : Bool) (q r : ScheduleReceipt)
    → (require b selected_at_invalid >> returns (some q)) ≡ returns (some r)
    → q ≡ r
dated_same true q r h = cc
dated_same false q r h = cc

module _ (casefold : String → String) (digest : ScheduleReceipt → String)
    (parses : String → Bool) where
  abbrev select : List QueueEntry → AdmissionContext → Attempt PolicyError (Option ScheduleReceipt)
  select = select_next casefold digest parses

  -- The ids that `select_next` calls advisory-authorised.
  abbrev pub authorized_ids : AdmissionContext → List QueueEntry → List String
  authorized_ids c es = unblocked_ids casefold c (without_hard_conflict casefold c es)

  -- An eligible entry that precedes every eligible entry, with its receipt.
  pub record Selected (c : AdmissionContext) (es : List QueueEntry) (r : ScheduleReceipt)
      : Type 0 where
    pub entry : QueueEntry
    pub listed : In entry es
    pub eligible : is_eligible casefold c entry ≡ true
    pub first : All (λ f. is_eligible casefold c f ≡ true → Precedes entry f) es
    pub receipt : r ≡ receipt_of casefold digest parses c (authorized_ids c es) entry

  select_valid :
      (es : List QueueEntry) (c : AdmissionContext)
      → validate_snapshot casefold es ≡ returns tt
      → validate_admission_context casefold c ≡ returns tt
      → select es c
        ≡ choose casefold digest parses c (authorized_ids c es) (eligible_entries casefold c es)
  unfolding select_next
  select_valid es c h k = rw (h, k) refl

  select_parts :
      (es : List QueueEntry) (c : AdmissionContext) (o : Option ScheduleReceipt)
      → select es c ≡ returns o
      → (validate_snapshot casefold es ≡ returns tt)
        × (validate_admission_context casefold c ≡ returns tt)
  unfolding select_next
  select_parts es c o h = ground arith

  module _ (es : List QueueEntry) (c : AdmissionContext) (m : 1 ≤ c.max_selections)
      (h : validate_snapshot casefold es ≡ returns tt)
      (k : validate_admission_context casefold c ≡ returns tt) where
    Selected-of_head :
        (e : QueueEntry)
        → In e es
        → is_eligible casefold c e ≡ true
        → (r : ScheduleReceipt) × (select es c ≡ dated casefold digest parses c r) × Selected c es r
    Selected-of_head e i t =
        let d = validate_snapshot-Distinct casefold es h in
        let same = eligible_entries-eq_keep casefold c es d in
        let ch =
          choose-Chosen casefold digest parses c (authorized_ids c es)
            (keep (is_eligible casefold c) es) e (Distinct-keep (is_eligible casefold c) es d) m
            (In-keep (is_eligible casefold c) e es i t) in
        let (j, u) = In-of_keep (is_eligible casefold c) ch.entry es ch.listed in
        (
          receipt_of casefold digest parses c (authorized_ids c es) ch.entry,
          select_valid es c h k
              ∙ ap (choose casefold digest parses c (authorized_ids c es)) same
              ∙ ch.result,
          record {
            entry = ch.entry;
            listed = j;
            eligible = u;
            first = All-of_keep (Precedes ch.entry) (is_eligible casefold c) es ch.first;
            receipt = refl;
          },
        )

    none_eligible : any (is_eligible casefold c) es ≡ false → select es c ≡ returns none
    none_eligible n =
        let d = validate_snapshot-Distinct casefold es h in
        select_valid es c h k
        ∙ ap (choose casefold digest parses c (authorized_ids c es))
            (eligible_entries-eq_keep casefold c es d ∙ keep_none (is_eligible casefold c) es n)
        ∙ choose-nil casefold digest parses c (authorized_ids c es)

  module _ (es : List QueueEntry) (c : AdmissionContext) (m : 1 ≤ c.max_selections)
      (h : validate_snapshot casefold es ≡ returns tt)
      (k : validate_admission_context casefold c ≡ returns tt) where
    pub select_next_cases :
        ((any (is_eligible casefold c) es ≡ false) × (select es c ≡ returns none))
        ⊎ ((r : ScheduleReceipt) × (select es c ≡ dated casefold digest parses c r)
            × Selected c es r)
    select_next_cases = elim (Bool-cases (any (is_eligible casefold c) es)) [
      | inl found ↦
          let (e, i, t) = In-of_any (is_eligible casefold c) es found in
          inr (Selected-of_head es c m h k e i t)
      | inr missing ↦ inl (missing, none_eligible es c m h k missing)
    ]

  -- On a valid snapshot and context with at least one allowed selection and a well-formed
  -- instant, select_next returns: none if no entry is eligible, and otherwise a receipt as
  -- described by Selected; the lookup of an aging rank never fails.
  pub select_next-returns :
      (es : List QueueEntry) (c : AdmissionContext)
      → 1 ≤ c.max_selections
      → validate_snapshot casefold es ≡ returns tt
      → validate_admission_context casefold c ≡ returns tt
      → is_timestamp parses c.evaluated_at ≡ true
      → ((any (is_eligible casefold c) es ≡ false)
          × (select_next casefold digest parses es c ≡ returns none))
        ⊎ ((r : ScheduleReceipt) × (select_next casefold digest parses es c ≡ returns (some r))
            × Selected c es r)
  select_next-returns es c m h k t = elim (select_next_cases es c m h k) [
    | inl n ↦ inl n
    | inr (r, e, w) ↦ inr (r, e ∙ dated_returns (is_timestamp parses c.evaluated_at) r t, w)
  ]

  -- A receipt that select_next returns, for at least one allowed selection, is the one built for
  -- an eligible entry of the snapshot that comes before or level with every eligible entry, by
  -- priority and then by (aging_basis_at, enqueue_sequence).
  pub select_next-Selected :
      (es : List QueueEntry) (c : AdmissionContext) (r : ScheduleReceipt)
      → 1 ≤ c.max_selections
      → select_next casefold digest parses es c ≡ returns (some r)
      → Selected c es r
  select_next-Selected es c r m s =
      let (h, k) = select_parts es c (some r) s in
      elim (select_next_cases es c m h k) [
        | inl (n, e) ↦ absurd (apart r (sym e ∙ s))
        | inr (q, e, w) ↦
            subst (Selected c es) (dated_same (is_timestamp parses c.evaluated_at) q r (sym e ∙ s))
              w
      ]

  selected_authorized :
      (c : AdmissionContext) (es : List QueueEntry) (e : QueueEntry)
      → In e es
      → is_eligible casefold c e ≡ true
      → mem_text e.queue_id (authorized_ids c es) ≡ true
  unfolding unblocked_ids without_hard_conflict
  selected_authorized c es e i t =
      any-In (λ t. t == e.queue_id) e.queue_id _
        (In-map_of (λ f. f.queue_id) e _
          (In-keep (λ f. not (blocked casefold c f)) e _
            (In-keep _ e _ (In-keep _ e es i (ground arith)) (ground arith)) (ground arith)))
        (==-refl e.queue_id)

  -- Every receipt that select_next returns, for at least one allowed selection, carries the id of
  -- an entry of the snapshot and the reason
  -- priority_<value>:oldest_in_band:advisory_authorized:fifo, whether or not the entry has an
  -- advisory key.
  pub select_next-reason :
      (es : List QueueEntry) (c : AdmissionContext) (r : ScheduleReceipt)
      → 1 ≤ c.max_selections
      → select_next casefold digest parses es c ≡ returns (some r)
      → (e : QueueEntry) × In e es
        × (r.queue_id ≡ e.queue_id)
        × (r.selection_reason
            ≡ join_colon (
                ("priority_" <> priority_value e.business_priority)
                ∷ "oldest_in_band"
                ∷ "advisory_authorized"
                ∷ "fifo"
                ∷ []))
  unfolding completed_receipt selection_reason_parts ℕ_discrete
  select_next-reason es c r m s =
      let w = select_next-Selected es c r m s in
      let a = selected_authorized c es w.entry w.listed w.eligible in
      (
        w.entry,
        w.listed,
        ap (λ x. x.queue_id) w.receipt,
        ap (λ x. x.selection_reason) w.receipt ∙ rw a refl,
      )
