-- ===== src/Sse/Published.antt =====
-- The logs behind the hub of skills/agentdesk/scripts/dockyard_sse.py, and what `publish` does.

use dockyard.Base.{
  ℕ, suc, ◌≡◌, refl, sym, ap, subst, ◌∙◌, ◌+◌, ◌-◌, ◌≤◌, String, List, [], ◌∷◌, ◌++◌, length, ◌==◌,
  comparable_string, drop, last, if◌then◌else◌, returns, ◌>>◌, arith, inl, inr, Bool-cases,
  length-drop, ◌⊎◌, last-append, peel, past, returned_same, ==-refl,
}
use dockyard.Sse.{Change, Event, Primitives, check_text, check_event_fields, make_event}
use dockyard.Sse.Hub.{
  Hub, check_change, fresh_event, next_cursor, publish, replay, replay_kept, write_events,
}
use dockyard.Sse.Log.{
  Numbered, Numbered-append, Numbered-drop, next_cursor-Numbered, read_log, replay_kept-read_log,
}

-- All events of each project.
abbrev pub Logs : Type 0
Logs = String → List Event

unfoldable pub append_event : Logs → String → Event → Logs
append_event logs id e i = if i == id then logs id ++ (e ∷ []) else logs i

-- The hub keeps the newest events of the logs.
pub record Represents (h : Hub) (logs : Logs) : Type 0 where
  pub positive : 1 ≤ h.max_backlog
  pub numbered : (id : String) → Numbered 0 (logs id)
  pub kept : (id : String) → h.events id ≡ last h.max_backlog (logs id)
  pub streams : h.free_streams ≤ h.max_streams

pub Represents-replay :
    (h : Hub) (logs : Logs)
    → Represents h logs
    → (id : String) (after : ℕ)
    → replay h id after ≡ (check_text id "project_id" >> read_log h.max_backlog (logs id) after)
unfolding replay
Represents-replay h logs r id after =
    ap (λ m. check_text id "project_id" >> m)
      (ap (λ es. replay_kept es after) (r.kept id)
        ∙ replay_kept-read_log h.max_backlog (logs id) after r.positive (r.numbered id))

-- The number of the next event follows the log.
Represents-next_cursor :
    (h : Hub) (logs : Logs)
    → Represents h logs
    → (id : String) → next_cursor (h.events id) ≡ suc (length (logs id))
Represents-next_cursor h logs r id =
    let log = logs id in
    let k = length log - h.max_backlog in
    let cut : Numbered k (drop k log) =
      subst (λ m. Numbered m (drop k log)) (let e : 0 + k ≡ k = omega arith in e)
        (Numbered-drop k 0 log (r.numbered id) (omega arith)) in
    let b_pos = r.positive in
    let size = length-drop k log in
    let some_kept : (k ≡ 0) ⊎ (1 ≤ length (drop k log)) = ground (arith) in
    rw (r.kept id) (omega (arith, next_cursor-Numbered k (drop k log) cut some_kept, size))

-- The constructor returns what it was given.
make_event-same : (env : Primitives) (e f : Event) → make_event env e ≡ returns f → f ≡ e
unfolding make_event
make_event-same env e f h =
    let made : returns e ≡ returns f = past (check_event_fields env e) _ f h in
    sym (returned_same (returns e) refl made)

-- What a publication that returns has done.
pub publish-event :
    (env : Primitives) (h t : Hub) (c : Change) (e : Event)
    → publish env h c ≡ returns (t, e)
    → (e ≡ fresh_event env (next_cursor (h.events c.project_id)) c)
      × (t ≡ write_events c.project_id (last h.max_backlog (h.events c.project_id ++ (e ∷ []))) h)
unfolding publish
publish-event env h t c e returned =
    let new = fresh_event env (next_cursor (h.events c.project_id)) c in
    let (f, made, out) =
      peel (make_event env new) _ (t, e) (past (check_change env c) _ (t, e) returned) in
    let pair : (
      write_events c.project_id (last h.max_backlog (h.events c.project_id ++ (f ∷ []))) h,
      f,
    )
        ≡ (t, e) =
      returned_same (returns _) refl out in
    let same : f ≡ e = ap (λ x. x.1) pair in
    (
      sym same ∙ make_event-same env new f made,
      sym (ap (λ x. x.0) pair)
          ∙ ap
              (λ x.
                write_events c.project_id (last h.max_backlog (h.events c.project_id ++ (x ∷ [])))
                  h)
              same,
    )

append_event-own :
    (logs : Logs) (id : String) (e : Event) → append_event logs id e id ≡ logs id ++ (e ∷ [])
unfolding append_event
append_event-own logs id e = rw (==-refl id) refl

pub publish-Represents :
    (env : Primitives) (h t : Hub) (logs : Logs) (c : Change) (e : Event)
    → Represents h logs
    → publish env h c ≡ returns (t, e)
    → Represents t (append_event logs c.project_id e)
unfolding write_events append_event fresh_event
publish-Represents env h t logs c e r returned =
    let (built, wrote) = publish-event env h t c e returned in
    let id = c.project_id in
    let next : e.event_cursor ≡ suc (length (logs id)) =
      ap (λ x. x.event_cursor) built ∙ Represents-next_cursor h logs r id in
    rw wrote (record {
      positive = r.positive;
      streams = r.streams;
      numbered = λ i. elim (Bool-cases (i == id)) [
        | inl own ↦ rw own (Numbered-append 0 (logs id) e (r.numbered id) (omega (arith, next)))
        | inr other ↦ rw other (r.numbered i)
      ];
      kept = λ i. elim (Bool-cases (i == id)) [
        | inl own ↦ rw (own, r.kept id) (last-append h.max_backlog (logs id) e)
        | inr other ↦ rw other (r.kept i)
      ];
    })
