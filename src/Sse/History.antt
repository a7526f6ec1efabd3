-- ===== src/Sse/History.antt =====
-- The hub of skills/agentdesk/scripts/dockyard_sse.py over any sequence of its operations.
use mathlib.Core.List.{append-nil, append_assoc}
use dockyard.Base.{
  ℕ, ◌≡◌, refl, sym, ap, subst, ◌∙◌, ◌+◌, ◌-◌, ◌≤◌, String, List, [], ◌∷◌, ◌++◌, ltb, leb, ◌==◌,
  comparable_string, drop_all, last, returns, ◌>>◌, arith, inl, inr, Bool-cases, guarded, eq_of_==,
  returned_same,
}
use dockyard.Sse.{Change, Event, Primitives, check_text}
use dockyard.Sse.Hub.{Hub, acquire_stream, make_hub, publish, release_stream, replay, write_events}
use dockyard.Sse.Log.{Numbered, read_log}
use dockyard.Sse.Published.{
  Logs, Represents, Represents-replay, append_event, publish-Represents, publish-event,
}

module _ (env : Primitives) where
  pub data Run (s : Hub) (logs : Logs) : Hub → Logs → Type 0 where
    here : Run s logs s logs
    published :
        {t u : Hub} {past_events : Logs} (c : Change) (e : Event)
        → Run s logs t past_events
        → publish env t c ≡ returns (u, e)
        → Run s logs u (append_event past_events c.project_id e)
    acquired :
        {t u : Hub} {past_events : Logs}
        → Run s logs t past_events
        → acquire_stream t ≡ returns u
        → Run s logs u past_events
    released :
        {t u : Hub} {past_events : Logs}
        → Run s logs t past_events
        → release_stream t ≡ returns u
        → Run s logs u past_events

streams-Represents :
    (h t : Hub) (logs : Logs)
    → Represents h logs
    → t.max_backlog ≡ h.max_backlog
    → t.events ≡ h.events
    → t.free_streams ≤ t.max_streams
    → Represents t logs
streams-Represents h t logs r same_bound same_events few = record {
  positive = subst (λ n. 1 ≤ n) (sym same_bound) r.positive;
  numbered = r.numbered;
  kept = λ i. ap (λ f. f i) same_events ∙ r.kept i ∙ ap (λ n. last n (logs i)) (sym same_bound);
  streams = few;
}

acquire-free :
    (h t : Hub) → acquire_stream h ≡ returns t → t ≡ record h { free_streams = h.free_streams - 1 }
unfolding acquire_stream
acquire-free h t done =
    sym (returned_same (returns _) refl (guarded (leb 1 h.free_streams) _ _ done).1)

release-free :
    (h t : Hub)
    → release_stream h ≡ returns t
    → (h.free_streams + 1 ≤ h.max_streams) × (t ≡ record h { free_streams = h.free_streams + 1 })
unfolding release_stream
release-free h t done =
    let (room, rest) = guarded (ltb h.free_streams h.max_streams) _ _ done in
    (ground (arith), sym (returned_same (returns _) refl rest))

pub make_hub-Represents :
    (b n : ℕ) (h : Hub) → make_hub b n ≡ returns h → Represents h (λ i. []) × (h.max_backlog ≡ b)
unfolding make_hub Numbered
make_hub-Represents b n h made =
    let (pos, more) = guarded (leb 1 b) _ _ made in
    let done = returned_same (returns _) refl (guarded (leb 1 n) _ _ more).1 in
    rw (← done) (
      record {
        positive = ground (arith);
        numbered = λ i. tt;
        kept = λ i. sym (drop_all (0 - b) [] (omega arith));
        streams = omega arith;
      },
      refl,
    )

module _ (env : Primitives) where
  pub Run-Represents :
      {s : Hub} {before : Logs} {t : Hub} {logs : Logs}
      → Represents s before
      → Run env s before t logs
      → Represents t logs × (t.max_backlog ≡ s.max_backlog)
  unfolding write_events
  Run-Represents r here = (r, refl)
  Run-Represents r (published c e earlier done) =
      let (rt, same) = Run-Represents r earlier in
      (
        publish-Represents env _ _ _ c e rt done,
        ap (λ h. h.max_backlog) (publish-event env _ _ c e done).1 ∙ same,
      )
  Run-Represents r (acquired {t = t} {u = u} earlier done) =
      let (rt, same) = Run-Represents r earlier in
      let now = acquire-free t u done in
      let few = rt.streams in
      (
        rw now (streams-Represents t _ _ rt refl refl (omega arith)),
        ap (λ h. h.max_backlog) now ∙ same,
      )
  Run-Represents r (released {t = t} {u = u} earlier done) =
      let (rt, same) = Run-Represents r earlier in
      let (room, now) = release-free t u done in
      (rw now (streams-Represents t _ _ rt refl refl room), ap (λ h. h.max_backlog) now ∙ same)

  -- The log of a project grows at its end.
  pub Run-extends :
      {s : Hub} {before : Logs} {t : Hub} {logs : Logs}
      → Run env s before t logs
      → (id : String) → (new : List Event) × (logs id ≡ before id ++ new)
  unfolding append_event
  Run-extends here id = ([], sym (append-nil _))
  Run-extends {before = l} (published {past_events = m} c e earlier done) id =
      let (new, h) = Run-extends earlier id in
      elim (Bool-cases (id == c.project_id)) [
        | inl own ↦
            let k = ap m (sym (eq_of_== id c.project_id own)) ∙ h in
            (new ++ (e ∷ []), rw (own, k) (append_assoc (l id) new (e ∷ [])))
        | inr other ↦ (new, rw other h)
      ]
  Run-extends (acquired earlier done) id = Run-extends earlier id
  Run-extends (released earlier done) id = Run-extends earlier id

  -- A hub refines the abstract log: whatever events were published and streams acquired and
  -- released since a hub with a backlog of b was made, replay answers for every project and
  -- cursor, errors included, as the reader of the complete log that may start at most b events
  -- back.
  pub Run-replay :
      (b n : ℕ) {s t : Hub} {logs : Logs}
      → make_hub b n ≡ returns s
      → Run env s (λ i. []) t logs
      → (id : String) (after : ℕ)
      → replay t id after ≡ (check_text id "project_id" >> read_log b (logs id) after)
  Run-replay b n {t = t} {logs = logs} made run id after =
      let (start, bound) = make_hub-Represents b n _ made in
      let (r, same) = Run-Represents start run in
      Represents-replay t logs r id after
      ∙ ap (λ m. check_text id "project_id" >> read_log m (logs id) after) (same ∙ bound)
