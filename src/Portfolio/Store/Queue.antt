-- ===== src/Portfolio/Store/Queue.antt =====
-- The operations on queue entries of skills/agentdesk/scripts/portfolio_scheduler_store.py. An
-- operation that raises has written nothing.
use dockyard.Base.Sort
use dockyard.Base.{
  ℕ, ◌+◌, leb, ◌==◌, comparable_number, comparable_string, String, Bool, true, false, not, ◌&&◌,
  List, [], ◌∷◌, ◌++◌, Option, none, some, if◌then◌else◌, Attempt, returns, raises, require, ◌>>=◌,
  ◌>>◌,
}
use dockyard.Portfolio.Entry.{QueueEntry, QueuePhase, comparable_phase}
use dockyard.Portfolio.Codec.{Line}
use dockyard.Portfolio.Store.State.{
  StoreError, SchedulerStore, load_queue, load_sequence, load_state, write_queue, write_sequence,
  find_queue_entry, has_number, same_entry, ensure_entry_digest, replace_entry, update_entries,
  queue_create_phase, enqueue_sequence_unreserved, queue_divergent_replay, task_revision_conflict,
  sequence_conflict, queue_generation_stale, dispatch_event_missing, unexpected_dispatch_event,
  queue_phase_transition,
}

abbrev present : Option String → Bool
present none = false
present (some s) = true

-- The one phase that may follow, if any.
abbrev pub next_phase : QueuePhase → Option QueuePhase
next_phase QueuePhase.queued = some QueuePhase.selected
next_phase QueuePhase.selected = some QueuePhase.dispatched
next_phase QueuePhase.dispatched = some QueuePhase.retired
next_phase QueuePhase.retired = none

abbrev pub follows : QueuePhase → QueuePhase → Bool
follows state new_state = elim (next_phase state) [ none ↦ false | some p ↦ p == new_state ]

-- A dispatch, and nothing else, comes with an event.
unfoldable pub check_event : QueuePhase → Option String → Attempt StoreError (Unit {0})
check_event new_state event = do
  require (not (new_state == QueuePhase.dispatched && not (present event))) dispatch_event_missing
  require (not (not (new_state == QueuePhase.dispatched) && present event))
      unexpected_dispatch_event

-- What the loop over the existing entries in `create_queue_entry` finds: a stored entry to return,
-- or nothing in the way.
unfoldable pub check_existing :
    QueueEntry → List QueueEntry → Attempt StoreError (Option QueueEntry)
check_existing e [] = returns none
check_existing e (x ∷ xs) =
    let rest = check_existing e xs in
    if x.queue_id == e.queue_id
    then (if same_entry x e then returns (some x) else raises queue_divergent_replay)
    else (if x.task_id == e.task_id && x.revision == e.revision
        then raises task_revision_conflict
        else (if x.enqueue_sequence == e.enqueue_sequence then raises sequence_conflict else rest))

-- `sorted(entries + (entry,), key=lambda item: item.enqueue_sequence)`
unfoldable pub insert_entry : QueueEntry → List QueueEntry → List QueueEntry
insert_entry e entries =
    Sort.sort_by (λ x y. leb x.enqueue_sequence y.enqueue_sequence) (entries ++ (e ∷ []))

module _ (hash : List Line → String) where
  unfoldable pub reserve_enqueue_sequence : SchedulerStore → Attempt StoreError (SchedulerStore × ℕ)
  unfolding load_queue load_sequence write_sequence
  reserve_enqueue_sequence s = do
    entries ← load_queue hash s
    (last_issued, reserved) ← load_sequence s.sequence entries
    let next_sequence = last_issued + 1
    t ← write_sequence hash s next_sequence (reserved ++ (next_sequence ∷ []))
    returns (t, next_sequence)

  -- The end of `create_queue_entry`, after the loop.
  unfoldable pub store_entry :
      SchedulerStore
      → QueueEntry
      → List QueueEntry
      → Option QueueEntry
      → Attempt StoreError (SchedulerStore × QueueEntry)
  unfolding insert_entry write_queue
  store_entry s e entries (some existing) = returns (s, existing)
  store_entry s e entries none = do t ← write_queue hash s (insert_entry e entries); returns (t, e)

  unfoldable pub create_queue_entry :
      SchedulerStore → QueueEntry → Attempt StoreError (SchedulerStore × QueueEntry)
  unfolding ensure_entry_digest load_state check_existing store_entry
  create_queue_entry s e = do
    ensure_entry_digest hash e
    require (e.state == QueuePhase.queued) queue_create_phase
    (entries, (last_issued, reserved)) ← load_state hash s
    require (leb e.enqueue_sequence last_issued && has_number e.enqueue_sequence reserved)
        enqueue_sequence_unreserved
    existing ← check_existing e entries
    store_entry s e entries existing

  -- The writing end of `advance_queue_phase`.
  unfoldable pub write_phase :
      SchedulerStore
      → List QueueEntry
      → QueueEntry
      → QueuePhase
      → Attempt StoreError (SchedulerStore × QueueEntry)
  unfolding write_queue replace_entry update_entries
  write_phase s entries current new_state = do
    let updated = replace_entry hash current new_state current.selection_generation
    t ← write_queue hash s (update_entries hash current.queue_id updated entries)
    returns (t, updated)

  -- `advance_queue_phase` once the current entry is known.
  unfoldable pub move_entry :
      SchedulerStore
      → List QueueEntry
      → QueueEntry
      → QueuePhase
      → Option String
      → Attempt StoreError (SchedulerStore × QueueEntry)
  unfolding check_event write_phase
  move_entry s entries current new_state event =
      if current.state == new_state
      then (do check_event new_state event; returns (s, current))
      else (do
        require (follows current.state new_state) queue_phase_transition
        check_event new_state event
        write_phase s entries current new_state)

  unfoldable pub advance_queue_phase :
      SchedulerStore
      → String
      → ℕ
      → QueuePhase
      → Option String
      → Attempt StoreError (SchedulerStore × QueueEntry)
  unfolding load_state find_queue_entry move_entry
  advance_queue_phase s q generation new_state event = do
    (entries, sequence) ← load_state hash s
    current ← find_queue_entry entries q
    require (current.selection_generation == generation) queue_generation_stale
    move_entry s entries current new_state event

  unfoldable pub retire_queue_entry :
      SchedulerStore → String → ℕ → Attempt StoreError (SchedulerStore × QueueEntry)
  unfolding advance_queue_phase
  retire_queue_entry s q generation = advance_queue_phase s q generation QueuePhase.retired none
