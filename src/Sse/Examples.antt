-- ===== src/Sse/Examples.antt =====
-- A hub with room for two events and one stream.
use dockyard.Base.Text
use dockyard.Base.Text.{codes, decimal, Printable}
use dockyard.Base.{
  ◌≡◌, refl, ℕ, [], ◌∷◌, ◌++◌, All, drop, returns, ◌>>◌, ℕ_discrete, String-discrete,
}
use dockyard.Sse.{
  Change, Event, Primitives, utc_offset, check_text, check_sha, check_timestamp, zone_written_out,
  check_event_fields, make_event, content_digest_of,
}
use dockyard.Sse.Hub.{
  Hub, make_hub, newest, next_cursor, write_events, check_change, fresh_event, publish, replay_kept,
  replay, acquire_stream, release_stream,
}
use dockyard.Sse.Log.{Numbered, read_log}
use dockyard.Sse.Published.{Logs, Represents, append_event}
use dockyard.Sse.History.{here, published, Run, Run-replay, Run-Represents, make_hub-Represents}
use dockyard.Sse.Resume.{replay-gapless, cursor_after}
use dockyard.Sse.Frame.{encode_sse_event, encode_sse_event-lines, event_data}
use dockyard.Base.LineBreaks.{lines}

program : Unit {0}
unfolding check_text check_sha check_timestamp zone_written_out check_event_fields make_event
    content_digest_of make_hub newest next_cursor write_events check_change fresh_event publish
    replay_kept replay acquire_stream release_stream read_log append_event Text.decimal
    Text.decimal_from Text.strip Text.lstrip Text.is_space Text.is_wrapped Text.is_blank ℕ_discrete
    String-discrete
program = tt

abbrev env : Primitives
env = record {
  sha256 = λ cs. "0123456789abcdef0123456789abcdef0123456789abcdef0123456789abcdef";
  fromisoformat = λ t. utc_offset;
}

abbrev change : Change
change = record {
  project_id = "P-1";
  event_type = "task.changed";
  snapshot_commit = "0123456789012345678901234567890123456789";
  resource_id = "T-1";
  occurred_at = "2026-01-01T00:00:00Z";
}

abbrev empty : Hub
empty = record { max_backlog = 2; events = λ i. []; max_streams = 1; free_streams = 1 }

abbrev event : ℕ → Event
event n = fresh_event env n change

abbrev first_hub : Hub
first_hub = write_events "P-1" (event 1 ∷ []) empty

abbrev second_hub : Hub
second_hub = write_events "P-1" (event 1 ∷ event 2 ∷ []) first_hub

abbrev third_hub : Hub
third_hub = write_events "P-1" (event 2 ∷ event 3 ∷ []) second_hub

made : make_hub 2 1 ≡ returns empty
unfolding program
made = refl

first_event : publish env empty change ≡ returns (first_hub, event 1)
unfolding program
first_event = refl

second_event : publish env first_hub change ≡ returns (second_hub, event 2)
unfolding program
second_event = refl

third_event : publish env second_hub change ≡ returns (third_hub, event 3)
unfolding program
third_event = refl

abbrev one_log : Logs
one_log = append_event (λ i. []) "P-1" (event 1)

abbrev three_logs : Logs
three_logs = append_event (append_event one_log "P-1" (event 2)) "P-1" (event 3)

late : Run env first_hub one_log third_hub three_logs
late = published change (event 3) (published change (event 2) here second_event) third_event

all_three : Run env empty (λ i. []) third_hub three_logs
all_three =
    published change (event 3)
      (published change (event 2) (published change (event 1) here first_event) second_event)
      third_event

Run-replay_example :
    replay third_hub "P-1" 1 ≡ (check_text "P-1" "project_id" >> read_log 2 (three_logs "P-1") 1)
Run-replay_example = Run-replay env 2 1 made all_three "P-1" 1

first_Represents : Represents first_hub one_log
first_Represents =
    (Run-Represents env (make_hub-Represents 2 1 empty made).0
      (published change (event 1) here first_event)).0

first_read : replay first_hub "P-1" 0 ≡ returns (event 1 ∷ [])
unfolding program
first_read = refl

second_read :
    replay third_hub "P-1" (cursor_after 0 (event 1 ∷ [])) ≡ returns (event 2 ∷ event 3 ∷ [])
unfolding program
second_read = refl

replay-gapless_example :
    (drop 0 (three_logs "P-1") ≡ (event 1 ∷ []) ++ (event 2 ∷ event 3 ∷ []))
    × Numbered 0 ((event 1 ∷ []) ++ (event 2 ∷ event 3 ∷ []))
replay-gapless_example =
    replay-gapless env "P-1" 0 (event 1 ∷ []) (event 2 ∷ event 3 ∷ []) first_Represents first_read
      late second_read

sound_event : check_event_fields env (event 1) ≡ returns tt
unfolding program
sound_event = refl

encode_sse_event-lines_example :
    (lines (encode_sse_event (event 1))
      ≡ (codes "id: " ++ codes (decimal (event 1).event_cursor))
        ∷ (codes "event: " ++ codes (event 1).event_type)
        ∷ (codes "data: " ++ event_data (event 1))
        ∷ []
        ∷ []
        ∷ [])
    × All Printable (lines (encode_sse_event (event 1)))
encode_sse_event-lines_example = encode_sse_event-lines env (event 1) sound_event
