-- ===== src/Worktree/Files.antt =====
-- A record and a reservation are written and read.
use dockyard.Base.LineBreaks
use dockyard.Base.{◌≡◌, refl, [], ◌∷◌, ◌++◌, returns, raises}
use dockyard.Portfolio.Codec.Reader
use dockyard.Worktree.{schema_error}
use dockyard.Worktree.Document
use dockyard.Worktree.Decoding
use dockyard.Worktree.Decoding.{decode_record, decode_reservation}
use dockyard.Worktree.Records.{encode_record}
use dockyard.Worktree.Store.{record_file, reservation_file}
use dockyard.Worktree.Roundtrip.{decode_record-encode_record}
use dockyard.Worktree.Examples
use dockyard.Worktree.Examples.{os, made, made_valid, reservation}

reading : Unit {0}
unfolding Examples.program LineBreaks.lines Reader.number_from Document.unescape
    Document.parse_quoted Document.parse_scalar Document.read_fields Document.document
    Decoding.as_text Decoding.as_number Decoding.phase_of Decoding.schema_of Decoding.sha_of
    Decoding.digest_of Decoding.time_of Decoding.optional_time_of Decoding.positive_of
    Decoding.task_of Decoding.checked_branch_of Decoding.safe_id_of Decoding.path_of
    Decoding.record_of Decoding.reservation_of Decoding.decode_record Decoding.decode_reservation
reading = tt

encoding : encode_record os made ≡ returns (record_file made)
unfolding reading
encoding = refl

decode_record-encode_record_example : decode_record os (record_file made) ≡ returns made
decode_record-encode_record_example =
    decode_record-encode_record os made (record_file made) made_valid encoding

decoding : decode_record os (record_file made) ≡ returns made
unfolding reading
decoding = refl

decoding_reservation : decode_reservation os (reservation_file reservation) ≡ returns reservation
unfolding reading
decoding_reservation = refl

-- The file of a reservation, and one with a second final line feed.
misplaced :
    decode_record os (reservation_file reservation) ≡ raises (schema_error "record_field_count")
unfolding reading
misplaced = refl

padded : decode_record os (record_file made ++ (10 ∷ [])) ≡ raises (schema_error "record_newline")
unfolding reading
padded = refl
