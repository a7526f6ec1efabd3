-- ===== src/Sse/Frame.antt =====
-- `encode_sse_event` of skills/agentdesk/scripts/dockyard_sse.py, as code points.
use dockyard.Base.Text.{codes, decimal, Printable, decimal-Printable}
use dockyard.Base.LineBreaks.{Printable-append, lines, lines-Printable, lines_empty}
use dockyard.Base.Members.{In-of_any, All-In}
use dockyard.Base.{
  ℕ, ◌≡◌, refl, ap, ◌∙◌, ◌+◌, ◌/◌, ◌%◌, ltb, leb, ◌==◌, comparable_number, comparable_string,
  String, false, List, [], ◌∷◌, ◌++◌, any, All, if◌then◌else◌, returns, arith, past, guarded,
  All-map, All-of_any, eq_of_==,
}
use dockyard.Sse.{event_types, Event, Primitives, check_event_fields, check_text}

-- A digit of `\u00xx`.
abbrev hex_digit : ℕ → ℕ
hex_digit n = if ltb n 10 then 48 + n else 87 + n

-- `json.dumps` of a text without `ensure_ascii`, between the quotation marks.
unfoldable pub escape : List ℕ → List ℕ
escape [] = []
escape (c ∷ cs) =
    let rest = escape cs in
    if c == 34
    then 92 ∷ 34 ∷ rest
    else (if c == 92
        then 92 ∷ 92 ∷ rest
        else (if c == 10
            then 92 ∷ 110 ∷ rest
            else (if c == 13
                then 92 ∷ 114 ∷ rest
                else (if c == 9
                    then 92 ∷ 116 ∷ rest
                    else (if c == 12
                        then 92 ∷ 102 ∷ rest
                        else (if c == 8
                            then 92 ∷ 98 ∷ rest
                            else (if ltb c 32
                                then 92
                                  ∷ 117
                                  ∷ 48
                                  ∷ 48
                                  ∷ hex_digit (c / 16)
                                  ∷ hex_digit (c % 16)
                                  ∷ rest
                                else c ∷ rest)))))))

unfoldable pub json_text : String → List ℕ
unfolding escape
json_text s = 34 ∷ (escape (codes s) ++ (34 ∷ []))

-- `"key":value`
unfoldable pub member : String × List ℕ → List ℕ
unfolding json_text
member (key, value) = json_text key ++ (58 ∷ value)

unfoldable pub members : List (String × List ℕ) → List ℕ
unfolding member
members [] = []
members (m ∷ []) = member m
members (m ∷ n ∷ ms) = member m ++ (44 ∷ members (n ∷ ms))

-- `asdict(event)`
unfoldable pub event_fields : Event → List (String × List ℕ)
unfolding json_text
event_fields e =
    ("schema_version", json_text e.schema_version)
    ∷ ("event_cursor", codes (decimal e.event_cursor))
    ∷ ("project_id", json_text e.project_id)
    ∷ ("event_type", json_text e.event_type)
    ∷ ("snapshot_commit", json_text e.snapshot_commit)
    ∷ ("resource_id", json_text e.resource_id)
    ∷ ("occurred_at", json_text e.occurred_at)
    ∷ ("content_digest", json_text e.content_digest)
    ∷ []

-- `json.dumps(asdict(event), ensure_ascii=False, separators=(",", ":"))`
unfoldable pub event_data : Event → List ℕ
unfolding members event_fields
event_data e = 123 ∷ (members (event_fields e) ++ (125 ∷ []))

unfoldable pub encode_sse_event : Event → List ℕ
unfolding event_data
encode_sse_event e =
    (codes "id: " ++ codes (decimal e.event_cursor))
    ++ (10
        ∷ ((codes "event: " ++ codes e.event_type)
            ++ (10 ∷ ((codes "data: " ++ event_data e) ++ (10 ∷ 10 ∷ [])))))

hex_digit-not_control : (n : ℕ) → ltb (hex_digit n) 32 ≡ false
hex_digit-not_control n = ground (arith)

escape-Printable : (cs : List ℕ) → Printable (escape cs)
unfolding escape
escape-Printable [] = tt
escape-Printable (c ∷ cs) =
    let rest = escape-Printable cs in
    let high = hex_digit-not_control (c / 16) in
    let low = hex_digit-not_control (c % 16) in ground (arith)

json_text-Printable : (s : String) → Printable (json_text s)
unfolding json_text
json_text-Printable s =
    (refl, Printable-append (escape (codes s)) _ (escape-Printable (codes s)) (refl, tt))

members-Printable :
    (ms : List (String × List ℕ)) → All (λ m. Printable m.1) ms → Printable (members ms)
unfolding members member
members-Printable [] h = tt
members-Printable ((key, value) ∷ []) h =
    Printable-append (json_text key) _ (json_text-Printable key) (refl, h.0)
members-Printable ((key, value) ∷ n ∷ ms) h =
    Printable-append (json_text key ++ (58 ∷ value)) _
      (Printable-append (json_text key) _ (json_text-Printable key) (refl, h.0))
      (refl, members-Printable (n ∷ ms) h.1)

event_data-Printable : (e : Event) → Printable (event_data e)
unfolding event_data event_fields
event_data-Printable e =
    let fields : All (λ m. Printable m.1) (event_fields e) = (
      json_text-Printable e.schema_version,
      (
        decimal-Printable e.event_cursor,
        (
          json_text-Printable e.project_id,
          (
            json_text-Printable e.event_type,
            (
              json_text-Printable e.snapshot_commit,
              (
                json_text-Printable e.resource_id,
                (json_text-Printable e.occurred_at, (json_text-Printable e.content_digest, tt)),
              ),
            ),
          ),
        ),
      ),
    ) in
    (
      refl,
      Printable-append (members (event_fields e)) _ (members-Printable (event_fields e) fields)
          (refl, tt),
    )

event_types-Printable : All (λ t. Printable (codes t)) event_types
event_types-Printable =
    All-map (λ t. any (λ c. ltb c 32) (codes t) ≡ false) _
      (λ t h. All-of_any (λ c. ltb c 32) (codes t) h) event_types
      (All-of_any (λ t. any (λ c. ltb c 32) (codes t)) event_types refl)

-- The type of an event that the constructor accepts is one of the list.
event_type-Printable :
    (env : Primitives) (e : Event)
    → check_event_fields env e ≡ returns tt
    → Printable (codes e.event_type)
unfolding check_event_fields
event_type-Printable env e valid =
    let counted = (guarded (e.schema_version == "dockyard.sse-event/v1") _ _ valid).1 in
    let named = (guarded (leb 1 e.event_cursor) _ _ counted).1 in
    let typed = past (check_text e.project_id "project_id") _ tt named in
    let known = (guarded (any (λ t. e.event_type == t) event_types) _ _ typed).0 in
    let (t, listed, same) = In-of_any (λ t. e.event_type == t) event_types known in
    rw (eq_of_== e.event_type t same)
      (All-In (λ t. Printable (codes t)) t event_types event_types-Printable listed)

-- The frame of an event that the constructor accepts, split at its line feeds, has an id line, an
-- event line, one data line and the two empty ends, and none of them holds a control character,
-- whatever the texts of the event are.
pub encode_sse_event-lines :
    (env : Primitives) (e : Event)
    → check_event_fields env e ≡ returns tt
    → (lines (encode_sse_event e)
        ≡ (codes "id: " ++ codes (decimal e.event_cursor))
          ∷ (codes "event: " ++ codes e.event_type)
          ∷ (codes "data: " ++ event_data e)
          ∷ []
          ∷ []
          ∷ [])
      × All Printable (lines (encode_sse_event e))
unfolding encode_sse_event
encode_sse_event-lines env e valid =
    let id_line = codes "id: " ++ codes (decimal e.event_cursor) in
    let type_line = codes "event: " ++ codes e.event_type in
    let data_line = codes "data: " ++ event_data e in
    let id_printable : Printable id_line =
      Printable-append (codes "id: ") (codes (decimal e.event_cursor))
        (All-of_any (λ c. ltb c 32) (codes "id: ") refl) (decimal-Printable e.event_cursor) in
    let type_printable : Printable type_line =
      Printable-append (codes "event: ") (codes e.event_type)
        (All-of_any (λ c. ltb c 32) (codes "event: ") refl) (event_type-Printable env e valid) in
    let data_printable : Printable data_line =
      Printable-append (codes "data: ") (event_data e)
        (All-of_any (λ c. ltb c 32) (codes "data: ") refl) (event_data-Printable e) in
    let split : lines (encode_sse_event e) ≡ id_line ∷ type_line ∷ data_line ∷ [] ∷ [] ∷ [] =
      lines-Printable id_line _ id_printable
      ∙ ap (λ ls. id_line ∷ ls)
          (lines-Printable type_line _ type_printable
            ∙ ap (λ ls. type_line ∷ ls)
                (lines-Printable data_line _ data_printable
                  ∙ ap (λ ls. data_line ∷ ls)
                      (lines-Printable [] [] tt ∙ ap (λ ls. [] ∷ ls) lines_empty))) in
    (split, rw split (id_printable, (type_printable, (data_printable, (tt, (tt, tt))))))
