-- ===== src/Portfolio/Store/Counter.antt =====
-- The file of the sequence counter of skills/agentdesk/scripts/portfolio_scheduler_store.py.

use dockyard.Base.Text
use dockyard.Base.Text.{Printable, Printable-of_any}
use dockyard.Base.LineBreaks.{lines, Printable-append}
use dockyard.Base.Documents.{
  before_newline, ends_with_newline, is_empty, joined, lines-joined, before_newline-append,
  before_newline-joined, any-append, any-joined, finish,
}
use dockyard.Portfolio.Codec.Printed.{scalar-Printable, field-Printable}
use dockyard.Base.{
  ℕ, zero, suc, ◌≡◌, refl, ℕ_discrete, guarded, leb, comparable_number, String, true, List, [], ◌∷◌,
  ◌++◌, map, some, Attempt, raises, returns, require, or_raise, ◌>>=◌, ◌>>◌, arith, All, Bool,
  false, not, ◌&&◌, ltb, ◌==◌, any,
}
use dockyard.Portfolio.Codec.{Line, text, field, words, scalar, number, Scalar}
use dockyard.Portfolio.Codec.Reader.{
  FormatError, bad_document, bad_newline, control_byte, blank_line, parse_scalar, after_prefix,
}
use dockyard.Portfolio.Codec.RoundTrip.{parse_scalar-scalar, after_prefix-append, list_eq_refl}
use dockyard.Portfolio.Store.State.{same_numbers, range_from}

abbrev pub counter_version : String
counter_version = "agentdesk.portfolio-scheduler/v1"

abbrev dash : Line
dash = text "  - "

-- `_sequence_lines`
unfoldable pub sequence_lines : ℕ → List ℕ → List Line
unfolding field scalar
sequence_lines last_issued reserved =
    field [] "schema_version" (words counter_version)
    ∷ field [] "last_issued_enqueue_sequence" (number last_issued)
    ∷ text "reserved_sequences:"
    ∷ map (λ sequence. dash ++ scalar (number sequence)) reserved

-- Not empty, and no byte order mark.
abbrev starts : Line → Bool
starts [] = false
starts (c ∷ cs) = not (c == 65279)

-- `type(value) is not int`
unfoldable pub to_number : Scalar → FormatError → Attempt FormatError ℕ
to_number (number n) e = returns n
to_number _ e = raises e

-- The loop of `_decode_sequence`.
unfoldable pub read_reserved : List Line → Attempt FormatError (List ℕ)
unfolding to_number parse_scalar
read_reserved [] = returns []
read_reserved (line ∷ lines) = do
  token ← or_raise (after_prefix dash line) FormatError.sequence_extra
  value ← parse_scalar token
  n ← to_number value FormatError.reserved_sequence_value
  require (leb 1 n) FormatError.reserved_sequence_value
  rest ← read_reserved lines
  returns (n ∷ rest)

-- `_decode_document`, behind the decoding of the bytes: the text is the list of its code points.
unfoldable pub decode_document : Line → Attempt FormatError (List Line)
unfolding lines
decode_document content = do
  require (starts content) bad_document
  body ← or_raise (before_newline content) bad_newline
  require (not (ends_with_newline body)) bad_newline
  require (not (any (λ c. ltb c 32 && not (c == 10)) content)) control_byte
  require (not (any is_empty (lines body))) blank_line
  returns (lines body)

-- `_encode_sequence`
unfoldable pub encode_sequence : ℕ → List ℕ → Attempt FormatError Line
encode_sequence last_issued reserved = do
  require (same_numbers reserved (range_from 1 last_issued)) FormatError.sequence_not_contiguous
  returns (finish (sequence_lines last_issued reserved))

-- `_decode_sequence` on the lines of the content.
unfoldable pub decode_lines : Line → List Line → Attempt FormatError (ℕ × List ℕ)
unfolding read_reserved
decode_lines content (first ∷ second ∷ third ∷ rest) = do
  require (Text.list_eq first (field [] "schema_version" (words counter_version)))
      FormatError.sequence_schema
  token ←
      or_raise (after_prefix (text "last_issued_enqueue_sequence: ") second)
        FormatError.sequence_counter
  value ← parse_scalar token
  last_issued ← to_number value FormatError.counter_type
  require (Text.list_eq third (text "reserved_sequences:")) FormatError.sequence_reserved
  reserved ← read_reserved rest
  written ← encode_sequence last_issued reserved
  require (Text.list_eq written content) FormatError.sequence_noncanonical
  returns (last_issued, reserved)
decode_lines content _ = raises FormatError.sequence_fields

unfoldable pub decode_sequence : Line → Attempt FormatError (ℕ × List ℕ)
unfolding decode_document decode_lines
decode_sequence content = do ls ← decode_document content; decode_lines content ls

read_reserved-lines :
    (ns : List ℕ)
    → All (λ n. leb 1 n ≡ true) ns
    → read_reserved (map (λ sequence. dash ++ scalar (number sequence)) ns) ≡ returns ns
unfolding read_reserved to_number
read_reserved-lines [] h = refl
read_reserved-lines (n ∷ ns) (h, hs) =
    rw
      (
        after_prefix-append dash (scalar (number n)),
        parse_scalar-scalar (number n) tt,
        h,
        read_reserved-lines ns hs,
      )
      refl

positive :
    (first count : ℕ) (ns : List ℕ)
    → leb 1 first ≡ true
    → same_numbers ns (range_from first count) ≡ true
    → All (λ n. leb 1 n ≡ true) ns
positive first zero [] p h = tt
positive first zero (n ∷ ns) p h = cc
positive first (suc count) [] p h = tt
positive first (suc count) (n ∷ ns) p h =
    (ground (arith), positive (suc first) count ns (ground (arith)) (ground (arith)))

counter_line :
    (n : ℕ)
    → after_prefix
        (text "last_issued_enqueue_sequence: ")
        (field [] "last_issued_enqueue_sequence" (number n))
      ≡ some (scalar (number n))
unfolding field ℕ_discrete
counter_line n = refl

decode_lines_steps :
    (content first second third token written : Line) (rest : List Line) (n : ℕ) (ns : List ℕ)
    → Text.list_eq first (field [] "schema_version" (words counter_version)) ≡ true
    → after_prefix (text "last_issued_enqueue_sequence: ") second ≡ some token
    → parse_scalar token ≡ returns (number n)
    → Text.list_eq third (text "reserved_sequences:") ≡ true
    → read_reserved rest ≡ returns ns
    → encode_sequence n ns ≡ returns written
    → Text.list_eq written content ≡ true
    → decode_lines content (first ∷ second ∷ third ∷ rest) ≡ returns (n, ns)
unfolding decode_lines to_number
decode_lines_steps content first second third token written rest n ns a b c d e f g =
    rw (a, b, c, d, e, f, g) refl

encode_sequence-lines :
    (n : ℕ) (ns : List ℕ)
    → same_numbers ns (range_from 1 n) ≡ true
    → encode_sequence n ns ≡ returns (finish (sequence_lines n ns))
unfolding encode_sequence
encode_sequence-lines n ns h = rw h refl

decode_lines-lines :
    (n : ℕ) (ns : List ℕ)
    → same_numbers ns (range_from 1 n) ≡ true
    → decode_lines (finish (sequence_lines n ns)) (sequence_lines n ns) ≡ returns (n, ns)
unfolding sequence_lines
decode_lines-lines n ns h =
    decode_lines_steps _ _ _ _ (scalar (number n)) _ _ n ns
      (list_eq_refl (field [] "schema_version" (words counter_version))) (counter_line n)
      (parse_scalar-scalar (number n) tt) (list_eq_refl (text "reserved_sequences:"))
      (read_reserved-lines ns (positive 1 n ns refl h)) (encode_sequence-lines n ns h)
      (list_eq_refl (finish (sequence_lines n ns)))

number-Printable : (cs : Line) (n : ℕ) → Printable cs → Printable (cs ++ scalar (number n))
number-Printable cs n h = Printable-append cs (scalar (number n)) h (scalar-Printable (number n) tt)

numbers-Printable :
    (ns : List ℕ) → All Printable (map (λ sequence. dash ++ scalar (number sequence)) ns)
numbers-Printable [] = tt
numbers-Printable (n ∷ ns) =
    (number-Printable dash n (Printable-of_any dash refl), numbers-Printable ns)

numbers-nonempty :
    (ns : List ℕ) → any is_empty (map (λ sequence. dash ++ scalar (number sequence)) ns) ≡ false
numbers-nonempty [] = refl
numbers-nonempty (n ∷ ns) = numbers-nonempty ns

sequence_lines-Printable : (n : ℕ) (ns : List ℕ) → All Printable (sequence_lines n ns)
unfolding sequence_lines
sequence_lines-Printable n ns =
    let first =
      field-Printable "schema_version" (words counter_version)
        (Printable-of_any (text "schema_version") refl)
        (Printable-of_any (text counter_version) refl) in
    let second =
      field-Printable "last_issued_enqueue_sequence" (number n)
        (Printable-of_any (text "last_issued_enqueue_sequence") refl) tt in
    (first, (second, (Printable-of_any (text "reserved_sequences:") refl, numbers-Printable ns)))

sequence_lines-nonempty : (n : ℕ) (ns : List ℕ) → any is_empty (sequence_lines n ns) ≡ false
unfolding sequence_lines field
sequence_lines-nonempty n ns = numbers-nonempty ns

finish-starts : (n : ℕ) (ns : List ℕ) → starts (finish (sequence_lines n ns)) ≡ true
unfolding finish joined sequence_lines field ℕ_discrete
finish-starts n ns = refl

any-Printable : (cs : Line) → Printable cs → any (λ c. ltb c 32 && not (c == 10)) cs ≡ false
any-Printable [] h = refl
any-Printable (c ∷ cs) h = let p = h.0 in ground (arith, any-Printable cs h.1)

any-All :
    (ls : List Line)
    → All Printable ls
    → All (λ m. any (λ c. ltb c 32 && not (c == 10)) m ≡ false) ls
any-All [] h = tt
any-All (l ∷ ls) h = (any-Printable l h.0, any-All ls h.1)

-- What `_decode_document` reads of a text that `_finish` made of printable lines, none of them empty.
decode_document-finish :
    (l : Line) (ls : List Line)
    → starts (finish (l ∷ ls)) ≡ true
    → All Printable (l ∷ ls)
    → any is_empty (l ∷ ls) ≡ false
    → decode_document (finish (l ∷ ls)) ≡ returns (l ∷ ls)
unfolding decode_document finish ℕ_discrete
decode_document-finish l ls s h k =
    let plain =
      any-append (λ c. ltb c 32 && not (c == 10)) (joined l ls) (10 ∷ [])
        (any-joined _ l ls refl (any-All (l ∷ ls) h)) refl in
    let last : ends_with_newline (joined l ls) ≡ false = rw (before_newline-joined l ls h k) refl in
    rw (s, before_newline-append (joined l ls), last, plain, lines-joined l ls h.0 h.1, k) refl

decode_document-sequence_lines :
    (n : ℕ) (ns : List ℕ)
    → decode_document (finish (sequence_lines n ns)) ≡ returns (sequence_lines n ns)
unfolding sequence_lines
decode_document-sequence_lines n ns =
    decode_document-finish _ _ (finish-starts n ns) (sequence_lines-Printable n ns)
      (sequence_lines-nonempty n ns)

-- The text of the counter file that _encode_sequence makes is read by _decode_sequence as the
-- same counter: no check of the reader on the text, its lines or its values fails.
pub decode_sequence-encode_sequence :
    (n : ℕ) (ns : List ℕ) (content : Line)
    → encode_sequence n ns ≡ returns content
    → decode_sequence content ≡ returns (n, ns)
unfolding encode_sequence decode_sequence
decode_sequence-encode_sequence n ns content h =
    let (contiguous, k) =
      guarded (same_numbers ns (range_from 1 n)) FormatError.sequence_not_contiguous _ h in
    let made : finish (sequence_lines n ns) ≡ content = ground (arith) in
    let read : decode_document (finish (sequence_lines n ns)) ≡ returns (sequence_lines n ns) =
      decode_document-sequence_lines n ns in
    rw (← made, read) (decode_lines-lines n ns contiguous)
