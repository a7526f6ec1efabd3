-- ===== src/Portfolio/Codec/Reader.antt =====
-- The reading of canonical lines in skills/agentdesk/scripts/portfolio_scheduler_store.py.
use mathlib.Core.Option
use dockyard.Base.Text
use dockyard.Base.{
  ℕ, ◌+◌, ◌*◌, ◌-◌, leb, ltb, ◌==◌, comparable_number, String, Bool, true, false, not, ◌&&◌, ◌||◌,
  List, [], ◌∷◌, ◌++◌, any, Option, none, some, if◌then◌else◌, Attempt, raises, returns, require,
  or_raise, ◌>>=◌, ◌>>◌,
}
use dockyard.Portfolio.Codec.{Line, text, quote, Scalar, null, flag, number, word}

pub data FormatError : Type 0 where
  bad_scalar bad_escape bad_quote bad_control noncanonical : FormatError
  missing_field field_order missing_value : FormatError
  bad_document bad_newline control_byte blank_line : FormatError
  sequence_fields sequence_schema sequence_counter counter_type sequence_reserved : FormatError
  sequence_extra reserved_sequence_value sequence_not_contiguous sequence_noncanonical : FormatError

abbrev pub is_control : ℕ → Bool
is_control c = ltb c 32 || c == 127

-- What stands before a last quotation mark.
abbrev pub before_quote : Line → Option Line
before_quote [] = none
before_quote (c ∷ []) = if c == 34 then some [] else none
before_quote (c ∷ d ∷ ds) = Option.map (λ cs. c ∷ cs) (before_quote (d ∷ ds))

-- `token[1:-1]` of a token in quotation marks.
abbrev pub quoted_body : Line → Option Line
quoted_body [] = none
quoted_body (c ∷ cs) = if c == 34 then before_quote cs else none

-- The loop of `_parse_quoted_scalar`; `escaped` holds after a backslash.
unfoldable pub unescape : Bool → Line → Attempt FormatError Line
unescape true [] = raises bad_escape
unescape false [] = returns []
unescape true (c ∷ cs) = do
  require (c == 34 || c == 92) bad_escape
  rest ← unescape false cs
  returns (c ∷ rest)
unescape false (c ∷ cs) =
    let rest = unescape (c == 92) cs in
    if c == 92 then rest else (do
      require (not (c == 34)) bad_quote
      require (not (is_control c)) bad_control
      value ← rest
      returns (c ∷ value))

-- `_parse_quoted_scalar`
unfoldable pub parse_quoted_scalar : Line → Attempt FormatError Line
unfolding unescape quote
parse_quoted_scalar token = do
  body ← or_raise (quoted_body token) bad_scalar
  value ← unescape false body
  require (Text.list_eq (quote value) token) noncanonical
  returns value

abbrev pub is_digit : ℕ → Bool
is_digit c = leb 48 c && leb c 57

-- `re.fullmatch(r"0|[1-9][0-9]*", token)`
abbrev pub is_number : Line → Bool
is_number [] = false
is_number (c ∷ cs) =
    (c == 48 && not (any (λ d. true) cs))
    || (leb 49 c && leb c 57 && not (any (λ d. not (is_digit d)) cs))

-- `int(token)`
unfoldable pub number_from : ℕ → Line → ℕ
number_from n [] = n
number_from n (c ∷ cs) = number_from (n * 10 + (c - 48)) cs

abbrev starts_quoted : Line → Bool
starts_quoted [] = false
starts_quoted (c ∷ cs) = c == 34

-- `_parse_scalar`
unfoldable pub parse_scalar : Line → Attempt FormatError Scalar
unfolding parse_quoted_scalar number_from
parse_scalar token =
    if Text.list_eq token (text "null")
    then returns null
    else (if Text.list_eq token (text "true")
        then returns (flag true)
        else (if Text.list_eq token (text "false")
            then returns (flag false)
            else (if starts_quoted token
                then (do value ← parse_quoted_scalar token; returns (word value))
                else (if is_number token
                    then returns (number (number_from 0 token))
                    else raises bad_scalar))))

-- `line[len(prefix):]` if the line starts with the prefix.
abbrev pub after_prefix : Line → Line → Option Line
after_prefix [] line = some line
after_prefix (p ∷ ps) [] = none
after_prefix (p ∷ ps) (c ∷ cs) = if p == c then after_prefix ps cs else none

-- `_parse_line_scalar`; the cursor is the rest of the lines.
unfoldable pub parse_line_scalar :
    List Line → Line → String → Attempt FormatError (Scalar × List Line)
unfolding parse_scalar
parse_line_scalar [] indent key = raises missing_field
parse_line_scalar (line ∷ rest) indent key = do
  token ← or_raise (after_prefix (indent ++ (text key ++ (58 ∷ 32 ∷ []))) line) field_order
  require (any (λ c. true) token) missing_value
  value ← parse_scalar token
  returns (value, rest)
