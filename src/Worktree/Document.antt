-- ===== src/Worktree/Document.antt =====
-- The reader of a document in skills/agentdesk/scripts/worktree_lifecycle_store.py: the scalars and
-- the lines. A document is the list of the code points of its text.
pub mod Scalars
pub mod Lines
use dockyard.Base.LineBreaks.{lines}
use dockyard.Base.Documents.{before_newline, ends_with_newline, is_empty}
use dockyard.Base.Text.{list_eq, ◌<>◌}
use dockyard.Base.{
  ℕ, ltb, ◌==◌, comparable_number, String, Bool, true, false, not, ◌&&◌, ◌||◌, List, [], ◌∷◌, ◌++◌,
  any, length, Option, none, some, if◌then◌else◌, Attempt, raises, returns, require, or_raise,
  ◌>>=◌, ◌>>◌,
}
use dockyard.Portfolio.Codec.{Line, text, quote, Scalar, null, flag, number, word}
use dockyard.Portfolio.Codec.Reader.{before_quote, is_number, number_from, after_prefix}
use dockyard.Worktree.{WorktreeError, schema_error}

-- `token[1:-1]`, if the token starts with a quotation mark and ends with one; it may be the same.
abbrev pub inside_quotes : Line → Option Line
inside_quotes [] = none
inside_quotes (c ∷ []) = if c == 34 then some [] else none
inside_quotes (c ∷ d ∷ ds) = if c == 34 then before_quote (d ∷ ds) else none

-- The loop of `_parse_scalar`; `escaped` holds after a backslash.
unfoldable pub unescape : String → Bool → Line → Attempt WorktreeError Line
unescape key true [] = raises (schema_error (key <> "_escape"))
unescape key false [] = returns []
unescape key true (c ∷ cs) = do
  require (c == 34 || c == 92) (schema_error (key <> "_escape"))
  rest ← unescape key false cs
  returns (c ∷ rest)
unescape key false (c ∷ cs) =
    let rest = unescape key (c == 92) cs in
    if c == 92 then rest else (do
      require (not (c == 34 || ltb c 32)) (schema_error (key <> "_quoted"))
      value ← rest
      returns (c ∷ value))

unfoldable pub parse_quoted : String → Line → Attempt WorktreeError Scalar
unfolding unescape quote
parse_quoted key token = do
  body ← or_raise (inside_quotes token) (schema_error (key <> "_scalar"))
  value ← unescape key false body
  require (list_eq (quote value) token) (schema_error (key <> "_noncanonical"))
  returns (word value)

-- `_parse_scalar`
unfoldable pub parse_scalar : String → Line → Attempt WorktreeError Scalar
unfolding parse_quoted number_from
parse_scalar key token =
    if list_eq token (text "null")
    then returns null
    else (if list_eq token (text "true")
        then returns (flag true)
        else (if list_eq token (text "false")
            then returns (flag false)
            else (if is_number token
                then returns (number (number_from 0 token))
                else parse_quoted key token)))

-- Not empty and no byte order mark.
abbrev pub has_start : Line → Bool
has_start [] = false
has_start (c ∷ cs) = not (c == 65279)

abbrev pub is_return_or_tab : ℕ → Bool
is_return_or_tab c = c == 13 || c == 9

-- The loop of `_document` over the lines and the names.
unfoldable pub read_fields : String → List String → List Line → Attempt WorktreeError (List Scalar)
unfolding parse_scalar
read_fields name [] ls = returns []
read_fields name (key ∷ keys) [] = returns []
read_fields name (key ∷ keys) (line ∷ ls) = do
  token ←
      or_raise (after_prefix (text key ++ (58 ∷ 32 ∷ [])) line)
        (schema_error (name <> "_field_order"))
  value ← parse_scalar key token
  values ← read_fields name keys ls
  returns (value ∷ values)

-- `_document`, behind the decoding of the bytes
unfoldable pub document : List String → String → Line → Attempt WorktreeError (List Scalar)
unfolding lines read_fields
document keys name content = do
  require (has_start content) (schema_error (name <> "_bytes"))
  body ← or_raise (before_newline content) (schema_error (name <> "_newline"))
  require (not (ends_with_newline body) && not (any is_return_or_tab content))
      (schema_error (name <> "_newline"))
  require (length (lines body) == length keys && not (any is_empty (lines body)))
      (schema_error (name <> "_field_count"))
  read_fields name keys (lines body)
