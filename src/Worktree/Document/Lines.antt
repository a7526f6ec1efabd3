-- ===== src/Worktree/Document/Lines.antt =====
-- The writer and the reader of a document in
-- skills/agentdesk/scripts/worktree_lifecycle_store.py, one after the other.
use mathlib.Core.List.{map, append_assoc}
use dockyard.Base.Documents.{
  before_newline, is_empty, ends_with_newline, joined, lines-joined, before_newline-append,
  before_newline-joined, any-append, append-nonempty,
}
use dockyard.Base.Text.{Printable, ◌<>◌}
use dockyard.Base.{
  ◌≡◌, refl, sym, ap, ◌∙◌, ◌==◌, ==-refl, comparable_number, String, true, false, List, [], ◌∷◌,
  ◌++◌, All, any, length, some, returns, arith, and_next, bind_next, suc, or_raise, require,
  ℕ_discrete,
}
use dockyard.Portfolio.Codec.{Line, text, scalar, field, Scalar}
use dockyard.Portfolio.Codec.RoundTrip.{after_prefix-append}
use dockyard.Worktree.{schema_error}
use dockyard.Worktree.Records.{document_text}
use dockyard.Worktree.Document.{is_return_or_tab, has_start, read_fields, document}
use dockyard.Portfolio.Codec.Printed.{IsPlain, field-Printable}
use dockyard.Worktree.Document.Scalars.{parse_scalar-scalar}

-- Names and values that a document can hold.
abbrev pub IsPlainField : String × Scalar → Type 0
IsPlainField (key, v) = Printable (text key) × IsPlain v

abbrev line_of : String × Scalar → Line
line_of (key, v) = field [] key v

abbrev pub name_of : String × Scalar → String
name_of (key, v) = key

abbrev pub value_of : String × Scalar → Scalar
value_of (key, v) = v

document_text-joined :
    (f : String × Scalar) (fs : List (String × Scalar))
    → document_text (f ∷ fs) ≡ joined (line_of f) (map line_of fs) ++ (10 ∷ [])
unfolding document_text joined
document_text-joined f [] = refl
document_text-joined f (g ∷ gs) =
    ap (λ d. line_of f ++ (10 ∷ d)) (document_text-joined g gs)
    ∙ sym (append_assoc (line_of f) (10 ∷ joined (line_of g) (map line_of gs)) (10 ∷ []))

field-no_tab : (cs : Line) → Printable cs → any is_return_or_tab cs ≡ false
field-no_tab [] h = refl
field-no_tab (c ∷ cs) h = let p = h.0 in ground (arith, field-no_tab cs h.1)

document_text-no_tab :
    (fields : List (String × Scalar))
    → All IsPlainField fields
    → any is_return_or_tab (document_text fields) ≡ false
unfolding document_text ℕ_discrete
document_text-no_tab [] h = refl
document_text-no_tab (f ∷ fs) h =
    any-append is_return_or_tab (line_of f) (10 ∷ document_text fs)
      (field-no_tab (line_of f) (field-Printable f.0 f.1 h.0.0 h.0.1)) (document_text-no_tab fs h.1)

lines_of-Printable :
    (fields : List (String × Scalar)) → All IsPlainField fields → All Printable (map line_of fields)
lines_of-Printable [] h = tt
lines_of-Printable (f ∷ fs) h = (field-Printable f.0 f.1 h.0.0 h.0.1, lines_of-Printable fs h.1)

lines_of-nonempty : (fields : List (String × Scalar)) → any is_empty (map line_of fields) ≡ false
unfolding field
lines_of-nonempty [] = refl
lines_of-nonempty (f ∷ fs) =
    rw (append-nonempty (text f.0) 58 (32 ∷ scalar f.1)) (lines_of-nonempty fs)

field_split :
    (key : String) (v : Scalar) → field [] key v ≡ (text key ++ (58 ∷ 32 ∷ [])) ++ scalar v
unfolding field
field_split key v = sym (append_assoc (text key) (58 ∷ 32 ∷ []) (scalar v))

read_fields-line_of :
    (name : String) (fields : List (String × Scalar))
    → All IsPlainField fields
    → read_fields name (map name_of fields) (map line_of fields) ≡ returns (map value_of fields)
unfolding read_fields
read_fields-line_of name [] h = refl
read_fields-line_of name (f ∷ fs) h =
    rw
      (
        field_split f.0 f.1,
        after_prefix-append (text f.0 ++ (58 ∷ 32 ∷ [])) (scalar f.1),
        parse_scalar-scalar f.0 f.1 h.0.1,
        read_fields-line_of name fs h.1,
      )
      refl

length-map : {A B : Type 0} (f : A → B) (xs : List A) → length (map f xs) ≡ length xs
length-map f [] = refl
length-map f (x ∷ xs) = ap suc (length-map f xs)

no_start : has_start (document_text []) ≡ true → ⊥
unfolding document_text
no_start h = cc

-- The reader takes a document that was written apart again: the values of names and values without
-- control characters, whatever their kinds.
pub document-document_text :
    (name : String) (fields : List (String × Scalar))
    → All IsPlainField fields
    → has_start (document_text fields) ≡ true
    → document (map name_of fields) name (document_text fields) ≡ returns (map value_of fields)
unfolding document
document-document_text name [] h k = absurd (no_start k)
document-document_text name (f ∷ fs) h k =
    let l = line_of f in
    let ls = map line_of fs in
    let printable = lines_of-Printable (f ∷ fs) h in
    let whole = lines-joined l ls printable.0 printable.1 in
    let split : before_newline (document_text (f ∷ fs)) ≡ some (joined l ls) =
      ap before_newline (document_text-joined f fs) ∙ before_newline-append (joined l ls) in
    let last : ends_with_newline (joined l ls) ≡ false =
      rw (before_newline-joined l ls printable (lines_of-nonempty (f ∷ fs))) refl in
    let count : (length (l ∷ ls) == length (map name_of (f ∷ fs))) ≡ true =
      rw (length-map line_of fs, length-map name_of fs) (==-refl (length (f ∷ fs))) in
    let started : require (has_start (document_text (f ∷ fs))) (schema_error (name <> "_bytes"))
        ≡ returns tt =
      rw k refl in
    let found : or_raise (before_newline (document_text (f ∷ fs)))
          (schema_error (name <> "_newline"))
        ≡ returns (joined l ls) =
      rw split refl in
    and_next started (
      bind_next _ found (
        rw (last, document_text-no_tab (f ∷ fs) h, whole, count, lines_of-nonempty (f ∷ fs))
          (read_fields-line_of name (f ∷ fs) h)))
