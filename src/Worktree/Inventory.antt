-- ===== src/Worktree/Inventory.antt =====
-- The reading of `git worktree list --porcelain -z` in
-- skills/agentdesk/scripts/worktree_lifecycle_store.py.
use Prim.Native.Char.{code}
use dockyard.Base.Sort
use dockyard.Base.Text.{codes, ◌<>◌}
use dockyard.Base.{
  ℕ, ◌==◌, comparable_number, comparable_string, String, Bool, true, false, not, ◌&&◌, ◌||◌, List,
  [], ◌∷◌, ◌++◌, any, Option, none, some, if◌then◌else◌, Attempt, returns, raises, require,
  or_raise, ◌>>=◌, ◌>>◌,
}
use dockyard.Worktree.{
  Platform, WorktreeError, check_path, check_sha40, check_trimmed, conflict_error, schema_error,
  starts_with,
}
use dockyard.Worktree.Identity.{binding_text}

pub record InventoryEntry : Type 0 where
  pub common_dir : String
  pub entry_path : String
  pub entry_head : String
  pub entry_branch : Option String
  pub is_bare : Bool
  pub is_detached : Bool
  pub is_locked : Bool
  pub is_prunable : Bool

abbrev pub is_some : Option String → Bool
is_some none = false
is_some (some s) = true

abbrev pub or_empty : Option String → String
or_empty none = ""
or_empty (some s) = s

-- `data.split("\0")`
unfoldable pub split_nul : String → List String
split_nul String.[] = "" ∷ []
split_nul (String.◌∷◌ c s) =
    let rest = split_nul s in
    if code c == 0
    then "" ∷ rest
    else elim rest [ [] ↦ String.◌∷◌ c "" ∷ [] | t ∷ ts ↦ String.◌∷◌ c t ∷ ts ]

unfoldable pub ends_with_nul : List ℕ → Bool
ends_with_nul [] = false
ends_with_nul (c ∷ []) = c == 0
ends_with_nul (c ∷ d ∷ ds) = ends_with_nul (d ∷ ds)

-- `raw_tokens.pop()`, after the check that the last one is empty.
unfoldable pub without_last : List String → Attempt WorktreeError (List String)
without_last [] = raises (schema_error "inventory_terminator")
without_last (t ∷ []) = do require (t == "") (schema_error "inventory_terminator"); returns []
without_last (t ∷ u ∷ us) = do rest ← without_last (u ∷ us); returns (t ∷ rest)

abbrev pub is_nil : List String → Bool
is_nil [] = true
is_nil (x ∷ xs) = false

-- An empty token ends a record; `current` holds the tokens of the record so far.
unfoldable pub grouped : List String → List String → Attempt WorktreeError (List (List String))
grouped current [] = returns (if is_nil current then [] else current ∷ [])
grouped current (t ∷ ts) =
    let closed = grouped [] ts in
    let longer = grouped (current ++ (t ∷ [])) ts in
    if t == ""
    then (do
      require (not (is_nil current)) (schema_error "inventory_empty_record")
      groups ← closed
      returns (current ∷ groups))
    else longer

-- `token.partition(" ")`: the key, whether there is a space, the value.
unfoldable pub partition : String → String × Bool × String
partition String.[] = ("", false, "")
partition (String.◌∷◌ c s) =
    let rest = partition s in
    if code c == 32 then ("", true, s) else (String.◌∷◌ c rest.0, rest.1, rest.2)

-- `value[len("refs/heads/"):]`
unfoldable pub drop_codes : List ℕ → String → String
drop_codes [] s = s
drop_codes (p ∷ ps) String.[] = ""
drop_codes (p ∷ ps) (String.◌∷◌ c s) = drop_codes ps s

-- The variables of the loop over the tokens of a record.
pub record Fields : Type 0 where
  pub path : Option String
  pub head : Option String
  pub branch : Option String
  pub flags : List String
  pub seen_keys : List String

abbrev pub has : String → List String → Bool
has k ks = any (λ x. x == k) ks

-- The assignment that a token makes.
unfoldable pub set_field : Fields → String → Bool → String → Attempt WorktreeError Fields
unfolding starts_with drop_codes
set_field f key separator value =
    if key == "worktree" && separator
    then returns (record f { path = some value })
    else (if key == "HEAD" && separator
        then returns (record f { head = some value })
        else (if key == "branch" && (separator && starts_with value "refs/heads/")
            then returns (record f { branch = some (drop_codes (codes "refs/heads/") value) })
            else (if (key == "bare" || key == "detached") && not separator
                then returns (record f { flags = key ∷ f.flags })
                else (if key == "locked" || key == "prunable"
                    then returns (record f { flags = key ∷ f.flags })
                    else raises (schema_error "inventory_unknown_field")))))

unfoldable pub read_token : Fields → String × Bool × String → Attempt WorktreeError Fields
unfolding set_field
read_token f (key, separator, value) = do
  require (not (has key f.seen_keys)) (schema_error "inventory_duplicate_field")
  set_field (record f { seen_keys = key ∷ f.seen_keys }) key separator value

unfoldable pub read_tokens : Fields → List String → Attempt WorktreeError Fields
unfolding read_token partition
read_tokens f [] = returns f
read_tokens f (t ∷ ts) = do g ← read_token f (partition t); read_tokens g ts

module _ (os : Platform) where
  -- `WorktreeInventoryEntry.__post_init__`
  unfoldable pub check_entry : InventoryEntry → Attempt WorktreeError (Unit {0})
  unfolding check_path check_sha40 check_trimmed
  check_entry e = do
    check_path os e.common_dir "inventory_common_dir"
    check_path os e.entry_path "inventory_worktree_path"
    check_sha40 e.entry_head "inventory_head"
    elim e.entry_branch [ none ↦ returns tt | some b ↦ check_trimmed b "inventory_branch" ]
    require (not (e.is_bare && (is_some e.entry_branch || e.is_detached)))
        (schema_error "inventory_bare_state")
    require
        (e.is_bare
          || not (if e.is_detached then is_some e.entry_branch else not (is_some e.entry_branch)))
        (schema_error "inventory_branch_state")

  unfoldable pub read_group : String → List String → Attempt WorktreeError InventoryEntry
  unfolding read_tokens check_path
  read_group common_dir group = do
    f ←
        read_tokens (record { path = none; head = none; branch = none; flags = []; seen_keys = [] })
          group
    worktree_path ← or_raise f.path (schema_error "inventory_missing_field")
    head ← or_raise f.head (schema_error "inventory_missing_field")
    check_path os (os.normpath worktree_path) "inventory_path"
    returns (record {
      common_dir = common_dir;
      entry_path = os.normpath worktree_path;
      entry_head = head;
      entry_branch = f.branch;
      is_bare = has "bare" f.flags;
      is_detached = has "detached" f.flags;
      is_locked = has "locked" f.flags;
      is_prunable = has "prunable" f.flags;
    })

  unfoldable pub read_groups :
      String → List String → List (List String) → Attempt WorktreeError (List InventoryEntry)
  unfolding read_group check_entry
  read_groups common_dir seen_paths [] = returns []
  read_groups common_dir seen_paths (group ∷ groups) = do
    e ← read_group common_dir group
    require (not (has (os.normcase e.entry_path) seen_paths))
        (conflict_error "inventory_duplicate_path")
    check_entry e
    rest ← read_groups common_dir (os.normcase e.entry_path ∷ seen_paths) groups
    returns (e ∷ rest)

  -- The order of `(os.path.normcase(e.worktree_path), e.branch or "", e.head_commit)`.
  unfoldable pub entry_leb : InventoryEntry → InventoryEntry → Bool
  entry_leb a b =
      let pa = os.normcase a.entry_path in
      let pb = os.normcase b.entry_path in
      if pa == pb
      then (if or_empty a.entry_branch == or_empty b.entry_branch
          then Sort.text_leb a.entry_head b.entry_head
          else Sort.text_leb (or_empty a.entry_branch) (or_empty b.entry_branch))
      else Sort.text_leb pa pb

  unfoldable pub parse_worktree_inventory :
      String → String → Attempt WorktreeError (List InventoryEntry)
  unfolding check_path ends_with_nul split_nul without_last grouped read_groups entry_leb
  parse_worktree_inventory listing common_dir = do
    require (ends_with_nul (codes listing)) (schema_error "inventory_bytes")
    check_path os common_dir "inventory_common_dir"
    tokens ← without_last (split_nul listing)
    groups ← grouped [] tokens
    entries ← read_groups common_dir [] groups
    returns (Sort.sort_by entry_leb entries)

  abbrev bit : Bool → String
  bit b = if b then "1" else "0"

  unfoldable pub entry_parts : InventoryEntry → List String
  entry_parts e =
      e.common_dir
      ∷ e.entry_path
      ∷ e.entry_head
      ∷ or_empty e.entry_branch
      ∷ bit e.is_bare
      ∷ bit e.is_detached
      ∷ bit e.is_locked
      ∷ bit e.is_prunable
      ∷ []

  unfoldable pub inventory_text : List InventoryEntry → List ℕ
  unfolding binding_text entry_parts
  inventory_text [] = []
  inventory_text (e ∷ es) = binding_text (entry_parts e) ++ inventory_text es

  unfoldable pub inventory_digest_of : List InventoryEntry → String
  unfolding inventory_text entry_leb
  inventory_digest_of entries =
      "sha256:" <> os.sha256 (inventory_text (Sort.sort_by entry_leb entries))
