-- ===== src/Worktree/Paths.antt =====
-- The paths of an inventory that skills/agentdesk/scripts/worktree_lifecycle_store.py has read.
use dockyard.Base.Text.{codes}
use dockyard.Base.Sort.{insert_by, sort_by}
use dockyard.Base.{
  ◌≡◌, refl, sym, ap, subst, ◌∙◌, ◌==◌, comparable_string, String, Bool, false, not, List, [], ◌∷◌,
  All, All-map, keep, Option, none, some, returns, arith, inl, inr, Bool-cases, peel, past, guarded,
  returned_same, eq_of_==,
}
use dockyard.Worktree.{Platform, check_path}
use dockyard.Worktree.Records.{WorktreeReservation}
use dockyard.Worktree.Inventory.{
  InventoryEntry, check_entry, ends_with_nul, entry_leb, grouped, has, parse_worktree_inventory,
  read_group, read_groups, split_nul, without_last,
}
use dockyard.Worktree.Reconcile.{only_entry, same_place}

module _ (os : Platform) where
  abbrev place : InventoryEntry → String
  place e = os.normcase e.entry_path

  abbrev Elsewhere : InventoryEntry → List InventoryEntry → Type 0
  Elsewhere e = All (λ f. (place e == place f) ≡ false)

  -- No two entries have one path.
  abbrev Apart : List InventoryEntry → Type 0
  Apart [] = Unit
  Apart (e ∷ es) = Elsewhere e es × Apart es

  read_groups-Apart :
      (common_dir : String) (seen : List String) (groups : List (List String))
      (es : List InventoryEntry)
      → read_groups os common_dir seen groups ≡ returns es
      → All (λ e. has (place e) seen ≡ false) es × Apart es
  unfolding read_groups
  read_groups-Apart common_dir seen [] es h = rw (← returned_same (returns []) refl h) (tt, tt)
  read_groups-Apart common_dir seen (group ∷ groups) es h =
      let (e, read, rest) = peel (read_group os common_dir group) _ es h in
      let (new, more) = guarded (not (has (place e) seen)) _ _ rest in
      let (fs, others, out) =
        peel (read_groups os common_dir (place e ∷ seen) groups) _ es
          (past (check_entry os e) _ es more) in
      let (unseen, apart) = read_groups-Apart common_dir (place e ∷ seen) groups fs others in
      let own : has (place e) seen ≡ false = ground (arith) in
      let far : Elsewhere e fs = All-map _ _ (λ f k. ground (arith)) fs unseen in
      let old : All (λ f. has (place f) seen ≡ false) fs =
        All-map _ _ (λ f k. ground (arith)) fs unseen in
      rw (← returned_same (returns (e ∷ fs)) refl out) ((own, old), (far, apart))

  turned : (a b : String) → (a == b) ≡ false → (b == a) ≡ false
  turned a b h = ground (arith)

  Elsewhere-insert_by :
      (le : InventoryEntry → InventoryEntry → Bool) (e x : InventoryEntry)
      (ys : List InventoryEntry)
      → (place e == place x) ≡ false
      → Elsewhere e ys
      → Elsewhere e (insert_by le x ys)
  unfolding insert_by
  Elsewhere-insert_by le e x [] h k = (h, tt)
  Elsewhere-insert_by le e x (y ∷ ys) h k = elim (Bool-cases (le x y)) [
    | inl t ↦ rw t (h, k)
    | inr f ↦ rw f (k.0, Elsewhere-insert_by le e x ys h k.1)
  ]

  Apart-insert_by :
      (le : InventoryEntry → InventoryEntry → Bool) (x : InventoryEntry) (ys : List InventoryEntry)
      → Elsewhere x ys
      → Apart ys
      → Apart (insert_by le x ys)
  unfolding insert_by
  Apart-insert_by le x [] h k = (tt, tt)
  Apart-insert_by le x (y ∷ ys) h k = elim (Bool-cases (le x y)) [
    | inl t ↦ rw t (h, k)
    | inr f ↦ rw f (
      Elsewhere-insert_by le y x ys (turned (place x) (place y) h.0) k.0,
      Apart-insert_by le x ys h.1 k.1,
    )
  ]

  Elsewhere-sort_by :
      (le : InventoryEntry → InventoryEntry → Bool) (e : InventoryEntry) (xs : List InventoryEntry)
      → Elsewhere e xs
      → Elsewhere e (sort_by le xs)
  unfolding sort_by
  Elsewhere-sort_by le e [] h = tt
  Elsewhere-sort_by le e (x ∷ xs) h =
      Elsewhere-insert_by le e x (sort_by le xs) h.0 (Elsewhere-sort_by le e xs h.1)

  Apart-sort_by :
      (le : InventoryEntry → InventoryEntry → Bool) (xs : List InventoryEntry)
      → Apart xs
      → Apart (sort_by le xs)
  unfolding sort_by
  Apart-sort_by le [] h = tt
  Apart-sort_by le (x ∷ xs) h =
      Apart-insert_by le x (sort_by le xs) (Elsewhere-sort_by le x xs h.0) (Apart-sort_by le xs h.1)

  keep-none :
      (p : InventoryEntry → Bool) (xs : List InventoryEntry)
      → All (λ x. p x ≡ false) xs
      → keep p xs ≡ []
  keep-none p [] h = refl
  keep-none p (x ∷ xs) h = let out = h.0 in rw out (keep-none p xs h.1)

  only_entry-Apart :
      (v : WorktreeReservation) (es : List InventoryEntry)
      → Apart es
      → (o : Option InventoryEntry) × (only_entry os (keep (same_place os v) es) ≡ returns o)
  unfolding only_entry same_place
  only_entry-Apart v [] h = (none, refl)
  only_entry-Apart v (e ∷ es) h = elim (Bool-cases (place e == os.normcase v.worktree_path)) [
    | inl t ↦
        let at_e = eq_of_== (place e) _ t in
        let gone = keep-none (same_place os v) es (
          All-map _ _
            (λ f k.
              turned (os.normcase v.worktree_path) (place f)
                (ap (λ p. p == place f) (sym at_e) ∙ k))
            es h.0) in
        (some e, rw (t, gone) refl)
    | inr f ↦ let (o, k) = only_entry-Apart v es h.1 in (o, rw f k)
  ]

  -- In an inventory that parse_worktree_inventory returns, whatever the bytes, no two entries are
  -- at the path of a reservation: the search of reconcile_worktree for the one entry there never
  -- fails.
  pub parse_worktree_inventory-only_entry :
      (listing common_dir : String) (es : List InventoryEntry)
      → parse_worktree_inventory os listing common_dir ≡ returns es
      → (v : WorktreeReservation)
      → (o : Option InventoryEntry) × (only_entry os (keep (same_place os v) es) ≡ returns o)
  unfolding parse_worktree_inventory
  parse_worktree_inventory-only_entry listing common_dir es h v =
      let (ended, rest) = guarded (ends_with_nul (codes listing)) _ _ h in
      let (tokens, cut, more) =
        peel (without_last (split_nul listing)) _ es
          (past (check_path os common_dir "inventory_common_dir") _ es rest) in
      let (groups, made, last) = peel (grouped [] tokens) _ es more in
      let (fs, read, out) = peel (read_groups os common_dir [] groups) _ es last in
      let sorted = returned_same (returns (sort_by (entry_leb os) fs)) refl out in
      let apart =
        Apart-sort_by (entry_leb os) fs (read_groups-Apart common_dir [] groups fs read).1 in
      only_entry-Apart v es (subst (λ xs. Apart xs) sorted apart)
