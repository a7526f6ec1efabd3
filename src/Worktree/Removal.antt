-- ===== src/Worktree/Removal.antt =====
-- When `reconcile_worktree` of skills/agentdesk/scripts/worktree_lifecycle_store.py decides
-- RESUME_RELEASE. The decision is a record that is returned; nothing acts on it here.
use dockyard.Base.{
  ◌≡◌, comparable_string, String, Bool, true, false, List, [], ◌∷◌, keep, Option, some,
}
use dockyard.Worktree.{Platform, ReconciliationAction, releasing, resume_release}
use dockyard.Worktree.Records.{WorktreeRecord, WorktreeReservation}
use dockyard.Worktree.Inventory.{InventoryEntry}
use dockyard.Worktree.Reconcile.{is_exact, is_own, same_place}

abbrev removes : ReconciliationAction → Bool
removes resume_release = true
removes _ = false

-- What holds where a release may be resumed: the record is being released and belongs to the reservation, and the
-- one entry at its place is on its branch and commit, clean and not locked.
pub record Removable (os : Platform) (id : String) (v : WorktreeReservation) (r : WorktreeRecord)
    (inventory : List InventoryEntry) (clean : Option Bool) : Type 0 where
  pub own_reservation : v.worktree_id ≡ id
  pub own_record : is_own v r ≡ true
  pub asked : r.phase ≡ releasing
  pub only : InventoryEntry
  pub at_place : keep (same_place os v) inventory ≡ only ∷ []
  pub as_recorded : is_exact v (some r) only ≡ true
  pub is_clean : clean ≡ some true
  pub unlocked : only.is_locked ≡ false
