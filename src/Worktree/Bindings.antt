-- ===== src/Worktree/Bindings.antt =====
-- The text under the ids of skills/agentdesk/scripts/worktree_lifecycle_store.py.
use dockyard.Base.Text.{codes, Printable, decimal-Printable}
use dockyard.Base.Sort.{codes_injective}
use dockyard.Base.{
  ℕ, ◌≡◌, refl, comparable_number, comparable_string, String, List, [], ◌∷◌, ◌++◌, All, none, some,
  returns, arith, past, first_returns, ◌&◌,
}
use dockyard.Worktree.Printing.{
  check_branch-Printable, check_path-Printable, check_safe_id-Printable, check_sha40-Printable,
  check_trimmed-Printable,
}
use dockyard.Worktree.{
  Platform, check_branch, check_path, check_positive, check_sha40, check_trimmed,
}
use dockyard.Worktree.Identity.{Binding, binding_text, check_binding, parts_of}

-- A text without control characters ends at the first zero.
same_front :
    (as' bs xs ys : List ℕ)
    → Printable as'
    → Printable bs
    → as' ++ (0 ∷ xs) ≡ bs ++ (0 ∷ ys)
    → (as' ≡ bs) × (xs ≡ ys)
same_front [] [] xs ys h k e = (refl, cc)
same_front [] (b ∷ bs) xs ys h k e = let p = k.0 in let z : 0 ≡ b = cc in absurd (ground (arith))
same_front (a ∷ as') [] xs ys h k e = let p = h.0 in let z : a ≡ 0 = cc in absurd (ground (arith))
same_front (a ∷ as') (b ∷ bs) xs ys h k e =
    let head : a ≡ b = cc in
    let tail : as' ++ (0 ∷ xs) ≡ bs ++ (0 ∷ ys) = cc in
    let (front, rest) = same_front as' bs xs ys h.1 k.1 tail in (rw (head, front) refl, rest)

binding_text-injective :
    (xs ys : List String)
    → All (λ s. Printable (codes s)) xs
    → All (λ s. Printable (codes s)) ys
    → binding_text xs ≡ binding_text ys
    → xs ≡ ys
unfolding binding_text
binding_text-injective [] [] h k e = refl
binding_text-injective [] (y ∷ ys) h k e = absurd (nil_apart (codes y) (binding_text ys) e)
  where
    nil_apart : (as' bs : List ℕ) → [] ≡ as' ++ (0 ∷ bs) → ⊥
    nil_apart [] bs e = cc
    nil_apart (a ∷ as') bs e = cc
binding_text-injective (x ∷ xs) [] h k e = absurd (nil_apart (codes x) (binding_text xs) e)
  where
    nil_apart : (as' bs : List ℕ) → as' ++ (0 ∷ bs) ≡ [] → ⊥
    nil_apart [] bs e = cc
    nil_apart (a ∷ as') bs e = cc
binding_text-injective (x ∷ xs) (y ∷ ys) h k e =
    let (front, rest) = same_front (codes x) (codes y) _ _ h.0 k.0 e in
    rw (codes_injective x y front, binding_text-injective xs ys h.1 k.1 rest) refl

module _ (os : Platform) where
  parts_of-Printable :
      (b : Binding) → check_binding os b ≡ returns tt → All (λ s. Printable (codes s)) (parts_of b)
  unfolding check_binding parts_of
  parts_of-Printable b h =
      let dir = check_path os b.common_dir "binding_common_dir" in
      let root = check_path os b.root "binding_root" in
      let sha = check_sha40 b.base "binding_base" in
      let task = check_trimmed b.task "binding_task" in
      let h1 = past dir _ tt h in
      let h2 = past root _ tt h1 in
      let h3 = past (check_branch b.bound_branch) _ tt h2 in
      let h4 = past sha _ tt h3 in
      let h5 = past task _ tt h4 in
      let h6 = past (check_positive b.bound_revision "binding_revision" none) _ tt h5 in
      let h7 = past (check_positive b.bound_attempt "binding_attempt" (some 3)) _ tt h6 in
      check_path-Printable os b.common_dir "binding_common_dir" (first_returns dir _ tt h)
      & check_path-Printable os b.root "binding_root" (first_returns root _ tt h1)
      & check_branch-Printable os b.bound_branch
          (first_returns (check_branch b.bound_branch) _ tt h2)
      & check_sha40-Printable b.base "binding_base" (first_returns sha _ tt h3)
      & check_trimmed-Printable b.task "binding_task" (first_returns task _ tt h4)
      & decimal-Printable b.bound_revision
      & decimal-Printable b.bound_attempt
      & check_safe_id-Printable os b.dispatch "binding_dispatch" "DSP-" h7
      & tt

  -- The text that is hashed for an id determines what the id is for: two bindings that pass the
  -- checks of _binding_parts and have the same text have the same parts, that is, the same
  -- directories, branch, commit, task, revision and attempt as written, and dispatch.
  pub parts_of-binding_text :
      (b c : Binding)
      → check_binding os b ≡ returns tt
      → check_binding os c ≡ returns tt
      → binding_text (parts_of b) ≡ binding_text (parts_of c)
      → parts_of b ≡ parts_of c
  parts_of-binding_text b c h k e =
      binding_text-injective (parts_of b) (parts_of c) (parts_of-Printable b h)
        (parts_of-Printable c k) e
