-- ===== src/Sse/Log.antt =====
-- What the hub of skills/agentdesk/scripts/dockyard_sse.py promises: for each project the log of
-- all its events, which are numbered from 1, and a reader that may start at most `b` events back.
use dockyard.Base.{
  ℕ, zero, suc, ◌≡◌, refl, sym, ap, ◌∙◌, ◌+◌, ◌-◌, ◌≤◌, true, false, not, List, [], ◌∷◌, ◌++◌,
  length, ltb, leb, comparable_number, keep, drop, last, Attempt, returns, require, ◌>>◌, arith,
  length-drop, drop_all, drop-drop, subst, ◌⊎◌, inl, inr, Bool-cases,
}
use dockyard.Sse.{Event, SseError, cursor_error}
use dockyard.Sse.Hub.{newest, next_cursor, replay_kept}

-- The events after `after`.
unfoldable pub read_log : ℕ → List Event → ℕ → Attempt SseError (List Event)
read_log b log after = do
  require (leb after (length log)) (cursor_error "cursor is ahead of the stream")
  require (leb (length log) (after + b)) (cursor_error "cursor fell behind the bounded backlog")
  returns (drop after log)

-- The events are numbered one by one after `n`.
unfoldable pub Numbered : ℕ → List Event → Type 0
Numbered n [] = Unit
Numbered n (e ∷ es) = (e.event_cursor ≡ suc n) × Numbered (suc n) es

pub newest-cursor :
    (n : ℕ) (e : Event) (es : List Event)
    → Numbered n (e ∷ es)
    → (newest e es).event_cursor ≡ n + length (e ∷ es)
unfolding newest Numbered
newest-cursor n e [] h = omega arith
newest-cursor n e (f ∷ fs) h = omega (arith, newest-cursor (suc n) f fs h.1)

pub next_cursor-Numbered :
    (n : ℕ) (es : List Event)
    → Numbered n es
    → (n ≡ 0) ⊎ (1 ≤ length es)
    → next_cursor es ≡ suc (n + length es)
unfolding next_cursor
next_cursor-Numbered n [] h some_kept = omega arith
next_cursor-Numbered n (e ∷ es) h some_kept = omega (arith, newest-cursor n e es h)

pub Numbered-drop :
    (k n : ℕ) (es : List Event) → Numbered n es → k ≤ length es → Numbered (n + k) (drop k es)
unfolding Numbered
Numbered-drop zero n es h le = subst (λ m. Numbered m es) (let e : n ≡ n + 0 = omega arith in e) h
Numbered-drop (suc k) n [] h le = tt
Numbered-drop (suc k) n (e ∷ es) h le =
    subst (λ m. Numbered m (drop k es)) (let e : suc n + k ≡ n + suc k = omega arith in e)
      (Numbered-drop k (suc n) es h.1 (omega arith))

pub Numbered-append :
    (n : ℕ) (es : List Event) (e : Event)
    → Numbered n es
    → e.event_cursor ≡ suc (n + length es)
    → Numbered n (es ++ (e ∷ []))
unfolding Numbered
Numbered-append n [] e h new = (omega arith, tt)
Numbered-append n (f ∷ fs) e h new = (h.0, Numbered-append (suc n) fs e h.1 (omega arith))

-- The filter by cursor cuts the list.
pub keep-drop :
    (n after : ℕ) (es : List Event)
    → Numbered n es
    → keep (λ x. ltb after x.event_cursor) es ≡ drop (after - n) es
unfolding Numbered
keep-drop n after [] h = sym (drop_all (after - n) [] (omega arith))
keep-drop n after (e ∷ es) h = elim (Bool-cases (ltb n after)) [
  | inl t ↦
      let old : ltb after e.event_cursor ≡ false = ground (arith) in
      let gap : after - n ≡ suc (after - suc n) = ground (arith) in
      rw (old, gap) (keep-drop (suc n) after es h.1)
  | inr f ↦
      let new : ltb after e.event_cursor ≡ true = ground (arith) in
      let none_cut : after - n ≡ 0 = ground (arith) in
      let rest_kept : after - suc n ≡ 0 = ground (arith) in
      rw (new, none_cut)
        (ap (λ xs. e ∷ xs) (keep-drop (suc n) after es h.1 ∙ ap (λ k. drop k es) rest_kept))
]

kept-read_log :
    (b k : ℕ) (log es : List Event) (after : ℕ)
    → 1 ≤ b
    → k ≡ length log - b
    → drop k log ≡ es
    → Numbered k es
    → replay_kept es after ≡ read_log b log after
unfolding replay_kept read_log Numbered
kept-read_log b k [] [] zero pos at cut numbered = ground (arith)
kept-read_log b k [] [] (suc after) pos at cut numbered = ground (arith)
kept-read_log b k (f ∷ fs) [] after pos at cut numbered =
    let kept : length (drop k (f ∷ fs)) ≡ 0 = ap length cut in
    absurd (omega (arith, length-drop k (f ∷ fs)))
kept-read_log b k log (e ∷ es) after pos at cut numbered =
    let kept : length (drop k log) ≡ suc (length es) = ap length cut in
    let size : length log ≡ k + suc (length es) = omega (arith, length-drop k log) in
    let top : (newest e es).event_cursor ≡ length log =
      omega (arith, newest-cursor k e es numbered) in
    let ahead : not (ltb (newest e es).event_cursor after) ≡ leb after (length log) =
      ground (arith) in
    let behind : not (ltb after (e.event_cursor - 1)) ≡ leb (length log) (after + b) =
      ground (arith) in
    rw (ahead, behind)
      (elim (Bool-cases (leb (length log) (after + b))) [
        | inl t ↦
            let path : keep (λ x. ltb after x.event_cursor) (e ∷ es) ≡ drop after log =
              keep-drop k after (e ∷ es) numbered
              ∙ ap (drop (after - k)) (sym cut)
              ∙ drop-drop (after - k) k log
              ∙ ap (λ m. drop m log) (let g : k + (after - k) ≡ after = ground (arith) in g) in
            rw path refl
        | inr f ↦ rw f refl
      ])

-- The newest `b` events of a log answer as the log does.
pub replay_kept-read_log :
    (b : ℕ) (log : List Event) (after : ℕ)
    → 1 ≤ b
    → Numbered 0 log
    → replay_kept (last b log) after ≡ read_log b log after
replay_kept-read_log b log after pos numbered =
    let k = length log - b in
    let cut : Numbered k (drop k log) =
      subst (λ m. Numbered m (drop k log)) (let e : 0 + k ≡ k = omega arith in e)
        (Numbered-drop k 0 log numbered (omega arith)) in
    kept-read_log b k log (drop k log) after pos refl refl cut
