-- ===== src/Sse/Resume.antt =====
-- A client of skills/agentdesk/scripts/dockyard_sse.py that reads again from its last cursor.

use dockyard.Base.{
  ℕ, suc, ◌≡◌, refl, sym, ap, subst, ◌∙◌, ◌+◌, ◌≤◌, String, List, [], ◌∷◌, ◌++◌, length, leb,
  comparable_string, drop, drop_all, drop-append, returns, arith, length-append, length-drop, past,
  guarded, returned_same,
}
use dockyard.Sse.{Event, Primitives, check_text}
use dockyard.Sse.Hub.{Hub, newest, replay}
use dockyard.Sse.Log.{Numbered, Numbered-drop, newest-cursor, read_log}
use dockyard.Sse.Published.{Logs, Represents, Represents-replay}
use dockyard.Sse.History.{Run, Run-Represents, Run-extends}

-- The cursor that a client has after it read `xs`.
abbrev pub cursor_after : ℕ → List Event → ℕ
cursor_after after [] = after
cursor_after after (e ∷ es) = (newest e es).event_cursor

read_log-drop :
    (b : ℕ) (log : List Event) (after : ℕ) (xs : List Event)
    → read_log b log after ≡ returns xs
    → (after ≤ length log) × (xs ≡ drop after log)
unfolding read_log
read_log-drop b log after xs h =
    let (le, rest) = guarded (leb after (length log)) _ _ h in
    let out = (guarded (leb (length log) (after + b)) _ _ rest).1 in
    (ground (arith), sym (returned_same (returns _) refl out))

cursor_after-length :
    (after : ℕ) (log xs : List Event)
    → Numbered 0 log
    → after ≤ length log
    → xs ≡ drop after log
    → cursor_after after xs ≡ length log
cursor_after-length after log [] numbered le cut =
    let size : 0 ≡ length (drop after log) = ap length cut in omega (arith, length-drop after log)
cursor_after-length after log (e ∷ es) numbered le cut =
    let size : suc (length es) ≡ length (drop after log) = ap length cut in
    let tail =
      subst (λ m. Numbered (0 + after) m) (sym cut) (Numbered-drop after 0 log numbered le) in
    omega (arith, length-drop after log, newest-cursor (0 + after) e es tail)

module _ (env : Primitives) where
  -- A client misses nothing and reads nothing twice: if replay after a cursor returns xs, and
  -- after any further operations replay after the cursor of the last event of xs returns ys, then
  -- xs followed by ys is everything logged after the first cursor, numbered one by one.
  pub replay-gapless :
      {s : Hub} {before : Logs} {t : Hub} {logs : Logs} (id : String) (after : ℕ)
      (xs ys : List Event)
      → Represents s before
      → replay s id after ≡ returns xs
      → Run env s before t logs
      → replay t id (cursor_after after xs) ≡ returns ys
      → (drop after (logs id) ≡ xs ++ ys) × Numbered after (xs ++ ys)
  replay-gapless {s = s} {before = before} {t = t} {logs = logs} id after xs ys r first run second =
      let (rt, same) = Run-Represents env r run in
      let log = before id in
      let read_first =
        past (check_text id "project_id") _ xs
          (sym (Represents-replay s before r id after) ∙ first) in
      let (le, cut) = read_log-drop s.max_backlog log after xs read_first in
      let at_end : cursor_after after xs ≡ length log =
        cursor_after-length after log xs (r.numbered id) le cut in
      let read_second =
        past (check_text id "project_id") _ ys
          (sym (Represents-replay t logs rt id (cursor_after after xs)) ∙ second) in
      let (_, cut_later) =
        read_log-drop t.max_backlog (logs id) (cursor_after after xs) ys read_second in
      let (new, grown) = Run-extends env run id in
      let tail : ys ≡ new =
        cut_later
        ∙ ap (λ n. drop n (logs id)) at_end
        ∙ ap (drop (length log)) grown
        ∙ drop-append (length log) log new (omega arith)
        ∙ ap (λ l. l ++ new) (drop_all (length log) log (omega arith)) in
      let whole : drop after (logs id) ≡ xs ++ ys =
        ap (drop after) grown
        ∙ drop-append after log new le
        ∙ ap (λ l. l ++ new) (sym cut)
        ∙ ap (λ l. xs ++ l) (sym tail) in
      let longer : after ≤ length (logs id) =
        let size : length (logs id) ≡ length (log ++ new) = ap length grown in
        omega (arith, length-append log new) in
      let counted = Numbered-drop after 0 (logs id) (rt.numbered id) longer in
      (
        whole,
        subst (λ m. Numbered m (xs ++ ys)) (let e : 0 + after ≡ after = omega arith in e)
            (subst (λ l. Numbered (0 + after) l) whole counted),
      )
