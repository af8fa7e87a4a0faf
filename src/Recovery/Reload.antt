-- ===== src/Recovery/Reload.antt =====
-- The reload of a page that still shows the wrapper of a handled session, live-browser.js:
-- `scheduleHandledRuntimeWrapperReload` with its timer, and the stamps in `sessionStorage` that
-- outlive the reload.
pub mod Budget
pub mod Counts
pub mod Watch
use nafir.Base.{
  ℕ, zero, suc, ◌+◌, ◌==◌, Bool, true, false, not, ◌&&◌, ◌||◌, Option, none, some, List, [], ◌∷◌,
  ◌++◌, filter, if◌then◌else◌, leb, Text, codes, is_empty, text_eq, starts_with, contains,
}

-- How `sessionStorage` answers: `getItem` throws, `setItem` throws, or none of them does.
pub data Access : Type 0 where
  denied read_only writable : Access

-- The stamps, which are the attempts at a reload for each session, and the item under the key
-- without a session, empty if there is none; in the page, `handledRuntimeWrapperReloadSessions`
-- and the sessions that a timer of 3 s is set for.
pub record Reloads : Type 0 where
  pub stamps : List (Text × ℕ)
  pub legacy : Text
  pub scheduled : List Text
  pub timers : List Text

-- `Number(sessionStorage.getItem(handledWrapperReloadKey(id))) || 0`
abbrev pub attempts : Text → List (Text × ℕ) → ℕ
attempts id [] = 0
attempts id ((k, n) ∷ s) = if text_eq k id then n else attempts id s

abbrev pub without : Text → List Text → List Text
without id [] = []
without id (k ∷ s) = let rest = without id s in if text_eq k id then rest else k ∷ rest

abbrev pub without_stamp : Text → List (Text × ℕ) → List (Text × ℕ)
without_stamp id [] = []
without_stamp id ((k, n) ∷ s) =
    let rest = without_stamp id s in if text_eq k id then rest else (k, n) ∷ rest

-- `clearHandledWrapperReloadStamp`, where the storage does not throw.
unfoldable pub clear_handled_wrapper_reload_stamp : Text → Reloads → Reloads
clear_handled_wrapper_reload_stamp id t =
    if not (is_empty id)
    then record t {
      stamps = without_stamp id t.stamps;
      legacy =
          if text_eq t.legacy id || starts_with t.legacy (id ++ codes ":") then [] else t.legacy;
    }
    else record t { stamps = []; legacy = [] }

abbrev pub set_timer : Text → Reloads → Reloads
set_timer id t = record t { scheduled = id ∷ t.scheduled; timers = id ∷ t.timers }

abbrev pub stamp : Text → Reloads → Reloads
stamp id t = record t { stamps = (id, attempts id t.stamps + 1) ∷ t.stamps }

-- The `try` block and what follows it, by how the storage answers.
abbrev pub try_reload : Access → Text → Reloads → Reloads
try_reload denied id t = set_timer id t
try_reload read_only id t = if leb 2 (attempts id t.stamps) then t else set_timer id t
try_reload writable id t = if leb 2 (attempts id t.stamps) then t else set_timer id (stamp id t)

-- `scheduleHandledRuntimeWrapperReload` for the session of a wrapper, empty if there is none; the
-- session is handled, and the recovery is superseded.
unfoldable pub schedule_handled_runtime_wrapper_reload :
    Text → Bool → Bool → Access → Reloads → Bool × Reloads
schedule_handled_runtime_wrapper_reload id handled superseded access t =
    if is_empty id || not handled
    then (false, t)
    else if superseded
    then (true, t)
    else if contains t.scheduled id
    then (true, t)
    else (true, try_reload access id t)

-- `location.reload()`, or a load of the page for another reason: what was in the page is lost.
abbrev pub load_page : Reloads → Reloads
load_page t = record t { scheduled = []; timers = [] }

-- What happens to a session's stamp or page.
pub data Effect : Type 0 where
  reload cleared : Text → Effect

abbrev pub give_up : Text → Reloads → Reloads × List Effect
give_up id t =
    let u = clear_handled_wrapper_reload_stamp id t in
    (record u { scheduled = without id u.scheduled }, cleared id ∷ [])

-- The callback of the timer; a wrapper of the session is still in the page.
unfoldable pub reload_due : Text → Bool → Bool → Reloads → Reloads × List Effect
reload_due id superseded stale t =
    if not (contains t.timers id)
    then (t, [])
    else (let u = record t { timers = without id t.timers } in
        if superseded
        then give_up id u
        else if stale
        then (load_page u, reload id ∷ [])
        else give_up id u)

pub data Event : Type 0 where
  found : Text → Bool → Bool → Access → Event
  due : Text → Bool → Bool → Event
  loaded : Event

unfoldable pub step : Event → Reloads → Reloads × List Effect
step (found id handled superseded access) t =
    ((schedule_handled_runtime_wrapper_reload id handled superseded access t).1, [])
step (due id superseded stale) t = reload_due id superseded stale t
step loaded t = (load_page t, [])

unfoldable pub run : List Event → Reloads → Reloads × List Effect
run [] t = (t, [])
run (e ∷ es) t =
    let (t', effects) = step e t in let (t'', more) = run es t' in (t'', effects ++ more)
