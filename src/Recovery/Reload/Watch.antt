-- ===== src/Recovery/Reload/Watch.antt =====
-- `watchForHandledRuntimeWrapper` of live-browser.js: the observers that look for the wrapper of a
-- handled session while the page changes, for 12 s each.
use nafir.Base.{
  ℕ, suc, ◌≡◌, ◌==◌, Bool, true, false, not, ◌&&◌, List, [], ◌∷◌, if◌then◌else◌, Text, is_empty,
  text_eq, text_eq_iff, arith, refl, ap, ◌∙◌, branch_false,
}
use nafir.Recovery.Reload.{Access, Reloads, schedule_handled_runtime_wrapper_reload}

-- `handledRuntimeWrapperWatchers`: the observer of a session, by the number of observers made
-- before it, which its timer has too; and the reloads.
pub record Watch : Type 0 where
  pub made : ℕ
  pub watchers : List (Text × ℕ)
  pub reloads : Reloads

abbrev pub is_watcher : Text → ℕ → List (Text × ℕ) → Bool
is_watcher id n [] = false
is_watcher id n ((k, m) ∷ ws) = if text_eq k id then m == n else is_watcher id n ws

abbrev pub unwatched : Text → List (Text × ℕ) → List (Text × ℕ)
unwatched id [] = []
unwatched id ((k, m) ∷ ws) =
    let rest = unwatched id ws in if text_eq k id then rest else (k, m) ∷ rest

-- `findHandledWrapper`, for a wrapper of the session, if one is in the page.
unfoldable pub find_handled_wrapper : Text → Bool → Bool → Bool → Access → Watch → Watch
find_handled_wrapper id there handled superseded access t =
    if there
    then record t {
      reloads = (schedule_handled_runtime_wrapper_reload id handled superseded access t.reloads).1;
    }
    else t

-- The call for a page with a body: the observer of the session so far is disconnected, with its
-- timer cleared, and the new one looks at once.
unfoldable pub watch_for_handled_runtime_wrapper :
    Text → Bool → Bool → Bool → Access → Watch → Watch
watch_for_handled_runtime_wrapper id there handled superseded access t =
    if is_empty id
    then t
    else find_handled_wrapper id there handled superseded access
        (record t { made = suc t.made; watchers = (id, t.made) ∷ unwatched id t.watchers })

-- A change of the page, which the observer with this number hears if it is not disconnected.
unfoldable pub page_changed : Text → ℕ → Bool → Bool → Bool → Access → Watch → Watch
page_changed id n there handled superseded access t =
    if is_watcher id n t.watchers
    then find_handled_wrapper id there handled superseded access t
    else t

-- The timer of the observer with this number.
unfoldable pub watch_over : Text → ℕ → Watch → Watch
watch_over id n t =
    if not (is_watcher id n t.watchers) then t else record t { watchers = unwatched id t.watchers }

is_watcher-unwatched :
    (id k : Text) (n : ℕ) (ws : List (Text × ℕ))
    → is_watcher id n (unwatched k ws) ≡ (if text_eq k id then false else is_watcher id n ws)
is_watcher-unwatched id k n [] = ground arith
is_watcher-unwatched id k n ((x, m) ∷ ws) =
    ground
      (arith, is_watcher-unwatched id k n ws, text_eq_iff x k, text_eq_iff k id, text_eq_iff x id)

watchers-find_handled_wrapper :
    (id : Text) (there handled superseded : Bool) (access : Access) (t : Watch)
    → (find_handled_wrapper id there handled superseded access t).watchers ≡ t.watchers
unfolding find_handled_wrapper
watchers-find_handled_wrapper id true handled superseded access t = refl
watchers-find_handled_wrapper id false handled superseded access t = refl

-- From then on the new observer is the only one of the session, and those of others stay.
is_watcher-watch :
    (id k : Text) (n : ℕ) (there handled superseded : Bool) (access : Access) (t : Watch)
    → is_empty id ≡ false
    → is_watcher k n
        (watch_for_handled_runtime_wrapper id there handled superseded access t).watchers
      ≡ (if text_eq id k then t.made == n else is_watcher k n t.watchers)
unfolding watch_for_handled_runtime_wrapper
is_watcher-watch id k n there handled superseded access t named =
    let u : Watch = record t {
      made = suc t.made;
      watchers = (id, t.made) ∷ unwatched id t.watchers;
    } in
    branch_false
      (λ (r : Watch).
        is_watcher k n r.watchers
        ≡ (if text_eq id k then t.made == n else is_watcher k n t.watchers))
      (is_empty id) t named
      (ap (is_watcher k n) (watchers-find_handled_wrapper id there handled superseded access u)
        ∙ ground (arith, is_watcher-unwatched k id n t.watchers))

-- Once its time is over, a session has no observer.
is_watcher-watch_over :
    (id k : Text) (n m : ℕ) (t : Watch)
    → is_watcher id n t.watchers ≡ true
    → is_watcher k m (watch_over id n t).watchers
      ≡ (not (text_eq id k) && is_watcher k m t.watchers)
unfolding watch_over
is_watcher-watch_over id k n m t own =
    branch_false
      (λ (r : Watch). is_watcher k m r.watchers ≡ (not (text_eq id k) && is_watcher k m t.watchers))
      (not (is_watcher id n t.watchers)) t (ap not own)
      (ground (arith, is_watcher-unwatched k id m t.watchers))
