-- ===== src/Recovery/Tests.antt =====
-- The choice of the session to resume at an input, and tests.
use nafir.Base.{ℕ, ◌≡◌, ◌≤◌, true, false, trim, none, some, List, [], ◌∷◌, ◌++◌, Text, codes, refl}
use nafir.Value.{text_or_empty, property, Value, int, str, obj, end, field}
use nafir.Session.Browser.{Platform}
use nafir.Session.{Tab, load_session, is_handled, read_handled_ids}
use nafir.Recovery.Summary.{
  Host, page_matches_current, is_terminal_session_summary, find_active_session_summary,
  server_session_as_saved_shape,
}
use nafir.Recovery.Meta.{
  reset_session_file_meta, remember_all, normalize_session_path, remember_session_file_meta,
}
use nafir.Recovery.Missed.{Progress, recover_missed_generation_completion}
use nafir.Recovery.Choice.{
  choose_session, is_adoptable, find_adoptable_server_session, is_session_handled,
}
use nafir.Recovery.Reload.{
  Access, read_only, writable, reload, Event, found, due, attempts,
  schedule_handled_runtime_wrapper_reload, reload_due, step, run,
}
use nafir.Recovery.Reload.Budget.{since_cleared, no_reloads, run-reloads_le}
use nafir.Recovery.Choice.Safe.{IsRecoverable, choose_session-IsRecoverable}

-- A browser that has lost what it stored.
abbrev cleared : Platform
cleared = record {
  Store = ℕ;
  Number = ℕ;
  get_item = λ s k. some none;
  set_item = λ s k v. none;
  remove_item = λ s k. none;
  parse = λ t. none;
  stringify = λ v. [];
  show = λ n. [];
  parse_float = λ t. none;
}

abbrev tab : Tab cleared
tab = record { prefix = codes "impeccable"; owner = codes "tab"; revision = 0; store = 0 }

abbrev host : Host
host = record {
  pathname = codes "/shop";
  url_path = λ t. some t;
  upper = λ t. t;
  number_or_zero = λ v. int 3;
  is_positive = λ v. true;
}

abbrev session_of : Text → Text → Value
session_of page phase = obj (
    field (codes "id") (str (codes "s1")) (
      field (codes "pageUrl") (str page) (
        field (codes "phase") (str phase) (
          field (codes "sourceFile") (str (codes "a.html"))
            (field (codes "expectedVariants") (int 3) end)))))

abbrev reported : List Value
reported =
    session_of (codes "/cart") (codes "cycling")
    ∷ session_of (codes "/shop") (codes "completed")
    ∷ session_of (codes "/shop") (codes "cycling")
    ∷ []

abbrev shape : Value
shape = server_session_as_saved_shape host (session_of (codes "/shop") (codes "cycling"))

adopts_the_third :
    (choose_session cleared host [] tab (some reported)).1
    ≡ some (shape, some (session_of (codes "/shop") (codes "cycling")))
unfolding choose_session page_matches_current is_terminal_session_summary
    find_active_session_summary server_session_as_saved_shape text_or_empty property load_session
    is_handled read_handled_ids is_adoptable find_adoptable_server_session is_session_handled
adopts_the_third = refl

choose_session-IsRecoverable_example :
    IsRecoverable cleared host [] tab
      (some reported)
      (shape, some (session_of (codes "/shop") (codes "cycling")))
choose_session-IsRecoverable_example =
    choose_session-IsRecoverable cleared host [] tab (some reported)
      (shape, some (session_of (codes "/shop") (codes "cycling"))) adopts_the_third

-- A preview of a component, and then a page file.
abbrev metas : List Value
metas =
    obj (
      field (codes "file") (str (codes "a/manifest.json"))
        (field (codes "sourceFile") (str (codes " a\\b.svelte ")) end))
    ∷ obj (field (codes "file") (str (codes "a/manifest.json")) end)
    ∷ []

remembers_the_source :
    (remember_all metas reset_session_file_meta).source_file ≡ some (codes "a/b.svelte")
unfolding remember_all property normalize_session_path trim
remembers_the_source = refl

-- The reload came between the write of three variants and the event that announces them.
abbrev finished : Value
finished = obj (
    field (codes "id") (str (codes "s1")) (
      field (codes "generationCompletedAt") (int 1)
        (field (codes "sourceFile") (str (codes "a.html")) end)))

abbrev waiting : Progress
waiting = record {
  session = codes "s1";
  generating = true;
  arrived = 0;
  expected = 3;
  files = reset_session_file_meta;
}

abbrev injection : Text × Value
injection = (codes "s1", str (codes "a.html"))

sets_the_timer :
    (recover_missed_generation_completion waiting (some (finished ∷ []))).1 ≡ some injection
unfolding recover_missed_generation_completion property is_terminal_session_summary text_or_empty
    remember_session_file_meta normalize_session_path trim
sets_the_timer = refl

-- A wrapper of a handled session that stays in the page.
abbrev shown : Access → List Event
shown access = found (codes "s1") true false access ∷ due (codes "s1") false true ∷ []

abbrev three_times : List Event
three_times = shown writable ++ shown writable ++ shown writable

reloads_twice : (run three_times no_reloads).1 ≡ reload (codes "s1") ∷ reload (codes "s1") ∷ []
unfolding run step schedule_handled_runtime_wrapper_reload reload_due
reloads_twice = refl

-- The stamp is not written, and nothing counts the reloads.
reloads_without_stamp :
    (run (shown read_only ++ shown read_only ++ shown read_only) no_reloads).1
    ≡ reload (codes "s1") ∷ reload (codes "s1") ∷ reload (codes "s1") ∷ []
unfolding run step schedule_handled_runtime_wrapper_reload reload_due
reloads_without_stamp = refl

run-reloads_le_example :
    (since_cleared (codes "s1") 0 (run three_times no_reloads).1
      ≤ attempts (codes "s1") (run three_times no_reloads).0.stamps)
    × (attempts (codes "s1") (run three_times no_reloads).0.stamps ≤ 2)
run-reloads_le_example = run-reloads_le (codes "s1") three_times refl
