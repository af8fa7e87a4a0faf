-- ===== src/Apply.antt =====
-- The application of copy edits, live-browser.js: the state that survives a reload
-- (`readStoredManualApplyState` to `manualApplyLoadingText`), and the dock with the pill that shows it.
pub mod Dock
pub mod Activity
mod Tests
use nafir.Base.{
  ℕ, ◌+◌, ◌*◌, Bool, true, false, not, ◌&&◌, ◌||◌, ◌==◌, Option, none, some, [], if◌then◌else◌, ltb,
  Text, codes, text_eq,
}

-- The words of `phase`.
pub data ApplyPhase : Type 0 where
  applying verifying repairing repair_decision : ApplyPhase

-- What `sessionStorage` holds under `manualApplyStateKey`. Only the code below writes it, so every
-- field but those of a repair is there; `updatedAt`, which nothing reads, is left out.
pub record Stored : Type 0 where
  pub count : ℕ
  pub total_ops : ℕ
  pub completed_ops : ℕ
  pub remaining_count : ℕ
  pub phase : ApplyPhase
  pub started_at : ℕ
  pub repair_attempt : Option ℕ
  pub repair_max_attempts : Option ℕ
  pub page_url : Text
  pub expires_at : ℕ

-- The text of the pill; `apply_edits` is `pendingApplyLabel`.
pub data Label : Type 0 where
  apply_edits applying_edits : ℕ → Label
  fixing : ℕ → ℕ → Label
  needs_attention verifying_edits : Label

-- The variables of a tab: `dock` says whether the dock was built, `count` is `dataset.count` of the
-- pill, `shown` says whether the dock is displayed, and `deciding` whether the buttons Keep fixing
-- and Roll back are. `stored` is the entry under the key of this page that can be read, none where
-- `getItem` throws, and `refuses` says whether `setItem` throws; what throws is caught. A storage
-- whose `removeItem` throws has no entry that can be read.
pub record Apply : Type 0 where
  pub page : Text
  pub dock : Bool
  pub in_flight : Bool
  pub count : ℕ
  pub shown : Bool
  pub deciding : Bool
  pub label : Label
  pub stored : Option Stored
  pub refuses : Bool

-- `parseInt(pendingPillEl?.dataset.count || '0', 10)`
abbrev pub pill_count : Apply → ℕ
pill_count t = if t.dock then t.count else 0

-- `MANUAL_APPLY_STATE_TTL_MS`
abbrev pub manual_apply_state_ttl_ms : ℕ
manual_apply_state_ttl_ms = 15 * 60 * 1000

-- `a || b`, for numbers
infix 20 ◌or◌
abbrev pub ◌or◌ : ℕ → ℕ → ℕ
a or b = if a == 0 then b else a

-- `Number(a) || 0`
abbrev pub or_zero : Option ℕ → ℕ
or_zero none = 0
or_zero (some a) = a

-- The entry is for another page, or it is too old.
abbrev pub is_stale : ℕ → Text → Stored → Bool
is_stale now page s = not (text_eq s.page_url page) || ltb s.expires_at now

abbrev pub live_entry : ℕ → Text → Option Stored → Option Stored
live_entry now page none = none
live_entry now page (some s) = if is_stale now page s then none else some s

-- `readStoredManualApplyState`: the tab, from which a stale entry is removed; its entry is the result.
abbrev pub read_stored_manual_apply_state : ℕ → Apply → Apply
read_stored_manual_apply_state now t = record t { stored = live_entry now t.page t.stored }

-- `writeManualApplyState`, whose failure leaves the entry as it was; the page and the expiry of `s` are set here.
abbrev pub write_manual_apply_state : ℕ → Stored → Apply → Apply
write_manual_apply_state now s t = if t.refuses then t else record t {
  stored = some (record s { page_url = t.page; expires_at = now + manual_apply_state_ttl_ms });
}

abbrev pub count_of : Option Stored → ℕ
count_of none = 0
count_of (some s) = s.count

abbrev pub total_of : Option Stored → ℕ
total_of none = 0
total_of (some s) = s.total_ops

abbrev pub completed_of : Option Stored → ℕ
completed_of none = 0
completed_of (some s) = s.completed_ops

abbrev pub remaining_of : Option Stored → ℕ → ℕ
remaining_of none other = other
remaining_of (some s) other = s.remaining_count

abbrev pub phase_of : Option Stored → ApplyPhase
phase_of none = applying
phase_of (some s) = s.phase

abbrev pub started_of : Option Stored → ℕ
started_of none = 0
started_of (some s) = s.started_at

-- The object that `storeManualApplyState` spreads the patch over: of an earlier entry it keeps the
-- counts, the phase and the start.
abbrev pub carried_over : ℕ → ℕ → Option Stored → Stored
carried_over now current existing =
    let total = total_of existing or (count_of existing or current) in
    record {
      count = count_of existing or (current or total);
      total_ops = total or current;
      completed_ops = completed_of existing;
      remaining_count = remaining_of existing current;
      phase = phase_of existing;
      started_at = started_of existing or now;
      repair_attempt = none;
      repair_max_attempts = none;
      page_url = [];
      expires_at = 0;
    }

-- `storeManualApplyState`; `patch` sets the fields of the patch.
unfoldable pub store_manual_apply_state : ℕ → ℕ → (Stored → Stored) → Apply → Apply
store_manual_apply_state now current patch t =
    let t' = read_stored_manual_apply_state now t in
    if (total_of t'.stored or (count_of t'.stored or current)) == 0 && (current == 0)
    then t'
    else write_manual_apply_state now (patch (carried_over now current t'.stored)) t'

-- `clearStoredManualApplyState`
abbrev pub clear_stored_manual_apply_state : Apply → Apply
clear_stored_manual_apply_state t = record t { stored = none }

abbrev pub is_stored : Option Stored → Bool
is_stored none = false
is_stored (some s) = true

-- `shouldResumeManualApplyLoading`, for the tab that `readStoredManualApplyState` leaves.
abbrev pub should_resume_manual_apply_loading : ℕ → Apply → Bool
should_resume_manual_apply_loading count t = ltb 0 count && is_stored t.stored

abbrev pub progress_label : ℕ → Label
progress_label remaining = if ltb 0 remaining then applying_edits remaining else verifying_edits

-- `manualApplyLoadingText`, for the entry that is read.
abbrev pub manual_apply_loading_text : ℕ → Option Stored → Label
manual_apply_loading_text fallback none = progress_label fallback
manual_apply_loading_text fallback (some s) = elim s.phase [
  | repair_decision ↦ needs_attention
  | repairing ↦ fixing (or_zero s.repair_attempt or 1) (or_zero s.repair_max_attempts or 3)
  | verifying ↦ verifying_edits
  | applying ↦ progress_label s.remaining_count
]

-- `resetManualApplyProgress`
unfoldable pub reset_manual_apply_progress : ℕ → ℕ → Apply → Apply
reset_manual_apply_progress now total t =
    if total == 0
    then t
    else write_manual_apply_state now
        (record {
          count = total;
          total_ops = total;
          completed_ops = 0;
          remaining_count = total;
          phase = applying;
          started_at = now;
          repair_attempt = none;
          repair_max_attempts = none;
          page_url = [];
          expires_at = 0;
        })
        t
