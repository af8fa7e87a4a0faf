-- ===== src/Apply/Activity/Progress/Entry.antt =====
-- The saved entry of an apply that is under way: it is read back, and what is written over it.
use nafir.Base.{
  ℕ, ◌+◌, ◌-◌, ◌≤◌, ◌≡◌, true, false, ◌&&◌, ◌==◌, Option, none, some, [], if◌then◌else◌, ltb, arith,
  refl, ap, ◌∙◌, branch_false, text_eq, text_eq_refl, Text,
}
use nafir.Apply.{
  Apply, Stored, applying, verifying, live_entry, is_stale, carried_over, total_of, count_of, ◌or◌,
  write_manual_apply_state, store_manual_apply_state, manual_apply_state_ttl_ms,
}

-- The entry after `done` of `total` operations.
abbrev pub entry : ℕ → ℕ → ℕ → ℕ → Text → Stored
entry total done start now page = record {
  count = total;
  total_ops = total;
  completed_ops = done;
  remaining_count = total - done;
  phase = if ltb 0 (total - done) then applying else verifying;
  started_at = start;
  repair_attempt = none;
  repair_max_attempts = none;
  page_url = page;
  expires_at = now + manual_apply_state_ttl_ms;
}

pub live_entry-kept :
    (now : ℕ) (page : Text) (e : Stored)
    → e.page_url ≡ page
    → now ≤ e.expires_at
    → live_entry now page (some e) ≡ some e
live_entry-kept now page e own young =
    let same : text_eq e.page_url page ≡ true = ap (λ p. text_eq p page) own ∙ text_eq_refl page in
    branch_false (λ (o : Option Stored). o ≡ some e) (is_stale now page e) none
      (ground (arith, same, young)) refl

-- `storeManualApplyState` over the entry that was read.
abbrev pub store_over : ℕ → ℕ → (Stored → Stored) → Apply → Option Stored → Apply
store_over now current patch t read =
    let t' : Apply = record t { stored = read } in
    if (total_of read or (count_of read or current)) == 0 && (current == 0)
    then t'
    else write_manual_apply_state now (patch (carried_over now current read)) t'

-- What a storage that takes the entry holds behind it.
abbrev pub saved_as : ℕ → Stored → Apply → Apply
saved_as now s t = record t {
  stored = some (record s { page_url = t.page; expires_at = now + manual_apply_state_ttl_ms });
}

pub write-saved_as :
    (now : ℕ) (s : Stored) (t : Apply)
    → t.refuses ≡ false
    → write_manual_apply_state now s t ≡ saved_as now s t
write-saved_as now s t takes =
    branch_false (λ (u : Apply). u ≡ saved_as now s t) t.refuses t takes refl

pub or-left : (a b : ℕ) → (a == 0) ≡ false → a or b ≡ a
or-left a b h = branch_false (λ (n : ℕ). n ≡ a) (a == 0) b h refl

-- What is carried over from an entry: all but the start, and the page and the expiry that are
-- written anew.
abbrev pub carried : ℕ → ℕ → ℕ → Stored
carried total done start = record (entry total done start 0 []) { expires_at = 0 }

pub carried_over-entry :
    (now current total done start since : ℕ) (page : Text)
    → (total == 0) ≡ false
    → carried_over now current (some (entry total done start since page))
      ≡ carried total done (start or now)
carried_over-entry now current total done start since page h =
    let inner : total or (total or current) ≡ total = or-left total (total or current) h in
    ap
      (λ (c : ℕ). record (carried total done (start or now)) {
        count = c;
        total_ops = (total or (total or current)) or current;
      })
      (or-left total (current or (total or (total or current))) h)
    ∙ ap (λ (u : ℕ). record (carried total done (start or now)) { total_ops = u })
        (ap (λ (u : ℕ). u or current) inner ∙ or-left total current h)

pub store-entry :
    (now current : ℕ) (patch : Stored → Stored) (t : Apply) (total done start since : ℕ)
    → (total == 0) ≡ false
    → t.refuses ≡ false
    → live_entry now t.page t.stored ≡ some (entry total done start since t.page)
    → store_manual_apply_state now current patch t
      ≡ saved_as now (patch (carried total done (start or now))) t
unfolding store_manual_apply_state
store-entry now current patch t total done start since full takes h =
    let guard : ((total or (total or current)) == 0) ≡ false =
      ap (λ (u : ℕ). u == 0) (or-left total (total or current) full) ∙ full in
    let t' : Apply = record t { stored = some (entry total done start since t.page) } in
    ap (store_over now current patch t) h
    ∙ branch_false (λ (u : Apply). u ≡ saved_as now (patch (carried total done (start or now))) t)
        ((total or (total or current)) == 0 && (current == 0)) _ (ground (arith, guard))
        (ap (λ (s : Stored). write_manual_apply_state now (patch s) t')
            (carried_over-entry now current total done start since t.page full)
          ∙ write-saved_as now (patch (carried total done (start or now))) t' takes)
