-- ===== src/Steer/Restored/Outlives.antt =====
-- What becomes of a steer while the chat waits for it.
use nafir.Base.{
  ◌≡◌, Bool, true, false, not, ◌&&◌, ◌||◌, Option, none, some, List, [], ◌∷◌, ◌++◌, if◌then◌else◌,
  Text, codes, is_empty, text_eq, text_eq_iff, trim, arith, refl, sym, branch, branch_by,
  branch_true, inl, inr, ◌⊎◌,
}
use mathlib.Core.Path.{subst}
use nafir.Steer.{
  checkpoint, steer_input_focused, steer_submitted, Chat, Effect, Outcome, Message, Kind, is_done,
  is_error, is_other, initial, or_text, unlock_steer_chat, submit_steer_message, steer_posted,
  steer_timed_out, steer_timeout_message, due, is_request, completed, maybe_complete_steer,
  reload_due,
}
use nafir.Steer.Input.{
  click_send, send_enabled, type_text, escape, blurred, arm_page_chat_for_typing,
}
use nafir.Steer.Run.{
  Event, enter, click, posted, timed_out, message, reload, typed, escaped, blur, armed, focus, step,
  run,
}
use nafir.Steer.Settled.{run-IsSound}
use nafir.Steer.Restored.{IsRestored, unlock-IsRestored}

abbrev unreached : Text → Outcome
unreached text = record {
  error = codes "Could not reach live server";
  restore_message = text;
  message = [];
  file = [];
}

abbrev late : Bool → Bool → Chat → Outcome
late polling working t = record {
  error = steer_timeout_message polling working t;
  restore_message = t.pending;
  message = [];
  file = [];
}

abbrev refused : Message → Chat → Outcome
refused msg t = record {
  error = or_text msg.message (codes "Steer failed");
  restore_message = t.pending;
  message = [];
  file = [];
}

some-or_text : (s t : Text) → is_empty t ≡ false → is_empty (or_text s t) ≡ false
some-or_text [] t h = h
some-or_text (c ∷ s) t h = refl

pub record IsAwaiting (t u : Chat) : Type 0 where
  pub locked : u.locked ≡ true
  pub request : u.request ≡ t.request
  pub pending : u.pending ≡ t.pending

-- The helper says that the request is done.
abbrev pub completes : Kind → Bool
completes is_done = true
completes is_error = false
completes is_other = false

abbrev pub reports_done : Event → Option Text → Bool
reports_done (message msg focuses) r = completes msg.kind && is_request r msg.id
reports_done e r = false

-- A post that is not taken is the one of the request that the chat waits for.
abbrev pub is_timely : Event → Chat → Bool
is_timely (posted id text taken focuses) t =
    taken || (is_request t.request id && text_eq text t.pending)
is_timely e t = true

-- The chat still waits for the same request, or its input has the text again, or it was done.
abbrev pub Outlives : Chat → Bool → Chat × List Effect → Type 0
Outlives t done r = IsAwaiting t r.0 ⊎ IsRestored r.0 t.pending ⊎ (done ≡ true)

module _ (t : Chat) (locked : t.locked ≡ true) where
  waits : (es : List Effect) (done : Bool) → Outlives t done (t, es)
  waits es done = inl (record { locked = locked; request = refl; pending = refl })

  held : (u : Chat) (b : Bool) → b ≡ true → IsAwaiting t (if b then t else u)
  held u b h =
      branch_true (IsAwaiting t) b u h (record { locked = locked; request = refl; pending = refl })

  submit-Outlives : (id : Text) → Outlives t false (submit_steer_message id t)
  unfolding submit_steer_message
  submit-Outlives id =
      branch_true (Outlives t false) (is_empty (trim t.value) || t.locked) _
        (ground (arith, locked)) (waits [] false)

  click-Outlives : (id : Text) (focused : Bool) → Outlives t false (click_send id focused t)
  unfolding click_send
  click-Outlives id focused =
      branch_true (Outlives t false) (t.locked || not (send_enabled focused t))
        (submit_steer_message id t) (ground (arith, locked)) (waits [] false)

  posted-Outlives :
      (id text : Text) (taken focuses : Bool)
      → is_empty t.pending ≡ false
      → (taken || (is_request t.request id && text_eq text t.pending)) ≡ true
      → Outlives t false (steer_posted id text taken focuses t)
  unfolding steer_posted
  posted-Outlives id text taken focuses some_text timely =
      branch_by (Outlives t false) (not taken)
        (λ lost.
          let same : text ≡ t.pending =
            (text_eq_iff text t.pending).0 (ground (arith, lost, timely)) in
          inr (
            inl (
              subst (λ (l : Text). IsRestored (unlock_steer_chat (unreached text) focuses t).0 l)
                same
                (unlock-IsRestored (unreached text) focuses t refl
                  (subst (λ (l : Text). is_empty l ≡ false) (sym same) some_text)))))
        (λ kept.
          waits
            ((if t.was_focused then checkpoint id steer_input_focused ∷ [] else [])
              ++ checkpoint id (steer_submitted text) ∷ [])
            false)

  due-Outlives :
      (polling working focuses : Bool) (r : Option Text)
      → is_empty t.pending ≡ false
      → Outlives t false (due polling working focuses t r)
  due-Outlives polling working focuses none some_text = waits [] false
  due-Outlives polling working focuses (some id) some_text =
      branch (Outlives t false) (not t.locked || not (is_request t.request id)) (waits [] false)
        (inr (inl (unlock-IsRestored (late polling working t) focuses t refl some_text)))

  timeout-Outlives :
      (polling working focuses : Bool)
      → is_empty t.pending ≡ false
      → Outlives t false (steer_timed_out polling working focuses t)
  unfolding steer_timed_out
  timeout-Outlives polling working focuses some_text =
      due-Outlives polling working focuses t.timer some_text

  completed-Outlives :
      (kind : Kind) (msg : Message) (focuses : Bool)
      → is_empty t.pending ≡ false
      → Outlives t (completes kind) (completed kind msg focuses t).1
  completed-Outlives is_done msg focuses some_text = inr (inr refl)
  completed-Outlives is_error msg focuses some_text = inr (
      inl (
        unlock-IsRestored (refused msg t) focuses t
          (some-or_text msg.message (codes "Steer failed") refl) some_text))
  completed-Outlives is_other msg focuses some_text = waits [] false

  message-Outlives :
      (msg : Message) (focuses : Bool)
      → is_empty t.pending ≡ false
      → Outlives t
          (reports_done (message msg focuses) t.request)
          (maybe_complete_steer msg focuses t).1
  unfolding maybe_complete_steer
  message-Outlives msg focuses some_text =
      let done = completes msg.kind && is_request t.request msg.id in
      let Kept : Bool × (Chat × List Effect) → Type 0 = λ r. Outlives t done r.1 in
      branch_by Kept (not (is_request t.request msg.id)) (λ strange. waits [] done)
        (λ own.
          subst (λ (b : Bool). Outlives t b (completed msg.kind msg focuses t).1)
            (ground (arith, own)) (completed-Outlives msg.kind msg focuses some_text))

  step-Outlives_locked :
      (e : Event)
      → is_empty t.pending ≡ false
      → is_timely e t ≡ true
      → Outlives t (reports_done e t.request) (step e t)
  unfolding step reload_due type_text escape blurred arm_page_chat_for_typing
  step-Outlives_locked (enter id) some_text timely = submit-Outlives id
  step-Outlives_locked (click id focused) some_text timely = click-Outlives id focused
  step-Outlives_locked (posted id text taken focuses) some_text timely =
      posted-Outlives id text taken focuses some_text timely
  step-Outlives_locked (timed_out polling working focuses) some_text timely =
      timeout-Outlives polling working focuses some_text
  step-Outlives_locked (message msg focuses) some_text timely =
      message-Outlives msg focuses some_text
  step-Outlives_locked reload some_text timely =
      inl (record { locked = locked; request = refl; pending = refl })
  step-Outlives_locked (typed text listening) some_text timely = inl (held _ t.locked locked)
  step-Outlives_locked (escaped listening) some_text timely = inl (held _ t.locked locked)
  step-Outlives_locked (blur elsewhere listening inside) some_text timely =
      inl (held _ (elsewhere || t.locked || listening) (ground (arith, locked)))
  step-Outlives_locked (armed expand takes_focus focused) some_text timely =
      inl (held _ t.locked locked)
  step-Outlives_locked focus some_text timely =
      inl (record { locked = locked; request = refl; pending = refl })

-- While a chat of a loaded page waits for its request, whatever happens next, it still waits for
-- it, or the text of the steer stands in its open input, or the helper reported the request as
-- done; the answer to a post that is not taken is the one to this request's own post.
pub step-Outlives :
    (es : List Event) (e : Event)
    → (run es initial).0.locked ≡ true
    → is_timely e (run es initial).0 ≡ true
    → Outlives
        (run es initial).0
        (reports_done e (run es initial).0.request)
        (step e (run es initial).0)
step-Outlives es e locked timely = elim (run-IsSound es) [
  | inl idle ↦ cc (idle.unlocked, locked)
  | inr waiting ↦ step-Outlives_locked (run es initial).0 locked e waiting.some_text timely
]
