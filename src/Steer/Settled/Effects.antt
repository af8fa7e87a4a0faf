-- ===== src/Steer/Settled/Effects.antt =====
-- What a chat sends and settles, and what unlocking it settles.
use nafir.Base.{
  ◌≡◌, Bool, true, false, not, Option, none, some, List, [], ◌∷◌, ◌++◌, Text, is_empty, refl, ap,
  sym, ◌∙◌, append-nil, branch, inl, ◌⊎◌,
}
use mathlib.Core.Path.{subst}
use nafir.Steer.{
  Chat, Effect, Reason, Outcome, Message, steer, checkpoint, toast, reload_timer,
  steer_input_focused, steer_submitted, steer_done, steer_error, toasts_of, outcome_checkpoint,
  unlock_steer_chat,
}

-- The ids of the steers that are posted, and of the outcomes that are reported.
abbrev pub steered : List Effect → List Text
steered [] = []
steered (steer id text ∷ es) = id ∷ steered es
steered (checkpoint id reason ∷ es) = steered es
steered (toast text ∷ es) = steered es
steered (reload_timer ∷ es) = steered es

abbrev pub settled : List Effect → List Text
settled [] = []
settled (checkpoint id (steer_done text file) ∷ es) = id ∷ settled es
settled (checkpoint id (steer_error text file) ∷ es) = id ∷ settled es
settled (checkpoint id steer_input_focused ∷ es) = settled es
settled (checkpoint id (steer_submitted text) ∷ es) = settled es
settled (steer id text ∷ es) = settled es
settled (toast text ∷ es) = settled es
settled (reload_timer ∷ es) = settled es

pub steered-append : (a b : List Effect) → steered (a ++ b) ≡ steered a ++ steered b
steered-append [] b = refl
steered-append (steer id text ∷ es) b = ap (λ (l : List Text). id ∷ l) (steered-append es b)
steered-append (checkpoint id reason ∷ es) b = steered-append es b
steered-append (toast text ∷ es) b = steered-append es b
steered-append (reload_timer ∷ es) b = steered-append es b

pub settled-append : (a b : List Effect) → settled (a ++ b) ≡ settled a ++ settled b
settled-append [] b = refl
settled-append (checkpoint id (steer_done text file) ∷ es) b =
    ap (λ (l : List Text). id ∷ l) (settled-append es b)
settled-append (checkpoint id (steer_error text file) ∷ es) b =
    ap (λ (l : List Text). id ∷ l) (settled-append es b)
settled-append (checkpoint id steer_input_focused ∷ es) b = settled-append es b
settled-append (checkpoint id (steer_submitted text) ∷ es) b = settled-append es b
settled-append (steer id text ∷ es) b = settled-append es b
settled-append (toast text ∷ es) b = settled-append es b
settled-append (reload_timer ∷ es) b = settled-append es b

-- The request that is under way.
abbrev pub ids : Option Text → List Text
ids none = []
ids (some id) = id ∷ []

-- Nothing is under way; or the chat waits for the request that its timer is for, and has its text.
pub record IsIdle (locked : Bool) (request timer : Option Text) : Type 0 where
  pub unlocked : locked ≡ false
  pub no_request : request ≡ none
  pub no_timer : timer ≡ none

pub record IsWaiting (locked : Bool) (request timer : Option Text) (text : Text) : Type 0 where
  pub id : Text
  pub is_locked : locked ≡ true
  pub its_request : request ≡ some id
  pub its_timer : timer ≡ some id
  pub some_text : is_empty text ≡ false

abbrev pub IsSound : Chat → Type 0
IsSound t = IsIdle t.locked t.request t.timer ⊎ IsWaiting t.locked t.request t.timer t.pending

-- The chat is sound afterwards, and what was under way or is sent has its outcome or is under way.
abbrev pub Keeps : Chat → Chat × List Effect → Type 0
Keeps t r = IsSound r.0 × (ids t.request ++ steered r.1 ≡ settled r.1 ++ ids r.0.request)

pub quiet-Keeps :
    (t : Chat) (es : List Effect) → steered es ≡ [] → settled es ≡ [] → IsSound t → Keeps t (t, es)
quiet-Keeps t es s o h = (
  h,
  ap (λ (l : List Text). ids t.request ++ l) s
      ∙ append-nil (ids t.request)
      ∙ ap (λ (l : List Text). l ++ ids t.request) (sym o),
)

pub toasts_of-settled : (o : Outcome) (es : List Effect) → settled (toasts_of o ++ es) ≡ settled es
toasts_of-settled o es =
    branch (λ (l : List Effect). settled (l ++ es) ≡ settled es) (not (is_empty o.error)) refl
      (branch (λ (l : List Effect). settled (l ++ es) ≡ settled es) (not (is_empty o.message)) refl
        refl)

pub toasts_of-steered : (o : Outcome) (es : List Effect) → steered (toasts_of o ++ es) ≡ steered es
toasts_of-steered o es =
    branch (λ (l : List Effect). steered (l ++ es) ≡ steered es) (not (is_empty o.error)) refl
      (branch (λ (l : List Effect). steered (l ++ es) ≡ steered es) (not (is_empty o.message)) refl
        refl)

pub outcome-settled : (o : Outcome) (r : Option Text) → settled (outcome_checkpoint o r) ≡ ids r
outcome-settled o none = refl
outcome-settled o (some id) =
    branch (λ (reason : Reason). settled (checkpoint id reason ∷ []) ≡ id ∷ []) (is_empty o.error)
      refl refl

pub outcome-steered : (o : Outcome) (r : Option Text) → steered (outcome_checkpoint o r) ≡ []
outcome-steered o none = refl
outcome-steered o (some id) = refl

abbrev pub done_of : Message → Outcome
done_of msg = record { error = []; restore_message = []; message = msg.message; file = msg.file }

-- Whatever follows that neither sends nor settles.
pub unlock-Keeps :
    (o : Outcome) (focuses : Bool) (t : Chat) (more : List Effect)
    → steered more ≡ []
    → settled more ≡ []
    → Keeps t ((unlock_steer_chat o focuses t).0, (unlock_steer_chat o focuses t).1 ++ more)
unfolding unlock_steer_chat
unlock-Keeps o focuses t more s q =
    let r = t.request in
    let said = outcome_checkpoint o r in
    let sent : steered ((toasts_of o ++ said) ++ more) ≡ [] =
      steered-append (toasts_of o ++ said) more
      ∙ ap (λ (l : List Text). l ++ steered more) (toasts_of-steered o said ∙ outcome-steered o r)
      ∙ s in
    let given : settled ((toasts_of o ++ said) ++ more) ≡ ids r =
      settled-append (toasts_of o ++ said) more
      ∙ ap (λ (l : List Text). l ++ settled more) (toasts_of-settled o said ∙ outcome-settled o r)
      ∙ ap (λ (l : List Text). ids r ++ l) q
      ∙ append-nil (ids r) in
    (
      inl (record { unlocked = refl; no_request = refl; no_timer = refl }),
      ap (λ (l : List Text). ids r ++ l) sent
          ∙ append-nil (ids r)
          ∙ sym given
          ∙ sym (append-nil (settled ((toasts_of o ++ said) ++ more))),
    )

pub unlock-Keeps_all :
    (o : Outcome) (focuses : Bool) (t : Chat) → Keeps t (unlock_steer_chat o focuses t)
unlock-Keeps_all o focuses t =
    subst (λ (es : List Effect). Keeps t ((unlock_steer_chat o focuses t).0, es))
      (append-nil (unlock_steer_chat o focuses t).1) (unlock-Keeps o focuses t [] refl refl)
