-- ===== src/Steer/Settled/Unmoved.antt =====
-- The input of the chat leaves its request as it is.
use nafir.Base.{◌≡◌, Bool, true, false, not, ◌&&◌, ◌||◌, [], Text, is_empty, trim, branch}
use nafir.Steer.{Chat}
use nafir.Steer.Input.{type_text, escape, blurred, arm_page_chat_for_typing, sync_page_chat_visual}
use nafir.Steer.Settled.Effects.{IsSound, ids}

-- The input leaves the request and the lock as they are.
abbrev pub Same : Chat → Chat → Type 0
Same t u = IsSound u × (ids t.request ≡ ids u.request)

pub expanded-Same : (b : Bool) (t u : Chat) → Same t u → Same t (record u { expanded = b })
expanded-Same b t u h = h

pub visual-Same :
    (listening : Bool) (t u : Chat) → Same t u → Same t (sync_page_chat_visual listening u)
unfolding sync_page_chat_visual
visual-Same listening t u h = branch (Same t) u.locked h (
    branch (Same t) (not (is_empty u.value) && not u.expanded)
      (branch (Same t) u.locked h (expanded-Same true t u h))
      (branch (Same t) (is_empty u.value && u.expanded)
        (branch (Same t) listening h (expanded-Same false t u h)) h))

pub typed-Same :
    (text : Text) (listening : Bool) (t : Chat) → Same t t → Same t (type_text text listening t)
unfolding type_text
typed-Same text listening t h =
    branch (Same t) t.locked h (visual-Same listening t (record t { value = text }) h)

pub escape-Same : (listening : Bool) (t : Chat) → Same t t → Same t (escape listening t)
unfolding escape
escape-Same listening t h = branch (Same t) t.locked h (
    branch (Same t) (not (is_empty t.value)) (visual-Same listening t (record t { value = [] }) h)
      (branch (Same t) listening h (expanded-Same false t t h)))

pub blurred-Same :
    (elsewhere listening inside : Bool) (t : Chat)
    → Same t t
    → Same t (blurred elsewhere listening inside t)
unfolding blurred
blurred-Same elsewhere listening inside t h =
    branch (Same t) (elsewhere || t.locked || listening) h (
      branch (Same t) inside h (
        branch (Same t) (is_empty (trim t.value))
          (branch (Same t) listening h (expanded-Same false t t h)) h))

pub armed-Same :
    (expand takes_focus focused : Bool) (t : Chat)
    → Same t t
    → Same t (arm_page_chat_for_typing expand takes_focus focused t)
unfolding arm_page_chat_for_typing
armed-Same expand takes_focus focused t h =
    let armed' : Chat = record t {
      expanded = t.expanded || expand || takes_focus;
      was_focused = t.was_focused || (takes_focus && focused);
    } in
    let same : Same t armed' = h in branch (Same t) t.locked h same
