-- ===== src/Steer/Input.antt =====
-- The input of the chat and its button, live-browser.js: `syncPageChatVisual`,
-- `syncPageChatSendButton`, `armPageChatForTyping`, and the handlers of `initPageChat`.
use nafir.Base.{Bool, true, false, not, ◌&&◌, ◌||◌, List, [], if◌then◌else◌, Text, is_empty, trim}
use nafir.Steer.{Chat, Effect, prepare_page_chat_input_for_typing, submit_steer_message}

-- `expandPageChat` without the focus, and `collapsePageChat`
abbrev pub expand_page_chat : Chat → Chat
expand_page_chat t = if t.locked then t else prepare_page_chat_input_for_typing t

abbrev pub collapse_page_chat : Bool → Chat → Chat
collapse_page_chat listening t = if listening then t else record t { expanded = false }

-- `syncPageChatVisual`
unfoldable pub sync_page_chat_visual : Bool → Chat → Chat
sync_page_chat_visual listening t =
    if t.locked
    then t
    else if not (is_empty t.value) && not t.expanded
    then expand_page_chat t
    else if is_empty t.value && t.expanded
    then collapse_page_chat listening t
    else t

-- `syncPageChatSendButton`: the button is visible, and it is enabled.
abbrev pub send_visible : Bool → Chat → Bool
send_visible focused t = not t.locked && (t.expanded || not (is_empty (trim t.value)) || focused)

unfoldable pub send_enabled : Bool → Chat → Bool
send_enabled focused t = send_visible focused t && not (is_empty (trim t.value))

-- The click on the button.
unfoldable pub click_send : Text → Bool → Chat → Chat × List Effect
click_send id focused t =
    if t.locked || not (send_enabled focused t) then (t, []) else submit_steer_message id t

-- The user types; a disabled input takes nothing.
unfoldable pub type_text : Text → Bool → Chat → Chat
type_text text listening t =
    if t.locked then t else sync_page_chat_visual listening (record t { value = text })

-- The key Escape in the input, which is not disabled.
unfoldable pub escape : Bool → Chat → Chat
escape listening t =
    if t.locked
    then t
    else if not (is_empty t.value)
    then sync_page_chat_visual listening (record t { value = [] })
    else collapse_page_chat listening t

-- What is done 120 ms behind a blur; `elsewhere` says that the state is CONFIGURING.
unfoldable pub blurred : Bool → Bool → Bool → Chat → Chat
blurred elsewhere listening inside t =
    if elsewhere || t.locked || listening
    then t
    else if inside
    then t
    else if is_empty (trim t.value)
    then collapse_page_chat listening t
    else t

-- `armPageChatForTyping` with `focusPageChatInput`; `focused` says whether the input took the focus.
unfoldable pub arm_page_chat_for_typing : Bool → Bool → Bool → Chat → Chat
arm_page_chat_for_typing expand focus focused t = if t.locked then t else record t {
  expanded = t.expanded || expand || focus;
  was_focused = t.was_focused || (focus && focused);
}

-- The event `focus` of the input.
abbrev pub focus_input : Chat → Chat
focus_input t = record t { was_focused = true }
