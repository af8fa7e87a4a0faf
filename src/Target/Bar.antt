-- ===== src/Target/Bar.antt =====
-- `applyLiveBarPreference` and `setLiveBarHidden`: the helper's word on the global bar.
use nafir.Base.{
  ◌≡◌, ◌⊎◌, inl, inr, Bool, true, false, Option, none, some, List, [], ◌∷◌, refl, if◌then◌else◌,
  Text, codes, is_empty, text_eq, ap, ◌∙◌, sym,
}
use mathlib.Core.Path.{subst}

-- `style.display` of the bar, and `dataset.liveBarDisplay`.
pub record Bar : Type 0 where
  pub display : Text
  pub live_bar_display : Option Text

-- `text || 'flex'`
abbrev pub or_flex : Text → Text
or_flex [] = codes "flex"
or_flex (c ∷ t) = c ∷ t

remembered : Option Text → Text
remembered none = codes "flex"
remembered (some display) = or_flex display

abbrev pub is_none : Bar → Bool
is_none bar = text_eq bar.display (codes "none")

hide : Bar → Bar
hide bar =
    if is_none bar
    then bar
    else record { display = codes "none"; live_bar_display = some (or_flex bar.display) }

show : Bar → Bar
unfolding remembered
show bar = if is_none bar then record bar { display = remembered bar.live_bar_display } else bar

shown_or_hidden : Bool → Bar → Bar
unfolding hide show
shown_or_hidden true bar = hide bar
shown_or_hidden false bar = show bar

-- A page with no global bar yet has nothing to hide.
unfoldable pub set_live_bar_hidden : Option Bar → Bool → Option Bar
unfolding shown_or_hidden
set_live_bar_hidden none hidden = none
set_live_bar_hidden (some bar) hidden = some (shown_or_hidden hidden bar)

-- The flag `liveBarHiddenByHelper`, and the bar; the preference is the test `hidden === true`.
unfoldable pub apply_live_bar_preference : Bool × Option Bar → Bool → Bool × Option Bar
unfolding set_live_bar_hidden
apply_live_bar_preference (flag, bar) hidden = (hidden, set_live_bar_hidden bar hidden)

unfoldable pub apply_preferences : Bool × Option Bar → List Bool → Bool × Option Bar
unfolding apply_live_bar_preference
apply_preferences t [] = t
apply_preferences t (hidden ∷ rest) = apply_preferences (apply_live_bar_preference t hidden) rest

-- The bar shows its own display, or is hidden and remembers it.
Keeps : Text → Bar → Type 0
Keeps d bar = (bar.display ≡ d) ⊎ ((bar.display ≡ codes "none") × (bar.live_bar_display ≡ some d))

-- What a bar shows after a preference.
abbrev pub shows : Text → Bool → Text
shows d true = codes "none"
shows d false = d

or_flex-full : (d : Text) → is_empty d ≡ false → or_flex d ≡ d
or_flex-full [] h = cc
or_flex-full (c ∷ t) h = refl

-- A bar that keeps `d`, and shows `shown` now.
abbrev Holds : Text → Text → Bar → Type 0
Holds d shown bar = Keeps d bar × (bar.display ≡ shown)

shown_or_hidden-Keeps :
    (d : Text) (hidden : Bool) (bar : Bar)
    → is_empty d ≡ false
    → text_eq d (codes "none") ≡ false
    → Keeps d bar
    → Holds d (shows d hidden) (shown_or_hidden hidden bar)
unfolding Keeps shown_or_hidden hide show remembered
shown_or_hidden-Keeps d true bar full visible (inl own) =
    let seen : is_none bar ≡ false = ap (λ x. text_eq x (codes "none")) own ∙ visible in
    let hidden : Bar = record {
      display = codes "none";
      live_bar_display = some (or_flex bar.display);
    } in
    let kept : hidden.live_bar_display ≡ some d = ap some (ap or_flex own ∙ or_flex-full d full) in
    subst (λ b. Holds d (codes "none") (if b then bar else hidden)) (sym seen)
      (inr (refl, kept), refl)
shown_or_hidden-Keeps d true bar full visible (inr (gone, kept)) =
    let unseen : is_none bar ≡ true = ap (λ x. text_eq x (codes "none")) gone in
    let hidden : Bar = record {
      display = codes "none";
      live_bar_display = some (or_flex bar.display);
    } in
    subst (λ b. Holds d (codes "none") (if b then bar else hidden)) (sym unseen)
      (inr (gone, kept), gone)
shown_or_hidden-Keeps d false bar full visible (inl own) =
    let seen : is_none bar ≡ false = ap (λ x. text_eq x (codes "none")) own ∙ visible in
    let back : Bar = record bar { display = remembered bar.live_bar_display } in
    subst (λ b. Holds d d (if b then back else bar)) (sym seen) (inl own, own)
shown_or_hidden-Keeps d false bar full visible (inr (gone, kept)) =
    let unseen : is_none bar ≡ true = ap (λ x. text_eq x (codes "none")) gone in
    let back : Bar = record bar { display = remembered bar.live_bar_display } in
    let own : back.display ≡ d = ap remembered kept ∙ or_flex-full d full in
    subst (λ b. Holds d d (if b then back else bar)) (sym unseen) (inl own, own)

-- What a page's bar shows at the end of some preferences, from what it shows at their start.
abbrev pub last_shown : Text → Text → List Bool → Text
last_shown d now [] = now
last_shown d now (hidden ∷ rest) = last_shown d (shows d hidden) rest

run-Keeps :
    (d : Text) (now : Text) (flag : Bool) (bar : Bar) (prefs : List Bool)
    → is_empty d ≡ false
    → text_eq d (codes "none") ≡ false
    → Holds d now bar
    → (end : Bar) × ((apply_preferences (flag, some bar) prefs).1 ≡ some end)
      × (end.display ≡ last_shown d now prefs)
unfolding apply_preferences apply_live_bar_preference set_live_bar_hidden
run-Keeps d now flag bar [] full visible h = (bar, refl, h.1)
run-Keeps d now flag bar (hidden ∷ rest) full visible h =
    run-Keeps d (shows d hidden) hidden (shown_or_hidden hidden bar) rest full visible
      (shown_or_hidden-Keeps d hidden bar full visible h.0)

-- A bar with a display of its own that is not empty, and not `none`, is hidden after preferences
-- that end in hiding, and has that display again after preferences that end in showing, however
-- often each is repeated.
pub display-apply_preferences :
    (flag : Bool) (bar : Bar) (prefs : List Bool)
    → is_empty bar.display ≡ false
    → text_eq bar.display (codes "none") ≡ false
    → (end : Bar) × ((apply_preferences (flag, some bar) prefs).1 ≡ some end)
      × (end.display ≡ last_shown bar.display bar.display prefs)
unfolding Keeps
display-apply_preferences flag bar prefs full visible =
    run-Keeps bar.display bar.display flag bar prefs full visible (inl refl, refl)
