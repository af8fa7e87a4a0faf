-- ===== src/Recovery/Choice/Safe.antt =====
-- Only a session of this page that is still open is resumed.
use nafir.Base.{
  ◌≡◌, ◌⊎◌, inl, inr, Bool, true, false, not, ◌&&◌, Option, none, some, List, [], ◌∷◌, find?,
  find?-eq-some, arith, refl, Text, codes, Bool-cases, Option-cases, if◌then◌else◌, ap, ◌∙◌, sym,
}
use mathlib.Core.Path.{subst}
use nafir.Value.{Value, property, truthy}
use nafir.Session.Browser.{Platform}
use nafir.Session.{Tab, load_session, clear_session}
use nafir.Recovery.Summary.{
  Host, property?, page_matches_current, is_terminal_session_summary, is_summary_of,
  find_active_session_summary, server_session_as_saved_shape,
}
use nafir.Recovery.Choice.{
  is_foreign, on_this_page, is_under_way, is_unknown, is_session_handled, kept_or_cleared,
  load_own_session, is_adoptable, find_adoptable_server_session, adopted, candidate, resumed,
  choose_session,
}

absurd-none : {B : Type 0} {v : Value} → none ≡ some v → B
absurd-none h = cc

absurd-unknown : {B : Type 0} → true ≡ false → B
absurd-unknown h = cc

some-eq : {v w : Value} → some v ≡ some w → v ≡ w
some-eq h = cc

if-eq : {A : Type 0} (b : Bool) (x y : A) → b ≡ true → (if b then x else y) ≡ x
if-eq true x y h = refl
if-eq false x y h = cc

if-else : {A : Type 0} (b : Bool) (x y : A) → b ≡ false → (if b then x else y) ≡ y
if-else true x y h = cc
if-else false x y h = refl

guarded-eq :
    {A : Type 0} (b : Bool) (x y : A) → (if b then some x else none) ≡ some y → (b ≡ true) × (x ≡ y)
guarded-eq true x y h = (refl, cc)
guarded-eq false x y h = cc

module _ (p : Platform) (host : Host) where
  -- The session is the one that this tab's page saved.
  abbrev pub IsOwn : Option Value → Value → Type 0
  IsOwn cached saved =
      (cached ≡ some saved) × (page_matches_current host (property (codes "pageUrl") saved) ≡ true)

  -- The session is the shape of one that the helper reports, open and of this page.
  abbrev pub IsAdopted : Tab p → Option (List Value) → Value → Type 0
  IsAdopted t sessions saved =
      (session : Value) × (find_adoptable_server_session p host t sessions ≡ some session)
      × (saved ≡ server_session_as_saved_shape host session)
      × (is_terminal_session_summary session ≡ false)
      × (is_session_handled p host t (property (codes "id") session) ≡ false)
      × (truthy (property (codes "pageUrl") session) ≡ true)
      × (page_matches_current host (property (codes "pageUrl") session) ≡ true)

  -- A helper that reports any sessions reports this one, open and of this page.
  abbrev pub IsKnown : Option (List Value) → Value → Option Value → Type 0
  IsKnown (some (first ∷ sessions)) saved server =
      (summary : Value) × (server ≡ some summary) × (is_summary_of host saved summary ≡ true)
  IsKnown _ saved server = Unit

  adoptable-facts :
      (t : Tab p) (session : Value)
      → is_adoptable p host t session ≡ true
      → (is_terminal_session_summary session ≡ false)
        × (is_session_handled p host t (property (codes "id") session) ≡ false)
        × (truthy (property (codes "pageUrl") session) ≡ true)
        × (page_matches_current host (property (codes "pageUrl") session) ≡ true)
  unfolding is_adoptable
  adoptable-facts t session h =
      (ground (arith, h), ground (arith, h), ground (arith, h), ground (arith, h))

  find_adoptable-eq :
      (t : Tab p) (sessions : Option (List Value)) (session : Value)
      → find_adoptable_server_session p host t sessions ≡ some session
      → is_adoptable p host t session ≡ true
  unfolding find_adoptable_server_session
  find_adoptable-eq t none session h = cc
  find_adoptable-eq t (some sessions) session h = find?-eq-some (is_adoptable p host t) sessions h

  on_this_page-IsOwn :
      (cached : Option Value) (saved : Value)
      → truthy (property? (codes "id") (on_this_page host cached)) ≡ true
      → on_this_page host cached ≡ some saved
      → IsOwn cached saved
  on_this_page-IsOwn none saved i h = cc
  on_this_page-IsOwn (some v) saved i h =
      let url = property (codes "pageUrl") v in
      let away : Bool = truthy (property (codes "id") v) && not (page_matches_current host url) in
      elim (Bool-cases away) [
        | inl e ↦ absurd-none (sym (if-eq away none (some v) e) ∙ h)
        | inr e ↦
            let own : v ≡ saved = some-eq (sym (if-else away none (some v) e) ∙ h) in
            let named : truthy (property? (codes "id") (some v)) ≡ true =
              ap (λ s. truthy (property? (codes "id") s)) (sym (if-else away none (some v) e))
              ∙ i in
            let here : page_matches_current host url ≡ true = ground (arith, e, named) in
            (
              ap some own,
              subst (λ s. page_matches_current host (property (codes "pageUrl") s) ≡ true) own here,
            )
      ]

  summary-IsKnown :
      (sessions : Option (List Value)) (saved : Value)
      → truthy (property (codes "id") saved) ≡ true
      → is_unknown sessions (find_active_session_summary host saved sessions) ≡ false
      → IsKnown sessions saved (find_active_session_summary host saved sessions)
  unfolding find_active_session_summary
  summary-IsKnown none saved i h = tt
  summary-IsKnown (some []) saved i h = tt
  summary-IsKnown (some (first ∷ rest)) saved i h =
      let found = find? (is_summary_of host saved) (first ∷ rest) in
      let same : find_active_session_summary host saved (some (first ∷ rest)) ≡ found =
        if-eq (truthy (property (codes "id") saved)) found none i in
      elim (Option-cases found) [
        | inl missing ↦
            absurd-unknown (ap (is_unknown (some (first ∷ rest))) (sym (same ∙ missing)) ∙ h)
        | inr (summary, e) ↦
            (summary, same ∙ e, find?-eq-some (is_summary_of host saved) (first ∷ rest) e)
      ]

module _ (p : Platform) (host : Host) (app_root : Text) (t : Tab p) where
  abbrev loaded : Tab p × Option Value
  loaded = load_own_session p host app_root t

  -- The tab's own session of this page and project, or an adopted one.
  abbrev pub HasOrigin : Option (List Value) → Value → Type 0
  HasOrigin sessions saved =
      (IsOwn p host loaded.1 saved × (is_foreign app_root (some saved) ≡ false))
      ⊎ IsAdopted p host loaded.0 sessions saved

  -- What is resumed: a session with an id that is not handled, under way, known to the helper, and
  -- of this page.
  abbrev pub IsRecoverable : Option (List Value) → Value × Option Value → Type 0
  IsRecoverable sessions (saved, server) =
      (truthy (property (codes "id") saved) ≡ true)
      × (is_session_handled p host loaded.0 (property (codes "id") saved) ≡ false)
      × (is_under_way host saved ≡ true)
      × IsKnown p host sessions saved server
      × HasOrigin sessions saved

  kept_or_cleared-own :
      (r : Tab p × Option Value) (saved : Value)
      → (kept_or_cleared p host app_root r).1 ≡ some saved
      → is_foreign app_root (some saved) ≡ false
  unfolding kept_or_cleared
  kept_or_cleared-own (t', v) saved h =
      let dropped : Tab p × Option Value = (clear_session p t', none) in
      elim (Bool-cases (is_foreign app_root v)) [
        | inl foreign ↦ absurd-none (sym (ap (λ x. x.1) (if-eq _ dropped (t', v) foreign)) ∙ h)
        | inr own ↦
            let same : v ≡ some saved = sym (ap (λ x. x.1) (if-else _ dropped (t', v) own)) ∙ h in
            subst (λ w. is_foreign app_root w ≡ false) same own
      ]

  load_own_session-own :
      (saved : Value) → loaded.1 ≡ some saved → is_foreign app_root (some saved) ≡ false
  unfolding load_own_session
  load_own_session-own saved h = kept_or_cleared-own (load_session p t) saved h

  candidate-HasOrigin :
      (sessions : Option (List Value)) (saved : Value)
      → candidate p host loaded.0 (on_this_page host loaded.1) sessions ≡ some saved
      → HasOrigin sessions saved
  unfolding candidate adopted
  candidate-HasOrigin sessions saved h =
      let cached = on_this_page host loaded.1 in
      let found = find_adoptable_server_session p host loaded.0 sessions in
      elim (Bool-cases (truthy (property? (codes "id") cached))) [
        | inl named ↦
            let same : cached ≡ some saved =
              sym (if-eq _ cached (adopted p host found) named) ∙ h in
            let own = on_this_page-IsOwn p host loaded.1 saved named same in
            inl (own, load_own_session-own saved own.0)
        | inr bare ↦
            let same : adopted p host found ≡ some saved =
              sym (if-else _ cached (adopted p host found) bare) ∙ h in
            inr (elim (Option-cases found) [
              | inl nothing ↦ absurd-none (sym (ap (adopted p host) nothing) ∙ same)
              | inr (session, e) ↦
                  let shape : server_session_as_saved_shape host session ≡ saved =
                    some-eq (sym (ap (adopted p host) e) ∙ same) in
                  let (open_, fresh, paged, here) =
                    adoptable-facts p host loaded.0 session
                      (find_adoptable-eq p host loaded.0 sessions session e) in
                  (session, e, sym shape, open_, fresh, paged, here)
            ])
      ]

  resumed-IsRecoverable :
      (sessions : Option (List Value)) (chosen : Option Value) (r : Value × Option Value)
      → ((v : Value) → chosen ≡ some v → HasOrigin sessions v)
      → resumed p host loaded.0 sessions chosen ≡ some r
      → IsRecoverable sessions r
  unfolding resumed
  resumed-IsRecoverable sessions none r origin h = cc
  resumed-IsRecoverable sessions (some v) r origin h =
      let (guards, same) = guarded-eq _ (v, find_active_session_summary host v sessions) r h in
      let named : truthy (property (codes "id") v) ≡ true = ground (arith, guards) in
      subst (IsRecoverable sessions) same (
        named,
        ground (arith, guards),
        ground (arith, guards),
        summary-IsKnown p host sessions v named (ground (arith, guards)),
        origin v refl,
      )

  -- The session that a page without a wrapper resumes has an id, is not handled and is under way;
  -- a helper that reports sessions reports it, not terminal and for this page; and either this
  -- page of this project saved it, or it is adopted from one that the helper reports, which is not
  -- terminal, not handled, and says that it belongs to this page.
  pub choose_session-IsRecoverable :
      (sessions : Option (List Value)) (r : Value × Option Value)
      → (choose_session p host app_root t sessions).1 ≡ some r
      → IsRecoverable sessions r
  unfolding choose_session
  choose_session-IsRecoverable sessions r h =
      resumed-IsRecoverable sessions _ r (candidate-HasOrigin sessions) h
