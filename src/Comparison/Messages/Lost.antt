-- ===== src/Comparison/Messages/Lost.antt =====
-- The loss of the connection to the helper.
use nafir.Base.{
  ◌≡◌, Bool, true, false, List, [], ◌∷◌, ◌++◌, any, any-append, if◌then◌else◌, arith, refl,
  is_empty, branch_false,
}
use nafir.Target.Tab.{LiveState}
use nafir.Comparison.{Live, Effect, save}
use nafir.Comparison.Messages.{handle_server_lost, lost_toast}

abbrev pub is_save : Effect → Bool
is_save save = true
is_save _ = false

any-last : (p : Effect → Bool) (xs ys : List Effect) → any p ys ≡ true → any p (xs ++ ys) ≡ true
any-last p xs ys h = ground (arith, any-append p xs ys, h)

-- The loss of the connection leaves a session as it is, and saves it.
pub handle_server_lost-keeps :
    (t : Live)
    → is_empty t.session ≡ false
    → ((handle_server_lost t).0 ≡ t) × (any is_save (handle_server_lost t).1 ≡ true)
unfolding handle_server_lost
handle_server_lost-keeps t h = (
  branch_false (λ (s : LiveState). record t { state = s } ≡ t) (is_empty t.session) _ h refl,
  any-last is_save (lost_toast t.state) (if is_empty t.session then [] else save ∷ [])
      (branch_false (λ (es : List Effect). any is_save es ≡ true) (is_empty t.session) [] h refl),
)
