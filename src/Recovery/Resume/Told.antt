-- ===== src/Recovery/Resume/Told.antt =====
-- What a resume with a wrapper sends to the helper, and the index of the visible variant.
use nafir.Base.{
  ℕ, zero, suc, ◌≤◌, ◌<◌, ◌≡◌, Bool, true, false, ◌&&◌, ◌||◌, Option, none, some, List, [], ◌∷◌,
  ◌++◌, if◌then◌else◌, ltb, Text, codes, text_eq, arith, refl, sym, ◌∙◌, branch, branch_by,
}
use nafir.Value.{Value}
use nafir.Recovery.Summary.{property?}
use nafir.Recovery.State.{Outside, Counters, first_index, number_of}
use nafir.Recovery.Resume.{Wrapper, Effect, hide_shader, send}
use nafir.Recovery.Resume.Start.{
  index_within, is_reached, is_below, is_saved, when, wrapper_counters, reported, wrapper_effects,
}

-- Whether a checkpoint of this kind is sent, and whether the shader is hidden.
abbrev pub is_sent : Text → List Effect → Bool
is_sent k [] = false
is_sent k (send j ∷ es) = text_eq j k || is_sent k es
is_sent k (_ ∷ es) = is_sent k es

abbrev pub is_shown : List Effect → Bool
is_shown [] = false
is_shown (hide_shader ∷ es) = true
is_shown (_ ∷ es) = is_shown es

is_sent-append : (k : Text) (a b : List Effect) → is_sent k (a ++ b) ≡ (is_sent k a || is_sent k b)
is_sent-append k [] b = refl
is_sent-append k (send j ∷ es) b = ground (arith, is_sent-append k es b)
is_sent-append k (_ ∷ es) b = is_sent-append k es b

is_sent-when :
    (k : Text) (b : Bool) (es : List Effect) → is_sent k (when b es) ≡ (b && is_sent k es)
is_sent-when k true es = refl
is_sent-when k false es = refl

is_shown-append : (a b : List Effect) → is_shown (a ++ b) ≡ (is_shown a || is_shown b)
is_shown-append [] b = refl
is_shown-append (hide_shader ∷ es) b = refl
is_shown-append (_ ∷ es) b = is_shown-append es b

is_shown-when : (b : Bool) (es : List Effect) → is_shown (when b es) ≡ (b && is_shown es)
is_shown-when true es = refl
is_shown-when false es = refl

abbrev pub ready : Text
ready = codes "variants_ready"

abbrev pub progress : Text
progress = codes "variants_progress"

below-unreached : (n : ℕ) (e : Option ℕ) → is_below n e ≡ true → is_reached n e ≡ false
below-unreached n none h = refl
below-unreached n (some e) h = ground (arith, h)

pub is_sent-ready :
    (reason : Text) (n : ℕ) (e : Option ℕ)
    → is_sent ready (reported reason n e) ≡ (ltb 0 n && is_reached n e)
unfolding reported
is_sent-ready reason n e =
    branch_by (λ (r : List Effect). is_sent ready r ≡ (ltb 0 n && is_reached n e))
      (ltb 0 n && is_below n e) (λ below. ground (arith, below, below-unreached n e))
      (λ not_below. is_sent-when ready (ltb 0 n && is_reached n e) (send ready ∷ []) ∙ ground arith)

pub is_sent-progress :
    (reason : Text) (n : ℕ) (e : Option ℕ)
    → is_sent progress (reported reason n e) ≡ (ltb 0 n && is_below n e)
unfolding reported
is_sent-progress reason n e =
    branch_by (λ (r : List Effect). is_sent progress r ≡ (ltb 0 n && is_below n e))
      (ltb 0 n && is_below n e) (λ below. sym below)
      (λ not_below.
        is_sent-when progress (ltb 0 n && is_reached n e) (send ready ∷ [])
        ∙ ground (arith, not_below))

is_shown-reported : (reason : Text) (n : ℕ) (e : Option ℕ) → is_shown (reported reason n e) ≡ false
unfolding reported
is_shown-reported reason n e =
    branch (λ (r : List Effect). is_shown r ≡ false) (ltb 0 n && is_below n e) refl
      (is_shown-when (ltb 0 n && is_reached n e) (send ready ∷ []) ∙ ground arith)

index_within-le : (v : Option ℕ) (m : ℕ) → index_within v (some m) ≤ m
index_within-le none m = omega arith
index_within-le (some n) m = ground arith

first_index-range :
    (k m n : ℕ)
    → k ≤ n
    → m ≤ n
    → (0 < n → 0 < m)
    → (first_index k m ≤ n) × (0 < n → 0 < first_index k m)
first_index-range zero m n hk hm pos = (hm, pos)
first_index-range (suc k) m n hk hm pos = (hk, λ h. omega arith)

pub visible-wrapper_counters :
    (o : Outside) (e : Option ℕ) (n : ℕ) (saved : Option Value) (id : Text)
    → ((wrapper_counters o e n saved id).visible ≤ n)
      × (0 < n → 0 < (wrapper_counters o e n saved id).visible)
unfolding wrapper_counters
visible-wrapper_counters o e n saved id =
    let first = if ltb 0 n then 1 else 0 in
    let own = number_of o (property? (codes "visible") saved) in
    let low : first ≤ n = ground arith in
    let pos : 0 < n → 0 < first = ground arith in
    branch (λ (v : ℕ). (v ≤ n) × (0 < n → 0 < v)) (is_saved saved id)
      (first_index-range (index_within own (some n)) first n (index_within-le own n) low pos)
      (low, pos)

pub is_sent-wrapper_effects :
    (k reason : Text) (w : Wrapper) (n : Counters) (unsettled : Bool)
    → is_sent k (wrapper_effects reason w n unsettled)
      ≡ is_sent k (reported reason w.children n.expected)
unfolding wrapper_effects
is_sent-wrapper_effects k reason w n unsettled = simp (is_sent-append, is_sent-when) (ground arith)

pub is_shown-wrapper_effects :
    (reason : Text) (w : Wrapper) (n : Counters) (unsettled : Bool)
    → is_shown (wrapper_effects reason w n unsettled) ≡ ltb 0 w.children
unfolding wrapper_effects
is_shown-wrapper_effects reason w n unsettled =
    simp (is_shown-append, is_shown-when, is_shown-reported) (ground arith)
