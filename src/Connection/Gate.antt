-- ===== src/Connection/Gate.antt =====
-- The order in which messages are posted, and that none is lost.
use nafir.Base.{
  ℕ, ◌+◌, ◌≤◌, ◌≡◌, ◌==◌, ◌⊎◌, inl, inr, Bool, true, false, not, List, [], ◌∷◌, ◌++◌, all, filter,
  append-nil, if◌then◌else◌, arith, refl, ap, sym, ◌∙◌, branch, branch_true, branch_false,
  Bool-cases,
}
use nafir.Connection.{
  Message, Waiting, Channel, Wire, creation, answer, progress, creates, send_event,
  creation_settled, is_open, posts, turn_ended, opened,
}

-- What happens in a tab: a message is to be sent, a creation is answered, a turn ends.
pub data Event : Type 0 where
  sent : Message → Event
  settles : ℕ → Event
  turn : Event

unfoldable pub step : Event → Channel → Channel × List Wire
unfolding send_event creation_settled turn_ended
step (sent m) c = send_event m c
step (settles n) c = creation_settled n c
step turn c = turn_ended c

unfoldable pub run : List Event → Channel → Channel × List Wire
unfolding step
run [] c = (c, [])
run (e ∷ es) c = let (c', out) = step e c in let (c'', later) = run es c' in (c'', out ++ later)

-- The creation with this number is answered, where 0 is none.
abbrev pub IsAnswered : ℕ → List ℕ → Type 0
IsAnswered gate [] = gate ≡ 0
IsAnswered gate (n ∷ seen) = (gate ≡ n) ⊎ IsAnswered gate seen

-- Each message that waited for a creation is posted behind the answer to it; `seen` are the answers
-- so far.
abbrev pub IsOrdered : List ℕ → List Wire → Type 0
IsOrdered seen [] = Unit {0}
IsOrdered seen (creation n m ∷ ws) = IsOrdered seen ws
IsOrdered seen (answer n ∷ ws) = IsOrdered (n ∷ seen) ws
IsOrdered seen (progress w ∷ ws) = IsAnswered w.gate seen × IsOrdered seen ws

-- The messages behind a gate, each with the number of creations that were sent before it.
abbrev pub behind_gates : ℕ → List Event → List Waiting
behind_gates created [] = []
behind_gates created (sent m ∷ es) =
    let later = behind_gates created es in
    let after_creation = behind_gates (created + 1) es in
    if creates m.kind then after_creation else record { gate = created; message = m } ∷ later
behind_gates created (settles n ∷ es) = behind_gates created es
behind_gates created (turn ∷ es) = behind_gates created es

-- How many of the messages have a property.
abbrev pub count : (Waiting → Bool) → List Waiting → ℕ
count p [] = 0
count p (w ∷ ws) = (if p w then 1 else 0) + count p ws

abbrev pub posted : List Wire → List Waiting
posted [] = []
posted (progress w ∷ ws) = w ∷ posted ws
posted (_ ∷ ws) = posted ws

open-IsAnswered : (seen : List ℕ) (w : Waiting) → is_open seen w ≡ true → IsAnswered w.gate seen
open-IsAnswered [] w h = ground (arith, h)
open-IsAnswered (n ∷ seen) w h = elim (Bool-cases (w.gate == n)) [
  | inl same ↦ inl (ground (arith, same))
  | inr differ ↦ inr (open-IsAnswered seen w (ground (arith, h, differ)))
]

posts-IsOrdered :
    (seen : List ℕ) (ws : List Waiting) (rest : List Wire)
    → IsOrdered seen rest
    → IsOrdered seen (posts (filter (is_open seen) ws) ++ rest)
posts-IsOrdered seen [] rest h = h
posts-IsOrdered seen (w ∷ ws) rest h = elim (Bool-cases (is_open seen w)) [
  | inl o ↦
      branch_true (λ (xs : List Waiting). IsOrdered seen (posts xs ++ rest)) (is_open seen w) _ o
        (open-IsAnswered seen w o, posts-IsOrdered seen ws rest h)
  | inr o ↦
      branch_false (λ (xs : List Waiting). IsOrdered seen (posts xs ++ rest)) (is_open seen w) _ o
        (posts-IsOrdered seen ws rest h)
]

waits_open : (es : List Event) (c : Channel) → IsOrdered c.settled (run es c).1
unfolding run step send_event creation_settled turn_ended
waits_open [] c = tt
waits_open (sent m ∷ es) c =
    branch (λ (r : Channel × List Wire). IsOrdered c.settled (r.1 ++ (run es r.0).1))
      (creates m.kind) (waits_open es (record c { created = c.created + 1 }))
      (waits_open es
        (record c { waiting = c.waiting ++ record { gate = c.created; message = m } ∷ [] }))
waits_open (settles n ∷ es) c = waits_open es (creation_settled n c).0
waits_open (turn ∷ es) c =
    posts-IsOrdered c.settled c.waiting (run es (turn_ended c).0).1 (waits_open es (turn_ended c).0)

-- The creations that are sent, in their order, each with its number.
abbrev pub creations_of : ℕ → List Event → List (ℕ × Message)
creations_of created [] = []
creations_of created (sent m ∷ es) =
    let later = creations_of created es in
    let counted = creations_of (created + 1) es in
    if creates m.kind then (created + 1, m) ∷ counted else later
creations_of created (settles n ∷ es) = creations_of created es
creations_of created (turn ∷ es) = creations_of created es

-- The creations that are posted.
abbrev pub posted_creations : List Wire → List (ℕ × Message)
posted_creations [] = []
posted_creations (creation n m ∷ ws) = (n, m) ∷ posted_creations ws
posted_creations (_ ∷ ws) = posted_creations ws

posted_creations-posts :
    (xs : List Waiting) (ws : List Wire) → posted_creations (posts xs ++ ws) ≡ posted_creations ws
posted_creations-posts [] ws = refl
posted_creations-posts (x ∷ xs) ws = posted_creations-posts xs ws

count-append :
    (p : Waiting → Bool) (xs ys : List Waiting) → count p (xs ++ ys) ≡ count p xs + count p ys
count-append p [] ys = omega arith
count-append p (x ∷ xs) ys = omega (arith, count-append p xs ys)

count-filter :
    (p q : Waiting → Bool) (ws : List Waiting)
    → count p (filter q ws) + count p (filter (λ w. not (q w)) ws) ≡ count p ws
count-filter p q [] = omega arith
count-filter p q (w ∷ ws) = ground (arith, count-filter p q ws)

posted-posts : (xs : List Waiting) (ws : List Wire) → posted (posts xs ++ ws) ≡ xs ++ posted ws
posted-posts [] ws = refl
posted-posts (x ∷ xs) ws = ap (λ l. x ∷ l) (posted-posts xs ws)

posted-append : (xs ys : List Wire) → posted (xs ++ ys) ≡ posted xs ++ posted ys
posted-append [] ys = refl
posted-append (creation n m ∷ xs) ys = posted-append xs ys
posted-append (answer n ∷ xs) ys = posted-append xs ys
posted-append (progress w ∷ xs) ys = ap (λ l. w ∷ l) (posted-append xs ys)

-- Two conditionals on one test.
both :
    {A : Type 0} (P : Channel × List Wire → A → Type 0) (b : Bool) {x x' : Channel × List Wire}
    {y y' : A}
    → P x y
    → P x' y'
    → P (if b then x else x') (if b then y else y')
both P true h k = h
both P false h k = k

-- What is posted and what waits is what waited and what was sent.
run-count :
    (p : Waiting → Bool) (es : List Event) (c : Channel)
    → count p (posted (run es c).1) + count p (run es c).0.waiting
      ≡ count p c.waiting + count p (behind_gates c.created es)
unfolding run step send_event creation_settled turn_ended
run-count p [] c = omega arith
run-count p (sent m ∷ es) c =
    let w : Waiting = record { gate = c.created; message = m } in
    let created : Channel = record c { created = c.created + 1 } in
    let queued : Channel = record c { waiting = c.waiting ++ w ∷ [] } in
    both
      (λ (r : Channel × List Wire) (ws : List Waiting).
        count p (posted (r.1 ++ (run es r.0).1)) + count p (run es r.0).0.waiting
        ≡ count p c.waiting + count p ws)
      (creates m.kind) (run-count p es created)
      (omega (arith, run-count p es queued, count-append p c.waiting (w ∷ [])))
run-count p (settles n ∷ es) c = run-count p es (creation_settled n c).0
run-count p (turn ∷ es) c =
    let rest = run es (turn_ended c).0 in
    let open_ = filter (is_open c.settled) c.waiting in
    let out = ap (count p) (posted-posts open_ rest.1) ∙ count-append p open_ (posted rest.1) in
    omega
      (arith, out, run-count p es (turn_ended c).0, count-filter p (is_open c.settled) c.waiting)

posted_creations-append :
    (ws : List Wire) (xs : List Waiting) → posted_creations (ws ++ posts xs) ≡ posted_creations ws
posted_creations-append [] [] = refl
posted_creations-append [] (x ∷ xs) = posted_creations-append [] xs
posted_creations-append (creation n m ∷ ws) xs =
    ap (λ l. (n, m) ∷ l) (posted_creations-append ws xs)
posted_creations-append (answer n ∷ ws) xs = posted_creations-append ws xs
posted_creations-append (progress w ∷ ws) xs = posted_creations-append ws xs

-- Every creation is posted when it is sent.
run-creations :
    (es : List Event) (c : Channel) → posted_creations (run es c).1 ≡ creations_of c.created es
unfolding run step send_event creation_settled turn_ended
run-creations [] c = refl
run-creations (sent m ∷ es) c =
    both
      (λ (r : Channel × List Wire) (ms : List (ℕ × Message)).
        posted_creations (r.1 ++ (run es r.0).1) ≡ ms)
      (creates m.kind)
      (ap (λ l. (c.created + 1, m) ∷ l) (run-creations es (record c { created = c.created + 1 })))
      (run-creations es
        (record c { waiting = c.waiting ++ record { gate = c.created; message = m } ∷ [] }))
run-creations (settles n ∷ es) c = run-creations es (creation_settled n c).0
run-creations (turn ∷ es) c =
    posted_creations-posts (filter (is_open c.settled) c.waiting) (run es (turn_ended c).0).1
    ∙ run-creations es (turn_ended c).0

-- Whatever is sent, answered and run in whatever order: the creations are posted at once, in the
-- order in which they are sent, with their numbers; a message that is no creation is posted as often
-- as it was sent at most, with the number of the creations that were sent before it; and that only
-- behind the answer to the last of these.
pub run-IsOrdered :
    (p : Waiting → Bool) (es : List Event)
    → (posted_creations (run es opened).1 ≡ creations_of 0 es)
      × (count p (posted (run es opened).1) ≤ count p (behind_gates 0 es))
      × IsOrdered [] (run es opened).1
run-IsOrdered p es =
    (run-creations es opened, omega (arith, run-count p es opened), waits_open es opened)

none_shut :
    (p q : Waiting → Bool) (ws : List Waiting)
    → all q ws ≡ true
    → count p (filter (λ w. not (q w)) ws) ≡ 0
none_shut p q [] h = refl
none_shut p q (w ∷ ws) h = ground (arith, h, none_shut p q ws)

-- Whatever is sent, answered and run in whatever order: if by then no message waits for a creation
-- that is not answered, the end of the turn has posted each creation that was sent, in their order,
-- and each other message as often as it was sent, with the number of the creations that were sent
-- before it, and nothing else.
pub run-turn-count :
    (p : Waiting → Bool) (es : List Event)
    → all (is_open (run es opened).0.settled) (run es opened).0.waiting ≡ true
    → (let out = (run es opened).1 ++ (turn_ended (run es opened).0).1 in
        (posted_creations out ≡ creations_of 0 es)
        × (count p (posted out) ≡ count p (behind_gates 0 es)))
unfolding turn_ended
run-turn-count p es h =
    let (c, out) = run es opened in
    let open_ = filter (is_open c.settled) c.waiting in
    let last : posted (posts open_) ≡ open_ =
      ap posted (sym (append-nil (posts open_))) ∙ posted-posts open_ [] ∙ append-nil open_ in
    let all_posted : count p (posted (out ++ posts open_)) ≡ count p (posted out) + count p open_ =
      ap (count p) (posted-append out (posts open_))
      ∙ count-append p (posted out) (posted (posts open_))
      ∙ ap (λ l. count p (posted out) + count p l) last in
    (
      posted_creations-append out open_ ∙ run-creations es opened,
      omega (
        arith,
        all_posted,
        run-count p es opened,
        count-filter p (is_open c.settled) c.waiting,
        none_shut p (is_open c.settled) c.waiting h,
      ),
    )
