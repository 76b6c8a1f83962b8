-- ===== src/Notification/Settled.antt =====
-- What `process` did with a message, at each point where it can stand.
use e_commerce_be.Prelude.{
  ℕ, ◌≡◌, refl, ap, ◌∙◌, ◌⊎◌, inl, inr, Bool, true, false, Option, some, List, [], ◌∷◌, find, arith,
  Bool-cases, Option-cases,
}
use e_commerce_be.Shared.{Uuid, is_some}
use e_commerce_be.Notification.{
  Envelope, Notification, Recipient, invalid, nobody, tells, recipient, Answer, failed, bad_event,
  handled, answer_to, handle, of_event,
}
use e_commerce_be.Notification.Consumer.{
  Consumer, Message, Try, Fortune, World, Outcome, finished, stopped, unconfigured, running,
  next_backoff, waited, commit_offset, send_letter, dead_letter, told, handle_event, Act, answered,
  lettered, committed, process_message,
}

abbrev pub is_finished : Outcome → Bool
is_finished finished = true
is_finished stopped = false
is_finished unconfigured = false
is_finished running = false

-- The offsets that were committed.
abbrev pub commits : List Act → List ℕ
commits [] = []
commits (answered e ∷ acts) = commits acts
commits (lettered o ∷ acts) = commits acts
commits (committed o ∷ acts) = o ∷ commits acts

-- The call has not returned nil, and nothing is committed.
abbrev pub Open : Outcome → List Act → World → Type 0
Open out before w' = (is_finished out ≡ false) × (commits w'.acts ≡ commits before)

-- After the acts `before` the message was settled, and then committed: `Handle` noted its event, or the event
-- tells nobody, or its dead letter was written.
pub data Settled (msg : Message) (before : List Act) (w' : World) : Type 0 where
  noted :
      (e : Envelope)
      → msg.envelope ≡ some e
      → is_some (find (of_event e.event_id) w'.notes) ≡ true
      → w'.acts ≡ committed msg.offset ∷ answered e.event_id ∷ before
      → Settled msg before w'
  untold :
      (e : Envelope)
      → msg.envelope ≡ some e
      → recipient e ≡ nobody
      → w'.acts ≡ committed msg.offset ∷ answered e.event_id ∷ before
      → Settled msg before w'
  buried : w'.acts ≡ committed msg.offset ∷ lettered msg.offset ∷ before → Settled msg before w'

commit_ok :
    (c : Consumer) (offset backoff : ℕ) (ts : List Try) (out : Outcome) (w w' : World)
    → commit_offset c offset backoff ts w ≡ (out, w')
    → (((is_finished out ≡ false) × (w'.acts ≡ w.acts))
        ⊎ ((out ≡ finished) × (w'.acts ≡ committed offset ∷ w.acts)))
      × (w'.notes ≡ w.notes)
unfolding commit_offset
commit_ok c offset backoff [] out w w' h =
    let o : out ≡ running = ground arith in (inl (ap is_finished o, ground arith), ground arith)
commit_ok c offset backoff (t ∷ ts) out w w' h = elim (Bool-cases t.up) [
  | inl up ↦ (inr (ground arith, ground arith), ground arith)
  | inr down ↦ elim (Bool-cases t.timer) [
    | inl more ↦
        commit_ok c offset (next_backoff backoff c.max_backoff) ts out (waited backoff w) w'
          (ground arith)
    | inr over ↦
        let o : out ≡ stopped = ground arith in (inl (ap is_finished o, ground arith), ground arith)
  ]
]

-- The dead letter, and what follows it.
abbrev Buried : ℕ → Outcome → List Act → World → Type 0
Buried offset out before w' =
    Open out before w'
    ⊎ ((out ≡ finished) × (w'.acts ≡ committed offset ∷ lettered offset ∷ before))

send_letter_ok :
    (c : Consumer) (offset backoff : ℕ) (ts : List Try) (f : Fortune) (out : Outcome) (w w' : World)
    → send_letter c offset backoff ts f w ≡ (out, w')
    → Buried offset out w.acts w'
unfolding send_letter
send_letter_ok c offset backoff [] f out w w' h =
    let o : out ≡ running = ground arith in
    let same : w'.acts ≡ w.acts = ground arith in inl (ap is_finished o, ap commits same)
send_letter_ok c offset backoff (t ∷ ts) f out w w' h = elim (Bool-cases t.up) [
  | inl up ↦
      let (cases, b) =
        commit_ok c offset c.min_backoff f.commits out
          (record w { acts = lettered offset ∷ w.acts }) w' (ground arith) in
      elim cases [ inl waits ↦ inl (waits.0, ap commits waits.1) | inr closed ↦ inr closed ]
  | inr down ↦ elim (Bool-cases t.timer) [
    | inl more ↦
        send_letter_ok c offset (next_backoff backoff c.max_backoff) ts f out (waited backoff w) w'
          (ground arith)
    | inr over ↦
        let o : out ≡ stopped = ground arith in
        let same : w'.acts ≡ w.acts = ground arith in inl (ap is_finished o, ap commits same)
  ]
]

dead_letter_ok :
    (c : Consumer) (offset : ℕ) (f : Fortune) (out : Outcome) (w w' : World)
    → dead_letter c offset f w ≡ (out, w')
    → Buried offset out w.acts w'
unfolding dead_letter
dead_letter_ok c offset f out w w' h = elim (Bool-cases c.has_dlq) [
  | inl there ↦ send_letter_ok c offset c.min_backoff f.letters f out w w' (ground arith)
  | inr missing ↦
      let o : out ≡ unconfigured = ground arith in
      let same : w'.acts ≡ w.acts = ground arith in inl (ap is_finished o, ap commits same)
]

pub Answer-cases :
    (a : Answer)
    → (a ≡ failed) ⊎ ((a ≡ bad_event) ⊎ ((made : Option Notification) × (a ≡ handled made)))
Answer-cases failed = inl refl
Answer-cases bad_event = inr (inl refl)
Answer-cases (handled made) = inr (inr (made, refl))

-- An event that was handled is noted, or tells nobody.
answer_ok :
    (r : Recipient) (e : Envelope) (up : Bool) (id : Uuid) (ns : List Notification)
    (made : Option Notification)
    → (answer_to r e up id ns).0 ≡ handled made
    → (r ≡ nobody) ⊎ (is_some (find (of_event e.event_id) (answer_to r e up id ns).1) ≡ true)
unfolding answer_to find
answer_ok invalid e up id ns made h = cc
answer_ok nobody e up id ns made h = inl refl
answer_ok (tells user status) e up id ns made h =
    elim (Option-cases (find (of_event e.event_id) ns)) [
      | inl new ↦ inr (ground (arith, new, h))
      | inr (n, old) ↦ inr (ground (arith, old, h))
    ]

handle_ok :
    (e : Envelope) (up : Bool) (id : Uuid) (ns : List Notification) (made : Option Notification)
    → (handle e up id ns).0 ≡ handled made
    → (recipient e ≡ nobody) ⊎ (is_some (find (of_event e.event_id) (handle e up id ns).1) ≡ true)
unfolding handle
handle_ok e up id ns made h = answer_ok (recipient e) e up id ns made h

lettered-Settled :
    (c : Consumer) (msg : Message) (f : Fortune) (out : Outcome) (w w' : World)
    → dead_letter c msg.offset f w ≡ (out, w')
    → Open out w.acts w' ⊎ ((out ≡ finished) × Settled msg w.acts w')
lettered-Settled c msg f out w w' h = elim (dead_letter_ok c msg.offset f out w w' h) [
  | inl waits ↦ inl waits
  | inr (closed, there) ↦ inr (closed, buried there)
]

handle_event-Settled :
    (c : Consumer) (msg : Message) (e : Envelope) (backoff : ℕ) (ts : List Try) (f : Fortune)
    (out : Outcome) (w w' : World)
    → msg.envelope ≡ some e
    → handle_event c msg.offset e backoff ts f w ≡ (out, w')
    → Open out w.acts w' ⊎ ((out ≡ finished) × Settled msg w.acts w')
unfolding handle_event
handle_event-Settled c msg e backoff [] f out w w' named h =
    let o : out ≡ running = ground arith in
    let same : w'.acts ≡ w.acts = ground arith in inl (ap is_finished o, ap commits same)
handle_event-Settled c msg e backoff (t ∷ ts) f out w w' named h =
    let (answer, ns) = handle e t.up w.next_id w.notes in
    let again = next_backoff backoff c.max_backoff in
    elim (Answer-cases answer) [
      | inl down ↦ elim (Bool-cases t.timer) [
        | inl more ↦
            handle_event-Settled c msg e again ts f out (waited backoff w) w' named
              (ground (arith, h, down, more))
        | inr over ↦
            let o : out ≡ stopped = ground (arith, h, down, over) in
            let same : w'.acts ≡ w.acts = ground (arith, h, down, over) in
            inl (ap is_finished o, ap commits same)
      ]
      | inr (inl bad) ↦ lettered-Settled c msg f out w w' (ground (arith, h, bad))
      | inr (inr (made, good)) ↦
          let (cases, kept) =
            commit_ok c msg.offset c.min_backoff f.commits out (told c e made ns w) w'
              (ground (arith, h, good)) in
          elim cases [
            | inl waits ↦ inl (waits.0, ap commits waits.1)
            | inr (closed, done) ↦ inr (
              closed,
              elim (handle_ok e t.up w.next_id w.notes made good) [
                | inl quiet ↦ untold e named quiet done
                | inr there ↦
                    noted e named
                      (ap (λ (xs : List Notification). is_some (find (of_event e.event_id) xs)) kept
                        ∙ there)
                      done
              ],
            )
          ]
    ]

-- However far `process` gets with a message, whatever its servers and the context do: either it has
-- not returned nil and has committed nothing, or it returned nil, its last act was to commit the
-- message, and its only act before that was to settle it: `Handle` returned without an error, and the
-- event is noted or tells nobody, or the dead letter of the message was written.
pub process_message-Settled :
    (c : Consumer) (msg : Message) (f : Fortune) (out : Outcome) (w w' : World)
    → process_message c msg f w ≡ (out, w')
    → Open out w.acts w' ⊎ ((out ≡ finished) × Settled msg w.acts w')
unfolding process_message
process_message-Settled c msg f out w w' h = elim (Option-cases msg.envelope) [
  | inl unread ↦ lettered-Settled c msg f out w w' (ground (arith, h, unread))
  | inr (e, named) ↦
      handle_event-Settled c msg e c.min_backoff f.handling f out w w' named
        (ground (arith, h, named))
]
