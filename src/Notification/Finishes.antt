-- ===== src/Notification/Finishes.antt =====
-- When the loops of `process` end.
use e_commerce_be.Prelude.{
  ℕ, ◌≡◌, refl, ◌⊎◌, inl, inr, Bool, true, false, List, [], ◌∷◌, arith, Bool-cases, Option-cases,
}
use e_commerce_be.Shared.{Uuid}
use e_commerce_be.Notification.{
  Envelope, Notification, Recipient, invalid, nobody, tells, recipient, failed, answer_to, handle,
}
use e_commerce_be.Notification.Consumer.{
  Consumer, Message, Try, Fortune, World, finished, next_backoff, waited, commit_offset, lettered,
  committed, send_letter, dead_letter, told, handle_event, process_message,
}
use e_commerce_be.Notification.Settled.{Answer-cases}

-- A list of tries in which a call reaches its server, and every wait before that ends by the timer.
unfoldable pub Served : List Try → Type 0
Served [] = ⊥
Served (t ∷ ts) = (t.up ≡ true) ⊎ ((t.timer ≡ true) × Served ts)

commit_finishes :
    (c : Consumer) (offset backoff : ℕ) (ts : List Try) (w : World)
    → Served ts
    → (w' : World) × (commit_offset c offset backoff ts w ≡ (finished, w'))
unfolding commit_offset Served
commit_finishes c offset backoff [] w none_left = elim none_left [ ]
commit_finishes c offset backoff (t ∷ ts) w (inl up) =
    (record w { acts = committed offset ∷ w.acts }, rw up refl)
commit_finishes c offset backoff (t ∷ ts) w (inr (more, served)) = elim (Bool-cases t.up) [
  | inl up ↦ (record w { acts = committed offset ∷ w.acts }, rw up refl)
  | inr down ↦
      let (w', rest) =
        commit_finishes c offset (next_backoff backoff c.max_backoff) ts (waited backoff w)
          served in
      (w', rw down (rw more rest))
]

send_letter_finishes :
    (c : Consumer) (offset backoff : ℕ) (ts : List Try) (f : Fortune) (w : World)
    → Served ts
    → Served f.commits
    → (w' : World) × (send_letter c offset backoff ts f w ≡ (finished, w'))
unfolding send_letter Served
send_letter_finishes c offset backoff [] f w none_left final = elim none_left [ ]
send_letter_finishes c offset backoff (t ∷ ts) f w served final =
    let sent =
      commit_finishes c offset c.min_backoff f.commits
        (record w { acts = lettered offset ∷ w.acts }) final in
    elim (Bool-cases t.up) [
      | inl up ↦ (sent.0, rw up sent.1)
      | inr down ↦ elim served [
        | inl up ↦ (w, cc)
        | inr (more, later) ↦
            let (w', rest) =
              send_letter_finishes c offset (next_backoff backoff c.max_backoff) ts f
                (waited backoff w) later final in
            (w', rw down (rw more rest))
      ]
    ]

dead_letter_finishes :
    (c : Consumer) (offset : ℕ) (f : Fortune) (w : World)
    → c.has_dlq ≡ true
    → Served f.letters
    → Served f.commits
    → (w' : World) × (dead_letter c offset f w ≡ (finished, w'))
unfolding dead_letter
dead_letter_finishes c offset f w there letters commits =
    let (w', sent) = send_letter_finishes c offset c.min_backoff f.letters f w letters commits in
    (w', ground (arith, there, sent))

-- A database that is up does not fail.
answer_up :
    (r : Recipient) (e : Envelope) (id : Uuid) (ns : List Notification)
    → (answer_to r e true id ns).0 ≡ failed
    → ⊥
unfolding answer_to
answer_up invalid e id ns h = cc
answer_up nobody e id ns h = cc
answer_up (tells user status) e id ns h = ground (arith, h)

handle_up :
    (e : Envelope) (up : Bool) (id : Uuid) (ns : List Notification)
    → (handle e up id ns).0 ≡ failed
    → up ≡ false
unfolding handle
handle_up e true id ns h = elim (answer_up (recipient e) e id ns h) [ ]
handle_up e false id ns h = refl

handle_event_finishes :
    (c : Consumer) (offset : ℕ) (e : Envelope) (backoff : ℕ) (ts : List Try) (f : Fortune)
    (w : World)
    → c.has_dlq ≡ true
    → Served ts
    → Served f.letters
    → Served f.commits
    → (w' : World) × (handle_event c offset e backoff ts f w ≡ (finished, w'))
unfolding handle_event Served
handle_event_finishes c offset e backoff [] f w there none_left letters commits = elim none_left [ ]
handle_event_finishes c offset e backoff (t ∷ ts) f w there served letters commits =
    let (answer, ns) = handle e t.up w.next_id w.notes in
    elim (Answer-cases answer) [
      | inl failing ↦
          let down = handle_up e t.up w.next_id w.notes failing in
          elim served [
            | inl up ↦ (w, cc)
            | inr (more, later) ↦
                let (w', rest) =
                  handle_event_finishes c offset e (next_backoff backoff c.max_backoff) ts f
                    (waited backoff w) there later letters commits in
                (w', ground (arith, failing, more, rest))
          ]
      | inr (inl bad) ↦
          let (w', rest) = dead_letter_finishes c offset f w there letters commits in
          (w', ground (arith, bad, rest))
      | inr (inr (made, good)) ↦
          let (w', rest) =
            commit_finishes c offset c.min_backoff f.commits (told c e made ns w) commits in
          (w', ground (arith, good, rest))
    ]

-- With a dead-letter topic, `process` returns nil for every message once each loop has a call that
-- reaches its server, before the context ends.
pub process_message_finishes :
    (c : Consumer) (msg : Message) (f : Fortune) (w : World)
    → c.has_dlq ≡ true
    → Served f.handling
    → Served f.letters
    → Served f.commits
    → (w' : World) × (process_message c msg f w ≡ (finished, w'))
unfolding process_message
process_message_finishes c msg f w there handling letters commits =
    elim (Option-cases msg.envelope) [
      | inl unread ↦
          let (w', rest) = dead_letter_finishes c msg.offset f w there letters commits in
          (w', ground (arith, unread, rest))
      | inr (e, named) ↦
          let (w', rest) =
            handle_event_finishes c msg.offset e c.min_backoff f.handling f w there handling letters
              commits in
          (w', ground (arith, named, rest))
    ]
