-- ===== src/Notification/Unique.antt =====
-- The number of notifications of an event, before and after `process`.
use e_commerce_be.Prelude.{
  ℕ, ◌≡◌, refl, ap, ◌≤◌, inl, inr, Bool, none, List, [], ◌∷◌, ◌==◌, find, count, arith, Bool-cases,
  Option-cases,
}
use e_commerce_be.Shared.{Uuid}
use e_commerce_be.Notification.{
  Envelope, Notification, Recipient, invalid, nobody, tells, recipient, answer_to, handle, of_event,
  note_for, is_map,
}
use e_commerce_be.Notification.Consumer.{
  Consumer, Message, Try, Fortune, World, next_backoff, waited, commit_offset, send_letter,
  lettered, dead_letter, told, handle_event, process_message,
}
use e_commerce_be.Notification.Settled.{Answer-cases}

unfoldable pub Once : List Notification → Type 0
Once ns = (id : Uuid) → count (of_event id) ns ≤ 1

count-find :
    (id : Uuid) (ns : List Notification) → find (of_event id) ns ≡ none → count (of_event id) ns ≡ 0
unfolding find count
count-find id [] lost = refl
count-find id (n ∷ ns) lost = ground (arith, count-find id ns)

added-Once :
    (n : Notification) (ns : List Notification)
    → find (of_event n.event_id) ns ≡ none
    → Once ns
    → Once (n ∷ ns)
unfolding Once count
added-Once n ns lost once id = elim (Bool-cases (n.event_id == id)) [
  | inl here ↦
      let p : id ≡ n.event_id = ground arith in
      let zeroth : count (of_event id) ns ≡ 0 = rw p (count-find n.event_id ns lost) in
      ground (arith, here, zeroth)
  | inr away ↦ ground (arith, away, once id)
]

answer_to-Once :
    (r : Recipient) (e : Envelope) (up : Bool) (id : Uuid) (ns : List Notification)
    → Once ns
    → Once (answer_to r e up id ns).1
unfolding answer_to
answer_to-Once invalid e up id ns once = once
answer_to-Once nobody e up id ns once = once
answer_to-Once (tells user status) e up id ns once = elim (Bool-cases (is_map e.payload)) [
  | inr bad ↦ rw (bad, answer_to) once
  | inl good ↦ elim (Bool-cases up) [
    | inr down ↦ rw (good, answer_to) (rw down once)
    | inl there ↦ elim (Option-cases (find (of_event e.event_id) ns)) [
      | inr (n, old) ↦ rw (good, answer_to) (rw there (rw old once))
      | inl new ↦
          rw (good, answer_to)
            (rw there (rw new (added-Once (note_for e user status id) ns new once)))
    ]
  ]
]

commit_offset-notes :
    (c : Consumer) (offset backoff : ℕ) (ts : List Try) (w : World)
    → (commit_offset c offset backoff ts w).1.notes ≡ w.notes
unfolding commit_offset
commit_offset-notes c offset backoff [] w = refl
commit_offset-notes c offset backoff (t ∷ ts) w =
    let rest =
      commit_offset-notes c offset (next_backoff backoff c.max_backoff) ts (waited backoff w) in
    ground (arith, rest)

send_letter-notes :
    (c : Consumer) (offset backoff : ℕ) (ts : List Try) (f : Fortune) (w : World)
    → (send_letter c offset backoff ts f w).1.notes ≡ w.notes
unfolding send_letter
send_letter-notes c offset backoff [] f w = refl
send_letter-notes c offset backoff (t ∷ ts) f w =
    let rest =
      send_letter-notes c offset (next_backoff backoff c.max_backoff) ts f (waited backoff w) in
    let sent =
      commit_offset-notes c offset c.min_backoff f.commits
        (record w { acts = lettered offset ∷ w.acts }) in
    ground (arith, rest, sent)

dead_letter-notes :
    (c : Consumer) (offset : ℕ) (f : Fortune) (w : World)
    → (dead_letter c offset f w).1.notes ≡ w.notes
unfolding dead_letter
dead_letter-notes c offset f w =
    ground (arith, send_letter-notes c offset c.min_backoff f.letters f w)

handle_event-Once :
    (c : Consumer) (offset : ℕ) (e : Envelope) (backoff : ℕ) (ts : List Try) (f : Fortune)
    (w : World)
    → Once w.notes
    → Once (handle_event c offset e backoff ts f w).1.notes
unfolding handle_event
handle_event-Once c offset e backoff [] f w once = once
handle_event-Once c offset e backoff (t ∷ ts) f w once =
    let (answer, ns) = handle e t.up w.next_id w.notes in
    let again = next_backoff backoff c.max_backoff in
    let run = handle_event c offset e backoff (t ∷ ts) f w in
    elim (Answer-cases answer) [
      | inl down ↦ elim (Bool-cases t.timer) [
        | inl more ↦
            let later = handle_event-Once c offset e again ts f (waited backoff w) once in
            let same : run ≡ handle_event c offset e again ts f (waited backoff w) =
              ground (arith, down, more) in
            rw (ap (λ r. r.1.notes) same) later
        | inr over ↦ let same : run.1.notes ≡ w.notes = ground (arith, down, over) in rw same once
      ]
      | inr (inl bad) ↦
          let same : run.1.notes ≡ w.notes = ground (arith, bad, dead_letter-notes c offset f w) in
          rw same once
      | inr (inr (made, good)) ↦
          let kept = commit_offset-notes c offset c.min_backoff f.commits (told c e made ns w) in
          let same : run.1.notes ≡ ns = ground (arith, good, kept) in
          rw same (answer_to-Once (recipient e) e t.up w.next_id w.notes once)
    ]

-- Whatever the servers do while a message is processed, if no event had two notifications before,
-- none has two afterwards.
pub process_message-Once :
    (c : Consumer) (msg : Message) (f : Fortune) (w : World)
    → Once w.notes
    → Once (process_message c msg f w).1.notes
unfolding process_message
process_message-Once c msg f w once = elim (Option-cases msg.envelope) [
  | inl unread ↦
      let same : (process_message c msg f w).1.notes ≡ w.notes =
        ground (arith, unread, dead_letter-notes c msg.offset f w) in
      rw same once
  | inr (e, named) ↦
      let same : process_message c msg f w
          ≡ handle_event c msg.offset e c.min_backoff f.handling f w =
        ground (arith, named) in
      rw (ap (λ r. r.1.notes) same)
        (handle_event-Once c msg.offset e c.min_backoff f.handling f w once)
]
