-- ===== src/Chat/Append.antt =====
-- The log of a conversation as a list that takes an entry once, which `Send` implements.
use e_commerce_be.Prelude.{
  ℕ, ◌≡◌, refl, ap, ◌∙◌, inl, inr, Bool, true, false, ◌&&◌, none, some, List, [], ◌∷◌, ◌==◌, pos,
  map, find, select, find-update, find_holds, arith, select-hit, select-miss,
}
use e_commerce_be.Shared.{Uuid, ok, text_eq, text_eq_refl, eq_of_text_eq}
use e_commerce_be.Words.{chat_message}
use e_commerce_be.Chat.{
  ChatConversation, ChatMessage, ChatDb, Services, SendInput, limit_rate, live, access, may_access,
  sent_as, in_conversation, conversation_is, with_last, append_message, notify, notified, send,
}
use e_commerce_be.Chat.Log.{insert_message_ok}
use e_commerce_be.Chat.Send.{send-Sent, append_message_ok, notify_ok}

-- One message of the abstract log of a conversation: who sent it, under which key, and the text.
abbrev pub Entry : Type 0
Entry = Uuid × Uuid × List ℕ

abbrev pub entry_of : ChatMessage → Entry
entry_of m = (m.sender_id, m.client_message_id, m.body)

-- The log of a conversation, newest first.
abbrev pub log : Uuid → ChatDb → List Entry
log id db = map entry_of (select (in_conversation id) db.messages)

abbrev keyed_by : Uuid → Uuid → Entry → Bool
keyed_by user client (u, c, b) = u == user && c == client

-- The specification of `Send`: a list that takes an entry once.
unfoldable pub append_once : Entry → List Entry → List Entry
append_once (user, client, body) es = elim (find (keyed_by user client) es) [
  | some e ↦ es
  | none ↦ (user, client, body) ∷ es
]

find_log :
    (id user client : Uuid) (ms : List ChatMessage)
    → find (keyed_by user client) (map entry_of (select (in_conversation id) ms))
      ≡ elim (find (sent_as id user client) ms) [ none ↦ none | some m ↦ some (entry_of m) ]
unfolding find select
find_log id user client [] = refl
find_log id user client (m ∷ ms) = ground (arith, find_log id user client ms)

log_same : (id : Uuid) (db db' : ChatDb) → db'.messages ≡ db.messages → log id db' ≡ log id db
log_same id db db' same = ap (λ ms. map entry_of (select (in_conversation id) ms)) same

log_grown :
    (m : ChatMessage) (id : Uuid) (db db' : ChatDb)
    → db'.messages ≡ m ∷ db.messages
    → ((m.conversation_id == id) ≡ true → log id db' ≡ entry_of m ∷ log id db)
      × ((m.conversation_id == id) ≡ false → log id db' ≡ log id db)
log_grown m id db db' grown =
    let shown = λ (ms : List ChatMessage). map entry_of (select (in_conversation id) ms) in
    (
      λ here.
          ap shown grown ∙ ap (map entry_of) (select-hit (in_conversation id) m db.messages here),
      λ away.
          ap shown grown ∙ ap (map entry_of) (select-miss (in_conversation id) m db.messages away),
    )

-- What a transaction that appended has done to the logs.
abbrev pub Refines : Uuid → SendInput → ChatMessage → ChatDb → ChatDb → Type 0
Refines user i m db db' =
    (entry_of m ≡ (user, i.client_message_id, i.body))
    × (log i.conversation_id db'
        ≡ append_once (user, i.client_message_id, i.body) (log i.conversation_id db))
    × ((id : Uuid) → (i.conversation_id == id) ≡ false → log id db' ≡ log id db)

append_message-Refines :
    (user : Uuid) (i : SendInput) (c : ChatConversation) (m : ChatMessage) (db db' : ChatDb)
    → append_message user i c db ≡ ok (m, db')
    → Refines user i m db db'
unfolding append_once
append_message-Refines user i c m db db' h =
    let kept = find_log i.conversation_id user i.client_message_id db.messages in
    elim (append_message_ok user i c m db db' h) [
      | inl (old, body, same) ↦
          let key =
            find_holds (sent_as i.conversation_id user i.client_message_id) db.messages m old in
          let text = eq_of_text_eq m.body i.body body in
          (
            ground (arith, key, text),
            ground
                (arith, kept, old, log_same i.conversation_id db db' (ap (λ d. d.messages) same)),
            λ id away. log_same id db db' (ap (λ d. d.messages) same),
          )
      | inr (new, room, given, stored) ↦
          let (grown, _, _) = insert_message_ok m db db' stored in
          let longer = (log_grown m i.conversation_id db db' grown).0 (ground (arith, given)) in
          (
            ap entry_of given,
            ground (arith, kept, new, longer, given),
            λ id away. (log_grown m id db db' grown).1 ground (arith, given, away),
          )
    ]

-- A `Send` that succeeds implements `append_once` on the log of its conversation: the answer is the
-- entry that was asked for, an entry whose key is new comes on top of the log, an entry with a known
-- key leaves the log, and the logs of the other conversations stay.
pub send-Refines :
    (s : Services) (user : Uuid) (i : SendInput) (m : ChatMessage) (db db' : ChatDb)
    → send s user i db ≡ ok (m, db')
    → Refines user i m db db'
send-Refines s user i m db db' h =
    let sent = send-Sent s user i m db db' h in
    let (entry, own, others) = append_message-Refines user i sent.row m db sent.db1 sent.appended in
    let (_, same, _, _) = notify_ok s i.conversation_id chat_message sent.db1 db' sent.told in
    (
      entry,
      log_same i.conversation_id sent.db1 db' same ∙ own,
      λ id away. log_same id sent.db1 db' same ∙ others id away,
    )

-- After the transaction the message is found under its key, and the row is there still.
module _ (t : Services) (user : Uuid) (i : SendInput) (c : ChatConversation) (m : ChatMessage)
    (db db' : ChatDb) (h : append_message user i c db ≡ ok (m, db')) where
  message_kept :
      (find (sent_as i.conversation_id user i.client_message_id) db'.messages ≡ some m)
      × (text_eq m.body i.body ≡ true)
  unfolding find
  message_kept = elim (append_message_ok user i c m db db' h) [
    | inl (old, body, same) ↦ rw same (old, body)
    | inr (new, room, given, stored) ↦
        let (grown, _, _) = insert_message_ok m db db' stored in
        let body : text_eq m.body i.body ≡ true =
          ap (λ n. text_eq n.body i.body) given ∙ text_eq_refl i.body in
        (ground (arith, grown, given), body)
  ]

  row_kept :
      find (live i.conversation_id) db.conversations ≡ some c
      → (d : ChatConversation) × (find (live i.conversation_id) db'.conversations ≡ some d)
        × (may_access t user d ≡ may_access t user c)
  row_kept found = elim (append_message_ok user i c m db db' h) [
    | inl (old, body, same) ↦
        (c, ap (λ d. find (live i.conversation_id) d.conversations) same ∙ found, refl)
    | inr (new, room, given, stored) ↦
        let (_, grown, _) = insert_message_ok m db db' stored in
        let kept =
          find-update (live i.conversation_id) (conversation_is m.conversation_id)
            (with_last m.sequence) (λ x. refl) db.conversations in
        (
          with_last m.sequence c,
          ground (
            arith,
            grown,
            kept,
            found,
            given,
            find_holds (live i.conversation_id) db.conversations c found,
          ),
          refl,
        )
  ]

notify_total :
    (s : Services) (id : Uuid) (event : Uuid) (db : ChatDb)
    → (db' : ChatDb) × (notify s id event db ≡ ok (tt, db'))
unfolding notify
notify_total s id event db = (record db { published = notified s id event db }, refl)

access_of :
    (t : Services) (user id : Uuid) (c : ChatConversation) (db : ChatDb)
    → find (live id) db.conversations ≡ some c
    → may_access t user c ≡ ok tt
    → access t user id db ≡ ok (c, db)
unfolding access
access_of t user id c db found member = ground (arith, found, member)

append_again :
    (user : Uuid) (i : SendInput) (c : ChatConversation) (m : ChatMessage) (db : ChatDb)
    → find (sent_as i.conversation_id user i.client_message_id) db.messages ≡ some m
    → text_eq m.body i.body ≡ true
    → append_message user i c db ≡ ok (m, db)
unfolding append_message
append_again user i c m db old body = ground (arith, old, body)

-- A message that was sent is accepted again under the same key and body, by a user who is still
-- active, allowed and a member: the answer is the same message, and neither the messages nor the
-- conversations change.
pub send_idem :
    (s t : Services) (user : Uuid) (i : SendInput) (m : ChatMessage) (db db' : ChatDb)
    → send s user i db ≡ ok (m, db')
    → t.active user ≡ ok tt
    → limit_rate t user 2 (pos 60) db' ≡ ok (tt, db')
    → ((c : ChatConversation) → may_access t user c ≡ may_access s user c)
    → (db'' : ChatDb) × (send t user i db' ≡ ok (m, db''))
      × (db''.messages ≡ db'.messages)
      × (db''.conversations ≡ db'.conversations)
unfolding send
send_idem s t user i m db db' h active allowed same_access =
    let sent = send-Sent s user i m db db' h in
    let (ec, em, _, _) = notify_ok s i.conversation_id chat_message sent.db1 db' sent.told in
    let (old, body) = message_kept t user i sent.row m db sent.db1 sent.appended in
    let (d, found, same) = row_kept t user i sent.row m db sent.db1 sent.appended sent.found in
    let old' = ap (λ ms. find (sent_as i.conversation_id user i.client_message_id) ms) em ∙ old in
    let found' = ap (λ cs. find (live i.conversation_id) cs) ec ∙ found in
    let member : may_access t user d ≡ ok tt = same ∙ (same_access sent.row ∙ sent.member) in
    let (db'', told) = notify_total t i.conversation_id chat_message db' in
    let (fc, fm, _, _) = notify_ok t i.conversation_id chat_message db' db'' told in
    (
      db'',
      ground (
        arith,
        sent.sound,
        active,
        allowed,
        access_of t user i.conversation_id d db' found' member,
        append_again user i d m db' old' body,
        told,
      ),
      fm,
      fc,
    )
