-- ===== src/Chat/History.antt =====
-- Histories of `Open`, `Send`, `Read` and `Typing`.
use e_commerce_be.Prelude.{
  ◌≡◌, refl, sym, ap, ◌∙◌, inl, inr, some, ◌==◌, ℤ, pos, find, update, arith, Bool-cases,
  Option-cases,
}
use e_commerce_be.Shared.{Uuid, ok}
use e_commerce_be.Words.{chat_message, chat_typing}
use e_commerce_be.Tx.{⊤, ◌>>◌, bind_ok}
use e_commerce_be.Chat.{
  ChatConversation, ChatMessage, ChatRead, ChatDb, Chat, Services, SendInput, conversation_is,
  access, notify, send, open_conversation, insert_conversation, append_message, insert_message,
  with_last, between,
}
use e_commerce_be.Chat.Reads.{read_of, read, typing}
use e_commerce_be.Chat.Log.{
  IsNumbered, insert_conversation-IsNumbered, own_row, other_row, insert_message_ok, next_above,
  distinct,
}
use e_commerce_be.Chat.Send.{
  send-Sent, guarded_ok, access_ok, notify_ok, append_message_ok, send-IsNumbered,
  open_conversation_ok,
}
use e_commerce_be.Chat.Positions.{
  same_row, Rises, Grows, Bounded, read-Seen, read-Rises, read-Bounded,
}

-- A call that succeeded.
pub data Step : ChatDb → ChatDb → Type 0 where
  opened :
      (s : Services) (user seller : Uuid) (c : ChatConversation) {db db' : ChatDb}
      → open_conversation s user seller db ≡ ok (c, db')
      → Step db db'
  sent :
      (s : Services) (user : Uuid) (i : SendInput) (m : ChatMessage) {db db' : ChatDb}
      → send s user i db ≡ ok (m, db')
      → Step db db'
  seen :
      (s : Services) (user id : Uuid) (seq : ℤ) (v : ChatRead) {db db' : ChatDb}
      → read s user id seq db ≡ ok (v, db')
      → Step db db'
  typed :
      (s : Services) (user id : Uuid) {db db' : ChatDb}
      → typing s user id db ≡ ok (tt, db')
      → Step db db'

pub data Steps : ChatDb → ChatDb → Type 0 where
  stay : {db : ChatDb} → Steps db db
  next : {db db1 db' : ChatDb} → Step db db1 → Steps db1 db' → Steps db db'

-- A call that leaves the read positions and takes no number back.
grown-Bounded : (db db' : ChatDb) → db'.reads ≡ db.reads → Grows db db' → Bounded db → Bounded db'
unfolding Bounded Grows
grown-Bounded db db' same grows bounded k u r e =
    let (c, found, le) = bounded k u r (sym (ap (find (read_of k u)) same) ∙ e) in
    let (c', found', le') = grows k c found in (c', found', ground arith)

same-Grows : (db db' : ChatDb) → db'.conversations ≡ db.conversations → Grows db db'
unfolding Grows
same-Grows db db' same k c found = (c, ap (find (conversation_is k)) same ∙ found, ground arith)

typing_ok :
    (s : Services) (user id : Uuid) (db db' : ChatDb)
    → typing s user id db ≡ ok (tt, db')
    → (db'.conversations ≡ db.conversations)
      × (db'.messages ≡ db.messages)
      × (db'.reads ≡ db.reads)
      × (db'.next_id ≡ db.next_id)
unfolding typing
typing_ok s user id db db' h =
    let tell : Chat ⊤ = notify s id chat_typing in
    let (_, _, _, h3) = guarded_ok s user (id == 0) 4 (pos 20) (access s user id >> tell) db h in
    let (c, d4, e4, h4) = bind_ok (λ _. tell) (access s user id) db h3 in
    let (_, _, same) = access_ok s user id c db d4 e4 in
    notify_ok s id chat_typing db db' (ap tell (sym same) ∙ h4)

insert_conversation-Grows :
    (buyer seller : Uuid) (db db' : ChatDb)
    → IsNumbered db
    → insert_conversation buyer seller db ≡ ok (tt, db')
    → Grows db db'
unfolding insert_conversation Grows find
insert_conversation-Grows buyer seller db db' inv h k c found =
    elim (Option-cases (find (between buyer seller) db.conversations)) [
      | inr (o, e) ↦ (c, ground (arith, e), ground arith)
      | inl e ↦ (
        c,
        ground (
          arith,
          e,
          inv.unused db.next_id (omega arith),
          distinct db.conversations k db.next_id found (inv.unused db.next_id (omega arith)),
        ),
        ground arith,
      )
    ]

insert_message-reads :
    (m : ChatMessage) (db db' : ChatDb) → insert_message m db ≡ ok (tt, db') → db'.reads ≡ db.reads
unfolding insert_message
insert_message-reads m db db' h = ground arith

append_message-Grows :
    (user : Uuid) (i : SendInput) (c : ChatConversation) (m : ChatMessage) (db db' : ChatDb)
    → IsNumbered db
    → find (conversation_is i.conversation_id) db.conversations ≡ some c
    → append_message user i c db ≡ ok (m, db')
    → (db'.reads ≡ db.reads) × Grows db db'
unfolding Grows
append_message-Grows user i c m db db' inv row h = elim (append_message_ok user i c m db db' h) [
  | inl (old, body, same) ↦ (ground arith, same-Grows db db' (ap (λ d. d.conversations) same))
  | inr (new, room, given, stored) ↦
      let (_, grown, _) = insert_message_ok m db db' stored in
      let grown' : db'.conversations
          ≡ update (conversation_is i.conversation_id) (with_last m.sequence) db.conversations =
        grown
        ∙ ap
            (λ (x : ChatMessage).
              update (conversation_is x.conversation_id) (with_last m.sequence) db.conversations)
            given in
      let (n, last, bound, _) = inv.numbered i.conversation_id c row in
      let above = next_above c.last_sequence n last bound room in
      (
        insert_message-reads m db db' stored,
        λ k o found. elim (Bool-cases (i.conversation_id == k)) [
          | inl here ↦
              let p : k ≡ i.conversation_id = ground arith in
              let oc = same_row db.conversations k i.conversation_id o c p found row in
              (
                with_last m.sequence c,
                ap (λ x. find (conversation_is x) db'.conversations) p
                    ∙ (ap (find (conversation_is i.conversation_id)) grown'
                        ∙ own_row i.conversation_id m.sequence db.conversations c row),
                ground (arith, oc, given, above),
              )
          | inr away ↦ (
            o,
            ap (find (conversation_is k)) grown'
                ∙ (other_row i.conversation_id m.sequence db.conversations k away ∙ found),
            ground arith,
          )
        ],
      )
]

send-Grows :
    (s : Services) (user : Uuid) (i : SendInput) (m : ChatMessage) (db db' : ChatDb)
    → IsNumbered db
    → send s user i db ≡ ok (m, db')
    → (db'.reads ≡ db.reads) × Grows db db'
unfolding Grows
send-Grows s user i m db db' inv h =
    let sent = send-Sent s user i m db db' h in
    let (nc, _, nr, _) = notify_ok s i.conversation_id chat_message sent.db1 db' sent.told in
    let row = inv.keyed i.conversation_id sent.row sent.found in
    let (reads, grows) = append_message-Grows user i sent.row m db sent.db1 inv row sent.appended in
    (
      nr ∙ reads,
      λ k c found.
          let (c', found', le) = grows k c found in
          (c', ap (find (conversation_is k)) nc ∙ found', le),
    )

insert_conversation-reads :
    (buyer seller : Uuid) (db db' : ChatDb)
    → insert_conversation buyer seller db ≡ ok (tt, db')
    → db'.reads ≡ db.reads
unfolding insert_conversation
insert_conversation-reads buyer seller db db' h =
    elim (Option-cases (find (between buyer seller) db.conversations)) [
      | inl e ↦ ground arith
      | inr (c, e) ↦ ground arith
    ]

pub Step-IsSound :
    (db db' : ChatDb) → Step db db' → IsNumbered db → Bounded db → IsNumbered db' × Bounded db'
Step-IsSound db db' (opened s user seller c h) inv bounded =
    let h' = open_conversation_ok s user seller c db db' h in
    (
      insert_conversation-IsNumbered user seller db db' inv h',
      grown-Bounded db db' (insert_conversation-reads user seller db db' h')
          (insert_conversation-Grows user seller db db' inv h') bounded,
    )
Step-IsSound db db' (sent s user i m h) inv bounded =
    let (reads, grows) = send-Grows s user i m db db' inv h in
    (send-IsNumbered s user i m db db' h inv, grown-Bounded db db' reads grows bounded)
Step-IsSound db db' (seen s user id seq v h) inv bounded =
    let was = read-Seen s user id seq v db db' h in
    (
      rw was.conversations (rw was.messages (rw was.next_id inv)),
      read-Bounded s user id seq v db db' h inv bounded,
    )
Step-IsSound db db' (typed s user id h) inv bounded =
    let (ec, em, er, en) = typing_ok s user id db db' h in
    (rw ec (rw em (rw en inv)), grown-Bounded db db' er (same-Grows db db' ec) bounded)

-- After any history of calls that succeeded, from a state where it was so, the messages of each
-- conversation are numbered from 1 to its `last_sequence` without a gap, and every read position is
-- of an existing conversation and at most its `last_sequence`.
pub Steps-IsSound :
    (db db' : ChatDb) → Steps db db' → IsNumbered db → Bounded db → IsNumbered db' × Bounded db'
Steps-IsSound db db' stay inv bounded = (inv, bounded)
Steps-IsSound db db' (next {db1 = mid} step rest) inv bounded =
    let (inv', bounded') = Step-IsSound db mid step inv bounded in
    Steps-IsSound mid db' rest inv' bounded'

Rises-trans : (a b c : ChatDb) → Rises a b → Rises b c → Rises a c
unfolding Rises
Rises-trans a b c f g k u r e =
    let (r', e', le) = f k u r e in let (r'', e'', le') = g k u r' e' in (r'', e'', ground arith)

same-Rises : (db db' : ChatDb) → db'.reads ≡ db.reads → Rises db db'
unfolding Rises
same-Rises db db' same k u r e = (r, ap (find (read_of k u)) same ∙ e, ground arith)

Step-Rises : (db db' : ChatDb) → Step db db' → IsNumbered db → Rises db db'
Step-Rises db db' (opened s user seller c h) inv =
    same-Rises db db'
      (insert_conversation-reads user seller db db' (open_conversation_ok s user seller c db db' h))
Step-Rises db db' (sent s user i m h) inv =
    let (same, _) = send-Grows s user i m db db' inv h in same-Rises db db' same
Step-Rises db db' (seen s user id seq v h) inv = read-Rises s user id seq v db db' h
Step-Rises db db' (typed s user id h) inv =
    let (_, _, same, _) = typing_ok s user id db db' h in same-Rises db db' same

-- Over any history from a sound state, a user who has a read position in a conversation keeps one,
-- and it is never lowered.
pub Steps-Rises : (db db' : ChatDb) → Steps db db' → IsNumbered db → Bounded db → Rises db db'
Steps-Rises db db' stay inv bounded = same-Rises db db' refl
Steps-Rises db db' (next {db1 = mid} step rest) inv bounded =
    let (inv', bounded') = Step-IsSound db mid step inv bounded in
    Rises-trans db mid db' (Step-Rises db mid step inv) (Steps-Rises mid db' rest inv' bounded')
