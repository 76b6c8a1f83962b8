-- ===== src/Chat/Send.antt =====
-- What `Open` and `Send` do to the log of each conversation.
use e_commerce_be.Prelude.{
  ℕ, ◌≡◌, refl, sym, ap, ◌∙◌, ◌⊎◌, inl, inr, Bool, true, false, not, ◌&&◌, ◌||◌, none, some, ◌==◌,
  ◌==ℤ◌, ℤ, pos, find, arith,
}
use e_commerce_be.Shared.{Uuid, Result, ok, err, invalid, not_found, is_some, text_eq}
use e_commerce_be.Words.{approved, chat_message}
use e_commerce_be.Tx.{⊤, ◌>>=◌, ◌>>◌, bind_ok, raise_if_ok, raise_if, lift, first, pure}
use e_commerce_be.Chat.{
  ChatConversation, ChatMessage, ChatDb, Chat, Services, SendInput, limit_rate, live, access,
  may_access, between, insert_conversation, open_conversation, bad_send, sent_as, insert_message,
  next_message, append_message, max_int64, notify, send,
}
use e_commerce_be.Chat.Log.{IsNumbered, insert_message-IsNumbered}

pub lift_ok :
    {A : Type 0} (r : Result A) (db : ChatDb) {x : A × ChatDb}
    → lift r db ≡ ok x
    → (a : A) × (r ≡ ok a) × (x ≡ (a, db))
lift_ok (ok a) db h = (a, refl, cc)
lift_ok (err e) db h = cc

pub limit_rate_ok :
    (s : Services) (user : Uuid) (kind : ℕ) (n : ℤ) (db db' : ChatDb)
    → limit_rate s user kind n db ≡ ok (tt, db')
    → db' ≡ db
unfolding limit_rate
limit_rate_ok s user kind n db db' h = ground arith

-- A conversation that `access` gives is a live row, and nothing is written.
pub access_ok :
    (s : Services) (user id : Uuid) (c : ChatConversation) (db db' : ChatDb)
    → access s user id db ≡ ok (c, db')
    → (find (live id) db.conversations ≡ some c) × (may_access s user c ≡ ok tt) × (db' ≡ db)
unfolding access
access_ok s user id c db db' h = ground arith

-- `notify` only publishes.
pub notify_ok :
    (s : Services) (id : Uuid) (event : ℕ) (db db' : ChatDb)
    → notify s id event db ≡ ok (tt, db')
    → (db'.conversations ≡ db.conversations)
      × (db'.messages ≡ db.messages)
      × (db'.reads ≡ db.reads)
      × (db'.next_id ≡ db.next_id)
unfolding notify
notify_ok s id event db db' h = ground arith

pub append_message_ok :
    (user : Uuid) (i : SendInput) (c : ChatConversation) (m : ChatMessage) (db db' : ChatDb)
    → append_message user i c db ≡ ok (m, db')
    → ((find (sent_as i.conversation_id user i.client_message_id) db.messages ≡ some m)
        × (text_eq m.body i.body ≡ true)
        × (db' ≡ db))
      ⊎ ((find (sent_as i.conversation_id user i.client_message_id) db.messages ≡ none)
          × ((c.last_sequence ==ℤ max_int64) ≡ false)
          × (m ≡ next_message user i c)
          × (insert_message m db ≡ ok (tt, db')))
unfolding append_message
append_message_ok user i c m db db' h = ground arith

-- The checks that `Open`, `Send`, `Read` and `Typing` start with.
pub guarded_ok :
    {A : Type 0} (s : Services) (user : Uuid) (test : Bool) (kind : ℕ) (n : ℤ) (rest : Chat A)
    (db : ChatDb) {x : A × ChatDb}
    → (raise_if test invalid >> (lift (s.active user) >> (limit_rate s user kind n >> rest))) db
      ≡ ok x
    → (test ≡ false)
      × (s.active user ≡ ok tt)
      × (limit_rate s user kind n db ≡ ok (tt, db))
      × (rest db ≡ ok x)
guarded_ok s user test kind n rest db h =
    let limit : Chat ⊤ = limit_rate s user kind n in
    let ask : Chat ⊤ = lift (s.active user) in
    let (_, d1, e1, h1) = bind_ok (λ _. ask >> (limit >> rest)) (raise_if test invalid) db h in
    let (sound, s1) = raise_if_ok test invalid db e1 in
    let (_, d2, e2, h2) = bind_ok (λ _. limit >> rest) ask d1 h1 in
    let (_, active, s2) = lift_ok (s.active user) d1 e2 in
    let (_, d3, e3, h3) = bind_ok (λ _. rest) limit d2 h2 in
    let p1 : d1 ≡ db = ground arith in
    let p2 : d2 ≡ db = ground arith in
    let p3 : d3 ≡ db = limit_rate_ok s user kind n d2 d3 e3 ∙ p2 in
    (sound, active, ap limit (sym p2) ∙ (e3 ∙ ap (λ d. ok (tt, d)) p3), ap rest (sym p3) ∙ h3)

-- What a message that was sent passed: the checks before the transaction, the transaction, and the
-- publication after it.
pub record Sent (s : Services) (user : Uuid) (i : SendInput) (m : ChatMessage) (db db' : ChatDb)
    : Type 0 where
  pub sound : bad_send i ≡ false
  pub is_active : s.active user ≡ ok tt
  pub allowed : limit_rate s user 2 (pos 60) db ≡ ok (tt, db)
  pub row : ChatConversation
  pub found : find (live i.conversation_id) db.conversations ≡ some row
  pub member : may_access s user row ≡ ok tt
  pub db1 : ChatDb
  pub appended : append_message user i row db ≡ ok (m, db1)
  pub told : notify s i.conversation_id chat_message db1 ≡ ok (tt, db')

pub send-Sent :
    (s : Services) (user : Uuid) (i : SendInput) (m : ChatMessage) (db db' : ChatDb)
    → send s user i db ≡ ok (m, db')
    → Sent s user i m db db'
unfolding send
send-Sent s user i m db db' h =
    let id = i.conversation_id in
    let publish : ChatMessage → Chat ChatMessage = λ n. notify s id chat_message >> pure n in
    let store : ChatConversation → Chat ChatMessage = λ c. append_message user i c >>= publish in
    let enter : Chat ChatMessage = access s user id >>= store in
    let (sound, active, allowed, h3) = guarded_ok s user (bad_send i) 2 (pos 60) enter db h in
    let (c, d4, e4, h4) = bind_ok store (access s user id) db h3 in
    let (found, member, same) = access_ok s user id c db d4 e4 in
    let (n, d5, e5, h5) = bind_ok publish (append_message user i c) d4 h4 in
    let (_, d6, e6, h6) = bind_ok (λ _. pure n) (notify s id chat_message) d5 h5 in
    let given : n ≡ m = ground arith in
    let last : d6 ≡ db' = ground arith in
    record {
      sound = sound;
      is_active = active;
      allowed = allowed;
      row = c;
      found = found;
      member = member;
      db1 = d5;
      appended = ap (append_message user i c) (sym same) ∙ (e5 ∙ ap (λ o. ok (o, d5)) given);
      told = e6 ∙ ap (λ d. ok (tt, d)) last;
    }

notify-IsNumbered :
    (s : Services) (id : Uuid) (event : ℕ) (db db' : ChatDb)
    → notify s id event db ≡ ok (tt, db')
    → IsNumbered db
    → IsNumbered db'
notify-IsNumbered s id event db db' h inv =
    let (ec, em, er, en) = notify_ok s id event db db' h in rw ec (rw em (rw en inv))

pub send-IsNumbered :
    (s : Services) (user : Uuid) (i : SendInput) (m : ChatMessage) (db db' : ChatDb)
    → send s user i db ≡ ok (m, db')
    → IsNumbered db
    → IsNumbered db'
send-IsNumbered s user i m db db' h inv =
    let sent = send-Sent s user i m db db' h in
    let stored : IsNumbered sent.db1 =
      elim (append_message_ok user i sent.row m db sent.db1 sent.appended) [
        | inl (old, body, same) ↦ rw same inv
        | inr (new, room, given, stored) ↦
            insert_message-IsNumbered (next_message user i sent.row) sent.row db inv
              (inv.keyed i.conversation_id sent.row sent.found) sent.db1 room refl
              (ap (λ n. insert_message n db) (sym given) ∙ stored)
      ] in
    notify-IsNumbered s i.conversation_id chat_message sent.db1 db' sent.told stored

-- All that `Open` writes is the row.
pub open_conversation_ok :
    (s : Services) (user seller : Uuid) (c : ChatConversation) (db db' : ChatDb)
    → open_conversation s user seller db ≡ ok (c, db')
    → insert_conversation user seller db ≡ ok (tt, db')
unfolding open_conversation
open_conversation_ok s user seller c db db' h =
    let get : Chat ChatConversation =
      first
        (λ d. find (λ r. between user seller r && not (is_some r.deleted_at)) d.conversations) in
    let add : Chat ⊤ = insert_conversation user seller in
    let enter : ℕ → Chat ChatConversation =
      λ status. raise_if (not (status == approved)) not_found >> (add >> get) in
    let ask : Chat ℕ = lift (s.get_seller seller) in
    let (_, _, _, h3) =
      guarded_ok s user (seller == 0 || user == 0) 1 (pos 20) (ask >>= enter) db h in
    let (status, d4, e4, h4) = bind_ok enter ask db h3 in
    let (_, d5, e5, h5) =
      bind_ok (λ _. add >> get) (raise_if (not (status == approved)) not_found) d4 h4 in
    let (_, d6, e6, h6) = bind_ok (λ _. get) add d5 h5 in
    let (_, _, p4) = lift_ok (s.get_seller seller) db e4 in
    let (_, p5) = raise_if_ok (not (status == approved)) not_found d4 e5 in
    let start : d5 ≡ db = ground arith in
    let done : d6 ≡ db' = ground arith in ap add (sym start) ∙ (e6 ∙ ap (λ d. ok (tt, d)) done)
