-- ===== src/Tests/Chats.antt =====
-- A conversation of user 1 with shop 3: opened, two messages sent, and the first one read.
use e_commerce_be.Prelude.{ℕ, ◌≡◌, refl, Option, none, some, List, [], ◌∷◌, pos, true, find, select}
use e_commerce_be.Shared.{ok}
use e_commerce_be.Words.{approved, owner}
use e_commerce_be.Tx.{commit}
use e_commerce_be.Chat.{
  ChatConversation, ChatMessage, ChatDb, ChatRead, Services, SendInput, open_conversation, send,
  next_message, new_conversation, with_last, limit_rate, conversation_is,
}
use e_commerce_be.Chat.Reads.{read, messages}
use e_commerce_be.Chat.Log.{IsNumbered}
use e_commerce_be.Chat.Append.{Refines, send-Refines, send_idem}
use e_commerce_be.Chat.Positions.{Rises, Bounded}
use e_commerce_be.Chat.History.{Steps, next, stay, opened, sent, seen, Steps-IsSound, Steps-Rises}
use e_commerce_be.Chat.Pages.{messages-Follows, Follows, asked}

abbrev services : Services
services = record {
  active = λ user. ok tt;
  get_seller = λ seller. ok approved;
  check_membership = λ user seller. ok (owner, approved);
  members = λ seller. ok (8 ∷ []);
  hits = some (λ kind user. some (pos 1));
  has_publisher = true;
}

abbrev nothing : ChatDb
nothing = record {
  users = record { id = 1; deleted_at = none } ∷ [];
  conversations = [];
  messages = [];
  reads = [];
  published = [];
  next_id = 5;
}

abbrev first_text : SendInput
first_text = record { conversation_id = 5; client_message_id = 70; body = 104 ∷ 105 ∷ [] }

abbrev second_text : SendInput
second_text = record { conversation_id = 5; client_message_id = 71; body = 111 ∷ 107 ∷ [] }

abbrev row : ChatConversation
row = new_conversation 1 3 5

abbrev opened_db : ChatDb
opened_db = commit nothing (open_conversation services 1 3 nothing)

abbrev message1 : ChatMessage
message1 = next_message 1 first_text row

abbrev sent_db : ChatDb
sent_db = commit opened_db (send services 1 first_text opened_db)

abbrev message2 : ChatMessage
message2 = next_message 8 second_text (with_last (pos 1) row)

abbrev talked_db : ChatDb
talked_db = commit sent_db (send services 8 second_text sent_db)

abbrev position : ChatRead
position = record { conversation_id = 5; user_id = 8; last_sequence = pos 1 }

abbrev seen_db : ChatDb
seen_db = commit talked_db (read services 8 5 (pos 1) talked_db)

open_run : open_conversation services 1 3 nothing ≡ ok (row, opened_db)
unfolding open_conversation find
open_run = refl

send_run : send services 1 first_text opened_db ≡ ok (message1, sent_db)
unfolding open_conversation send e_commerce_be.Text.Utf8.decode e_commerce_be.Text.trim_space find
    e_commerce_be.Prelude.add64
send_run = refl

reply_run : send services 8 second_text sent_db ≡ ok (message2, talked_db)
unfolding open_conversation send e_commerce_be.Text.Utf8.decode e_commerce_be.Text.trim_space find
    e_commerce_be.Prelude.add64 e_commerce_be.Prelude.update
reply_run = refl

read_run : read services 8 5 (pos 1) talked_db ≡ ok (position, seen_db)
unfolding open_conversation send read find e_commerce_be.Text.Utf8.decode
    e_commerce_be.Text.trim_space e_commerce_be.Prelude.add64 e_commerce_be.Prelude.update
read_run = refl

talk : Steps nothing seen_db
talk = next (opened services 1 3 row open_run) (
    next (sent services 1 first_text message1 send_run) (
      next (sent services 8 second_text message2 reply_run)
        (next (seen services 8 5 (pos 1) position read_run) stay)))

nothing-IsNumbered : IsNumbered nothing
unfolding find select
nothing-IsNumbered = record {
  numbered = λ id c found. cc;
  keyed = λ id c found. cc;
  owned = λ id lost. refl;
  unused = λ id le. refl;
}

nothing-Bounded : Bounded nothing
unfolding Bounded find
nothing-Bounded k u r found = cc

Steps-IsSound_example : IsNumbered seen_db × Bounded seen_db
Steps-IsSound_example = Steps-IsSound nothing seen_db talk nothing-IsNumbered nothing-Bounded

Steps-Rises_example : Rises nothing seen_db
Steps-Rises_example = Steps-Rises nothing seen_db talk nothing-IsNumbered nothing-Bounded

send-Refines_example : Refines 8 second_text message2 sent_db talked_db
send-Refines_example = send-Refines services 8 second_text message2 sent_db talked_db reply_run

limit_run : limit_rate services 8 2 (pos 60) talked_db ≡ ok (tt, talked_db)
unfolding limit_rate
limit_run = refl

send_idem_example :
    (db : ChatDb) × (send services 8 second_text talked_db ≡ ok (message2, db))
    × (db.messages ≡ talked_db.messages)
    × (db.conversations ≡ talked_db.conversations)
send_idem_example =
    send_idem services services 8 second_text message2 sent_db talked_db reply_run refl limit_run
      (λ c. refl)

row_run : find (conversation_is 5) seen_db.conversations ≡ some (with_last (pos 2) row)
unfolding find read send e_commerce_be.Text.Utf8.decode e_commerce_be.Text.trim_space
    open_conversation e_commerce_be.Prelude.add64 e_commerce_be.Prelude.update
row_run = refl

page_run :
    messages services 1 5 none (asked (some 2)) (pos 10) seen_db ≡ ok (message1 ∷ [], seen_db)
unfolding messages find read send e_commerce_be.Text.Utf8.decode e_commerce_be.Text.trim_space
    open_conversation e_commerce_be.Prelude.add64 e_commerce_be.Prelude.update
    e_commerce_be.Prelude.take e_commerce_be.Prelude.sort_by select e_commerce_be.Prelude.reverse
page_run = refl

messages-Follows_example : Follows 0 1 (message1 ∷ [])
messages-Follows_example =
    messages-Follows services 1 5 none (some 2) (pos 10) (message1 ∷ []) seen_db seen_db
      (with_last (pos 2) row) 2
      (Steps-IsSound nothing seen_db talk nothing-IsNumbered nothing-Bounded).0 row_run refl
      page_run
