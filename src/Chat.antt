-- ===== src/Chat.antt =====
-- internal/modules/chat: the conversations of buyers and shops with their numbered messages. The
-- schema chat is a database of its own. The user and seller services, and the script that counts
-- requests in Redis, are the fields of `Services`.
pub mod Log
pub mod Send
pub mod Append
pub mod Reads
pub mod Positions
pub mod History
pub mod Pages
use e_commerce_be.Prelude.{
  ℕ, suc, Bool, true, false, not, ◌&&◌, ◌||◌, ◌++◌, Option, none, some, List, [], ◌∷◌, ◌==◌, ℤ, pos,
  ltb_ℤ, ◌==ℤ◌, add64, find, select, update, length, ltb, sort_by, take, reverse,
}
use e_commerce_be.Shared.{
  Word, Uuid, forbidden, invalid, conflict, not_found, unavailable, rate_limited, constraint,
  Result, ok, err, is_some, text_eq,
}
use e_commerce_be.Words.{approved, chat_message, chat_read, chat_typing}
use e_commerce_be.Text.{is_blank}
use e_commerce_be.Text.Utf8.{decode}
use e_commerce_be.Models.{User}
use e_commerce_be.Directory.{is_member}
use e_commerce_be.Tx.{Tx, ⊤, ◌>>=◌, ◌>>◌, first, gets, lift, modify, pure, raise, raise_if}

pub record ChatConversation : Type 0 where
  pub id : Uuid
  pub buyer_id : Uuid
  pub seller_id : Uuid
  pub last_sequence : ℤ
  pub deleted_at : Option ℕ

pub record ChatMessage : Type 0 where
  pub conversation_id : Uuid
  pub sender_id : Uuid
  pub client_message_id : Uuid
  pub sequence : ℤ
  pub body : List ℕ

pub record ChatRead : Type 0 where
  pub conversation_id : Uuid
  pub user_id : Uuid
  pub last_sequence : ℤ

-- A call of `Publisher.Publish`, of which the payload is the message or read position it names.
pub record Published : Type 0 where
  pub recipients : List Uuid
  pub event : Word
  pub conversation_id : Uuid

pub record ChatDb : Type 0 where
  pub users : List User
  pub conversations : List ChatConversation
  pub messages : List ChatMessage
  pub reads : List ChatRead
  pub published : List Published
  pub next_id : Uuid

pub record Services : Type 0 where
  -- `ActiveUserChecker`, and of `SellerDirectory` what the operations ask.
  pub active : Uuid → Result ⊤
  pub get_seller : Uuid → Result Word
  pub check_membership : Uuid → Uuid → Result (Word × Word)
  pub members : Uuid → Result (List Uuid)
  -- The number that the script of `RedisLimiter` answers, none where Redis fails. A service can be
  -- made without a limiter, and without a publisher.
  pub hits : Option (Word → Uuid → Option ℤ)
  pub has_publisher : Bool

abbrev pub Chat : Type 0 → Type 0
Chat A = Tx ChatDb A

-- `RedisLimiter.Allow`
unfoldable pub allow : Option ℤ → ℤ → Result ⊤
allow none limit = err unavailable
allow (some n) limit = elim (ltb_ℤ limit n) [ true ↦ err rate_limited | false ↦ ok tt ]

unfoldable pub limit_rate : Services → Uuid → Word → ℤ → Chat ⊤
unfolding allow
limit_rate s user kind n = elim s.hits [
  | none ↦ raise unavailable
  | some hits ↦ lift (allow (hits kind user) n)
]

abbrev pub conversation_is : Uuid → ChatConversation → Bool
conversation_is id c = c.id == id

abbrev pub live : Uuid → ChatConversation → Bool
live id c = c.id == id && not (is_some c.deleted_at)

abbrev pub may_access : Services → Uuid → ChatConversation → Result ⊤
may_access s user c = elim (c.buyer_id == user) [
  | true ↦ ok tt
  | false ↦ elim (s.check_membership user c.seller_id) [
    | err e ↦ err e
    | ok (role, status) ↦ elim (is_member role) [ true ↦ ok tt | false ↦ err forbidden ]
  ]
]

unfoldable pub access : Services → Uuid → Uuid → Chat ChatConversation
access s user id = do
  c ← first (λ db. find (live id) db.conversations)
  lift (may_access s user c)
  pure c

abbrev pub between : Uuid → Uuid → ChatConversation → Bool
between buyer seller c = c.buyer_id == buyer && c.seller_id == seller

abbrev pub new_conversation : Uuid → Uuid → Uuid → ChatConversation
new_conversation buyer seller id = record {
  id = id;
  buyer_id = buyer;
  seller_id = seller;
  last_sequence = pos 0;
  deleted_at = none;
}

-- INSERT ... ON CONFLICT (buyer_id, seller_id) DO NOTHING
unfoldable pub insert_conversation : Uuid → Uuid → Chat ⊤
insert_conversation buyer seller db = elim (find (between buyer seller) db.conversations) [
  | some c ↦ ok (tt, db)
  | none ↦ ok (
    tt,
    record db {
      conversations = new_conversation buyer seller db.next_id ∷ db.conversations;
      next_id = suc db.next_id;
    },
  )
]

unfoldable pub open_conversation : Services → Uuid → Uuid → Chat ChatConversation
unfolding limit_rate insert_conversation
open_conversation s user seller = do
  raise_if (seller == 0 || user == 0) invalid
  lift (s.active user)
  limit_rate s user 1 (pos 20)
  status ← lift (s.get_seller seller)
  raise_if (not (status == approved)) not_found
  insert_conversation user seller
  first (λ db. find (λ c. between user seller c && not (is_some c.deleted_at)) db.conversations)

pub record SendInput : Type 0 where
  pub conversation_id : Uuid
  pub client_message_id : Uuid
  pub body : List ℕ

-- `!utf8.ValidString || TrimSpace == "" || RuneCountInString > 5000`
abbrev bad_text : List ℕ → Bool
bad_text body = elim (decode body) [
  | none ↦ true
  | some text ↦ is_blank text || ltb 5000 (length text)
]

-- `SendInput.Validate`
unfoldable pub bad_send : SendInput → Bool
bad_send i =
    i.conversation_id == 0
    || i.client_message_id == 0
    || bad_text i.body
    || ltb 20000 (length i.body)

abbrev pub sent_as : Uuid → Uuid → Uuid → ChatMessage → Bool
sent_as conversation user client m =
    m.conversation_id == conversation && m.sender_id == user && m.client_message_id == client

abbrev pub in_conversation : Uuid → ChatMessage → Bool
in_conversation id m = m.conversation_id == id

-- A text column holds no NUL, and CHECK (char_length(body) BETWEEN 1 AND 5000).
abbrev bad_column : List ℕ → Bool
bad_column body = elim (decode body) [
  | none ↦ true
  | some text ↦ is_some (find (λ c. c == 0) text) || length text == 0 || ltb 5000 (length text)
]

-- UNIQUE (conversation_id, sender_id, client_message_id), UNIQUE (conversation_id, sequence) and
-- CHECK (sequence > 0)
abbrev bad_message : ChatMessage → List ChatMessage → Bool
bad_message m ms =
    is_some (find (sent_as m.conversation_id m.sender_id m.client_message_id) ms)
    || is_some (find (λ o. in_conversation m.conversation_id o && o.sequence ==ℤ m.sequence) ms)
    || not (ltb_ℤ (pos 0) m.sequence)
    || bad_column m.body

abbrev pub with_last : ℤ → ChatConversation → ChatConversation
with_last n c = record c { last_sequence = n }

-- `Repository.Insert`, of the message and then of its number into the conversation.
unfoldable pub insert_message : ChatMessage → Chat ⊤
insert_message m db = elim (bad_message m db.messages) [
  | true ↦ err constraint
  | false ↦ ok (
    tt,
    record db {
      messages = m ∷ db.messages;
      conversations =
          update (conversation_is m.conversation_id) (with_last m.sequence) db.conversations;
    },
  )
]

abbrev pub max_int64 : ℤ
max_int64 = pos 9223372036854775807

abbrev pub next_message : Uuid → SendInput → ChatConversation → ChatMessage
next_message user i c = record {
  conversation_id = i.conversation_id;
  sender_id = user;
  client_message_id = i.client_message_id;
  sequence = add64 c.last_sequence (pos 1);
  body = i.body;
}

-- The transaction of `Send`, once the conversation is locked.
unfoldable pub append_message : Uuid → SendInput → ChatConversation → Chat ChatMessage
unfolding insert_message
append_message user i c db =
    elim (find (sent_as i.conversation_id user i.client_message_id) db.messages) [
      | some old ↦ elim (text_eq old.body i.body) [ true ↦ ok (old, db) | false ↦ err conflict ]
      | none ↦ elim (c.last_sequence ==ℤ max_int64) [
        | true ↦ err conflict
        | false ↦ elim (insert_message (next_message user i c) db) [
          | err e ↦ err e
          | ok (_, db') ↦ ok (next_message user i c, db')
        ]
      ]
    ]

-- `Repository.RecipientBuyer`: the buyer, or uuid.Nil where the user is gone, and the shop.
unfoldable pub recipient_buyer : Uuid → ChatDb → Option (Uuid × Uuid)
recipient_buyer id db = elim (find (live id) db.conversations) [
  | none ↦ none
  | some c ↦ elim (find (λ (u : User). u.id == c.buyer_id && not (is_some u.deleted_at)) db.users) [
    | none ↦ some (0, c.seller_id)
    | some u ↦ some (u.id, c.seller_id)
  ]
]

abbrev pub recipients_of : Uuid → List Uuid → List Uuid
recipients_of buyer members =
    elim (buyer == 0) [ true ↦ [] | false ↦ buyer ∷ [] ] ++ select (λ m. not (m == buyer)) members

abbrev pub publication : Uuid → Word → Uuid → List Uuid → Published
publication id event buyer members = record {
  recipients = recipients_of buyer members;
  event = event;
  conversation_id = id;
}

-- `Service.notify`, which fails silently.
unfoldable pub notified : Services → Uuid → Word → ChatDb → List Published
unfolding recipient_buyer
notified s id event db = elim s.has_publisher [
  | false ↦ db.published
  | true ↦ elim (recipient_buyer id db) [
    | none ↦ db.published
    | some (buyer, seller) ↦ elim (s.members seller) [
      | err e ↦ db.published
      | ok members ↦ publication id event buyer members ∷ db.published
    ]
  ]
]

unfoldable pub notify : Services → Uuid → Word → Chat ⊤
unfolding notified
notify s id event db = ok (tt, record db { published = notified s id event db })

unfoldable pub send : Services → Uuid → SendInput → Chat ChatMessage
unfolding bad_send limit_rate access append_message notify
send s user i = do
  raise_if (bad_send i) invalid
  lift (s.active user)
  limit_rate s user 2 (pos 60)
  c ← access s user i.conversation_id
  m ← append_message user i c
  notify s i.conversation_id chat_message
  pure m
