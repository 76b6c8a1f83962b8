-- ===== src/Chat/Reads.antt =====
-- internal/modules/chat: `Read`, `Typing` and `Messages` of the service, with their queries.
use e_commerce_be.Prelude.{
  Bool, true, false, not, ◌&&◌, ◌||◌, Option, none, some, List, ◌∷◌, ◌==◌, ℤ, pos, pos_part, ltb_ℤ,
  leb_ℤ, find, select, update, sort_by, take, reverse,
}
use e_commerce_be.Shared.{Uuid, invalid, ok, is_some}
use e_commerce_be.Words.{chat_read, chat_typing}
use e_commerce_be.Tx.{⊤, ◌>>=◌, ◌>>◌, first, gets, lift, pure, raise_if}
use e_commerce_be.Chat.{
  ChatMessage, ChatRead, Services, Chat, limit_rate, access, in_conversation, notify,
}

abbrev pub read_of : Uuid → Uuid → ChatRead → Bool
read_of id user r = r.conversation_id == id && r.user_id == user

-- `GREATEST`
abbrev pub greatest : ℤ → ℤ → ℤ
greatest a b = elim (ltb_ℤ a b) [ true ↦ b | false ↦ a ]

abbrev pub raised_to : ℤ → ChatRead → ChatRead
raised_to seq r = record r { last_sequence = greatest r.last_sequence seq }

-- The upsert of `Repository.Read`, ON CONFLICT (conversation_id, user_id) DO UPDATE.
unfoldable pub upsert_read : Uuid → Uuid → ℤ → Chat ⊤
upsert_read id user seq db = elim (find (read_of id user) db.reads) [
  | some r ↦ ok (tt, record db { reads = update (read_of id user) (raised_to seq) db.reads })
  | none ↦ ok (
    tt,
    record db {
      reads = record { conversation_id = id; user_id = user; last_sequence = seq } ∷ db.reads;
    },
  )
]

unfoldable pub save_read : Uuid → Uuid → ℤ → Chat ChatRead
unfolding upsert_read
save_read id user seq = do upsert_read id user seq; first (λ db. find (read_of id user) db.reads)

unfoldable pub read : Services → Uuid → Uuid → ℤ → Chat ChatRead
unfolding limit_rate access save_read notify
read s user id seq = do
  raise_if (id == 0 || ltb_ℤ seq (pos 0)) invalid
  lift (s.active user)
  limit_rate s user 3 (pos 120)
  c ← access s user id
  raise_if (ltb_ℤ c.last_sequence seq) invalid
  v ← save_read id user seq
  notify s id chat_read
  pure v

unfoldable pub typing : Services → Uuid → Uuid → Chat ⊤
unfolding limit_rate access notify
typing s user id = do
  raise_if (id == 0) invalid
  lift (s.active user)
  limit_rate s user 4 (pos 20)
  access s user id
  notify s id chat_typing

-- ORDER BY sequence, ASC and DESC.
abbrev pub ascending : ChatMessage → ChatMessage → Bool
ascending a b = leb_ℤ a.sequence b.sequence

abbrev pub descending : ChatMessage → ChatMessage → Bool
descending a b = leb_ℤ b.sequence a.sequence

abbrev pub before_bound : Option ℤ → ChatMessage → Bool
before_bound none m = true
before_bound (some n) m = ltb_ℤ m.sequence n

-- `Repository.Messages`
unfoldable pub message_page : Uuid → Option ℤ → Option ℤ → ℤ → List ChatMessage → List ChatMessage
message_page id after before limit ms = elim after [
  | some n ↦
      take (pos_part limit)
        (sort_by ascending (select (λ m. in_conversation id m && ltb_ℤ n m.sequence) ms))
  | none ↦ reverse (
      take (pos_part limit)
        (sort_by descending (select (λ m. in_conversation id m && before_bound before m) ms)))
]

abbrev pub bad_page : Option ℤ → Option ℤ → ℤ → Bool
bad_page after before limit =
    ltb_ℤ limit (pos 1)
    || ltb_ℤ (pos 100) limit
    || (is_some after && is_some before)
    || elim after [ none ↦ false | some n ↦ ltb_ℤ n (pos 0) ]
    || elim before [ none ↦ false | some n ↦ not (ltb_ℤ (pos 0) n) ]

unfoldable pub messages : Services → Uuid → Uuid → Option ℤ → Option ℤ → ℤ → Chat (List ChatMessage)
unfolding access message_page
messages s user id after before limit = do
  raise_if (bad_page after before limit) invalid
  lift (s.active user)
  access s user id
  gets (λ db. message_page id after before limit db.messages)
