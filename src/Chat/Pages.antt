-- ===== src/Chat/Pages.antt =====
-- The pages of a log that `Messages` gives.
use e_commerce_be.Prelude.{
  ℕ, zero, suc, ◌≡◌, refl, sym, ap, ◌∙◌, ◌+◌, ◌-◌, min, Bool, true, false, ◌&&◌, Option, none, some,
  List, [], ◌∷◌, ◌++◌, ℤ, pos, pos_part, ltb_ℤ, find, select, sort_by, insert_by, take, reverse,
  arith, inl, inr, Bool-cases,
}
use e_commerce_be.Shared.{Uuid, ok, invalid, is_some}
use e_commerce_be.Tx.{⊤, ◌>>◌, bind_ok, raise_if_ok, raise_if, lift, gets}
use e_commerce_be.Chat.{
  Chat, ChatConversation, ChatMessage, ChatDb, Services, access, conversation_is, in_conversation,
}
use e_commerce_be.Chat.Reads.{ascending, descending, before_bound, message_page, bad_page, messages}
use e_commerce_be.Chat.Log.{Numbered, IsNumbered}
use e_commerce_be.Chat.Send.{lift_ok, access_ok}

-- Messages with the numbers from `k + 1` to `k + len`, oldest first.
unfoldable pub Follows : ℕ → ℕ → List ChatMessage → Type 0
Follows k len [] = len ≡ 0
Follows k len (m ∷ ms) = (j : ℕ) × (len ≡ suc j) × (m.sequence ≡ pos (suc k)) × Follows (suc k) j ms

insert-Follows :
    (k len : ℕ) (m : ChatMessage) (ms : List ChatMessage)
    → Follows k len ms
    → m.sequence ≡ pos (suc (k + len))
    → Follows k (suc len) (insert_by ascending m ms)
unfolding Follows insert_by
insert-Follows k len m [] all e = (len, refl, ground arith, all)
insert-Follows k len m (y ∷ ys) (j, count, head, all) e =
    let before : ascending y m ≡ true = ground arith in
    let rest = insert-Follows (suc k) j m ys all (ground arith) in
    rw before (len, refl, head, rw count rest)

abbrev after : ℕ → ChatMessage → Bool
after k m = ltb_ℤ (pos k) m.sequence

ascending-Follows :
    (k n : ℕ) (ms : List ChatMessage)
    → Numbered n ms
    → Follows k (n - k) (sort_by ascending (select (after k) ms))
unfolding Numbered Follows select sort_by
ascending-Follows k n [] all = ground arith
ascending-Follows k n (m ∷ ms) (p, count, head, all) =
    let rest = ascending-Follows k p ms all in
    elim (Bool-cases (after k m)) [
      | inl kept ↦
          let size : n - k ≡ suc (p - k) = ground arith in
          let number : m.sequence ≡ pos (suc (k + (p - k))) = ground arith in
          rw kept (
            rw size
              (insert-Follows k (p - k) m (sort_by ascending (select (after k) ms)) rest number))
      | inr skipped ↦ let size : n - k ≡ p - k = ground arith in rw skipped (rw size rest)
    ]

take-Follows :
    (k len limit : ℕ) (ms : List ChatMessage)
    → Follows k len ms
    → Follows k (min limit len) (take limit ms)
unfolding Follows take
take-Follows k len limit [] all = ground arith
take-Follows k len zero (m ∷ ms) all = ground arith
take-Follows k len (suc limit) (m ∷ ms) (j, count, head, all) =
    (min limit j, ground arith, head, take-Follows (suc k) j limit ms all)

select_and :
    (p q : ChatMessage → Bool) (ms : List ChatMessage)
    → select (λ m. p m && q m) ms ≡ select q (select p ms)
unfolding select
select_and p q [] = refl
select_and p q (m ∷ ms) = ground (arith, select_and p q ms)

select_all : (ms : List ChatMessage) → select (λ _. true) ms ≡ ms
unfolding select
select_all [] = refl
select_all (m ∷ ms) = ap (λ rest. m ∷ rest) (select_all ms)

-- A log stands in descending order already.
insert-descending :
    (n : ℕ) (m : ChatMessage) (ms : List ChatMessage)
    → Numbered n ms
    → m.sequence ≡ pos (suc n)
    → insert_by descending m ms ≡ m ∷ ms
unfolding Numbered insert_by
insert-descending n m [] all e = refl
insert-descending n m (y ∷ ys) (p, count, head, all) e = ground arith

sort-descending : (n : ℕ) (ms : List ChatMessage) → Numbered n ms → sort_by descending ms ≡ ms
unfolding Numbered sort_by
sort-descending n [] all = refl
sort-descending n (m ∷ ms) (p, count, head, all) =
    ap (insert_by descending m) (sort-descending p ms all)
    ∙ insert-descending p m ms all (head ∙ ap pos count)

snoc-Follows :
    (k len : ℕ) (m : ChatMessage) (ms : List ChatMessage)
    → Follows k len ms
    → m.sequence ≡ pos (suc (k + len))
    → Follows k (suc len) (ms ++ (m ∷ []))
unfolding Follows
snoc-Follows k len m [] all e = (len, refl, ground arith, all)
snoc-Follows k len m (y ∷ ys) (j, count, head, all) e =
    (len, refl, head, rw count (snoc-Follows (suc k) j m ys all (ground arith)))

latest-Follows :
    (n limit : ℕ) (ms : List ChatMessage)
    → Numbered n ms
    → Follows (n - min limit n) (min limit n) (reverse (take limit ms))
unfolding Numbered Follows take reverse
latest-Follows n limit [] all = ground arith
latest-Follows n zero (m ∷ ms) all = ground arith
latest-Follows n (suc limit) (m ∷ ms) (p, count, head, all) =
    let size : min (suc limit) n ≡ suc (min limit p) = ground arith in
    let start : n - suc (min limit p) ≡ p - min limit p = ground arith in
    let older = latest-Follows p limit ms all in
    rw size (
      rw start (
        snoc-Follows (p - min limit p) (min limit p) m (reverse (take limit ms)) older
          (ground arith)))

abbrev pub asked : Option ℕ → Option ℤ
asked none = none
asked (some k) = some (pos k)

not_both :
    (after before : Option ℤ) (limit : ℤ)
    → bad_page after before limit ≡ false
    → (is_some after && is_some before) ≡ false
not_both after before limit sound = ground (arith, sound)

one_bound :
    (after before : Option ℕ)
    → (is_some (asked after) && is_some (asked before)) ≡ false
    → (is_some after && is_some before) ≡ false
one_bound none before h = refl
one_bound (some k) none h = refl
one_bound (some k) (some b) h = h

messages_ok :
    (s : Services) (user id : Uuid) (after before : Option ℤ) (limit : ℤ) (ms : List ChatMessage)
    (db db' : ChatDb)
    → messages s user id after before limit db ≡ ok (ms, db')
    → (ms ≡ message_page id after before limit db.messages)
      × ((is_some after && is_some before) ≡ false)
unfolding messages
messages_ok s user id after before limit ms db db' h =
    let get : Chat (List ChatMessage) = gets (λ d. message_page id after before limit d.messages) in
    let enter : Chat (List ChatMessage) = access s user id >> get in
    let check : Chat ⊤ = raise_if (bad_page after before limit) invalid in
    let (_, d1, e1, h1) = bind_ok (λ _. lift (s.active user) >> enter) check db h in
    let (sound, p1) = raise_if_ok (bad_page after before limit) invalid db e1 in
    let (_, d2, e2, h2) = bind_ok (λ _. enter) (lift (s.active user)) d1 h1 in
    let (_, _, p2) = lift_ok (s.active user) d1 e2 in
    let (c, d3, e3, h3) = bind_ok (λ _. get) (access s user id) d2 h2 in
    let (_, _, p3) = access_ok s user id c d2 d3 e3 in
    let start : d3 ≡ db = ground arith in
    let shown : ms ≡ message_page id after before limit d3.messages = ground arith in
    (
      shown ∙ ap (λ (d : ChatDb). message_page id after before limit d.messages) start,
      not_both after before limit sound,
    )

-- The last number that a page may show, of a log with `n` messages: with `before`, the one below it.
abbrev pub page_end : Option ℕ → ℕ → ℕ
page_end none n = n
page_end (some b) n = min (b - 1) n

-- Where a page starts, and how long it is: after the number that was asked for, or the newest.
abbrev pub page_start : Option ℕ → ℕ → ℕ → ℕ
page_start none limit n = n - min limit n
page_start (some k) limit n = k

abbrev pub page_size : Option ℕ → ℕ → ℕ → ℕ
page_size none limit n = min limit n
page_size (some k) limit n = min limit (n - k)

-- The messages below a number are numbered too.
before-Numbered :
    (b n : ℕ) (ms : List ChatMessage)
    → Numbered n ms
    → Numbered (min (b - 1) n) (select (before_bound (some (pos b))) ms)
unfolding Numbered select
before-Numbered b n [] all = ground arith
before-Numbered b n (m ∷ ms) (p, count, head, all) =
    let rest = before-Numbered b p ms all in
    elim (Bool-cases (before_bound (some (pos b)) m)) [
      | inl kept ↦
          let below : min (b - 1) p ≡ p = ground arith in
          let size : min (b - 1) n ≡ suc p = ground arith in
          rw (kept, size) (p, refl, ground arith, rw (sym below) rest)
      | inr skipped ↦
          let size : min (b - 1) n ≡ min (b - 1) p = ground arith in rw (skipped, size) rest
    ]

bounded-Numbered :
    (before : Option ℕ) (n : ℕ) (ms : List ChatMessage)
    → Numbered n ms
    → Numbered (page_end before n) (select (before_bound (asked before)) ms)
bounded-Numbered none n ms log = rw (select_all ms) log
bounded-Numbered (some b) n ms log = before-Numbered b n ms log

message_page-Follows :
    (id : Uuid) (after before : Option ℕ) (limit : ℤ) (n : ℕ) (ms : List ChatMessage)
    → (is_some after && is_some before) ≡ false
    → Numbered n (select (in_conversation id) ms)
    → Follows
        (page_start after (pos_part limit) (page_end before n))
        (page_size after (pos_part limit) (page_end before n))
        (message_page id (asked after) (asked before) limit ms)
unfolding message_page
message_page-Follows id none before limit n ms one log =
    let own = select (in_conversation id) ms in
    let all = select_and (in_conversation id) (before_bound (asked before)) ms in
    let page = bounded-Numbered before n own log in
    let shown = select (before_bound (asked before)) own in
    rw all (
      rw (sort-descending (page_end before n) shown page)
        (latest-Follows (page_end before n) (pos_part limit) shown page))
message_page-Follows id (some k) (some b) limit n ms one log = cc
message_page-Follows id (some k) none limit n ms one log =
    let newer = select_and (in_conversation id) (after k) ms in
    rw newer (
      take-Follows k (n - k) (pos_part limit)
        (sort_by ascending (select (after k) (select (in_conversation id) ms)))
        (ascending-Follows k n (select (in_conversation id) ms) log))

-- In a sound state, a page of a conversation with `n` messages that `Messages` gives holds exactly
-- the next numbers, oldest first: those from `k + 1` on when the ones after `k` were asked for, the
-- last ones below `b` when the ones before `b` were asked for, and the newest ones otherwise, as many
-- as the limit and the log allow.
pub messages-Follows :
    (s : Services) (user id : Uuid) (after before : Option ℕ) (limit : ℤ) (ms : List ChatMessage)
    (db db' : ChatDb) (c : ChatConversation) (n : ℕ)
    → IsNumbered db
    → find (conversation_is id) db.conversations ≡ some c
    → c.last_sequence ≡ pos n
    → messages s user id (asked after) (asked before) limit db ≡ ok (ms, db')
    → Follows
        (page_start after (pos_part limit) (page_end before n))
        (page_size after (pos_part limit) (page_end before n))
        ms
messages-Follows s user id after before limit ms db db' c n inv found last h =
    let (shown, one) = messages_ok s user id (asked after) (asked before) limit ms db db' h in
    let (k, last', _, log) = inv.numbered id c found in
    let same : k ≡ n = ground arith in
    rw shown (
      message_page-Follows id after before limit n db.messages (one_bound after before one)
        (rw (sym same) log))
