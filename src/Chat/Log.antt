-- ===== src/Chat/Log.antt =====
-- The numbering of the messages of a conversation, and what one call of `insert_message` or
-- `insert_conversation` does to it.
use e_commerce_be.Prelude.{
  ℕ, suc, ◌≡◌, refl, ap, ◌∙◌, sym, select-hit, select-miss, ◌<◌, ◌≤◌, ◌^◌, false, none, some, List,
  [], ◌∷◌, ◌==◌, ℤ, pos, add64, add64_fits, find, select, update, find-update, find_holds, arith,
  Bool-cases, Option-cases, inl, inr, ◌==ℤ◌, ◌≤ℤ◌, if◌then◌else◌,
}
use e_commerce_be.Shared.{Uuid, ok}
use e_commerce_be.Chat.{
  ChatConversation, ChatMessage, ChatDb, conversation_is, in_conversation, with_last,
  insert_message, insert_conversation, between, max_int64, live, new_conversation,
}

-- The newest message has the number `n`, and the others follow down to 1 without a gap.
unfoldable pub Numbered : ℕ → List ChatMessage → Type 0
Numbered n [] = n ≡ 0
Numbered n (m ∷ ms) = (k : ℕ) × (n ≡ suc k) × (m.sequence ≡ pos n) × Numbered k ms

-- Each conversation counts its messages in `last_sequence`, every message has a conversation, and
-- the identifiers from `next` on are unused.
pub record AreNumbered (cs : List ChatConversation) (ms : List ChatMessage) (next : Uuid)
    : Type 0 where
  pub numbered :
      (id : Uuid) (c : ChatConversation)
      → find (conversation_is id) cs ≡ some c
      → (n : ℕ) × (c.last_sequence ≡ pos n)
        × (n < 2 ^ 63)
        × Numbered n (select (in_conversation id) ms)
  -- The identifier is the primary key.
  pub keyed :
      (id : Uuid) (c : ChatConversation)
      → find (live id) cs ≡ some c
      → find (conversation_is id) cs ≡ some c
  pub owned :
      (id : Uuid) → find (conversation_is id) cs ≡ none → select (in_conversation id) ms ≡ []
  pub unused : (id : Uuid) → next ≤ id → find (conversation_is id) cs ≡ none

abbrev pub IsNumbered : ChatDb → Type 0
IsNumbered db = AreNumbered db.conversations db.messages db.next_id

module _ (k : Uuid) (z : ℤ) (cs : List ChatConversation) where
  overwritten :
      (id : Uuid)
      → find (conversation_is id) (update (conversation_is k) (with_last z) cs)
        ≡ elim (find (conversation_is id) cs) [
          | none ↦ none
          | some c ↦ some (if conversation_is k c then with_last z c else c)
        ]
  overwritten id = find-update (conversation_is id) (conversation_is k) (with_last z) (λ x. refl) cs

  pub own_row :
      (c : ChatConversation)
      → find (conversation_is k) cs ≡ some c
      → find (conversation_is k) (update (conversation_is k) (with_last z) cs)
        ≡ some (with_last z c)
  own_row c found = ground (arith, overwritten k, found, find_holds (conversation_is k) cs c found)

  pub other_row :
      (id : Uuid)
      → (k == id) ≡ false
      → find (conversation_is id) (update (conversation_is k) (with_last z) cs)
        ≡ find (conversation_is id) cs
  other_row id away = elim (Option-cases (find (conversation_is id) cs)) [
    | inl lost ↦ ground (arith, overwritten id, lost)
    | inr (c, found) ↦
        ground (arith, overwritten id, found, find_holds (conversation_is id) cs c found)
  ]

-- There is room for one more number below the largest one.
next_fits :
    (n : ℕ)
    → n < 2 ^ 63
    → (pos n ==ℤ max_int64) ≡ false
    → (suc n < 2 ^ 63) × (add64 (pos n) (pos 1) ≡ pos (suc n))
next_fits n bound room =
    let fits : suc n < 2 ^ 63 = ground arith in
    (fits, add64_fits n 1 (omega (arith, fits)) ∙ ap pos (omega arith))

-- The log of the conversation that `m` goes to, and its row.
Numbered-top :
    (m : ChatMessage) (c : ChatConversation) (n : ℕ) (ms : List ChatMessage)
    → c.last_sequence ≡ pos n
    → n < 2 ^ 63
    → Numbered n (select (in_conversation m.conversation_id) ms)
    → (c.last_sequence ==ℤ max_int64) ≡ false
    → m.sequence ≡ add64 c.last_sequence (pos 1)
    → (m.sequence ≡ pos (suc n))
      × (suc n < 2 ^ 63)
      × Numbered (suc n) (select (in_conversation m.conversation_id) (m ∷ ms))
unfolding Numbered select
Numbered-top m c n ms last bound log room next =
    let (fits, sum) = next_fits n bound (ground (arith, last, room)) in
    let number : m.sequence ≡ pos (suc n) = next ∙ (ap (λ z. add64 z (pos 1)) last ∙ sum) in
    let grown = select-hit (in_conversation m.conversation_id) m ms (ground arith) in
    (number, fits, rw grown (n, refl, number, log))

-- An identifier that is found differs from one that is not.
pub distinct :
    (cs : List ChatConversation) (k id : Uuid) {c : ChatConversation}
    → find (conversation_is k) cs ≡ some c
    → find (conversation_is id) cs ≡ none
    → (k == id) ≡ false
distinct cs k id found lost = elim (Bool-cases (k == id)) [
  | inl here ↦
      let p : k ≡ id = ground arith in let q = ap (λ i. find (conversation_is i) cs) p in cc
  | inr away ↦ away
]

-- The next number is above those given out.
pub next_above :
    (z : ℤ) (n : ℕ) → z ≡ pos n → n < 2 ^ 63 → (z ==ℤ max_int64) ≡ false → z ≤ℤ add64 z (pos 1)
next_above z n last bound room =
    let (fits, sum) = next_fits n bound (ground (arith, last, room)) in
    let total : add64 z (pos 1) ≡ pos (suc n) = ap (λ y. add64 y (pos 1)) last ∙ sum in
    rw last (ground (arith, sum))

pub insert_message_ok :
    (m : ChatMessage) (db db' : ChatDb)
    → insert_message m db ≡ ok (tt, db')
    → (db'.messages ≡ m ∷ db.messages)
      × (db'.conversations
          ≡ update (conversation_is m.conversation_id) (with_last m.sequence) db.conversations)
      × (db'.next_id ≡ db.next_id)
unfolding insert_message
insert_message_ok m db db' h = ground arith

module _ (m : ChatMessage) (c : ChatConversation) (db : ChatDb) (inv : IsNumbered db)
    (found : find (conversation_is m.conversation_id) db.conversations ≡ some c) where
  abbrev grown_cs : List ChatConversation
  grown_cs = update (conversation_is m.conversation_id) (with_last m.sequence) db.conversations

  grown_log :
      (c.last_sequence ==ℤ max_int64) ≡ false
      → m.sequence ≡ add64 c.last_sequence (pos 1)
      → (id : Uuid) (d : ChatConversation) → find (conversation_is id) grown_cs ≡ some d
      → (n : ℕ) × (d.last_sequence ≡ pos n)
        × (n < 2 ^ 63)
        × Numbered n (select (in_conversation id) (m ∷ db.messages))
  grown_log room next id d e = elim (Bool-cases (m.conversation_id == id)) [
    | inl here ↦
        let (n, last, bound, log) = inv.numbered m.conversation_id c found in
        let (number, fits, longer) = Numbered-top m c n db.messages last bound log room next in
        let p : id ≡ m.conversation_id = ground arith in
        let row : some d ≡ some (with_last m.sequence c) =
          sym e
          ∙ (ap (λ i. find (conversation_is i) grown_cs) p
              ∙ own_row m.conversation_id m.sequence db.conversations c found) in
        (suc n, ground (arith, row, number), fits, rw p longer)
    | inr away ↦
        let (n, last, bound, log) =
          inv.numbered id d
            (sym (other_row m.conversation_id m.sequence db.conversations id away) ∙ e) in
        (n, last, bound, rw (select-miss (in_conversation id) m db.messages away) log)
  ]

  keyed_grown :
      (id : Uuid) (d : ChatConversation)
      → find (live id) grown_cs ≡ some d
      → find (conversation_is id) grown_cs ≡ some d
  keyed_grown id d e =
      let k = m.conversation_id in
      let by_id =
        find-update (conversation_is id) (conversation_is k) (with_last m.sequence) (λ x. refl)
          db.conversations in
      let by_live =
        find-update (live id) (conversation_is k) (with_last m.sequence) (λ x. refl)
          db.conversations in
      elim (Option-cases (find (live id) db.conversations)) [
        | inl lost ↦ ground (arith, by_live, lost, e)
        | inr (o, old) ↦ ground (arith, by_id, by_live, old, inv.keyed id o old)
      ]

  pub insert_message-IsNumbered :
      (db' : ChatDb)
      → (c.last_sequence ==ℤ max_int64) ≡ false
      → m.sequence ≡ add64 c.last_sequence (pos 1)
      → insert_message m db ≡ ok (tt, db')
      → IsNumbered db'
  insert_message-IsNumbered db' room next h =
      let (es, ec, en) = insert_message_ok m db db' h in
      rw es (
        rw ec (
          rw en (record {
            numbered = grown_log room next;
            keyed = keyed_grown;
            owned = λ id lost.
                let row = own_row m.conversation_id m.sequence db.conversations c found in
                let away = distinct grown_cs m.conversation_id id row lost in
                select-miss (in_conversation id) m db.messages away
                ∙ inv.owned id
                    (sym (other_row m.conversation_id m.sequence db.conversations id away) ∙ lost);
            unused = λ id le.
                let free = inv.unused id le in
                other_row m.conversation_id m.sequence db.conversations id
                  (distinct db.conversations m.conversation_id id found free)
                ∙ free;
          })))

new_row-AreNumbered :
    (r : ChatConversation) (cs : List ChatConversation) (ms : List ChatMessage)
    → r.last_sequence ≡ pos 0
    → r.deleted_at ≡ none
    → AreNumbered cs ms r.id
    → AreNumbered (r ∷ cs) ms (suc r.id)
unfolding find Numbered
new_row-AreNumbered r cs ms zeroth alive inv =
    let none_yet = inv.owned r.id (inv.unused r.id (omega arith)) in
    record {
      numbered = λ id c found. elim (Bool-cases (r.id == id)) [
        | inl here ↦
            let p : id ≡ r.id = ground arith in
            let last : c.last_sequence ≡ pos 0 = ground arith in
            (0, last, omega arith, rw p (rw none_yet refl))
        | inr away ↦ inv.numbered id c (ground arith)
      ];
      keyed = λ id c found. let key = inv.keyed id c in ground arith;
      owned = λ id lost. inv.owned id (ground arith);
      unused = λ id le. let free = inv.unused id (omega arith) in ground arith;
    }

-- A new conversation has no message and the number 0.
pub insert_conversation-IsNumbered :
    (buyer seller : Uuid) (db db' : ChatDb)
    → IsNumbered db
    → insert_conversation buyer seller db ≡ ok (tt, db')
    → IsNumbered db'
unfolding insert_conversation
insert_conversation-IsNumbered buyer seller db db' inv h =
    elim (Option-cases (find (between buyer seller) db.conversations)) [
      | inr (c, e) ↦ let same : db' ≡ db = ground arith in rw same inv
      | inl e ↦
          let es : db'.messages ≡ db.messages = ground arith in
          let ec : db'.conversations ≡ new_conversation buyer seller db.next_id ∷ db.conversations =
            ground arith in
          let en : db'.next_id ≡ suc db.next_id = ground arith in
          rw es (
            rw ec (
              rw en (
                new_row-AreNumbered (new_conversation buyer seller db.next_id) db.conversations
                  db.messages refl refl inv)))
    ]
