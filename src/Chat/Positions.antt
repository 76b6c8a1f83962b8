-- ===== src/Chat/Positions.antt =====
-- The read positions before and after `Read`, against the numbers given out.
use e_commerce_be.Prelude.{
  ◌≡◌, refl, sym, ap, ◌∙◌, inl, inr, Bool, true, false, ◌&&◌, ◌||◌, none, some, List, ◌∷◌, ◌==◌,
  ◌≤ℤ◌, ℤ, pos, ltb_ℤ, find, update, find-update, find_holds, arith, Bool-cases, if◌then◌else◌,
  Option-cases,
}
use e_commerce_be.Shared.{Uuid, ok, invalid}
use e_commerce_be.Words.{chat_read}
use e_commerce_be.Tx.{⊤, ◌>>=◌, ◌>>◌, bind_ok, raise_if_ok, raise_if, pure}
use e_commerce_be.Chat.{
  ChatConversation, ChatRead, ChatDb, Chat, Services, conversation_is, live, access, notify,
}
use e_commerce_be.Chat.Reads.{read_of, raised_to, upsert_read, save_read, read}
use e_commerce_be.Chat.Log.{IsNumbered}
use e_commerce_be.Chat.Send.{guarded_ok, access_ok, notify_ok}

-- What a read position that was saved passed, and what was written.
pub record Seen (s : Services) (user id : Uuid) (seq : ℤ) (v : ChatRead) (db db' : ChatDb)
    : Type 0 where
  pub row : ChatConversation
  pub found : find (live id) db.conversations ≡ some row
  pub known : ltb_ℤ row.last_sequence seq ≡ false
  pub conversations : db'.conversations ≡ db.conversations
  pub messages : db'.messages ≡ db.messages
  pub next_id : db'.next_id ≡ db.next_id
  pub reads : db'.reads ≡ elim (find (read_of id user) db.reads) [
    | some r ↦ update (read_of id user) (raised_to seq) db.reads
    | none ↦ record { conversation_id = id; user_id = user; last_sequence = seq } ∷ db.reads
  ]
  pub answer : find (read_of id user) db'.reads ≡ some v

save_read_ok :
    (id user : Uuid) (seq : ℤ) (v : ChatRead) (db db' : ChatDb)
    → save_read id user seq db ≡ ok (v, db')
    → (db'.conversations ≡ db.conversations)
      × (db'.messages ≡ db.messages)
      × (db'.next_id ≡ db.next_id)
      × (db'.reads ≡ elim (find (read_of id user) db.reads) [
        | some r ↦ update (read_of id user) (raised_to seq) db.reads
        | none ↦ record { conversation_id = id; user_id = user; last_sequence = seq } ∷ db.reads
      ])
      × (find (read_of id user) db'.reads ≡ some v)
unfolding save_read upsert_read
save_read_ok id user seq v db db' h = elim (Option-cases (find (read_of id user) db.reads)) [
  | inl new ↦ ground arith
  | inr (r, old) ↦ ground arith
]

pub read-Seen :
    (s : Services) (user id : Uuid) (seq : ℤ) (v : ChatRead) (db db' : ChatDb)
    → read s user id seq db ≡ ok (v, db')
    → Seen s user id seq v db db'
unfolding read
read-Seen s user id seq v db db' h =
    let publish : ChatRead → Chat ChatRead = λ w. notify s id chat_read >> pure w in
    let save : Chat ChatRead = save_read id user seq >>= publish in
    let check : ChatConversation → Chat ⊤ = λ c. raise_if (ltb_ℤ c.last_sequence seq) invalid in
    let store : ChatConversation → Chat ChatRead = λ c. check c >> save in
    let enter : Chat ChatRead = access s user id >>= store in
    let (_, _, _, h3) = guarded_ok s user (id == 0 || ltb_ℤ seq (pos 0)) 3 (pos 120) enter db h in
    let (c, d4, e4, h4) = bind_ok store (access s user id) db h3 in
    let (found, _, s4) = access_ok s user id c db d4 e4 in
    let (_, d5, e5, h5) = bind_ok (λ _. save) (check c) d4 h4 in
    let (known, s5) = raise_if_ok (ltb_ℤ c.last_sequence seq) invalid d4 e5 in
    let (w, d6, e6, h6) = bind_ok publish (save_read id user seq) d5 h5 in
    let start : d5 ≡ db = ground arith in
    let e6' = ap (save_read id user seq) (sym start) ∙ e6 in
    let (wc, wm, wn, wr, found_v) = save_read_ok id user seq w db d6 e6' in
    let (_, d7, e7, h7) = bind_ok (λ _. pure w) (notify s id chat_read) d6 h6 in
    let given : w ≡ v = ground arith in
    let last : d7 ≡ db' = ground arith in
    let (nc, nm, nr, nn) = notify_ok s id chat_read d6 db' (e7 ∙ ap (λ d. ok (tt, d)) last) in
    record {
      row = c;
      found = found;
      known = known;
      conversations = nc ∙ wc;
      messages = nm ∙ wm;
      next_id = nn ∙ wn;
      reads = nr ∙ wr;
      answer = ap (find (read_of id user)) nr ∙ (found_v ∙ ap some given);
    }

-- No read position is lost or lowered.
unfoldable pub Rises : ChatDb → ChatDb → Type 0
Rises db db' =
    (k u : Uuid) (r : ChatRead)
    → find (read_of k u) db.reads ≡ some r
    → (r' : ChatRead) × (find (read_of k u) db'.reads ≡ some r')
      × (r.last_sequence ≤ℤ r'.last_sequence)

-- No conversation is lost, and no number taken back.
unfoldable pub Grows : ChatDb → ChatDb → Type 0
Grows db db' =
    (k : Uuid) (c : ChatConversation)
    → find (conversation_is k) db.conversations ≡ some c
    → (c' : ChatConversation) × (find (conversation_is k) db'.conversations ≡ some c')
      × (c.last_sequence ≤ℤ c'.last_sequence)

-- Each read position is of a conversation, and within the numbers given out.
unfoldable pub Bounded : ChatDb → Type 0
Bounded db =
    (k u : Uuid) (r : ChatRead)
    → find (read_of k u) db.reads ≡ some r
    → (c : ChatConversation) × (find (conversation_is k) db.conversations ≡ some c)
      × (r.last_sequence ≤ℤ c.last_sequence)

-- A user with a position in a conversation is not one without.
other_reader :
    (id user k u : Uuid) (rs : List ChatRead) {r : ChatRead}
    → find (read_of id user) rs ≡ none
    → find (read_of k u) rs ≡ some r
    → (id == k && user == u) ≡ false
other_reader id user k u rs lost found = elim (Bool-cases (id == k && user == u)) [
  | inl here ↦
      let p : k ≡ id = ground arith in
      let q : u ≡ user = ground arith in
      let same = ap (λ i. find (read_of i u) rs) p ∙ ap (λ w. find (read_of id w) rs) q in cc
  | inr away ↦ away
]

-- The position of any user after a save is one from before, raised or not, or the new one.
positions :
    (id user k u : Uuid) (seq : ℤ) (rs : List ChatRead) (r : ChatRead)
    → find (read_of k u) (update (read_of id user) (raised_to seq) rs) ≡ some r
    → (o : ChatRead) × (find (read_of k u) rs ≡ some o)
      × (r ≡ (if read_of id user o then raised_to seq o else o))
positions id user k u seq rs r e =
    let kept = find-update (read_of k u) (read_of id user) (raised_to seq) (λ x. refl) rs in
    elim (Option-cases (find (read_of k u) rs)) [
      | inl lost ↦ ground (arith, kept, lost)
      | inr (o, old) ↦ (o, old, ground (arith, kept, old))
    ]

pub same_row :
    (cs : List ChatConversation) (k id : Uuid) (c row : ChatConversation)
    → k ≡ id
    → find (conversation_is k) cs ≡ some c
    → find (conversation_is id) cs ≡ some row
    → c ≡ row
same_row cs k id c row p found key =
    let twice : some c ≡ some row = sym found ∙ (ap (λ i. find (conversation_is i) cs) p ∙ key) in
    ground (arith, twice)

raised_within :
    (test : Bool) (seq : ℤ) (o r : ChatRead) (c row : ChatConversation)
    → r ≡ (if test then raised_to seq o else o)
    → o.last_sequence ≤ℤ c.last_sequence
    → (test ≡ true → c ≡ row)
    → ltb_ℤ row.last_sequence seq ≡ false
    → r.last_sequence ≤ℤ c.last_sequence
raised_within true seq o r c row e le same known = let p = same refl in ground (arith, p, e)
raised_within false seq o r c row e le same known = rw e le

module _ (s : Services) (user id : Uuid) (seq : ℤ) (v : ChatRead) (db db' : ChatDb)
    (h : read s user id seq db ≡ ok (v, db')) where
  pub read-Rises : Rises db db'
  unfolding Rises find
  read-Rises k u r e =
      let seen = read-Seen s user id seq v db db' h in
      elim (Option-cases (find (read_of id user) db.reads)) [
        | inl new ↦
            let grown : db'.reads
                ≡ record { conversation_id = id; user_id = user; last_sequence = seq } ∷ db.reads =
              ground (arith, seen.reads, new) in
            (r, ground (arith, grown, other_reader id user k u db.reads new e), ground arith)
        | inr (old, there) ↦
            let grown : db'.reads ≡ update (read_of id user) (raised_to seq) db.reads =
              ground (arith, seen.reads, there) in
            let kept =
              find-update (read_of k u) (read_of id user) (raised_to seq) (λ x. refl) db.reads in
            (
              (if read_of id user r then raised_to seq r else r),
              ground (arith, grown, kept, e),
              ground arith,
            )
      ]

  pub read-Bounded : IsNumbered db → Bounded db → Bounded db'
  unfolding Bounded find
  read-Bounded inv bounded k u r e =
      let seen = read-Seen s user id seq v db db' h in
      let key = inv.keyed id seen.row seen.found in
      let here = ap (find (conversation_is k)) seen.conversations in
      elim (Option-cases (find (read_of id user) db.reads)) [
        | inl new ↦
            let grown : db'.reads
                ≡ record { conversation_id = id; user_id = user; last_sequence = seq } ∷ db.reads =
              ground (arith, seen.reads, new) in
            elim (Bool-cases (id == k && user == u)) [
              | inl mine ↦
                  let q : r.last_sequence ≡ seq = ground (arith, grown, e) in
                  let p : k ≡ id = ground arith in
                  (
                    seen.row,
                    here ∙ (ap (λ i. find (conversation_is i) db.conversations) p ∙ key),
                    rw q (ground (arith, seen.known)),
                  )
              | inr other ↦
                  let (c, found, le) = bounded k u r (ground (arith, grown, e, other)) in
                  (c, here ∙ found, le)
            ]
        | inr (old, there) ↦
            let grown : db'.reads ≡ update (read_of id user) (raised_to seq) db.reads =
              ground (arith, seen.reads, there) in
            let (o, before, change) =
              positions id user k u seq db.reads r (sym (ap (find (read_of k u)) grown) ∙ e) in
            let (c, found, le) = bounded k u o before in
            (
              c,
              here ∙ found,
              raised_within (read_of id user o) seq o r c seen.row change le
                  (λ fits.
                    same_row db.conversations k id c seen.row
                      (ground (arith, find_holds (read_of k u) db.reads o before)) found key)
                  seen.known,
            )
      ]
