-- ===== src/Seller/History.antt =====
-- Histories of the operations of internal/modules/seller.
use e_commerce_be.Prelude.{
  inl, inr, Bool-cases, ℕ, ◌≡◌, refl, sym, ap, ◌∙◌, Bool, false, not, ◌||◌, none, List, ◌∷◌, ◌==◌,
  find, count, update, count-update, arith,
}
use e_commerce_be.Shared.{Word, Uuid, ok, invalid, forbidden, conflict}
use e_commerce_be.Words.{owner, seller_member_updated}
use e_commerce_be.Tx.{⊤, ◌>>=◌, ◌>>◌, bind_ok, raise_if_ok, raise_if}
use e_commerce_be.Seller.{
  Shop, ShopDb, ShopInput, Call, member_of, shop_is, live_shop, bad_role, keeps_owner, role_in,
  notice, write_member, update_shop, set_member, set_asset, insert_shop, create_shop, set_status,
  described, with_asset, new_shop,
}
use e_commerce_be.Seller.Owned.{IsOwned, write_member-IsOwned, added_once, new_row}

-- Rows of shops changed in place, and members kept.
kept-IsOwned :
    (p : Shop → Bool) (f : Shop → Shop) (db db' : ShopDb)
    → ((s : Shop) → (f s).id ≡ s.id)
    → db'.members ≡ db.members
    → db'.shops ≡ update p f db.shops
    → IsOwned db
    → IsOwned db'
kept-IsOwned p f db db' same em es owned = record {
  owners = λ s.
      let counted = count-update (shop_is s) p f (λ x. ap (λ i. i == s) (same x)) db.shops in
      rw em (rw es (owned.owners s ∙ sym counted));
  unique = λ s.
      let counted = count-update (shop_is s) p f (λ x. ap (λ i. i == s) (same x)) db.shops in
      rw es (rw counted (owned.unique s));
  keyed = λ s u. rw em (owned.keyed s u);
}

role_in_ok :
    (user shop : Uuid) (role : Word) (db db' : ShopDb)
    → role_in user shop db ≡ ok (role, db')
    → db' ≡ db
unfolding role_in
role_in_ok user shop role db db' h = ground arith

notice_ok :
    (shop : Uuid) (kind : Word) (db db' : ShopDb)
    → notice shop kind db ≡ ok (tt, db')
    → (db'.members ≡ db.members) × (db'.shops ≡ db.shops)
unfolding notice
notice_ok shop kind db db' h = (ground arith, ground arith)

set_member_ok :
    (user shop target : Uuid) (role : Word) (db db' : ShopDb)
    → set_member user shop target role db ≡ ok (tt, db')
    → (db1 : ShopDb) × (bad_role role ≡ false)
      × (keeps_owner shop target db ≡ false)
      × (write_member shop target role db ≡ ok (tt, db1))
      × (db'.members ≡ db1.members)
      × (db'.shops ≡ db1.shops)
unfolding set_member
set_member_ok user shop target role db db' h =
    let tell : Call ⊤ = notice shop seller_member_updated in
    let write : Call ⊤ = write_member shop target role in
    let guard : Call ⊤ = λ d. raise_if (keeps_owner shop target d) conflict d in
    let check : Word → Call ⊤ = λ own. raise_if (not (own == owner)) forbidden in
    let rest : Word → Call ⊤ = λ own. check own >> (guard >> (write >> tell)) in
    let ask : Call Word = role_in user shop in
    let test = target == 0 || bad_role role in
    let (_, d1, e1, h1) = bind_ok (λ _. ask >>= rest) (raise_if test invalid) db h in
    let (sound, s1) = raise_if_ok test invalid db e1 in
    let (own, d2, e2, h2) = bind_ok rest ask d1 h1 in
    let s2 = role_in_ok user shop own d1 d2 e2 in
    let (_, d3, e3, h3) = bind_ok (λ _. guard >> (write >> tell)) (check own) d2 h2 in
    let (_, s3) = raise_if_ok (not (own == owner)) forbidden d2 e3 in
    let (_, d4, e4, h4) = bind_ok (λ _. write >> tell) guard d3 h3 in
    let (kept, s4) = raise_if_ok (keeps_owner shop target d3) conflict d3 e4 in
    let (_, d5, e5, h5) = bind_ok (λ _. tell) write d4 h4 in
    let start : d3 ≡ db = ground (arith, s1, s2, s3) in
    let (tm, ts) = notice_ok shop seller_member_updated d5 db' h5 in
    let later : d4 ≡ db = ground (arith, s4, start) in
    (
      d5,
      ground (arith, sound),
      ap (keeps_owner shop target) (sym start) ∙ kept,
      ap write (sym later) ∙ e5,
      tm,
      ts,
    )

moved-IsOwned :
    (db db' : ShopDb) → db'.members ≡ db.members → db'.shops ≡ db.shops → IsOwned db → IsOwned db'
moved-IsOwned db db' em es owned = record {
  owners = λ s. rw em (rw es (owned.owners s));
  unique = λ s. rw es (owned.unique s);
  keyed = λ s u. rw em (owned.keyed s u);
}

update_shop_ok :
    (user shop : Uuid) (i : ShopInput) (db db' : ShopDb)
    → update_shop user shop i db ≡ ok (tt, db')
    → (db'.members ≡ db.members) × (db'.shops ≡ update (shop_is shop) (described i) db.shops)
unfolding update_shop role_in notice
update_shop_ok user shop i db db' h = (ground arith, ground arith)

set_asset_ok :
    (user shop : Uuid) (field : Word) (url : List ℕ) (db db' : ShopDb)
    → set_asset user shop field url db ≡ ok (tt, db')
    → (db'.members ≡ db.members)
      × (db'.shops ≡ update (live_shop shop) (with_asset field url) db.shops)
unfolding set_asset role_in
set_asset_ok user shop field url db db' h = (ground arith, ground arith)

set_status_ok :
    (user shop : Uuid) (status : Word) (db db' : ShopDb)
    → set_status user shop status db ≡ ok (tt, db')
    → (db'.members ≡ db.members)
      × (db'.shops ≡ update (live_shop shop) (λ s. record s { status = status }) db.shops)
unfolding set_status notice
set_status_ok user shop status db db' h = (ground arith, ground arith)

create_shop_ok :
    (user : Uuid) (name slug : List ℕ) (id : Uuid) (db db' : ShopDb)
    → create_shop user name slug db ≡ ok (id, db')
    → (find (shop_is id) db.shops ≡ none)
      × (find (member_of id user) db.members ≡ none)
      × (db'.members ≡ record { seller_id = id; user_id = user; role = owner } ∷ db.members)
      × (db'.shops ≡ new_shop name slug id ∷ db.shops)
unfolding create_shop insert_shop
create_shop_ok user name slug id db db' h = (ground arith, ground arith, ground arith, ground arith)

create_shop-IsOwned :
    (user : Uuid) (name slug : List ℕ) (id : Uuid) (db db' : ShopDb)
    → create_shop user name slug db ≡ ok (id, db')
    → IsOwned db
    → IsOwned db'
unfolding count
create_shop-IsOwned user name slug id db db' h owned =
    let (fresh, new, em, es) = create_shop_ok user name slug id db db' h in
    record {
      owners = λ s. rw em (rw es (ground (arith, owned.owners s)));
      unique = λ s. rw es (elim (Bool-cases (id == s)) [
        | inl here ↦
            let same : s ≡ id = ground arith in
            let none_there =
              ap (λ i. count (shop_is i) db.shops) same ∙ new_row id db.shops fresh in
            ground (arith, here, none_there)
        | inr away ↦ ground (arith, away, owned.unique s)
      ]);
      keyed = λ s u. rw em (added_once id user owner s u db.members new (owned.keyed s u));
    }

plain_role : (role : Word) → bad_role role ≡ false → (role == owner) ≡ false
plain_role role sound = ground (arith, sound)

set_member-IsOwned :
    (user shop target : Uuid) (role : Word) (db db' : ShopDb)
    → set_member user shop target role db ≡ ok (tt, db')
    → IsOwned db
    → IsOwned db'
set_member-IsOwned user shop target role db db' h owned =
    let (db1, sound, kept, wrote, em, es) = set_member_ok user shop target role db db' h in
    let plain = plain_role role sound in
    moved-IsOwned db1 db' em es
      (write_member-IsOwned shop target role db db1 plain kept wrote owned)

with_asset_id : (field : Word) (url : List ℕ) (s : Shop) → (with_asset field url s).id ≡ s.id
with_asset_id field url s = ground arith

-- A call of the seller process that ends without an error.
pub data Step (db db' : ShopDb) : Type 0 where
  created :
      (user : Uuid) (name slug : List ℕ) (id : Uuid)
      → create_shop user name slug db ≡ ok (id, db')
      → Step db db'
  described_as :
      (user shop : Uuid) (i : ShopInput) → update_shop user shop i db ≡ ok (tt, db') → Step db db'
  joined :
      (user shop target : Uuid) (role : Word)
      → set_member user shop target role db ≡ ok (tt, db')
      → Step db db'
  pictured :
      (user shop : Uuid) (field : Word) (url : List ℕ)
      → set_asset user shop field url db ≡ ok (tt, db')
      → Step db db'
  judged :
      (user shop : Uuid) (status : Word)
      → set_status user shop status db ≡ ok (tt, db')
      → Step db db'

pub data Steps (db : ShopDb) : ShopDb → Type 0 where
  start : Steps db db
  after : {mid last : ShopDb} → Steps db mid → Step mid last → Steps db last

Step-IsOwned : (db db' : ShopDb) → Step db db' → IsOwned db → IsOwned db'
Step-IsOwned db db' (created user name slug id h) owned =
    create_shop-IsOwned user name slug id db db' h owned
Step-IsOwned db db' (described_as user shop i h) owned =
    let (em, es) = update_shop_ok user shop i db db' h in
    kept-IsOwned (shop_is shop) (described i) db db' (λ s. refl) em es owned
Step-IsOwned db db' (joined user shop target role h) owned =
    set_member-IsOwned user shop target role db db' h owned
Step-IsOwned db db' (pictured user shop field url h) owned =
    let (em, es) = set_asset_ok user shop field url db db' h in
    let f = with_asset field url in
    kept-IsOwned (live_shop shop) f db db' (with_asset_id field url) em es owned
Step-IsOwned db db' (judged user shop status h) owned =
    let (em, es) = set_status_ok user shop status db db' h in
    kept-IsOwned (live_shop shop) (λ s. record s { status = status }) db db' (λ s. refl) em es owned

-- Where the shops have different identifiers, each of them one owner row, and each user at most one
-- row in a shop, this holds after any sequence of successful calls of Create, Update, SetMember,
-- SetAsset and Status.
pub Steps-IsOwned : (db db' : ShopDb) → Steps db db' → IsOwned db → IsOwned db'
Steps-IsOwned db _ start owned = owned
Steps-IsOwned db db' (after {mid} steps s) owned =
    Step-IsOwned mid db' s (Steps-IsOwned db mid steps owned)
