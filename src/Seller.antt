-- ===== src/Seller.antt =====
-- internal/modules/seller: shops and their members, in the database of the seller process.
pub mod Owned
pub mod History
use e_commerce_be.Prelude.{
  ℕ, suc, Bool, true, false, not, ◌&&◌, ◌||◌, Option, none, some, List, [], ◌∷◌, ◌==◌, ℤ, ltb,
  length, find, count, update, delete,
}
use e_commerce_be.Shared.{
  Word, Uuid, forbidden, invalid, conflict, not_found, constraint, ok, err, is_some, text_eq,
}
use e_commerce_be.Text.{codes, is_blank, is_empty, byte_len}
use e_commerce_be.Words.{
  no_text, pending, approved, rejected, suspended, owner, manager, staff, admin, of_shop,
  seller_updated, seller_member_updated, seller_search_updated, seller_status_changed, logo_url,
  banner_url,
}
use e_commerce_be.Models.{User, UserRole}
use e_commerce_be.Directory.{is_member}
use e_commerce_be.Tx.{Tx, ⊤, ◌>>=◌, ◌>>◌, first, modify, pure, raise_if}

pub record Shop : Type 0 where
  pub id : Uuid
  pub name : List ℕ
  pub slug : List ℕ
  pub description : List ℕ
  pub status : Word
  pub logo : List ℕ
  pub banner : List ℕ
  pub pickup : List (List ℕ)
  pub deleted_at : Option ℕ

pub record Member : Type 0 where
  pub seller_id : Uuid
  pub user_id : Uuid
  pub role : Word

-- A row of the outbox: the shop and the kind of the event.
pub record Notice : Type 0 where
  pub shop : Uuid
  pub kind : Word

pub record ShopDb : Type 0 where
  pub users : List User
  pub user_roles : List UserRole
  pub shops : List Shop
  pub members : List Member
  pub outbox : List Notice
  pub next_id : Uuid

abbrev pub Call : Type 0 → Type 0
Call A = Tx ShopDb A

abbrev pub live_shop : Uuid → Shop → Bool
live_shop id s = s.id == id && not (is_some s.deleted_at)

abbrev pub live_user : Uuid → User → Bool
live_user id u = u.id == id && not (is_some u.deleted_at)

abbrev pub member_of : Uuid → Uuid → Member → Bool
member_of shop user m = m.seller_id == shop && m.user_id == user

-- The query of `ManagementRepository.Role`.
abbrev acting : Uuid → Uuid → ShopDb → Member → Bool
acting shop user db m =
    member_of shop user m && is_member m.role && is_some (find (live_user user) db.users)

unfoldable pub role_in : Uuid → Uuid → Call Word
role_in user shop db = elim (find (live_shop shop) db.shops) [
  | none ↦ err not_found
  | some s ↦ elim (find (acting shop user db) db.members) [
    | none ↦ err forbidden
    | some m ↦ ok (m.role, db)
  ]
]

unfoldable pub notice : Uuid → Word → Call ⊤
notice shop kind =
    modify λ db. record db { outbox = record { shop = shop; kind = kind } ∷ db.outbox }

pub record ShopInput : Type 0 where
  pub name : List ℕ
  pub description : List ℕ
  -- The six lines of the pickup address.
  pub pickup : List (List ℕ)

abbrev bad_line : List ℕ → Bool
bad_line line = is_blank line || ltb 300 (byte_len line)

-- `ShopInput.Validate`
unfoldable pub bad_shop : ShopInput → Bool
bad_shop i =
    is_blank i.name
    || ltb 200 (byte_len i.name)
    || ltb 5000 (byte_len i.description)
    || is_some (find bad_line i.pickup)

abbrev pub shop_is : Uuid → Shop → Bool
shop_is id s = s.id == id

abbrev pub described : ShopInput → Shop → Shop
described i s = record s { name = i.name; description = i.description; pickup = i.pickup }

unfoldable pub update_shop : Uuid → Uuid → ShopInput → Call ⊤
unfolding bad_shop role_in notice
update_shop user shop i = do
  raise_if (bad_shop i) invalid
  role ← role_in user shop
  raise_if (not (role == owner) && not (role == manager)) forbidden
  modify (λ db. record db { shops = update (shop_is shop) (described i) db.shops })
  notice shop seller_updated
  notice shop seller_search_updated

abbrev pub with_role : Word → Member → Member
with_role role m = record m { role = role }

-- `ManagementRepository.SetMember`: DELETE, or an upsert for a user that is there.
unfoldable pub write_member : Uuid → Uuid → Word → Call ⊤
write_member shop user role db = elim (role == no_text) [
  | true ↦ ok (tt, record db { members = delete (member_of shop user) db.members })
  | false ↦ elim (find (live_user user) db.users) [
    | none ↦ err not_found
    | some u ↦ elim (find (member_of shop user) db.members) [
      | some m ↦
          ok (tt, record db { members = update (member_of shop user) (with_role role) db.members })
      | none ↦ ok (
        tt,
        record db {
          members = record { seller_id = shop; user_id = user; role = role } ∷ db.members;
        },
      )
    ]
  ]
]

-- An owner's row may not be written.
abbrev pub keeps_owner : Uuid → Uuid → ShopDb → Bool
keeps_owner shop user db = elim (find (member_of shop user) db.members) [
  | none ↦ false
  | some m ↦ m.role == owner
]

abbrev pub bad_role : Word → Bool
bad_role role = not (role == no_text) && not (role == manager) && not (role == staff)

unfoldable pub set_member : Uuid → Uuid → Uuid → Word → Call ⊤
unfolding role_in write_member notice
set_member user shop target role = do
  raise_if (target == 0 || bad_role role) invalid
  own ← role_in user shop
  raise_if (not (own == owner)) forbidden
  λ db. raise_if (keeps_owner shop target db) conflict db
  write_member shop target role
  notice shop seller_member_updated

unfoldable pub starts_with : List ℕ → List ℕ → Bool
starts_with [] s = true
starts_with (c ∷ cs) [] = false
starts_with (c ∷ cs) (d ∷ s) = c == d && starts_with cs s

abbrev pub with_asset : Word → List ℕ → Shop → Shop
with_asset field url s = elim (field == logo_url) [
  | true ↦ record s { logo = url }
  | false ↦ record s { banner = url }
]

abbrev bad_url : List ℕ → Bool
bad_url url =
    ltb 2048 (byte_len url)
    || (not (is_empty url)
        && not (starts_with (codes "https://") url || starts_with (codes "http://") url))

unfoldable pub set_asset : Uuid → Uuid → Word → List ℕ → Call ⊤
unfolding role_in starts_with
set_asset user shop field url = do
  role_in user shop
  raise_if (not (field == logo_url) && not (field == banner_url)) invalid
  raise_if (bad_url url) invalid
  modify (λ db. record db { shops = update (live_shop shop) (with_asset field url) db.shops })

abbrev pub new_shop : List ℕ → List ℕ → Uuid → Shop
new_shop name slug id = record {
  id = id;
  name = name;
  slug = slug;
  description = [];
  status = pending;
  logo = [];
  banner = [];
  pickup = [];
  deleted_at = none;
}

abbrev same_slug : List ℕ → Shop → Bool
same_slug slug s = text_eq s.slug slug

abbrev user_is : Uuid → User → Bool
user_is id u = u.id == id

-- UNIQUE (slug), PRIMARY KEY (id), PRIMARY KEY (seller_id, user_id), and user_id REFERENCES users (id)
unfoldable pub insert_shop : List ℕ → List ℕ → Uuid → Call Uuid
insert_shop name slug user db =
    elim (is_some (find (same_slug slug) db.shops)
      || is_some (find (shop_is db.next_id) db.shops)
      || is_some (find (member_of db.next_id user) db.members)
      || not (is_some (find (user_is user) db.users))) [
        | true ↦ err constraint
        | false ↦ ok (
          db.next_id,
          record db {
            shops = new_shop name slug db.next_id ∷ db.shops;
            members = record { seller_id = db.next_id; user_id = user; role = owner } ∷ db.members;
            next_id = suc db.next_id;
          },
        )
      ]

unfoldable pub create_shop : Uuid → List ℕ → List ℕ → Call Uuid
unfolding insert_shop
create_shop user name slug = do
  raise_if (is_blank name || is_blank slug) invalid
  insert_shop name slug user

abbrev pub is_admin : Uuid → ShopDb → UserRole → Bool
is_admin user db r =
    r.user_id == user
    && r.role == admin
    && not (is_some r.role_deleted_at)
    && is_some (find (live_user user) db.users)

-- `Service.Status`; the update must change a row.
unfoldable pub set_status : Uuid → Uuid → Word → Call ⊤
unfolding notice
set_status user shop status = do
  raise_if (not (status == approved || status == rejected || status == suspended)) invalid
  λ db. raise_if (count (is_admin user db) db.user_roles == 0) forbidden db
  first (λ db. find (live_shop shop) db.shops)
  modify (λ db. record db {
    shops = update (live_shop shop) (λ s. record s { status = status }) db.shops;
  })
  notice shop seller_status_changed
