-- ===== src/Seller/Owned.antt =====
-- The rows of owners: what writing a membership does to their number.
use e_commerce_be.Prelude.{
  ◌≡◌, refl, ap, ◌∙◌, ◌≤◌, inl, inr, Bool, false, ◌&&◌, none, some, List, [], ◌∷◌, ◌==◌, find,
  count, update, delete, count-update, arith, Bool-cases, Option-cases,
}
use e_commerce_be.Shared.{Word, Uuid, ok}
use e_commerce_be.Words.{no_text, owner}
use e_commerce_be.Seller.{
  Shop, Member, ShopDb, member_of, shop_is, with_role, keeps_owner, write_member,
}

abbrev pub owns : Uuid → Member → Bool
owns shop m = m.seller_id == shop && m.role == owner

-- Every shop has one row of an owner, and (seller_id, user_id) is a key.
pub record IsOwned (db : ShopDb) : Type 0 where
  pub owners : (shop : Uuid) → count (owns shop) db.members ≡ count (shop_is shop) db.shops
  pub unique : (shop : Uuid) → count (shop_is shop) db.shops ≤ 1
  pub keyed : (shop user : Uuid) → count (member_of shop user) db.members ≤ 1

-- An identifier that no row has.
pub new_row :
    (shop : Uuid) (shops : List Shop)
    → find (shop_is shop) shops ≡ none
    → count (shop_is shop) shops ≡ 0
unfolding count find
new_row shop [] new = refl
new_row shop (x ∷ xs) new = ground (arith, new_row shop xs)

module _ (q p : Member → Bool) where
  count-delete_le : (xs : List Member) → count q (delete p xs) ≤ count q xs
  unfolding count delete
  count-delete_le [] = omega arith
  count-delete_le (x ∷ xs) = ground (arith, count-delete_le xs)

  pub none_left : (xs : List Member) → find p xs ≡ none → count p xs ≡ 0
  unfolding count find
  none_left [] lost = refl
  none_left (x ∷ xs) lost = ground (arith, none_left xs)

  both_le : (xs : List Member) → count (λ x. p x && q x) xs ≤ count p xs
  unfolding count
  both_le [] = omega arith
  both_le (x ∷ xs) = ground (arith, both_le xs)

  -- Where the one row that `p` holds of is not counted by `q`, none is counted by both.
  only_row :
      (xs : List Member) (m : Member)
      → count p xs ≤ 1
      → find p xs ≡ some m
      → q m ≡ false
      → count (λ x. p x && q x) xs ≡ 0
  unfolding count find
  only_row [] m le found other = refl
  only_row (x ∷ xs) m le found other = elim (Bool-cases (p x)) [
    | inl here ↦ ground (arith, here, both_le xs)
    | inr away ↦ ground (arith, away, only_row xs m)
  ]

  count-delete :
      (xs : List Member) → count (λ x. p x && q x) xs ≡ 0 → count q (delete p xs) ≡ count q xs
  unfolding count delete
  count-delete [] h = refl
  count-delete (x ∷ xs) h = ground (arith, count-delete xs)

  count-rewrite :
      (f : Member → Member) (xs : List Member)
      → ((x : Member) → q (f x) ≡ false)
      → count (λ x. p x && q x) xs ≡ 0
      → count q (update p f xs) ≡ count q xs
  unfolding count update
  count-rewrite f [] plain h = refl
  count-rewrite f (x ∷ xs) plain h = ground (arith, plain x, count-rewrite f xs plain)

count-plain :
    (q : Member → Bool) (m : Member) (ms : List Member)
    → q m ≡ false
    → count q (m ∷ ms) ≡ count q ms
unfolding count
count-plain q m ms h = ground (arith, h)

pub added_once :
    (shop user role s u : Uuid) (ms : List Member)
    → find (member_of shop user) ms ≡ none
    → count (member_of s u) ms ≤ 1
    → count (member_of s u) (record { seller_id = shop; user_id = user; role = role } ∷ ms) ≤ 1
unfolding count
added_once shop user role s u ms new le = elim (Bool-cases (shop == s && user == u)) [
  | inl here ↦
      let p : s ≡ shop = ground arith in
      let q : u ≡ user = ground arith in
      let zeroth = none_left (member_of shop user) (member_of shop user) ms new in
      let same : count (member_of s u) ms ≡ 0 =
        ap (λ i. count (member_of i u) ms) p ∙ (ap (λ i. count (member_of shop i) ms) q ∙ zeroth) in
      ground (arith, here, same)
  | inr away ↦ ground (arith, away, le)
]

unowned :
    (shop user s : Uuid) (db : ShopDb)
    → keeps_owner shop user db ≡ false
    → IsOwned db
    → count (λ x. member_of shop user x && owns s x) db.members ≡ 0
unowned shop user s db kept owned =
    let row = member_of shop user in
    elim (Option-cases (find row db.members)) [
      | inl new ↦
          let le = both_le (owns s) row db.members in
          let zeroth = none_left (owns s) row db.members new in omega (arith, le, zeroth)
      | inr (m, old) ↦
          only_row (owns s) row db.members m (owned.keyed shop user) old (ground (arith, kept, old))
    ]

-- What `write_member` does where the row it writes is not an owner's.
pub write_member-IsOwned :
    (shop user : Uuid) (role : Word) (db db' : ShopDb)
    → (role == owner) ≡ false
    → keeps_owner shop user db ≡ false
    → write_member shop user role db ≡ ok (tt, db')
    → IsOwned db
    → IsOwned db'
unfolding write_member
write_member-IsOwned shop user role db db' plain kept h owned =
    let row = member_of shop user in
    elim (Bool-cases (role == no_text)) [
      | inl gone ↦
          let es : db'.members ≡ delete row db.members = ground (arith, h, gone) in
          let ss : db'.shops ≡ db.shops = ground (arith, h, gone) in
          record {
            owners = λ s. rw es (
                rw ss (
                  count-delete (owns s) row db.members (unowned shop user s db kept owned)
                  ∙ owned.owners s));
            unique = λ s. rw ss (owned.unique s);
            keyed = λ s u. rw es (
                let le = count-delete_le (member_of s u) row db.members in
                let key = owned.keyed s u in omega (arith, le, key));
          }
      | inr set ↦ elim (Option-cases (find row db.members)) [
        | inl new ↦
            let made : Member = record { seller_id = shop; user_id = user; role = role } in
            let es : db'.members ≡ made ∷ db.members = ground (arith, h, set, new) in
            let ss : db'.shops ≡ db.shops = ground (arith, h, set, new) in
            record {
              owners = λ s. rw es (
                  rw ss (
                    count-plain (owns s) made db.members (ground (arith, plain)) ∙ owned.owners s));
              unique = λ s. rw ss (owned.unique s);
              keyed = λ s u. rw es (added_once shop user role s u db.members new (owned.keyed s u));
            }
        | inr (m, old) ↦
            let es : db'.members ≡ update row (with_role role) db.members =
              ground (arith, h, set, old) in
            let ss : db'.shops ≡ db.shops = ground (arith, h, set, old) in
            record {
              owners = λ s. rw es (
                  rw ss (
                    count-rewrite (owns s) row (with_role role) db.members
                      (λ x. ground (arith, plain)) (unowned shop user s db kept owned)
                    ∙ owned.owners s));
              unique = λ s. rw ss (owned.unique s);
              keyed = λ s u. rw es (
                  rw (count-update (member_of s u) row (with_role role) (λ x. refl) db.members)
                    (owned.keyed s u));
            }
      ]
    ]
