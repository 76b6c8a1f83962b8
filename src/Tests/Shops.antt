-- ===== src/Tests/Shops.antt =====
-- User 1 opens shop 5, is joined by user 2, and describes the shop.
use e_commerce_be.Prelude.{ℕ, ◌≡◌, refl, arith, none, List, [], ◌∷◌, count}
use e_commerce_be.Shared.{ok, err}
use e_commerce_be.Text.{codes}
use e_commerce_be.Words.{manager}
use e_commerce_be.Seller.{ShopDb, ShopInput, create_shop, set_member, update_shop}
use e_commerce_be.Seller.Owned.{IsOwned}
use e_commerce_be.Seller.History.{Steps, start, after, created, described_as, joined, Steps-IsOwned}

abbrev nothing : ShopDb
nothing = record {
  users = record { id = 1; deleted_at = none } ∷ record { id = 2; deleted_at = none } ∷ [];
  user_roles = [];
  shops = [];
  members = [];
  outbox = [];
  next_id = 5;
}

abbrev opened : ShopDb
opened = elim (create_shop 1 (codes "Tea") (codes "tea") nothing) [ ok r ↦ r.1 | err e ↦ nothing ]

abbrev staffed : ShopDb
staffed = elim (set_member 1 5 2 manager opened) [ ok r ↦ r.1 | err e ↦ nothing ]

abbrev tea : ShopInput
tea = record {
  name = codes "Tea House";
  description = [];
  pickup = codes "An" ∷ codes "090" ∷ codes "1 A" ∷ codes "W" ∷ codes "D" ∷ codes "P" ∷ [];
}

abbrev told : ShopDb
told = elim (update_shop 2 5 tea staffed) [ ok r ↦ r.1 | err e ↦ nothing ]

opened_run : create_shop 1 (codes "Tea") (codes "tea") nothing ≡ ok (5, opened)
unfolding create_shop e_commerce_be.Text.trim_space e_commerce_be.Prelude.find
opened_run = refl

staffed_run : set_member 1 5 2 manager opened ≡ ok (tt, staffed)
unfolding set_member e_commerce_be.Prelude.find create_shop e_commerce_be.Text.trim_space
staffed_run = refl

told_run : update_shop 2 5 tea staffed ≡ ok (tt, told)
unfolding update_shop e_commerce_be.Text.trim_space e_commerce_be.Text.byte_len
    e_commerce_be.Prelude.find set_member create_shop
told_run = refl

days : Steps nothing told
days =
    after
      (after (after start (created 1 (codes "Tea") (codes "tea") 5 opened_run))
        (joined 1 5 2 manager staffed_run))
      (described_as 2 5 tea told_run)

nothing-IsOwned : IsOwned nothing
unfolding count
nothing-IsOwned = record {
  owners = λ s. refl;
  unique = λ s. omega arith;
  keyed = λ s u. omega arith;
}

Steps-IsOwned_example : IsOwned told
Steps-IsOwned_example = Steps-IsOwned nothing told days nothing-IsOwned
