-- ===== src/Order/Checkout/Redeemed.antt =====
-- Histories of checkouts and of the calls of internal/modules/voucher, and the redemptions of a user.
use e_commerce_be.Prelude.{ℕ, ◌≡◌, ◌≢◌, ap, sym, ◌∙◌, Bool, Option, none, List, find, arith}
use e_commerce_be.Shared.{Uuid, ok}
use e_commerce_be.Models.{Order}
use e_commerce_be.Store.{Db, require_admin}
use e_commerce_be.Directory.{Directory}
use e_commerce_be.Payment.Sepay.{Config}
use e_commerce_be.Voucher.{Line}
use e_commerce_be.Voucher.Code.{Input}
use e_commerce_be.Voucher.Offers.{
  Offer, find_code, redeem, get, one_rule, create_offer, set_active, manage, insert_offer,
  write_active,
}
use e_commerce_be.Voucher.{Quote}
use e_commerce_be.Voucher.Offers.Once.{redemption, redeem_lem}
use e_commerce_be.Order.Checkout.Place.{checkout, Request}
use e_commerce_be.Order.Checkout.Placed.{given}
use e_commerce_be.Order.Checkout.Coupons.{Recorded, redeem-Recorded, checkout-Recorded}

-- A checkout, or a call of internal/modules/voucher, that succeeds; or a call of another module,
-- which does not write the table of redemptions.
pub data Step (db db' : Db) : Type 0 where
  placed :
      (d : Directory) (config : Config) (now : ℕ) (r : Request) (o : Order)
      → checkout d config now r db ≡ ok (o, db')
      → Step db db'
  redeemed :
      (now : ℕ) (user order : Uuid) (code : List ℕ) (lines : List Line) (q : Quote)
      → redeem now user order code lines db ≡ ok (q, db')
      → Step db db'
  offered :
      (upper_other : ℕ → ℕ) (d : Directory) (user : Uuid) (seller : Option Uuid) (input : Input)
      (o : Offer)
      → create_offer upper_other d user seller input db ≡ ok (o, db')
      → Step db db'
  switched :
      (d : Directory) (user id : Uuid) (active : Bool)
      → set_active d user id active db ≡ ok (tt, db')
      → Step db db'
  elsewhere : db'.redemptions ≡ db.redemptions → Step db db'

pub data Steps (db : Db) : Db → Type 0 where
  start : Steps db db
  after : {mid last : Db} → Steps db mid → Step mid last → Steps db last

create_offer_frame :
    (upper_other : ℕ → ℕ) (d : Directory) (user : Uuid) (seller : Option Uuid) (input : Input)
    (o : Offer) (db db' : Db)
    → create_offer upper_other d user seller input db ≡ ok (o, db')
    → db'.redemptions ≡ db.redemptions
unfolding create_offer manage insert_offer require_admin
create_offer_frame upper_other d user seller input o db db' h = ground arith

set_active_frame :
    (d : Directory) (user id : Uuid) (active : Bool) (db db' : Db)
    → set_active d user id active db ≡ ok (tt, db')
    → db'.redemptions ≡ db.redemptions
unfolding set_active get one_rule manage write_active require_admin
set_active_frame d user id active db db' h = ground arith

Step-Recorded :
    (coupon user : Uuid) (db db' : Db)
    → Step db db'
    → Recorded coupon user db
    → Recorded coupon user db'
Step-Recorded coupon user db db' (placed d config now r o h) kept =
    checkout-Recorded coupon user d config now r o db db' h kept
Step-Recorded coupon user db db' (redeemed now u order code lines q h) kept =
    redeem-Recorded coupon user now u order code lines q db db' h kept
Step-Recorded coupon user db db' (offered upper_other d u seller input o h) kept =
    rw (create_offer_frame upper_other d u seller input o db db' h) kept
Step-Recorded coupon user db db' (switched d u id active h) kept =
    rw (set_active_frame d u id active db db' h) kept
Step-Recorded coupon user db db' (elsewhere same) kept = rw same kept

Steps-Recorded :
    (coupon user : Uuid) (db db' : Db)
    → Steps db db'
    → Recorded coupon user db
    → Recorded coupon user db'
Steps-Recorded coupon user db _ start kept = kept
Steps-Recorded coupon user db db' (after {mid} steps s) kept =
    Step-Recorded coupon user mid db' s (Steps-Recorded coupon user db mid steps kept)

-- Once a redemption has succeeded, the same user redeems the same coupon no more: after any further
-- checkouts, redemptions, offers and activations, and any calls of other modules that leave the table
-- of redemptions alone, a call with the code that then gives that coupon does not succeed, for any
-- order, time and cart.
pub redeem_once :
    (now later : ℕ) (user order order' : Uuid) (code code' : List ℕ) (lines lines' : List Line)
    (q q' : Quote) (db db' db2 db3 : Db) (o o' : Offer)
    → redeem now user order code lines db ≡ ok (q, db')
    → find_code code db ≡ ok (o, db)
    → Steps db' db2
    → find_code code' db2 ≡ ok (o', db2)
    → o'.coupon.id ≡ o.coupon.id
    → redeem later user order' code' lines' db2 ≢ ok (q', db3)
unfolding find
redeem_once now later user order order' code code' lines lines' q q' db db' db2 db3 o o' h e steps
      e' same again =
    let (o1, rule, found, rules, given, fresh, written) =
      redeem_lem now user order code lines q db db' h in
    let (o2, rule2, found2, rules2, given2, fresh2, written2) =
      redeem_lem later user order' code' lines' q' db2 db3 again in
    let one : o1 ≡ o = cc in
    let two : o2 ≡ o' = cc in
    let id1 : o1.coupon.id ≡ o2.coupon.id =
      ap (λ (x : Offer). x.coupon.id) one
      ∙ (sym same ∙ ap (λ (x : Offer). x.coupon.id) (sym two)) in
    let there : Recorded o1.coupon.id user db' = rw written (ground arith) in
    let still = Steps-Recorded o1.coupon.id user db' db2 steps there in
    let gone : redemption o1.coupon.id user db2 ≡ none =
      ap (λ k. redemption k user db2) id1 ∙ fresh2 in
    ground (arith, still, gone)
