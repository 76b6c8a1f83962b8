-- ===== src/Voucher/Offers/Once.antt =====
-- What a redemption requires and writes.
use mathlib.Core.Path.{subst}
use e_commerce_be.Prelude.{
  ℕ, ◌≡◌, ap, ◌∙◌, Option, none, List, [], ◌∷◌, find, arith, inl, inr, Option-cases,
}
use e_commerce_be.Shared.{Uuid, Result, ok, err}
use e_commerce_be.Models.{CouponRedemption, CouponRule}
use e_commerce_be.Store.{Db, Call, ◌>>◌, ◌>>=◌, bind_ok, lift, pure}
use e_commerce_be.Voucher.{Line, Quote, calculate}
use e_commerce_be.Voucher.Offers.{
  Offer, redeemed_by, find_code, get, one_rule, consume, count_use, redeem,
}

-- The redemption that a user has of a coupon.
abbrev pub redemption : Uuid → Uuid → Db → Option CouponRedemption
redemption coupon user db = find (redeemed_by coupon user) db.redemptions

find_code_frame :
    (code : List ℕ) (o : Offer) (db db' : Db) → find_code code db ≡ ok (o, db') → db' ≡ db
unfolding find_code get
find_code_frame code o db db' h = ground arith

one_rule_ok :
    (o : Offer) (rule : CouponRule) (db db' : Db)
    → one_rule o db ≡ ok (rule, db')
    → (db' ≡ db) × (o.rules ≡ rule ∷ [])
unfolding one_rule
one_rule_ok o rule db db' h = ground arith

consume_ok :
    (coupon user order : Uuid) (db db' : Db)
    → consume coupon user order db ≡ ok (tt, db')
    → (redemption coupon user db ≡ none)
      × (db'.redemptions
          ≡ record { coupon_id = coupon; user_id = user; order_id = order } ∷ db.redemptions)
unfolding consume count_use
consume_ok coupon user order db db' h = elim (Option-cases (redemption coupon user db)) [
  | inl fresh ↦ (fresh, ground arith)
  | inr (old, e) ↦ ground arith
]

-- The last two steps.
spend_ok :
    (coupon user order : Uuid) (quote q : Quote) (db db' : Db)
    → (consume coupon user order >> pure quote) db ≡ ok (q, db')
    → (quote ≡ q) × (consume coupon user order db ≡ ok (tt, db'))
spend_ok coupon user order quote q db db' h =
    let (_, d, e, k) = bind_ok (λ _. pure quote) (consume coupon user order) db h in
    (ground arith, ground arith)

quoted_ok :
    (coupon user order : Uuid) (r : Result Quote) (q : Quote) (db db' : Db)
    → (lift r >>= λ quote. consume coupon user order >> pure quote) db ≡ ok (q, db')
    → (r ≡ ok q) × (consume coupon user order db ≡ ok (tt, db'))
quoted_ok coupon user order (err x) q db db' h = cc
quoted_ok coupon user order (ok quote) q db db' h =
    let (same, spent) = spend_ok coupon user order quote q db db' h in (ap ok same, spent)

-- A redemption that succeeds is of a coupon that the user had not redeemed; it gives the quote of
-- `Calculate` for the coupon as it was found by its code, and records the redemption.
pub redeem_lem :
    (now : ℕ) (user order : Uuid) (code : List ℕ) (lines : List Line) (q : Quote) (db db' : Db)
    → redeem now user order code lines db ≡ ok (q, db')
    → (o : Offer) × (rule : CouponRule) × (find_code code db ≡ ok (o, db))
      × (o.rules ≡ rule ∷ [])
      × (calculate o.coupon rule lines now ≡ ok q)
      × (find (redeemed_by o.coupon.id user) db.redemptions ≡ none)
      × (db'.redemptions
          ≡ record { coupon_id = o.coupon.id; user_id = user; order_id = order } ∷ db.redemptions)
unfolding redeem
redeem_lem now user order code lines q db db' h =
    let spend : Offer → Quote → Call Quote =
      λ o quote. consume o.coupon.id user order >> pure quote in
    let price : Offer → CouponRule → Call Quote =
      λ o rule. lift (calculate o.coupon rule lines now) >>= spend o in
    let (o, d1, e1, h1) = bind_ok (λ o. one_rule o >>= price o) (find_code code) db h in
    let s1 : d1 ≡ db = find_code_frame code o db d1 e1 in
    let (rule, d2, e2, h2) = bind_ok (price o) (one_rule o) d1 h1 in
    let (s2, rules) = one_rule_ok o rule d1 d2 e2 in
    let at_db : price o rule db ≡ ok (q, db') =
      subst (λ d. price o rule d ≡ ok (q, db')) (s2 ∙ s1) h2 in
    let (given, spent) =
      quoted_ok o.coupon.id user order (calculate o.coupon rule lines now) q db db' at_db in
    let (fresh, written) = consume_ok o.coupon.id user order db db' spent in
    (o, rule, e1 ∙ ap (λ d. ok (o, d)) s1, rules, given, fresh, written)
