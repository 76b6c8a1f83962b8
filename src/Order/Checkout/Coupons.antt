-- ===== src/Order/Checkout/Coupons.antt =====
-- The table of redemptions, before and after a checkout.
use mathlib.Core.Path.{subst}
use e_commerce_be.Prelude.{
  ℕ, suc, ◌≡◌, sym, ◌∙◌, Bool, not, ◌&&◌, true, List, [], ◌∷◌, ◌==◌, find, update, arith, inl, inr,
  Bool-cases, Option-cases, ℤ, pos,
}
use e_commerce_be.Text.{is_empty}
use e_commerce_be.Shared.{Uuid, Word, ok, is_some, Result-cases}
use e_commerce_be.Models.{User, SellerOrder, Order}
use e_commerce_be.Store.{
  Db, Call, ⊤, ◌>>◌, ◌>>=◌, bind_ok, insert_order, insert_movement, insert_order_item,
  insert_payment, insert_seller_order, enqueue,
}
use e_commerce_be.Directory.{Directory}
use e_commerce_be.Payment.Sepay.{Config}
use e_commerce_be.Inventory.{add_stock}
use e_commerce_be.Voucher.{Line}
use e_commerce_be.Voucher.Offers.{redeem}
use e_commerce_be.Voucher.{Quote}
use e_commerce_be.Voucher.Offers.Once.{redemption, redeem_lem}
use e_commerce_be.Order.Fulfill.{payment_of}
use e_commerce_be.Order.Checkout.{
  CheckoutLine, Basket, Shops, reduced, apply_coupon, save_order, place_lines, save_group,
  save_groups, voucher_lines, group_of, group_for, grown, sold, sold_item, sold_movement,
  commission_of, rate_in,
}
use e_commerce_be.Order.Checkout.Place.{
  replay, checkout, key_is, Request, chosen_items, new_order, finish_order, fill_order,
  create_payment, empty_cart, conclude, place,
}
use e_commerce_be.Order.Checkout.Frames.{read_lines_frame}
use e_commerce_be.Order.Checkout.Placed.{given, discounted, place_ok}

-- The table of redemptions is as it was.
abbrev Same : Db → Db → Type 0
Same db db' = db'.redemptions ≡ db.redemptions

line_writes :
    (order group : Uuid) (line : CheckoutLine) (x : ℤ) (db db2 db3 db4 : Db)
    → insert_order_item (sold_item group line x) db ≡ ok (tt, db2)
    → add_stock line.variant.id (sold order line) db2 ≡ ok (tt, db3)
    → insert_movement (sold_movement order line) db3 ≡ ok (tt, db4)
    → Same db db4
unfolding add_stock insert_movement insert_order_item
line_writes order group line x db db2 db3 db4 k2 k3 k4 =
    let a : Same db db2 = ground (arith, k2) in
    let b : Same db2 db3 = ground (arith, k3) in
    let c : Same db3 db4 = ground (arith, k4) in c ∙ b ∙ a

group_writes :
    (order seller : Uuid) (groups : List SellerOrder) (r : SellerOrder × List SellerOrder)
    (db db' : Db)
    → group_for order seller groups db ≡ ok (r, db')
    → Same db db'
unfolding group_for insert_seller_order
group_writes order seller groups r db db' h = ground arith

place_lines_writes :
    (order : Uuid) (lines : List CheckoutLine) (discounts : List ℤ) (groups r : List SellerOrder)
    (db db' : Db)
    → place_lines order lines discounts groups db ≡ ok (r, db')
    → Same db db'
unfolding place_lines
place_lines_writes order [] discounts groups r db db' h = ground arith
place_lines_writes order (line ∷ lines) [] groups r db db' h = cc
place_lines_writes order (line ∷ lines) (x ∷ discounts) groups r db db' h =
    elim (Result-cases (group_for order line.product.seller_id groups db)) [
      | inl (e, k) ↦ ground arith
      | inr (((g, opened), db1), k) ↦
          let kept = group_writes order line.product.seller_id groups (g, opened) db db1 k in
          let rest : Call (List SellerOrder) =
            place_lines order lines discounts
              (update (group_of line.product.seller_id) (grown line x) opened) in
          let moved : Call ⊤ = insert_movement (sold_movement order line) in
          let taken : Call ⊤ = add_stock line.variant.id (sold order line) in
          let item : Call ⊤ = insert_order_item (sold_item g.id line x) in
          let body : (item >> (taken >> (moved >> rest))) db1 ≡ ok (r, db') = ground arith in
          let (_, db2, k2, h2) = bind_ok (λ _. taken >> (moved >> rest)) item db1 body in
          let (_, db3, k3, h3) = bind_ok (λ _. moved >> rest) taken db2 h2 in
          let (_, db4, k4, h4) = bind_ok (λ _. rest) moved db3 h3 in
          place_lines_writes order lines discounts
            (update (group_of line.product.seller_id) (grown line x) opened) r db4 db' h4
          ∙ line_writes order g.id line x db1 db2 db3 db4 k2 k3 k4
          ∙ kept
    ]

save_group_writes : (g : SellerOrder) (db db' : Db) → save_group g db ≡ ok (tt, db') → Same db db'
unfolding save_group
save_group_writes g db db' h = ground arith

save_groups_writes :
    (shops : Shops) (groups : List SellerOrder) (db db' : Db)
    → save_groups shops groups db ≡ ok (tt, db')
    → Same db db'
unfolding save_groups
save_groups_writes shops [] db db' h = ground arith
save_groups_writes shops (g ∷ groups) db db' h =
    let priced = record g { commission = commission_of g.total (rate_in g.seller_id shops) } in
    let rest : Call ⊤ = save_groups shops groups in
    let (_, db1, k, h1) = bind_ok (λ _. rest) (save_group priced) db h in
    save_groups_writes shops groups db1 db' h1 ∙ save_group_writes priced db db1 k

save_order_writes : (o : Order) (db db' : Db) → save_order o db ≡ ok (tt, db') → Same db db'
unfolding save_order
save_order_writes o db db' h = ground arith

insert_order_writes : (o : Order) (db db' : Db) → insert_order o db ≡ ok (tt, db') → Same db db'
unfolding insert_order
insert_order_writes o db db' h = ground arith

conclude_writes :
    (config : Config) (r : Request) (cart : Uuid) (o o' : Order) (db db' : Db)
    → conclude config r cart o db ≡ ok (o', db')
    → Same db db'
unfolding conclude create_payment empty_cart enqueue insert_payment
conclude_writes config r cart o o' db db' h = ground arith

finish_order_writes :
    (config : Config) (r : Request) (cart : Uuid) (basket : Basket) (pair : Order × List ℤ)
    (o : Order) (db db' : Db)
    → finish_order config r cart basket pair db ≡ ok (o, db')
    → Same db db'
finish_order_writes config r cart basket pair o db db' h =
    let (groups, d2, e2, h2) =
      bind_ok (λ groups. save_groups basket.shops groups >> conclude config r cart pair.0)
        (place_lines pair.0.id basket.lines pair.1 []) db h in
    let (_, d3, e3, h3) =
      bind_ok (λ _. conclude config r cart pair.0) (save_groups basket.shops groups) d2 h2 in
    conclude_writes config r cart pair.0 o d3 db' h3
    ∙ save_groups_writes basket.shops groups d2 d3 e3
    ∙ place_lines_writes pair.0.id basket.lines pair.1 [] groups db d2 e2

-- The user has a redemption of the coupon.
abbrev pub Recorded : Uuid → Uuid → Db → Type 0
Recorded coupon user db = is_some (redemption coupon user db) ≡ true

module _ (coupon user : Uuid) where
  pub redeem-Recorded :
      (now : ℕ) (u order : Uuid) (code : List ℕ) (lines : List Line) (q : Quote) (db db' : Db)
      → redeem now u order code lines db ≡ ok (q, db')
      → Recorded coupon user db
      → Recorded coupon user db'
  unfolding find
  redeem-Recorded now u order code lines q db db' h kept =
      let (o, rule, found, rules, given, fresh, written) =
        redeem_lem now u order code lines q db db' h in
      rw written (ground (arith, kept))

  coupon-Recorded :
      (now : ℕ) (r : Request) (fresh : Order) (lines : List CheckoutLine) (pair : Order × List ℤ)
      (db db' : Db)
      → apply_coupon now fresh r.coupon_code lines db ≡ ok (pair, db')
      → Recorded coupon user db
      → Recorded coupon user db'
  unfolding apply_coupon
  coupon-Recorded now r fresh lines pair db db' h kept =
      elim (Bool-cases (is_empty r.coupon_code)) [
        | inl none_asked ↦ let same : Same db db' = ground (arith, h, none_asked) in rw same kept
        | inr asked ↦
            let spend = redeem now fresh.user_id fresh.id r.coupon_code (voucher_lines lines) in
            let body : (spend >>= discounted r fresh) db ≡ ok (pair, db') =
              ground (arith, h, asked) in
            let (quote, d1, e1, h1) = bind_ok (discounted r fresh) spend db body in
            let (_, d2, e2, h2) =
              bind_ok (λ _. given r fresh quote) (save_order (reduced fresh r.coupon_code quote)) d1
                h1 in
            let last : Same d2 db' = ground (arith, h2) in
            let same = last ∙ save_order_writes (reduced fresh r.coupon_code quote) d1 d2 e2 in
            rw same (
              redeem-Recorded now fresh.user_id fresh.id r.coupon_code (voucher_lines lines) quote
                db d1 e1 kept)
      ]

  fill_order-Recorded :
      (config : Config) (now : ℕ) (r : Request) (cart : Uuid) (snapshot : Word) (basket : Basket)
      (o : Order) (db db' : Db)
      → fill_order config now r cart snapshot basket db ≡ ok (o, db')
      → Recorded coupon user db
      → Recorded coupon user db'
  fill_order-Recorded config now r cart snapshot basket o db db' h kept =
      let id = db.next_id in
      let numbered : Db = record db { next_id = suc id } in
      let fresh = new_order r id snapshot basket.total in
      let rest : Call Order =
        apply_coupon now fresh r.coupon_code basket.lines >>= finish_order config r cart basket in
      let (_, d1, e1, h1) = bind_ok (λ _. rest) (insert_order fresh) numbered h in
      let (pair, d2, e2, h2) =
        bind_ok (finish_order config r cart basket)
          (apply_coupon now fresh r.coupon_code basket.lines) d1 h1 in
      let begun : Recorded coupon user d1 = rw (insert_order_writes fresh numbered d1 e1) kept in
      rw (finish_order_writes config r cart basket pair o d2 db' h2)
        (coupon-Recorded now r fresh basket.lines pair d1 d2 e2 begun)

  place-Recorded :
      (d : Directory) (config : Config) (now : ℕ) (r : Request) (o : Order) (db db' : Db)
      → place d config now r db ≡ ok (o, db')
      → Recorded coupon user db
      → Recorded coupon user db'
  place-Recorded d config now r o db db' h kept =
      let (a, cart, basket, d1, e1, h1) = place_ok d config now r o db db' h in
      let same =
        read_lines_frame d (chosen_items cart.id r.selected db) [] (pos 0) basket db d1 e1 in
      fill_order-Recorded config now r cart.id a.text basket o d1 db' h1
        (subst (Recorded coupon user) (sym same) kept)

  replay_writes :
      (r : Request) (o o' : Order) (db db' : Db) → replay r o db ≡ ok (o', db') → Same db db'
  unfolding replay
  replay_writes r o o' db db' h = elim (Option-cases (find (payment_of o.id) db.payments)) [
    | inl lost ↦ ground arith
    | inr (p, e) ↦ ground arith
  ]

  pub checkout-Recorded :
      (d : Directory) (config : Config) (now : ℕ) (r : Request) (o : Order) (db db' : Db)
      → checkout d config now r db ≡ ok (o, db')
      → Recorded coupon user db
      → Recorded coupon user db'
  unfolding checkout
  checkout-Recorded d config now r o db db' h kept =
      let live : User → Bool = λ u. u.id == r.user && not (is_some u.deleted_at) in
      elim (Option-cases (find live db.users)) [
        | inl lost ↦ ground arith
        | inr (u, eu) ↦ elim (Option-cases (find (key_is r.user r.key) db.orders)) [
          | inl new ↦ place-Recorded d config now r o db db' (ground (arith, h, eu, new)) kept
          | inr (old, eo) ↦ rw (replay_writes r old o db db' (ground (arith, h, eu, eo))) kept
        ]
      ]
