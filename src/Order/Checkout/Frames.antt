-- ===== src/Order/Checkout/Frames.antt =====
-- Which tables the steps of a checkout leave alone.
use e_commerce_be.Prelude.{
  ℕ, ◌≡◌, ◌∙◌, Bool, true, false, not, List, [], ◌∷◌, ◌==◌, find, update, arith, inl, inr,
  Option-cases, ℤ, add64, mul64,
}
use e_commerce_be.Shared.{Uuid, Result, ok, err, not_found, conflict, Result-cases}
use e_commerce_be.Words.{approved}
use e_commerce_be.Models.{CartItem, OrderItem, InventoryMovement, SellerOrder, CouponRule}
use e_commerce_be.Store.{
  Db, Call, ⊤, ◌>>◌, ◌>>=◌, bind_ok, lift, pure, raise_if, insert_seller_order, insert_order_item,
  insert_movement,
}
use e_commerce_be.Directory.{Directory, SellerInfo}
use e_commerce_be.Inventory.{add_stock}
use e_commerce_be.Cart.{live_variant, on_sale}
use e_commerce_be.Voucher.{Line, Quote, calculate}
use e_commerce_be.Voucher.Offers.{Offer, consume, count_use, redeem, find_code, one_rule, get}
use e_commerce_be.Order.Checkout.{
  CheckoutLine, Shops, shop_in, sold_item, sold_movement, Basket, ask_shop, read_lines,
  unavailable_line, group_for, grown, group_of, sold, place_lines, save_group, save_groups,
  commission_of, rate_in,
}

-- Users, orders and payments are as they were.
abbrev pub Keeps : Db → Db → Type 0
Keeps db db' = (db'.users ≡ db.users) × (db'.orders ≡ db.orders) × (db'.payments ≡ db.payments)

pub Keeps-trans : (a b c : Db) → Keeps a b → Keeps b c → Keeps a c
Keeps-trans a b c (u, o, p) (v, q, r) = (v ∙ u, q ∙ o, r ∙ p)

-- Besides, no stock moves, and no item is written.
abbrev pub Still : Db → Db → Type 0
Still db db' =
    Keeps db db'
    × (db'.variants ≡ db.variants)
    × (db'.movements ≡ db.movements)
    × (db'.order_items ≡ db.order_items)

Still-trans : (a b c : Db) → Still a b → Still b c → Still a c
Still-trans a b c (k, v, m, i) (l, w, n, j) = (Keeps-trans a b c k l, w ∙ v, n ∙ m, j ∙ i)

consume-Still :
    (coupon user order : Uuid) (db db' : Db)
    → consume coupon user order db ≡ ok (tt, db')
    → Still db db'
unfolding consume count_use
consume-Still coupon user order db db' h = ground arith

offer-Still :
    (code : List ℕ) (o : Offer) (db db' : Db) → find_code code db ≡ ok (o, db') → Still db db'
unfolding find_code get
offer-Still code o db db' h = ground arith

rule-Still :
    (o : Offer) (rule : CouponRule) (db db' : Db) → one_rule o db ≡ ok (rule, db') → Still db db'
unfolding one_rule
rule-Still o rule db db' h = ground arith

lift-Still : (r : Result Quote) (q : Quote) (db db' : Db) → lift r db ≡ ok (q, db') → Still db db'
lift-Still (ok a) q db db' h = ground arith
lift-Still (err e) q db db' h = cc

pub redeem-Still :
    (now : ℕ) (user order : Uuid) (code : List ℕ) (lines : List Line) (q : Quote) (db db' : Db)
    → redeem now user order code lines db ≡ ok (q, db')
    → Still db db'
unfolding redeem
redeem-Still now user order code lines q db db' h =
    let spend : Offer → Quote → Call Quote =
      λ o quote. consume o.coupon.id user order >> pure quote in
    let price : Offer → CouponRule → Call Quote =
      λ o rule. lift (calculate o.coupon rule lines now) >>= spend o in
    let (o, d1, e1, h1) = bind_ok (λ o. one_rule o >>= price o) (find_code code) db h in
    let (rule, d2, e2, h2) = bind_ok (price o) (one_rule o) d1 h1 in
    let (quote, d3, e3, h3) = bind_ok (spend o) (lift (calculate o.coupon rule lines now)) d2 h2 in
    let (_, d4, e4, h4) = bind_ok (λ _. pure quote) (consume o.coupon.id user order) d3 h3 in
    Still-trans db d1 db' (offer-Still code o db d1 e1) (
      Still-trans d1 d2 db' (rule-Still o rule d1 d2 e2) (
        Still-trans d2 d3 db' (lift-Still (calculate o.coupon rule lines now) quote d2 d3 e3)
          (Still-trans d3 d4 db' (consume-Still o.coupon.id user order d3 d4 e4) (ground arith))))

info-Keeps :
    (r : Result SellerInfo) (s : SellerInfo) (db db' : Db) → lift r db ≡ ok (s, db') → db' ≡ db
info-Keeps (ok a) s db db' h = ground arith
info-Keeps (err e) s db db' h = cc

ask_shop_frame :
    (d : Directory) (seller : Uuid) (shops : Shops) (r : SellerInfo × Shops) (db db' : Db)
    → ask_shop d seller shops db ≡ ok (r, db')
    → db' ≡ db
unfolding ask_shop
ask_shop_frame d seller shops r db db' h = elim (Option-cases (shop_in seller shops)) [
  | inr (s, e) ↦ ground arith
  | inl new ↦ elim (Result-cases (d.get_info seller)) [
    | inl (x, e) ↦ ground arith
    | inr (s, e) ↦ ground arith
  ]
]

-- The checks of a line, and the rest of the loop.
line_frame :
    (approved_shop unavailable : Bool) (more : Call Basket) (line : CheckoutLine) (b : Basket)
    (db db' : Db)
    → ((c : Basket) (d : Db) → more db ≡ ok (c, d) → d ≡ db)
    → (raise_if approved_shop not_found
          >> (raise_if unavailable conflict
              >> (more >>= λ basket. pure (record {
                lines = line ∷ basket.lines;
                shops = basket.shops;
                total = basket.total;
              }))))
        db
      ≡ ok (b, db')
    → db' ≡ db
line_frame true unavailable more line b db db' frame h = cc
line_frame false true more line b db db' frame h = cc
line_frame false false more line b db db' frame h = elim (Result-cases (more db)) [
  | inl (x, e) ↦ ground arith
  | inr ((c, d), e) ↦ let same = frame c d e in ground arith
]

-- The loop that reads the cart writes nothing.
pub read_lines_frame :
    (d : Directory) (items : List CartItem) (shops : Shops) (total : ℤ) (b : Basket) (db db' : Db)
    → read_lines d items shops total db ≡ ok (b, db')
    → db' ≡ db
unfolding read_lines
read_lines_frame d [] shops total b db db' h = ground arith
read_lines_frame d (item ∷ items) shops total b db db' h =
    elim (Option-cases (find (live_variant item.variant_id) db.variants)) [
      | inl lost ↦ ground arith
      | inr (v, ev) ↦ elim (Option-cases (find (on_sale v.product_id) db.products)) [
        | inl lost ↦ ground arith
        | inr (p, ep) ↦ elim (Result-cases (ask_shop d p.seller_id shops db)) [
          | inl (x, e) ↦ ground arith
          | inr (((shop, known), db1), e) ↦
              let same = ask_shop_frame d p.seller_id shops (shop, known) db db1 e in
              let more : Call Basket =
                read_lines d items known (add64 total (mul64 v.price item.quantity)) in
              let kept =
                line_frame (not (shop.status == approved)) (unavailable_line v item.quantity) more
                  (record { variant = v; product = p; quantity = item.quantity }) b db1 db'
                  (λ c d' k.
                    read_lines_frame d items known (add64 total (mul64 v.price item.quantity)) c db1
                      d' k)
                  (ground arith) in
              ground arith
        ]
      ]
    ]

pub group_for-Still :
    (order seller : Uuid) (groups : List SellerOrder) (r : SellerOrder × List SellerOrder)
    (db db' : Db)
    → group_for order seller groups db ≡ ok (r, db')
    → Still db db'
unfolding group_for insert_seller_order
group_for-Still order seller groups r db db' h = ground arith

pub item_frame :
    (i : OrderItem) (db db' : Db)
    → insert_order_item i db ≡ ok (tt, db')
    → Keeps db db'
      × (db'.variants ≡ db.variants)
      × (db'.movements ≡ db.movements)
      × (db'.order_items ≡ i ∷ db.order_items)
unfolding insert_order_item
item_frame i db db' h = ground arith

stock-Keeps : (id : Uuid) (n : ℤ) (db db' : Db) → add_stock id n db ≡ ok (tt, db') → Keeps db db'
unfolding add_stock
stock-Keeps id n db db' h = ground arith

movement-Keeps :
    (m : InventoryMovement) (db db' : Db) → insert_movement m db ≡ ok (tt, db') → Keeps db db'
unfolding insert_movement
movement-Keeps m db db' h = ground arith

pub place_lines-Keeps :
    (order : Uuid) (lines : List CheckoutLine) (discounts : List ℤ) (groups r : List SellerOrder)
    (db db' : Db)
    → place_lines order lines discounts groups db ≡ ok (r, db')
    → Keeps db db'
unfolding place_lines
place_lines-Keeps order [] discounts groups r db db' h = ground arith
place_lines-Keeps order (line ∷ lines) [] groups r db db' h = cc
place_lines-Keeps order (line ∷ lines) (x ∷ discounts) groups r db db' h =
    elim (Result-cases (group_for order line.product.seller_id groups db)) [
      | inl (e, k) ↦ ground arith
      | inr (((g, opened), db1), k) ↦
          let kept = (group_for-Still order line.product.seller_id groups (g, opened) db db1 k).0 in
          let rest : Call (List SellerOrder) =
            place_lines order lines discounts
              (update (group_of line.product.seller_id) (grown line x) opened) in
          let moved : Call ⊤ = insert_movement (sold_movement order line) in
          let taken : Call ⊤ = add_stock line.variant.id (sold order line) in
          let item : Call ⊤ = insert_order_item (sold_item g.id line x) in
          let body : (item >> (taken >> (moved >> rest))) db1 ≡ ok (r, db') = ground arith in
          let (_, db2, k2, h2) = bind_ok (λ _. taken >> (moved >> rest)) item db1 body in
          let (_, db3, k3, h3) = bind_ok (λ _. moved >> rest) taken db2 h2 in
          let (_, db4, k4, h4) = bind_ok (λ _. rest) moved db3 h3 in
          Keeps-trans db db1 db' kept (
            Keeps-trans db1 db2 db' ((item_frame (sold_item g.id line x) db1 db2 k2).0) (
              Keeps-trans db2 db3 db' (stock-Keeps line.variant.id (sold order line) db2 db3 k3) (
                Keeps-trans db3 db4 db' (movement-Keeps (sold_movement order line) db3 db4 k4) (
                  place_lines-Keeps order lines discounts
                    (update (group_of line.product.seller_id) (grown line x) opened) r db4 db'
                    h4))))
    ]

group-Still : (g : SellerOrder) (db db' : Db) → save_group g db ≡ ok (tt, db') → Still db db'
unfolding save_group
group-Still g db db' h = ground arith

pub save_groups-Still :
    (shops : Shops) (groups : List SellerOrder) (db db' : Db)
    → save_groups shops groups db ≡ ok (tt, db')
    → Still db db'
unfolding save_groups
save_groups-Still shops [] db db' h = ground arith
save_groups-Still shops (g ∷ groups) db db' h =
    let priced = record g { commission = commission_of g.total (rate_in g.seller_id shops) } in
    let rest : Call ⊤ = save_groups shops groups in
    let (_, db1, k, h1) = bind_ok (λ _. rest) (save_group priced) db h in
    Still-trans db db1 db' (group-Still priced db db1 k) (save_groups-Still shops groups db1 db' h1)
