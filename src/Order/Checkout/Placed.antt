-- ===== src/Order/Checkout/Placed.antt =====
-- What the transaction of a new order writes.
use mathlib.Core.Path.{subst}
use e_commerce_be.Prelude.{
  ℕ, suc, ◌≡◌, refl, ap, sym, ◌∙◌, Bool, true, not, ◌&&◌, List, [], ◌∷◌, ◌==◌, find, update, arith,
  inl, inr, Bool-cases, Option-cases, ℤ, pos,
}
use e_commerce_be.Text.{is_empty}
use e_commerce_be.Shared.{Uuid, Word, ok, is_some}
use e_commerce_be.Models.{Cart, ShippingAddress, Order, Payment}
use e_commerce_be.Store.{
  Db, Call, ◌>>◌, ◌>>=◌, bind_ok, pure, insert_order, insert_payment, enqueue,
}
use e_commerce_be.Directory.{Directory}
use e_commerce_be.Cart.{cart_of}
use e_commerce_be.Payment.Sepay.{Config}
use e_commerce_be.Voucher.{Quote}
use e_commerce_be.Voucher.Offers.{redeem}
use e_commerce_be.Order.Fulfill.{order_is}
use e_commerce_be.Order.Checkout.{
  CheckoutLine, Basket, reduced, read_lines, apply_coupon, save_order, place_lines, save_groups,
  voucher_lines,
}
use e_commerce_be.Order.Checkout.Place.{
  Request, chosen_items, new_order, payment_for, finish_order, fill_order, create_payment,
  empty_cart, conclude, place,
}
use e_commerce_be.Order.Checkout.Frames.{
  redeem-Still, read_lines_frame, place_lines-Keeps, save_groups-Still,
}

-- The order is one that the request asked for.
pub record Answers (r : Request) (o : Order) : Type 0 where
  pub user : o.user_id ≡ r.user
  pub key : o.idempotency_key ≡ r.key
  pub selection : o.checkout_selection ≡ r.selection
  pub coupon : o.coupon_code ≡ r.coupon_code
  pub address : o.shipping_address_id ≡ r.address

-- The newest order is `o`.
abbrev pub Newest : Order → Db → Type 0
Newest o db = (rest : List Order) × (db.orders ≡ o ∷ rest)

nil_of_empty : (s : List ℕ) → is_empty s ≡ true → [] ≡ s
nil_of_empty [] h = refl
nil_of_empty (x ∷ s) h = cc

save_order_lem :
    (o old : Order) (db db' : Db)
    → old.id ≡ o.id
    → Newest old db
    → save_order o db ≡ ok (tt, db')
    → Newest o db' × (db'.users ≡ db.users) × (db'.payments ≡ db.payments)
unfolding save_order update
save_order_lem o old db db' same (rest, e) h =
    ((update (order_is o.id) (λ _. o) rest, ground arith), ground arith, ground arith)

-- What follows the redemption.
abbrev pub given : Request → Order → Quote → Call (Order × List ℤ)
given r fresh quote = pure (reduced fresh r.coupon_code quote, quote.line_discounts)

abbrev pub discounted : Request → Order → Quote → Call (Order × List ℤ)
discounted r fresh quote = save_order (reduced fresh r.coupon_code quote) >> given r fresh quote

with_coupon :
    (now : ℕ) (r : Request) (id : Uuid) (snapshot : Word) (total : ℤ) (lines : List CheckoutLine)
    (o : Order) (discounts : List ℤ) (db db' : Db)
    → Newest (new_order r id snapshot total) db
    → (redeem now r.user id r.coupon_code (voucher_lines lines)
          >>= discounted r (new_order r id snapshot total))
        db
      ≡ ok ((o, discounts), db')
    → Answers r o × Newest o db' × (db'.users ≡ db.users) × (db'.payments ≡ db.payments)
with_coupon now r id snapshot total lines o discounts db db' newest h =
    let fresh = new_order r id snapshot total in
    let (quote, d1, e1, h1) =
      bind_ok (discounted r fresh) (redeem now r.user id r.coupon_code (voucher_lines lines)) db
        h in
    let (u1, o1, p1) =
      (redeem-Still now r.user id r.coupon_code (voucher_lines lines) quote db d1 e1).0 in
    let (_, d2, e2, h2) =
      bind_ok (λ _. given r fresh quote) (save_order (reduced fresh r.coupon_code quote)) d1 h1 in
    let (top, u2, p2) =
      save_order_lem (reduced fresh r.coupon_code quote) fresh d1 d2 refl (newest.0, o1 ∙ newest.1)
        e2 in
    let same : o ≡ reduced fresh r.coupon_code quote = ground arith in
    let still : db' ≡ d2 = ground arith in
    (
      subst (Answers r) (sym same)
          (record { user = refl; key = refl; selection = refl; coupon = refl; address = refl }),
      (top.0, ap (λ (d : Db). d.orders) still ∙ (top.1 ∙ ap (λ x. x ∷ top.0) (sym same))),
      ap (λ (d : Db). d.users) still ∙ (u2 ∙ u1),
      ap (λ (d : Db). d.payments) still ∙ (p2 ∙ p1),
    )

coupon_ok :
    (now : ℕ) (r : Request) (id : Uuid) (snapshot : Word) (total : ℤ) (lines : List CheckoutLine)
    (o : Order) (discounts : List ℤ) (db db' : Db)
    → Newest (new_order r id snapshot total) db
    → apply_coupon now (new_order r id snapshot total) r.coupon_code lines db
      ≡ ok ((o, discounts), db')
    → Answers r o × Newest o db' × (db'.users ≡ db.users) × (db'.payments ≡ db.payments)
unfolding apply_coupon
coupon_ok now r id snapshot total lines o discounts db db' newest h =
    elim (Bool-cases (is_empty r.coupon_code)) [
      | inl none_asked ↦
          let same : o ≡ new_order r id snapshot total = ground arith in
          let still : db' ≡ db = ground arith in
          (
            subst (Answers r) (sym same) (record {
              user = refl;
              key = refl;
              selection = refl;
              coupon = nil_of_empty r.coupon_code none_asked;
              address = refl;
            }),
            (
              newest.0,
              ap (λ (d : Db). d.orders) still ∙ (newest.1 ∙ ap (λ x. x ∷ newest.0) (sym same)),
            ),
            ap (λ (d : Db). d.users) still,
            ap (λ (d : Db). d.payments) still,
          )
      | inr asked ↦
          with_coupon now r id snapshot total lines o discounts db db' newest (ground arith)
    ]

conclude_ok :
    (config : Config) (r : Request) (cart : Uuid) (o o' : Order) (db db' : Db)
    → conclude config r cart o db ≡ ok (o', db')
    → (o' ≡ o)
      × (db'.users ≡ db.users)
      × (db'.orders ≡ db.orders)
      × ((p : Payment) × (ps : List Payment) × (db'.payments ≡ p ∷ ps)
          × (p.order_id ≡ o.id)
          × (p.method ≡ r.method))
unfolding conclude create_payment empty_cart enqueue insert_payment
conclude_ok config r cart o o' db db' h = (
  ground arith,
  ground arith,
  ground arith,
  (payment_for config r o db.next_id, db.payments, ground arith, refl, refl),
)

-- What a new order wrote.
pub record Placed (r : Request) (o : Order) (db db' : Db) : Type 0 where
  pub answers : Answers r o
  pub newest : Newest o db'
  pub payment : Payment
  pub payments : List Payment
  pub first_payment : db'.payments ≡ payment ∷ payments
  pub own : payment.order_id ≡ o.id
  pub method : payment.method ≡ r.method
  pub users : db'.users ≡ db.users

-- The steps after the order row.
ordered_ok :
    (config : Config) (now : ℕ) (r : Request) (cart id : Uuid) (snapshot : Word) (basket : Basket)
    (o : Order) (db db' : Db)
    → Newest (new_order r id snapshot basket.total) db
    → (apply_coupon now (new_order r id snapshot basket.total) r.coupon_code basket.lines
          >>= finish_order config r cart basket)
        db
      ≡ ok (o, db')
    → Placed r o db db'
ordered_ok config now r cart id snapshot basket o db db' newest h =
    let (pair, d1, e1, h1) =
      bind_ok (finish_order config r cart basket)
        (apply_coupon now (new_order r id snapshot basket.total) r.coupon_code basket.lines) db h in
    let (groups, d2, e2, h2) =
      bind_ok (λ groups. save_groups basket.shops groups >> conclude config r cart pair.0)
        (place_lines pair.0.id basket.lines pair.1 []) d1 h1 in
    let (_, d3, e3, h3) =
      bind_ok (λ _. conclude config r cart pair.0) (save_groups basket.shops groups) d2 h2 in
    let (answers, (rest, top), u1, p1) =
      coupon_ok now r id snapshot basket.total basket.lines pair.0 pair.1 db d1 newest e1 in
    let (u2, o2, p2) = place_lines-Keeps pair.0.id basket.lines pair.1 [] groups d1 d2 e2 in
    let (u3, o3, p3) = (save_groups-Still basket.shops groups d2 d3 e3).0 in
    let (same, u4, o4, (p, ps, e, own, method)) = conclude_ok config r cart pair.0 o d3 db' h3 in
    record {
      answers = subst (Answers r) (sym same) answers;
      newest = (rest, o4 ∙ (o3 ∙ (o2 ∙ (top ∙ ap (λ x. x ∷ rest) (sym same)))));
      payment = p;
      payments = ps;
      first_payment = e;
      own = own ∙ ap (λ (x : Order). x.id) (sym same);
      method = method;
      users = u4 ∙ (u3 ∙ (u2 ∙ u1));
    }

insert_order_lem :
    (o : Order) (db db' : Db)
    → insert_order o db ≡ ok (tt, db')
    → (db'.orders ≡ o ∷ db.orders) × (db'.users ≡ db.users)
unfolding insert_order
insert_order_lem o db db' h = ground arith

widen :
    (r : Request) (o : Order) (db d db' : Db)
    → d.users ≡ db.users
    → Placed r o d db'
    → Placed r o db db'
widen r o db d db' u p = record {
  answers = p.answers;
  newest = p.newest;
  payment = p.payment;
  payments = p.payments;
  first_payment = p.first_payment;
  own = p.own;
  method = p.method;
  users = p.users ∙ u;
}

fill_order-Placed :
    (config : Config) (now : ℕ) (r : Request) (cart : Uuid) (snapshot : Word) (basket : Basket)
    (o : Order) (db db' : Db)
    → fill_order config now r cart snapshot basket db ≡ ok (o, db')
    → Placed r o db db'
fill_order-Placed config now r cart snapshot basket o db db' h =
    let id = db.next_id in
    let numbered : Db = record db { next_id = suc id } in
    let fresh = new_order r id snapshot basket.total in
    let rest : Call Order =
      apply_coupon now fresh r.coupon_code basket.lines >>= finish_order config r cart basket in
    let (_, d1, e1, h1) = bind_ok (λ _. rest) (insert_order fresh) numbered h in
    let (top, u1) = insert_order_lem fresh numbered d1 e1 in
    let p = ordered_ok config now r cart id snapshot basket o d1 db' (db.orders, top) h1 in
    widen r o db d1 db' u1 p

-- The rows that a new order starts from.
pub place_ok :
    (d : Directory) (config : Config) (now : ℕ) (r : Request) (o : Order) (db db' : Db)
    → place d config now r db ≡ ok (o, db')
    → (a : ShippingAddress) × (cart : Cart) × (basket : Basket) × (d1 : Db) × (read_lines d
          (chosen_items cart.id r.selected db)
          []
          (pos 0)
          db
        ≡ ok (basket, d1))
      × (fill_order config now r cart.id a.text basket d1 ≡ ok (o, db'))
unfolding place
place_ok d config now r o db db' h =
    let mine : ShippingAddress → Bool =
      λ x. x.id == r.address && x.user_id == r.user && not (is_some x.deleted_at) in
    elim (Option-cases (find mine db.addresses)) [
      | inl lost ↦ ground arith
      | inr (a, ea) ↦ elim (Option-cases (find (cart_of r.user) db.carts)) [
        | inl lost ↦ ground arith
        | inr (cart, ec) ↦
            let items = chosen_items cart.id r.selected db in
            let fill : Basket → Call Order = fill_order config now r cart.id a.text in
            let body : (read_lines d items [] (pos 0) >>= fill) db ≡ ok (o, db') = ground arith in
            let (basket, d1, e1, h1) = bind_ok fill (read_lines d items [] (pos 0)) db body in
            (a, cart, basket, d1, e1, h1)
      ]
    ]

pub place-Placed :
    (d : Directory) (config : Config) (now : ℕ) (r : Request) (o : Order) (db db' : Db)
    → place d config now r db ≡ ok (o, db')
    → Placed r o db db'
place-Placed d config now r o db db' h =
    let (a, cart, basket, d1, e1, h1) = place_ok d config now r o db db' h in
    let same = read_lines_frame d (chosen_items cart.id r.selected db) [] (pos 0) basket db d1 e1 in
    widen r o db d1 db' (ap (λ (x : Db). x.users) same)
      (fill_order-Placed config now r cart.id a.text basket o d1 db' h1)
