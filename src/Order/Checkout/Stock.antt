-- ===== src/Order/Checkout/Stock.antt =====
-- The stock that a checkout takes, and the movements that it records.
use e_commerce_be.Prelude.{
  sym, ◌∙◌, false, none, some, ◌+ℤ◌, ◌-ℤ◌, int_laws, pos_part, neg_part, select, ℕ, suc, ◌≡◌, refl,
  ap, Bool, not, ◌&&◌, List, [], ◌∷◌, ◌==◌, find, update, arith, inl, inr, Bool-cases, Option-cases,
  ℤ, pos,
}
use e_commerce_be.Text.{is_empty}
use e_commerce_be.Shared.{Uuid, Word, ok, is_some, Result-cases}
use e_commerce_be.Models.{User, SellerOrder, Order, OrderItem, InventoryMovement}
use e_commerce_be.Store.{
  Db, Call, ⊤, ◌>>◌, ◌>>=◌, bind_ok, insert_order, insert_movement, insert_order_item,
  insert_payment, enqueue,
}
use e_commerce_be.Directory.{Directory}
use e_commerce_be.Payment.Sepay.{Config}
use e_commerce_be.Voucher.{Line}
use e_commerce_be.Voucher.Offers.{redeem}
use e_commerce_be.Order.Fulfill.{payment_of}
use e_commerce_be.Order.Checkout.{
  CheckoutLine, Basket, reduced, apply_coupon, save_order, place_lines, save_groups, voucher_lines,
  group_of, group_for, grown, sold, sold_item, sold_movement,
}
use e_commerce_be.Order.Checkout.Place.{
  replay, checkout, key_is, Request, chosen_items, new_order, finish_order, fill_order,
  create_payment, empty_cart, conclude, place,
}
use e_commerce_be.Order.Checkout.Frames.{
  redeem-Still, read_lines_frame, save_groups-Still, Still, group_for-Still, item_frame,
}
use e_commerce_be.Inventory.{add_stock}
use e_commerce_be.Inventory.Ledger.{
  Ledger, Ledger-trans, shift-Ledger, same-Ledger, stock_of, moved, taken, add_stock_lem,
  insert_movement_lem,
}
use mathlib.Core.Path.{subst}
use e_commerce_be.Words.{sale}
use e_commerce_be.Order.Checkout.Placed.{given, discounted, place_ok}

-- A movement of the kind `sale` that refers to the order.
abbrev pub is_sale_of : Uuid → InventoryMovement → Bool
is_sale_of order m = m.kind == sale && elim m.reference_id [ none ↦ false | some id ↦ id == order ]

-- All other movements.
abbrev pub others : Uuid → Db → List InventoryMovement
others order db = select (λ m. not (is_sale_of order m)) db.movements

-- The movements fell by what the order items took.
abbrev Takes : Uuid → Db → Db → Type 0
Takes v db db' =
    moved v db'.movements +ℤ taken v db'.order_items
    ≡ moved v db.movements +ℤ taken v db.order_items

-- What a part of a checkout does, for the order `o`: the movements that it adds are sales of `o`.
abbrev Sells : Uuid → Uuid → Db → Db → Type 0
Sells o v db db' = Ledger v db db' × Takes v db db' × (others o db' ≡ others o db)

Sells-trans : (o v : Uuid) (a b c : Db) → Sells o v a b → Sells o v b c → Sells o v a c
Sells-trans o v a b c (l, t, e) (m, u, f) = (Ledger-trans v a b c l m, u ∙ t, f ∙ e)

same-Sells :
    (o v : Uuid) (db db' : Db)
    → db'.variants ≡ db.variants
    → db'.movements ≡ db.movements
    → db'.order_items ≡ db.order_items
    → Sells o v db db'
same-Sells o v db db' vs ms is = (
  same-Ledger v db db' vs ms,
  ap (λ x. moved v x +ℤ taken v db'.order_items) ms
      ∙ ap (λ x. moved v db.movements +ℤ taken v x) is,
  ap (λ x. select (λ m. not (is_sale_of o m)) x) ms,
)

Still-Sells : (o v : Uuid) (db db' : Db) → Still db db' → Sells o v db db'
Still-Sells o v db db' s = same-Sells o v db db' s.1 s.2 s.3

cancels : (q m t : ℤ) → ((pos 0 -ℤ q) +ℤ m) +ℤ (q +ℤ t) ≡ m +ℤ t
cancels q m t = omega int_laws

nothing_adds : (m t : ℤ) → (pos 0 +ℤ m) +ℤ (pos 0 +ℤ t) ≡ m +ℤ t
nothing_adds m t = omega int_laws

-- A line: its item, what it takes of the stock, and its movement.
line-Takes :
    (v order group : Uuid) (line : CheckoutLine) (x : ℤ) (ms : List InventoryMovement)
    (is : List OrderItem)
    → moved v (sold_movement order line ∷ ms) +ℤ taken v (sold_item group line x ∷ is)
      ≡ moved v ms +ℤ taken v is
line-Takes v order group line x ms is = elim (Bool-cases (line.variant.id == v)) [
  | inl here ↦ rw here (cancels line.quantity (moved v ms) (taken v is))
  | inr away ↦ rw away (nothing_adds (moved v ms) (taken v is))
]

line-others :
    (order : Uuid) (line : CheckoutLine) (ms : List InventoryMovement)
    → select (λ m. not (is_sale_of order m)) (sold_movement order line ∷ ms)
      ≡ select (λ m. not (is_sale_of order m)) ms
unfolding select
line-others order line ms = ground arith

line-Sells :
    (v order group : Uuid) (line : CheckoutLine) (x : ℤ) (db db2 db3 db4 : Db)
    → insert_order_item (sold_item group line x) db ≡ ok (tt, db2)
    → add_stock line.variant.id (sold order line) db2 ≡ ok (tt, db3)
    → insert_movement (sold_movement order line) db3 ≡ ok (tt, db4)
    → Sells order v db db4
unfolding add_stock insert_movement
line-Sells v order group line x db db2 db3 db4 k2 k3 k4 =
    let (_, vs, ms, is) = item_frame (sold_item group line x) db db2 k2 in
    let (_, kept) = add_stock_lem v line.variant.id (sold order line) db2 db3 k3 in
    let (_, added, _) = insert_movement_lem (sold_movement order line) db3 db4 k4 in
    let items3 : db3.order_items ≡ db2.order_items = ground (arith, k3) in
    let items4 : db4.order_items ≡ db3.order_items = ground (arith, k4) in
    let items : db4.order_items ≡ sold_item group line x ∷ db.order_items = items4 ∙ items3 ∙ is in
    let movements : db4.movements ≡ sold_movement order line ∷ db.movements =
      added ∙ ap (λ xs. sold_movement order line ∷ xs) (kept ∙ ms) in
    (
      Ledger-trans v db db2 db4 (same-Ledger v db db2 vs ms) (
          shift-Ledger v line.variant.id (sold order line) (sold_movement order line) db2 db3 db4 k3
            k4 refl refl),
      ap (λ xs. moved v xs +ℤ taken v db4.order_items) movements
          ∙ ap (λ xs. moved v (sold_movement order line ∷ db.movements) +ℤ taken v xs) items
          ∙ line-Takes v order group line x db.movements db.order_items,
      ap (λ xs. select (λ m. not (is_sale_of order m)) xs) movements
          ∙ line-others order line db.movements,
    )

place_lines-Sells :
    (v order : Uuid) (lines : List CheckoutLine) (discounts : List ℤ) (groups r : List SellerOrder)
    (db db' : Db)
    → place_lines order lines discounts groups db ≡ ok (r, db')
    → Sells order v db db'
unfolding place_lines
place_lines-Sells v order [] discounts groups r db db' h =
    same-Sells order v db db' (ground arith) (ground arith) (ground arith)
place_lines-Sells v order (line ∷ lines) [] groups r db db' h = cc
place_lines-Sells v order (line ∷ lines) (x ∷ discounts) groups r db db' h =
    elim (Result-cases (group_for order line.product.seller_id groups db)) [
      | inl (e, k) ↦ ground arith
      | inr (((g, opened), db1), k) ↦
          let kept = group_for-Still order line.product.seller_id groups (g, opened) db db1 k in
          let rest : Call (List SellerOrder) =
            place_lines order lines discounts
              (update (group_of line.product.seller_id) (grown line x) opened) in
          let moved : Call ⊤ = insert_movement (sold_movement order line) in
          let taken : Call ⊤ = add_stock line.variant.id (sold order line) in
          let item : Call ⊤ = insert_order_item (sold_item g.id line x) in
          let body : (item >> (taken >> (moved >> rest))) db1 ≡ ok (r, db') = ground arith in
          let (_, db2, k2, h2) = bind_ok (λ _. taken >> (moved >> rest)) item db1 body in
          let (_, db3, k3, h3) = bind_ok (λ _. moved >> rest) taken db2 h2 in
          let (_, db4, k4, h4) = bind_ok (λ _. rest) moved db3 h3 in
          Sells-trans order v db db1 db' (Still-Sells order v db db1 kept) (
            Sells-trans order v db1 db4 db'
              (line-Sells v order g.id line x db1 db2 db3 db4 k2 k3 k4)
              (place_lines-Sells v order lines discounts
                (update (group_of line.product.seller_id) (grown line x) opened) r db4 db' h4))
    ]

save_order_stock :
    (o : Order) (db db' : Db)
    → save_order o db ≡ ok (tt, db')
    → (db'.variants ≡ db.variants)
      × (db'.movements ≡ db.movements)
      × (db'.order_items ≡ db.order_items)
unfolding save_order
save_order_stock o db db' h = ground arith

discounted-Sells :
    (order v : Uuid) (now : ℕ) (r : Request) (fresh : Order) (user id : Uuid) (lines : List Line)
    (pair : Order × List ℤ) (db db' : Db)
    → (redeem now user id r.coupon_code lines >>= discounted r fresh) db ≡ ok (pair, db')
    → Sells order v db db'
discounted-Sells order v now r fresh user id lines pair db db' h =
    let (quote, d1, e1, h1) =
      bind_ok (discounted r fresh) (redeem now user id r.coupon_code lines) db h in
    let (_, d2, e2, h2) =
      bind_ok (λ _. given r fresh quote) (save_order (reduced fresh r.coupon_code quote)) d1 h1 in
    let (vs, ms, is) = save_order_stock (reduced fresh r.coupon_code quote) d1 d2 e2 in
    Sells-trans order v db d1 db'
      (Still-Sells order v db d1 (redeem-Still now user id r.coupon_code lines quote db d1 e1))
      (same-Sells order v d1 db' (ground arith) (ground arith) (ground arith))

coupon-Sells :
    (order v : Uuid) (now : ℕ) (r : Request) (fresh : Order) (lines : List CheckoutLine)
    (pair : Order × List ℤ) (db db' : Db)
    → apply_coupon now fresh r.coupon_code lines db ≡ ok (pair, db')
    → Sells order v db db'
unfolding apply_coupon
coupon-Sells order v now r fresh lines pair db db' h = elim (Bool-cases (is_empty r.coupon_code)) [
  | inl none_asked ↦ same-Sells order v db db' (ground arith) (ground arith) (ground arith)
  | inr asked ↦
      discounted-Sells order v now r fresh fresh.user_id fresh.id (voucher_lines lines) pair db db'
        (ground arith)
]

conclude_stock :
    (config : Config) (r : Request) (cart : Uuid) (o o' : Order) (db db' : Db)
    → conclude config r cart o db ≡ ok (o', db')
    → (o' ≡ o)
      × (db'.variants ≡ db.variants)
      × (db'.movements ≡ db.movements)
      × (db'.order_items ≡ db.order_items)
unfolding conclude create_payment empty_cart enqueue insert_payment
conclude_stock config r cart o o' db db' h =
    (ground arith, ground arith, ground arith, ground arith)

insert_order_stock :
    (o : Order) (db db' : Db)
    → insert_order o db ≡ ok (tt, db')
    → (db'.variants ≡ db.variants)
      × (db'.movements ≡ db.movements)
      × (db'.order_items ≡ db.order_items)
unfolding insert_order
insert_order_stock o db db' h = ground arith

finish_order-Sells :
    (v : Uuid) (config : Config) (r : Request) (cart : Uuid) (basket : Basket)
    (pair : Order × List ℤ) (o : Order) (db db' : Db)
    → finish_order config r cart basket pair db ≡ ok (o, db')
    → Sells o.id v db db'
finish_order-Sells v config r cart basket pair o db db' h =
    let (groups, d2, e2, h2) =
      bind_ok (λ groups. save_groups basket.shops groups >> conclude config r cart pair.0)
        (place_lines pair.0.id basket.lines pair.1 []) db h in
    let (_, d3, e3, h3) =
      bind_ok (λ _. conclude config r cart pair.0) (save_groups basket.shops groups) d2 h2 in
    let (same, vs, ms, is) = conclude_stock config r cart pair.0 o d3 db' h3 in
    Sells-trans o.id v db d2 db'
      (subst (λ k. Sells k v db d2) (ap (λ (x : Order). x.id) (sym same))
        (place_lines-Sells v pair.0.id basket.lines pair.1 [] groups db d2 e2))
      (Sells-trans o.id v d2 d3 db'
        (Still-Sells o.id v d2 d3 (save_groups-Still basket.shops groups d2 d3 e3))
        (same-Sells o.id v d3 db' vs ms is))

fill_order-Sells :
    (v : Uuid) (config : Config) (now : ℕ) (r : Request) (cart : Uuid) (snapshot : Word)
    (basket : Basket) (o : Order) (db db' : Db)
    → fill_order config now r cart snapshot basket db ≡ ok (o, db')
    → Sells o.id v db db'
fill_order-Sells v config now r cart snapshot basket o db db' h =
    let id = db.next_id in
    let numbered : Db = record db { next_id = suc id } in
    let fresh = new_order r id snapshot basket.total in
    let rest : Call Order =
      apply_coupon now fresh r.coupon_code basket.lines >>= finish_order config r cart basket in
    let (_, d1, e1, h1) = bind_ok (λ _. rest) (insert_order fresh) numbered h in
    let (vs, ms, is) = insert_order_stock fresh numbered d1 e1 in
    let (pair, d2, e2, h2) =
      bind_ok (finish_order config r cart basket)
        (apply_coupon now fresh r.coupon_code basket.lines) d1 h1 in
    Sells-trans o.id v db d1 db' (same-Sells o.id v db d1 vs ms is) (
      Sells-trans o.id v d1 d2 db' (coupon-Sells o.id v now r fresh basket.lines pair d1 d2 e2)
        (finish_order-Sells v config r cart basket pair o d2 db' h2))

place-Sells :
    (v : Uuid) (d : Directory) (config : Config) (now : ℕ) (r : Request) (o : Order) (db db' : Db)
    → place d config now r db ≡ ok (o, db')
    → Sells o.id v db db'
place-Sells v d config now r o db db' h =
    let (a, cart, basket, d1, e1, h1) = place_ok d config now r o db db' h in
    let same = read_lines_frame d (chosen_items cart.id r.selected db) [] (pos 0) basket db d1 e1 in
    Sells-trans o.id v db d1 db'
      (same-Sells o.id v db d1 (ap (λ (x : Db). x.variants) same)
        (ap (λ (x : Db). x.movements) same) (ap (λ (x : Db). x.order_items) same))
      (fill_order-Sells v config now r cart.id a.text basket o d1 db' h1)

replay_same :
    (r : Request) (o o' : Order) (db db' : Db)
    → replay r o db ≡ ok (o', db')
    → (db'.variants ≡ db.variants)
      × (db'.movements ≡ db.movements)
      × (db'.order_items ≡ db.order_items)
unfolding replay
replay_same r o o' db db' h = elim (Option-cases (find (payment_of o.id) db.payments)) [
  | inl lost ↦ ground arith
  | inr (p, e) ↦ ground arith
]

checkout-Sells :
    (v : Uuid) (d : Directory) (config : Config) (now : ℕ) (r : Request) (o : Order) (db db' : Db)
    → checkout d config now r db ≡ ok (o, db')
    → Sells o.id v db db'
unfolding checkout
checkout-Sells v d config now r o db db' h =
    let live : User → Bool = λ u. u.id == r.user && not (is_some u.deleted_at) in
    elim (Option-cases (find live db.users)) [
      | inl lost ↦ ground arith
      | inr (u, eu) ↦ elim (Option-cases (find (key_is r.user r.key) db.orders)) [
        | inl new ↦ place-Sells v d config now r o db db' (ground arith)
        | inr (old, eo) ↦
            let (vs, ms, is) = replay_same r old o db db' (ground arith) in
            same-Sells o.id v db db' vs ms is
      ]
    ]

sums : (sa sb ma mb ta tb : ℤ) → sb +ℤ ma ≡ sa +ℤ mb → mb +ℤ tb ≡ ma +ℤ ta → sb +ℤ tb ≡ sa +ℤ ta
sums sa sb ma mb ta tb h w = omega (
  int_laws,
  ap (λ z. pos_part z) h,
  ap (λ z. neg_part z) h,
  ap (λ z. pos_part z) w,
  ap (λ z. neg_part z) w,
)

-- A checkout that succeeds keeps the ledger of every variant; the stock of the variant and what all
-- order items have taken of it add up to the same as before, so the stock falls by exactly what the
-- order items that were added take; and every movement that was added is of the kind `sale` and
-- refers to the order: the others are as they were.
pub checkout-Ledger :
    (v : Uuid) (d : Directory) (config : Config) (now : ℕ) (r : Request) (o : Order) (db db' : Db)
    → checkout d config now r db ≡ ok (o, db')
    → Ledger v db db'
      × (stock_of v db' +ℤ taken v db'.order_items ≡ stock_of v db +ℤ taken v db.order_items)
      × (others o.id db' ≡ others o.id db)
checkout-Ledger v d config now r o db db' h =
    let (ledger, takes, same) = checkout-Sells v d config now r o db db' h in
    (
      ledger,
      sums (stock_of v db) (stock_of v db') (moved v db.movements) (moved v db'.movements)
          (taken v db.order_items) (taken v db'.order_items) ledger takes,
      same,
    )
