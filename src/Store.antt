-- ===== src/Store.antt =====
-- The PostgreSQL tables as one state, and a transaction over it. The queries are the SQL of the
-- repositories as functions on lists of rows; the `insert` functions are the `Create` calls with the
-- CHECK and UNIQUE clauses of internal/database/migrations.
use e_commerce_be.Prelude.{
  ℕ, suc, Bool, true, false, not, ◌&&◌, ◌||◌, Option, none, some, List, [], ◌∷◌, ◌==◌, leb, ℤ, pos,
  ltb_ℤ, ◌==ℤ◌, find, count, length,
}
use e_commerce_be.Shared.{Word, Uuid, forbidden, constraint, ok, err, is_some, text_eq}
unfoldable pub use e_commerce_be.Tx.{
  Tx, ⊤, ◌>>=◌, ◌>>◌, pure, raise, gets, first, lift, commit, raise_if, modify, when,
}
pub use e_commerce_be.Tx.{bind_ok, raise_if_ok, when_ok}
use e_commerce_be.Text.{is_empty, all}
use e_commerce_be.Words.{
  sepay, internal, admin, pending, assigned, accepted, picked_up, delivering, failed, returned,
  delivered,
}
use e_commerce_be.Models.{
  User, UserRole, ProductVariant, Product, InventoryMovement, Cart, CartItem, ShippingAddress,
  Order, SellerOrder, OrderItem, Payment, PaymentTransaction, PaymentWebhookReceipt, Shipment,
  ShipmentEvent, Coupon, CouponRule, CouponRedemption, DriverProfile, OutboxEvent,
}

pub record Db : Type 0 where
  pub users : List User
  pub user_roles : List UserRole
  pub variants : List ProductVariant
  pub products : List Product
  pub movements : List InventoryMovement
  pub carts : List Cart
  pub cart_items : List CartItem
  pub addresses : List ShippingAddress
  pub orders : List Order
  pub seller_orders : List SellerOrder
  pub order_items : List OrderItem
  pub payments : List Payment
  pub transactions : List PaymentTransaction
  pub receipts : List PaymentWebhookReceipt
  pub shipments : List Shipment
  pub shipment_events : List ShipmentEvent
  pub coupons : List Coupon
  pub coupon_rules : List CouponRule
  pub redemptions : List CouponRedemption
  pub drivers : List DriverProfile
  pub outbox : List OutboxEvent
  -- `gen_random_uuid()`: the next identifier, which no row has yet.
  pub next_id : Uuid

abbrev pub Call : Type 0 → Type 0
Call A = Tx Db A

abbrev pub new_id : Call Uuid
new_id db = ok (db.next_id, record db { next_id = suc db.next_id })

abbrev pub int32_max : ℤ
int32_max = pos 2147483647

-- CHECK (stock >= 0), on a column of type integer.
abbrev pub bad_stock : ℤ → Bool
bad_stock z = ltb_ℤ z (pos 0) || ltb_ℤ int32_max z

unfoldable pub insert_order : Order → Call ⊤
insert_order o db =
    elim (is_some (
        find (λ (p : Order). p.user_id == o.user_id && text_eq p.idempotency_key o.idempotency_key)
          db.orders)
      || ltb_ℤ o.subtotal (pos 0)
      || ltb_ℤ o.discount (pos 0)
      || ltb_ℤ o.total (pos 0)) [
        | true ↦ err constraint
        | false ↦ ok (tt, record db { orders = o ∷ db.orders })
      ]

unfoldable pub insert_seller_order : SellerOrder → Call ⊤
insert_seller_order c db =
    elim (is_some (
        find (λ (d : SellerOrder). d.order_id == c.order_id && d.seller_id == c.seller_id)
          db.seller_orders)
      || ltb_ℤ c.discount (pos 0)) [
        | true ↦ err constraint
        | false ↦ ok (tt, record db { seller_orders = c ∷ db.seller_orders })
      ]

unfoldable pub insert_order_item : OrderItem → Call ⊤
insert_order_item i db =
    elim (ltb_ℤ i.unit_price (pos 0)
      || not (ltb_ℤ (pos 0) i.quantity)
      || ltb_ℤ i.discount (pos 0)) [
        | true ↦ err constraint
        | false ↦ ok (tt, record db { order_items = i ∷ db.order_items })
      ]

abbrev pub variant_is : Uuid → ProductVariant → Bool
variant_is id v = v.id == id

-- CHECK (quantity <> 0), and the variant must exist.
unfoldable pub insert_movement : InventoryMovement → Call ⊤
insert_movement m db =
    elim (m.quantity ==ℤ pos 0 || not (is_some (find (variant_is m.variant_id) db.variants))) [
      | true ↦ err constraint
      | false ↦ ok (tt, record db { movements = m ∷ db.movements })
    ]

-- `[0-9A-F]`
unfoldable is_code_digit : ℕ → Bool
is_code_digit c = (leb b'0' c && leb c b'9') || (leb b'A' c && leb c b'F')

-- `code ~ '^EC[0-9A-F]{32}$'`
unfoldable pub is_payment_code : Option (List ℕ) → Bool
unfolding is_code_digit
is_payment_code none = false
is_payment_code (some []) = false
is_payment_code (some (c ∷ [])) = false
is_payment_code (some (c ∷ d ∷ s)) = c == b'E' && d == b'C' && length s == 32 && all is_code_digit s

-- UNIQUE (code), where NULL equals nothing.
abbrev same_code : Option (List ℕ) → Payment → Bool
same_code code q = elim code [
  | none ↦ false
  | some c ↦ elim q.code [ none ↦ false | some d ↦ text_eq c d ]
]

-- Neither another payment of the order, nor the code of another, nor a transfer without details.
unfoldable pub bad_payment : Db → Payment → Bool
unfolding is_payment_code
bad_payment db p =
    is_some (find (λ (q : Payment). q.order_id == p.order_id) db.payments)
    || is_some (find (same_code p.code) db.payments)
    || ltb_ℤ p.amount (pos 0)
    || (p.method == sepay
        && not (
            is_payment_code p.code
            && not (is_empty p.bank)
            && not (is_empty p.account_number)
            && ltb_ℤ (pos 0) p.amount))

unfoldable pub insert_payment : Payment → Call ⊤
insert_payment p db = elim (bad_payment db p) [
  | true ↦ err constraint
  | false ↦ ok (tt, record db { payments = p ∷ db.payments })
]

-- UNIQUE (provider, provider_transaction_id)
unfoldable pub insert_transaction : PaymentTransaction → Call ⊤
insert_transaction t db =
    elim (is_some (
        find
          (λ (u : PaymentTransaction).
            u.provider == t.provider && u.provider_transaction_id ==ℤ t.provider_transaction_id)
          db.transactions)
      || ltb_ℤ t.amount (pos 0)) [
        | true ↦ err constraint
        | false ↦ ok (tt, record db { transactions = t ∷ db.transactions })
      ]

-- CHECK internal_shipment_state and shipment_cod_settlement, and cod_amount >= 0.
unfoldable pub bad_shipment : Shipment → Bool
bad_shipment s =
    (s.carrier == internal
      && not (
          (s.status == pending
            || s.status == assigned
            || s.status == accepted
            || s.status == picked_up
            || s.status == delivering
            || s.status == failed
            || s.status == returned
            || s.status == delivered)
          && (s.status == pending || is_some s.driver_id)))
    || (s.cod_settled && not s.cod_collected)
    || ltb_ℤ s.cod_amount (pos 0)

-- UNIQUE (seller_order_id)
unfoldable pub insert_shipment : Shipment → Call ⊤
unfolding bad_shipment
insert_shipment s db =
    elim (is_some (find (λ (t : Shipment). t.seller_order_id == s.seller_order_id) db.shipments)
      || bad_shipment s) [
        | true ↦ err constraint
        | false ↦ ok (tt, record db { shipments = s ∷ db.shipments })
      ]

-- UNIQUE (shipment_id, request_id) WHERE request_id IS NOT NULL
abbrev pub same_request : Uuid → List ℕ → ShipmentEvent → Bool
same_request shipment key e = elim e.request_id [
  | none ↦ false
  | some k ↦ e.shipment_id == shipment && text_eq k key
]

abbrev pub repeats_request : Db → ShipmentEvent → Bool
repeats_request db e = elim e.request_id [
  | none ↦ false
  | some key ↦ is_some (find (same_request e.shipment_id key) db.shipment_events)
]

unfoldable pub insert_shipment_event : ShipmentEvent → Call ⊤
insert_shipment_event e db = elim (repeats_request db e) [
  | true ↦ err constraint
  | false ↦ ok (tt, record db { shipment_events = e ∷ db.shipment_events })
]

-- internal/outbox/enqueue.go
unfoldable pub enqueue : Word → Uuid → Word → List ℤ → Call ⊤
enqueue aggregate id event payload db = ok (
  tt,
  record db {
    outbox =
        record {
          aggregate_type = aggregate;
          aggregate_id = id;
          event_type = event;
          payload = payload;
          status = pending;
        }
        ∷ db.outbox;
  },
)

-- `shared.Repository.Admin`
unfoldable pub require_admin : Uuid → Call ⊤
require_admin user db =
    let n =
      count
        (λ (r : UserRole).
          r.user_id == user
          && r.role == admin
          && not (is_some r.role_deleted_at)
          && is_some (find (λ (u : User). u.id == user && not (is_some u.deleted_at)) db.users))
        db.user_roles in
    raise_if (n == 0) forbidden db
