-- ===== src/Order/Fulfill.antt =====
-- internal/modules/order/fulfillment.go: the seller moves a seller order along with an external
-- carrier. `Fulfill` of the service and of the repository, with its transaction.
pub mod Moves
use e_commerce_be.Prelude.{
  ℕ, Bool, true, false, not, ◌&&◌, ◌||◌, Option, none, some, List, [], ◌∷◌, ltb, ◌==◌,
  if◌then◌else◌, ℤ, pos, find, count, update, select, ◌≢◌,
}
use e_commerce_be.Text.{is_empty}
use e_commerce_be.Shared.{Word, Uuid, invalid, conflict, constraint, Result, ok, is_some}
use e_commerce_be.Words.{
  no_text, pending, confirmed, shipping, delivered, cancelled, processing, paid, cod, internal,
  order_status_changed, of_seller_order,
}
use e_commerce_be.Models.{Order, SellerOrder, Payment, Shipment, ShipmentEvent}
use e_commerce_be.Store.{
  Db, Call, ⊤, ◌>>=◌, ◌>>◌, pure, gets, first, raise_if, modify, when, new_id, insert_shipment,
  insert_shipment_event, enqueue, bad_shipment,
}
use e_commerce_be.Directory.{Directory, require_seller}

abbrev pub valid_transition : Word → Word → Bool
valid_transition from to =
    (from == pending && to == confirmed)
    || (from == confirmed && to == shipping)
    || (from == shipping && to == delivered)

abbrev pub order_is : Uuid → Order → Bool
order_is id o = o.id == id

abbrev pub child_is : Uuid → SellerOrder → Bool
child_is id c = c.id == id

abbrev pub child_of : Uuid → SellerOrder → Bool
child_of order c = c.order_id == order

abbrev pub payment_of : Uuid → Payment → Bool
payment_of order p = p.order_id == order

abbrev pub shipment_of : Uuid → Shipment → Bool
shipment_of child s = s.seller_order_id == child

-- `seller_order_id IN (SELECT id FROM seller_orders WHERE order_id=?)`
abbrev pub in_order : Db → Uuid → Uuid → Bool
in_order db order child =
    is_some (find (λ (c : SellerOrder). c.id == child && c.order_id == order) db.seller_orders)

-- The internal shipments of a seller order, and of all seller orders of an order.
unfoldable pub internal_count : Uuid → Db → ℕ
internal_count child db =
    count (λ (s : Shipment). s.seller_order_id == child && s.carrier == internal) db.shipments

unfoldable pub internal_in_order : Uuid → Db → ℕ
internal_in_order order db =
    count (λ (s : Shipment). in_order db order s.seller_order_id && s.carrier == internal)
      db.shipments

unfoldable pub set_child_status : Uuid → Word → Call ⊤
set_child_status id status = modify λ db. record db {
  seller_orders = update (child_is id) (λ c. record c { status = status }) db.seller_orders;
}

unfoldable pub set_order_status : Uuid → Word → Call ⊤
set_order_status id status =
    modify λ db. record db {
      orders = update (order_is id) (λ o. record o { status = status }) db.orders;
    }

-- `status == "shipping"`: the shipment of the external carrier, and its first event.
unfoldable pub ship : Uuid → Word → Word → List ℕ → Call ⊤
unfolding insert_shipment insert_shipment_event
ship child status carrier tracking = do
  id ← new_id
  insert_shipment (record {
    id = id;
    driver_id = none;
    address_snapshot = no_text;
    pickup_snapshot = [];
    cod_amount = pos 0;
    cod_collected = false;
    cod_settled = false;
    seller_order_id = child;
    carrier = carrier;
    tracking_number = tracking;
    status = status;
    deleted_at = none;
  })
  insert_shipment_event (record {
    actor_id = none;
    request_id = none;
    shipment_id = id;
    status = status;
    description = [];
  })

-- `status == "delivered"`: the shipment is delivered too.
unfoldable pub deliver : Uuid → Word → Call ⊤
unfolding insert_shipment_event bad_shipment
deliver child status = do
  shipment ← first (λ db. find (shipment_of child) db.shipments)
  raise_if (bad_shipment (record shipment { status = status })) constraint
  modify λ db. record db {
    shipments = update (λ s. s.id == shipment.id) (λ s. record s { status = status }) db.shipments;
  }
  insert_shipment_event (record {
    actor_id = none;
    request_id = none;
    shipment_id = shipment.id;
    status = status;
    description = [];
  })

-- Cash on delivery is paid when all is delivered, unless a shipment of the order is internal.
unfoldable pub pay_on_delivery : Uuid → Call ⊤
unfolding internal_in_order
pay_on_delivery order = modify λ db. record db {
  payments =
      update (λ p. p.order_id == order && p.method == cod && internal_in_order order db == 0)
        (λ p. record p { status = paid }) db.payments;
}

-- `allDelivered`
unfoldable pub all_delivered : Uuid → Db → Bool
all_delivered order db =
    count (λ (c : SellerOrder). c.order_id == order && not (c.status == delivered)) db.seller_orders
    == 0

-- What the parent order becomes, and the event, once the seller order has moved.
unfoldable pub sync_parent : Order → Uuid → Word → Call ⊤
unfolding all_delivered pay_on_delivery set_order_status enqueue
sync_parent parent child status = do
  all ← gets (all_delivered parent.id)
  when all (pay_on_delivery parent.id)
  set_order_status parent.id (if all then delivered else processing)
  enqueue of_seller_order child order_status_changed
      (pos parent.id ∷ pos parent.user_id ∷ pos status ∷ pos child ∷ [])

-- The move itself, after the guards.
unfoldable pub move_child : Order → Uuid → Word → Word → List ℕ → Call ⊤
unfolding set_child_status ship deliver sync_parent
move_child parent child status carrier tracking = do
  set_child_status child status
  when (status == shipping) (ship child status carrier tracking)
  when (status == delivered) (deliver child status)
  sync_parent parent child status

-- The transition is allowed and paid for, and then made.
unfoldable pub check_and_move : SellerOrder → Order → Uuid → Word → Word → List ℕ → Call ⊤
unfolding move_child
check_and_move child parent id status carrier tracking = do
  raise_if (not (valid_transition child.status status) || parent.status == cancelled) conflict
  pay ← first (λ db. find (payment_of parent.id) db.payments)
  raise_if (not (pay.method == cod) && not (pay.status == paid)) conflict
  move_child parent id status carrier tracking

-- The rest of the transaction, once no internal shipment is in the way.
unfoldable pub advance : SellerOrder → Order → Uuid → Word → Word → List ℕ → Call ⊤
unfolding check_and_move
advance child parent id status carrier tracking db =
    if child.status == status
    then ok (tt, db)
    else check_and_move child parent id status carrier tracking db

-- `Repository.Fulfill`
unfoldable pub fulfill : Uuid → Uuid → Word → Word → List ℕ → Call ⊤
unfolding internal_count internal_in_order advance
fulfill seller id status carrier tracking = do
  before ← first (λ db. find (λ c. c.id == id && c.seller_id == seller) db.seller_orders)
  parent ← first (λ db. find (order_is before.order_id) db.orders)
  child ← first (λ db. find (child_is id) db.seller_orders)
  own ← gets (internal_count id)
  raise_if (ltb 0 own) conflict
  mixed ← gets (internal_in_order parent.id)
  raise_if (status == shipping && ltb 0 mixed) conflict
  advance child parent id status carrier tracking

-- `Service.Fulfill`
unfoldable pub fulfill_request : Directory → Uuid → Uuid → Uuid → Word → Word → List ℕ → Call ⊤
unfolding fulfill require_seller
fulfill_request d user seller id status carrier tracking = do
  raise_if (not (status == confirmed) && not (status == shipping) && not (status == delivered))
      invalid
  raise_if (status == shipping && (carrier == no_text || is_empty tracking)) invalid
  require_seller d user seller
  fulfill seller id status carrier tracking
