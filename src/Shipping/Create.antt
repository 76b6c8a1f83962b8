-- ===== src/Shipping/Create.antt =====
-- `Create` and `Assign` of internal/modules/shipping/service.go. The tracking number that
-- `uuid.NewString` makes is a parameter.
use e_commerce_be.Prelude.{
  ℕ, Bool, true, false, not, ◌&&◌, ◌||◌, none, some, List, [], ◌∷◌, ◌++◌, ◌==◌, if◌then◌else◌, find,
  pos, ◌==ℤ◌,
}
use e_commerce_be.Text.{codes, uuid_text}
use e_commerce_be.Shared.{Uuid, invalid, conflict, forbidden}
use e_commerce_be.Words.{
  cancelled, confirmed, internal, cod, paid, pending, assigned, accepted, approved,
}
use e_commerce_be.Models.{Order, SellerOrder, Payment, Shipment}
use e_commerce_be.Store.{
  Call, ⊤, ◌>>=◌, ◌>>◌, pure, gets, raise_if, when, new_id, lift, insert_shipment, require_admin,
}
use e_commerce_be.Directory.{Directory, SellerOperations, require_seller}
use e_commerce_be.Order.Fulfill.{shipment_of}
use e_commerce_be.Shipping.Drivers.{require_driver}
use e_commerce_be.Shipping.Rows.{child, lock_order, payment, has_external, event, save, mutate}

-- A list with no entries.
abbrev pub no_entries {ℓ} : {A : Type ℓ} → List A → Bool
no_entries [] = true
no_entries (x ∷ xs) = false

abbrev pub requested_note : List ℕ
requested_note = codes "delivery requested"

abbrev pub assigned_note : Uuid → List ℕ
assigned_note driver = codes "assigned to " ++ uuid_text driver

module _ (tracking : List ℕ) where
  -- The shipment that `Create` makes of a seller order.
  abbrev pub internal_shipment : Uuid → SellerOrder → Order → Payment → SellerOperations → Shipment
  internal_shipment id c o pay seller = record {
    id = id;
    driver_id = none;
    address_snapshot = o.address_snapshot;
    pickup_snapshot = seller.pickup_address;
    cod_amount = if pay.method == cod then c.total else pos 0;
    cod_collected = false;
    cod_settled = false;
    seller_order_id = c.id;
    carrier = internal;
    tracking_number = tracking;
    status = pending;
    deleted_at = none;
  }

  -- The guards of a new internal shipment, and its creation.
  unfoldable pub request_delivery : Directory → Uuid → Uuid → SellerOrder → Order → Call Shipment
  request_delivery d u shop c o = do
    raise_if (not (c.status == confirmed) || o.status == cancelled) conflict
    mixed ← gets (has_external o.id)
    raise_if mixed conflict
    pay ← payment o.id
    raise_if (not (pay.method == cod) && not (pay.status == paid)) conflict
    seller ← lift (d.get_operations shop)
    raise_if (not (seller.status == approved) || no_entries seller.pickup_address) conflict
    raise_if (pay.method == cod && not (o.shipping_fee ==ℤ pos 0)) conflict
    id ← new_id
    let v = internal_shipment id c o pay seller
    insert_shipment v
    event v u [] requested_note
    pure v

  -- `Create`: a seller order gets one internal shipment, however often it is asked for.
  unfoldable pub create : Directory → Uuid → Uuid → Uuid → Call Shipment
  create d u shop id = do
    require_seller d u shop
    c0 ← child id
    raise_if (not (c0.seller_id == shop)) forbidden
    o ← lock_order c0.order_id
    c ← child id
    found ← gets (λ db. find (shipment_of id) db.shipments)
    elim found [
      | none ↦ request_delivery d u shop c o
      | some old ↦ raise_if (not (old.carrier == internal)) conflict >> pure old
    ]

abbrev pub has_driver : Uuid → Shipment → Bool
has_driver driver v = elim v.driver_id [ none ↦ false | some d ↦ d == driver ]

-- What `Assign` does to the locked rows.
unfoldable pub assign_rows : Uuid → Uuid → Shipment → SellerOrder → Order → Call ⊤
assign_rows u driver v c o = do
  require_admin u
  require_driver driver
  raise_if (not (v.status == pending) && not (v.status == assigned) && not (v.status == accepted))
      conflict
  when (not (has_driver driver v)) (
      save (record v { driver_id = some driver; status = assigned })
      >> event (record v { driver_id = some driver; status = assigned }) u []
          (assigned_note driver))

-- `Assign`
unfoldable pub assign : Uuid → Uuid → Uuid → Call ⊤
assign u id driver = do raise_if (driver == 0) invalid; mutate id (assign_rows u driver)
