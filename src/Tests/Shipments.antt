-- ===== src/Tests/Shipments.antt =====
-- Driver 8 delivers the shipment of the order of Tests.Rows.
use e_commerce_be.Directory.{Directory, require_seller}
use e_commerce_be.Shipping.View.{Viewer, detail-Viewer, detail, order_view, may_view}
use e_commerce_be.Shipping.Rows.{
  shipment_is, live_child, mutate, shipment, child, lock_order, payment, save, event, sync_order,
  undelivered, settle_payment,
}
use e_commerce_be.Order.Fulfill.{order_is, payment_of, set_child_status, set_order_status}
use e_commerce_be.Shared.{err, not_found, ok, text_eq}
use e_commerce_be.Shipping.Locked.{Locked}
use e_commerce_be.Shipping.Progress.Cash.{Settled, settle-Settled}
use e_commerce_be.Shipping.Drivers.{require_driver, active, profile}
use e_commerce_be.Text.{trim_space, byte_len, is_space, trim_left, trim_right}
use e_commerce_be.Prelude.{
  ◌⊎◌, ℕ, ◌≡◌, refl, true, false, none, some, List, [], ◌∷◌, pos, find, count, update,
}
use e_commerce_be.Words.{
  shipping, processing, internal, delivering, delivered, approved, admin, cod,
}
use e_commerce_be.Models.{Order, SellerOrder, Payment, Shipment}
use e_commerce_be.Store.{Db, commit, bad_shipment, enqueue, insert_shipment_event, require_admin}
use e_commerce_be.Shipping.Progress.{
  Update, update_status, bad_update, update_rows, progress, settle, settle_rows,
}
use e_commerce_be.Shipping.Progress.Repeat.{update_status_idem}
use e_commerce_be.Tests.Rows.{placed, order_row, seller_order_row}

abbrev parcel : Shipment
parcel = record {
  id = 60;
  driver_id = some 8;
  address_snapshot = 6;
  pickup_snapshot = (1, 2) ∷ [];
  cod_amount = pos 500;
  cod_collected = false;
  cod_settled = false;
  seller_order_id = 20;
  carrier = internal;
  tracking_number = 5 ∷ [];
  status = delivering;
  deleted_at = none;
}

abbrev on_the_road : Db
on_the_road = record placed {
  users = record { id = 8; deleted_at = none } ∷ [];
  drivers = record { user_id = 8; phone = []; vehicle_plate = []; status = approved } ∷ [];
  orders = order_row processing ∷ [];
  seller_orders = seller_order_row shipping ∷ [];
  shipments = parcel ∷ [];
}

abbrev key : List ℕ
key = 65 ∷ 66 ∷ []

abbrev handed_over : Update
handed_over = record { status = delivered; reason = []; cod_collected = true }

abbrev delivered_db : Db
delivered_db = commit on_the_road (update_status 8 60 key handed_over on_the_road)

update_run : update_status 8 60 key handed_over on_the_road ≡ ok (tt, delivered_db)
unfolding update_status bad_update trim_space byte_len mutate shipment find child lock_order
    update_rows require_driver active count profile progress payment save bad_shipment
    set_child_status set_order_status update text_eq event sync_order undelivered enqueue
    insert_shipment_event is_space trim_left trim_right
update_run = refl

update_status_idem_example : update_status 8 60 key handed_over delivered_db ≡ ok (tt, delivered_db)
update_status_idem_example =
    update_status_idem 8 60 key handed_over on_the_road delivered_db update_run

-- The cash of the delivered parcel is settled by an administrator.
abbrev with_admin : Db
with_admin = record on_the_road {
  user_roles = record { user_id = 8; role = admin; role_deleted_at = none } ∷ [];
  orders = order_row delivered ∷ [];
  seller_orders = seller_order_row delivered ∷ [];
  shipments = record parcel { status = delivered; cod_collected = true } ∷ [];
}

abbrev settled_db : Db
settled_db = commit with_admin (settle 8 60 with_admin)

settle_run : settle 8 60 with_admin ≡ ok (tt, settled_db)
unfolding settle settle_rows require_admin mutate shipment child lock_order payment save event
    settle_payment find count update bad_shipment enqueue insert_shipment_event
settle_run = refl

settle-Settled_example :
    (v : Shipment) × (c : SellerOrder) × (o : Order) × Locked 60 with_admin v c o
    × (v.status ≡ delivered)
    × ((p : Payment) × (find (payment_of o.id) with_admin.payments ≡ some p) × (p.method ≡ cod))
    × (((v.cod_settled ≡ true) × (settled_db ≡ with_admin)) ⊎ Settled v o with_admin settled_db)
settle-Settled_example = settle-Settled 8 60 with_admin settled_db settle_run

abbrev no_shops : Directory
no_shops = record {
  check_membership = λ user seller. err not_found;
  get_info = λ seller. err not_found;
  batch_info = λ sellers. err not_found;
  get_operations = λ seller. err not_found;
}

detail_run : detail no_shops 8 60 on_the_road ≡ ok (parcel, on_the_road)
unfolding detail order_view may_view shipment child active find count require_seller require_admin
detail_run = refl

detail-Viewer_example :
    (on_the_road ≡ on_the_road)
    × (find (shipment_is 60) on_the_road.shipments ≡ some parcel)
    × ((c : SellerOrder) × (o : Order) × (find (live_child 20) on_the_road.seller_orders ≡ some c)
        × (find (order_is c.order_id) on_the_road.orders ≡ some o)
        × Viewer no_shops 8 parcel c o on_the_road)
detail-Viewer_example = detail-Viewer no_shops 8 60 parcel on_the_road on_the_road detail_run
