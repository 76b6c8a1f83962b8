-- ===== src/Shipping/Progress.antt =====
-- `Update` and `Settle` of internal/modules/shipping/service.go: the driver reports progress, and an
-- administrator settles the cash.
pub mod Writes
pub mod Repeat
pub mod Cash
use e_commerce_be.Prelude.{
  ℕ, Bool, true, false, not, ◌&&◌, ◌||◌, Option, none, some, List, [], ◌∷◌, ◌==◌, if◌then◌else◌,
  ltb, find, ℤ, pos, ltb_ℤ,
}
use e_commerce_be.Text.{is_blank, byte_len, codes}
use e_commerce_be.Shared.{
  Word, Uuid, Result, ok, err, invalid, conflict, forbidden, is_some, text_eq,
}
use e_commerce_be.Words.{cod, paid, accepted, confirmed, shipping, delivered, failed}
use e_commerce_be.Models.{Order, SellerOrder, Payment, Shipment, ShipmentEvent}
use e_commerce_be.Store.{
  Db, Call, ⊤, ◌>>=◌, ◌>>◌, pure, raise, gets, first, raise_if, modify, when, require_admin,
  same_request,
}
use e_commerce_be.Shipping.State.{shipment_status, transition}
use e_commerce_be.Shipping.Drivers.{require_driver}
use e_commerce_be.Shipping.Rows.{payment, save, event, sync_order, settle_payment, mutate}
use e_commerce_be.Shipping.Create.{has_driver}

pub record Update : Type 0 where
  pub status : Word
  pub reason : List ℕ
  pub cod_collected : Bool

abbrev pub bool_eq : Bool → Bool → Bool
bool_eq true b = b
bool_eq false b = not b

-- The guards on the request itself.
unfoldable pub bad_update : List ℕ → Update → Bool
bad_update key input =
    not (shipment_status input.status)
    || is_blank key
    || ltb 128 (byte_len key)
    || ltb 1000 (byte_len input.reason)
    || (input.status == failed && is_blank input.reason)
    || (input.cod_collected && not (input.status == delivered))

-- `(v.CODAmount > 0) != in.CODCollected`
abbrev pub cash_differs : Shipment → Update → Bool
cash_differs v input = not (bool_eq (ltb_ℤ (pos 0) v.cod_amount) input.cod_collected)

-- The earlier event of the same key does not say what this request says.
unfoldable pub contradicts : Uuid → Update → ShipmentEvent → Bool
contradicts u input old =
    not (elim old.actor_id [ none ↦ false | some a ↦ a == u ])
    || not (old.status == input.status)
    || not (text_eq old.description input.reason)

-- A repeated request is compared with what it did the first time.
unfoldable pub repeat_update : Uuid → Update → Shipment → ShipmentEvent → Call ⊤
repeat_update u input v old = do
  raise_if (contradicts u input old) conflict
  raise_if (input.status == delivered && cash_differs v input) conflict

-- The status of the seller order that goes with the status of its shipment.
abbrev pub child_status : Word → Word
child_status status =
    if status == delivered then delivered else if status == accepted then confirmed else shipping

abbrev pub updated_shipment : Update → Shipment → Shipment
updated_shipment input v = record v {
  status = input.status;
  cod_collected = if input.status == delivered then input.cod_collected else v.cod_collected;
}

-- A new report moves the shipment, its seller order and its order.
unfoldable pub progress : Uuid → List ℕ → Update → Shipment → SellerOrder → Order → Call ⊤
progress u key input v c o = do
  raise_if (not (transition v.status input.status)) conflict
  pay ← payment o.id
  raise_if (not (pay.method == cod) && not (pay.status == paid)) conflict
  raise_if (input.status == delivered && cash_differs v input) invalid
  save (updated_shipment input v)
  sync_order c (child_status input.status)
  event (updated_shipment input v) u key input.reason

unfoldable pub update_rows : Uuid → Uuid → List ℕ → Update → Shipment → SellerOrder → Order → Call ⊤
update_rows u id key input v c o = do
  require_driver u
  raise_if (not (has_driver u v)) forbidden
  prior ← gets (λ db. find (same_request id key) db.shipment_events)
  elim prior [ none ↦ progress u key input v c o | some old ↦ repeat_update u input v old ]

-- `Update`
unfoldable pub update_status : Uuid → Uuid → List ℕ → Update → Call ⊤
update_status u id key input = do
  raise_if (bad_update key input) invalid
  mutate id (update_rows u id key input)

abbrev pub settled_note : List ℕ
settled_note = codes "COD settled"

-- What `Settle` does to the locked rows.
unfoldable pub settle_rows : Uuid → Shipment → SellerOrder → Order → Call ⊤
settle_rows u v c o = do
  require_admin u
  pay ← payment o.id
  raise_if
      (not (pay.method == cod)
        || not (v.status == delivered)
        || (not v.cod_collected && ltb_ℤ (pos 0) v.cod_amount))
      conflict
  when (not v.cod_settled) (
      save (record v { cod_settled = true; cod_collected = true })
      >> (event (record v { cod_settled = true; cod_collected = true }) u [] settled_note
          >> settle_payment o))

-- `Settle`
unfoldable pub settle : Uuid → Uuid → Call ⊤
settle u id = mutate id (settle_rows u)
