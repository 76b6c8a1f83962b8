-- ===== src/Order/Detail.antt =====
-- `Detail` of internal/modules/order/repository.go: an order of the user with its parts.
use e_commerce_be.Prelude.{not, Bool, ◌&&◌, List, ◌==◌, find, select}
use e_commerce_be.Shared.{Uuid, is_some}
use e_commerce_be.Models.{Order, SellerOrder, OrderItem, Payment}
use e_commerce_be.Store.{Call, ◌>>=◌, pure, gets, first}
use e_commerce_be.Order.Fulfill.{child_of, payment_of}
use e_commerce_be.Order.Cancel.{items_of}

pub record Detail : Type 0 where
  pub order : Order
  pub sellers : List SellerOrder
  pub items : List OrderItem
  pub payment : Payment

abbrev pub own_order : Uuid → Uuid → Order → Bool
own_order user id o = o.id == id && o.user_id == user && not (is_some o.deleted_at)

-- `Repository.Detail`
unfoldable pub order_detail : Uuid → Uuid → Call Detail
order_detail user id = do
  o ← first (λ db. find (own_order user id) db.orders)
  sellers ← gets (λ db. select (child_of id) db.seller_orders)
  items ← gets (items_of id)
  pay ← first (λ db. find (payment_of id) db.payments)
  pure (record { order = o; sellers = sellers; items = items; payment = pay })
