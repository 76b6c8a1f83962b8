-- ===== src/Models.antt =====
-- internal/models: the rows of the tables that the modelled operations read and write. Of `Base`
-- each keeps the identifier and `deleted_at`; the creation times only order the listings.
use e_commerce_be.Prelude.{ℕ, ℤ, Bool, Option, List}
use e_commerce_be.Shared.{Word, Uuid}

pub record User : Type 0 where
  pub id : Uuid
  pub deleted_at : Option ℕ

-- A row of identity.user_roles with the name of its role in identity.roles, and when that role was
-- deleted.
pub record UserRole : Type 0 where
  pub user_id : Uuid
  pub role : Word
  pub role_deleted_at : Option ℕ

pub record ProductVariant : Type 0 where
  pub id : Uuid
  pub product_id : Uuid
  pub sku : Word
  pub name : Word
  pub price : ℤ
  pub stock : ℤ
  pub deleted_at : Option ℕ

pub record Product : Type 0 where
  pub id : Uuid
  pub seller_id : Uuid
  pub name : Word
  pub status : Word
  pub deleted_at : Option ℕ

pub record InventoryMovement : Type 0 where
  pub variant_id : Uuid
  pub quantity : ℤ
  pub kind : Word
  pub reference_id : Option Uuid

pub record Cart : Type 0 where
  pub id : Uuid
  pub user_id : Uuid
  pub deleted_at : Option ℕ

pub record CartItem : Type 0 where
  pub cart_id : Uuid
  pub variant_id : Uuid
  pub quantity : ℤ
  pub deleted_at : Option ℕ

pub record ShippingAddress : Type 0 where
  pub id : Uuid
  pub user_id : Uuid
  pub text : Word
  pub deleted_at : Option ℕ

pub record Order : Type 0 where
  pub id : Uuid
  pub user_id : Uuid
  pub status : Word
  pub currency : Word
  pub subtotal : ℤ
  pub discount : ℤ
  pub shipping_fee : ℤ
  pub total : ℤ
  pub shipping_address_id : Uuid
  pub address_snapshot : Word
  pub idempotency_key : List ℕ
  pub checkout_selection : List Uuid
  pub coupon_code : List ℕ
  pub deleted_at : Option ℕ

pub record SellerOrder : Type 0 where
  pub id : Uuid
  pub order_id : Uuid
  pub seller_id : Uuid
  pub status : Word
  pub subtotal : ℤ
  pub discount : ℤ
  pub commission : ℤ
  pub total : ℤ
  pub deleted_at : Option ℕ

pub record OrderItem : Type 0 where
  pub seller_order_id : Uuid
  pub variant_id : Uuid
  pub product_name : Word
  pub sku : Word
  pub variant_name : Word
  pub unit_price : ℤ
  pub quantity : ℤ
  pub discount : ℤ

pub record Payment : Type 0 where
  pub id : Uuid
  pub order_id : Uuid
  pub code : Option (List ℕ)
  pub bank : List ℕ
  pub account_number : List ℕ
  pub method : Word
  pub status : Word
  pub amount : ℤ
  pub deleted_at : Option ℕ

pub record PaymentTransaction : Type 0 where
  pub payment_id : Uuid
  pub provider : Word
  pub provider_transaction_id : ℤ
  pub status : Word
  pub amount : ℤ

pub record PaymentWebhookReceipt : Type 0 where
  pub id : Uuid
  pub provider : Word
  pub provider_transaction_id : ℤ
  pub payment_id : Option Uuid
  pub code : List ℕ
  pub bank : List ℕ
  pub account_number : List ℕ
  pub direction : Word
  pub status : Word
  pub amount : ℤ

pub record Shipment : Type 0 where
  pub id : Uuid
  pub driver_id : Option Uuid
  pub address_snapshot : Word
  pub pickup_snapshot : List (Word × Word)
  pub cod_amount : ℤ
  pub cod_collected : Bool
  pub cod_settled : Bool
  pub seller_order_id : Uuid
  pub carrier : Word
  pub tracking_number : List ℕ
  pub status : Word
  pub deleted_at : Option ℕ

pub record ShipmentEvent : Type 0 where
  pub actor_id : Option Uuid
  pub request_id : Option (List ℕ)
  pub shipment_id : Uuid
  pub status : Word
  pub description : List ℕ

pub record Coupon : Type 0 where
  pub id : Uuid
  pub active : Bool
  pub max_discount : ℤ
  pub code : List ℕ
  pub kind : Word
  pub value : ℤ
  pub starts_at : ℕ
  pub ends_at : ℕ
  pub usage_limit : ℤ
  pub used_count : ℤ
  pub deleted_at : Option ℕ

pub record CouponRule : Type 0 where
  pub coupon_id : Uuid
  pub min_order : ℤ
  pub seller_id : Option Uuid
  pub deleted_at : Option ℕ

pub record CouponRedemption : Type 0 where
  pub coupon_id : Uuid
  pub user_id : Uuid
  pub order_id : Uuid

pub record DriverProfile : Type 0 where
  pub user_id : Uuid
  pub phone : List ℕ
  pub vehicle_plate : List ℕ
  pub status : Word

-- The payload is told by its kind; the fields that a kind lacks are absent.
pub record OutboxEvent : Type 0 where
  pub aggregate_type : Word
  pub aggregate_id : Uuid
  pub event_type : Word
  pub payload : List ℤ
  pub status : Word
