-- ===== src/Directory.antt =====
-- The seller service as the modules see it, `shared.SellerDirectory`. It is another process, behind
-- gRPC: what it answers is a parameter. A context with no directory answers `unavailable`.
use e_commerce_be.Prelude.{ℤ, Bool, not, ◌||◌, List, ◌==◌}
use e_commerce_be.Shared.{Word, Uuid, forbidden, Result}
use e_commerce_be.Words.{owner, manager, staff}
use e_commerce_be.Store.{Call, ⊤, ◌>>=◌, lift, raise_if}

pub record SellerInfo : Type 0 where
  pub status : Word
  pub commission_rate : ℤ

pub record SellerOperations : Type 0 where
  pub status : Word
  pub commission_rate : ℤ
  pub pickup_address : List (Word × Word)

pub record Directory : Type 0 where
  pub check_membership : Uuid → Uuid → Result (Word × Word)
  pub get_info : Uuid → Result SellerInfo
  pub batch_info : List Uuid → Result (List (Uuid × SellerInfo))
  pub get_operations : Uuid → Result SellerOperations

-- A role that may act for the shop.
abbrev pub is_member : Word → Bool
is_member role = role == owner || role == manager || role == staff

-- `shared.Repository.Seller`
unfoldable pub require_seller : Directory → Uuid → Uuid → Call ⊤
require_seller d user seller = do
  (role, status) ← lift (d.check_membership user seller)
  raise_if (not (is_member role)) forbidden
