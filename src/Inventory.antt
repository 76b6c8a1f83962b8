-- ===== src/Inventory.antt =====
-- internal/modules/catalog/inventory.go, and the update of a stock that orders share with it.
pub mod Ledger
pub mod Adjust
use e_commerce_be.Prelude.{
  ℕ, Bool, not, ◌&&◌, ◌||◌, true, false, none, List, [], ◌∷◌, ltb, ◌==◌, if◌then◌else◌, ℤ, pos,
  negsuc, ltb_ℤ, ◌==ℤ◌, ◌+ℤ◌, add64, find, update,
}
use e_commerce_be.Text.{byte_len}
use e_commerce_be.Shared.{Uuid, invalid, conflict, constraint, ok, err, is_some}
use e_commerce_be.Words.{adjustment, of_variant, inventory_changed}
use e_commerce_be.Models.{ProductVariant, Product, InventoryMovement}
use e_commerce_be.Store.{
  Db, Call, ⊤, ◌>>=◌, ◌>>◌, first, raise_if, bad_stock, insert_movement, enqueue, variant_is,
  int32_max,
}
use e_commerce_be.Directory.{Directory, require_seller}

-- `UPDATE product_variants SET stock = stock + ? WHERE id=?`, with the CHECK on the stock.
unfoldable pub add_stock : Uuid → ℤ → Call ⊤
add_stock id delta db =
    elim (is_some
      (find (λ (v : ProductVariant). v.id == id && bad_stock (v.stock +ℤ delta)) db.variants)) [
        | true ↦ err constraint
        | false ↦ ok (
          tt,
          record db {
            variants =
                update (variant_is id) (λ v. record v { stock = v.stock +ℤ delta }) db.variants;
          },
        )
      ]

-- `product_id IN (SELECT id FROM products WHERE seller_id=? AND deleted_at IS NULL)`
abbrev pub sells : Uuid → Db → Uuid → Bool
sells seller db product = is_some (
    find (λ (p : Product). p.id == product && p.seller_id == seller && not (is_some p.deleted_at))
      db.products)

abbrev pub adjusted : Uuid → ℤ → InventoryMovement
adjusted variant delta = record {
  variant_id = variant;
  quantity = delta;
  kind = adjustment;
  reference_id = none;
}

-- `adjustInventory`
unfoldable pub adjust_inventory : Uuid → Uuid → ℤ → Call ⊤
adjust_inventory seller variant delta = do
  v ← first λ db.
      find (λ v. v.id == variant && not (is_some v.deleted_at) && sells seller db v.product_id)
        db.variants
  raise_if (ltb_ℤ (add64 v.stock delta) (pos 0) || ltb_ℤ int32_max (add64 v.stock delta)) conflict
  add_stock v.id delta
  insert_movement (adjusted variant delta)
  enqueue of_variant variant inventory_changed (delta ∷ [])

-- `Service.Adjust`
unfoldable pub adjust : Directory → Uuid → Uuid → Uuid → ℤ → List ℕ → Call ⊤
unfolding byte_len
adjust d user seller variant delta note = do
  raise_if
      (delta ==ℤ pos 0
        || ltb_ℤ delta (negsuc 999999)
        || ltb_ℤ (pos 1000000) delta
        || byte_len note == 0
        || ltb 500 (byte_len note))
      invalid
  require_seller d user seller
  adjust_inventory seller variant delta
