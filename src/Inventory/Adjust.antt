-- ===== src/Inventory/Adjust.antt =====
-- What `adjustInventory` does to the stock of the variant.
use e_commerce_be.Prelude.{
  ◌≡◌, refl, sym, Bool, not, ◌&&◌, List, [], ◌∷◌, ◌==◌, find, arith, inl, inr, Option-cases,
  find_holds, ℤ,
}
use e_commerce_be.Shared.{Uuid, ok, is_some}
use e_commerce_be.Words.{of_variant, inventory_changed}
use e_commerce_be.Models.{ProductVariant}
use e_commerce_be.Store.{Db, Call, ⊤, ◌>>◌, bind_ok, insert_movement, enqueue}
use e_commerce_be.Inventory.{add_stock, adjust_inventory, adjusted, sells}
use e_commerce_be.Inventory.Ledger.{Ledger, Ledger-trans, shift-Ledger, same-Ledger}

abbrev sold_by : Uuid → Uuid → Db → ProductVariant → Bool
sold_by seller variant db v =
    v.id == variant && not (is_some v.deleted_at) && sells seller db v.product_id

enqueue_frame :
    (a : Uuid) (id e : Uuid) (payload : List ℤ) (db db' : Db)
    → enqueue a id e payload db ≡ ok (tt, db')
    → (db'.variants ≡ db.variants) × (db'.movements ≡ db.movements)
unfolding enqueue
enqueue_frame a id e payload db db' h = ground arith

-- An adjustment that succeeds keeps the ledger of every variant: its stock changes by exactly what
-- the movements that were added for it say.
pub adjust_inventory-Ledger :
    (v seller variant : Uuid) (delta : ℤ) (db db' : Db)
    → adjust_inventory seller variant delta db ≡ ok (tt, db')
    → Ledger v db db'
unfolding adjust_inventory
adjust_inventory-Ledger v seller variant delta db db' h =
    elim (Option-cases (find (sold_by seller variant db) db.variants)) [
      | inl lost ↦ ground arith
      | inr (x, e) ↦
          let same : x.id ≡ variant =
            ground (arith, find_holds (sold_by seller variant db) db.variants x e) in
          let tell : Call ⊤ = enqueue of_variant variant inventory_changed (delta ∷ []) in
          let record_it : Call ⊤ = insert_movement (adjusted variant delta) in
          let shift : Call ⊤ = add_stock x.id delta in
          let body : (shift >> (record_it >> tell)) db ≡ ok (tt, db') = ground arith in
          let (_, db1, e1, h1) = bind_ok (λ _. record_it >> tell) shift db body in
          let (_, db2, e2, h2) = bind_ok (λ _. tell) record_it db1 h1 in
          let (rows, ms) =
            enqueue_frame of_variant variant inventory_changed (delta ∷ []) db2 db' h2 in
          Ledger-trans v db db2 db'
            (shift-Ledger v x.id delta (adjusted variant delta) db db1 db2 e1 e2 (sym same) refl)
            (same-Ledger v db2 db' rows ms)
    ]
