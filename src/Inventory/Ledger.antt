-- ===== src/Inventory/Ledger.antt =====
-- The stock ledger: what the movements of a variant add up to, against the change of its stock.
use e_commerce_be.Prelude.{
  ◌≡◌, refl, ap, sym, ◌∙◌, Option, true, false, none, some, List, [], ◌∷◌, ◌==◌, if◌then◌else◌,
  find, arith, inl, inr, Bool-cases, find-update, find_holds, ℤ, pos, pos_part, neg_part, ◌+ℤ◌,
  int_laws,
}
use mathlib.Core.Path.{subst, ap₂}
use e_commerce_be.Shared.{Uuid, ok, is_some}
use e_commerce_be.Models.{OrderItem, InventoryMovement, ProductVariant}
use e_commerce_be.Store.{Db, insert_movement, variant_is}
use e_commerce_be.Inventory.{add_stock}

abbrev pub stock_in : Option ProductVariant → ℤ
stock_in none = pos 0
stock_in (some x) = x.stock

abbrev pub stock_of : Uuid → Db → ℤ
stock_of v db = stock_in (find (variant_is v) db.variants)

-- The row after `stock = stock + delta` on the rows with the identifier `id`.
abbrev shifted : Uuid → ℤ → Option ProductVariant → Option ProductVariant
shifted id delta none = none
shifted id delta (some x) =
    some (if variant_is id x then record x { stock = x.stock +ℤ delta } else x)

abbrev pub moved : Uuid → List InventoryMovement → ℤ
moved v [] = pos 0
moved v (m ∷ ms) = (if m.variant_id == v then m.quantity else pos 0) +ℤ moved v ms

-- The stock of a variant changed by what its new movements add up to.
abbrev pub Ledger : Uuid → Db → Db → Type 0
Ledger v db db' = stock_of v db' +ℤ moved v db.movements ≡ stock_of v db +ℤ moved v db'.movements

-- What a list of order items takes of a variant.
abbrev pub taken : Uuid → List OrderItem → ℤ
taken v [] = pos 0
taken v (i ∷ is) = (if i.variant_id == v then i.quantity else pos 0) +ℤ taken v is

chain : (sa sb sc ma mb mc : ℤ) → sb +ℤ ma ≡ sa +ℤ mb → sc +ℤ mb ≡ sb +ℤ mc → sc +ℤ ma ≡ sa +ℤ mc
chain sa sb sc ma mb mc h k = omega (
  int_laws,
  ap (λ z. pos_part z) h,
  ap (λ z. neg_part z) h,
  ap (λ z. pos_part z) k,
  ap (λ z. neg_part z) k,
)

-- Where the movements weigh more by `t`, so does the stock.
weigh : (sa sb ma mb t : ℤ) → sb +ℤ ma ≡ sa +ℤ mb → mb ≡ ma +ℤ t → sb ≡ sa +ℤ t
weigh sa sb ma mb t h w = omega (
  int_laws,
  ap (λ z. pos_part z) h,
  ap (λ z. neg_part z) h,
  ap (λ z. pos_part z) w,
  ap (λ z. neg_part z) w,
)

pub Ledger-moved :
    (v : Uuid) (a b : Db) (t : ℤ)
    → Ledger v a b
    → moved v b.movements ≡ moved v a.movements +ℤ t
    → stock_of v b ≡ stock_of v a +ℤ t
Ledger-moved v a b t h w =
    weigh (stock_of v a) (stock_of v b) (moved v a.movements) (moved v b.movements) t h w

pub Ledger-trans : (v : Uuid) (a b c : Db) → Ledger v a b → Ledger v b c → Ledger v a c
Ledger-trans v a b c h k =
    chain (stock_of v a) (stock_of v b) (stock_of v c) (moved v a.movements) (moved v b.movements)
      (moved v c.movements) h k

pub add_stock_lem :
    (v id : Uuid) (delta : ℤ) (db db' : Db)
    → add_stock id delta db ≡ ok (tt, db')
    → (find (variant_is v) db'.variants ≡ shifted id delta (find (variant_is v) db.variants))
      × (db'.movements ≡ db.movements)
unfolding add_stock
add_stock_lem v id delta db db' h = ground (
  arith,
  find-update (variant_is v) (variant_is id) (λ x. record x { stock = x.stock +ℤ delta })
      (λ x. refl) db.variants,
)

pub insert_movement_lem :
    (m : InventoryMovement) (db db' : Db)
    → insert_movement m db ≡ ok (tt, db')
    → (db'.variants ≡ db.variants)
      × (db'.movements ≡ m ∷ db.movements)
      × (is_some (find (variant_is m.variant_id) db.variants) ≡ true)
unfolding insert_movement
insert_movement_lem m db db' h = ground arith

swap_sum : (s d q : ℤ) → (s +ℤ d) +ℤ q ≡ s +ℤ (d +ℤ q)
swap_sum s d q = omega int_laws

drop_zero : (s q : ℤ) → s +ℤ q ≡ s +ℤ (pos 0 +ℤ q)
drop_zero s q = omega int_laws

-- One step of the ledger, on the row that the query finds.
entry :
    (v id : Uuid) (delta q : ℤ) (o : Option ProductVariant)
    → (v ≡ id → is_some o ≡ true)
    → ((x : ProductVariant) → o ≡ some x → x.id ≡ v)
    → stock_in (shifted id delta o) +ℤ q ≡ stock_in o +ℤ ((if id == v then delta else pos 0) +ℤ q)
entry v id delta q none exists found = elim (Bool-cases (id == v)) [
  | inl same ↦ ground (arith, exists (ground arith))
  | inr other ↦ rw other (omega int_laws)
]
entry v id delta q (some x) exists found =
    let here : x.id ≡ v = found x refl in
    elim (Bool-cases (id == v)) [
      | inl same ↦
          let hit : variant_is id x ≡ true = ground arith in
          rw (same, hit) (swap_sum x.stock delta q)
      | inr other ↦
          let miss : variant_is id x ≡ false = ground arith in
          rw (other, miss) (drop_zero x.stock q)
    ]

is_some-shifted :
    (id : Uuid) (delta : ℤ) (o : Option ProductVariant) → is_some (shifted id delta o) ≡ is_some o
is_some-shifted id delta none = refl
is_some-shifted id delta (some x) = refl

moved-cons :
    (v id : Uuid) (delta : ℤ) (m : InventoryMovement) (ms : List InventoryMovement)
    → m.variant_id ≡ id
    → m.quantity ≡ delta
    → moved v (m ∷ ms) ≡ (if id == v then delta else pos 0) +ℤ moved v ms
moved-cons v id delta m ms same by =
    ap₂ (λ k d. (if k == v then d else pos 0) +ℤ moved v ms) same by

found_variant :
    (v : Uuid) (db : Db) (x : ProductVariant) → find (variant_is v) db.variants ≡ some x → x.id ≡ v
found_variant v db x e = ground (arith, find_holds (variant_is v) db.variants x e)

-- The two statements that every change of stock consists of, at the same variant and by the same
-- amount, keep the ledger.
pub shift-Ledger :
    (v id : Uuid) (delta : ℤ) (m : InventoryMovement) (db db1 db2 : Db)
    → add_stock id delta db ≡ ok (tt, db1)
    → insert_movement m db1 ≡ ok (tt, db2)
    → m.variant_id ≡ id
    → m.quantity ≡ delta
    → Ledger v db db2
shift-Ledger v id delta m db db1 db2 e1 e2 same by =
    let (row, kept) = add_stock_lem v id delta db db1 e1 in
    let (rows, added, found) = insert_movement_lem m db1 db2 e2 in
    let after : stock_of v db2 ≡ stock_in (shifted id delta (find (variant_is v) db.variants)) =
      ap (λ vs. stock_in (find (variant_is v) vs)) rows ∙ ap stock_in row in
    let movements : moved v db2.movements
        ≡ (if id == v then delta else pos 0) +ℤ moved v db.movements =
      ap (moved v) (added ∙ ap (λ ms. m ∷ ms) kept)
      ∙ moved-cons v id delta m db.movements same by in
    let exists : v ≡ id → is_some (find (variant_is v) db.variants) ≡ true = λ e.
      sym (is_some-shifted id delta (find (variant_is v) db.variants))
      ∙ ap is_some (sym row)
      ∙ subst (λ k. is_some (find (variant_is k) db1.variants) ≡ true) (same ∙ sym e) found in
    ap (λ z. z +ℤ moved v db.movements) after
    ∙ entry v id delta (moved v db.movements) (find (variant_is v) db.variants) exists
        (found_variant v db)
    ∙ ap (λ z. stock_of v db +ℤ z) (sym movements)

-- What leaves the stocks and the movements alone keeps the ledger.
pub same-Ledger :
    (v : Uuid) (db db' : Db)
    → db'.variants ≡ db.variants
    → db'.movements ≡ db.movements
    → Ledger v db db'
same-Ledger v db db' e f = ap₂ (λ vs ms. stock_in (find (variant_is v) vs) +ℤ moved v ms) e (sym f)
