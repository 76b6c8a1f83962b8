-- ===== src/Order/Lifecycle.antt =====
-- The life of a seller order under fulfilment and cancellation, in any order and number.
use mathlib.Core.Path.{subst}
use e_commerce_be.Prelude.{
  ℕ, ◌≡◌, refl, ap, sym, ◌∙◌, Bool, true, not, ◌&&◌, none, some, List, ◌==◌, if◌then◌else◌, find,
  update, arith, inl, inr, ◌⊎◌, Bool-cases, find-update, find_holds, count-zero,
}
use e_commerce_be.Shared.{Uuid, Word, ok}
use e_commerce_be.Words.{pending, cancelled, delivered}
use e_commerce_be.Models.{SellerOrder}
use e_commerce_be.Store.{Db}
use e_commerce_be.Order.Fulfill.{child_is, child_of, valid_transition, fulfill}
use e_commerce_be.Order.Fulfill.Moves.{with_status, fulfill-Fulfilled}
use e_commerce_be.Order.Cancel.{cancel}
use e_commerce_be.Order.Cancel.Laws.{cancel-IsCancelled}

-- One step of a seller order's status: none, an allowed transition, or the cancellation of a
-- pending one.
abbrev pub Advances : Word → Word → Type 0
Advances from to =
    (from ≡ to) ⊎ ((valid_transition from to ≡ true) ⊎ ((from ≡ pending) × (to ≡ cancelled)))

-- The calls that write the status of a seller order here.
pub data Step : Db → Db → Type 0 where
  fulfils :
      (seller id : Uuid) (status carrier : Word) (tracking : List ℕ) {db db' : Db}
      → fulfill seller id status carrier tracking db ≡ ok (tt, db')
      → Step db db'
  cancels : (user id : Uuid) {db db' : Db} → cancel user id db ≡ ok (tt, db') → Step db db'

pub data Steps (db : Db) : Db → Type 0 where
  here : Steps db db
  next : {db1 db2 : Db} → Steps db db1 → Step db1 db2 → Steps db db2

-- The row of a seller order in the two states.
abbrev Follows : (Word → Word → Type 0) → Uuid → Db → Db → Type 0
Follows R k db db' =
    (c : SellerOrder)
    → find (child_is k) db.seller_orders ≡ some c
    → (c' : SellerOrder) × (find (child_is k) db'.seller_orders ≡ some c') × R c.status c'.status

unchanged : (k : Uuid) (db db' : Db) → db' ≡ db → Follows Advances k db db'
unchanged k db db' e c h =
    (c, subst (λ d. find (child_is k) d.seller_orders ≡ some c) (sym e) h, inl refl)

-- The row after an update of the statuses of some seller orders.
updated :
    (k : Uuid) (p : SellerOrder → Bool) (status : Word) (db db' : Db) (c : SellerOrder)
    → db'.seller_orders ≡ update p (with_status status) db.seller_orders
    → find (child_is k) db.seller_orders ≡ some c
    → find (child_is k) db'.seller_orders ≡ some (if p c then with_status status c else c)
updated k p status db db' c e h =
    ap (find (child_is k)) e
    ∙ (find-update (child_is k) p (with_status status) (λ x. refl) db.seller_orders
        ∙ ap (λ o. elim o [ none ↦ none | some x ↦ some (if p x then with_status status x else x) ])
            h)

-- Two queries by the same identifier give the same row.
same_row :
    (k id : Uuid) (db : Db) (c d : SellerOrder)
    → find (child_is k) db.seller_orders ≡ some c
    → find (child_is id) db.seller_orders ≡ some d
    → c.id ≡ id
    → c ≡ d
same_row k id db c d h e same =
    let key : c.id ≡ k = ground (arith, find_holds (child_is k) db.seller_orders c h) in
    let one : some c ≡ some d =
      sym h ∙ (ap (λ j. find (child_is j) db.seller_orders) (sym key ∙ same) ∙ e) in
    cc

fulfils-Advances :
    (k seller id : Uuid) (status carrier : Word) (tracking : List ℕ) (db db' : Db)
    → fulfill seller id status carrier tracking db ≡ ok (tt, db')
    → Follows Advances k db db'
fulfils-Advances k seller id status carrier tracking db db' h c row =
    let (d, o, ed, eo, done) = fulfill-Fulfilled seller id status carrier tracking db db' h in
    elim done [
      | inl (_, same) ↦ unchanged k db db' same c row
      | inr (allowed, writes) ↦ elim (Bool-cases (child_is id c)) [
        | inl hit ↦
            let one : c ≡ d = same_row k id db c d row ed (ground arith) in
            let moved : valid_transition c.status status ≡ true =
              subst (λ x. valid_transition x.status status ≡ true) (sym one) allowed.transition in
            (
              with_status status c,
              updated k (child_is id) status db db' c writes.child row
                  ∙ ap (λ t. some (if t then with_status status c else c)) hit,
              inr (inl moved),
            )
        | inr miss ↦ (
          c,
          updated k (child_is id) status db db' c writes.child row
              ∙ ap (λ t. some (if t then with_status status c else c)) miss,
          inl refl,
        )
      ]
    ]

cancels-Advances :
    (k user id : Uuid) (db db' : Db) → cancel user id db ≡ ok (tt, db') → Follows Advances k db db'
cancels-Advances k user id db db' h c row =
    let (o, eo, done) = cancel-IsCancelled user id db db' h in
    elim done [
      | inl (_, same) ↦ unchanged k db db' same c row
      | inr writes ↦
          let was =
            count-zero (λ c. c.order_id == id && not (c.status == pending)) (child_is k)
              db.seller_orders c writes.unmoved row in
          elim (Bool-cases (child_of id c)) [
            | inl hit ↦ (
              with_status cancelled c,
              updated k (child_of id) cancelled db db' c writes.children row
                  ∙ ap (λ t. some (if t then with_status cancelled c else c)) hit,
              inr (inr (ground arith, refl)),
            )
            | inr miss ↦ (
              c,
              updated k (child_of id) cancelled db db' c writes.children row
                  ∙ ap (λ t. some (if t then with_status cancelled c else c)) miss,
              inl refl,
            )
          ]
    ]

-- In every call of `Fulfill` or `Cancel` that succeeds, each seller order keeps its status, makes an
-- allowed transition, or goes from pending to cancelled.
pub Step-Advances :
    (k : Uuid) {db db' : Db}
    → Step db db'
    → (c : SellerOrder) → find (child_is k) db.seller_orders ≡ some c
    → (c' : SellerOrder) × (find (child_is k) db'.seller_orders ≡ some c')
      × Advances c.status c'.status
Step-Advances k {db} {db'} (fulfils seller id status carrier tracking h) =
    fulfils-Advances k seller id status carrier tracking db db' h
Step-Advances k {db} {db'} (cancels user id h) = cancels-Advances k user id db db' h

-- The statuses that nothing leaves.
abbrev pub IsFinal : Word → Type 0
IsFinal status = (status ≡ delivered) ⊎ (status ≡ cancelled)

advance_final : (s t : Word) → IsFinal s → Advances s t → t ≡ s
advance_final s t f a = ground arith

-- After any history of fulfilments and cancellations, a seller order that was delivered or
-- cancelled still is.
pub Steps-IsFinal :
    (k : Uuid) {db db' : Db}
    → Steps db db'
    → (c : SellerOrder) → find (child_is k) db.seller_orders ≡ some c
    → IsFinal c.status
    → (c' : SellerOrder) × (find (child_is k) db'.seller_orders ≡ some c') × (c'.status ≡ c.status)
Steps-IsFinal k here c row f = (c, row, refl)
Steps-IsFinal k (next {db1 = db1} steps step) c row f =
    let (d, row1, same) = Steps-IsFinal k steps c row f in
    let (e, row2, moved) = Step-Advances k step d row1 in
    (e, row2, advance_final d.status e.status (subst IsFinal (sym same) f) moved ∙ same)
