-- ===== src/Payment/Receive/Laws.antt =====
-- What a webhook that is received does to the payments and the receipts.
use e_commerce_be.Prelude.{
  ℕ, ◌≡◌, ap, ◌∙◌, true, false, not, ◌&&◌, Option, some, ◌∷◌, ◌==◌, find, update, arith, inl, inr,
  ◌⊎◌, Option-cases, Bool-cases, eq_of_parts,
}
use e_commerce_be.Text.{is_empty, trim_space}
use e_commerce_be.Shared.{Uuid, Word, ok, text_eq, text_eq_refl}
use e_commerce_be.Words.{pending, paid, ignored, sepay, incoming, vnd}
use e_commerce_be.Models.{Order, Payment, PaymentWebhookReceipt}
use e_commerce_be.Store.{Db, bind_ok, insert_transaction, enqueue}
use e_commerce_be.Order.Fulfill.{order_is}
use e_commerce_be.Payment.Sepay.{Webhook, payment_code}
use e_commerce_be.Payment.Receive.{
  payment_is, has_code, insert_receipt, save_receipt, mark_paid, differs, record_transaction,
  finish, can_apply, receipt, apply, match_payment, process, receive_new,
}

module _ (fold upper_other : ℕ → ℕ) where
  abbrev pub paid_payment : Payment → Payment
  paid_payment p = record p { status = paid }

  -- The conditions under which a receipt may pay a payment.
  pub record Matches (rec : PaymentWebhookReceipt) (p : Payment) (o : Order) : Type 0 where
    pub inbound : rec.direction ≡ incoming
    pub account : text_eq rec.account_number p.account_number ≡ true
    pub amount : rec.amount ≡ p.amount
    pub transfer : p.method ≡ sepay
    pub waiting : p.status ≡ pending
    pub order_waiting : o.status ≡ pending
    pub currency : o.currency ≡ vnd

  can_apply-Matches :
      (rec : PaymentWebhookReceipt) (p : Payment) (o : Order)
      → can_apply fold upper_other rec p o ≡ true
      → Matches rec p o
  unfolding can_apply
  can_apply-Matches rec p o h = record {
    inbound = ground arith;
    account = ground arith;
    amount = ground (arith, eq_of_parts rec.amount p.amount);
    transfer = ground arith;
    waiting = ground arith;
    order_waiting = ground arith;
    currency = ground arith;
  }

  -- What the matching does to the payments: nothing, or it pays one that fits.
  abbrev pub Pays : PaymentWebhookReceipt → Db → Db → Type 0
  Pays rec db db' =
      (db'.payments ≡ db.payments)
      ⊎ ((q : Payment) × (p : Payment) × (o : Order) × (find (has_code rec.code) db.payments
            ≡ some q)
          × (find (payment_is q.id) db.payments ≡ some p)
          × (find (order_is q.order_id) db.orders ≡ some o)
          × Matches rec p o
          × (db'.payments ≡ update (payment_is p.id) paid_payment db.payments))

  apply_frame :
      (rec final : PaymentWebhookReceipt) (p : Payment) (o : Order) (db db' : Db)
      → apply fold upper_other rec p o db ≡ ok (final, db')
      → (db'.receipts ≡ db.receipts)
        × (final.id ≡ rec.id)
        × ((db'.payments ≡ db.payments)
            ⊎ ((can_apply fold upper_other rec p o ≡ true)
                × (db'.payments ≡ update (payment_is p.id) paid_payment db.payments)))
  unfolding apply mark_paid enqueue record_transaction insert_transaction
  apply_frame rec final p o db db' h = ground arith

  match_payment_frame :
      (rec final : PaymentWebhookReceipt) (db db' : Db)
      → match_payment fold upper_other rec db ≡ ok (final, db')
      → (db'.receipts ≡ db.receipts) × (final.id ≡ rec.id) × Pays rec db db'
  unfolding match_payment
  match_payment_frame rec final db db' h =
      elim (Bool-cases (not (rec.status == ignored) && not (is_empty rec.code))) [
        | inr no_code ↦ (ground arith, ground arith, inl (ground arith))
        | inl coded ↦ elim (Option-cases (find (has_code rec.code) db.payments)) [
          | inl unknown ↦ (ground arith, ground arith, inl (ground arith))
          | inr (q, eq) ↦ elim (Option-cases (find (order_is q.order_id) db.orders)) [
            | inl lost ↦ ground arith
            | inr (o, eo) ↦ elim (Option-cases (find (payment_is q.id) db.payments)) [
              | inl lost ↦ ground arith
              | inr (p, ep) ↦
                  let (rs, same, pays) = apply_frame rec final p o db db' (ground arith) in
                  (
                    rs,
                    same,
                    elim pays [
                      | inl kept ↦ inl kept
                      | inr (fits, written) ↦
                          inr (q, p, o, eq, ep, eo, can_apply-Matches rec p o fits, written)
                    ],
                  )
            ]
          ]
        ]
      ]

  -- What `SaveReceipt` makes of a row.
  abbrev pub saved : PaymentWebhookReceipt → PaymentWebhookReceipt → PaymentWebhookReceipt
  saved final r = record r { status = final.status; payment_id = final.payment_id }

  finish_frame :
      (final : PaymentWebhookReceipt) (db db' : Db)
      → finish final db ≡ ok (tt, db')
      → (db'.receipts ≡ update (λ r. r.id == final.id) (saved final) db.receipts)
        × (db'.payments ≡ db.payments)
  unfolding finish enqueue save_receipt
  finish_frame final db db' h = ground arith

  Pays-trans :
      (rec : PaymentWebhookReceipt) (db db1 db' : Db)
      → Pays rec db db1
      → db'.payments ≡ db1.payments
      → Pays rec db db'
  Pays-trans rec db db1 db' (inl kept) e = inl (e ∙ kept)
  Pays-trans rec db db1 db' (inr (q, p, o, eq, ep, eo, fits, written)) e =
      inr (q, p, o, eq, ep, eo, fits, e ∙ written)

  process_frame :
      (rec : PaymentWebhookReceipt) (db db' : Db)
      → process fold upper_other rec db ≡ ok (tt, db')
      → (final : PaymentWebhookReceipt) × (db'.receipts
          ≡ update (λ r. r.id == final.id) (saved final) db.receipts)
        × Pays rec db db'
  unfolding process
  process_frame rec db db' h =
      let (final, db1, e1, h1) = bind_ok finish (match_payment fold upper_other rec) db h in
      let (rs, same, pays) = match_payment_frame rec final db db1 e1 in
      let (written, kept) = finish_frame final db1 db' h1 in
      (
        final,
        written ∙ ap (update (λ r. r.id == final.id) (saved final)) rs,
        Pays-trans rec db db1 db' pays kept,
      )

  -- The receipt that the webhook got, or would get.
  abbrev pub of_webhook : Webhook → Db → PaymentWebhookReceipt
  of_webhook w db = receipt fold upper_other db.next_id w

  pub receive_new_frame :
      (w : Webhook) (db db' : Db)
      → receive_new fold upper_other w db ≡ ok (tt, db')
      → (final : PaymentWebhookReceipt) × (db'.receipts
          ≡ update (λ r. r.id == final.id) (saved final) (of_webhook w db ∷ db.receipts))
        × Pays (of_webhook w db) db db'
  unfolding receive_new insert_receipt
  receive_new_frame w db db' h = process_frame (of_webhook w db) _ db' h

  -- The row of the webhook agrees with a repetition of it.
  pub same_webhook :
      (w : Webhook) (id : Uuid) (status : Word) (payment : Option Uuid)
      → differs
          (record (receipt fold upper_other id w) { status = status; payment_id = payment })
          (receipt fold upper_other 0 w)
        ≡ false
  unfolding differs receipt
  same_webhook w id status payment = ground (
    arith,
    text_eq_refl (payment_code upper_other w),
    text_eq_refl (trim_space w.gateway),
    text_eq_refl w.account_number,
  )
