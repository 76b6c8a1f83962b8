-- ===== src/Payment/Receive.antt =====
-- `Receive` of internal/modules/payment/service.go, with the statements of repository.go. How
-- `strings.EqualFold` folds a letter is a parameter, `fold`.
pub mod Laws
pub mod Repeat
use e_commerce_be.Prelude.{
  ℕ, Bool, true, false, not, ◌&&◌, ◌||◌, Option, none, some, List, [], ◌∷◌, map, ltb, leb, ◌==◌,
  if◌then◌else◌, ℤ, pos, ltb_ℤ, leb_ℤ, ◌==ℤ◌, find, update,
}
use e_commerce_be.Text.{trim_space, is_empty}
use e_commerce_be.Shared.{
  Word, Uuid, invalid, conflict, unavailable, Result, ok, err, is_some, text_eq,
}
use e_commerce_be.Words.{
  pending, paid, unmatched, ignored, requires_review, applied, sepay, incoming, outgoing, vnd,
  of_payment, of_payment_webhook, payment_succeeded, payment_reconciliation_required,
}
use e_commerce_be.Models.{Order, Payment, PaymentTransaction, PaymentWebhookReceipt}
use e_commerce_be.Store.{
  Db, Call, ⊤, ◌>>=◌, ◌>>◌, pure, raise, gets, first, raise_if, modify, when, new_id,
  insert_transaction, enqueue,
}
use e_commerce_be.Order.Fulfill.{order_is}
use e_commerce_be.Payment.Sepay.{Config, enabled, Webhook, payment_code}

abbrev pub payment_is : Uuid → Payment → Bool
payment_is id p = p.id == id

-- UNIQUE (provider, provider_transaction_id)
abbrev pub receipt_key : ℤ → PaymentWebhookReceipt → Bool
receipt_key id r = r.provider == sepay && r.provider_transaction_id ==ℤ id

-- `code=? AND method='sepay'`
abbrev pub has_code : List ℕ → Payment → Bool
has_code code p = elim p.code [ none ↦ false | some c ↦ text_eq c code ] && p.method == sepay

unfoldable pub insert_receipt : PaymentWebhookReceipt → Call ⊤
insert_receipt r = modify λ db. record db { receipts = r ∷ db.receipts }

-- `SaveReceipt` writes the status and the payment.
unfoldable pub save_receipt : PaymentWebhookReceipt → Call ⊤
save_receipt rec = modify λ db. record db {
  receipts =
      update (λ r. r.id == rec.id)
        (λ r. record r { status = rec.status; payment_id = rec.payment_id }) db.receipts;
}

unfoldable pub mark_paid : Uuid → Call ⊤
mark_paid id = modify λ db. record db {
  payments = update (payment_is id) (λ p. record p { status = paid }) db.payments;
}

-- The fields in which a repeated webhook must agree with its receipt.
unfoldable pub differs : PaymentWebhookReceipt → PaymentWebhookReceipt → Bool
differs old rec =
    not (text_eq old.code rec.code)
    || not (old.amount ==ℤ rec.amount)
    || not (text_eq old.bank rec.bank)
    || not (text_eq old.account_number rec.account_number)
    || not (old.direction == rec.direction)

-- `RecordTransaction`
unfoldable pub record_transaction : PaymentWebhookReceipt → Uuid → Word → Call ⊤
record_transaction rec payment status = insert_transaction (record {
  payment_id = payment;
  provider = rec.provider;
  provider_transaction_id = rec.provider_transaction_id;
  status = status;
  amount = rec.amount;
})

-- A receipt that needs a person is announced, and the receipt is saved.
unfoldable pub finish : PaymentWebhookReceipt → Call ⊤
finish rec = do
  when (rec.status == requires_review || rec.status == unmatched) (
      enqueue of_payment_webhook rec.id payment_reconciliation_required
        (pos rec.id ∷ pos rec.status ∷ []))
  save_receipt rec

-- The guards on the webhook's fields.
unfoldable pub malformed : Webhook → Bool
malformed w =
    leb_ℤ w.id (pos 0)
    || ltb_ℤ w.transfer_amount (pos 0)
    || is_empty w.account_number
    || is_empty w.gateway
    || (not (w.transfer_type == incoming) && not (w.transfer_type == outgoing))

module _ (fold upper_other : ℕ → ℕ) where
  unfoldable pub can_apply : PaymentWebhookReceipt → Payment → Order → Bool
  unfolding text_eq
  can_apply rec p o =
      rec.direction == incoming
      && text_eq (map fold rec.bank) (map fold p.bank)
      && text_eq rec.account_number p.account_number
      && ltb_ℤ (pos 0) rec.amount
      && rec.amount ==ℤ p.amount
      && p.method == sepay
      && p.status == pending
      && o.status == pending
      && o.currency == vnd
      && not (is_some o.deleted_at)
      && not (is_some p.deleted_at)

  -- `receipt`, with the identifier that the insertion gives it.
  unfoldable pub receipt : Uuid → Webhook → PaymentWebhookReceipt
  unfolding payment_code trim_space
  receipt id w = record {
    id = id;
    provider = sepay;
    provider_transaction_id = w.id;
    payment_id = none;
    code = payment_code upper_other w;
    bank = trim_space w.gateway;
    account_number = w.account_number;
    direction = w.transfer_type;
    status = if w.transfer_type == incoming then unmatched else ignored;
    amount = w.transfer_amount;
  }

  -- The payment is paid, or the receipt waits for a review; the receipt is given back.
  unfoldable pub apply : PaymentWebhookReceipt → Payment → Order → Call PaymentWebhookReceipt
  apply rec p o db = elim (can_apply rec p o) [
    | true ↦
        (mark_paid p.id
            >> (enqueue of_payment p.id payment_succeeded
                  (pos o.id ∷ pos o.user_id ∷ p.amount ∷ rec.provider_transaction_id ∷ [])
                >> (record_transaction rec p.id applied
                    >> pure (record rec { payment_id = some p.id; status = applied }))))
          db
    | false ↦
        (record_transaction rec p.id requires_review
            >> pure (record rec { payment_id = some p.id; status = requires_review }))
          db
  ]

  -- A receipt whose code names a payment is matched with it, under the locks of both rows.
  unfoldable pub match_payment : PaymentWebhookReceipt → Call PaymentWebhookReceipt
  match_payment rec db = elim (not (rec.status == ignored) && not (is_empty rec.code)) [
    | false ↦ ok (rec, db)
    | true ↦ elim (find (has_code rec.code) db.payments) [
      | none ↦ ok (rec, db)
      | some p ↦
          (first (λ db. find (order_is p.order_id) db.orders) >>= λ o.
          first (λ db. find (payment_is p.id) db.payments) >>= λ locked. apply rec locked o)
            db
    ]
  ]

  -- What follows the insertion of a new receipt.
  unfoldable pub process : PaymentWebhookReceipt → Call ⊤
  process rec = match_payment rec >>= finish

  unfoldable pub receive_new : Webhook → Call ⊤
  receive_new w = do id ← new_id; insert_receipt (receipt id w); process (receipt id w)

  -- `Receive`
  unfoldable pub receive : Config → Webhook → Call ⊤
  receive config w = do
    raise_if (not (enabled config)) unavailable
    raise_if (malformed w) invalid
    found ← gets (λ db. find (receipt_key w.id) db.receipts)
    elim found [ none ↦ receive_new w | some old ↦ raise_if (differs old (receipt 0 w)) conflict ]
