-- ===== src/Payment/Receive/Repeat.antt =====
-- The bank sends a webhook again until it is answered: `Receive` and its repetition.
use mathlib.Core.Path.{subst}
use e_commerce_be.Prelude.{
  ℕ, ◌≡◌, ap, sym, ◌∙◌, Bool, true, false, none, some, ◌∷◌, ◌==◌, if◌then◌else◌, find, update,
  arith, inl, inr, ◌⊎◌, Option-cases, ℤ, ◌==ℤ◌,
}
use e_commerce_be.Shared.{Uuid, ok}
use e_commerce_be.Models.{PaymentWebhookReceipt}
use e_commerce_be.Store.{Db}
use e_commerce_be.Payment.Sepay.{Config, Webhook, enabled}
use e_commerce_be.Payment.Receive.{receipt_key, differs, malformed, receipt, receive_new, receive}
use e_commerce_be.Payment.Receive.Laws.{Pays, of_webhook, saved, receive_new_frame, same_webhook}

==ℤ_refl : (z : ℤ) → (z ==ℤ z) ≡ true
==ℤ_refl z = ground arith

module _ (fold upper_other : ℕ → ℕ) where
  key_of_webhook :
      (w : Webhook) (id : Uuid) → receipt_key w.id (receipt fold upper_other id w) ≡ true
  unfolding receipt
  key_of_webhook w id = ground (arith, ==ℤ_refl w.id)

  -- The row that a repetition of the webhook finds.
  head_row :
      (w : Webhook) (final : PaymentWebhookReceipt) (db : Db)
      → find (receipt_key w.id) (
          update
            (λ r. r.id == final.id)
            (saved fold upper_other final)
            (of_webhook fold upper_other w db ∷ db.receipts))
        ≡ some (
            if (of_webhook fold upper_other w db).id == final.id
            then saved fold upper_other final (of_webhook fold upper_other w db)
            else of_webhook fold upper_other w db)
  unfolding find update receipt
  head_row w final db = ground (arith, ==ℤ_refl w.id)

  -- What one delivery did: the webhook was known and nothing changed, or it is new.
  received :
      (config : Config) (w : Webhook) (db db' : Db)
      → receive fold upper_other config w db ≡ ok (tt, db')
      → (enabled config ≡ true)
        × (malformed w ≡ false)
        × ((db' ≡ db)
            ⊎ ((find (receipt_key w.id) db.receipts ≡ none)
                × (receive_new fold upper_other w db ≡ ok (tt, db'))))
  unfolding receive
  received config w db db' h = elim (Option-cases (find (receipt_key w.id) db.receipts)) [
    | inl new ↦ (ground arith, ground arith, inr (new, ground arith))
    | inr (old, e) ↦ (ground arith, ground arith, inl (ground arith))
  ]

  -- A webhook that is received leaves the payments as they are, or pays exactly one: the payment that
  -- its code names, which was pending, by bank transfer, of exactly the amount that came in to its
  -- account, for an order that was pending.
  pub receive-Pays :
      (config : Config) (w : Webhook) (db db' : Db)
      → receive fold upper_other config w db ≡ ok (tt, db')
      → Pays fold upper_other (of_webhook fold upper_other w db) db db'
  receive-Pays config w db db' h =
      let (on, good, done) = received config w db db' h in
      elim done [
        | inl same ↦ inl (ap (λ (d : Db). d.payments) same)
        | inr (new, e) ↦ (receive_new_frame fold upper_other w db db' e).2
      ]

  known :
      (config : Config) (w : Webhook) (db : Db) (old : PaymentWebhookReceipt)
      → enabled config ≡ true
      → malformed w ≡ false
      → find (receipt_key w.id) db.receipts ≡ some old
      → differs old (receipt fold upper_other 0 w) ≡ false
      → receive fold upper_other config w db ≡ ok (tt, db)
  unfolding receive
  known config w db old on good e agrees = ground arith

  agrees_after :
      (w : Webhook) (id : Uuid) (final : PaymentWebhookReceipt) (t : Bool)
      → differs
          (if t
            then saved fold upper_other final (receipt fold upper_other id w)
            else receipt fold upper_other id w)
          (receipt fold upper_other 0 w)
        ≡ false
  unfolding receipt
  agrees_after w id final true = same_webhook fold upper_other w id final.status final.payment_id
  agrees_after w id final false =
      same_webhook fold upper_other w id (receipt fold upper_other id w).status none

  -- Receiving a webhook twice is receiving it once.
  pub receive_idem :
      (config : Config) (w : Webhook) (db db' : Db)
      → receive fold upper_other config w db ≡ ok (tt, db')
      → receive fold upper_other config w db' ≡ ok (tt, db')
  receive_idem config w db db' h =
      let (on, good, done) = received config w db db' h in
      elim done [
        | inl same ↦ subst (λ d. receive fold upper_other config w d ≡ ok (tt, db')) (sym same) h
        | inr (new, e) ↦
            let (final, rows, pays) = receive_new_frame fold upper_other w db db' e in
            known config w db' _ on good (ap (find (receipt_key w.id)) rows ∙ head_row w final db)
              (agrees_after w db.next_id final _)
      ]
