-- ===== src/Order/Checkout/Replay.antt =====
-- A checkout that is sent again under its key.
use mathlib.Core.Path.{subst}
use e_commerce_be.Prelude.{
  ℕ, ◌≡◌, ap, sym, ◌∙◌, Bool, not, ◌&&◌, some, List, ◌∷◌, ◌==◌, find, arith, inl, inr, Option-cases,
}
use e_commerce_be.Shared.{ok, text_eq_refl, is_some}
use e_commerce_be.Models.{User, Order, Payment}
use e_commerce_be.Store.{Db}
use e_commerce_be.Directory.{Directory}
use e_commerce_be.Payment.Sepay.{Config}
use e_commerce_be.Order.Fulfill.{payment_of}
use e_commerce_be.Order.Checkout.Place.{Request, key_is, replay, checkout}
use e_commerce_be.Order.Checkout.Placed.{Answers, place-Placed}

replay_ok :
    (r : Request) (o : Order) (p : Payment) (ps : List Payment) (db : Db)
    → Answers r o
    → db.payments ≡ p ∷ ps
    → p.order_id ≡ o.id
    → p.method ≡ r.method
    → replay r o db ≡ ok (o, db)
unfolding replay find
replay_ok r o p ps db a e own same = ground (
  arith,
  a.key,
  a.selection,
  a.coupon,
  a.address,
  text_eq_refl r.selection,
  text_eq_refl r.coupon_code,
)

replay_frame : (r : Request) (o o' : Order) (db db' : Db) → replay r o db ≡ ok (o', db') → db' ≡ db
unfolding replay
replay_frame r o o' db db' h = elim (Option-cases (find (payment_of o.id) db.payments)) [
  | inl lost ↦ ground arith
  | inr (p, e) ↦ ground arith
]

known_order :
    (d : Directory) (config : Config) (now : ℕ) (r : Request) (o given : Order) (u : User) (db : Db)
    → find (λ (u : User). u.id == r.user && not (is_some u.deleted_at)) db.users ≡ some u
    → find (key_is r.user r.key) db.orders ≡ some o
    → replay r o db ≡ ok (given, db)
    → checkout d config now r db ≡ ok (given, db)
unfolding checkout
known_order d config now r o given u db live known answer = ground arith

own_key :
    (r : Request) (o : Order) (rest : List Order)
    → Answers r o
    → find (key_is r.user r.key) (o ∷ rest) ≡ some o
unfolding find
own_key r o rest a = ground (arith, a.user, a.key, text_eq_refl r.key)

-- A checkout that succeeded gives, when it is sent again under its key with the same request, the
-- same order at any later time, and changes nothing: no second order, payment or stock movement.
pub checkout_idem :
    (d : Directory) (config : Config) (now later : ℕ) (r : Request) (o : Order) (db db' : Db)
    → checkout d config now r db ≡ ok (o, db')
    → checkout d config later r db' ≡ ok (o, db')
unfolding checkout
checkout_idem d config now later r o db db' h =
    let live : User → Bool = λ u. u.id == r.user && not (is_some u.deleted_at) in
    elim (Option-cases (find live db.users)) [
      | inl lost ↦ ground arith
      | inr (u, eu) ↦ elim (Option-cases (find (key_is r.user r.key) db.orders)) [
        | inl new ↦
            let p = place-Placed d config now r o db db' (ground arith) in
            known_order d config later r o o u db' (ap (find live) p.users ∙ eu)
              (ap (find (key_is r.user r.key)) p.newest.1 ∙ own_key r o p.newest.0 p.answers)
              (replay_ok r o p.payment p.payments db' p.answers p.first_payment p.own p.method)
        | inr (old, eo) ↦
            let again : replay r old db ≡ ok (o, db') = ground arith in
            let same : db' ≡ db = replay_frame r old o db db' again in
            subst (λ x. checkout d config later r x ≡ ok (o, x)) (sym same)
              (known_order d config later r old o u db eu eo (again ∙ ap (λ x. ok (o, x)) same))
      ]
    ]
