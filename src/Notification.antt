-- ===== src/Notification.antt =====
-- internal/modules/notification/service.go and internal/events: what an event of the outbox tells
-- which user. Of the JSON of a payload the model has the fields that the code reads.
pub mod Consumer
pub mod Settled
pub mod Finishes
pub mod Unique
use e_commerce_be.Prelude.{
  ℕ, suc, Bool, true, false, not, ◌&&◌, ◌||◌, ◌++◌, Option, none, some, List, [], ◌∷◌, ◌==◌, ℤ, pos,
  ltb_ℤ, find, update, count,
}
use e_commerce_be.Shared.{Word, Uuid, is_some, text_eq}
use e_commerce_be.Text.{codes, is_blank, is_empty}
use e_commerce_be.Words.{
  order_created, payment_succeeded, order_status_changed, inventory_changed, product_search_updated,
  review_search_updated, seller_status_changed, seller_search_updated,
}

-- The payload: whether json.Unmarshal reads it into the struct of its event, whether into a map and
-- then not into nil, and its fields.
pub record Payload : Type 0 where
  pub fits : Bool
  pub is_object : Bool
  pub is_null : Bool
  pub order_id : Uuid
  pub user_id : Uuid
  pub product_id : Uuid
  pub total : ℤ
  pub discount : ℤ
  pub amount : ℤ
  pub currency : List ℕ
  pub method : List ℕ
  pub status : List ℕ
  pub has_delta : Bool

pub record Envelope : Type 0 where
  pub event_id : Uuid
  pub event_type : Word
  pub aggregate_type : List ℕ
  pub aggregate_id : Uuid
  pub has_time : Bool
  pub version : ℤ
  -- none where the payload has no bytes.
  pub payload : Option Payload

-- What `recipient` answers: ErrInvalidEvent, an event that tells nobody, or a user and a status.
pub data Recipient : Type 0 where
  invalid : Recipient
  nobody : Recipient
  tells : Uuid → List ℕ → Recipient

abbrev pub valid_when : Bool → Recipient → Recipient
valid_when test r = elim test [ true ↦ r | false ↦ invalid ]

abbrev pub bad_envelope : Envelope → Bool
bad_envelope e =
    e.event_id == 0
    || not (elim e.version [ pos n ↦ n == 1 | _ ↦ false ])
    || is_blank e.aggregate_type
    || e.aggregate_id == 0
    || not e.has_time

abbrev created_by : Payload → Recipient
created_by p =
    valid_when
      (p.fits
        && not (p.order_id == 0)
        && not (p.user_id == 0)
        && not (ltb_ℤ p.total (pos 0))
        && not (ltb_ℤ p.discount (pos 0))
        && not (is_empty p.currency))
      (tells p.user_id [])

abbrev paid_by : Payload → Recipient
paid_by p =
    valid_when
      (p.fits
        && not (p.order_id == 0)
        && not (p.user_id == 0)
        && not (ltb_ℤ p.amount (pos 0))
        && not (is_blank p.method))
      (tells p.user_id [])

abbrev moved_to : Payload → Recipient
moved_to p =
    valid_when (p.fits && not (p.order_id == 0) && not (p.user_id == 0) && not (is_blank p.status))
      (tells p.user_id p.status)

abbrev known_status : List ℕ → Bool
known_status s =
    text_eq s (codes "approved") || text_eq s (codes "rejected") || text_eq s (codes "suspended")

-- The `switch` on the event type, for a payload that has bytes.
abbrev by_type : Envelope → Payload → Recipient
by_type e p = elim (e.event_type == order_created) [
  | true ↦ created_by p
  | false ↦ elim (e.event_type == payment_succeeded) [
    | true ↦ paid_by p
    | false ↦ elim (e.event_type == order_status_changed) [
      | true ↦ moved_to p
      | false ↦ elim (e.event_type == product_search_updated) [
        | true ↦
            valid_when (text_eq e.aggregate_type (codes "product") && p.is_object && not p.is_null)
              nobody
        | false ↦ elim (e.event_type == inventory_changed) [
          | true ↦
              valid_when
                (text_eq e.aggregate_type (codes "variant")
                  && p.is_object
                  && not p.is_null
                  && p.has_delta)
                nobody
          | false ↦ elim (e.event_type == review_search_updated) [
            | true ↦
                valid_when
                  (text_eq e.aggregate_type (codes "product")
                    && p.fits
                    && not (p.product_id == 0)
                    && p.product_id == e.aggregate_id)
                  nobody
            | false ↦
                elim (e.event_type == seller_search_updated
                  || e.event_type == seller_status_changed) [
                    | true ↦
                        valid_when
                          (text_eq e.aggregate_type (codes "seller")
                            && p.fits
                            && (e.event_type == seller_search_updated || known_status p.status))
                          nobody
                    | false ↦ nobody
                  ]
          ]
        ]
      ]
    ]
  ]
]

-- An event type of which the payload is read.
abbrev reads_payload : Word → Bool
reads_payload t =
    t == order_created
    || t == payment_succeeded
    || t == order_status_changed
    || t == product_search_updated
    || t == inventory_changed
    || t == review_search_updated
    || t == seller_search_updated
    || t == seller_status_changed

unfoldable pub recipient : Envelope → Recipient
recipient e = elim (bad_envelope e) [
  | true ↦ invalid
  | false ↦ elim e.payload [
    | none ↦ elim (reads_payload e.event_type) [ true ↦ invalid | false ↦ nobody ]
    | some p ↦ by_type e p
  ]
]

-- `message`: the title and the text.
unfoldable pub message : Word → List ℕ → List ℕ × List ℕ
message kind status = elim (kind == order_created) [
  | true ↦ (codes "New order", codes "Your order was created successfully.")
  | false ↦ elim (kind == payment_succeeded) [
    | true ↦ (codes "Payment succeeded", codes "Your payment was received successfully.")
    | false ↦ elim (kind == order_status_changed) [
      | true ↦ (codes "Order updated", codes "Your order status changed to: " ++ status)
      | false ↦ (codes "Account update", codes "You have a new update.")
    ]
  ]
]

pub record Notification : Type 0 where
  pub id : Uuid
  pub user_id : Uuid
  pub event_id : Uuid
  pub kind : Word
  pub title : List ℕ
  pub text : List ℕ
  pub read_at : Option ℕ

abbrev pub of_event : Uuid → Notification → Bool
of_event id n = n.event_id == id

-- What `Handle` returns: an error of the database, ErrInvalidEvent, or no error and, if it made
-- one, the notification.
pub data Answer : Type 0 where
  failed : Answer
  bad_event : Answer
  handled : Option Notification → Answer

abbrev is_map : Option Payload → Bool
is_map none = false
is_map (some p) = p.is_object

abbrev pub note_for : Envelope → Uuid → List ℕ → Uuid → Notification
note_for e user status id =
    let (title, text) = message e.event_type status in
    record {
      id = id;
      user_id = user;
      event_id = e.event_id;
      kind = e.event_type;
      title = title;
      text = text;
      read_at = none;
    }

-- INSERT ... ON CONFLICT (event_id) DO NOTHING, on a database that is up or not.
unfoldable pub answer_to :
    Recipient → Envelope → Bool → Uuid → List Notification → Answer × List Notification
unfolding message
answer_to invalid e up id ns = (bad_event, ns)
answer_to nobody e up id ns = (handled none, ns)
answer_to (tells user status) e up id ns = elim (is_map e.payload) [
  | false ↦ (bad_event, ns)
  | true ↦ elim up [
    | false ↦ (failed, ns)
    | true ↦ elim (find (of_event e.event_id) ns) [
      | some n ↦ (handled none, ns)
      | none ↦ (handled (some (note_for e user status id)), note_for e user status id ∷ ns)
    ]
  ]
]

-- `Service.Handle`. The new identifier is an argument.
unfoldable pub handle : Envelope → Bool → Uuid → List Notification → Answer × List Notification
unfolding answer_to recipient
handle e up id ns = answer_to (recipient e) e up id ns

abbrev pub owned_by : Uuid → Uuid → Notification → Bool
owned_by user id n = n.id == id && n.user_id == user

-- COALESCE(read_at, NOW())
abbrev pub seen_at : ℕ → Notification → Notification
seen_at now n = record n { read_at = elim n.read_at [ none ↦ some now | some t ↦ some t ] }

-- `MarkRead`, none for gorm.ErrRecordNotFound.
unfoldable pub mark_read : ℕ → Uuid → Uuid → List Notification → Option (List Notification)
mark_read now user id ns = elim (find (owned_by user id) ns) [
  | none ↦ none
  | some n ↦ some (update (owned_by user id) (seen_at now) ns)
]

abbrev pub unseen_by : Uuid → Notification → Bool
unseen_by user n = n.user_id == user && not (is_some n.read_at)

unfoldable pub mark_all_read : ℕ → Uuid → List Notification → List Notification
mark_all_read now user ns = update (unseen_by user) (seen_at now) ns

unfoldable pub unread : Uuid → List Notification → ℕ
unread user ns = count (unseen_by user) ns
