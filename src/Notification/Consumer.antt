-- ===== src/Notification/Consumer.antt =====
-- internal/modules/notification/consumer.go: one message of Kafka is handled, or sent to the dead
-- letters, and then committed, each with retries. What the servers and the context do during the
-- retries is a list: whether each call reaches its server, and whether the wait after it ends by the
-- timer. An empty list is a loop that still runs.
use e_commerce_be.Prelude.{ℕ, suc, ◌*◌, Bool, true, false, Option, none, some, List, [], ◌∷◌, ltb}
use e_commerce_be.Shared.{Uuid}
use e_commerce_be.Notification.{Envelope, Notification, failed, bad_event, handled, handle}

pub record Consumer : Type 0 where
  pub has_dlq : Bool
  pub has_realtime : Bool
  pub min_backoff : ℕ
  pub max_backoff : ℕ

-- A message of Kafka, with the envelope that json.Unmarshal reads in its value.
pub record Message : Type 0 where
  pub offset : ℕ
  pub envelope : Option Envelope

pub record Try : Type 0 where
  pub up : Bool
  pub timer : Bool

-- What happens during the three loops.
pub record Fortune : Type 0 where
  pub handling : List Try
  pub letters : List Try
  pub commits : List Try

-- What was done for a message: `Handle` returned without an error for an event, its dead letter was
-- written, its offset was committed.
pub data Act : Type 0 where
  answered : Uuid → Act
  lettered : ℕ → Act
  committed : ℕ → Act

pub record World : Type 0 where
  pub notes : List Notification
  pub published : List Notification
  -- The acts, the last one first.
  pub acts : List Act
  -- The backoffs that were waited for, the last one first.
  pub waits : List ℕ
  pub next_id : Uuid

-- What `process` returns: nil, the error of the context, the missing DLQ; or it still runs.
pub data Outcome : Type 0 where
  finished stopped unconfigured running : Outcome

unfoldable pub next_backoff : ℕ → ℕ → ℕ
next_backoff current maximum = elim (ltb maximum (current * 2)) [
  | true ↦ maximum
  | false ↦ current * 2
]

abbrev pub waited : ℕ → World → World
waited backoff w = record w { waits = backoff ∷ w.waits }

-- `Consumer.commit`
unfoldable pub commit_offset : Consumer → ℕ → ℕ → List Try → World → Outcome × World
unfolding next_backoff
commit_offset c offset backoff [] w = (running, w)
commit_offset c offset backoff (t ∷ ts) w = elim t.up [
  | true ↦ (finished, record w { acts = committed offset ∷ w.acts })
  | false ↦ elim t.timer [
    | false ↦ (stopped, waited backoff w)
    | true ↦ commit_offset c offset (next_backoff backoff c.max_backoff) ts (waited backoff w)
  ]
]

unfoldable pub send_letter : Consumer → ℕ → ℕ → List Try → Fortune → World → Outcome × World
unfolding next_backoff commit_offset
send_letter c offset backoff [] f w = (running, w)
send_letter c offset backoff (t ∷ ts) f w = elim t.up [
  | true ↦
      commit_offset c offset c.min_backoff f.commits (record w { acts = lettered offset ∷ w.acts })
  | false ↦ elim t.timer [
    | false ↦ (stopped, waited backoff w)
    | true ↦ send_letter c offset (next_backoff backoff c.max_backoff) ts f (waited backoff w)
  ]
]

-- `Consumer.deadLetterAndCommit`
unfoldable pub dead_letter : Consumer → ℕ → Fortune → World → Outcome × World
unfolding send_letter
dead_letter c offset f w = elim c.has_dlq [
  | false ↦ (unconfigured, w)
  | true ↦ send_letter c offset c.min_backoff f.letters f w
]

-- The notes of a handled event, and a publication that may fail without effect on the rest.
abbrev pub told : Consumer → Envelope → Option Notification → List Notification → World → World
told c e made ns w = record w {
  acts = answered e.event_id ∷ w.acts;
  notes = ns;
  published = elim made [
    | none ↦ w.published
    | some n ↦ elim c.has_realtime [ true ↦ n ∷ w.published | false ↦ w.published ]
  ];
  next_id = suc w.next_id;
}

-- The loop of `process` over `Handle`.
unfoldable pub handle_event :
    Consumer → ℕ → Envelope → ℕ → List Try → Fortune → World → Outcome × World
unfolding handle commit_offset dead_letter next_backoff
handle_event c offset e backoff [] f w = (running, w)
handle_event c offset e backoff (t ∷ ts) f w =
    let (answer, ns) = handle e t.up w.next_id w.notes in
    elim answer [
      | handled made ↦ commit_offset c offset c.min_backoff f.commits (told c e made ns w)
      | bad_event ↦ dead_letter c offset f w
      | failed ↦ elim t.timer [
        | false ↦ (stopped, waited backoff w)
        | true ↦
            handle_event c offset e (next_backoff backoff c.max_backoff) ts f (waited backoff w)
      ]
    ]

unfoldable pub process_message : Consumer → Message → Fortune → World → Outcome × World
unfolding dead_letter handle_event
process_message c msg f w = elim msg.envelope [
  | none ↦ dead_letter c msg.offset f w
  | some e ↦ handle_event c msg.offset e c.min_backoff f.handling f w
]
