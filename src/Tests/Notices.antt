-- ===== src/Tests/Notices.antt =====
-- The event of an order reaches user 1 after one failure of the database.
use e_commerce_be.Prelude.{
  ℕ, ◌≡◌, ◌⊎◌, refl, arith, inl, inr, true, false, none, some, List, [], ◌∷◌, pos,
}
use e_commerce_be.Text.{codes}
use e_commerce_be.Words.{order_created}
use e_commerce_be.Notification.{Payload, Envelope}
use e_commerce_be.Notification.Consumer.{
  Consumer, Message, Try, Fortune, World, finished, process_message,
}
use e_commerce_be.Notification.Settled.{Settled, Open, process_message-Settled}
use e_commerce_be.Notification.Finishes.{Served, process_message_finishes}
use e_commerce_be.Notification.Unique.{Once, process_message-Once}

abbrev payload : Payload
payload = record {
  fits = true;
  is_object = true;
  is_null = false;
  order_id = 10;
  user_id = 1;
  product_id = 0;
  total = pos 500;
  discount = pos 0;
  amount = pos 0;
  currency = codes "VND";
  method = [];
  status = [];
  has_delta = false;
}

abbrev envelope : Envelope
envelope = record {
  event_id = 70;
  event_type = order_created;
  aggregate_type = codes "order";
  aggregate_id = 10;
  has_time = true;
  version = pos 1;
  payload = some payload;
}

abbrev notifier : Consumer
notifier = record { has_dlq = true; has_realtime = true; min_backoff = 1; max_backoff = 30 }

abbrev delivery : Message
delivery = record { offset = 4; envelope = some envelope }

abbrev works : Try
works = record { up = true; timer = true }

abbrev fails : Try
fails = record { up = false; timer = true }

abbrev fortune : Fortune
fortune = record { handling = fails ∷ works ∷ []; letters = works ∷ []; commits = works ∷ [] }

abbrev quiet : World
quiet = record { notes = []; published = []; acts = []; waits = []; next_id = 90 }

abbrev noticed : World
noticed = (process_message notifier delivery fortune quiet).1

process_message_run : process_message notifier delivery fortune quiet ≡ (finished, noticed)
unfolding process_message e_commerce_be.Text.trim_space e_commerce_be.Prelude.find
process_message_run = refl

process_message-Settled_example :
    Open finished quiet.acts noticed ⊎ ((finished ≡ finished) × Settled delivery quiet.acts noticed)
process_message-Settled_example =
    process_message-Settled notifier delivery fortune finished quiet noticed process_message_run

process_message_finishes_example :
    (w : World) × (process_message notifier delivery fortune quiet ≡ (finished, w))
unfolding Served
process_message_finishes_example =
    process_message_finishes notifier delivery fortune quiet refl (inr (refl, inl refl)) (inl refl)
      (inl refl)

quiet-Once : Once quiet.notes
unfolding Once e_commerce_be.Prelude.count
quiet-Once id = omega arith

process_message-Once_example : Once noticed.notes
process_message-Once_example = process_message-Once notifier delivery fortune quiet quiet-Once
