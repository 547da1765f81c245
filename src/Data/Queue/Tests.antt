-- ===== src/Data/Queue/Tests.antt =====
-- Runs of queue.rs.
use porta.Prelude.{◌≡◌, refl, true, some, [], ◌∷◌, replicate}
use porta.Wire.Bytes.{Bytes}
use porta.Data.Classify.{classify_ipv4, datagram}
use porta.Data.Queue.{
  PacketQueue, QueuedPacket, default_config, new, notified, grew, is_fresh, enqueue_at, dequeue_at,
}
use porta.Data.Queue.Invariant.{IsValid, run, run-IsValid}
use porta.Data.Queue.Service.{Ends, enqueue_at_spares, dequeue_at_fifo}
use porta.Data.Queue.Invariant.{enqueues}
use porta.Data.Classify.{flow_of}
use porta.Data.Queue.Invariant.{dequeues}
use porta.Data.Classify.{class_of}
use porta.Data.Queue.Invariant.{closes}
use porta.Prelude.{arith}

-- Ten bytes are too short for an IPv4 header: a datagram.
abbrev noise : Bytes
noise = replicate 10 0

abbrev fresh_item : QueuedPacket
fresh_item = record { bytes = noise; class = datagram; enqueued = 5 }

abbrev one_item : PacketQueue
one_item = record (new default_config true true) {
  items = fresh_item ∷ [];
  bytes = 10;
  queued_bytes = 10;
  queued_packets = 1;
  log = notified ∷ grew 10 ∷ [];
}

run-IsValid_example :
    IsValid
      (run (new default_config true true) ((0, enqueues noise) ∷ (9, dequeues) ∷ (9, closes) ∷ []))
run-IsValid_example =
    run-IsValid default_config true true ((0, enqueues noise) ∷ (9, dequeues) ∷ (9, closes) ∷ [])

dequeue_at_fifo_example :
    ((dequeue_at 9 one_item).0 ≡ some noise) × ((dequeue_at 9 one_item).1.items ≡ [])
unfolding is_fresh
dequeue_at_fifo_example = ((dequeue_at_fifo 9 one_item).1 refl).1 fresh_item [] refl

one_item-IsValid : IsValid one_item
one_item-IsValid = record {
  counted = refl;
  few = omega arith;
  small = omega arith;
  bytes_published = refl;
  packets_published = refl;
  emptied = λ h. cc;
  metered = λ _ _. refl;
}

enqueue_at_spares_example :
    Ends default_config
      (record { bytes = noise; class = datagram; enqueued = 9 })
      (fresh_item ∷ [])
      (enqueue_at noise 9 one_item)
unfolding is_fresh classify_ipv4 flow_of class_of
enqueue_at_spares_example = enqueue_at_spares noise 9 one_item one_item-IsValid refl refl
