-- ===== src/Client/UploadQueue/Tests.antt =====
-- The upload queue with room for two packets.
use porta.Prelude.{refl, ◌≡◌, ◌⊎◌, true, false, List, [], ◌∷◌, select}
use porta.Prelude.Except.{err}
use porta.Wire.Ip.Classify.{tcp, datagram, control}
use porta.Client.UploadQueue.{
  QueueConfig, UploadQueue, with_config, enqueue, take_round, unavailable, is_fresh,
}
use porta.Client.UploadQueue.Invariant.{
  Call, call_enqueue, call_take, run, IsValid, run-with_config-IsValid,
}
use porta.Client.UploadQueue.Service.{Ends, Gives, enqueue_spares, take_round-Gives}
use porta.Prelude.{arith}

abbrev two_packets : QueueConfig
two_packets = record {
  max_packets = 2;
  max_bytes = 256;
  tcp_max_age = 500;
  datagram_max_age = 150;
  control_max_age = 250;
}

abbrev queued : UploadQueue
queued = record (with_config two_packets) {
  items =
      record { packet = 1 ∷ []; class = tcp; enqueued = 0 }
      ∷ record { packet = 2 ∷ 3 ∷ []; class = datagram; enqueued = 10 }
      ∷ [];
  bytes = 3;
  current_bytes = 3;
  high_water = 3;
}

abbrev calls : List Call
calls =
    call_enqueue (1 ∷ []) tcp 0 ∷ call_enqueue (2 ∷ 3 ∷ []) datagram 10 ∷ call_take 20 1 100 ∷ []

run-with_config-IsValid_example : IsValid (run calls (with_config two_packets))
run-with_config-IsValid_example = run-with_config-IsValid two_packets calls

queued-IsValid : IsValid queued
queued-IsValid = record {
  counted = refl;
  gauged = refl;
  few = omega arith;
  small = omega arith;
  bounded = omega arith;
  emptied = λ h. cc;
  shut = λ h. cc;
}

enqueue_spares_example :
    ((queued.closed ≡ true) ⊎ (queued.active ≡ false)
      → enqueue (4 ∷ []) control 20 queued ≡ (err (unavailable (4 ∷ [])), queued))
    × (queued.closed ≡ false
        → queued.active ≡ true
        → Ends two_packets
            (record { packet = 4 ∷ []; class = control; enqueued = 20 })
            (select (is_fresh two_packets 20) queued.items)
            (enqueue (4 ∷ []) control 20 queued))
enqueue_spares_example = enqueue_spares (4 ∷ []) control 20 queued queued-IsValid

take_round-Gives_example : Gives 20 8 100 queued (take_round 20 8 100 queued)
take_round-Gives_example = take_round-Gives 20 8 100 queued
