-- ===== src/Data/Router/Tests.antt =====
-- A router with a session, and its flow table.
use porta.Prelude.{
  ℕ, ◌≤◌, ◌<◌, ◌≡◌, ap, true, false, none, some, List, [], ◌∷◌, replicate, arith, length,
}
use porta.Prelude.Map.{lookup, nat_eq}
use porta.Wire.Bytes.{Bytes}
use porta.Wire.Ip
use porta.Wire.Ip.{slice}
use porta.Data.Classify.{FlowKey}
use porta.Data.Queue.{default_config, new}
use porta.Data.Router.{Session, SessionGroup, parse_ipv4}
use porta.Data.Router.Parse.{Agrees, parse_ipv4-Agrees}
use porta.Data.Router.Flows.{default_table, max_tracked_flows}
use porta.Data.Router.Flows.Recency.{
  FlowCall, call_assign, call_use, call_remove, run_recency, Shows,
}
use porta.Data.Router.Flows.Refines.{flows_refine}
use porta.Data.Router.Flows.Recency
use porta.Data.Router.Lanes.{Store, live, select_lane, select_data_lane}
use porta.Data.Router.Lanes.Least.{IsSmall}
use porta.Data.Router.Lanes.Choice.{Chooses, live_lem, select_data_lane-Chooses, select_lane-live}
use porta.Prelude.{◌++◌}

abbrev dns : FlowKey
dns = record {
  source = 10 ∷ 0 ∷ 0 ∷ 2 ∷ [];
  destination = 1 ∷ 1 ∷ 1 ∷ 1 ∷ [];
  source_port = 4000;
  destination_port = 53;
  fragment_id = 0;
  protocol = 17;
  fragmented = false;
}

abbrev web : FlowKey
web = record dns { destination_port = 443; protocol = 6 }

abbrev calls : List FlowCall
calls = call_assign dns 1 ∷ call_assign web 2 ∷ call_use dns ∷ call_remove web ∷ call_use web ∷ []

flows_refine_example :
    ((Recency.run calls default_table).0 ≡ (run_recency calls []).0)
    × Shows (Recency.run calls default_table).1 (run_recency calls []).1
    × (length (Recency.run calls default_table).1.entries ≤ max_tracked_flows)
flows_refine_example = flows_refine calls

abbrev client : Bytes
client = 10 ∷ 0 ∷ 0 ∷ 2 ∷ []

abbrev lane_session : Session
lane_session = record {
  address = client;
  cancelled = false;
  queue = new default_config true true;
  closed = false;
}

abbrev lanes_store : Store
lanes_store = (7, lane_session) ∷ []

abbrev two_lanes : SessionGroup
two_lanes = record {
  id = 1 ∷ [];
  lane_count = 3;
  lanes = (2, 7) ∷ [];
  lane_connections = [];
  flows = default_table;
  collapse_warned = false;
}

lanes_store-IsSmall : IsSmall lanes_store two_lanes
lanes_store-IsSmall lane found h =
    let at = (live_lem lanes_store two_lanes lane found h).1 in
    let same : found.1 ≡ lane_session = ground (arith, at) in
    omega (arith, ap (λ (s : Session). s.queue.queued_bytes) same)

select_data_lane-Chooses_example :
    Chooses lanes_store two_lanes web (select_data_lane lanes_store two_lanes web 5)
select_data_lane-Chooses_example =
    select_data_lane-Chooses lanes_store two_lanes web 5 lanes_store-IsSmall

abbrev empty_packet : Bytes
empty_packet = 0x45 ∷ 0 ∷ 0 ∷ 20 ∷ replicate 8 0 ++ (1 ∷ 1 ∷ 1 ∷ 1 ∷ client)

select_lane-live_example :
    ((found : ℕ × Session)
      → (select_lane lanes_store two_lanes empty_packet).0 ≡ some found
      → (lane : ℕ) × (lookup lane two_lanes.lanes ≡ some found.0)
        × (lookup found.0 lanes_store ≡ some found.1))
    × ((select_lane lanes_store two_lanes empty_packet).0 ≡ none
        → (lane : ℕ) → lane < 3
        → live lanes_store two_lanes lane ≡ none)
select_lane-live_example = select_lane-live lanes_store two_lanes empty_packet

parse_ipv4-Agrees_example : Agrees (parse_ipv4 empty_packet) (Ip.parse_ipv4 empty_packet)
parse_ipv4-Agrees_example = parse_ipv4-Agrees empty_packet
