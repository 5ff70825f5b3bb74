-- ===== src/Swarm.antt =====
-- What the program uses of libp2p: addresses, the events and the operations of a swarm. The types
-- that the program never looks into are the parameter `T`, and the answers of the swarm are the
-- parameter `Swarm T`: functions of the calls made so far, newest first. `polled` in that list
-- stands for whatever the network did while the event loop awaited the swarm.
pub mod Addr
use swarm_p2p.Prelude.{ℕ, String, Bool, Option, List, ◌∷◌}
use swarm_p2p.DataChannel.{PeerId}
use swarm_p2p.Error.{Result}
use Addr.{Multiaddr}

pub record Types : Type 1 where
  pub Req : Type 0
  pub Resp : Type 0
  pub Record : Type 0
  pub RecordKey : Type 0
  pub QueryStats : Type 0
  pub ResponseChannel : Type 0

-- Identifiers that the program only compares.
abbrev pub QueryId : Type 0
QueryId = ℕ

abbrev pub RequestId : Type 0
RequestId = ℕ

-- core/src/util.rs.
pub record QueryStatsInfo : Type 0 where
  pub duration : Option ℕ
  pub num_requests : ℕ
  pub num_successes : ℕ
  pub num_failures : ℕ

pub data Call (T : Types) : Type 0 where
  polled : Call T
  add_peer_address kad_add_address : PeerId → Multiaddr → Call T
  dial disconnect_peer_id : PeerId → Call T
  listen_on add_external_address : Multiaddr → Call T
  kad_bootstrap : Call T
  kad_get_closest_peers kad_get_providers kad_get_record : T.RecordKey → Call T
  kad_remove_record kad_start_providing kad_stop_providing : T.RecordKey → Call T
  kad_put_record : T.Record → Call T
  send_request : PeerId → T.Req → Call T
  send_response : T.ResponseChannel → T.Resp → Call T

abbrev pub Trace : Types → Type 0
Trace T = List (Call T)

-- An error is the text that the program makes of it, by `Display` or by `Debug`.
pub record Swarm (T : Types) : Type 0 where
  pub is_connected : Trace T → PeerId → Bool
  pub listeners : Trace T → List Multiaddr
  pub external_addresses : Trace T → List Multiaddr
  pub addr_le : Multiaddr → Multiaddr → Bool
  pub relay_client_is_enabled : Trace T → Bool
  pub relay_server_is_enabled : Trace T → Bool
  pub dial_answer : Trace T → PeerId → Result (Unit {0}) String
  pub disconnect_answer : Trace T → PeerId → Result (Unit {0}) (Unit {0})
  pub listen_answer : Trace T → Multiaddr → Result (Unit {0}) String
  pub bootstrap_answer : Trace T → Result QueryId String
  pub put_record_answer : Trace T → T.Record → Result QueryId String
  pub start_providing_answer : Trace T → T.RecordKey → Result QueryId String
  pub closest_peers_query : Trace T → T.RecordKey → QueryId
  pub providers_query : Trace T → T.RecordKey → QueryId
  pub record_query : Trace T → T.RecordKey → QueryId
  pub request_id : Trace T → PeerId → T.Req → RequestId
  pub response_answer : Trace T → T.ResponseChannel → T.Resp → Result (Unit {0}) T.Resp
  pub display_peer : PeerId → String
  pub merge : T.QueryStats → T.QueryStats → T.QueryStats
  pub duration : T.QueryStats → Option ℕ
  pub num_requests : T.QueryStats → ℕ
  pub num_successes : T.QueryStats → ℕ
  pub num_failures : T.QueryStats → ℕ

pub record BootstrapOk : Type 0 where
  pub peer : PeerId
  pub num_remaining : ℕ

-- The variants of `kad::GetRecordOk` and `kad::GetProvidersOk`.
pub data GetRecordOk (T : Types) : Type 0 where
  found_record : T.Record → GetRecordOk T
  finished_record : GetRecordOk T

pub data GetProvidersOk : Type 0 where
  found_providers : List PeerId → GetProvidersOk
  finished_providers : List PeerId → GetProvidersOk

-- `kad::QueryResult`, with the errors as their `Debug` texts.
pub data QueryResult (T : Types) : Type 0 where
  bootstrap_result : Result BootstrapOk String → QueryResult T
  closest_peers_result : Result (List PeerId) String → QueryResult T
  providers_result : Result GetProvidersOk String → QueryResult T
  record_result : Result (GetRecordOk T) String → QueryResult T
  put_record_result : Result (Unit {0}) String → QueryResult T
  start_providing_result : Result (Unit {0}) String → QueryResult T
  other_result : QueryResult T

pub data OutboundFailure : Type 0 where
  dial_failure timeout connection_closed unsupported_protocols io : OutboundFailure

pub data RelayClientEvent : Type 0 where
  reservation_accepted : PeerId → Bool → RelayClientEvent
  outbound_circuit : PeerId → RelayClientEvent
  inbound_circuit : PeerId → RelayClientEvent

pub data RelayServerEvent : Type 0 where
  accepted : PeerId → Bool → RelayServerEvent
  denied : PeerId → String → RelayServerEvent
  closed timed_out : PeerId → RelayServerEvent
  circuit_accepted : PeerId → PeerId → RelayServerEvent
  circuit_denied : PeerId → PeerId → String → RelayServerEvent
  circuit_closed : PeerId → PeerId → RelayServerEvent
  transient_failure : RelayServerEvent

pub record IdentifyInfo : Type 0 where
  pub protocol_version : String
  pub agent_version : String
  pub listen_addrs : List Multiaddr
  pub protocols : List String

-- The events that the program tells apart; `other_event` are the rest.
pub data SwarmEvent (T : Types) : Type 0 where
  kad_progressed : QueryId → QueryResult T → T.QueryStats → Bool → SwarmEvent T
  kad_routing_updated : PeerId → List Multiaddr → SwarmEvent T
  request_message : PeerId → T.Req → T.ResponseChannel → SwarmEvent T
  response_message : PeerId → RequestId → T.Resp → SwarmEvent T
  outbound_failure : PeerId → RequestId → OutboundFailure → SwarmEvent T
  connection_established : PeerId → ℕ → SwarmEvent T
  connection_closed : PeerId → ℕ → SwarmEvent T
  outgoing_connection_error : Option PeerId → String → SwarmEvent T
  new_listen_addr : Multiaddr → SwarmEvent T
  relay_client : RelayClientEvent → SwarmEvent T
  relay_server : RelayServerEvent → SwarmEvent T
  dcutr : PeerId → Result (Unit {0}) String → SwarmEvent T
  mdns_discovered : List (PeerId × Multiaddr) → SwarmEvent T
  ping_success : PeerId → ℕ → SwarmEvent T
  identify_received : PeerId → IdentifyInfo → SwarmEvent T
  autonat : Multiaddr → PeerId → Result (Unit {0}) String → SwarmEvent T
  listener_closed listener_error incoming_connection_error : SwarmEvent T
  other_event : ℕ → SwarmEvent T
