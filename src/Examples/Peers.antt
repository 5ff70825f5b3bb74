-- ===== src/Examples/Peers.antt =====
-- The theorems on core/src/command/dial.rs and disconnect.rs at concrete inputs.
use swarm_p2p.Prelude.{◌≡◌, refl, some, [], ◌∷◌, List}
use swarm_p2p.Error.{ok, err, dial}
use swarm_p2p.Swarm.{
  SwarmEvent, connection_established, connection_closed, outgoing_connection_error,
}
use swarm_p2p.Command.KadStreams.{ended, lifetime}
use swarm_p2p.Command.Peer.{
  DialCommand, DisconnectCommand, run_dial, on_event_dial, run_disconnect, on_event_disconnect,
}
use swarm_p2p.Command.Peer.Outcomes.{run_dial-first_report, run_disconnect-first_report}
use swarm_p2p.Examples.{types, network}

abbrev dial_7 : DialCommand
dial_7 = record { peer_id = 7 }

-- Another peer connects, and the dial of peer 7 fails.
abbrev dial_events : List (SwarmEvent types)
dial_events = connection_established 8 1 ∷ outgoing_connection_error (some 7) "refused" ∷ []

run_dial-first_report_example :
    lifetime on_event_dial (run_dial network dial_7 []) dial_events ≡ ended (err (dial "refused"))
run_dial-first_report_example = run_dial-first_report network dial_7 [] dial_events refl refl

abbrev disconnect_9 : DisconnectCommand
disconnect_9 = record { peer_id = 9 }

-- Peer 9 had two connections.
abbrev closing : List (SwarmEvent types)
closing = connection_closed 9 1 ∷ connection_closed 9 0 ∷ []

run_disconnect-first_report_example :
    lifetime on_event_disconnect (run_disconnect network disconnect_9 []) closing ≡ ended (ok tt)
run_disconnect-first_report_example =
    run_disconnect-first_report network disconnect_9 [] closing refl
