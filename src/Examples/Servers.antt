-- ===== src/Examples/Servers.antt =====
-- The theorems on the crate bootstrap at concrete inputs.
use swarm_p2p.Prelude.{◌≡◌, refl, ℕ, String, true, none, some, [], ◌∷◌}
use swarm_p2p.Error.{Result, ok, err}
use swarm_p2p.Swarm.Addr.{tcp}
use swarm_p2p.Bootstrap.Identity.{Keys, Fs, written, Bytes, load_or_generate_keypair}
use swarm_p2p.Bootstrap.Identity.Stable.{RoundTrips}
use swarm_p2p.Bootstrap.Serve.{
  event, shutdown, new_listen_addr, other_event, listening_on, serve, handle_event,
}
use swarm_p2p.Bootstrap.Serve
use swarm_p2p.Bootstrap.Cli.{run, peer_id, default_args, launch_of}
use swarm_p2p.Bootstrap.Process.{World, main}
use swarm_p2p.Bootstrap.Process.Identity.{main-same_identity}

abbrev decode : Bytes → Result ℕ String
decode (k ∷ []) = ok k
decode _ = err "malformed"

abbrev keys : Keys
keys = record {
  Keypair = ℕ;
  generate_ed25519 = λ random. random;
  to_protobuf_encoding = λ k. ok (k ∷ []);
  from_protobuf_encoding = decode;
  to_peer_id = λ k. k;
}

keys-RoundTrips : RoundTrips keys
keys-RoundTrips k bytes e = rw (← bytes_of k bytes e) refl
  where
    bytes_of :
        (k : ℕ) (bytes : Bytes)
        → ◌≡◌ {A = Result Bytes String} (ok (k ∷ [])) (ok bytes)
        → (k ∷ []) ≡ bytes
    bytes_of k bytes e = cc

-- The file system has no file yet, and allows everything.
abbrev empty : Fs
empty = record {
  file = λ path. none;
  may_read = λ path. true;
  write_answer = λ path. written;
  may_set_mode = λ path. true;
  new_mode = 420;
}

-- The binary /opt/node; a shutdown after two events.
abbrev world : World
world = record {
  version = "1";
  current_exe = some ("opt" ∷ "node" ∷ []);
  random = 7;
  display = λ n. "4001";
  parse = λ text. ok (tcp 4001 ∷ []);
  runtime_builds = true;
  swarm = record { built = λ plan t. ok tt; listen_answer = λ calls addr. ok tt };
  selected =
      event (new_listen_addr (tcp 4001 ∷ []))
      ∷ event other_event
      ∷ shutdown
      ∷ event other_event
      ∷ [];
}

-- The first process prints the id; the second, with other randomness, runs the node.
main-same_identity_example :
    let after = (main keys world (peer_id none) empty).fs in
    let second = main keys (record world { random = 8 }) (run default_args) after in
    (second.identity ≡ some 7) × (second.fs ≡ after)
unfolding main load_or_generate_keypair
main-same_identity_example =
    main-same_identity keys keys-RoundTrips world (record world { random = 8 }) (peer_id none)
      (run default_args) empty 7 refl refl refl

-- What is logged before the shutdown.
served_lines : (main keys world (run default_args) empty).lines ≡ listening_on (tcp 4001 ∷ []) ∷ []
unfolding main load_or_generate_keypair launch_of Serve.run serve handle_event
served_lines = refl
