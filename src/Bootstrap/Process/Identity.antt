-- ===== src/Bootstrap/Process/Identity.antt =====
-- All processes of bootstrap/src/main.rs with one key file are one node.
use swarm_p2p.Prelude.{◌≡◌, refl, sym, ◌∙◌, inl, inr, true, Bool-cases, none, some}
use swarm_p2p.DataChannel.{PeerId}
use swarm_p2p.Error.{Result, ok, err}
use swarm_p2p.Bootstrap.Identity.{Keys, Fs, KeyError, load_or_generate_keypair}
use swarm_p2p.Bootstrap.Identity.Stable.{RoundTrips, load-Stored, load_again}
use swarm_p2p.Bootstrap.Cli.{Command, run, peer_id, MainError, Launch}
use swarm_p2p.Bootstrap.Process.{World, with_key, block_on, key_path, main}

none-ne-some : {A : Type 0} (x : A) → none ≡ some x → ⊥
none-ne-some x h = cc

some-injective : {A : Type 0} (x y : A) → some x ≡ some y → x ≡ y
some-injective x y h = cc

module _ (K : Keys) where
  block_on-identity :
      (w : World) (fs : Fs) (id : PeerId) (l : Result Launch MainError)
      → ((block_on K w fs id l).identity ≡ some id) × ((block_on K w fs id l).fs ≡ fs)
  block_on-identity w fs id (err e) = (refl, refl)
  block_on-identity w fs id (ok l) = elim (Bool-cases w.runtime_builds) [
    | inl builds ↦ rw builds (refl, refl)
    | inr fails ↦ rw fails (refl, refl)
  ]

  with_key-identity :
      (w : World) (c : Command) (fs : Fs) (k : K.Keypair)
      → ((with_key K w c (fs, ok k)).identity ≡ some (K.to_peer_id k))
        × ((with_key K w c (fs, ok k)).fs ≡ fs)
  with_key-identity w (peer_id key_file) fs k = (refl, refl)
  with_key-identity w (run args) fs k = block_on-identity w fs (K.to_peer_id k) _

  -- The key pair behind a process's identity.
  loaded :
      (w : World) (c : Command) (r : Fs × Result K.Keypair KeyError) (id : PeerId)
      → (with_key K w c r).identity ≡ some id
      → (k : K.Keypair) × (r.1 ≡ ok k) × (K.to_peer_id k ≡ id) × ((with_key K w c r).fs ≡ r.0)
  loaded w c (fs, err e) id h = absurd (none-ne-some id h)
  loaded w c (fs, ok k) id h =
      let (own, files) = with_key-identity w c fs k in
      (k, refl, some-injective _ _ (sym own ∙ h), files)

  -- Two processes of one key file, one after the other, the file being readable and the encoding of
  -- key pairs one that can be decoded: if the first came to an identity, then so does the second,
  -- whatever the commands, and it is the same; and the second leaves all files as they are.
  pub main-same_identity :
      RoundTrips K
      → (w w' : World) (c c' : Command) (fs : Fs) (id : PeerId) → key_path w' c' ≡ key_path w c
      → fs.may_read (key_path w c) ≡ true
      → (main K w c fs).identity ≡ some id
      → let after = (main K w c fs).fs in
        ((main K w' c' after).identity ≡ some id) × ((main K w' c' after).fs ≡ after)
  unfolding main
  main-same_identity rt w w' c c' fs id same readable h =
      let path = key_path w c in
      let first = load_or_generate_keypair K path w.random fs in
      let (k, made, own, files) = loaded w c first id h in
      let again =
        load_again K path k w'.random fs first.0
          (load-Stored K rt path k w.random fs readable made) in
      let (own', files') = with_key-identity w' c' first.0 k in
      rw (same, files, again) (rw own at own', files')
