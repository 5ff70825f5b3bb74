-- ===== src/Bootstrap/Identity/Stable.antt =====
-- The key file of bootstrap/src/util/identity.rs keeps the node's identity.
use swarm_p2p.Prelude.{
  ℕ, ◌≡◌, refl, ap, ◌∙◌, ◌⊎◌, inl, inr, true, Bool-cases, some, Option-cases, [], ◌∷◌, String,
}
use text.Mathlib.TextPositions.{eq_refl}
use swarm_p2p.Error.{Result, ok, err}
use swarm_p2p.Bootstrap.Identity.{
  FilePath, same_path, Bytes, Keys, File, Fs, WriteAnswer, written, cut_short, refused, KeyError,
  io, owner_only, decoded, read_key, save_key, load_or_generate_keypair,
}

pub same_path_self : (path : FilePath) → same_path path path ≡ true
same_path_self [] = refl
same_path_self (x ∷ xs) = rw (eq_refl x) (same_path_self xs)

module _ (K : Keys) where
  -- What is encoded can be decoded.
  abbrev pub RoundTrips : Type 0
  RoundTrips =
      (k : K.Keypair) (bytes : Bytes)
      → K.to_protobuf_encoding k ≡ ok bytes
      → K.from_protobuf_encoding bytes ≡ ok k

  -- The file holds the key pair: it was there before, or it is new and its owner's only.
  abbrev pub Stored : FilePath → K.Keypair → Fs → Fs → Type 0
  Stored path k fs fs' =
      (f : File) × (fs'.file path ≡ some f)
      × (K.from_protobuf_encoding f.bytes ≡ ok k)
      × (fs'.may_read path ≡ true)
      × ((fs' ≡ fs) ⊎ (f.mode ≡ owner_only))

  decoded-ok : (r : Result K.Keypair String) (k : K.Keypair) → decoded K r ≡ ok k → r ≡ ok k
  decoded-ok (ok k') k e = cc
  decoded-ok (err x) k e = cc

  err-ne-ok : (e : KeyError) (k : K.Keypair) → err e ≡ ok k → ⊥
  err-ne-ok e k h = cc

  ok-injective : (k k' : K.Keypair) → ◌≡◌ {A = Result K.Keypair KeyError} (ok k) (ok k') → k ≡ k'
  ok-injective k k' h = cc

  module _ (rt : RoundTrips) (path : FilePath) (k : K.Keypair) where
    found-Stored :
        (f : File) (fs : Fs)
        → fs.file path ≡ some f
        → fs.may_read path ≡ true
        → read_key K path f fs ≡ ok k
        → Stored path k fs fs
    found-Stored f fs found readable e = (
      f,
      found,
      decoded-ok (K.from_protobuf_encoding f.bytes) k (rw readable at e),
      readable,
      inl refl,
    )

    saved-Stored :
        (made : K.Keypair) (answer : WriteAnswer) (encoded : Result Bytes String) (fs : Fs)
        → K.to_protobuf_encoding made ≡ encoded
        → fs.may_read path ≡ true
        → (save_key K path made answer encoded fs).1 ≡ ok k
        → Stored path k fs (save_key K path made answer encoded fs).0
    saved-Stored made answer (err x) fs e readable h = cc
    saved-Stored made refused (ok bytes) fs e readable h = cc
    saved-Stored made (cut_short some_bytes) (ok bytes) fs e readable h = cc
    saved-Stored made written (ok bytes) fs e readable h =
        elim (Bool-cases (fs.may_set_mode path)) [
          | inr no_mode ↦ absurd (err-ne-ok io k (rw no_mode at h))
          | inl mode ↦
              let own = ok-injective made k (rw mode at h) in
              rw mode (
                record { bytes = bytes; mode = owner_only },
                rw (same_path_self path) refl,
                rt made bytes e ∙ ap (λ x. ok x) own,
                readable,
                inr refl,
              )
        ]

    -- Whatever the system answers, a key pair that is returned is in the file afterwards.
    pub load-Stored :
        (random : ℕ) (fs : Fs)
        → fs.may_read path ≡ true
        → (load_or_generate_keypair K path random fs).1 ≡ ok k
        → Stored path k fs (load_or_generate_keypair K path random fs).0
    unfolding load_or_generate_keypair
    load-Stored random fs readable h = elim (Option-cases (fs.file path)) [
      | inr (f, found) ↦ rw found (found-Stored f fs found readable (rw found at h))
      | inl new ↦
          let made = K.generate_ed25519 random in
          rw new (
            saved-Stored made (fs.write_answer path) (K.to_protobuf_encoding made) fs refl readable
              (rw new at h))
    ]

  -- A stored key pair is the one that is loaded, and loading it changes nothing.
  pub load_again :
      (path : FilePath) (k : K.Keypair) (random : ℕ) (before fs : Fs)
      → Stored path k before fs
      → load_or_generate_keypair K path random fs ≡ (fs, ok k)
  unfolding load_or_generate_keypair
  load_again path k random before fs (f, found, decodes, readable, kept) =
      rw (found, readable, decodes) refl
