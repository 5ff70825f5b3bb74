-- ===== src/Bootstrap/Identity.antt =====
-- bootstrap/src/util/identity.rs: the key file. The key pairs and their encoding are libp2p's; what
-- the system answers to a read, a write or a change of mode is a part of the file system `Fs`.
pub mod Stable
use swarm_p2p.Prelude.{ℕ, String, Bool, true, false, ◌&&◌, Option, none, some, List, [], ◌∷◌}
use swarm_p2p.Prelude.{if◌then◌else◌}
use text.Mathlib.Text.{◌==◌}
use swarm_p2p.DataChannel.{PeerId}
use swarm_p2p.Error.{Result, ok, err}

-- A path by its components.
abbrev pub FilePath : Type 0
FilePath = List String

abbrev pub same_path : FilePath → FilePath → Bool
same_path [] [] = true
same_path (x ∷ xs) (y ∷ ys) = x == y && same_path xs ys
same_path _ _ = false

abbrev pub Bytes : Type 0
Bytes = List ℕ

-- `generate` draws a key pair from a source of randomness; an error is its text.
pub record Keys : Type 1 where
  pub Keypair : Type 0
  pub generate_ed25519 : ℕ → Keypair
  pub to_protobuf_encoding : Keypair → Result Bytes String
  pub from_protobuf_encoding : Bytes → Result Keypair String
  pub to_peer_id : Keypair → PeerId

pub record File : Type 0 where
  pub bytes : Bytes
  pub mode : ℕ

-- What a write comes to: all bytes, or an error that leaves the file with some, or as it was.
pub data WriteAnswer : Type 0 where
  written : WriteAnswer
  cut_short : Bytes → WriteAnswer
  refused : WriteAnswer

pub record Fs : Type 0 where
  pub file : FilePath → Option File
  pub may_read : FilePath → Bool
  pub write_answer : FilePath → WriteAnswer
  pub may_set_mode : FilePath → Bool
  pub new_mode : ℕ

pub data KeyError : Type 0 where
  io : KeyError
  decoding encoding : String → KeyError

abbrev pub put_file : FilePath → File → Fs → Fs
put_file path f fs = record fs { file = λ p. if same_path path p then some f else fs.file p }

-- 0o600.
abbrev pub owner_only : ℕ
owner_only = 384

module _ (K : Keys) where
  abbrev pub decoded : Result K.Keypair String → Result K.Keypair KeyError
  decoded (ok keypair) = ok keypair
  decoded (err e) = err (decoding e)

  abbrev pub read_key : FilePath → File → Fs → Result K.Keypair KeyError
  read_key path f fs =
      if fs.may_read path then decoded (K.from_protobuf_encoding f.bytes) else err io

  -- `set_permissions`, after the file has been written.
  abbrev pub protect : FilePath → Bytes → K.Keypair → Fs → Fs × Result K.Keypair KeyError
  protect path bytes keypair fs =
      if fs.may_set_mode path
      then (put_file path (record { bytes = bytes; mode = owner_only }) fs, ok keypair)
      else (put_file path (record { bytes = bytes; mode = fs.new_mode }) fs, err io)

  abbrev pub save_key :
      FilePath → K.Keypair → WriteAnswer → Result Bytes String → Fs → Fs × Result K.Keypair KeyError
  save_key path keypair answer (err e) fs = (fs, err (encoding e))
  save_key path keypair written (ok bytes) fs = protect path bytes keypair fs
  save_key path keypair (cut_short some_bytes) (ok bytes) fs =
      (put_file path (record { bytes = some_bytes; mode = fs.new_mode }) fs, err io)
  save_key path keypair refused (ok bytes) fs = (fs, err io)

  abbrev pub load_found : FilePath → ℕ → Option File → Fs → Fs × Result K.Keypair KeyError
  load_found path random (some f) fs = (fs, read_key path f fs)
  load_found path random none fs =
      let keypair = K.generate_ed25519 random in
      save_key path keypair (fs.write_answer path) (K.to_protobuf_encoding keypair) fs

  unfoldable pub load_or_generate_keypair : FilePath → ℕ → Fs → Fs × Result K.Keypair KeyError
  load_or_generate_keypair path random fs = load_found path random (fs.file path) fs
