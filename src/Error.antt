-- ===== src/Error.antt =====
-- core/src/error.rs. The payloads of third-party errors are the texts that the code keeps of them.
use swarm_p2p.Prelude.{String, ◌≡◌, refl, ◌⊎◌, inl, inr}
use swarm_p2p.DataChannel.{DataChannelCloseReason}

pub data NetworkFailureKind : Type 0 where
  timeout dial_failure unsupported_protocol connection_closed : NetworkFailureKind
  cancelled codec_error resource_limit_exceeded unknown : NetworkFailureKind

pub data Error : Type 0 where
  anyhow transport noise io dial listen kad request_response behaviour : String → Error
  network : NetworkFailureKind → Error
  data_channel : DataChannelCloseReason → Error

-- `std::result::Result`.
pub data Result {ℓ κ} (A : Type ℓ) (E : Type κ) : Type (ℓ ⊔ κ) where
  ok : A → Result A E
  err : E → Result A E

pub Result-cases {ℓ κ} :
    {A : Type ℓ} {E : Type κ} (r : Result A E) → ((a : A) × (r ≡ ok a)) ⊎ ((e : E) × (r ≡ err e))
Result-cases (ok a) = inl (a, refl)
Result-cases (err e) = inr (e, refl)

pub ok_injective {ℓ κ} :
    {A : Type ℓ} {E : Type κ} {a b : A} → ◌≡◌ {A = Result A E} (ok a) (ok b) → a ≡ b
ok_injective e = cc

-- `Display`.
unfoldable pub display_failure : NetworkFailureKind → String
display_failure timeout = "timeout"
display_failure dial_failure = "dial failure"
display_failure unsupported_protocol = "unsupported protocol"
display_failure connection_closed = "connection closed"
display_failure cancelled = "cancelled"
display_failure codec_error = "codec error"
display_failure resource_limit_exceeded = "resource limit exceeded"
display_failure unknown = "unknown"
