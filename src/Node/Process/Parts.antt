-- ===== src/Node/Process/Parts.antt =====
-- What the parts of a node hold, for core/src/data_channel.rs: the futures that open a channel, the
-- channels in the consumer's queue and those of the user. The moves that shift a part from one place
-- to another keep all that is held, in some order.
use swarm_p2p.Prelude.{
  ℕ, ◌+◌, ◌≡◌, ap, Bool, ready, some, List, [], ◌∷◌, ◌++◌, arith, tally, tally-append, take_at,
  flat_map, tally-flat_map-append, tally-flat_map-take_at, Same,
}
use swarm_p2p.DataChannel.{DataChannel}
use swarm_p2p.DataChannel.Open.{OpenState}
use swarm_p2p.Handle.{Channel, recv, try_send}
use swarm_p2p.Swarm.{Types}
use swarm_p2p.Node.Process.{Process}

-- What one `recv` takes was first in the queue.
recv-queue :
    (c rx : Channel DataChannel) (channel : DataChannel)
    → recv 1 c ≡ (ready (some channel), rx)
    → c.queue ≡ channel ∷ rx.queue
unfolding recv
recv-queue c rx channel e = ground arith

try_send-queue :
    (channel : DataChannel) (c tx : Channel DataChannel)
    → try_send channel c ≡ some tx
    → tx.queue ≡ c.queue ++ channel ∷ []
try_send-queue channel c tx e = ground arith

module _ {ℓ} {B : Type ℓ} (b : DataChannel → List B) where
  pub one_first :
      (c : DataChannel) (cs : List DataChannel) (others : List B)
      → Same (flat_map b (c ∷ cs) ++ others) (b c ++ (flat_map b cs ++ others))
  one_first c cs others f = omega (
    arith,
    tally-append f (b c ++ flat_map b cs) others,
    tally-append f (b c) (flat_map b cs),
    tally-append f (b c) (flat_map b cs ++ others),
    tally-append f (flat_map b cs) others,
  )

module _ {ℓ} {B : Type ℓ} (a : OpenState → List B) (b : DataChannel → List B) where
  abbrev pub parts : List OpenState → List DataChannel → List DataChannel → List B
  parts futures queue channels = flat_map a futures ++ (flat_map b queue ++ flat_map b channels)

  abbrev pub all_parts : {T : Types} {C : Type 0} → Process T C → List B
  all_parts s = parts s.futures s.loop.inbound_dc_tx.queue s.channels

  tally-parts :
      (f : B → Bool) (futures : List OpenState) (queue channels : List DataChannel)
      → tally f (parts futures queue channels)
        ≡ tally f (flat_map a futures) + tally f (flat_map b queue) + tally f (flat_map b channels)
  tally-parts f futures queue channels = omega (
    arith,
    tally-append f (flat_map a futures) (flat_map b queue ++ flat_map b channels),
    tally-append f (flat_map b queue) (flat_map b channels),
  )

  module _ (futures : List OpenState) (queue channels : List DataChannel) where
    pub queue_first :
        Same (parts futures queue channels) (flat_map b queue ++ parts futures [] channels)
    queue_first f = omega (
      arith,
      tally-parts f futures queue channels,
      tally-append f (flat_map b queue) (parts futures [] channels),
      tally-append f (flat_map a futures) (flat_map b channels),
    )

    pub future_first :
        (i : ℕ) (st : OpenState) (others : List OpenState)
        → take_at i futures ≡ some (st, others)
        → Same (parts futures queue channels) (a st ++ parts others queue channels)
    future_first i st others e f = omega (
      arith,
      tally-flat_map-take_at a f i futures st others e,
      tally-append f (a st) (parts others queue channels),
      tally-parts f futures queue channels,
      tally-parts f others queue channels,
    )

    pub channel_first :
        (i : ℕ) (c : DataChannel) (others : List DataChannel)
        → take_at i channels ≡ some (c, others)
        → Same (parts futures queue channels) (b c ++ parts futures queue others)
    channel_first i c others e f = omega (
      arith,
      tally-flat_map-take_at b f i channels c others e,
      tally-append f (b c) (parts futures queue others),
      tally-parts f futures queue channels,
      tally-parts f futures queue others,
    )

    -- A future that was polled, what it `gave` in its channel, and the rest.
    pub polled_parts :
        (st : OpenState) (out : List DataChannel) (gave : List B)
        → Same (flat_map b out) gave
        → Same
            (a st ++ (gave ++ parts futures queue channels))
            (parts (st ∷ futures) queue (out ++ channels))
    polled_parts st out gave same f = omega (
      arith,
      same f,
      tally-append f (a st) (gave ++ parts futures queue channels),
      tally-append f gave (parts futures queue channels),
      tally-parts f futures queue channels,
      tally-parts f (st ∷ futures) queue (out ++ channels),
      tally-append f (a st) (flat_map a futures),
      tally-flat_map-append b f out channels,
    )

  module _ (futures : List OpenState) (channels : List DataChannel) (c : Channel DataChannel) where
    pub received_parts :
        (channel : DataChannel) (rx : Channel DataChannel)
        → recv 1 c ≡ (ready (some channel), rx)
        → Same (parts futures c.queue channels) (parts futures rx.queue (channel ∷ channels))
    received_parts channel rx e f = omega (
      arith,
      ap (λ q. tally f (flat_map b q)) (recv-queue c rx channel e),
      tally-append f (b channel) (flat_map b rx.queue),
      tally-append f (b channel) (flat_map b channels),
      tally-parts f futures c.queue channels,
      tally-parts f futures rx.queue (channel ∷ channels),
    )

    pub queued_parts :
        (channel : DataChannel) (tx : Channel DataChannel)
        → try_send channel c ≡ some tx
        → Same (b channel ++ parts futures c.queue channels) (parts futures tx.queue channels)
    queued_parts channel tx e f = omega (
      arith,
      ap (λ q. tally f (flat_map b q)) (try_send-queue channel c tx e),
      tally-flat_map-append b f c.queue (channel ∷ []),
      tally-append f (b channel) [],
      tally-append f (b channel) (parts futures c.queue channels),
      tally-parts f futures c.queue channels,
      tally-parts f futures tx.queue channels,
    )
