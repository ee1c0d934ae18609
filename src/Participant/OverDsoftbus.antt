-- ===== src/Participant/OverDsoftbus.antt =====
-- The participant of src/participant.cpp over the transport of src/transport_dsoftbus.cpp.
use mdds.Base.{ℕ, ◌+◌, ◌^◌, ◌<◌, ◌≡◌, ap, ◌∙◌, List, All}
use mdds.PeerId.{make_peer_id}
use mdds.OrderedMap.{has_id}
use mdds.Listener.{ListenerCall, follow}
use mdds.Dsoftbus.{Dsoftbus}
use mdds.Dsoftbus.Channels.{IsDsoftbus, is_up}
use mdds.Dsoftbus.Session.{told, Agrees}
use mdds.Dsoftbus.Inputs.{Input, inputs, all_ids_taken, AllFreshBinds}
use mdds.Dsoftbus.Run.{Session-inputs}
use mdds.Participant.{Participant, Link}
use mdds.Participant.Receive.{Readings}
use mdds.Participant.Relay.{relay_all, the_calls}
use mdds.Participant.Following.{Moves, IsShort, relay_all-Moves}

-- Whatever happens to the transport, once its calls are relayed the participant has as peers of it exactly
-- those whose channel is up. At the start the two agree; fewer than 2 ^ 64 ids are given out, and those that
-- the listener is told fit in 56 bits; the client library binds no descriptor to one peer while it is another's
-- channel.
pub peers-inputs :
    (p : Participant) (link : Link) (index : ℕ) (up : List ℕ) (d : Dsoftbus) (xs : List Input)
    (calls : List (ListenerCall × Readings)) (q : ℕ)
    → index < 2 ^ 8
    → Moves index up p p
    → IsDsoftbus d
    → Agrees up d.peers
    → d.next_peer_id + all_ids_taken xs < 2 ^ 64
    → AllFreshBinds d xs
    → the_calls calls ≡ told (inputs d xs).1
    → All IsShort (the_calls calls)
    → q < 2 ^ 56
    → has_id (make_peer_id index q) (relay_all p link index calls).0.peers
      ≡ is_up q (inputs d xs).0.peers
peers-inputs p link index up d xs calls q small m v a room free same short fits =
    let (_, up', session, a') = Session-inputs up d xs v a room free in
    let moved =
      relay_all-Moves index small link p up up' calls m short (ap (follow up) same ∙ session) in
    moved.agrees q fits ∙ a'.agrees q
