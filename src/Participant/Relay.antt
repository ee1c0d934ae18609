-- ===== src/Participant/Relay.antt =====
-- How the participant of src/participant.cpp is told of the peers of a transport: ListenerRelay and
-- start_transport. The transport is a parameter: whether it starts, and what it tells the listener.
use mdds.Base.{ℕ, Bool, List, [], ◌∷◌, ◌++◌, length, map, if◌then◌else◌}
use mdds.PeerId.{make_peer_id}
use mdds.Listener.{ListenerCall, peer_up, peer_down, on_bytes}
use mdds.Participant.{Participant, Link, Transport, Output}
use mdds.Participant.Send.{handle_peer_up}
use mdds.Participant.Receive.{Readings, handle_bytes, handle_peer_down}

-- A call of the listener of the transport with an index, with what the clocks read in it.
unfoldable pub relay : Participant → Link → ℕ → ListenerCall → Readings → Participant × List Output
relay p link index (peer_up q) t = handle_peer_up p link (make_peer_id index q)
relay p link index (peer_down q) t = handle_peer_down p (make_peer_id index q)
relay p link index (on_bytes q bytes) t = handle_bytes p link (make_peer_id index q) bytes t

-- One call after the other.
unfoldable pub relay_all :
    Participant → Link → ℕ → List (ListenerCall × Readings) → Participant × List Output
relay_all p link index [] = (p, [])
relay_all p link index ((c, t) ∷ calls) =
    let (p', out) = relay p link index c t in
    let (p'', outs) = relay_all p' link index calls in (p'', out ++ outs)

abbrev pub the_calls : List (ListenerCall × Readings) → List ListenerCall
the_calls calls = map (λ ct. ct.0) calls

-- `starts` is whether the transport starts, and `calls` what it tells its listener before `start` is back.
unfoldable pub start_transport :
    Participant
    → Link
    → Transport
    → Bool
    → List (ListenerCall × Readings)
    → Participant × Link × List Output
start_transport p link t starts calls =
    let (p', out) = relay_all p link (length link.transports) calls in
    (p', if starts then record link { transports = link.transports ++ (t ∷ []) } else link, out)
