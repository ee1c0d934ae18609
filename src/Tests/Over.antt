-- ===== src/Tests/Over.antt =====
-- src/participant.cpp over a transport: what its listener is told becomes the peers of the participant.
use mdds.Base.{◌≡◌, refl, true, false, [], ◌∷◌, replicate, arith}
use mdds.PeerId.{make_peer_id}
use mdds.OrderedMap.{has_id, insert_id, erase_id, find, put}
use mdds.Listener.{peer_up, peer_down, on_bytes, follow}
use mdds.Participant.{Participant, Link, Transport}
use mdds.Participant.Receive.{Readings}
use mdds.Participant.Relay.{relay_all}
use mdds.Participant.Following.{Moves, relay_all-Moves}
use mdds.Participant.OverDsoftbus.{peers-inputs}
use mdds.SendLane.{push, next_frame, next_of, sent}
use mdds.Dsoftbus.{
  on_bytes_received, first_with, on_shutdown, lost_peer, online, know_peer, begin_bind, on_bind,
  bound,
}
use mdds.Dsoftbus.Traffic.{send, push_to, lane_round, work, sink, deliver, is_live}
use mdds.Dsoftbus.Channels.{is_up}
use mdds.Dsoftbus.Session.{told}
use mdds.Dsoftbus.Inputs.{input, inputs}
use mdds.Guid.{bytes_lt}
use mdds.OrderedMap.Sorted.{any_value}
use mdds.Tests.Dsoftbus.{started, traffic, started-IsDsoftbus}

abbrev alone : Participant
alone = record {
  prefix = replicate 12 1;
  guid = record { bytes = replicate 16 1 };
  entity_serial = 0;
  writers = [];
  readers = [];
  nodes = [];
  peers = [];
  remote = [];
  writer_last_seen = [];
  reassemblers = [];
  announce_seq = 0;
}

abbrev takes_all : Transport
takes_all = record { send = λ peer bytes. true; max_payload = λ peer. 3800 }

abbrev one_transport : Link
one_transport = record { hook = λ bytes. false; transports = takes_all ∷ [] }

abbrev at_two : Readings
at_two = record {
  steady_ms = 2;
  gathered_at = 2;
  stored_at = 2;
  replay_at = 2;
  enqueue = λ h. (2, 2);
}

alone-Moves : Moves 0 [] alone alone
alone-Moves = record {
  reachable = record { ascending = tt; remote_up = tt; reassembling_up = tt; sorted = tt };
  ascending = tt;
  agrees = λ q h. unfold has_id in refl;
  others = λ s q h ne. refl;
}

relay_all-Moves_example :
    Moves 0
      (9 ∷ [])
      alone
      (relay_all alone one_transport 0 (
        (peer_up 4, at_two)
        ∷ (on_bytes 4 (1 ∷ 2 ∷ []), at_two)
        ∷ (peer_up 9, at_two)
        ∷ (peer_down 4, at_two)
        ∷ [])).0
relay_all-Moves_example =
    relay_all-Moves 0 (omega arith) one_transport alone [] (9 ∷ [])
      ((peer_up 4, at_two)
        ∷ (on_bytes 4 (1 ∷ 2 ∷ []), at_two)
        ∷ (peer_up 9, at_two)
        ∷ (peer_down 4, at_two)
        ∷ [])
      alone-Moves (omega arith, (omega arith, (omega arith, (omega arith, tt))))
      (unfold follow has_id insert_id erase_id in refl)

peers-inputs_example :
    has_id
      (make_peer_id 0 1)
      (relay_all alone one_transport 0 (
        (peer_up 1, at_two)
        ∷ (on_bytes 1 (1 ∷ 2 ∷ []), at_two)
        ∷ (peer_down 1, at_two)
        ∷ [])).0.peers
    ≡ is_up 1 (inputs started traffic).0.peers
unfolding input online know_peer find put bytes_lt begin_bind on_bind bound
peers-inputs_example =
    peers-inputs alone one_transport 0 [] started traffic
      ((peer_up 1, at_two) ∷ (on_bytes 1 (1 ∷ 2 ∷ []), at_two) ∷ (peer_down 1, at_two) ∷ []) 1
      (omega arith) alone-Moves started-IsDsoftbus
      (record { ascending = tt; agrees = λ q. unfold has_id is_up any_value in refl }) (omega arith)
      (tt, (tt, (((λ ne. tt), tt), (tt, (tt, (tt, (tt, tt)))))))
      (unfold inputs told on_bytes_received first_with send push_to push lane_round work next_frame
          next_of sink deliver is_live sent on_shutdown lost_peer in
        refl)
      (omega arith, (omega arith, (omega arith, tt))) (omega arith)
