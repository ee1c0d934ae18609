-- ===== src/Tests/Dsoftbus.antt =====
-- src/transport_dsoftbus.cpp: a transport with one peer, whose channel opens and is lost.
use mdds.Base.{ℕ, ◌≡◌, refl, true, false, none, some, List, [], ◌∷◌, arith, ◌||◌}
use mdds.Guid.{bytes_lt}
use mdds.OrderedMap.{find, put, has_id}
use mdds.OrderedMap.Sorted.{any_value}
use mdds.SendLane.{push}
use mdds.Dsoftbus.{
  Dsoftbus, PeerState, PeerLane, new_dsoftbus, start, on_shutdown, send_bytes, is_fd,
  lane_byte_budget, first_with, global_byte_budget, know_peer, online, begin_bind, on_bind, bound,
}
use mdds.Dsoftbus.Traffic.{close, deliver, send, push_to}
use mdds.Dsoftbus.Channels.{IsDsoftbus, is_up}
use mdds.Dsoftbus.Session.{Session}
use mdds.Dsoftbus.Inputs.{
  Input, are_online, begins, binds, receives, sends, works, shuts, input, inputs,
}
use mdds.Dsoftbus.Run.{Session-inputs}
use mdds.Dsoftbus.Rounds.{lane_rounds}
use mdds.Dsoftbus.Sending.{send-lane_rounds, deliver-find}
use mdds.Dsoftbus.Stuck.{writes, shut_for_good}
use mdds.Dsoftbus.Ending.{deliver-on_shutdown, shuts_down-close, shuts_down, has_channel}

abbrev pub node : List ℕ
node = 7 ∷ 8 ∷ []

abbrev lane_of : List (List ℕ) → ℕ → PeerLane
lane_of q bytes = record {
  sink_peer = 1;
  sink_fd = 5;
  lane = record {
    byte_limit = lane_byte_budget;
    queue = q;
    bytes = bytes;
    stopping = false;
    drain = false;
    dropped = 0;
    failed = 0;
  };
}

abbrev waiting : PeerLane
waiting = lane_of ((4 ∷ 4 ∷ []) ∷ []) 2

abbrev there : PeerState
there = record {
  peer_id = 1;
  network_id = node;
  socket_fd = some 5;
  pending_fd = none;
  up_notified = true;
  lane = some waiting;
  max_payload = 4000;
}

-- Node 7, 8 has the channel 5.
abbrev open_channel : Dsoftbus
open_channel = record {
  running = true;
  attached = true;
  polling = true;
  listen_fd = some 3;
  peers = (node, there) ∷ [];
  next_peer_id = 2;
  budget = record { limit = global_byte_budget; used = 2 };
}

open_channel-IsDsoftbus : IsDsoftbus open_channel
open_channel-IsDsoftbus = record {
  sorted = (tt, tt);
  channels = (
    record {
      id_pos = omega arith;
      id_used = omega arith;
      up_open = refl;
      lane_fits = (refl, refl);
    },
    tt,
  );
  ids = (tt, tt);
  sockets = (tt, tt);
  next_pos = omega arith;
}

-- A transport that was just started, and what happens to it.
abbrev pub started : Dsoftbus
started = record new_dsoftbus {
  listen_fd = some 3;
  attached = true;
  running = true;
  polling = true;
}

starts : start new_dsoftbus false (some 3) true ≡ (started, true, [])
unfolding start
starts = refl

pub started-IsDsoftbus : IsDsoftbus started
started-IsDsoftbus = record {
  sorted = tt;
  channels = tt;
  ids = tt;
  sockets = tt;
  next_pos = omega arith;
}

abbrev pub traffic : List Input
traffic =
    are_online (node ∷ [])
    ∷ begins node (some 5)
    ∷ binds 5 node 4000
    ∷ receives 5 (1 ∷ 2 ∷ [])
    ∷ sends 1 (9 ∷ [])
    ∷ works node true
    ∷ shuts 5
    ∷ []

Session-inputs_example : Session [] (inputs started traffic)
unfolding input online know_peer find put bytes_lt begin_bind on_bind bound
Session-inputs_example =
    Session-inputs [] started traffic started-IsDsoftbus
      (record { ascending = tt; agrees = λ q. unfold has_id is_up any_value in refl }) (omega arith)
      (tt, (tt, (((λ ne. tt), tt), (tt, (tt, (tt, (tt, tt)))))))

send-lane_rounds_example :
    (lane_rounds (send open_channel 1 (9 ∷ [])).0 node (true ∷ false ∷ [])).1
    ≡ send_bytes 5 (4 ∷ 4 ∷ []) ∷ send_bytes 5 (9 ∷ []) ∷ []
send-lane_rounds_example =
    send-lane_rounds open_channel node there waiting 5 (9 ∷ []) (true ∷ false ∷ [])
      open_channel-IsDsoftbus refl (unfold find bytes_lt in refl) refl refl
      (omega arith, (omega arith, tt)) (unfold send first_with push_to push in refl) refl

deliver-find_example : deliver open_channel 2 5 (9 ∷ []) true ≡ (false, [])
deliver-find_example =
    deliver-find open_channel node there 5 2 (9 ∷ []) true open_channel-IsDsoftbus
      (unfold find bytes_lt in refl) refl

deliver-on_shutdown_example : deliver (on_shutdown open_channel 5).0 1 5 (9 ∷ []) true ≡ (false, [])
deliver-on_shutdown_example = deliver-on_shutdown open_channel 5 1 (9 ∷ []) true

shuts_down-close_example :
    (shuts_down 5 (close open_channel).1
      ≡ (has_channel 5 open_channel.peers || is_fd 5 open_channel.listen_fd))
    × ((close open_channel).0.peers ≡ [])
    × ((close open_channel).0.listen_fd ≡ none)
    × ((close open_channel).0.attached ≡ false)
    × (close (close open_channel).0 ≡ ((close open_channel).0, []))
shuts_down-close_example = shuts_down-close open_channel 5 refl

shut_for_good_example :
    let after =
      inputs
        (on_shutdown open_channel 3).0
        (works node true ∷ shuts 5 ∷ begins node (some 6) ∷ []) in
    (writes after.1 ≡ false)
    × (after.0.attached ≡ true)
    × (after.0.polling ≡ true)
    × (close after.0 ≡ (after.0, []))
    × ((start after.0 after.0.attached (some 9) true).1 ≡ false)
shut_for_good_example =
    shut_for_good open_channel 3 (works node true ∷ shuts 5 ∷ begins node (some 6) ∷ []) (some 9)
      true refl refl refl
