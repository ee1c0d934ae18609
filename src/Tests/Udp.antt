-- ===== src/Tests/Udp.antt =====
-- src/transport_udp.cpp: a transport that hears of two peers and loses one.
use mdds.Base.{◌+◌, ◌*◌, ℕ, ◌≡◌, refl, Bool, true, false, not, ◌==◌, some, List, [], ◌∷◌, inl, inr}
use mdds.Udp.{TransportConfig, Udp, presence, receive, bind_port}
use mdds.Udp.Table.{keys}
use mdds.Listener.{follow}
use mdds.Udp.Lifecycle.{Interface, start, receive-start}
use mdds.Udp.Session.{Input, arrives, sweep_at, inputs, follow-inputs}

abbrev config : TransportConfig
config = record {
  domain_id = 4;
  udp_base_port = 47811;
  udp_port_count = 32;
  udp_announce_ms = 500;
  udp_max_payload = 60000;
  udp_cross_device = true;
}

-- Port 900 of the same host is known.
abbrev bound : Udp
bound = record {
  config = config;
  running = true;
  port = 47811;
  peers = (0x7F000001 * 65536 + 900, 0) ∷ [];
  self_addrs = 0x7F000001 ∷ [];
  broadcast_addrs = [];
}

abbrev traffic : List Input
traffic =
    arrives 0x0A000002 47812 (presence 4) 1_000_000_000
    ∷ arrives 0x0A000002 47812 (77 ∷ 68 ∷ []) 1_000_000_001
    ∷ sweep_at 2_500_000_000
    ∷ []

follow-inputs_example :
    follow (keys bound.peers) (inputs bound traffic).1 ≡ some (keys (inputs bound traffic).0.peers)
follow-inputs_example = follow-inputs bound traffic (tt, tt)

abbrev lan : Interface
lan = record {
  ipv4 = some 0x0A000001;
  is_up = true;
  broadcasts = true;
  is_loopback = false;
  broadcast = some 0x0A0000FF;
}

abbrev stopped : Udp
stopped = record bound { running = false; port = 0; peers = []; self_addrs = [] }

-- The first port is taken.
abbrev not_first : ℕ → Bool
not_first q = not (q == 47811)

receive-start_example :
    receive
      (start stopped config true not_first (lan ∷ [])).0
      0x0A000001
      (start stopped config true not_first (lan ∷ [])).0.port
      (1 ∷ 2 ∷ [])
      5
    ≡ ((start stopped config true not_first (lan ∷ [])).0, [])
receive-start_example =
    receive-start stopped config true not_first (lan ∷ []) 0x0A000001 (1 ∷ 2 ∷ []) 5
      (unfold start bind_port in refl) (inr (refl, inl refl))
