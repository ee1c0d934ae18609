-- ===== src/Udp.antt =====
-- UdpLoopbackTransport of src/transport_udp.cpp: the table of its peers and what it tells its listener. The
-- sockets are parameters: a datagram comes with its source, and `sendto` answers.
pub mod Table
pub mod Session
pub mod Address
pub mod Lifecycle
use mdds.Base.{
  ℕ, zero, suc, ◌+◌, ◌*◌, ◌-◌, ◌^◌, ◌%◌, ◌/◌, Bool, true, false, not, ◌&&◌, ◌||◌, Option, none,
  some, List, [], ◌∷◌, ◌++◌, map, length, take, drop, bit_or, ltb, leb, ◌==◌, if◌then◌else◌,
}
use mdds.Wire.{u16, u32, put_u32, get_u32}
use mdds.Guid.{bytes_eq}
use mdds.Listener.{ListenerCall, peer_up, peer_down, on_bytes}
use mdds.OrderedMap.{find, put, has_id}

pub record TransportConfig : Type 0 where
  pub domain_id : ℕ
  pub udp_base_port : ℕ
  pub udp_port_count : ℕ
  pub udp_announce_ms : ℕ
  pub udp_max_payload : ℕ
  pub udp_cross_device : Bool

-- The peers stand with the time of their last presence, in nanoseconds of the steady clock.
pub record Udp : Type 0 where
  pub config : TransportConfig
  pub running : Bool
  pub port : ℕ
  pub peers : List (ℕ × ℕ)
  pub self_addrs : List ℕ
  pub broadcast_addrs : List ℕ

abbrev pub presence_size : ℕ
presence_size = 12

abbrev pub peer_timeout_factor : ℕ
peer_timeout_factor = 4

abbrev pub loopback_ip : ℕ
loopback_ip = 0x7F000001

-- `ip` is a uint32_t and `port` a uint16_t.
abbrev pub make_peer_key : ℕ → ℕ → ℕ
make_peer_key ip port = bit_or (ip * 2 ^ 16) port

-- The ports that are tried, from the first one on: the first that can be bound.
unfoldable pub bind_port : (ℕ → Bool) → ℕ → ℕ → ℕ → Option ℕ
bind_port free base i zero = none
bind_port free base i (suc n) =
    let rest = bind_port free base (suc i) n in
    if free (u16 (base + i)) then some (u16 (base + i)) else rest

abbrev pub ping : List ℕ
ping = 0 ∷ 80 ∷ 73 ∷ 78 ∷ 71 ∷ []

unfoldable pub presence : ℕ → List ℕ
presence domain_id = ping ++ (put_u32 domain_id ++ (0 ∷ 0 ∷ 0 ∷ []))

unfoldable pub is_presence : List ℕ → Bool
is_presence buf = length buf == presence_size && bytes_eq (take 5 buf) ping

abbrev pub is_known : Option ℕ → Bool
is_known none = false
is_known (some t) = true

unfoldable pub presence_received : Udp → ℕ → List ℕ → ℕ → Udp × List ListenerCall
presence_received u peer buf now =
    if not (get_u32 (drop 5 buf) == u.config.domain_id) then (u, []) else (
      record u { peers = put ltb peer now u.peers },
      if is_known (find ltb peer u.peers) then [] else peer_up peer ∷ [],
    )

-- A datagram that is not our own.
unfoldable pub datagram : Udp → ℕ → List ℕ → ℕ → Udp × List ListenerCall
datagram u peer buf now =
    if is_presence buf
    then presence_received u peer buf now
    else (u, if is_known (find ltb peer u.peers) then on_bytes peer buf ∷ [] else [])

-- One round of `recv_loop`, for what `recvfrom` gave; an empty datagram is passed over as an error is.
unfoldable pub receive : Udp → ℕ → ℕ → List ℕ → ℕ → Udp × List ListenerCall
receive u from_ip from_port [] now = (u, [])
receive u from_ip from_port (x ∷ buf) now =
    let same_host = has_id from_ip u.self_addrs in
    if from_port == u.port && same_host
    then (u, [])
    else datagram u (make_peer_key (if same_host then loopback_ip else from_ip) from_port) (x ∷ buf)
        now

-- The peers that are kept, and those that are dead.
unfoldable pub sweep_table : ℕ → ℕ → List (ℕ × ℕ) → List (ℕ × ℕ) × List ℕ
sweep_table timeout now [] = ([], [])
sweep_table timeout now ((p, seen_at) ∷ rest) =
    let (kept, dead) = sweep_table timeout now rest in
    if ltb timeout (now - seen_at) then (kept, p ∷ dead) else ((p, seen_at) ∷ kept, dead)

-- A product of uint32_t, in milliseconds.
abbrev pub peer_timeout : TransportConfig → ℕ
peer_timeout c = u32 (c.udp_announce_ms * peer_timeout_factor) * 1_000_000

unfoldable pub sweep_peers : Udp → ℕ → Udp × List ListenerCall
sweep_peers u now =
    let (kept, dead) = sweep_table (peer_timeout u.config) now u.peers in
    (record u { peers = kept }, map (λ p. peer_down p) dead)

-- `rc` is what `sendto` returns for an address, a port and the bytes; `none` is its error.
unfoldable pub send : (ℕ → ℕ → List ℕ → Option ℕ) → Udp → ℕ → List ℕ → Bool
send sendto u peer bytes =
    if not u.running || ltb u.config.udp_max_payload (length bytes)
    then false
    else if not (is_known (find ltb peer u.peers))
    then false
    else (elim (sendto (u32 (peer / 2 ^ 16)) (peer % 2 ^ 16) bytes) [
      | none ↦ false
      | some rc ↦ rc == length bytes
    ])

-- Where a round of `announce_loop` sends the presence, over the ports from `i` on.
unfoldable pub port_range : TransportConfig → ℕ → ℕ → List ℕ
port_range c i zero = []
port_range c i (suc n) = u16 (c.udp_base_port + i) ∷ port_range c (suc i) n

unfoldable pub without_port : ℕ → List ℕ → List ℕ
without_port port [] = []
without_port port (q ∷ qs) = if q == port then without_port port qs else q ∷ without_port port qs

unfoldable pub broadcast_targets : List ℕ → List ℕ → List (ℕ × ℕ)
broadcast_targets [] ports = []
broadcast_targets (ip ∷ ips) ports = map (λ q. (ip, q)) ports ++ broadcast_targets ips ports

unfoldable pub presence_targets : Udp → List (ℕ × ℕ)
presence_targets u =
    let ports = port_range u.config 0 u.config.udp_port_count in
    map (λ q. (loopback_ip, q)) (without_port u.port ports)
    ++ (if u.config.udp_cross_device then broadcast_targets u.broadcast_addrs ports else [])
