-- ===== src/Udp/Address.antt =====
-- The addresses of src/transport_udp.cpp as peer ids, and the presence datagram.
use mdds.Base.{
  ltb, drop, ◌≢◌, ==→eq, ℕ, ◌+◌, ◌*◌, ◌/◌, ◌%◌, ◌^◌, ◌<◌, ◌≡◌, refl, true, false, ◌&&◌, some, [],
  ◌∷◌, ◌==◌, Bool-cases, inl, inr, arith,
}
use mdds.Base.Bits.{bit_or_fields}
use mdds.Guid.{bytes_eq}
use mdds.Wire.{u32, IsU16, IsU32, put_u32, get_u32}
use mdds.Wire.Words.{get_u32-put_u32}
use mdds.PeerId.{make_peer_id, peer_backend_id, peer_transport_index, peer_id_parts}
use mdds.OrderedMap.{find, has_id}
use mdds.OrderedMap.Laws.{ltb-IsOrder, find-put_self}
use mdds.Udp.{Udp, make_peer_key, presence, is_presence, presence_received, datagram, receive}

make_peer_key_sum : (ip port : ℕ) → IsU16 port → make_peer_key ip port ≡ ip * 2 ^ 16 + port
make_peer_key_sum ip port h = bit_or_fields 16 ip port h

-- The address of a UDP peer comes back from the id that the participant gives it: the index of the
-- transport, and the IPv4 address and the port that `send` puts into the datagram.
pub peer_address :
    (t ip port : ℕ)
    → t < 2 ^ 8
    → IsU32 ip
    → IsU16 port
    → let peer = make_peer_id t (make_peer_key ip port) in
      (peer_transport_index peer ≡ t)
      × (u32 (peer_backend_id peer / 2 ^ 16) ≡ ip)
      × (peer_backend_id peer % 2 ^ 16 ≡ port)
peer_address t ip port ht hi hp =
    let (index, id) = peer_id_parts t (make_peer_key ip port) ht in
    let key = make_peer_key_sum ip port hp in
    (index, omega (arith, id, key), omega (arith, id, key))

is_presence-presence : (domain_id : ℕ) → is_presence (presence domain_id) ≡ true
unfolding is_presence presence put_u32 bytes_eq
is_presence-presence domain_id = refl

domain_of_presence :
    (domain_id : ℕ) → IsU32 domain_id → get_u32 (drop 5 (presence domain_id)) ≡ domain_id
unfolding presence
domain_of_presence domain_id h = get_u32-put_u32 domain_id (0 ∷ 0 ∷ 0 ∷ []) h

receive-datagram :
    (u : Udp) (ip port domain_id now : ℕ)
    → has_id ip u.self_addrs ≡ false
    → receive u ip port (presence domain_id) now
      ≡ presence_received u (make_peer_key ip port) (presence domain_id) now
unfolding receive presence datagram
receive-datagram u ip port domain_id now other =
    let not_own : (port == u.port && false) ≡ false = ground arith in
    rw other (rw not_own (rw (is_presence-presence domain_id) refl))

-- The presence of another host in our domain makes it a peer, seen at the time of the datagram; that of another
-- domain changes nothing. The domain is a uint32_t.
pub receive-presence :
    (u : Udp) (ip port domain_id now : ℕ)
    → IsU32 domain_id
    → has_id ip u.self_addrs ≡ false
    → let after = (receive u ip port (presence domain_id) now).0 in
      (domain_id ≡ u.config.domain_id → find ltb (make_peer_key ip port) after.peers ≡ some now)
      × (domain_id ≢ u.config.domain_id → after ≡ u)
unfolding presence_received
receive-presence u ip port domain_id now hd other =
    rw (receive-datagram u ip port domain_id now other, domain_of_presence domain_id hd)
      (elim (Bool-cases (domain_id == u.config.domain_id)) [
        | inl t ↦ rw t (
          λ same. find-put_self ltb ltb-IsOrder (make_peer_key ip port) now u.peers,
          λ ne. absurd (ne (==→eq domain_id u.config.domain_id t)),
        )
        | inr t ↦ rw t (λ same. absurd (ground arith), λ ne. refl)
      ])
