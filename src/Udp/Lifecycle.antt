-- ===== src/Udp/Lifecycle.antt =====
-- The start and the stop of src/transport_udp.cpp. What `getifaddrs` lists, whether there is a socket and
-- which ports are free are parameters.
use mdds.Base.{
  ℕ, ◌≡◌, ◌⊎◌, refl, ◌∙◌, Bool, true, false, not, ◌&&◌, Option, none, some, List, [], ◌∷◌, ◌==◌,
  if◌then◌else◌, inl, inr, Bool-cases, Option-cases, arith,
}
use mdds.OrderedMap.{has_id, insert_id}
use mdds.OrderedMap.Ids.{has_id-insert_id}
use mdds.Udp.{TransportConfig, Udp, bind_port, loopback_ip, receive}

-- An entry of `getifaddrs`; `ipv4` is none where it has no IPv4 address.
pub record Interface : Type 0 where
  pub ipv4 : Option ℕ
  pub is_up : Bool
  pub broadcasts : Bool
  pub is_loopback : Bool
  pub broadcast : Option ℕ

abbrev pub self_addr : Interface → Option ℕ
self_addr f = if f.is_up then f.ipv4 else none

abbrev pub insert_broadcast : Option ℕ → List ℕ → List ℕ
insert_broadcast none s = s
insert_broadcast (some b) s = if b == 0 then s else insert_id b s

unfoldable pub enumerate_interfaces : List ℕ → List ℕ → List Interface → List ℕ × List ℕ
enumerate_interfaces self bcast [] = (self, bcast)
enumerate_interfaces self bcast (f ∷ fs) = elim (self_addr f) [
  | none ↦ enumerate_interfaces self bcast fs
  | some ip ↦
      enumerate_interfaces (insert_id ip self)
        (if f.broadcasts && not f.is_loopback then insert_broadcast f.broadcast bcast else bcast) fs
]

abbrev pub with_interfaces : Udp → List Interface → Udp
with_interfaces u fs =
    let (self, bcast) = enumerate_interfaces u.self_addrs u.broadcast_addrs fs in
    record u { self_addrs = self; broadcast_addrs = bcast }

abbrev pub listening : Udp → List Interface → ℕ → Udp
listening u fs port =
    let u' = if u.config.udp_cross_device then with_interfaces u fs else u in
    record u' { self_addrs = insert_id loopback_ip u'.self_addrs; port = port; running = true }

-- `socket` is whether there is one, and `free` which ports can be bound.
unfoldable pub start : Udp → TransportConfig → Bool → (ℕ → Bool) → List Interface → Udp × Bool
start u config socket free fs =
    let u' = record u { config = config } in
    if u.running
    then (u, false)
    else if not socket
    then (u', false)
    else (elim (bind_port free config.udp_base_port 0 config.udp_port_count) [
      | none ↦ (u', false)
      | some port ↦ (listening u' fs port, true)
    ])

unfoldable pub stop : Udp → Udp
stop u = if not u.running then u else record u { running = false; peers = [] }

enumerate-keeps :
    (q : ℕ) (self bcast : List ℕ) (fs : List Interface)
    → has_id q self ≡ true
    → has_id q (enumerate_interfaces self bcast fs).0 ≡ true
unfolding enumerate_interfaces
enumerate-keeps q self bcast [] h = h
enumerate-keeps q self bcast (f ∷ fs) h = elim (Option-cases (self_addr f)) [
  | inl e ↦ rw (e, enumerate_interfaces) (enumerate-keeps q self bcast fs h)
  | inr (ip, e) ↦
      let more = has_id-insert_id q ip self in
      rw (e, enumerate_interfaces)
        (enumerate-keeps q (insert_id ip self) _ fs (ground (arith, more, h)))
]

-- The address of one of the interfaces that are up.
abbrev pub IsOwn : ℕ → List Interface → Type 0
IsOwn q [] = ⊥
IsOwn q (f ∷ fs) = (self_addr f ≡ some q) ⊎ IsOwn q fs

enumerate-finds :
    (q : ℕ) (self bcast : List ℕ) (fs : List Interface)
    → IsOwn q fs
    → has_id q (enumerate_interfaces self bcast fs).0 ≡ true
unfolding enumerate_interfaces
enumerate-finds q self bcast [] h = absurd h
enumerate-finds q self bcast (f ∷ fs) (inl h) =
    let new = has_id-insert_id q q self in
    rw (h, enumerate_interfaces) (enumerate-keeps q (insert_id q self) _ fs (ground (arith, new)))
enumerate-finds q self bcast (f ∷ fs) (inr h) = elim (Option-cases (self_addr f)) [
  | inl e ↦ rw (e, enumerate_interfaces) (enumerate-finds q self bcast fs h)
  | inr (ip, e) ↦ rw (e, enumerate_interfaces) (enumerate-finds q (insert_id ip self) _ fs h)
]

abbrev pub IsOurs : ℕ → TransportConfig → List Interface → Type 0
IsOurs ip config fs = (ip ≡ loopback_ip) ⊎ ((config.udp_cross_device ≡ true) × IsOwn ip fs)

listening-ours :
    (u : Udp) (fs : List Interface) (port ip : ℕ)
    → IsOurs ip u.config fs
    → has_id ip (listening u fs port).self_addrs ≡ true
listening-ours u fs port ip (inl e) =
    let added = λ (s : List ℕ). has_id-insert_id ip loopback_ip s in rw (added _) (rw e refl)
listening-ours u fs port ip (inr (cross, own)) =
    let found = enumerate-finds ip u.self_addrs u.broadcast_addrs fs own in
    rw cross (has_id-insert_id ip loopback_ip _ ∙ rw found (ground arith))

receive-ours :
    (u : Udp) (ip : ℕ) (bytes : List ℕ) (now : ℕ)
    → has_id ip u.self_addrs ≡ true
    → receive u ip u.port bytes now ≡ (u, [])
unfolding receive
receive-ours u ip [] now h = refl
receive-ours u ip (x ∷ bytes) now h =
    let own : (u.port == u.port) ≡ true = ground arith in rw (h, own) refl

-- A transport that has started takes none of its own datagrams: whatever comes from its own port and the
-- loopback address, or across devices from the address of an interface that was up, changes nothing and is
-- told to no one.
pub receive-start :
    (u : Udp) (config : TransportConfig) (socket : Bool) (free : ℕ → Bool) (fs : List Interface)
    (ip : ℕ) (bytes : List ℕ) (now : ℕ)
    → (start u config socket free fs).1 ≡ true
    → IsOurs ip config fs
    → receive (start u config socket free fs).0 ip (start u config socket free fs).0.port bytes now
      ≡ ((start u config socket free fs).0, [])
unfolding start
receive-start u config socket free fs ip bytes now ok ours =
    let u' : Udp = record u { config = config } in
    elim (Bool-cases u.running) [
      | inl t ↦ absurd (cc)
      | inr t ↦ elim (Bool-cases (not socket)) [
        | inl s ↦ absurd (cc)
        | inr s ↦
            elim (Option-cases (bind_port free config.udp_base_port 0 config.udp_port_count)) [
              | inl e ↦ absurd (let off : false ≡ true = rw (t, s, e, start) at ok in cc)
              | inr (port, e) ↦
                  rw (t, s, e, start)
                    (receive-ours (listening u' fs port) ip bytes now
                      (listening-ours u' fs port ip ours))
            ]
      ]
    ]
