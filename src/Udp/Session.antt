-- ===== src/Udp/Session.antt =====
-- What the listener of the transport in src/transport_udp.cpp is told, as a session: a peer comes up once, is
-- heard only while it is up, and goes down once.
use mdds.Base.{
  ℕ, ◌-◌, ◌<◌, ◌≡◌, refl, sym, subst, ◌∙◌, ap, true, ◌&&◌, some, List, [], ◌∷◌, ◌++◌, All, map,
  drop, ltb, ◌==◌, if◌then◌else◌, Bool-cases, inl, inr, arith,
}
use mathlib.Core.Option.{some-injective}
use mdds.Wire.{get_u32}
use mdds.OrderedMap.{find, put, has_id, erase_id}
use mdds.Listener.{ListenerCall, peer_up, peer_down, on_bytes, follow, follow-append}
use mdds.Udp.{
  Udp, is_presence, is_known, presence_received, datagram, receive, sweep_table, sweep_peers,
  peer_timeout,
}
use mdds.Udp.Table.{keys, has_id-keys, keys-put, All-sweep_table, Ascending-sweep_table}
use mdds.OrderedMap.Ids.{Ascending, Ascending-insert_id, insert_id_again}

abbrev downs : List ℕ → List ListenerCall
downs ds = map (λ p. peer_down p) ds

follow_behind :
    (q : ℕ) (ds ks r : List ℕ)
    → All (λ d. q < d) ds
    → follow ks (downs ds) ≡ some r
    → follow (q ∷ ks) (downs ds) ≡ some (q ∷ r)
unfolding follow
follow_behind q [] ks r a e = ap (λ s. some (q ∷ s)) (some-injective ks r e)
follow_behind q (d ∷ ds) ks r (b, a) e = elim (Bool-cases (has_id d ks)) [
  | inl up ↦
      let up' : has_id d (q ∷ ks) ≡ true = unfold has_id in ground arith in
      let gone : erase_id d (q ∷ ks) ≡ q ∷ erase_id d ks = unfold erase_id in ground arith in
      rw (up', gone) (follow_behind q ds (erase_id d ks) r a (rw up at e))
  | inr not_up ↦ absurd (cc)
]

follow_head :
    (p : ℕ) (ks : List ℕ) (es : List ListenerCall) (r : List ℕ)
    → follow ks es ≡ some r
    → follow (p ∷ ks) (peer_down p ∷ es) ≡ some r
unfolding follow
follow_head p ks es r e =
    let up : has_id p (p ∷ ks) ≡ true = unfold has_id in ground arith in
    let gone : erase_id p (p ∷ ks) ≡ ks = unfold erase_id in ground arith in rw (up, gone) e

follow-sweep_table :
    (timeout now : ℕ) (m : List (ℕ × ℕ))
    → Ascending (keys m)
    → follow (keys m) (downs (sweep_table timeout now m).1)
      ≡ some (keys (sweep_table timeout now m).0)
unfolding sweep_table
follow-sweep_table timeout now [] a = unfold follow in refl
follow-sweep_table timeout now ((p, t) ∷ m) (b, a) =
    let rest = follow-sweep_table timeout now m a in
    elim (Bool-cases (ltb timeout (now - t))) [
      | inl dead ↦ rw dead (follow_head p (keys m) (downs (sweep_table timeout now m).1) _ rest)
      | inr stays ↦ rw stays (
          follow_behind p (sweep_table timeout now m).1 (keys m) _
            (All-sweep_table (λ q. p < q) timeout now m b).1 rest)
    ]

-- One thing that happens to the transport: a datagram with its source, or a sweep.
pub data Input : Type 0 where
  arrives : (from_ip from_port : ℕ) → List ℕ → (now : ℕ) → Input
  sweep_at : (now : ℕ) → Input

unfoldable pub input : Udp → Input → Udp × List ListenerCall
input u (arrives from_ip from_port buf now) = receive u from_ip from_port buf now
input u (sweep_at now) = sweep_peers u now

unfoldable pub inputs : Udp → List Input → Udp × List ListenerCall
inputs u [] = (u, [])
inputs u (x ∷ xs) = let (u', es) = input u x in let (u'', fs) = inputs u' xs in (u'', es ++ fs)

-- What a step of the transport has to keep.
abbrev pub Followed : Udp → Udp × List ListenerCall → Type 0
Followed u r = (follow (keys u.peers) r.1 ≡ some (keys r.0.peers)) × Ascending (keys r.0.peers)

Followed-nothing : (u : Udp) → Ascending (keys u.peers) → Followed u (u, [])
unfolding follow
Followed-nothing u a = (refl, a)

-- A peer that is in the table is not announced again, and another one is.
follow-put :
    (p now : ℕ) (m : List (ℕ × ℕ))
    → Ascending (keys m)
    → follow (keys m) (if is_known (find ltb p m) then [] else peer_up p ∷ [])
      ≡ some (keys (put ltb p now m))
unfolding follow
follow-put p now m a = elim (Bool-cases (is_known (find ltb p m))) [
  | inl known ↦
      rw (known, keys-put p now m)
        (ap (λ s. some s) (sym (insert_id_again p (keys m) a (has_id-keys p m a ∙ known))))
  | inr new ↦ rw (new, keys-put p now m) (rw (has_id-keys p m a ∙ new) refl)
]

Followed-presence :
    (u : Udp) (peer : ℕ) (buf : List ℕ) (now : ℕ)
    → Ascending (keys u.peers)
    → Followed u (presence_received u peer buf now)
unfolding presence_received
Followed-presence u peer buf now a =
    elim (Bool-cases (get_u32 (drop 5 buf) == u.config.domain_id)) [
      | inl t ↦ rw t (
        follow-put peer now u.peers a,
        subst Ascending (sym (keys-put peer now u.peers))
            (Ascending-insert_id peer (keys u.peers) a),
      )
      | inr t ↦ rw t (Followed-nothing u a)
    ]

Followed-data :
    (u : Udp) (peer : ℕ) (buf : List ℕ)
    → Ascending (keys u.peers)
    → Followed u (u, if is_known (find ltb peer u.peers) then on_bytes peer buf ∷ [] else [])
unfolding follow
Followed-data u peer buf a = elim (Bool-cases (is_known (find ltb peer u.peers))) [
  | inl known ↦ rw known (rw (has_id-keys peer u.peers a ∙ known) refl, a)
  | inr new ↦ rw new (refl, a)
]

Followed-input : (u : Udp) (x : Input) → Ascending (keys u.peers) → Followed u (input u x)
unfolding input receive datagram sweep_peers
Followed-input u (arrives from_ip from_port [] now) a = Followed-nothing u a
Followed-input u (arrives from_ip from_port (x ∷ buf) now) a =
    elim (Bool-cases (from_port == u.port && has_id from_ip u.self_addrs)) [
      | inl own ↦ rw own (Followed-nothing u a)
      | inr other ↦ rw other (elim (Bool-cases (is_presence (x ∷ buf))) [
        | inl t ↦ rw t (Followed-presence u _ (x ∷ buf) now a)
        | inr t ↦ rw t (Followed-data u _ (x ∷ buf) a)
      ])
    ]
Followed-input u (sweep_at now) a = (
  follow-sweep_table (peer_timeout u.config) now u.peers a,
  Ascending-sweep_table (peer_timeout u.config) now u.peers a,
)

-- Whatever datagrams come and whenever the table is swept, one thing after the other: the listener is told of
-- no peer that it comes up while it is up, and of none that it goes down or sends while it is not, and
-- in the end the peers that are up, by what it was told, are those of the table.
pub follow-inputs :
    (u : Udp) (xs : List Input)
    → Ascending (keys u.peers)
    → follow (keys u.peers) (inputs u xs).1 ≡ some (keys (inputs u xs).0.peers)
unfolding inputs
follow-inputs u [] a = unfold follow in refl
follow-inputs u (x ∷ xs) a =
    let step = Followed-input u x a in
    follow-append (keys u.peers) (keys (input u x).0.peers) _ (input u x).1
      (inputs (input u x).0 xs).1 step.0 (follow-inputs (input u x).0 xs step.1)
