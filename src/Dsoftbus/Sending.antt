-- ===== src/Dsoftbus/Sending.antt =====
-- What a lane of src/transport_dsoftbus.cpp writes, and where.
use mdds.Base.{
  ℕ, ◌+◌, ◌^◌, ◌<◌, ◌≡◌, ◌≢◌, refl, sym, ap, ◌∙◌, Bool, true, false, ◌&&◌, ◌||◌, Option, none, some,
  List, [], ◌∷◌, ◌++◌, length, All, ltb, ◌==◌, if◌then◌else◌, Bool-cases, Option-cases, inl, inr,
  arith, ==→eq, take, map,
}
use mathlib.Core.Option.{some-injective}
use mdds.Wire.{u64, u32}
use mdds.Guid.{bytes_lt}
use mdds.OrderedMap.{find}
use mdds.OrderedMap.Laws.{bytes_lt-IsOrder, find-All, find-put_self}
use mdds.OrderedMap.Sorted.{Pairwise}
use mdds.SendLane.{SendBudget, SendLane, push}
use mdds.Dsoftbus.{Dsoftbus, PeerState, PeerLane, send_bytes, is_fd, is_open, first_with}
use mdds.Dsoftbus.Channels.{
  IsDsoftbus, IdApart, FdApart, SocketsApart, IsChannel-find, FdApart-find, LaneFits,
}
use mdds.Dsoftbus.Traffic.{push_to, send, set_lane, deliver, is_live}
use mdds.Dsoftbus.Loops.{first_with-All, find-first_with, first_with-test}
use mdds.Dsoftbus.Rounds.{first_with-exists, lane_rounds, lane_rounds-Holds}

-- The first entry with a peer's id is the one under the peer's key.
first_with-find :
    (test : PeerState → Bool) (nid : List ℕ) (st : PeerState) (m : List (List ℕ × PeerState))
    → find bytes_lt nid m ≡ some st
    → Pairwise IdApart m
    → test st ≡ true
    → ((w : PeerState) → test w ≡ true → w.peer_id ≡ st.peer_id)
    → first_with test m ≡ some (nid, st)
unfolding find first_with
first_with-find test nid st [] e p t only = absurd (cc)
first_with-find test nid st ((j, u) ∷ m) e (r, p) t only = elim (Bool-cases (bytes_lt nid j)) [
  | inl kj ↦ absurd (cc)
  | inr kj ↦ elim (Bool-cases (bytes_lt j nid)) [
    | inl jk ↦
        let there : find bytes_lt nid m ≡ some st = rw (kj, jk) at e in
        let other : u.peer_id ≢ st.peer_id =
          find-All bytes_lt (λ w. u.peer_id ≢ w.peer_id) nid st m there r in
        elim (Bool-cases (test u)) [
          | inl tu ↦ absurd (other (only u tu))
          | inr tu ↦ rw tu (first_with-find test nid st m there p t only)
        ]
    | inr jk ↦
        let here : u ≡ st = some-injective u st (rw (kj, jk) at e) in
        let key : j ≡ nid = bytes_lt-IsOrder.connex j nid jk kj in rw (here, key) (rw t refl)
  ]
]

push-taken :
    (l : SendLane) (b : SendBudget) (f : List ℕ)
    → (push l b f).2 ≡ true
    → ((push l b f).0.queue ≡ l.queue ++ (f ∷ [])) × ((push l b f).0.stopping ≡ false)
unfolding push
push-taken l b f ok =
    elim (Bool-cases (
      l.stopping
      || (ltb l.byte_limit (u64 (l.bytes + length f)) || ltb b.limit (u64 (b.used + length f))))) [
        | inl t ↦ absurd (cc)
        | inr t ↦ rw t (refl, ground (arith, t))
      ]

LaneFits-to :
    (id fd : ℕ) (f : Option ℕ) (o : Option PeerLane) (l : PeerLane)
    → f ≡ some fd
    → o ≡ some l
    → LaneFits id f o
    → (l.sink_peer ≡ id) × (l.sink_fd ≡ fd)
LaneFits-to id fd none o l e k h = absurd (cc)
LaneFits-to id fd (some g) none l e k h = absurd h
LaneFits-to id fd (some g) (some k) l e same h =
    let same_l : k ≡ l = some-injective k l same in
    let same_g : g ≡ fd = some-injective g fd e in
    (
      sym (ap (λ (x : PeerLane). x.sink_peer) same_l) ∙ h.0,
      sym (ap (λ (x : PeerLane). x.sink_fd) same_l) ∙ h.1 ∙ same_g,
    )

send-find :
    (d : Dsoftbus) (nid : List ℕ) (st : PeerState) (l : PeerLane) (bytes : List ℕ)
    → IsDsoftbus d
    → find bytes_lt nid d.peers ≡ some st
    → st.lane ≡ some l
    → send d st.peer_id bytes ≡ push_to d nid st (some l) bytes
unfolding send
send-find d nid st l bytes v e has =
    let test = λ (w : PeerState). w.peer_id == st.peer_id && is_open w.lane in
    let at =
      first_with-find test nid st d.peers e v.ids (rw has (ground arith))
        (λ w t. ground (arith, t)) in
    rw (at, send) (rw has refl)

-- A `send` on an open channel that is not dropped stands behind what the peer's lane holds, and the rounds
-- of the worker write exactly these frames, whole and in that order, to the peer's channel, whatever
-- `SendBytes` answers. The frames are shorter than 2 ^ 32 bytes.
pub send-lane_rounds :
    (d : Dsoftbus) (nid : List ℕ) (st : PeerState) (l : PeerLane) (fd : ℕ) (bytes : List ℕ)
    (oks : List Bool)
    → IsDsoftbus d
    → d.running ≡ true
    → find bytes_lt nid d.peers ≡ some st
    → st.socket_fd ≡ some fd
    → st.lane ≡ some l
    → All (λ f. length f < 2 ^ 32) (l.lane.queue ++ (bytes ∷ []))
    → (send d st.peer_id bytes).1 ≡ true
    → length oks ≡ length (l.lane.queue ++ (bytes ∷ []))
    → (lane_rounds (send d st.peer_id bytes).0 nid oks).1
      ≡ map (send_bytes fd) (l.lane.queue ++ (bytes ∷ []))
unfolding push_to
send-lane_rounds d nid st l fd bytes oks v on e is_on has short ok enough =
    let found = send-find d nid st l bytes v e has in
    let taken = push-taken l.lane d.budget bytes (sym (ap (λ r. r.1) found) ∙ ok) in
    let to =
      LaneFits-to st.peer_id fd st.socket_fd st.lane l is_on has
        (IsChannel-find d nid st v e).lane_fits in
    let pushed = push l.lane d.budget bytes in
    let d' : Dsoftbus = record d { budget = pushed.1 } in
    rw found (
      lane_rounds-Holds (l.lane.queue ++ (bytes ∷ [])) (set_lane d' nid st l pushed.0) nid
        st.peer_id fd oks
        (record {
          runs = on;
          st = record st { lane = some (record l { lane = pushed.0 }) };
          lane = record l { lane = pushed.0 };
          there = find-put_self bytes_lt bytes_lt-IsOrder nid _ d.peers;
          is_id = refl;
          is_fd = is_on;
          has = refl;
          to_peer = to.0;
          to_fd = to.1;
          holds = taken.0;
          goes_on = taken.1;
        })
        short enough)

shared_fd : (fd : ℕ) (f g : Option ℕ) → is_fd fd f ≡ true → is_fd fd g ≡ true → ¬ SocketsApart f g
shared_fd fd none g h k = cc
shared_fd fd (some f) none h k = cc
shared_fd fd (some f) (some g) h k = λ apart. apart (omega (arith, ==→eq f fd h, ==→eq g fd k))

channel_of :
    (d : Dsoftbus) (nid : List ℕ) (st : PeerState) (fd peer : ℕ)
    → IsDsoftbus d
    → find bytes_lt nid d.peers ≡ some st
    → is_fd fd st.socket_fd ≡ true
    → is_open (first_with (λ w. w.peer_id == peer && is_fd fd w.socket_fd) d.peers)
      ≡ (peer == st.peer_id)
channel_of d nid st fd peer v e has =
    let test = λ (w : PeerState). w.peer_id == peer && is_fd fd w.socket_fd in
    elim (Bool-cases (peer == st.peer_id)) [
      | inl t ↦ first_with-exists test nid st d.peers e (rw has (ground (arith, t))) ∙ sym t
      | inr t ↦ elim (Option-cases (first_with test d.peers)) [
        | inl off ↦ rw (off, t) refl
        | inr ((nid', st'), on) ↦
            let passed = first_with-test test nid' st' d.peers on in
            let apart =
              first_with-All (λ kv. kv.0 ≢ nid → FdApart st kv.1) test nid' st' d.peers
                (FdApart-find d nid st v e) on in
            absurd (
              shared_fd fd st.socket_fd st'.socket_fd has (ground (arith, passed)) (
                apart (λ same.
                  let at : some st' ≡ some st =
                    sym (find-first_with test nid' st' d.peers v.sorted on)
                    ∙ ap (λ k. find bytes_lt k d.peers) same
                    ∙ e in
                  let here : st'.peer_id ≡ st.peer_id =
                    ap (λ (w : PeerState). w.peer_id) (some-injective st' st at) in
                  ground (arith, passed, here, t))))
      ]
    ]

-- While a peer has a descriptor, the lane sink of that peer and no other writes to it, and only while the
-- transport runs: the one that another peer had before, and that captured the same descriptor, is refused.
pub deliver-find :
    (d : Dsoftbus) (nid : List ℕ) (st : PeerState) (fd peer : ℕ) (bytes : List ℕ) (ok : Bool)
    → IsDsoftbus d
    → find bytes_lt nid d.peers ≡ some st
    → st.socket_fd ≡ some fd
    → deliver d peer fd bytes ok ≡ (
        if d.running && (peer == st.peer_id)
        then (ok, send_bytes fd (take (u32 (length bytes)) bytes) ∷ [])
        else (false, []))
unfolding deliver is_live
deliver-find d nid st fd peer bytes ok v e is_on =
    let which = channel_of d nid st fd peer v e (rw is_on (ground arith)) in rw which refl
