-- ===== src/Dsoftbus/Lanes.antt =====
-- Sending over a lane of src/transport_dsoftbus.cpp, and a channel that is bound, as steps of a session.
use mdds.Base.{
  ℕ, ◌+◌, ◌^◌, ◌<◌, ◌≡◌, refl, sym, ap, ◌∙◌, Bool, ◌&&◌, Option, none, some, List, [], ◌∷◌, ◌==◌,
  Bool-cases, Option-cases, inl, inr,
}
use mathlib.Core.Option.{some-injective}
use mdds.Guid.{bytes_lt}
use mdds.OrderedMap.{find}
use mdds.SendLane.{SendBudget, SendLane}
use mdds.Dsoftbus.{
  Dsoftbus, PeerState, PeerLane, Effect, is_open, set_peer, know_peer, on_bind, first_with,
}
use mdds.Dsoftbus.Channels.{
  IsDsoftbus, IsDsoftbus-set_peer, IsChannel-find, FdApart-find, LaneFits, is_up-set_peer,
  IsDsoftbus-with,
}
use mdds.Dsoftbus.Traffic.{push_to, send, set_lane, sink, work, lane_round, deliver, is_live}
use mdds.Dsoftbus.Loops.{find-first_with}
use mdds.Dsoftbus.Known.{IsFree, Knows, know_peer-Knows}
use mdds.Dsoftbus.Session.{told, Agrees, Session, Session-silent, Session-bound}

LaneFits-lane :
    (id : ℕ) (f : Option ℕ) (o : Option PeerLane) (l : PeerLane) (lane' : SendLane)
    → o ≡ some l
    → LaneFits id f o
    → LaneFits id f (some (record l { lane = lane' }))
LaneFits-lane id f none l lane' e h = absurd (cc)
LaneFits-lane id none (some k) l lane' e h = absurd h
LaneFits-lane id (some fd) (some k) l lane' e h =
    let same : k ≡ l = some-injective k l e in
    (
      sym (ap (λ (x : PeerLane). x.sink_peer) same) ∙ h.0,
      sym (ap (λ (x : PeerLane). x.sink_fd) same) ∙ h.1,
    )

told-deliver :
    (d : Dsoftbus) (peer fd : ℕ) (bytes : List ℕ) (ok : Bool)
    → told (deliver d peer fd bytes ok).1 ≡ []
unfolding deliver told
told-deliver d peer fd bytes ok = elim (Bool-cases (is_live d peer fd)) [
  | inl t ↦ rw t refl
  | inr t ↦ rw t refl
]

module _ (up : List ℕ) (d : Dsoftbus) (v : IsDsoftbus d) (a : Agrees up d.peers) where
  -- A lane moves on.
  Session-set_lane :
      (nid : List ℕ) (st : PeerState) (l : PeerLane) (lane' : SendLane) (budget : SendBudget)
      (es : List Effect)
      → find bytes_lt nid d.peers ≡ some st
      → st.lane ≡ some l
      → told es ≡ []
      → Session up (set_lane (record d { budget = budget }) nid st l lane', es)
  Session-set_lane nid st l lane' budget es e has quiet =
      let c = IsChannel-find d nid st v e in
      let d' : Dsoftbus = record d { budget = budget } in
      let st' : PeerState = record st { lane = some (record l { lane = lane' }) } in
      Session-silent up d (set_peer d' nid st') es a
        (IsDsoftbus-set_peer d' nid st st' (IsDsoftbus-with d d.running budget v) e refl
          (record {
            id_pos = c.id_pos;
            id_used = c.id_used;
            up_open = c.up_open;
            lane_fits = LaneFits-lane st.peer_id st.socket_fd st.lane l lane' has c.lane_fits;
          })
          (FdApart-find d nid st v e))
        (λ q. is_up-set_peer d' nid st st' q e refl) quiet

  Session-push_to :
      (nid : List ℕ) (st : PeerState) (o : Option PeerLane) (bytes : List ℕ)
      → find bytes_lt nid d.peers ≡ some st
      → st.lane ≡ o
      → Session up ((push_to d nid st o bytes).0, [])
  unfolding push_to told
  Session-push_to nid st none bytes e has = Session-silent up d d [] a v (λ q. refl) refl
  Session-push_to nid st (some l) bytes e has = Session-set_lane nid st l _ _ [] e has refl

  pub Session-send : (peer : ℕ) (bytes : List ℕ) → Session up ((send d peer bytes).0, [])
  unfolding send told
  Session-send peer bytes =
      let test = λ (st : PeerState). st.peer_id == peer && is_open st.lane in
      elim (Option-cases (first_with test d.peers)) [
        | inl e ↦ rw (e, send) (Session-silent up d d [] a v (λ q. refl) refl)
        | inr ((nid, st), e) ↦
            rw (e, send)
              (Session-push_to nid st st.lane bytes (find-first_with test nid st d.peers v.sorted e)
                refl)
      ]

  Session-sink :
      (nid : List ℕ) (st : PeerState) (l : PeerLane) (lane' : SendLane) (budget : SendBudget)
      (frame : Option (List ℕ)) (ok : Bool)
      → find bytes_lt nid d.peers ≡ some st
      → st.lane ≡ some l
      → Session up (sink (record d { budget = budget }) nid st l lane' frame ok)
  unfolding sink told
  Session-sink nid st l lane' budget none ok e has =
      Session-set_lane nid st l lane' budget [] e has refl
  Session-sink nid st l lane' budget (some f) ok e has =
      let d' : Dsoftbus = record d { budget = budget } in
      Session-set_lane nid st l _ budget (deliver d' l.sink_peer l.sink_fd f ok).1 e has
        (told-deliver d' l.sink_peer l.sink_fd f ok)

  pub Session-lane_round : (nid : List ℕ) (ok : Bool) → Session up (lane_round d nid ok)
  unfolding lane_round work told
  Session-lane_round nid ok = elim (Option-cases (find bytes_lt nid d.peers)) [
    | inl e ↦ rw (e, lane_round) (Session-silent up d d [] a v (λ q. refl) refl)
    | inr (st, e) ↦
        rw (e, lane_round)
          (elim (Option-cases st.lane) [
            | inl o ↦ rw (o, work) (Session-silent up d d [] a v (λ q. refl) refl)
            | inr (l, o) ↦ rw (o, work) (Session-sink nid st l _ _ _ ok e o)
          ])
  ]

  Agrees-Knows : (nid : List ℕ) (r : Dsoftbus × PeerState) → Knows d nid r → Agrees up r.0.peers
  Agrees-Knows nid r k = record {
    ascending = a.ascending;
    agrees = λ q. a.agrees q ∙ sym (k.same_up q);
  }

  pub Session-on_bind :
      (fd : ℕ) (nid : List ℕ) (limit : ℕ)
      → IsFree fd nid d.peers
      → d.next_peer_id + 1 < 2 ^ 64
      → Session up (on_bind d fd nid limit)
  unfolding on_bind told
  Session-on_bind fd [] limit free room = Session-silent up d d [] a v (λ q. refl) refl
  Session-on_bind fd (c ∷ nid) limit free room =
      let k = know_peer-Knows d (c ∷ nid) v room in
      let r = know_peer d (c ∷ nid) in
      Session-bound up r.0 k.valid (Agrees-Knows (c ∷ nid) r k) (c ∷ nid) r.1 fd limit r.1.socket_fd
        k.there refl (k.free_still fd free)
