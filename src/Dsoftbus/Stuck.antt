-- ===== src/Dsoftbus/Stuck.antt =====
-- What becomes of a transport of src/transport_dsoftbus.cpp whose listening socket is shut down.
use mdds.Base.{
  ℕ, ◌≡◌, refl, sym, ◌∙◌, Bool, true, false, ◌&&◌, ◌||◌, Option, none, some, List, [], ◌∷◌, ◌++◌,
  ◌==◌, Bool-cases, Option-cases, inl, inr, arith,
}
use mdds.Guid.{bytes_lt}
use mdds.OrderedMap.{find}
use mdds.SendLane.{SendLane, next_frame}
use mdds.Dsoftbus.{
  Dsoftbus, PeerState, PeerLane, Effect, shut_down, tells, send_bytes, is_fd, is_open, start,
  on_shutdown, first_with, know_peer, online, begin_bind, fail_bind, bound, on_bind, on_error,
  on_bytes_received, peer_of, lost_peer,
}
use mdds.Dsoftbus.Traffic.{push_to, send, is_live, deliver, sink, work, lane_round, close}
use mdds.Dsoftbus.Inputs.{
  Input, are_online, begins, fails, binds, shuts, errs, receives, sends, works, input, inputs,
}

-- Whether the effects write to a channel.
unfoldable pub writes : List Effect → Bool
writes [] = false
writes (shut_down fd ∷ es) = writes es
writes (tells c ∷ es) = writes es
writes (send_bytes fd bytes ∷ es) = true

-- It is still the instance that the callbacks reach, its polling thread is not joined, and it does not run.
pub record IsStuck (d : Dsoftbus) : Type 0 where
  pub idle : d.running ≡ false
  pub attached : d.attached ≡ true
  pub polling : d.polling ≡ true

-- A step that keeps it so and writes nothing.
pub record StaysStuck (r : Dsoftbus × List Effect) : Type 0 where
  pub stuck : IsStuck r.0
  pub quiet : writes r.1 ≡ false

-- A step behind which the three flags are as before.
stays :
    (d d' : Dsoftbus) (es : List Effect)
    → IsStuck d
    → d'.running ≡ d.running
    → d'.attached ≡ d.attached
    → d'.polling ≡ d.polling
    → writes es ≡ false
    → StaysStuck (d', es)
stays d d' es v a b c q = record {
  stuck = record { idle = a ∙ v.idle; attached = b ∙ v.attached; polling = c ∙ v.polling };
  quiet = q;
}

module _ (d : Dsoftbus) (v : IsStuck d) where
  know_peer-IsStuck : (nid : List ℕ) → IsStuck (know_peer d nid).0
  unfolding know_peer
  know_peer-IsStuck nid = elim (Option-cases (find bytes_lt nid d.peers)) [
    | inl e ↦
        rw (e, know_peer) (record { idle = v.idle; attached = v.attached; polling = v.polling })
    | inr (st, e) ↦ rw (e, know_peer) v
  ]

  begin_bind-StaysStuck : (nid : List ℕ) (f : Option ℕ) → StaysStuck (begin_bind d nid f)
  unfolding begin_bind writes
  begin_bind-StaysStuck nid none = stays d d [] v refl refl refl refl
  begin_bind-StaysStuck nid (some fd) = elim (Option-cases (find bytes_lt nid d.peers)) [
    | inl e ↦ rw (e, begin_bind) (stays d d (shut_down fd ∷ []) v refl refl refl refl)
    | inr (st, e) ↦ rw (e, begin_bind) (stays d _ [] v refl refl refl refl)
  ]

  fail_bind-StaysStuck : (nid : List ℕ) (fd : ℕ) → StaysStuck (fail_bind d nid fd)
  unfolding fail_bind writes
  fail_bind-StaysStuck nid fd = elim (Option-cases (find bytes_lt nid d.peers)) [
    | inl e ↦ rw (e, fail_bind) (stays d d (shut_down fd ∷ []) v refl refl refl refl)
    | inr (st, e) ↦ rw (e, fail_bind) (stays d _ (shut_down fd ∷ []) v refl refl refl refl)
  ]

  bound-StaysStuck :
      (nid : List ℕ) (st : PeerState) (fd limit : ℕ) (f : Option ℕ)
      → StaysStuck (bound d nid st fd limit f)
  unfolding bound writes
  bound-StaysStuck nid st fd limit none = stays d _ _ v refl refl refl refl
  bound-StaysStuck nid st fd limit (some g) = elim (Bool-cases (g == fd)) [
    | inl t ↦ rw t (stays d _ [] v refl refl refl refl)
    | inr t ↦ rw t (stays d _ (shut_down fd ∷ []) v refl refl refl refl)
  ]

  on_shutdown-StaysStuck : (fd : ℕ) → StaysStuck (on_shutdown d fd)
  unfolding on_shutdown writes
  on_shutdown-StaysStuck fd = elim (Bool-cases (is_fd fd d.listen_fd)) [
    | inl t ↦ rw t (stays d _ [] v (sym v.idle) refl refl refl)
    | inr t ↦ rw t (elim (Bool-cases (lost_peer fd d.peers == 0)) [
      | inl z ↦ rw z (stays d _ [] v refl refl refl refl)
      | inr z ↦ rw z (stays d _ _ v refl refl refl refl)
    ])
  ]

  on_error-StaysStuck : (fd : ℕ) → StaysStuck (on_error d fd)
  unfolding on_error writes
  on_error-StaysStuck fd = elim (Option-cases (first_with (λ st. is_fd fd st.pending_fd) d.peers)) [
    | inl e ↦ rw (e, on_error) (stays d d [] v refl refl refl refl)
    | inr ((nid, st), e) ↦ rw (e, on_error) (stays d _ (shut_down fd ∷ []) v refl refl refl refl)
  ]

  on_bytes_received-StaysStuck :
      (fd : ℕ) (bytes : List ℕ) → StaysStuck (d, on_bytes_received d fd bytes)
  unfolding on_bytes_received writes
  on_bytes_received-StaysStuck fd bytes =
      elim (Bool-cases (peer_of (first_with (λ st. is_fd fd st.socket_fd) d.peers) == 0)) [
        | inl t ↦ rw t (stays d d [] v refl refl refl refl)
        | inr t ↦ rw t (stays d d _ v refl refl refl refl)
      ]

  push_to-StaysStuck :
      (nid : List ℕ) (st : PeerState) (o : Option PeerLane) (bytes : List ℕ)
      → StaysStuck ((push_to d nid st o bytes).0, [])
  unfolding push_to writes
  push_to-StaysStuck nid st none bytes = stays d d [] v refl refl refl refl
  push_to-StaysStuck nid st (some l) bytes = stays d _ [] v refl refl refl refl

  send-StaysStuck : (peer : ℕ) (bytes : List ℕ) → StaysStuck ((send d peer bytes).0, [])
  unfolding send writes
  send-StaysStuck peer bytes =
      elim (Option-cases (first_with (λ st. st.peer_id == peer && is_open st.lane) d.peers)) [
        | inl e ↦ rw (e, send) (stays d d [] v refl refl refl refl)
        | inr ((nid, st), e) ↦ rw (e, send) (push_to-StaysStuck nid st st.lane bytes)
      ]

  -- A transport that does not run writes nothing.
  deliver-idle :
      (peer fd : ℕ) (bytes : List ℕ) (ok : Bool) → writes (deliver d peer fd bytes ok).1 ≡ false
  unfolding deliver is_live writes
  deliver-idle peer fd bytes ok = rw (v.idle) refl

  sink-StaysStuck :
      (nid : List ℕ) (st : PeerState) (l : PeerLane) (lane' : SendLane) (frame : Option (List ℕ))
      (ok : Bool)
      → StaysStuck (sink d nid st l lane' frame ok)
  unfolding sink writes
  sink-StaysStuck nid st l lane' none ok = stays d _ [] v refl refl refl refl
  sink-StaysStuck nid st l lane' (some f) ok =
      stays d _ (deliver d l.sink_peer l.sink_fd f ok).1 v refl refl refl
        (deliver-idle l.sink_peer l.sink_fd f ok)

work-StaysStuck :
    (d : Dsoftbus) (nid : List ℕ) (st : PeerState) (o : Option PeerLane) (ok : Bool)
    → IsStuck d
    → StaysStuck (work d nid st o ok)
unfolding work writes
work-StaysStuck d nid st none ok v = stays d d [] v refl refl refl refl
work-StaysStuck d nid st (some l) ok v =
    sink-StaysStuck (record d { budget = (next_frame l.lane d.budget).1 })
      (record { idle = v.idle; attached = v.attached; polling = v.polling }) nid st l _ _ ok

online-IsStuck : (d : Dsoftbus) (nids : List (List ℕ)) → IsStuck d → IsStuck (online d nids).0
unfolding online
online-IsStuck d [] v = v
online-IsStuck d (nid ∷ nids) v =
    online-IsStuck (know_peer d nid).0 nids (know_peer-IsStuck d v nid)

on_bind-StaysStuck :
    (d : Dsoftbus) (fd : ℕ) (nid : List ℕ) (limit : ℕ)
    → IsStuck d
    → StaysStuck (on_bind d fd nid limit)
unfolding on_bind writes
on_bind-StaysStuck d fd [] limit v = stays d d [] v refl refl refl refl
on_bind-StaysStuck d fd (c ∷ nid) limit v =
    bound-StaysStuck (know_peer d (c ∷ nid)).0 (know_peer-IsStuck d v (c ∷ nid)) (c ∷ nid) _ fd
      limit _

input-StaysStuck : (d : Dsoftbus) (x : Input) → IsStuck d → StaysStuck (input d x)
unfolding input lane_round writes
input-StaysStuck d (are_online nids) v = record { stuck = online-IsStuck d nids v; quiet = refl }
input-StaysStuck d (begins nid f) v = begin_bind-StaysStuck d v nid f
input-StaysStuck d (fails nid fd) v = fail_bind-StaysStuck d v nid fd
input-StaysStuck d (binds fd nid limit) v = on_bind-StaysStuck d fd nid limit v
input-StaysStuck d (shuts fd) v = on_shutdown-StaysStuck d v fd
input-StaysStuck d (errs fd) v = on_error-StaysStuck d v fd
input-StaysStuck d (receives fd bytes) v = on_bytes_received-StaysStuck d v fd bytes
input-StaysStuck d (sends peer bytes) v = send-StaysStuck d v peer bytes
input-StaysStuck d (works nid ok) v = elim (Option-cases (find bytes_lt nid d.peers)) [
  | inl e ↦ rw (e, lane_round) (stays d d [] v refl refl refl refl)
  | inr (st, e) ↦ rw (e, lane_round) (work-StaysStuck d nid st st.lane ok v)
]

writes-append : (es fs : List Effect) → writes (es ++ fs) ≡ (writes es || writes fs)
unfolding writes
writes-append [] fs = refl
writes-append (shut_down fd ∷ es) fs = writes-append es fs
writes-append (tells c ∷ es) fs = writes-append es fs
writes-append (send_bytes fd bytes ∷ es) fs = refl

inputs-StaysStuck : (d : Dsoftbus) (xs : List Input) → IsStuck d → StaysStuck (inputs d xs)
unfolding inputs writes
inputs-StaysStuck d [] v = record { stuck = v; quiet = refl }
inputs-StaysStuck d (x ∷ xs) v =
    let one = input-StaysStuck d x v in
    let rest = inputs-StaysStuck (input d x).0 xs one.stuck in
    record {
      stuck = rest.stuck;
      quiet =
          writes-append (input d x).1 (inputs (input d x).0 xs).1 ∙ rw (one.quiet, rest.quiet) refl;
    }

listen_lost :
    (d : Dsoftbus) (fd : ℕ)
    → d.attached ≡ true
    → d.polling ≡ true
    → d.listen_fd ≡ some fd
    → IsStuck (on_shutdown d fd).0
unfolding on_shutdown
listen_lost d fd on polls e =
    let here : is_fd fd d.listen_fd ≡ true = rw e (ground arith) in
    rw here (record { idle = refl; attached = on; polling = polls })

refused :
    (d : Dsoftbus) (socket : Option ℕ) (listens : Bool)
    → IsStuck d
    → (start d d.attached socket listens).1 ≡ false
unfolding start
refused d none listens v = refl
refused d (some fd) listens v = let on = v.attached in rw on (ground arith)

-- Once the listening socket of a running transport is shut down, and whatever happens to the transport from
-- then on, it cannot be ended and cannot run again: no lane writes, the callbacks still reach it and the
-- polling thread is not joined, `stop` does nothing, and `start` is refused.
pub shut_for_good :
    (d : Dsoftbus) (fd : ℕ) (xs : List Input) (socket : Option ℕ) (listens : Bool)
    → d.attached ≡ true
    → d.polling ≡ true
    → d.listen_fd ≡ some fd
    → let after = inputs (on_shutdown d fd).0 xs in
      (writes after.1 ≡ false)
      × (after.0.attached ≡ true)
      × (after.0.polling ≡ true)
      × (close after.0 ≡ (after.0, []))
      × ((start after.0 after.0.attached socket listens).1 ≡ false)
unfolding close
shut_for_good d fd xs socket listens on polls e =
    let r = inputs-StaysStuck (on_shutdown d fd).0 xs (listen_lost d fd on polls e) in
    let v = r.stuck in
    let still = v.idle in
    (
      r.quiet,
      v.attached,
      v.polling,
      rw still refl,
      refused (inputs (on_shutdown d fd).0 xs).0 socket listens v,
    )
