-- ===== src/Dsoftbus/Run.antt =====
-- Whatever happens to the transport of src/transport_dsoftbus.cpp, its table is consistent and its listener sees a
-- session.
use mdds.Base.{ℕ, ◌+◌, ◌^◌, ◌<◌, ◌≡◌, refl, ap, ◌∙◌, List, [], ◌∷◌, ◌++◌, arith}
use mdds.Listener.{follow, follow-append}
use mdds.Dsoftbus.{Dsoftbus, Effect, shut_down, tells, send_bytes, online}
use mdds.Dsoftbus.Channels.{IsDsoftbus}
use mdds.Dsoftbus.Session.{
  told, Agrees, Session, Session-silent, Session-begin_bind, Session-fail_bind, Session-on_shutdown,
  Session-on_error, Session-on_bytes_received,
}
use mdds.Dsoftbus.Lanes.{Session-send, Session-lane_round, Session-on_bind}
use mdds.Dsoftbus.Inputs.{
  Input, are_online, begins, fails, binds, shuts, errs, receives, sends, works, input, inputs,
  ids_taken, all_ids_taken, IsFreshBind, AllFreshBinds,
}
use mdds.Dsoftbus.Ids.{online-lem, input-next_peer_id}

Session-input :
    (up : List ℕ) (d : Dsoftbus) (x : Input)
    → IsDsoftbus d
    → Agrees up d.peers
    → d.next_peer_id + ids_taken x < 2 ^ 64
    → IsFreshBind d x
    → Session up (input d x)
unfolding input told
Session-input up d (are_online nids) v a room free =
    let r = online-lem d nids v room in Session-silent up d (online d nids).0 [] a r.0 r.1 refl
Session-input up d (begins nid fd) v a room free = Session-begin_bind up d v a nid fd
Session-input up d (fails nid fd) v a room free = Session-fail_bind up d v a nid fd
Session-input up d (binds fd nid limit) v a room free =
    Session-on_bind up d v a fd nid limit free room
Session-input up d (shuts fd) v a room free = Session-on_shutdown up d v a fd
Session-input up d (errs fd) v a room free = Session-on_error up d v a fd
Session-input up d (receives fd bytes) v a room free = Session-on_bytes_received up d v a fd bytes
Session-input up d (sends peer bytes) v a room free = Session-send up d v a peer bytes
Session-input up d (works nid ok) v a room free = Session-lane_round up d v a nid ok

told-append : (es fs : List Effect) → told (es ++ fs) ≡ told es ++ told fs
unfolding told
told-append [] fs = refl
told-append (tells c ∷ es) fs = ap (λ cs. c ∷ cs) (told-append es fs)
told-append (shut_down fd ∷ es) fs = told-append es fs
told-append (send_bytes fd bytes ∷ es) fs = told-append es fs

pub Session-inputs :
    (up : List ℕ) (d : Dsoftbus) (xs : List Input)
    → IsDsoftbus d
    → Agrees up d.peers
    → d.next_peer_id + all_ids_taken xs < 2 ^ 64
    → AllFreshBinds d xs
    → Session up (inputs d xs)
unfolding inputs follow told
Session-inputs up d [] v a room free = (v, up, refl, a)
Session-inputs up d (x ∷ xs) v a room (free, frees) =
    let (v', up', told_x, a') = Session-input up d x v a (omega arith) free in
    let more = input-next_peer_id d x v (omega arith) in
    let (v'', up'', told_xs, a'') =
      Session-inputs up' (input d x).0 xs v' a' (omega (arith, more)) frees in
    (
      v'',
      up'',
      ap (follow up) (told-append (input d x).1 (inputs (input d x).0 xs).1)
          ∙ follow-append up up' up'' (told (input d x).1) (told (inputs (input d x).0 xs).1) told_x
              told_xs,
      a'',
    )
