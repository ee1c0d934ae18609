-- ===== src/Dsoftbus/Session.antt =====
-- What the listener of src/transport_dsoftbus.cpp is told, as a session.
use mdds.Base.{
  ℕ, ◌≡◌, refl, sym, ap, ◌∙◌, true, false, not, ◌&&◌, ◌||◌, Option, none, some, List, [], ◌∷◌, ◌==◌,
  if◌then◌else◌, Bool-cases, Option-cases, inl, inr, arith, ==→eq,
}
use mathlib.Core.Option.{some-injective}
use mdds.Guid.{bytes_lt}
use mdds.OrderedMap.{find, has_id, insert_id, erase_id}
use mdds.OrderedMap.Sorted.{any_value-put, any_value-find}
use mdds.OrderedMap.Ids.{
  Ascending, Ascending-insert_id, Ascending-erase_id, has_id-insert_id, has_id-erase_id,
}
use mdds.Listener.{ListenerCall, peer_up, peer_down, on_bytes, follow}
use mdds.SendLane.{SendBudget}
use mdds.Dsoftbus.{
  Dsoftbus, PeerState, Effect, shut_down, tells, send_bytes, is_fd, is_open, set_peer, begin_bind,
  fail_bind, clear_pending, connected, bound, lose, lost_peer, discard_lost, on_shutdown,
  first_with, on_error, on_bytes_received,
}
use mdds.Dsoftbus.Channels.{
  IsDsoftbus, is_up, is_up_as, IsDsoftbus-set_peer, IsChannel-find, IsDsoftbus-pending,
  is_up-set_peer, IsDsoftbus-with, is_down-find,
}
use mdds.Dsoftbus.Lost.{WasUp, lose-UpLess, lose_none, IsDsoftbus-lose}
use mdds.Dsoftbus.Loops.{find-first_with, first_with-test, fd_open, is_up_self}
use mdds.Dsoftbus.Known.{IsFree}

-- What of the effects reaches the listener.
unfoldable pub told : List Effect → List ListenerCall
told [] = []
told (tells c ∷ es) = c ∷ told es
told (shut_down fd ∷ es) = told es
told (send_bytes fd bytes ∷ es) = told es

-- The set is that of the peers that are up.
pub record Agrees (up : List ℕ) (m : List (List ℕ × PeerState)) : Type 0 where
  pub ascending : Ascending up
  pub agrees : (q : ℕ) → has_id q up ≡ is_up q m

abbrev pub Session : List ℕ → Dsoftbus × List Effect → Type 0
Session up r =
    IsDsoftbus r.0 × (up' : List ℕ) × (follow up (told r.1) ≡ some up') × Agrees up' r.0.peers

-- A step that tells the listener nothing.
pub Session-silent :
    (up : List ℕ) (d d' : Dsoftbus) (es : List Effect)
    → Agrees up d.peers
    → IsDsoftbus d'
    → ((q : ℕ) → is_up q d'.peers ≡ is_up q d.peers)
    → told es ≡ []
    → Session up (d', es)
unfolding follow
Session-silent up d d' es a v same quiet = (
  v,
  up,
  rw quiet refl,
  record { ascending = a.ascending; agrees = λ q. a.agrees q ∙ sym (same q) },
)

follow_down :
    (up : List ℕ) (p : ℕ) → has_id p up ≡ true → follow up (peer_down p ∷ []) ≡ some (erase_id p up)
unfolding follow
follow_down up p h = rw h refl

follow_up :
    (up : List ℕ) (p : ℕ) → has_id p up ≡ false → follow up (peer_up p ∷ []) ≡ some (insert_id p up)
unfolding follow
follow_up up p h = rw h refl

follow_bytes :
    (up : List ℕ) (p : ℕ) (bytes : List ℕ)
    → has_id p up ≡ true
    → follow up (on_bytes p bytes ∷ []) ≡ some up
unfolding follow
follow_bytes up p bytes h = rw h refl

module _ (up : List ℕ) (d : Dsoftbus) (v : IsDsoftbus d) (a : Agrees up d.peers) where
  pub Session-begin_bind : (nid : List ℕ) (f : Option ℕ) → Session up (begin_bind d nid f)
  unfolding begin_bind told
  Session-begin_bind nid none = Session-silent up d d [] a v (λ q. refl) refl
  Session-begin_bind nid (some fd) = elim (Option-cases (find bytes_lt nid d.peers)) [
    | inl e ↦ rw (e, begin_bind) (Session-silent up d d (shut_down fd ∷ []) a v (λ q. refl) refl)
    | inr (st, e) ↦
        rw (e, begin_bind)
          (Session-silent up d _ [] a (IsDsoftbus-pending d nid st (some fd) v e)
            (λ q. is_up-set_peer d nid st _ q e refl) refl)
  ]

  pub Session-fail_bind : (nid : List ℕ) (fd : ℕ) → Session up (fail_bind d nid fd)
  unfolding fail_bind told
  Session-fail_bind nid fd = elim (Option-cases (find bytes_lt nid d.peers)) [
    | inl e ↦ rw (e, fail_bind) (Session-silent up d d (shut_down fd ∷ []) a v (λ q. refl) refl)
    | inr (st, e) ↦
        rw (e, fail_bind)
          (Session-silent up d _ (shut_down fd ∷ []) a (IsDsoftbus-pending d nid st _ v e)
            (λ q. is_up-set_peer d nid st _ q e refl) refl)
  ]

  was_up :
      (fd : ℕ)
      → WasUp fd d.peers
      → (lost_peer fd d.peers == 0) ≡ false
      → has_id (lost_peer fd d.peers) up ≡ true
  was_up fd (inl e) z = absurd (ground arith)
  was_up fd (inr u) z = a.agrees (lost_peer fd d.peers) ∙ u

  pub Session-on_shutdown : (fd : ℕ) → Session up (on_shutdown d fd)
  unfolding on_shutdown told
  Session-on_shutdown fd =
      let (less, was) = lose-UpLess d.next_peer_id fd d.peers v.channels v.ids v.sockets in
      let valid = λ (b : SendBudget). IsDsoftbus-lose d fd b v in
      elim (Bool-cases (is_fd fd d.listen_fd)) [
        | inl t ↦
            rw t (Session-silent up d _ [] a (IsDsoftbus-with d false d.budget v) (λ q. refl) refl)
        | inr t ↦ rw t (elim (Bool-cases (lost_peer fd d.peers == 0)) [
          | inl z ↦ rw z (
              Session-silent up d
                (record d { peers = lose fd d.peers; budget = discard_lost fd d.peers d.budget }) []
                a (valid _)
                (lose_none d.next_peer_id fd d.peers v.channels less
                  (==→eq (lost_peer fd d.peers) 0 z))
                refl)
          | inr z ↦ rw z (
            valid (discard_lost fd d.peers d.budget),
            erase_id (lost_peer fd d.peers) up,
            follow_down up (lost_peer fd d.peers) (was_up fd was z),
            record {
              ascending = Ascending-erase_id (lost_peer fd d.peers) up a.ascending;
              agrees = λ q.
                  has_id-erase_id q (lost_peer fd d.peers) up a.ascending
                  ∙ ap (λ b. b && not (q == lost_peer fd d.peers)) (a.agrees q)
                  ∙ sym (less q);
            },
          )
        ])
      ]

  -- `bound` on a table that agrees, for a socket that no other peer has.
  pub Session-bound :
      (nid : List ℕ) (st : PeerState) (fd limit : ℕ) (f : Option ℕ)
      → find bytes_lt nid d.peers ≡ some st
      → st.socket_fd ≡ f
      → IsFree fd nid d.peers
      → Session up (bound d nid (clear_pending fd st) fd limit f)
  unfolding bound told
  Session-bound nid st fd limit (some g) e same free =
      Session-silent up d (set_peer d nid (clear_pending fd st))
        (if g == fd then [] else shut_down fd ∷ []) a (IsDsoftbus-pending d nid st _ v e)
        (λ q. is_up-set_peer d nid st _ q e refl)
        (elim (Bool-cases (g == fd)) [ inl t ↦ rw t refl | inr t ↦ rw t refl ])
  Session-bound nid st fd limit none e same free =
      let c = IsChannel-find d nid st v e in
      let st' = connected (clear_pending fd st) fd limit in
      let off : st.up_notified ≡ false = c.up_open ∙ ap is_open same in
      let grown = λ (q : ℕ).
        any_value-put (is_up_as q) bytes_lt nid st' d.peers
          (λ w f. let at = some-injective w st (sym f ∙ e) in rw at (rw off refl)) in
      let fresh : has_id st.peer_id up ≡ false =
        a.agrees st.peer_id ∙ is_down-find nid st d.peers e off v.ids in
      (
        IsDsoftbus-set_peer d nid st st' v e refl
            (record {
              id_pos = c.id_pos;
              id_used = c.id_used;
              up_open = refl;
              lane_fits = (refl, refl);
            })
            free,
        insert_id st.peer_id up,
        follow_up up st.peer_id fresh,
        record {
          ascending = Ascending-insert_id st.peer_id up a.ascending;
          agrees = λ q.
              has_id-insert_id q st.peer_id up
              ∙ ap (λ b. (q == st.peer_id) || b) (a.agrees q)
              ∙ sym (unfold is_up in grown q);
        },
      )

  pub Session-on_error : (fd : ℕ) → Session up (on_error d fd)
  unfolding on_error told
  Session-on_error fd = elim (Option-cases (first_with (λ st. is_fd fd st.pending_fd) d.peers)) [
    | inl e ↦ rw (e, on_error) (Session-silent up d d [] a v (λ q. refl) refl)
    | inr ((nid, st), e) ↦
        let at = find-first_with (λ st. is_fd fd st.pending_fd) nid st d.peers v.sorted e in
        rw (e, on_error)
          (Session-silent up d _ (shut_down fd ∷ []) a (IsDsoftbus-pending d nid st none v at)
            (λ q. is_up-set_peer d nid st _ q at refl) refl)
  ]

  -- Bytes are handed on only while the peer is up.
  pub Session-on_bytes_received :
      (fd : ℕ) (bytes : List ℕ) → Session up (d, on_bytes_received d fd bytes)
  unfolding on_bytes_received told is_up
  Session-on_bytes_received fd bytes =
      elim (Option-cases (first_with (λ st. is_fd fd st.socket_fd) d.peers)) [
        | inl e ↦ rw (e, on_bytes_received) (Session-silent up d d [] a v (λ q. refl) refl)
        | inr ((nid, st), e) ↦
            let at = find-first_with (λ st. is_fd fd st.socket_fd) nid st d.peers v.sorted e in
            let c = IsChannel-find d nid st v at in
            let on : is_up st.peer_id d.peers ≡ true =
              any_value-find (is_up_as st.peer_id) bytes_lt nid st d.peers at (
                is_up_self st (
                  c.up_open
                  ∙ fd_open fd st.socket_fd
                      (first_with-test (λ st. is_fd fd st.socket_fd) nid st d.peers e))) in
            let other : (st.peer_id == 0) ≡ false = ground (arith, c.id_pos) in
            rw (e, on_bytes_received)
              (rw other (v, up, follow_bytes up st.peer_id bytes (a.agrees st.peer_id ∙ on), a))
      ]
