-- ===== src/Dsoftbus/Ending.antt =====
-- What src/transport_dsoftbus.cpp does no more behind a shutdown and behind `stop`.
use mdds.Base.{
  ℕ, ◌≡◌, refl, ap, ◌∙◌, Bool, true, false, ◌&&◌, ◌||◌, Option, none, some, List, [], ◌∷◌, ◌++◌,
  All, ◌==◌, Bool-cases, inl, inr, arith,
}
use mdds.OrderedMap.Sorted.{any_value}
use mdds.Dsoftbus.{
  Dsoftbus, PeerState, Effect, shut_down, tells, send_bytes, is_fd, lost_channel, lose, on_shutdown,
  first_with,
}
use mdds.Dsoftbus.Traffic.{deliver, is_live, close, shut_open, shut_sockets}

-- Whether the effects shut the descriptor down.
unfoldable pub shuts_down : ℕ → List Effect → Bool
shuts_down fd [] = false
shuts_down fd (shut_down f ∷ es) = (f == fd) || shuts_down fd es
shuts_down fd (tells c ∷ es) = shuts_down fd es
shuts_down fd (send_bytes f bytes ∷ es) = shuts_down fd es

abbrev pub has_channel : ℕ → List (List ℕ × PeerState) → Bool
has_channel fd m = any_value (λ st. is_fd fd st.socket_fd) m

none_with :
    (test : PeerState → Bool) (m : List (List ℕ × PeerState))
    → All (λ kv. test kv.1 ≡ false) m
    → first_with test m ≡ none
unfolding first_with
none_with test [] a = refl
none_with test ((nid, st) ∷ m) (off, a) = rw off (none_with test m a)

lost_channel-closed : (fd : ℕ) (st : PeerState) → is_fd fd (lost_channel fd st).socket_fd ≡ false
lost_channel-closed fd st = elim (Bool-cases (is_fd fd st.socket_fd)) [
  | inl t ↦ rw t refl
  | inr t ↦ rw t t
]

lose-closed :
    (p fd : ℕ) (m : List (List ℕ × PeerState))
    → All (λ kv. ((kv.1.peer_id == p) && is_fd fd kv.1.socket_fd) ≡ false) (lose fd m)
unfolding lose
lose-closed p fd [] = tt
lose-closed p fd ((nid, st) ∷ m) = (ground (arith, lost_channel-closed fd st), lose-closed p fd m)

deliver-dead :
    (d : Dsoftbus) (p fd : ℕ) (bytes : List ℕ) (ok : Bool)
    → is_live d p fd ≡ false
    → deliver d p fd bytes ok ≡ (false, [])
unfolding deliver
deliver-dead d p fd bytes ok h = rw h refl

-- From the moment the client library reports that a channel is shut down, no lane writes to its
-- descriptor, whosever it was.
pub deliver-on_shutdown :
    (d : Dsoftbus) (fd p : ℕ) (bytes : List ℕ) (ok : Bool)
    → deliver (on_shutdown d fd).0 p fd bytes ok ≡ (false, [])
unfolding on_shutdown is_live
deliver-on_shutdown d fd p bytes ok = elim (Bool-cases (is_fd fd d.listen_fd)) [
  | inl t ↦ rw t (deliver-dead _ p fd bytes ok refl)
  | inr t ↦ rw t (
      deliver-dead _ p fd bytes ok (
        rw
          (none_with (λ st. st.peer_id == p && is_fd fd st.socket_fd) (lose fd d.peers)
            (lose-closed p fd d.peers))
          (ground arith)))
]

shuts_down-append :
    (fd : ℕ) (es fs : List Effect)
    → shuts_down fd (es ++ fs) ≡ (shuts_down fd es || shuts_down fd fs)
unfolding shuts_down
shuts_down-append fd [] fs = refl
shuts_down-append fd (shut_down f ∷ es) fs = ground (arith, shuts_down-append fd es fs)
shuts_down-append fd (tells c ∷ es) fs = shuts_down-append fd es fs
shuts_down-append fd (send_bytes f bytes ∷ es) fs = shuts_down-append fd es fs

shuts_down-shut_open : (fd : ℕ) (f : Option ℕ) → shuts_down fd (shut_open f) ≡ is_fd fd f
unfolding shuts_down
shuts_down-shut_open fd none = refl
shuts_down-shut_open fd (some g) = ground (arith)

shuts_down-shut_sockets :
    (fd : ℕ) (m : List (List ℕ × PeerState)) → shuts_down fd (shut_sockets m) ≡ has_channel fd m
unfolding shut_sockets any_value shuts_down
shuts_down-shut_sockets fd [] = refl
shuts_down-shut_sockets fd ((nid, st) ∷ m) =
    shuts_down-append fd (shut_open st.socket_fd) (shut_sockets m)
    ∙ ap (λ b. b || shuts_down fd (shut_sockets m)) (shuts_down-shut_open fd st.socket_fd)
    ∙ ap (λ b. is_fd fd st.socket_fd || b) (shuts_down-shut_sockets fd m)

-- What `stop` of a running transport shuts down: the listening socket and the channels, and no other
-- descriptor, so not one that is still binding. Afterwards it knows no peer, holds no descriptor, is not the
-- instance that the callbacks reach, and a second `stop` does nothing.
pub shuts_down-close :
    (d : Dsoftbus) (fd : ℕ)
    → d.running ≡ true
    → (shuts_down fd (close d).1 ≡ (has_channel fd d.peers || is_fd fd d.listen_fd))
      × ((close d).0.peers ≡ [])
      × ((close d).0.listen_fd ≡ none)
      × ((close d).0.attached ≡ false)
      × (close (close d).0 ≡ ((close d).0, []))
unfolding close
shuts_down-close d fd on = rw on (
  shuts_down-append fd (shut_sockets d.peers) (shut_open d.listen_fd)
      ∙ ap (λ b. b || shuts_down fd (shut_open d.listen_fd)) (shuts_down-shut_sockets fd d.peers)
      ∙ ap (λ b. has_channel fd d.peers || b) (shuts_down-shut_open fd d.listen_fd),
  refl,
  refl,
  refl,
  refl,
)
