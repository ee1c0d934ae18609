-- ===== src/Dsoftbus/Known.antt =====
-- A peer of src/transport_dsoftbus.cpp gets an entry and an id of its own when it is first heard of.
use mdds.Base.{
  ℕ, ◌+◌, ◌^◌, ◌≤◌, ◌<◌, ◌≡◌, ◌≢◌, refl, sym, none, some, List, All, All-weaken, Option-cases, inl,
  inr, arith,
}
use mdds.Wire.{u64}
use mdds.Guid.{bytes_lt}
use mdds.OrderedMap.{find}
use mdds.OrderedMap.Laws.{bytes_lt-IsOrder, All-put, find-put_self}
use mdds.OrderedMap.Sorted.{IsSorted-put, Pairwise-put_at, any_value-put}
use mdds.Dsoftbus.{Dsoftbus, PeerState, set_peer, new_peer, know_peer}
use mdds.Dsoftbus.Channels.{
  IsChannel, IsDsoftbus, IdApart, FdApart, SocketsApart, SocketsApart-flip, is_up, is_up_as,
}

-- No peer under another network id has the descriptor.
abbrev pub IsFree : ℕ → List ℕ → List (List ℕ × PeerState) → Type 0
IsFree fd nid m = All (λ kv. kv.0 ≢ nid → SocketsApart (some fd) kv.1.socket_fd) m

pub record Knows (d : Dsoftbus) (nid : List ℕ) (r : Dsoftbus × PeerState) : Type 0 where
  pub valid : IsDsoftbus r.0
  pub there : find bytes_lt nid r.0.peers ≡ some r.1
  pub same_up : (q : ℕ) → is_up q r.0.peers ≡ is_up q d.peers
  pub one_more : r.0.next_peer_id ≤ d.next_peer_id + 1
  pub free_still : (fd : ℕ) → IsFree fd nid d.peers → IsFree fd nid r.0.peers

new_peer-Knows :
    (d : Dsoftbus) (nid : List ℕ)
    → IsDsoftbus d
    → d.next_peer_id + 1 < 2 ^ 64
    → find bytes_lt nid d.peers ≡ none
    → Knows d nid (
      set_peer
          (record d { next_peer_id = u64 (d.next_peer_id + 1) })
          nid
          (new_peer d.next_peer_id nid),
      new_peer d.next_peer_id nid,
    )
unfolding is_up
new_peer-Knows d nid v room e =
    let st = new_peer d.next_peer_id nid in
    let fits : u64 (d.next_peer_id + 1) ≡ d.next_peer_id + 1 = omega arith in
    let pos = v.next_pos in
    record {
      valid = record {
        sorted = IsSorted-put bytes_lt bytes_lt-IsOrder nid st d.peers v.sorted;
        channels = rw fits (
            All-put bytes_lt (λ kv. IsChannel (d.next_peer_id + 1) kv.1) nid st d.peers
              (record { id_pos = pos; id_used = omega arith; up_open = refl; lane_fits = tt })
              (All-weaken _ _ d.peers
                (λ kv c. record {
                  id_pos = c.id_pos;
                  id_used = omega (arith, c.id_used);
                  up_open = c.up_open;
                  lane_fits = c.lane_fits;
                })
                v.channels));
        ids =
            Pairwise-put_at bytes_lt bytes_lt-IsOrder IdApart (λ a b h k. h (sym k)) nid st d.peers
              v.sorted
              (All-weaken _ _ d.peers (λ kv c ne k. omega (arith, c.id_used, k)) v.channels) v.ids;
        sockets =
            Pairwise-put_at bytes_lt bytes_lt-IsOrder FdApart
              (λ a b. SocketsApart-flip a.socket_fd b.socket_fd) nid st d.peers v.sorted
              (All-weaken _ _ d.peers (λ kv c ne. tt) v.channels) v.sockets;
        next_pos = rw fits (omega arith);
      };
      there = find-put_self bytes_lt bytes_lt-IsOrder nid st d.peers;
      same_up = λ q. any_value-put (is_up_as q) bytes_lt nid st d.peers (λ w f. absurd (cc));
      one_more = rw fits (omega arith);
      free_still = λ fd a.
          All-put bytes_lt (λ kv. kv.0 ≢ nid → SocketsApart (some fd) kv.1.socket_fd) nid st d.peers
            (λ ne. tt) a;
    }

pub know_peer-Knows :
    (d : Dsoftbus) (nid : List ℕ)
    → IsDsoftbus d
    → d.next_peer_id + 1 < 2 ^ 64
    → Knows d nid (know_peer d nid)
unfolding know_peer
know_peer-Knows d nid v room = elim (Option-cases (find bytes_lt nid d.peers)) [
  | inl e ↦ rw (e, know_peer) (new_peer-Knows d nid v room e)
  | inr (st, e) ↦
      rw (e, know_peer)
        (record {
          valid = v;
          there = e;
          same_up = λ q. refl;
          one_more = omega arith;
          free_still = λ fd a. a;
        })
]
