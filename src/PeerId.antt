-- ===== src/PeerId.antt =====
-- The peer ids of src/participant.cpp: the transport's index over the transport's own id.
use mdds.Base.{
  ◌≢◌, sym, ap, ◌∙◌, ◌==◌, false, Bool-cases, inl, inr, ==→eq, ℕ, ◌+◌, ◌*◌, ◌/◌, ◌%◌, ◌^◌, ◌<◌, ◌≡◌,
  bit_and, bit_or, arith,
}
use mdds.Base.Bits.{bit_and_low, bit_or_fields}
use mdds.Wire.{u64}

unfoldable pub make_peer_id : ℕ → ℕ → ℕ
make_peer_id transport_index backend_id =
    bit_or (u64 (transport_index * 2 ^ 56)) (bit_and backend_id 0x00ff_ffff_ffff_ffff)

unfoldable pub peer_transport_index : ℕ → ℕ
peer_transport_index peer = peer / 2 ^ 56

unfoldable pub peer_backend_id : ℕ → ℕ
peer_backend_id peer = bit_and peer 0x00ff_ffff_ffff_ffff

make_peer_id_sum : (t b : ℕ) → t < 2 ^ 8 → make_peer_id t b ≡ t * 2 ^ 56 + b % 2 ^ 56
unfolding make_peer_id
make_peer_id_sum t b h =
    let word : u64 (t * 2 ^ 56) ≡ t * 2 ^ 56 = omega arith in
    rw (word, bit_and_low 56 b) (bit_or_fields 56 t (b % 2 ^ 56) (omega arith))

-- Of a peer id with one of the 256 indices that its high byte holds, both parts are read back: the index
-- as it was, and the low 56 bits of the transport's own id.
pub peer_id_parts :
    (t b : ℕ)
    → t < 2 ^ 8
    → (peer_transport_index (make_peer_id t b) ≡ t)
      × (peer_backend_id (make_peer_id t b) ≡ b % 2 ^ 56)
unfolding peer_transport_index peer_backend_id
peer_id_parts t b h =
    rw (make_peer_id_sum t b h)
      (omega arith, omega (arith, bit_and_low 56 (t * 2 ^ 56 + b % 2 ^ 56)))

same_id :
    (s t a b : ℕ)
    → s < 2 ^ 8
    → t < 2 ^ 8
    → make_peer_id s a ≡ make_peer_id t b
    → (s ≡ t) × (a % 2 ^ 56 ≡ b % 2 ^ 56)
same_id s t a b hs ht e =
    let (si, sb) = peer_id_parts s a hs in
    let (ti, tb) = peer_id_parts t b ht in
    (sym si ∙ ap peer_transport_index e ∙ ti, sym sb ∙ ap peer_backend_id e ∙ tb)

pub id_eq :
    (index q r : ℕ)
    → index < 2 ^ 8
    → q < 2 ^ 56
    → r < 2 ^ 56
    → (make_peer_id index q == make_peer_id index r) ≡ (q == r)
id_eq index q r h hq hr = elim (Bool-cases (make_peer_id index q == make_peer_id index r)) [
  | inl t ↦
      let same =
        same_id index index q r h h (==→eq (make_peer_id index q) (make_peer_id index r) t) in
      let key : q ≡ r = omega (arith, same.1) in rw (t, key) (ground arith)
  | inr t ↦ elim (Bool-cases (q == r)) [
    | inl e ↦
        let key : q ≡ r = ==→eq q r e in absurd (ground (arith, t, ap (make_peer_id index) key))
    | inr e ↦ t ∙ sym e
  ]
]

pub id_apart :
    (s index q r : ℕ)
    → s < 2 ^ 8
    → index < 2 ^ 8
    → s ≢ index
    → (make_peer_id s q == make_peer_id index r) ≡ false
id_apart s index q r hs h ne = elim (Bool-cases (make_peer_id s q == make_peer_id index r)) [
  | inl t ↦
      absurd (ne ((same_id s index q r hs h (==→eq (make_peer_id s q) (make_peer_id index r) t)).0))
  | inr t ↦ t
]
