-- ===== src/Frame/ControlRoundTrip.antt =====
-- The receiver of an ACKNACK, HEARTBEAT or GAP frame reads the fields that the sender wrote.
use mdds.Base.{
  ℕ, ◌+◌, ◌≤◌, ◌≡◌, ◌∙◌, some, List, ◌++◌, length, drop, length-append, drop-append, append_assoc,
  arith,
}
use mdds.Wire.{IsU64, put_u64, put_u32, get_u64}
use mdds.Wire.Words.{get_u64-put_u64, length-put_u64}
use mdds.Guid.{Guid}
use mdds.Frame.{get_guid, acknack_type, heartbeat_type, gap_type}
use mdds.Frame.Control.{
  encode_acknack, acknack_body, decode_acknack, encode_heartbeat, heartbeat_body, decode_heartbeat,
  encode_gap, gap_body, decode_gap,
}
use mdds.Frame.Header.{header-then, get_guid-append, drop-behind_guid}

-- Two GUIDs and two words, as in ACKNACK and GAP.
abbrev two_guids : Guid → Guid → ℕ → ℕ → List ℕ → List ℕ
two_guids g h a b rest = g.bytes ++ (h.bytes ++ (put_u64 a ++ (put_u64 b ++ rest)))

module _ (g h : Guid) (a b : ℕ) (rest : List ℕ) (hg : length g.bytes ≡ 16)
    (hh : length h.bytes ≡ 16) (ha : IsU64 a) (hb : IsU64 b) where
  second_guid : get_guid (drop 16 (two_guids g h a b rest)) ≡ h
  second_guid =
      rw (drop-behind_guid g 0 (h.bytes ++ (put_u64 a ++ (put_u64 b ++ rest))) hg)
        (get_guid-append h _ hh)

  first_word : get_u64 (drop 32 (two_guids g h a b rest)) ≡ a
  first_word =
      rw (drop-behind_guid g 16 (h.bytes ++ (put_u64 a ++ (put_u64 b ++ rest))) hg)
        (rw (drop-behind_guid h 0 (put_u64 a ++ (put_u64 b ++ rest)) hh) (get_u64-put_u64 a _ ha))

  second_word : get_u64 (drop 40 (two_guids g h a b rest)) ≡ b
  unfolding put_u64 put_u32
  second_word =
      rw (drop-behind_guid g 24 (h.bytes ++ (put_u64 a ++ (put_u64 b ++ rest))) hg) (
        rw (drop-behind_guid h 8 (put_u64 a ++ (put_u64 b ++ rest)) hh) (get_u64-put_u64 b rest hb))

  length-two_guids : 48 + length rest ≡ length (two_guids g h a b rest)
  length-two_guids = omega (
    arith,
    length-append g.bytes (h.bytes ++ (put_u64 a ++ (put_u64 b ++ rest))),
    length-append h.bytes (put_u64 a ++ (put_u64 b ++ rest)),
    length-append (put_u64 a) (put_u64 b ++ rest),
    length-append (put_u64 b) rest,
    length-put_u64 a,
    length-put_u64 b,
  )

  -- An ACKNACK whose GUIDs have 16 bytes and whose words have 64 bits is read back whole, whatever
  -- bytes follow it.
  pub decode_acknack-encode_acknack :
      decode_acknack (encode_acknack g h a b ++ rest)
      ≡ some (record { reader = g; writer = h; base_seq = a; bitmap = b })
  unfolding encode_acknack decode_acknack acknack_body
  decode_acknack-encode_acknack = simp append_assoc (
      header-then acknack_body acknack_type 0 48 (two_guids g h a b rest) (omega arith)
        (omega arith) (omega arith) (omega (arith, length-two_guids))
      ∙ rw (get_guid-append g _ hg, second_guid, first_word, second_word))

  -- A GAP whose GUIDs have 16 bytes and whose words have 64 bits is read back whole, whatever bytes
  -- follow it.
  pub decode_gap-encode_gap :
      decode_gap (encode_gap g h a b ++ rest)
      ≡ some (record { writer = g; reader = h; gap_start = a; gap_end = b })
  unfolding encode_gap decode_gap gap_body
  decode_gap-encode_gap = simp append_assoc (
      header-then gap_body gap_type 0 48 (two_guids g h a b rest) (omega arith) (omega arith)
        (omega arith) (omega (arith, length-two_guids))
      ∙ rw (get_guid-append g _ hg, second_guid, first_word, second_word))

-- A HEARTBEAT whose GUID has 16 bytes and whose words have 64 bits is read back whole, whatever bytes
-- follow it.
pub decode_heartbeat-encode_heartbeat :
    (g : Guid) (a b : ℕ) (rest : List ℕ)
    → length g.bytes ≡ 16
    → IsU64 a
    → IsU64 b
    → decode_heartbeat (encode_heartbeat g a b ++ rest)
      ≡ some (record { writer = g; first_seq = a; last_seq = b })
unfolding encode_heartbeat decode_heartbeat heartbeat_body
decode_heartbeat-encode_heartbeat g a b rest hg ha hb = simp append_assoc (
    header-then heartbeat_body heartbeat_type 0 32 body (omega arith) (omega arith) (omega arith)
      long
    ∙ rw (
      get_guid-append g _ hg,
      drop-behind_guid g 0 (put_u64 a ++ (put_u64 b ++ rest)) hg,
      get_u64-put_u64 a _ ha,
      last,
    ))
  where
    body : List ℕ
    body = g.bytes ++ (put_u64 a ++ (put_u64 b ++ rest))

    long : 32 ≤ length body
    long = omega (
      arith,
      length-append g.bytes (put_u64 a ++ (put_u64 b ++ rest)),
      length-append (put_u64 a) (put_u64 b ++ rest),
      length-append (put_u64 b) rest,
      length-put_u64 a,
      length-put_u64 b,
    )

    last : get_u64 (drop 24 body) ≡ b
    last =
        rw
          (
            drop-behind_guid g 8 (put_u64 a ++ (put_u64 b ++ rest)) hg,
            drop-append 8 (put_u64 a) (put_u64 b ++ rest) (length-put_u64 a),
          )
          (get_u64-put_u64 b rest hb)
