-- ===== src/Discovery/RoundTrip.antt =====
-- The receiver of an ANNOUNCE reads the snapshot that the sender wrote.
use mdds.Base.{
  ℕ, zero, suc, ◌+◌, ◌*◌, ◌/◌, ◌^◌, ◌≡◌, refl, sym, ap, ◌∙◌, bit_and, bit_or, false, some, List, [],
  ◌∷◌, ◌++◌, All, length, drop, length-append, append_assoc, append-nil, take-append, drop-append,
  ltb, arith,
}
use native.Mathlib.Nat.{div-le_self, div-div-eq-div-mul, pow-suc}
use mdds.Base.Bits.{bit_or_fields, bit_and_low}
use mdds.Wire.{u8, u16, u32, u64, IsU8, IsU16, IsU32, IsU64, put_u16, get_u16}
use mdds.Wire.Words.{get_u16-put_u16}
use mdds.Qos.{QosProfile, IsProfile, encode_qos, decode_qos}
use mdds.Qos.Codec.{length-encode_qos, decode_qos-encode_qos}
use mdds.Frame.{announce_type}
use mdds.Frame.Header.{header-then}
use mdds.Discovery.{
  NodeInfo, EndpointRecord, ParticipantSnapshot, append_u16, append_bytes, append_u64,
  append_string, read_u16, shift_in, read_u64, read_bytes, read_string, node_bytes, endpoint_bytes,
  announce_body, encode_announce, read_nodes, read_endpoint, read_endpoints, read_announce,
  announce_of, decode_announce,
}

read_bytes-append :
    (xs rest : List ℕ) (n : ℕ) → length xs ≡ n → read_bytes n (xs ++ rest) ≡ some (xs, rest)
unfolding read_bytes
read_bytes-append xs rest n h =
    rw (take-append n xs rest h, drop-append n xs rest h) (ground (arith, length-append xs rest))

read_u16-append_u16 :
    (v : ℕ) (rest : List ℕ) → IsU16 v → read_u16 (append_u16 v ++ rest) ≡ some (v, rest)
unfolding read_u16 append_u16 put_u16 get_u16
read_u16-append_u16 v rest h =
    let long : ltb (suc (suc (length rest))) 2 ≡ false = ground arith in
    rw long (ap (λ (n : ℕ). some (n, rest)) (get_u16-put_u16 v rest h))

shift_in_one : (w : ℕ) → IsU64 w → bit_or (u64 (w / 2 ^ 8 * 2 ^ 8)) (u8 (bit_and w 0xff)) ≡ w
shift_in_one w h =
    let whole : u64 (w / 2 ^ 8 * 2 ^ 8) ≡ w / 2 ^ 8 * 2 ^ 8 = omega arith in
    rw whole (
      omega
        (arith, bit_and_low 8 w, bit_or_fields 8 (w / 2 ^ 8) (u8 (bit_and w 0xff)) (omega arith)))

pow_byte : (k : ℕ) → 2 ^ (k + 8) ≡ 2 ^ k * 2 ^ 8
pow_byte k = omega (
  arith,
  ap (λ (j : ℕ). 2 ^ j) {x = k + 8} {y = suc (suc (suc (suc (suc (suc (suc (suc k)))))))}
      (omega arith),
  pow-suc 2 (suc (suc (suc (suc (suc (suc (suc k))))))),
  pow-suc 2 (suc (suc (suc (suc (suc (suc k)))))),
  pow-suc 2 (suc (suc (suc (suc (suc k))))),
  pow-suc 2 (suc (suc (suc (suc k)))),
  pow-suc 2 (suc (suc (suc k))),
  pow-suc 2 (suc (suc k)),
  pow-suc 2 (suc k),
  pow-suc 2 k,
)

-- Reading the bytes below `n` behind the higher ones gives the number.
shift_in-append_bytes :
    (n v : ℕ) (rest : List ℕ)
    → IsU64 v
    → shift_in n (v / 2 ^ (n * 8)) (append_bytes n v ++ rest) ≡ v
unfolding shift_in append_bytes
shift_in-append_bytes zero v rest h = omega arith
shift_in-append_bytes (suc n) v rest h =
    let w = v / 2 ^ (n * 8) in
    let small : IsU64 w = omega (arith, div-le_self v (2 ^ (n * 8))) in
    let high : v / 2 ^ (suc n * 8) ≡ w / 2 ^ 8 =
      ap (λ (k : ℕ). v / 2 ^ k) {x = suc n * 8} {y = n * 8 + 8} (omega arith)
      ∙ ap (λ (k : ℕ). v / k) (pow_byte (n * 8))
      ∙ sym (div-div-eq-div-mul v (2 ^ (n * 8)) (2 ^ 8)) in
    rw (high, shift_in_one w small) (shift_in-append_bytes n v rest h)

length-append_bytes : (n v : ℕ) → length (append_bytes n v) ≡ n
unfolding append_bytes
length-append_bytes zero v = refl
length-append_bytes (suc n) v = ap suc (length-append_bytes n v)

drop_all_bytes : (n v : ℕ) (rest : List ℕ) → drop n (append_bytes n v ++ rest) ≡ rest
drop_all_bytes n v rest = drop-append n (append_bytes n v) rest (length-append_bytes n v)

read_u64-append_u64 :
    (v : ℕ) (rest : List ℕ) → IsU64 v → read_u64 (append_u64 v ++ rest) ≡ some (v, rest)
unfolding read_u64 append_u64
read_u64-append_u64 v rest h =
    let long : ltb (length (append_bytes 8 v ++ rest)) 8 ≡ false =
      ground (arith, length-append (append_bytes 8 v) rest, length-append_bytes 8 v) in
    let from_zero : v / 2 ^ (8 * 8) ≡ 0 = omega arith in
    rw
      (
        long,
        drop_all_bytes 8 v rest,
        ap (λ (z : ℕ). shift_in 8 z (append_bytes 8 v ++ rest)) (sym from_zero),
        shift_in-append_bytes 8 v rest h,
      )
      refl

read_string-append_string :
    (s rest : List ℕ) → IsU16 (length s) → read_string (append_string s ++ rest) ≡ some (s, rest)
unfolding read_string append_string
read_string-append_string s rest h =
    let word : u16 (length s) ≡ length s = omega arith in
    simp append_assoc (
      rw (word, read_u16-append_u16 (length s) (s ++ rest) h)
        (read_bytes-append s rest (length s) refl))

-- A node's texts are shorter than 2 ^ 16 bytes.
abbrev pub IsNode : NodeInfo → Type 0
IsNode n = IsU16 (length n.ns) × IsU16 (length n.name)

read_nodes-node_bytes :
    (ns : List NodeInfo) (rest : List ℕ)
    → All IsNode ns
    → read_nodes (length ns) (node_bytes ns ++ rest) ≡ some (ns, rest)
unfolding read_nodes node_bytes
read_nodes-node_bytes [] rest h = refl
read_nodes-node_bytes (n ∷ ns) rest ((a, b), c) = simp append_assoc (
    rw
      (
        read_string-append_string n.ns (append_string n.name ++ (node_bytes ns ++ rest)) a,
        read_string-append_string n.name (node_bytes ns ++ rest) b,
        read_nodes-node_bytes ns rest c,
      )
      refl)

-- An endpoint's fields are in range, and its texts are shorter than 2 ^ 16 bytes.
pub record IsEndpoint (e : EndpointRecord) : Type 0 where
  pub guid_size : length e.guid.bytes ≡ 16
  pub kind_byte : IsU8 e.kind
  pub topic_short : IsU16 (length e.topic)
  pub type_name_short : IsU16 (length e.type_name)
  pub profile : IsProfile e.qos
  pub birth_word : IsU64 e.birth_us

decode_qos_alone : (q : QosProfile) → IsProfile q → decode_qos (encode_qos q) ≡ some q
decode_qos_alone q h =
    ap decode_qos (sym (append-nil (encode_qos q))) ∙ decode_qos-encode_qos q [] h

read_endpoints-endpoint_bytes :
    (es : List EndpointRecord) (rest : List ℕ)
    → All IsEndpoint es
    → read_endpoints (length es) (endpoint_bytes es ++ rest) ≡ some (es, rest)
unfolding read_endpoints endpoint_bytes read_endpoint
read_endpoints-endpoint_bytes [] rest h = refl
read_endpoints-endpoint_bytes (e ∷ es) rest (v, vs) =
    let more = endpoint_bytes es ++ rest in
    let kind : u8 e.kind ≡ e.kind = let k = v.kind_byte in omega arith in
    simp append_assoc (
      rw
        (
          kind,
          read_bytes-append e.guid.bytes
              (e.kind
                ∷ (append_string e.topic
                    ++ (append_string e.type_name
                        ++ (encode_qos e.qos ++ (append_u64 e.birth_us ++ more)))))
              16 v.guid_size,
          read_bytes-append (e.kind ∷ [])
              (append_string e.topic
                ++ (append_string e.type_name
                    ++ (encode_qos e.qos ++ (append_u64 e.birth_us ++ more))))
              1 refl,
          read_string-append_string e.topic
              (append_string e.type_name ++ (encode_qos e.qos ++ (append_u64 e.birth_us ++ more)))
              v.topic_short,
          read_string-append_string e.type_name
              (encode_qos e.qos ++ (append_u64 e.birth_us ++ more)) v.type_name_short,
          read_bytes-append (encode_qos e.qos) (append_u64 e.birth_us ++ more) 32
              (length-encode_qos e.qos),
          decode_qos_alone e.qos v.profile,
          read_u64-append_u64 e.birth_us more v.birth_word,
          read_endpoints-endpoint_bytes es rest vs,
        )
        refl)

-- A snapshot that fits the frame: counts below 2 ^ 16, and each entry in range.
pub record IsSnapshot (snap : ParticipantSnapshot) : Type 0 where
  pub guid_size : length snap.participant_guid.bytes ≡ 16
  pub node_count : IsU16 (length snap.nodes)
  pub endpoint_count : IsU16 (length snap.endpoints)
  pub all_nodes : All IsNode snap.nodes
  pub all_endpoints : All IsEndpoint snap.endpoints

read_announce-announce_body :
    (snap : ParticipantSnapshot) (seq : ℕ)
    → IsSnapshot snap
    → IsU64 seq
    → read_announce (announce_body snap seq) ≡ some (snap, seq)
unfolding read_announce announce_body
read_announce-announce_body snap seq v h =
    let ends : read_endpoints (length snap.endpoints) (endpoint_bytes snap.endpoints)
        ≡ some (snap.endpoints, []) =
      ap (read_endpoints (length snap.endpoints)) (sym (append-nil (endpoint_bytes snap.endpoints)))
      ∙ read_endpoints-endpoint_bytes snap.endpoints [] v.all_endpoints in
    let few_nodes : u16 (length snap.nodes) ≡ length snap.nodes = omega (arith, v.node_count) in
    let few_endpoints : u16 (length snap.endpoints) ≡ length snap.endpoints =
      omega (arith, v.endpoint_count) in
    let last = append_u16 (length snap.endpoints) ++ endpoint_bytes snap.endpoints in
    rw
      (
        few_nodes,
        few_endpoints,
        read_bytes-append snap.participant_guid.bytes
            (append_u64 seq ++ (append_u16 (length snap.nodes) ++ (node_bytes snap.nodes ++ last)))
            16 v.guid_size,
        read_u64-append_u64 seq (append_u16 (length snap.nodes) ++ (node_bytes snap.nodes ++ last))
            h,
        read_u16-append_u16 (length snap.nodes) (node_bytes snap.nodes ++ last) v.node_count,
        read_nodes-node_bytes snap.nodes last v.all_nodes,
        read_u16-append_u16 (length snap.endpoints) (endpoint_bytes snap.endpoints)
            v.endpoint_count,
        ends,
      )
      refl

-- An ANNOUNCE is read back whole, whatever bytes follow it: the snapshot's counts and the lengths of its
-- texts are below 2 ^ 16, its fields in range, and its body shorter than 2 ^ 32 bytes.
pub decode_announce-encode_announce :
    (snap : ParticipantSnapshot) (seq : ℕ) (rest : List ℕ)
    → IsSnapshot snap
    → IsU64 seq
    → IsU32 (length (announce_body snap seq))
    → decode_announce (encode_announce snap seq ++ rest) ≡ some (snap, seq)
unfolding decode_announce encode_announce announce_of
decode_announce-encode_announce snap seq rest v h n =
    let body = announce_body snap seq in
    let size : u32 (length body) ≡ length body = omega arith in
    simp append_assoc (
      rw size (
        header-then announce_of announce_type 0 (length body) (body ++ rest) (omega arith)
          (omega arith) n (omega (arith, length-append body rest))
        ∙ rw (take-append (length body) body rest refl) (read_announce-announce_body snap seq v h)))
