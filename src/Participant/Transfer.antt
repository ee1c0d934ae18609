-- ===== src/Participant/Transfer.antt =====
-- From `fragment` at the sender to `deliver_sample` at the receiver: the frames of a sample, one after
-- the other, deliver it once.
use mdds.Base.{
  ℕ, zero, suc, ◌+◌, ◌-◌, ◌≤◌, ◌<◌, ◌≡◌, ◌⊎◌, refl, sym, ap, ◌∙◌, min, false, ◌&&◌, Option, none,
  some, List, [], ◌∷◌, ◌++◌, length, take, drop, take_all, length-take, length-drop, append-nil,
  ltb, leb, Bool-cases, inl, inr, arith, ltb→lt, lt→ltb,
}
use mdds.Wire.{u32, IsU16, IsU32, IsU64}
use mdds.Guid.{Guid}
use mdds.Frame.{DataFragBody, encode_data, decode_data, empty_trailer, trailer_bytes, payload_bytes}
use mdds.Frame.Frag.{encode_data_frag, decode_data_frag}
use mdds.Frame.Trailer.{carried}
use mdds.Frame.RoundTrip.{decode_data-encode_data, decode_data_frag-encode_data_frag}
use mdds.Fragment.{
  Reassembler, split, fragment, find_partial, add_fragment, add_fragment_body, fill,
}
use mdds.Fragment.InOrder.{HasPrefix, HasPrefix-zero, inner_slice, last_slice}
use mdds.OrderedMap.{find, put}
use mdds.OrderedMap.Laws.{ltb-IsOrder, find-put_self}
use mdds.Participant.{Participant, Output, Link}
use mdds.Participant.Deliver.{deliver_sample}
use mdds.Participant.Receive.{
  Readings, handle_bytes, deliver_data, deliver_frag, deliver_whole, or_new,
}
use mdds.Participant.Dispatch.{handle_bytes-data, handle_bytes-frag}

-- `handle_bytes` on one frame after the other; `t n` are the readings for the frame numbered `n`.
unfoldable pub receive_all :
    Participant → Link → ℕ → (ℕ → Readings) → ℕ → List (List ℕ) → Participant × List Output
receive_all p link peer t n [] = (p, [])
receive_all p link peer t n (f ∷ fs) =
    let (p', out) = handle_bytes p link peer f (t n) in
    let (p'', rest) = receive_all p' link peer t (suc n) fs in (p'', out ++ rest)

add_fragment-take :
    (r : Reassembler) (g : Guid) (seq total offset c now : ℕ) (xs : List ℕ)
    → add_fragment r g seq total offset (some (take c xs)) c now
      ≡ add_fragment r g seq total offset (some xs) c now
unfolding add_fragment fill
add_fragment-take r g seq total offset c now xs =
    rw (take_all c (take c xs) (omega (arith, length-take c xs))) refl

module _ (link : Link) (peer : ℕ) (t : ℕ → Readings) (g : Guid) (seq time flags : ℕ)
    (payload : List ℕ) (hg : length g.bytes ≡ 16) (hs : IsU64 seq) (ht : IsU64 time)
    (hf : IsU16 flags) (small : IsU32 (44 + length payload)) where
  abbrev chunk_body : ℕ → ℕ → DataFragBody
  chunk_body k c = record {
    writer = g;
    seq = seq;
    pub_time_ms = time;
    total_size = length payload;
    frag_offset = k;
    payload = take c (drop k payload);
    payload_len = c;
    trailer = empty_trailer;
  }

  abbrev chunk_frame : ℕ → ℕ → List ℕ
  chunk_frame k c =
      encode_data_frag g seq time (length payload) k (some (drop k payload)) c flags none

  chunk_frame-take :
      (k c : ℕ)
      → length (take c (drop k payload)) ≡ c
      → chunk_frame k c
        ≡ encode_data_frag g seq time
            (length payload)
            k
            (some (take c (drop k payload)))
            (length (take c (drop k payload)))
            flags
            none
  unfolding encode_data_frag payload_bytes
  chunk_frame-take k c h = rw (h, take_all c (take c (drop k payload)) (omega (arith, h))) refl

  decode_chunk :
      (k c : ℕ)
      → k + c ≤ length payload
      → decode_data_frag (chunk_frame k c) ≡ some (chunk_body k c)
  unfolding carried trailer_bytes
  decode_chunk k c h =
      let size : length (take c (drop k payload)) ≡ c =
        omega (arith, length-take c (drop k payload), length-drop k payload) in
      let fits : ltb (length payload) (k + length (take c (drop k payload))) ≡ false =
        ground (arith, size) in
      let read =
        decode_data_frag-encode_data_frag g seq time (length payload) k flags
          (take c (drop k payload)) none [] hg hs ht (omega arith) (omega arith) hf tt
          (omega (arith, size)) in
      rw (chunk_frame-take k c size)
        (sym (ap decode_data_frag (append-nil _)) ∙ read ∙ rw (fits, size) refl)

  module _ (p : Participant) (k c n : ℕ) (inside : k + c ≤ length payload) where
    abbrev result : Reassembler × Option (List ℕ)
    result =
        add_fragment (or_new (find ltb peer p.reassemblers)) g seq (length payload) k
          (some (drop k payload)) c (t n).gathered_at

    chunk_received :
        handle_bytes p link peer (chunk_frame k c) (t n)
        ≡ deliver_whole
            (record p { reassemblers = put ltb peer result.0 p.reassemblers })
            link
            peer
            (chunk_body k c)
            (t n)
            result.1
    unfolding deliver_frag add_fragment_body
    chunk_received =
        handle_bytes-frag p link peer (chunk_frame k c) (t n) (chunk_body k c)
          (decode_chunk k c inside)
        ∙ rw
            (add_fragment-take (or_new (find ltb peer p.reassemblers)) g seq (length payload) k c
              (t n).gathered_at (drop k payload))
            refl

  -- The participant with other reassemblers delivers the sample.
  abbrev pub Delivers : Participant → Participant × List Output → Type 0
  Delivers p r =
      (rs : List (ℕ × Reassembler)) × (m : ℕ) × (r
        ≡ deliver_sample (record p { reassemblers = rs }) link peer g seq time payload
            (t m).steady_ms (t m).enqueue)

  unchanged : (r : Participant × List Output) → (r.0, r.1 ++ []) ≡ r
  unchanged (q, out) = rw (append-nil out) refl

  nothing_left :
      (cap fuel n : ℕ) (p : Participant)
      → receive_all p link peer t n
          (split fuel (length payload) g seq time (some payload) (length payload) cap flags)
        ≡ (p, [])
  unfolding receive_all split
  nothing_left cap zero n p = refl
  nothing_left cap (suc fuel) n p =
      let done : ltb (length payload) (length payload) ≡ false = ground arith in rw done refl

  split_received :
      (cap fuel k n : ℕ) (p : Participant)
      → HasPrefix payload g seq k (or_new (find ltb peer p.reassemblers))
      → k < length payload
      → length payload - k ≤ fuel
      → 0 < cap
      → Delivers p (
          receive_all p link peer t n
            (split fuel k g seq time (some payload) (length payload) cap flags))
  unfolding receive_all split deliver_whole
  split_received cap zero k n p v more enough pos = absurd (omega arith)
  split_received cap (suc fuel) k n p v more enough pos =
      let c = min cap (length payload - k) in
      let inside : k + c ≤ length payload = omega arith in
      let some_bytes : 0 < length payload = omega arith in
      let word : IsU32 (length payload) = omega arith in
      let sum : u32 (k + c) ≡ k + c = omega arith in
      let r = or_new (find ltb peer p.reassemblers) in
      let res = result p k c n inside in
      let p' = record p { reassemblers = put ltb peer res.0 p.reassemblers } in
      let one = chunk_received p k c n inside in
      rw (lt→ltb k (length payload) more, sum, one)
        (elim (Bool-cases (ltb (k + c) (length payload))) [
          | inl e ↦
              let l = ltb→lt _ _ e in
              let (none_yet, v') =
                inner_slice payload g seq k c (t n).gathered_at r v inside some_bytes word l in
              let found = find-put_self ltb ltb-IsOrder peer res.0 p.reassemblers in
              rw none_yet
                (split_received cap fuel (k + c) (suc n) p' (rw found v') l (omega arith) pos)
          | inr e ↦
              let all : k + c ≡ length payload = ground arith in
              let whole =
                last_slice payload g seq k c (t n).gathered_at r v inside some_bytes word all in
              rw (whole, all, nothing_left cap fuel (suc n))
                (put ltb peer res.0 p.reassemblers, n, unchanged _)
        ])

  single_received :
      (p : Participant) (n : ℕ)
      → receive_all p link peer t n
          (encode_data g seq time (some payload) (length payload) flags none ∷ [])
        ≡ deliver_sample p link peer g seq time payload (t n).steady_ms (t n).enqueue
  unfolding receive_all deliver_data trailer_bytes
  single_received p n =
      let bytes = encode_data g seq time (some payload) (length payload) flags none in
      let read =
        sym (ap decode_data (append-nil bytes))
        ∙ decode_data-encode_data g seq time flags payload none [] hg hs ht hf tt (omega arith) in
      rw (handle_bytes-data p link peer bytes (t n) _ read) (unchanged _)

  -- The frames that a sample is cut into, received one after the other, deliver it exactly once and as it
  -- was written: whatever the size of a frame, the calls together are one `deliver_sample`, and leave
  -- nothing but the reassemblers otherwise. A fragment must hold one byte at least, no older fragment of
  -- the sample may be waiting, and no other frame comes in between.
  pub fragments_received :
      (p : Participant) (n max : ℕ)
      → (48 + length payload ≤ max) ⊎ (56 < max)
      → find_partial (g, seq) (or_new (find ltb peer p.reassemblers)).partials ≡ none
      → Delivers p (
          receive_all p link peer t n
            (fragment g seq time (some payload) (length payload) max flags))
  unfolding fragment
  fragments_received p n max big fresh =
      let not_null : (ltb 0 (length payload) && false) ≡ false = ground arith in
      rw not_null (elim (Bool-cases (leb (48 + length payload) max)) [
        | inl e ↦ rw e (p.reassemblers, n, single_received p n)
        | inr e ↦
            let over : 56 < max = ground (arith, e) in
            let room : leb max 56 ≡ false = ground arith in
            let cap : u32 (max - 12 - 44) ≡ max - 56 = ground (arith, e) in
            rw (e, room)
              (split_received (u32 (max - 12 - 44)) (length payload) 0 n p
                (HasPrefix-zero payload g seq _ fresh) (ground (arith, e)) (omega arith)
                (omega (arith, cap)))
      ])
