-- ===== src/Fragment/Split.antt =====
-- The frames that a payload is split into: the loop ends, and each frame fits.
use mdds.Base.{
  ℕ, zero, suc, ◌+◌, ◌-◌, ◌≤◌, ◌<◌, ◌≡◌, refl, ap, min, ◌&&◌, Option, none, some, List, [], ◌∷◌,
  ◌++◌, All, length, length-append, length-take, length-replicate, ltb, leb, Bool-cases, inl, inr,
  arith, ltb→lt, leb→le,
}
use mdds.Wire.{u32, IsU32, put_u16, put_u32, put_u64}
use mdds.Guid.{Guid}
use mdds.Frame.{encode_header, encode_data, payload_bytes, trailer_bytes}
use mdds.Frame.Frag.{encode_data_frag}
use mdds.Wire.Words.{length-put_u64}
use mdds.Fragment.{split, fragment, from_offset, is_null}

-- Once the fuel is at least the number of bytes left, more of it changes nothing: the loop ends by its own
-- test. A fragment holds one byte at least, and the payload has a 32-bit length.
pub split_fuel :
    (m n offset : ℕ) (writer : Guid) (seq time : ℕ) (payload : Option (List ℕ)) (len cap flags : ℕ)
    → 0 < cap
    → IsU32 len
    → len - offset ≤ m
    → len - offset ≤ n
    → split m offset writer seq time payload len cap flags
      ≡ split n offset writer seq time payload len cap flags
unfolding split
split_fuel zero zero offset writer seq time payload len cap flags h w a b = refl
split_fuel zero (suc n) offset writer seq time payload len cap flags h w a b = ground arith
split_fuel (suc m) zero offset writer seq time payload len cap flags h w a b = ground arith
split_fuel (suc m) (suc n) offset writer seq time payload len cap flags h w a b =
    elim (Bool-cases (ltb offset len)) [
      | inl e ↦
          let l = ltb→lt _ _ e in
          let next : u32 (offset + min cap (len - offset)) ≡ offset + min cap (len - offset) =
            omega arith in
          rw (e, next)
            (ap
              (λ (fs : List (List ℕ)).
                encode_data_frag writer seq time len offset (from_offset offset payload)
                  (min cap (len - offset)) flags none
                ∷ fs)
              (split_fuel m n (offset + min cap (len - offset)) writer seq time payload len cap
                flags h w (omega arith) (omega arith)))
      | inr e ↦ rw e refl
    ]

length-payload_bytes :
    (payload : Option (List ℕ)) (len : ℕ) → length (payload_bytes payload len) ≤ len
unfolding payload_bytes
length-payload_bytes none len = omega (arith, length-replicate {A = ℕ} len 0)
length-payload_bytes (some payload) len = omega (arith, length-take len payload)

length-encode_data :
    (writer : Guid) (seq time : ℕ) (payload : Option (List ℕ)) (len flags : ℕ)
    → length writer.bytes ≡ 16
    → length (encode_data writer seq time payload len flags none) ≤ 48 + len
unfolding encode_data encode_header put_u16 put_u32 trailer_bytes
length-encode_data writer seq time payload len flags h = omega (
  arith,
  length-append writer.bytes
      (put_u64 seq ++ (put_u64 time ++ (put_u32 len ++ (payload_bytes payload len ++ [])))),
  length-append (put_u64 seq) (put_u64 time ++ (put_u32 len ++ (payload_bytes payload len ++ []))),
  length-append (put_u64 time) (put_u32 len ++ (payload_bytes payload len ++ [])),
  length-append (payload_bytes payload len) [],
  length-payload_bytes payload len,
  length-put_u64 seq,
  length-put_u64 time,
)

length-encode_data_frag :
    (writer : Guid) (seq time total offset : ℕ) (payload : Option (List ℕ)) (len flags : ℕ)
    → length writer.bytes ≡ 16
    → length (encode_data_frag writer seq time total offset payload len flags none) ≤ 56 + len
unfolding encode_data_frag encode_header put_u16 put_u32 trailer_bytes
length-encode_data_frag writer seq time total offset payload len flags h =
    let body =
      put_u32 total ++ (put_u32 offset ++ (put_u32 len ++ (payload_bytes payload len ++ []))) in
    omega (
      arith,
      length-append writer.bytes (put_u64 seq ++ (put_u64 time ++ body)),
      length-append (put_u64 seq) (put_u64 time ++ body),
      length-append (put_u64 time) body,
      length-append (payload_bytes payload len) [],
      length-payload_bytes payload len,
      length-put_u64 seq,
      length-put_u64 time,
    )

split-All :
    (hi fuel offset : ℕ) (writer : Guid) (seq time : ℕ) (payload : Option (List ℕ))
    (len cap flags : ℕ)
    → length writer.bytes ≡ 16
    → 56 + cap ≤ hi
    → All (λ f. length f ≤ hi) (split fuel offset writer seq time payload len cap flags)
unfolding split
split-All hi zero offset writer seq time payload len cap flags h b = tt
split-All hi (suc fuel) offset writer seq time payload len cap flags h b =
    elim (Bool-cases (ltb offset len)) [
      | inl e ↦ rw e (
        omega (
          arith,
          length-encode_data_frag writer seq time len offset (from_offset offset payload)
              (min cap (len - offset)) flags h,
        ),
        split-All hi fuel (u32 (offset + min cap (len - offset))) writer seq time payload len cap
            flags h b,
      )
      | inr e ↦ rw e tt
    ]

-- No frame of a sample is longer than `max_payload`. The writer's GUID has 16 bytes.
pub fragment-All :
    (writer : Guid) (seq time : ℕ) (payload : Option (List ℕ)) (len max_payload flags : ℕ)
    → length writer.bytes ≡ 16
    → All (λ f. length f ≤ max_payload) (fragment writer seq time payload len max_payload flags)
unfolding fragment
fragment-All writer seq time payload len max_payload flags h =
    elim (Bool-cases (ltb 0 len && is_null payload)) [
      | inl e ↦ rw e tt
      | inr e ↦ rw e (elim (Bool-cases (leb (48 + len) max_payload)) [
        | inl f ↦
            let l = leb→le _ _ f in
            rw f (omega (arith, length-encode_data writer seq time payload len flags h), tt)
        | inr f ↦ rw f (elim (Bool-cases (leb max_payload 56)) [
          | inl g ↦ rw g tt
          | inr g ↦ rw g (
              split-All max_payload len 0 writer seq time payload len (u32 (max_payload - 12 - 44))
                flags h (ground arith))
        ])
      ])
    ]
