-- ===== src/Frame/Trailer.antt =====
-- The TLV trailer of src/frame.cpp: its loop ends, skips what it does not know, and reads back what
-- encode_trailer wrote.
use mdds.Base.{
  ℕ, zero, suc, ◌+◌, ◌-◌, ◌<◌, ◌≡◌, ◌≢◌, refl, ap, sym, ◌∙◌, Bool, true, Option, none, some, List,
  [], ◌∷◌, ◌++◌, length, drop, take, length-append, length-drop, drop-append, drop-drop,
  take-append, arith, inl, inr, Bool-cases, ltb, lt→ltb, if◌then◌else◌,
}
use mdds.Wire.{IsU64, put_u64, put_u32}
use mdds.Wire.Words.{get_u64-put_u64}
use mdds.Guid.{Guid}
use mdds.Frame.{
  DataTrailer, empty_trailer, parse_entry, parse_trailer, encode_trailer, body_trailer,
  trailer_bytes, tlv_origin_guid, tlv_origin_seq,
}
use mdds.Frame.Header.{get_guid-append}

-- More rounds than bytes change nothing: the loop ends by its own test.
pub parse_trailer_fuel :
    (m n : ℕ) (buf : List ℕ) (out : DataTrailer)
    → length buf < m
    → length buf < n
    → parse_trailer m buf out ≡ parse_trailer n buf out
unfolding parse_trailer
parse_trailer_fuel zero n buf out p q = absurd (omega arith)
parse_trailer_fuel (suc m) zero buf out p q = absurd (omega arith)
parse_trailer_fuel (suc m) (suc n) [] out p q = refl
parse_trailer_fuel (suc m) (suc n) (t ∷ []) out p q = refl
parse_trailer_fuel (suc m) (suc n) (t ∷ l ∷ value) out p q = ground (
  arith,
  parse_trailer_fuel m n (drop l value) (parse_entry t l value out)
      (omega (arith, length-drop l value)) (omega (arith, length-drop l value)),
)

-- The trailer that a body's tail gives.
abbrev pub parsed : List ℕ → DataTrailer → DataTrailer × Bool
parsed buf out = parse_trailer (suc (length buf)) buf out

-- One whole entry is read, and the loop goes on behind it.
pub parsed-entry :
    (type : ℕ) (value rest : List ℕ) (out : DataTrailer)
    → parsed (type ∷ length value ∷ (value ++ rest)) out
      ≡ parsed rest (parse_entry type (length value) (value ++ rest) out)
unfolding parse_trailer
parsed-entry type value rest out = ground (
  arith,
  length-append value rest,
  drop-append (length value) value rest refl,
  parse_trailer_fuel (suc (suc (length (value ++ rest)))) (suc (length rest)) rest
      (parse_entry type (length value) (value ++ rest) out)
      (omega (arith, length-append value rest)) (omega arith),
)

-- An entry of an unknown type is skipped.
pub parsed_unknown :
    (type : ℕ) (value rest : List ℕ) (out : DataTrailer)
    → type ≢ tlv_origin_guid
    → type ≢ tlv_origin_seq
    → parsed (type ∷ length value ∷ (value ++ rest)) out ≡ parsed rest out
unfolding parse_entry
parsed_unknown type value rest out h k =
    parsed-entry type value rest out ∙ ap (parsed rest) (ground arith)

-- What a trailer becomes on the wire: without an origin it is not sent.
unfoldable pub carried : Option DataTrailer → DataTrailer
carried none = empty_trailer
carried (some t) = if t.has_origin then t else empty_trailer

-- The two words of a trailer are in range.
abbrev pub IsTrailer : Option DataTrailer → Type 0
IsTrailer none = Unit {0}
IsTrailer (some t) = (length t.origin_guid.bytes ≡ 16) × IsU64 t.origin_seq

abbrev with_guid : Guid → ℕ → DataTrailer
with_guid g s = record { has_origin = true; origin_guid = g; origin_seq = s }

guid_entry :
    (g : Guid) (rest : List ℕ)
    → length g.bytes ≡ 16
    → parsed (tlv_origin_guid ∷ 16 ∷ (g.bytes ++ rest)) empty_trailer ≡ parsed rest (with_guid g 0)
unfolding parse_entry
guid_entry g rest h =
    ap (λ (n : ℕ). parsed (tlv_origin_guid ∷ n ∷ (g.bytes ++ rest)) empty_trailer) (sym h)
    ∙ parsed-entry tlv_origin_guid g.bytes rest empty_trailer
    ∙ ap (parsed rest) (rw h (ap (λ (k : Guid). with_guid k 0) (get_guid-append g rest h)))

seq_entry :
    (g : Guid) (s : ℕ)
    → IsU64 s
    → parsed (tlv_origin_seq ∷ 8 ∷ put_u64 s) (with_guid g 0) ≡ (with_guid g s, true)
unfolding parse_entry put_u64 put_u32
seq_entry g s h =
    parsed-entry tlv_origin_seq (put_u64 s) [] (with_guid g 0)
    ∙ rw (get_u64-put_u64 s [] h) (unfold parse_trailer in refl)

-- The receiver reads back the trailer that was sent, cleanly.
pub parsed-trailer_bytes :
    (t : Option DataTrailer)
    → IsTrailer t
    → parsed (trailer_bytes t) empty_trailer ≡ (carried t, true)
unfolding trailer_bytes encode_trailer carried
parsed-trailer_bytes none h = unfold parse_trailer in refl
parsed-trailer_bytes (some t) h = elim (Bool-cases t.has_origin) [
  | inl e ↦ rw e (guid_entry t.origin_guid _ h.0 ∙ seq_entry t.origin_guid t.origin_seq h.1)
  | inr e ↦ rw e (unfold parse_trailer in refl)
]

-- The trailer of a body whose payload of `n` bytes lies behind `fixed` bytes.
pub body_trailer-tail :
    (fixed n : ℕ) (body payload tail rest : List ℕ)
    → drop fixed body ≡ payload ++ (tail ++ rest)
    → length payload ≡ n
    → body_trailer body (fixed + n + length tail) (fixed + n) ≡ (parsed tail empty_trailer).0
unfolding body_trailer
body_trailer-tail fixed n body payload tail rest e h = rw tail_bytes (trim tail)
  where
    behind : drop (fixed + n) body ≡ tail ++ rest
    behind = sym (drop-drop fixed n body) ∙ ap (drop n) e ∙ drop-append n payload (tail ++ rest) h

    tail_bytes : take (fixed + n + length tail - (fixed + n)) (drop (fixed + n) body) ≡ tail
    tail_bytes = rw behind (take-append _ tail rest (omega arith))

    trim :
        (tail : List ℕ)
        → (if ltb (fixed + n) (fixed + n + length tail)
            then (parsed tail empty_trailer).0
            else empty_trailer)
          ≡ (parsed tail empty_trailer).0
    trim [] = unfold parse_trailer in ground arith
    trim (x ∷ xs) = rw (lt→ltb (fixed + n) (fixed + n + suc (length xs)) (omega arith))
