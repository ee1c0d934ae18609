-- ===== src/Fragment.antt =====
-- src/fragment.cpp and include/mdds/fragment.hpp: a payload split into frames, and put together again
-- from its fragments.
pub mod Intervals
pub mod Reassembly
pub mod Delivery
pub mod InOrder
pub mod Split
use mdds.Base.{
  ℕ, zero, suc, ◌+◌, ◌-◌, min, max, Bool, true, false, not, ◌&&◌, ◌||◌, Option, none, some, List,
  [], ◌∷◌, ◌++◌, length, take, drop, replicate, ltb, leb, ◌==◌, if◌then◌else◌,
}
use mdds.Wire.{u32}
use mdds.Guid.{Guid, guid_eq}
use mdds.Frame.{
  header_size, data_body_fixed_size, data_frag_body_fixed_size, encode_data, DataFragBody,
}
use mdds.Frame.Frag.{encode_data_frag}

-- `payload + offset`
abbrev pub from_offset : ℕ → Option (List ℕ) → Option (List ℕ)
from_offset offset none = none
from_offset offset (some payload) = some (drop offset payload)

-- The loop of `fragment`; the fuel is the number of rounds allowed.
unfoldable pub split : ℕ → ℕ → Guid → ℕ → ℕ → Option (List ℕ) → ℕ → ℕ → ℕ → List (List ℕ)
split zero offset writer seq pub_time_ms payload payload_len frag_capacity flags = []
split (suc fuel) offset writer seq pub_time_ms payload payload_len frag_capacity flags =
    let chunk = min frag_capacity (payload_len - offset) in
    let rest =
      split fuel (u32 (offset + chunk)) writer seq pub_time_ms payload payload_len frag_capacity
        flags in
    if ltb offset payload_len
    then encode_data_frag writer seq pub_time_ms payload_len offset (from_offset offset payload)
        chunk flags none
      ∷ rest
    else []

abbrev pub is_null : Option (List ℕ) → Bool
is_null none = true
is_null (some payload) = false

-- A round sends one byte at least, so one round for each byte is enough.
unfoldable pub fragment : Guid → ℕ → ℕ → Option (List ℕ) → ℕ → ℕ → ℕ → List (List ℕ)
fragment writer seq pub_time_ms payload payload_len max_payload flags =
    if ltb 0 payload_len && is_null payload
    then []
    else if leb (header_size + data_body_fixed_size + payload_len) max_payload
    then encode_data writer seq pub_time_ms payload payload_len flags none ∷ []
    else if leb max_payload (header_size + data_frag_body_fixed_size)
    then []
    else split payload_len 0 writer seq pub_time_ms payload payload_len
        (u32 (max_payload - header_size - data_frag_body_fixed_size)) flags

pub record Partial : Type 0 where
  pub total_size : ℕ
  pub buffer : List ℕ
  pub intervals : List (ℕ × ℕ)
  pub last_update : ℕ

-- `partials` is the map from a writer and a sequence number.
pub record Reassembler : Type 0 where
  pub partials : List ((Guid × ℕ) × Partial)
  pub timeout : ℕ

unfoldable pub key_eq : Guid × ℕ → Guid × ℕ → Bool
key_eq (g, s) (h, t) = guid_eq g h && s == t

unfoldable pub find_partial : Guid × ℕ → List ((Guid × ℕ) × Partial) → Option Partial
find_partial key [] = none
find_partial key ((k, p) ∷ rest) = if key_eq k key then some p else find_partial key rest

unfoldable pub erase_partial : Guid × ℕ → List ((Guid × ℕ) × Partial) → List ((Guid × ℕ) × Partial)
erase_partial key [] = []
erase_partial key ((k, p) ∷ rest) = if key_eq k key then rest else (k, p) ∷ erase_partial key rest

unfoldable pub set_partial :
    Guid × ℕ → Partial → List ((Guid × ℕ) × Partial) → List ((Guid × ℕ) × Partial)
set_partial key p [] = (key, p) ∷ []
set_partial key p ((k, old) ∷ rest) =
    if key_eq k key then (key, p) ∷ rest else (k, old) ∷ set_partial key p rest

-- The merge of [begin, end) into the interval list.
unfoldable pub merge : ℕ → ℕ → List (ℕ × ℕ) → List (ℕ × ℕ)
merge begin end [] = (begin, end) ∷ []
merge begin end ((first, second) ∷ rest) =
    let apart = merge begin end rest in
    let passed = merge first second rest in
    let joined = merge (min begin first) (max end second) rest in
    if ltb second begin
    then (first, second) ∷ apart
    else if ltb end first
    then (begin, end) ∷ passed
    else joined

-- The memcpy into the buffer at `offset`; a null pointer comes with no bytes.
unfoldable pub write_at : ℕ → List ℕ → List ℕ → List ℕ
write_at offset chunk buffer = take offset buffer ++ (chunk ++ drop (offset + length chunk) buffer)

abbrev pub chunk_bytes : Option (List ℕ) → ℕ → List ℕ
chunk_bytes none data_len = []
chunk_bytes (some payload) data_len = take data_len payload

-- What a fragment with the partial's `total_size` does to it.
unfoldable pub fill : ℕ → Option (List ℕ) → ℕ → ℕ → Partial → Partial
fill frag_offset payload data_len now p = record p {
  buffer = write_at frag_offset (chunk_bytes payload data_len) p.buffer;
  intervals = merge frag_offset (u32 (frag_offset + data_len)) p.intervals;
  last_update = now;
}

-- The list is the one interval [0, total).
unfoldable pub is_exactly : ℕ → List (ℕ × ℕ) → Bool
is_exactly total [] = false
is_exactly total ((begin, end) ∷ []) = begin == 0 && end == total
is_exactly total (_ ∷ _ ∷ _) = false

unfoldable pub is_whole : Partial → Bool
is_whole p = is_exactly p.total_size p.intervals

-- The clock reading of a new partial is overwritten before the call ends.
abbrev pub or_zeroed : ℕ → ℕ → Option Partial → Partial
or_zeroed total_size now none = record {
  total_size = total_size;
  buffer = replicate total_size 0;
  intervals = [];
  last_update = now;
}
or_zeroed total_size now (some p) = p

-- `partials_.find(key)`, and the zeroed partial that is put in where there is none.
unfoldable pub partial_of : Reassembler → Guid × ℕ → ℕ → ℕ → Partial
partial_of r key total_size now = or_zeroed total_size now (find_partial key r.partials)

unfoldable pub store : Reassembler → Guid × ℕ → Partial → Reassembler × Option (List ℕ)
store r key p =
    if is_whole p
    then (record r { partials = erase_partial key r.partials }, some p.buffer)
    else (record r { partials = set_partial key p r.partials }, none)

-- `none` is the `false` of the source. The sum of the range test is a uint32_t.
unfoldable pub add_fragment :
    Reassembler → Guid → ℕ → ℕ → ℕ → Option (List ℕ) → ℕ → ℕ → Reassembler × Option (List ℕ)
add_fragment r writer seq total_size frag_offset payload data_len now =
    let p = partial_of r (writer, seq) total_size now in
    if total_size == 0 || ltb total_size (u32 (frag_offset + data_len))
    then (r, none)
    else if ltb 0 data_len && is_null payload
    then (r, none)
    else if not (p.total_size == total_size)
    then (r, none)
    else store r (writer, seq) (fill frag_offset payload data_len now p)

-- The overload that takes a decoded frame.
unfoldable pub add_fragment_body : Reassembler → DataFragBody → ℕ → Reassembler × Option (List ℕ)
add_fragment_body r frag now =
    add_fragment r frag.writer frag.seq frag.total_size frag.frag_offset (some frag.payload)
      frag.payload_len now

-- The partials that are kept, and how many are dropped. A reading before `last_update` is no age.
unfoldable pub sweep_partials :
    ℕ → ℕ → List ((Guid × ℕ) × Partial) → List ((Guid × ℕ) × Partial) × ℕ
sweep_partials timeout now [] = ([], 0)
sweep_partials timeout now ((k, p) ∷ rest) =
    let (kept, dropped) = sweep_partials timeout now rest in
    if ltb timeout (now - p.last_update) then (kept, suc dropped) else ((k, p) ∷ kept, dropped)

unfoldable pub drop_writer_partials :
    Guid → List ((Guid × ℕ) × Partial) → List ((Guid × ℕ) × Partial)
drop_writer_partials writer [] = []
drop_writer_partials writer ((k, p) ∷ rest) =
    if guid_eq k.0 writer
    then drop_writer_partials writer rest
    else (k, p) ∷ drop_writer_partials writer rest
