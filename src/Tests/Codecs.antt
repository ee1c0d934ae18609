-- ===== src/Tests/Codecs.antt =====
-- The codecs of src/frame.cpp and src/qos.cpp, and the GUIDs of include/mdds/guid.hpp.
use mdds.Base.{ℕ, ◌%◌, ◌^◌, ◌≡◌, ◌↔◌, refl, true, none, some, List, [], ◌∷◌, ◌++◌, replicate, arith}
use mdds.Wire.{put_u32, put_u64}
use mdds.Guid.{Guid, writer, make_guid}
use mdds.Guid.Identity.{make_guid_eq_iff}
use mdds.Qos.{
  preset_default, preset_best_effort, preset_sensor_data, preset_transient_local, preset_bulk_data,
  qos_valid,
}
use mdds.Frame.{
  DataTrailer, empty_trailer, data_type, encode_header, encode_data, decode_data, parse_trailer,
  trailer_bytes, encode_trailer,
}
use mdds.Frame.Frag.{encode_data_frag, decode_data_frag}
use mdds.Frame.Control.{encode_acknack, decode_acknack}
use mdds.Frame.Trailer.{carried, parse_trailer_fuel}
use mdds.Frame.Bodies.{data_fields}
use mdds.Frame.RoundTrip.{
  decode_data_any_tail, decode_data-encode_data, decode_data_frag-encode_data_frag,
}
use mdds.Frame.ControlRoundTrip.{decode_acknack-encode_acknack}

abbrev writer_id : Guid
writer_id = record { bytes = replicate 16 7 }

abbrev reader_id : Guid
reader_id = record { bytes = replicate 16 9 }

abbrev origin : DataTrailer
origin = record { has_origin = true; origin_guid = reader_id; origin_seq = 42 }

abbrev three_bytes : List ℕ
three_bytes = 1 ∷ 2 ∷ 3 ∷ []

default_valid : qos_valid preset_default ≡ true
unfolding qos_valid
default_valid = refl

presets_valid :
    (qos_valid preset_best_effort ≡ true)
    × (qos_valid preset_sensor_data ≡ true)
    × (qos_valid preset_transient_local ≡ true)
    × (qos_valid preset_bulk_data ≡ true)
unfolding qos_valid
presets_valid = (refl, refl, refl, refl)

make_guid_eq_iff_example :
    (make_guid (replicate 12 5) writer 1 ≡ make_guid (replicate 12 5) writer 16777217) ↔ (
      (◌≡◌ {A = List ℕ} (replicate 12 5) (replicate 12 5))
      × (writer ≡ writer)
      × ((1 % 2 ^ 24) ≡ (16777217 % 2 ^ 24)))
make_guid_eq_iff_example =
    make_guid_eq_iff (replicate 12 5) (replicate 12 5) writer writer 1 16777217 refl refl

decode_data-encode_data_example :
    decode_data (encode_data writer_id 5 1000 (some three_bytes) 3 1 (some origin) ++ (255 ∷ []))
    ≡ some (record {
      writer = writer_id;
      seq = 5;
      pub_time_ms = 1000;
      payload = three_bytes;
      payload_len = 3;
      trailer = origin;
    })
unfolding carried
decode_data-encode_data_example =
    decode_data-encode_data writer_id 5 1000 1 three_bytes (some origin) (255 ∷ []) refl
      (omega arith) (omega arith) (omega arith) (refl, omega arith)
      (unfold trailer_bytes encode_trailer put_u64 put_u32 in omega arith)

decode_data_any_tail_example :
    decode_data
      (encode_header data_type 0 41 ++ data_fields writer_id 5 1000 three_bytes (1 ∷ 16 ∷ []))
    ≡ some (record {
      writer = writer_id;
      seq = 5;
      pub_time_ms = 1000;
      payload = three_bytes;
      payload_len = 3;
      trailer = empty_trailer;
    })
unfolding parse_trailer
decode_data_any_tail_example =
    decode_data_any_tail writer_id 5 1000 0 three_bytes (1 ∷ 16 ∷ []) [] refl (omega arith)
      (omega arith) (omega arith) (omega arith)

decode_data_frag-encode_data_frag_example :
    decode_data_frag (encode_data_frag writer_id 5 1000 10 9 (some three_bytes) 3 1 none ++ [])
    ≡ none
decode_data_frag-encode_data_frag_example =
    decode_data_frag-encode_data_frag writer_id 5 1000 10 9 1 three_bytes none [] refl (omega arith)
      (omega arith) (omega arith) (omega arith) (omega arith) tt
      (unfold trailer_bytes in omega arith)

decode_acknack-encode_acknack_example :
    decode_acknack (encode_acknack reader_id writer_id 4 5 ++ [])
    ≡ some (record { reader = reader_id; writer = writer_id; base_seq = 4; bitmap = 5 })
decode_acknack-encode_acknack_example =
    decode_acknack-encode_acknack reader_id writer_id 4 5 [] refl refl (omega arith) (omega arith)

parse_trailer_fuel_example :
    parse_trailer 5 (9 ∷ 1 ∷ 7 ∷ []) empty_trailer ≡ parse_trailer 4 (9 ∷ 1 ∷ 7 ∷ []) empty_trailer
parse_trailer_fuel_example =
    parse_trailer_fuel 5 4 (9 ∷ 1 ∷ 7 ∷ []) empty_trailer (omega arith) (omega arith)
