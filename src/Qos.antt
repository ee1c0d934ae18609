-- ===== src/Qos.antt =====
-- src/qos.cpp and include/mdds/qos.hpp: the QoS profile, its presets, its 32-byte wire form and the
-- compatibility rules. An enum field is its number, since `decode_qos` casts any byte to the enum.
pub mod Codec
pub mod Matching
use mdds.Base.{
  ℕ, ◌+◌, ◌%◌, ◌^◌, ◌≡◌, Bool, true, false, not, ◌&&◌, ◌||◌, Option, none, some, List, [], ◌∷◌,
  ◌++◌, length, drop, ltb, ◌==◌, if◌then◌else◌,
}
use mdds.Wire.{u8, IsU8, IsU32, IsU64, byte_at, put_u32, put_u64, get_u32, get_u64}

abbrev pub best_effort : ℕ
best_effort = 0

abbrev pub reliable : ℕ
reliable = 1

abbrev pub volatile : ℕ
volatile = 0

abbrev pub transient_local : ℕ
transient_local = 1

abbrev pub keep_last : ℕ
keep_last = 0

abbrev pub keep_all : ℕ
keep_all = 1

abbrev pub automatic : ℕ
automatic = 0

abbrev pub manual_by_topic : ℕ
manual_by_topic = 1

pub record QosProfile : Type 0 where
  pub reliability : ℕ
  pub durability : ℕ
  pub history : ℕ
  pub liveliness : ℕ
  pub depth : ℕ
  pub deadline_ms : ℕ
  pub lifespan_ms : ℕ
  pub liveliness_lease_ms : ℕ

-- The widths of the fields.
pub record IsProfile (q : QosProfile) : Type 0 where
  pub reliability_byte : IsU8 q.reliability
  pub durability_byte : IsU8 q.durability
  pub history_byte : IsU8 q.history
  pub liveliness_byte : IsU8 q.liveliness
  pub depth_word : IsU32 q.depth
  pub deadline_word : IsU64 q.deadline_ms
  pub lifespan_word : IsU64 q.lifespan_ms
  pub lease_word : IsU64 q.liveliness_lease_ms

abbrev pub preset_default : QosProfile
preset_default = record {
  reliability = reliable;
  durability = volatile;
  history = keep_last;
  liveliness = automatic;
  depth = 10;
  deadline_ms = 0;
  lifespan_ms = 0;
  liveliness_lease_ms = 0;
}

abbrev pub preset_best_effort : QosProfile
preset_best_effort = record preset_default { reliability = best_effort; depth = 1 }

abbrev pub preset_sensor_data : QosProfile
preset_sensor_data = record preset_default {
  reliability = best_effort;
  depth = 5;
  deadline_ms = 100;
}

abbrev pub preset_transient_local : QosProfile
preset_transient_local = record preset_default {
  durability = transient_local;
  reliability = reliable;
}

abbrev pub preset_bulk_data : QosProfile
preset_bulk_data = record preset_default { history = keep_all; reliability = reliable }

unfoldable pub qos_valid : QosProfile → Bool
qos_valid q =
    if ltb reliable q.reliability
      || (ltb transient_local q.durability
          || (ltb keep_all q.history || ltb manual_by_topic q.liveliness))
    then false
    else if q.history == keep_last && q.depth == 0
    then false
    else true

pub encode_qos : QosProfile → List ℕ
encode_qos q =
    u8 q.reliability ∷ u8 q.durability ∷ u8 q.history ∷ u8 q.liveliness ∷ put_u32 q.depth
    ++ (put_u64 q.deadline_ms ++ (put_u64 q.lifespan_ms ++ put_u64 q.liveliness_lease_ms))

-- `none` is the `false` of the source.
pub decode_qos : List ℕ → Option QosProfile
decode_qos buf =
    if ltb (length buf) 32
    then none
    else some (record {
      reliability = byte_at buf 0;
      durability = byte_at buf 1;
      history = byte_at buf 2;
      liveliness = byte_at buf 3;
      depth = get_u32 (drop 4 buf);
      deadline_ms = get_u64 (drop 8 buf);
      lifespan_ms = get_u64 (drop 16 buf);
      liveliness_lease_ms = get_u64 (drop 24 buf);
    })

-- The writer's strict view of a match.
unfoldable pub qos_compatible : QosProfile → QosProfile → Bool
qos_compatible requested offered =
    if requested.reliability == reliable && offered.reliability == best_effort
    then false
    else if requested.durability == transient_local && offered.durability == volatile
    then false
    else true

-- The reader's view, lenient on reliability.
unfoldable pub qos_accepted_by_reader : QosProfile → QosProfile → Bool
qos_accepted_by_reader reader_qos writer_qos =
    if reader_qos.durability == transient_local && writer_qos.durability == volatile
    then false
    else true
