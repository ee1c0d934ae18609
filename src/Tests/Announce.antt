-- ===== src/Tests/Announce.antt =====
-- src/discovery.cpp: an announcement with one node and one endpoint.
use mdds.Base.{
  true, false, ◌≡◌, refl, some, [], ◌∷◌, ◌++◌, length, length-append, replicate, arith, ℕ, List,
}
use mdds.Qos.Codec.{length-encode_qos}
use mdds.Qos.{preset_default, encode_qos}
use mdds.Discovery.{
  ParticipantSnapshot, node_bytes, endpoint_bytes, append_string, append_u16, append_u64,
  append_bytes, announce_body, encode_announce, decode_announce,
}
use mdds.Participant.{Participant, Link}
use mdds.Participant.Endpoints.{snapshot}
use mdds.Participant.Send.{handle_peer_up}
use mdds.Participant.Receive.{Readings, handle_bytes}
use mdds.Participant.Samples.{frames_to}
use mdds.Participant.Known.{known, newer}
use mdds.PeerId.{peer_transport_index}
use mdds.Participant.Greeting.{own_announce, known-handle_peer_up, Tells}
use mdds.Discovery.RoundTrip.{IsSnapshot, decode_announce-encode_announce}

abbrev talker : ParticipantSnapshot
talker = record {
  participant_guid = record { bytes = replicate 16 1 };
  nodes = record { ns = b'/' ∷ []; name = b't' ∷ [] } ∷ [];
  endpoints =
      record {
        guid = record { bytes = replicate 16 2 };
        kind = 1;
        topic = b'c' ∷ [];
        type_name = b's' ∷ [];
        qos = preset_default;
        birth_us = 1_000_000;
      }
      ∷ [];
}

talker-IsSnapshot : IsSnapshot talker
talker-IsSnapshot = record {
  guid_size = refl;
  node_count = omega arith;
  endpoint_count = omega arith;
  all_nodes = ((omega arith, omega arith), tt);
  all_endpoints = (
    record {
      guid_size = refl;
      kind_byte = omega arith;
      topic_short = omega arith;
      type_name_short = omega arith;
      profile = omega arith;
      birth_word = omega arith;
    },
    tt,
  );
}

body_size : length (announce_body talker 7) ≡ 97
unfolding announce_body node_bytes endpoint_bytes append_string append_u16 append_u64 append_bytes
body_size = omega (
  arith,
  length-encode_qos preset_default,
  length-append (encode_qos preset_default) (append_u64 1_000_000 ++ []),
)

decode_announce-encode_announce_example :
    decode_announce (encode_announce talker 7 ++ (9 ∷ [])) ≡ some (talker, 7)
decode_announce-encode_announce_example =
    decode_announce-encode_announce talker 7 (9 ∷ []) talker-IsSnapshot (omega arith)
      (omega (arith, body_size))

-- The participant whose snapshot this is, and one that knows nothing yet.
abbrev speaker : Participant
speaker = record {
  prefix = replicate 12 1;
  guid = record { bytes = replicate 16 1 };
  entity_serial = 1;
  writers =
      (
        80,
        record {
          guid = record { bytes = replicate 16 2 };
          topic = b'c' ∷ [];
          type_name = b's' ∷ [];
          qos = preset_default;
          seq = 0;
          matched_count = 0;
          birth_us = 1_000_000;
          history = [];
        },
      )
      ∷ [];
  readers = [];
  nodes = talker.nodes;
  peers = [];
  remote = [];
  writer_last_seen = [];
  reassemblers = [];
  announce_seq = 7;
}

abbrev listener : Participant
listener = record speaker { guid = record { bytes = replicate 16 4 }; writers = []; nodes = [] }

abbrev open_link : Link
open_link = record {
  hook = λ bytes. false;
  transports = record { send = λ peer bytes. true; max_payload = λ peer. 3800 } ∷ [];
}

abbrev at_nine : Readings
at_nine = record {
  steady_ms = 9;
  gathered_at = 9;
  stored_at = 9;
  replay_at = 9;
  enqueue = λ h. (9, 9);
}

known-handle_peer_up_example :
    (bytes : List ℕ) × (frames_to 5 (handle_peer_up speaker open_link 5).1 ≡ bytes ∷ [])
    × (known (handle_bytes listener open_link 2 bytes at_nine).0 speaker.guid
        ≡ newer (known listener speaker.guid) (own_announce speaker 2 at_nine))
    × Tells speaker (own_announce speaker 2 at_nine).snap
unfolding snapshot
known-handle_peer_up_example =
    known-handle_peer_up speaker talker-IsSnapshot (omega arith) (omega (arith, body_size)) listener
      open_link 2 at_nine open_link 5
      (record { send = λ peer bytes. true; max_payload = λ peer. 3800 }) (λ bytes. refl)
      (unfold peer_transport_index in refl)
