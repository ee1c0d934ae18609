-- ===== src/Tests/Participants.antt =====
-- A participant with one matched reader, in src/participant.cpp.
use mdds.Base.{
  ◌&&◌, ℕ, ◌+◌, ◌≡◌, ◌⊎◌, refl, true, false, List, [], ◌∷◌, All, replicate, inl, inr, ltb,
  Bool-cases, arith,
}
use mdds.Base.Bits.{bit-beyond}
use mdds.Guid.{Guid}
use mdds.Qos.{preset_default}
use mdds.Discovery.{ParticipantSnapshot}
use mdds.Fragment.{find_partial}
use mdds.Tracker.{WriterRxState, IsRx, seen}
use mdds.Writer.{CachedSample, Writer}
use mdds.Writer.Acknack.{Request, answer}
use mdds.Writer.Acknack.Heals.{take_in, nack_round_heals}
use mdds.OrderedMap.{find, has_id}
use mdds.Participant.{Participant, Link, Transport, send_sample_to}
use mdds.Participant.Receive.{Readings, handle_peer_down}
use mdds.PeerId.{peer_transport_index}
use mdds.Participant.Endpoints.{send_targets}
use mdds.Participant.Transfer.{receive_all, Delivers}
use mdds.Participant.Samples.{frames_to, sample_transferred}
use mdds.Participant.Targets.{send_targets-handle_peer_down}
use mdds.Participant.Lifecycle.{HasIds}
use mdds.Participant.Lifecycle.Acts.{
  Act, make_writer, make_reader, drop_writer, act_all, HasIds-act_all,
}
use mdds.Participant.Known.{Announce, known, is_from}
use mdds.Participant.Announces.{hear_all, AtLeast, IsAnnounced, known-hear_all}

abbrev remote_writer : Guid
remote_writer = record { bytes = replicate 16 7 }

abbrev remote_guid : Guid
remote_guid = record { bytes = replicate 16 8 }

abbrev local_guid : Guid
local_guid = record { bytes = replicate 16 1 }

abbrev remote_snap : ParticipantSnapshot
remote_snap = record {
  participant_guid = remote_guid;
  nodes = [];
  endpoints =
      record {
        guid = remote_writer;
        kind = 1;
        topic = 116 ∷ [];
        type_name = 84 ∷ [];
        qos = preset_default;
        birth_us = 3;
      }
      ∷ [];
}

abbrev local : Participant
local = record {
  prefix = replicate 12 1;
  guid = local_guid;
  entity_serial = 1;
  writers = [];
  readers =
      (
        40,
        record {
          guid = local_guid;
          topic = 116 ∷ [];
          type_name = 84 ∷ [];
          qos = preset_default;
          ignore_local = false;
          matched_count = 1;
          birth_us = 5;
          queue = [];
          rx = [];
          lost_count = 0;
        },
      )
      ∷ [];
  nodes = [];
  peers = 9 ∷ [];
  remote =
      (remote_guid, record { peer = 9; announce_seq = 4; snap = remote_snap; last_announce_ms = 6 })
      ∷ [];
  writer_last_seen = [];
  reassemblers = [];
  announce_seq = 2;
}

abbrev empty_local : Participant
empty_local = record local { readers = []; remote = [] }

abbrev no_link : Link
no_link = record { hook = λ bytes. false; transports = [] }

abbrev readings : ℕ → Readings
readings n = record {
  steady_ms = n;
  gathered_at = n;
  stored_at = n;
  replay_at = n;
  enqueue = λ h. (n, n);
}

abbrev sample : List ℕ
sample = replicate 40 3

-- Frames of 66 bytes carry ten bytes of the sample each.
abbrev narrow : Transport
narrow = record { send = λ peer bytes. true; max_payload = λ peer. 66 }

abbrev narrow_link : Link
narrow_link = record { hook = λ bytes. false; transports = narrow ∷ [] }

sample_transferred_example :
    Delivers no_link 9 readings remote_writer 1 20 0 sample refl
      (omega arith)
      (omega arith)
      (omega arith)
      (omega arith)
      local
      (receive_all local no_link 9 readings 0
        (frames_to 3 (send_sample_to narrow_link 3 remote_writer 1 20 sample 0).1))
sample_transferred_example =
    sample_transferred narrow_link 3 narrow (λ bytes. refl) (unfold peer_transport_index in refl)
      remote_writer 1 20 sample 0 refl (omega arith) (omega arith) (omega arith) (omega arith) local
      no_link 9 readings 0 (omega arith) (unfold find_partial find in refl)

abbrev acts : List Act
acts =
    make_writer 50 (116 ∷ []) (84 ∷ []) preset_default 7
    ∷ make_reader 60 (116 ∷ []) (84 ∷ []) preset_default false 8 8 (λ h seq. (8, 8))
    ∷ drop_writer 50
    ∷ make_writer 30 (116 ∷ []) (84 ∷ []) preset_default 9
    ∷ []

local-HasIds : HasIds empty_local
local-HasIds = record {
  prefix_size = refl;
  writers_made = tt;
  readers_made = tt;
  writers_apart = tt;
  readers_apart = tt;
}

HasIds-act_all_example : HasIds (act_all empty_local acts)
HasIds-act_all_example = HasIds-act_all empty_local acts local-HasIds (omega arith)

abbrev publisher : Writer
publisher = record {
  guid = remote_writer;
  topic = 116 ∷ [];
  type_name = 84 ∷ [];
  qos = preset_default;
  seq = 0;
  matched_count = 0;
  birth_us = 0;
  history = [];
}

send_targets-handle_peer_down_example :
    has_id 9 (send_targets publisher (handle_peer_down local 9).0.remote)
    ≡ (has_id 9 (send_targets publisher local.remote) && false)
send_targets-handle_peer_down_example = send_targets-handle_peer_down local 9 publisher 9

abbrev old_announce : Announce
old_announce = record {
  peer = 9;
  snap = remote_snap;
  seq = 3;
  heard_at = 7;
  stored_at = 7;
  replay_at = 7;
}

abbrev new_announce : Announce
new_announce = record {
  peer = 12;
  snap = record remote_snap { endpoints = [] };
  seq = 8;
  heard_at = 8;
  stored_at = 8;
  replay_at = 8;
}

abbrev announces : List Announce
announces = new_announce ∷ old_announce ∷ []

known-hear_all_example :
    All
      (λ a.
        is_from remote_guid a ≡ true
        → AtLeast a.seq (known (hear_all local no_link announces) remote_guid))
      announces
    × ((known (hear_all local no_link announces) remote_guid ≡ known local remote_guid)
        ⊎ IsAnnounced remote_guid announces (known (hear_all local no_link announces) remote_guid))
known-hear_all_example = known-hear_all local no_link announces remote_guid

-- The number 2 was evicted, and 4 was lost.
abbrev behind : WriterRxState
behind = record { last_seq = 1; window = 2 }

behind-IsRx : IsRx behind
behind-IsRx = record {
  last_word = omega arith;
  window_word = omega arith;
  marks = λ i e. elim (Bool-cases (ltb i 2)) [
    | inl h ↦ ground arith
    | inr h ↦ absurd (ground (arith, bit-beyond 2 2 i (omega arith)))
  ];
}

abbrev kept : List CachedSample
kept =
    record { seq = 3; pub_time_ms = 0; pub_time_us = 10; payload = [] }
    ∷ record { seq = 4; pub_time_ms = 0; pub_time_us = 12; payload = 1 ∷ [] }
    ∷ []

abbrev asked : Request
asked = record {
  history = kept;
  base_seq = 2;
  bitmap = 2;
  clamp_pre_join = false;
  reader_birth_us = 0;
}

nack_round_heals_example : seen (take_in behind (answer asked)) (2 + 2) ≡ true
nack_round_heals_example =
    nack_round_heals behind asked 4 2 behind-IsRx (refl, (refl, tt)) (λ e. cc) refl refl
      (omega arith) (omega arith) (omega arith)
