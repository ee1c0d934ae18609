-- ===== src/Tests/Receive.antt =====
-- The receive side of src/participant.cpp: the tracker and the reader.
use mdds.Base.{
  ◌+◌, ◌≤◌, ◌≡◌, refl, true, false, inl, inr, Bool-cases, List, [], ◌∷◌, replicate, ltb, arith,
}
use mdds.Base.Bits.{bit-zero, bit-beyond}
use mdds.Guid.{Guid, guid_eq}
use mdds.Qos.{preset_default}
use mdds.Lifespan.{lifespan_expired, trim_front}
use mdds.Tracker.{
  WriterRxState, fresh_state, has_bit, slide, contiguous, track, out_of_order, received_bits, gap,
  IsRx, seen,
}
use mdds.Tracker.Refine.{Tracks, track-Tracks}
use mdds.Tracker.Gap.{seen-gap}
use mdds.Tracker.Lost.{unseen, gap-lost, jump_overcounts}
use mdds.Reader.Exact.{ever_comes, times_queued_exact}
use mdds.Reader.Nack.{nack_state-apply_gap}
use mdds.Reader.{
  Reader, QueuedSample, rx_state, find_rx, set_rx, enqueue, account, append_sample, sweep_expired,
  nack_state, apply_gap,
}
use mdds.Reader.Dedup.{Call, enqueues, IsReader, step, queues, times_queued, times_queued_once}

abbrev writer_id : Guid
writer_id = record { bytes = replicate 16 7 }

-- Numbers 1 to 3 and 6 were received.
abbrev holed : WriterRxState
holed = record { last_seq = 3; window = 4 }

holed-IsRx : IsRx holed
holed-IsRx = record {
  last_word = omega arith;
  window_word = omega arith;
  marks = λ i e. elim (Bool-cases (ltb i 3)) [
    | inl h ↦ ground arith
    | inr h ↦ absurd (ground (arith, bit-beyond 4 3 i (omega arith)))
  ];
}

fresh-IsRx : IsRx fresh_state
fresh-IsRx = record {
  last_word = omega arith;
  window_word = omega arith;
  marks = λ i e. absurd (omega (arith, bit-zero i));
}

-- A late sample closes the hole up to the one received ahead of it.
hole_closes :
    (track (record { last_seq = 4; window = 2 }) 5).state ≡ record { last_seq = 6; window = 0 }
unfolding track contiguous slide has_bit
hole_closes = refl

track-Tracks_example : Tracks holed 4 (track holed 4)
track-Tracks_example = track-Tracks holed 4 holed-IsRx (omega arith)

seen-gap_example : seen (gap holed 4).0 4 ≡ true
unfolding seen
seen-gap_example = seen-gap holed 4 4 holed-IsRx

gap-lost_example : (gap holed 6).1 ≡ 2
unfolding unseen seen
gap-lost_example = gap-lost holed 6 holed-IsRx

jump_overcounts_example : (track holed 70).lost ≡ unseen holed 66 + 1
unfolding received_bits has_bit
jump_overcounts_example = jump_overcounts holed 70 holed-IsRx (omega arith)

abbrev new_reader : Reader
new_reader = record {
  guid = record { bytes = replicate 16 9 };
  topic = b'c' ∷ [];
  type_name = b't' ∷ [];
  qos = preset_default;
  ignore_local = false;
  matched_count = 0;
  birth_us = 0;
  queue = [];
  rx = [];
  lost_count = 0;
}

new_reader-IsReader : IsReader new_reader
unfolding rx_state find_rx
new_reader-IsReader g = fresh-IsRx

abbrev sample_calls : List Call
sample_calls =
    enqueues writer_id 2 (8 ∷ []) preset_default 1000 1001 1002
    ∷ enqueues writer_id 1 (7 ∷ []) preset_default 1000 1003 1004
    ∷ enqueues writer_id 2 (8 ∷ []) preset_default 1000 1005 1006
    ∷ []

times_queued_once_example : times_queued writer_id 2 new_reader sample_calls ≤ 1
unfolding seen rx_state find_rx
times_queued_once_example =
    times_queued_once writer_id 2 new_reader sample_calls new_reader-IsReader (omega arith)

-- Number 2 comes twice.
times_queued_exact_example : times_queued writer_id 2 new_reader sample_calls ≡ 1
unfolding ever_comes guid_eq seen rx_state find_rx
times_queued_exact_example =
    times_queued_exact writer_id 2 new_reader sample_calls new_reader-IsReader (omega arith) (
      unfold step enqueue account append_sample set_rx track out_of_order contiguous slide has_bit
        lifespan_expired trim_front sweep_expired in
      ((λ e. (omega arith, refl)), ((λ e. (omega arith, refl)), ((λ e. (omega arith, refl)), tt))))

times_queued_run : times_queued writer_id 2 new_reader sample_calls ≡ 1
unfolding times_queued queues step enqueue account append_sample rx_state find_rx set_rx guid_eq
    track out_of_order contiguous slide has_bit lifespan_expired trim_front sweep_expired
times_queued_run = refl

-- A reader that has numbers 1 to 3 and 6 is told that 4 and 5 will not come: it asks for 6, and says in the
-- same NACK that it has it.
abbrev holed_reader : Reader
holed_reader = record new_reader { rx = (writer_id, holed) ∷ [] }

holed_reader-IsReader : IsReader holed_reader
unfolding rx_state find_rx guid_eq
holed_reader-IsReader g = elim (Bool-cases (guid_eq writer_id g)) [
  | inl e ↦ rw e holed-IsRx
  | inr e ↦ rw e fresh-IsRx
]

nack_state-apply_gap_example :
    ((nack_state (apply_gap holed_reader writer_id 4 5) writer_id).0 ≡ 6)
    × (has_bit (nack_state (apply_gap holed_reader writer_id 4 5) writer_id).1 0 ≡ true)
unfolding rx_state find_rx guid_eq nack_state apply_gap set_rx gap seen
nack_state-apply_gap_example =
    nack_state-apply_gap holed_reader writer_id 4 5 0 holed_reader-IsReader (omega arith)
      (omega arith)

abbrev short_lived : QueuedSample
short_lived = record {
  payload = 7 ∷ [];
  info = record { writer_guid = writer_id; seq = 1; pub_time_ms = 1000 };
  lifespan_ms = 50;
}

abbrev holding : Reader
holding = record new_reader { queue = short_lived ∷ [] }
