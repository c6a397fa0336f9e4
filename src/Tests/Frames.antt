-- ===== src/Tests/Frames.antt =====
-- The theorems on the broadcasts of dirty frames, and on the frames of snapshots, at concrete inputs.
use ashiato.Base.{
  ℕ, ◌<◌, ◌≡◌, true, false, List, [], ◌∷◌, some, refl, arith, ◌++◌, length, if◌then◌else◌, ok, err,
  runtime_error, ◌==◌,
}
use ashiato.BitBuffer.{BitBuffer, byte_size, clear_unused_tail_bits, reset_read}
use ashiato.Snapshots.Frames.{write_frame, read_frame}
use ashiato.Snapshots.Frames.RoundTrip.{write_frame-read_frame}
use ashiato.Snapshots.Broadcast.{
  State, Event, subscribed, unsubscribed, begun, finished, no_consumers, history, reset, happen,
  subscribe, begin_broadcast,
}
use ashiato.Snapshots.Broadcast.Walk.{Kept, ended_by, stays, history-Kept}
use ashiato.Snapshots.Broadcast.Entries.{listening}
use ashiato.Snapshots.Broadcast.Silence.{reset-listening}

-- Two listeners, in a broadcast.
abbrev walking : State ℕ
walking = record {
  next_id = 3;
  consumers = record { id = 1; listener = some 70 } ∷ record { id = 2; listener = some 71 } ∷ [];
  pending_consumers = [];
  broadcast_depth = 1;
}

-- A listener subscribes another, ends both, and broadcasts again.
abbrev busy : List (Event ℕ)
busy = subscribed 72 ∷ unsubscribed 1 ∷ begun ∷ unsubscribed 3 ∷ finished ∷ []

busy-stays : stays 1 busy ≡ true
unfolding stays
busy-stays = refl

history-Kept_example : Kept (ended_by busy) walking.consumers (history busy walking).consumers
history-Kept_example = history-Kept busy walking (omega arith) busy-stays

abbrev two_listen : List (Event ℕ)
two_listen = subscribed 70 ∷ subscribed 71 ∷ begun ∷ []

two_given : 2 < (history two_listen no_consumers).next_id
unfolding history happen subscribe begin_broadcast
two_given = omega arith

reset-listening_example :
    (listening 2 (history busy (reset 2 (history two_listen no_consumers))).consumers ≡ false)
    × (listening 2 (history busy (reset 2 (history two_listen no_consumers))).pending_consumers
        ≡ false)
reset-listening_example = reset-listening two_listen busy 2 (omega arith) (omega arith) two_given

-- Eleven bits, and a byte that follows their frame.
abbrev eleven_bits : BitBuffer
eleven_bits = record { bytes = 181 ∷ 5 ∷ []; bit_size = 11; read_bit = 4 }

eleven_tidy : clear_unused_tail_bits eleven_bits.bytes eleven_bits.bit_size ≡ eleven_bits.bytes
unfolding clear_unused_tail_bits
eleven_tidy = refl

eleven_whole : length eleven_bits.bytes ≡ byte_size eleven_bits
unfolding byte_size
eleven_whole = refl

write_frame-read_frame_example :
    read_frame 1 (write_frame 1 eleven_bits ++ 9 ∷ [])
    ≡ (if 1 == 1 then ok (reset_read eleven_bits, 9 ∷ []) else err runtime_error)
write_frame-read_frame_example =
    write_frame-read_frame 1 1 eleven_bits (9 ∷ []) (omega arith) eleven_whole (omega arith)
      eleven_tidy
