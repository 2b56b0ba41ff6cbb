-- ===== src/MultiplexedStream/Message.antt =====
-- rust/sdk/src/multiplexed_stream.rs: `MessageId`, which holds the index of a sub-stream in the upper
-- 6 bits of an i64 and an offset in the others. An i64 is its bit pattern.
use zerobus_sdk.Common.{ℕ, ◌+◌, ◌-◌, ◌*◌, ◌/◌, ◌%◌, ◌^◌, ◌<◌, ◌≡◌, ◌∙◌, arith}
use zerobus_sdk.Common.Bits.{bit_and, bit_or, bit_or_comm, bit_or_shifted, bit_and_ones}

abbrev pub stream_bits : ℕ
stream_bits = 6

-- `(1 << (64 - STREAM_BITS)) - 1`.
abbrev pub offset_mask : ℕ
offset_mask = 2 ^ 58 - 1

unfoldable pub message_id : ℕ → ℕ → ℕ
message_id index offset = bit_or ((index * 2 ^ 58) % 2 ^ 64) (bit_and offset offset_mask)

unfoldable pub stream_index : ℕ → ℕ
stream_index raw = raw / 2 ^ 58

unfoldable pub sub_offset : ℕ → ℕ
sub_offset raw = bit_and raw offset_mask

message_id_sum :
    (index offset : ℕ)
    → index < 2 ^ stream_bits
    → message_id index offset ≡ offset % 2 ^ 58 + index * 2 ^ 58
unfolding message_id
message_id_sum index offset h =
    let small : (index * 2 ^ 58) % 2 ^ 64 ≡ index * 2 ^ 58 = omega arith in
    rw (small, bit_and_ones 58 offset)
      (bit_or_comm (index * 2 ^ 58) (offset % 2 ^ 58)
        ∙ bit_or_shifted 58 (offset % 2 ^ 58) index (omega arith))

-- A message id gives back the index of its sub-stream, below 64, and its offset, below 2 ^ 58; and
-- every i64 is the message id of its index and its offset.
pub message_id_lem :
    (index offset raw : ℕ)
    → index < 2 ^ stream_bits
    → offset < 2 ^ 58
    → raw < 2 ^ 64
    → (stream_index (message_id index offset) ≡ index)
      × (sub_offset (message_id index offset) ≡ offset)
      × (message_id (stream_index raw) (sub_offset raw) ≡ raw)
unfolding stream_index sub_offset
message_id_lem index offset raw h k l =
    let sum = message_id_sum index offset h in
    let back = message_id_sum (raw / 2 ^ 58) (bit_and raw offset_mask) (omega arith) in
    (
      omega (arith, sum),
      bit_and_ones 58 (message_id index offset) ∙ omega (arith, sum),
      back ∙ omega (arith, bit_and_ones 58 raw),
    )
