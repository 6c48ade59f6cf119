-- ===== src/Core/Generation/Serials.antt =====
-- Serials and generations are advanced by exactly one, or refused at the top of their range.
use msgriver.Common.{ℕ, ◌+◌, ◌*◌, ◌^◌, ◌<◌, ◌≡◌, ◌⊎◌, ◌≢◌, arith}
use msgriver.Core.Error.{ok, err, reject, state_generation_exhausted}
use msgriver.Core.Generation.{
  GuardedWriterSnapshot, advance_writer, increment_generation, split_limbs, u64_max,
}

-- A writer below the top advances its generation by one and keeps its two digests; at the top it is
-- refused. The bare increment agrees with it.
pub advance_writer_total :
    (s : GuardedWriterSnapshot)
    → s.generation < 2 ^ 64
    → ((s.generation ≢ u64_max)
        × (advance_writer s ≡ ok (record s { generation = s.generation + 1 }))
        × (increment_generation s.generation ≡ ok (s.generation + 1)))
      ⊎ ((s.generation ≡ u64_max)
          × (advance_writer s ≡ err (reject state_generation_exhausted))
          × (increment_generation s.generation ≡ err (reject state_generation_exhausted)))
unfolding advance_writer increment_generation
advance_writer_total s h = ground arith

-- The two limbs of a generation are 32-bit words, and the generation is recovered from them.
pub split_limbs_lossless :
    (g hi lo : ℕ)
    → g < 2 ^ 64
    → split_limbs g ≡ ok (hi, lo)
    → (hi * 2 ^ 32 + lo ≡ g) × (hi < 2 ^ 32) × (lo < 2 ^ 32)
unfolding split_limbs
split_limbs_lossless g hi lo h e = ground arith
