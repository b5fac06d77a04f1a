-- ===== src/Frames/Order.antt =====
-- `tick_frame_after`: an order on frames that are less than half of the indices apart.
use tick_synchronizer.Prelude.{ℕ, ◌+◌, ◌%◌, ◌^◌, ◌<◌, ◌≡◌, ◌&&◌, ltb, arith}
use tick_synchronizer.Prelude.Words.{of_word}
use tick_synchronizer.Frames.{frames_between, tick_frame_after}

-- The distance back from a frame that is `k` frames later.
frames_between-later : (b k : ℕ) → b < 2 ^ 32 → k < 2 ^ 32 → frames_between ((b + k) % 2 ^ 32) b ≡ k
unfolding frames_between
frames_between-later b k h p = omega arith

-- For a frame below 2 ^ 32 and a distance below 2 ^ 32, the frame that is that much later, which
-- may wrap around, comes after the first just when the distance is not 0 and below 2 ^ 31.
pub tick_frame_after_lem :
    (b k : ℕ)
    → b < 2 ^ 32
    → k < 2 ^ 32
    → tick_frame_after ((b + k) % 2 ^ 32) b ≡ (ltb 0 k && ltb k (2 ^ 31))
unfolding tick_frame_after of_word
tick_frame_after_lem b k h p = rw (frames_between-later b k h p) (ground arith)
