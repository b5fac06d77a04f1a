-- ===== src/Frames.antt =====
-- source/sync/tick_protocol.h and tick_net_ids.h: the arithmetic of frame indices, which wrap around,
-- and the quarantine of the net ids that were released.
-- source/tick/tick_fixed_stepper.h and tick_fixed_stepper.cpp: `TickFixedStepper`, the frames that
-- the time of the engine makes.
pub mod Order
pub mod Quarantine
pub mod Stepper
use tick_synchronizer.Prelude.{
  ℕ, ◌+◌, ◌-◌, ◌%◌, ◌^◌, Bool, true, false, ◌||◌, not, List, [], ◌∷◌, leb, ltb, if◌then◌else◌,
}
use tick_synchronizer.Prelude.Int.{pos, ltb_ℤ}
use tick_synchronizer.Prelude.Words.{of_word}
use tick_synchronizer.Prelude.Maps.{Map, erase}
use tick_synchronizer.Floats.{Floats}

abbrev pub tick_frame_none : ℕ
tick_frame_none = 2 ^ 32 - 1

-- `a - b` on `uint32_t`
unfoldable pub frames_between : ℕ → ℕ → ℕ
frames_between a b = (a + 2 ^ 32 - b) % 2 ^ 32

unfoldable pub tick_frame_after : ℕ → ℕ → Bool
unfolding frames_between of_word
tick_frame_after a b = ltb_ℤ (pos 0) (of_word 31 (frames_between a b))

-- 4294967296.0 is `of_nat (2 ^ 32)`.
unfoldable pub tick_frame_at : (f : Floats) → f.Double → ℕ
tick_frame_at f x =
    if not (f.lt f.nought x) || not (f.is_finite x)
    then 0
    else f.to_nat (f.fmod (f.floor x) (f.of_nat (2 ^ 32))) % 2 ^ 32

-- The two loops: the ids that have expired, and their removal.
unfoldable pub expired_ids : Map ℕ → ℕ → ℕ → List ℕ
unfolding frames_between
expired_ids [] current quarantine = []
expired_ids ((id, frame) ∷ m) current quarantine =
    let rest = expired_ids m current quarantine in
    if leb quarantine (frames_between current frame) then id ∷ rest else rest

unfoldable pub erase_all : List ℕ → Map ℕ → Map ℕ
erase_all [] m = m
erase_all (id ∷ ids) m = erase_all ids (erase id m)

unfoldable pub tick_prune_quarantine : Map ℕ → ℕ → ℕ → Map ℕ
unfolding expired_ids erase_all
tick_prune_quarantine m current quarantine = erase_all (expired_ids m current quarantine) m
