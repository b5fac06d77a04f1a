-- ===== src/Prelude/Words.antt =====
-- Machine words: a signed word is an integer, an unsigned one a number below 2 ^ w; `memcpy` and the
-- casts between them keep the bit pattern. And the `CLAMP` of the engine, on integers.
use tick_synchronizer.Prelude.{ℕ, suc, ◌-◌, ◌%◌, ◌^◌, ◌≤◌, ◌<◌, ltb, if◌then◌else◌}
use tick_synchronizer.Prelude.Int.{ℤ, pos, negsuc, pos_part, neg_part, ltb_ℤ}

-- The `w`-bit pattern of an integer: two's complement, the excess cut off.
unfoldable pub to_word : ℕ → ℤ → ℕ
to_word w (pos n) = n % 2 ^ w
to_word w (negsuc n) = 2 ^ w - 1 - n % 2 ^ w

-- The signed integer that a `w + 1`-bit pattern stands for.
unfoldable pub of_word : ℕ → ℕ → ℤ
of_word w x = if ltb x (2 ^ w) then pos x else negsuc (2 ^ suc w - 1 - x)

-- `CLAMP(value, low, high)`
unfoldable pub clamp_ℤ : ℤ → ℤ → ℤ → ℤ
clamp_ℤ value low high = if ltb_ℤ value low then low else if ltb_ℤ high value then high else value

-- The range of a signed `w + 1`-bit word.
abbrev pub IsInt : ℕ → ℤ → Type 0
IsInt w a = (pos_part a < 2 ^ w) × (neg_part a ≤ 2 ^ w)

-- -2 ^ w
abbrev pub int_min : ℕ → ℤ
int_min w = negsuc (2 ^ w - 1)

-- 2 ^ w - 1
abbrev pub int_max : ℕ → ℤ
int_max w = pos (2 ^ w - 1)
