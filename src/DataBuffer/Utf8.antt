-- ===== src/DataBuffer/Utf8.antt =====
-- `TickDataBuffer::is_valid_utf8`: the check of the bytes of a string.
use tick_synchronizer.Prelude.{
  ℕ, zero, suc, ◌+◌, ◌-◌, Bool, true, false, ◌&&◌, ◌||◌, not, ◌==◌, leb, ltb, if◌then◌else◌, List,
  get_or, bit_and,
}
use tick_synchronizer.Prelude.Int.{ℤ, pos, pos_part, ltb_ℤ}

-- `size` by the lead byte: 0 where the source returns.
unfoldable pub lead_size : ℕ → ℕ
lead_size lead =
    if leb 0xC2 lead && leb lead 0xDF
    then 2
    else if leb 0xE0 lead && leb lead 0xEF
    then 3
    else if leb 0xF0 lead && leb lead 0xF4
    then 4
    else 0

unfoldable pub second_min : ℕ → ℕ
second_min lead = if lead == 0xE0 then 0xA0 else if lead == 0xF0 then 0x90 else 0x80

unfoldable pub second_max : ℕ → ℕ
second_max lead = if lead == 0xED then 0x9F else if lead == 0xF4 then 0x8F else 0xBF

-- The rounds of the loop over the bytes after the second, from byte `i`.
unfoldable pub tail_loop : ℕ → ℕ → List ℕ → ℕ → Bool
tail_loop zero i bs offset = true
tail_loop (suc rounds) i bs offset =
    if not (bit_and (get_or bs (offset + i) 0) 0xC0 == 0x80)
    then false
    else tail_loop rounds (i + 1) bs offset

-- One round of the main loop: the number of bytes it goes on by, or 0 where the source returns false.
unfoldable pub sequence_size : List ℕ → ℕ → ℕ → ℕ
unfolding lead_size second_min second_max tail_loop
sequence_size bs len offset =
    let lead = get_or bs offset 0 in
    let second = get_or bs (offset + 1) 0 in
    let size = lead_size lead in
    if ltb lead 0x80
    then (if lead == 0 then 0 else 1)
    else if size == 0
    then 0
    else if ltb (len - offset) size || ltb second (second_min lead) || ltb (second_max lead) second
    then 0
    else if not (tail_loop (size - 2) 2 bs offset)
    then 0
    else size

-- The main loop: at most one round for each byte.
unfoldable pub utf8_loop : ℕ → List ℕ → ℕ → ℕ → Bool
utf8_loop zero bs len offset = true
utf8_loop (suc fuel) bs len offset =
    let size = sequence_size bs len offset in
    let rest = utf8_loop fuel bs len (offset + size) in
    if ltb offset len then (if size == 0 then false else rest) else true

unfoldable pub is_valid_utf8 : List ℕ → ℤ → Bool
unfolding utf8_loop sequence_size
is_valid_utf8 bs len =
    if ltb_ℤ len (pos 0) then false else utf8_loop (pos_part len) bs (pos_part len) 0
