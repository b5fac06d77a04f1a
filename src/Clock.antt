-- ===== src/Clock.antt =====
-- source/tick/tick_clock.h and tick_clock.cpp: `TickClock`, the estimate of the network's clock.
-- A `uint64_t` time is a number below 2 ^ 64 and its wrap is written out; an `int64_t` is an integer,
-- and its sums are exact, as they are in C++ for the plausible times that the clock takes. The
-- counts and settings are `int`s that the setters keep positive.
pub mod Slew
pub mod Timeline
pub mod Window
use tick_synchronizer.Prelude.{
  ℕ, zero, suc, ◌+◌, ◌-◌, ◌*◌, ◌/◌, ◌%◌, ◌^◌, ◌<◌, ◌≤◌, min, max, Bool, true, false, ◌||◌, ◌&&◌,
  not, ◌==◌, leb, ltb, if◌then◌else◌, List, [], ◌∷◌, ◌++◌, length, get_or, set,
}
use tick_synchronizer.Prelude.Int.{
  ℤ, pos, negsuc, pos_part, neg_part, ltb_ℤ, leb_ℤ, eqb_ℤ, ◌+ℤ◌, ◌-ℤ◌, min_ℤ,
}
use tick_synchronizer.Prelude.Words.{to_word, of_word}

pub record Sample : Type 0 where
  pub rtt_usec : ℕ
  pub offset_usec : ℤ

pub record TickClock : Type 0 where
  pub master : Bool
  pub max_samples : ℕ
  pub min_samples : ℕ
  pub samples : List Sample
  pub next_sample : ℕ
  pub offset_usec : ℤ
  pub rtt_usec : ℕ
  pub slew_from_usec : ℤ
  pub slew_start_usec : ℕ
  pub ticks_per_second : ℕ
  pub master_epoch_usec : ℤ
  pub holding : Bool
  pub held_offset_usec : ℤ
  pub held_epoch_usec : ℤ
  pub pending_epoch_usec : ℤ

abbrev pub initial_clock : TickClock
initial_clock = record {
  master = false;
  max_samples = 16;
  min_samples = 4;
  samples = [];
  next_sample = 0;
  offset_usec = pos 0;
  rtt_usec = 0;
  slew_from_usec = pos 0;
  slew_start_usec = 0;
  ticks_per_second = 60;
  master_epoch_usec = pos 0;
  holding = false;
  held_offset_usec = pos 0;
  held_epoch_usec = pos 0;
  pending_epoch_usec = pos 0;
}

abbrev pub slew_per_mille : ℕ
slew_per_mille = 50

abbrev pub step_usec : ℤ
step_usec = pos 100000

abbrev pub max_time_usec : ℕ
max_time_usec = 1 * 2 ^ 50

-- -max_time_usec
abbrev pub min_time_usec : ℤ
min_time_usec = negsuc (max_time_usec - 1)

-- -step_usec
abbrev pub minus_step_usec : ℤ
minus_step_usec = negsuc 99999

-- The difference of two `uint64_t`, as an `int64_t`.
unfoldable pub signed_difference : ℕ → ℕ → ℤ
unfolding of_word
signed_difference a b = of_word 63 ((a + 2 ^ 64 - b) % 2 ^ 64)

unfoldable pub is_plausible_time : ℤ → Bool
is_plausible_time usec = ltb_ℤ min_time_usec usec && ltb_ℤ usec (pos max_time_usec)

unfoldable pub is_plausible_sample : ℕ → ℕ → ℕ → Bool
unfolding is_plausible_time signed_difference
is_plausible_sample local_send master_time local_receive =
    if leb max_time_usec local_send || leb max_time_usec local_receive
    then false
    else is_plausible_time (signed_difference master_time local_send)

unfoldable pub clear_samples : TickClock → TickClock
clear_samples c = record c {
  samples = [];
  next_sample = 0;
  offset_usec = pos 0;
  rtt_usec = 0;
  slew_from_usec = pos 0;
  slew_start_usec = 0;
  holding = false;
}

unfoldable pub set_master : TickClock → Bool → TickClock
unfolding clear_samples
set_master c is_master = clear_samples (record c { master = is_master })

unfoldable pub set_sample_window : TickClock → ℤ → ℤ → TickClock
unfolding clear_samples
set_sample_window c max_count min_count =
    if leb_ℤ max_count (pos 0)
    then c
    else if leb_ℤ min_count (pos 0) || ltb_ℤ max_count min_count
    then c
    else clear_samples
        (record c { max_samples = pos_part max_count; min_samples = pos_part min_count })

unfoldable pub is_synchronized : TickClock → Bool
is_synchronized c = c.master || c.holding || leb c.min_samples (length c.samples)

unfoldable pub needs_samples : TickClock → Bool
needs_samples c = not c.master && ltb (length c.samples) c.min_samples

-- What `moved` is `elapsed` microseconds after the start of the slew.
unfoldable pub slew_moved : ℕ → ℕ
slew_moved elapsed = elapsed * slew_per_mille % 2 ^ 64 / 1000

unfoldable pub offset_at : TickClock → ℕ → ℤ
unfolding slew_moved ◌+ℤ◌ ◌-ℤ◌
offset_at c local =
    let remaining = c.offset_usec -ℤ c.slew_from_usec in
    let moved : ℤ = pos (slew_moved (local - c.slew_start_usec)) in
    if eqb_ℤ remaining (pos 0)
    then c.offset_usec
    else if leb local c.slew_start_usec
    then c.slew_from_usec
    else if ltb_ℤ (pos 0) remaining
    then c.slew_from_usec +ℤ min_ℤ moved remaining
    else c.slew_from_usec -ℤ min_ℤ moved (pos 0 -ℤ remaining)

-- The sample with the lowest round trip; the earliest of those that tie.
unfoldable pub best_sample : Sample → List Sample → Sample
best_sample best [] = best
best_sample best (s ∷ ss) = best_sample (if ltb s.rtt_usec best.rtt_usec then s else best) ss

estimate_from : TickClock → List Sample → TickClock
estimate_from c [] = c
estimate_from c (s ∷ ss) =
    let best = best_sample s ss in
    record c { offset_usec = best.offset_usec; rtt_usec = best.rtt_usec }

unfoldable pub update_estimate : TickClock → TickClock
unfolding estimate_from best_sample
update_estimate c = estimate_from c c.samples

-- The sample of a round trip.
unfoldable pub sample_of : ℕ → ℕ → ℕ → Sample
unfolding signed_difference
sample_of local_send master_time local_receive =
    let rtt = local_receive - local_send in
    record { rtt_usec = rtt; offset_usec = signed_difference master_time (local_send + rtt / 2) }

-- The window of samples: it grows to `max_samples`, then the oldest gives way.
unfoldable pub push_sample : TickClock → Sample → TickClock
push_sample c s = record c {
  samples =
      if ltb (length c.samples) c.max_samples
      then c.samples ++ s ∷ []
      else set c.samples c.next_sample s;
  next_sample = (c.next_sample + 1) % c.max_samples;
}

-- `apart > STEP_USEC || apart < -STEP_USEC`
unfoldable pub is_step : ℤ → Bool
is_step apart = ltb_ℤ step_usec apart || ltb_ℤ apart minus_step_usec

-- The end of `add_sample`: the slew from where the frames are, or at once to the estimate.
unfoldable pub restart_slew : TickClock → Bool → ℤ → ℕ → TickClock
unfolding is_step ◌+ℤ◌ ◌-ℤ◌
restart_slew c was_synchronized applied local_receive =
    if c.holding
    then if ltb (length c.samples) c.min_samples
      then c
      else (let continued = c.held_offset_usec -ℤ c.held_epoch_usec +ℤ c.pending_epoch_usec in
          record c {
            holding = false;
            master_epoch_usec = c.pending_epoch_usec;
            slew_from_usec =
                if is_step (c.offset_usec -ℤ continued) then c.offset_usec else continued;
            slew_start_usec = local_receive;
          })
    else record c {
      slew_from_usec =
          if not was_synchronized || is_step (c.offset_usec -ℤ applied)
          then c.offset_usec
          else applied;
      slew_start_usec = local_receive;
    }

unfoldable pub add_sample : TickClock → ℕ → ℕ → ℕ → TickClock × Bool
unfolding restart_slew
add_sample c local_send master_time local_receive =
    if c.master
    then (c, false)
    else if not (is_plausible_sample local_send master_time local_receive)
    then (c, false)
    else if ltb local_receive local_send
    then (c, true)
    else (
      restart_slew
          (update_estimate (push_sample c (sample_of local_send master_time local_receive)))
          (is_synchronized c) (offset_at c local_receive) local_receive,
      true,
    )

unfoldable pub hold : TickClock → ℤ → ℤ → TickClock
unfolding clear_samples
hold c offset epoch = if c.master then c else record (clear_samples c) {
  holding = true;
  held_offset_usec = offset;
  held_epoch_usec = epoch;
  pending_epoch_usec = epoch;
}

unfoldable pub set_master_epoch_usec : TickClock → ℤ → TickClock × Bool
unfolding is_plausible_time
set_master_epoch_usec c epoch =
    if not (is_plausible_time epoch)
    then (c, false)
    else if c.holding
    then (record c { pending_epoch_usec = epoch }, true)
    else (record c { master_epoch_usec = epoch }, true)

unfoldable pub set_ticks_per_second : TickClock → ℤ → TickClock
set_ticks_per_second c ticks =
    if leb_ℤ ticks (pos 0) then c else record c { ticks_per_second = pos_part ticks }

unfoldable pub get_timeline_offset_usec : TickClock → ℕ → ℤ
get_timeline_offset_usec c local =
    if c.holding then c.held_offset_usec else if c.master then pos 0 else offset_at c local

unfoldable pub get_timeline_epoch_usec : TickClock → ℤ
get_timeline_epoch_usec c = if c.holding then c.held_epoch_usec else c.master_epoch_usec

unfoldable pub get_applied_offset_usec : TickClock → ℕ → ℤ
get_applied_offset_usec c local = if c.master then pos 0 else offset_at c local

-- `int64_t(local + uint64_t(offset) - uint64_t(epoch))`
unfoldable pub get_timeline_usec : TickClock → ℕ → ℤ
unfolding to_word of_word get_timeline_offset_usec get_timeline_epoch_usec
get_timeline_usec c local = of_word 63 (
    (local
      + to_word 64 (get_timeline_offset_usec c local)
      + 2 ^ 64
      - to_word 64 (get_timeline_epoch_usec c))
    % 2 ^ 64)

unfoldable pub get_master_frame : TickClock → ℕ → ℕ
get_master_frame c local =
    let elapsed = get_timeline_usec c local in
    if ltb_ℤ elapsed (pos 0)
    then 0
    else pos_part elapsed * c.ticks_per_second % 2 ^ 64 / 1000000 % 2 ^ 32

unfoldable pub local_to_master_usec : TickClock → ℕ → ℕ
local_to_master_usec c local =
    if c.master then local else (local + to_word 64 (offset_at c local)) % 2 ^ 64

-- The three rounds of `master_to_local_usec`.
master_to_local_loop : ℕ → TickClock → ℕ → ℕ → ℕ
master_to_local_loop zero c master_time local = local
master_to_local_loop (suc rounds) c master_time local =
    master_to_local_loop rounds c master_time
      ((master_time + 2 ^ 64 - to_word 64 (offset_at c local)) % 2 ^ 64)

unfoldable pub master_to_local_usec : TickClock → ℕ → ℕ
unfolding master_to_local_loop
master_to_local_usec c master_time =
    if c.master
    then master_time
    else master_to_local_loop 3 c master_time
        ((master_time + 2 ^ 64 - to_word 64 c.offset_usec) % 2 ^ 64)

-- The highest and the lowest round trip, as the loop of `get_rtt_spread_usec` keeps them.
spread_loop : ℕ → ℕ → List Sample → ℕ
spread_loop highest lowest [] = highest - lowest
spread_loop highest lowest (s ∷ ss) =
    spread_loop (max highest s.rtt_usec) (min lowest s.rtt_usec) ss

unfoldable pub rtt_spread : List Sample → ℕ
unfolding spread_loop
rtt_spread [] = 0
rtt_spread (s ∷ ss) = spread_loop s.rtt_usec s.rtt_usec (s ∷ ss)

unfoldable pub get_rtt_spread_usec : TickClock → ℕ
unfolding rtt_spread
get_rtt_spread_usec c = rtt_spread c.samples
