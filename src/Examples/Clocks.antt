-- ===== src/Examples/Clocks.antt =====
-- `TickClock` on concrete times.
use tick_synchronizer.Prelude.{◌+◌, ◌-◌, ◌/◌, ◌≡◌, refl, [], ◌∷◌, arith}
use tick_synchronizer.Prelude.Int.{pos, ◌≤ℤ◌, ◌+ℤ◌, ◌-ℤ◌}
use tick_synchronizer.Clock.{
  TickClock, initial_clock, offset_at, add_sample, get_timeline_usec, get_master_frame, sample_of,
  is_synchronized, is_plausible_sample, push_sample, update_estimate, is_step,
  get_timeline_offset_usec, get_timeline_epoch_usec,
}
use tick_synchronizer.Clock.Slew.{master_time, offset_at_rate, offset_at_arrives}
use tick_synchronizer.Clock.Timeline.{
  timeline, get_timeline_usec_lem, timeline-add_sample, timeline-add_sample_mono,
}
use tick_synchronizer.Clock.Window.{IsWindow, windows, samples, holds, run, run-initial-IsWindow}

-- A follower 5 ms ahead of the estimate it moves toward, with the samples it needs.
abbrev follower : TickClock
follower = record initial_clock {
  min_samples = 1;
  samples = record { rtt_usec = 40000; offset_usec = pos 995000 } ∷ [];
  next_sample = 1;
  offset_usec = pos 995000;
  rtt_usec = 40000;
  slew_from_usec = pos 1000000;
  slew_start_usec = 500000;
}

-- 5% of 20 ms is 1 ms; then a sample with a lower round trip moves the estimate up.
follower_runs :
    (offset_at follower 500000 ≡ pos 1000000)
    × (offset_at follower 520000 ≡ pos 999000)
    × (offset_at follower 900000 ≡ pos 995000)
    × ((add_sample follower 500000 1510000 520000).0.offset_usec ≡ pos 1000000)
    × ((add_sample follower 500000 1510000 520000).0.slew_from_usec ≡ pos 999000)
    × (get_master_frame follower 900000 ≡ 113)
unfolding offset_at add_sample update_estimate push_sample sample_of is_synchronized
    is_plausible_sample get_master_frame get_timeline_usec
follower_runs = (refl, refl, refl, refl, refl, refl)

offset_at_rate_example :
    (offset_at follower 510000 ≤ℤ offset_at follower 530000 +ℤ pos ((530000 - 510000 + 19) / 20))
    × (offset_at follower 530000 ≤ℤ offset_at follower 510000 +ℤ pos ((530000 - 510000 + 19) / 20))
    × (master_time follower 510000 ≤ℤ master_time follower 530000)
offset_at_rate_example = offset_at_rate follower 510000 530000 (omega arith) (omega arith)

offset_at_arrives_example : offset_at follower 700000 ≡ pos 995000
unfolding ◌+ℤ◌
offset_at_arrives_example =
    offset_at_arrives follower 700000 5000 (omega arith) (omega arith) (omega arith) (omega arith)

get_timeline_usec_lem_example : get_timeline_usec follower 700000 ≡ timeline follower 700000
unfolding get_timeline_offset_usec get_timeline_epoch_usec offset_at ◌+ℤ◌ ◌-ℤ◌
get_timeline_usec_lem_example =
    get_timeline_usec_lem follower 700000 (omega arith) (omega arith) (omega arith) (omega arith)

timeline-add_sample_example :
    timeline (add_sample follower 500000 1510000 520000).0 520000 ≡ timeline follower 520000
unfolding is_synchronized is_plausible_sample is_step update_estimate push_sample sample_of
    offset_at ◌-ℤ◌
timeline-add_sample_example =
    timeline-add_sample follower 500000 1510000 520000 refl refl refl (omega arith) (omega arith)
      refl

timeline-add_sample_mono_example :
    timeline follower 510000 ≤ℤ timeline (add_sample follower 500000 1510000 520000).0 600000
unfolding is_synchronized is_plausible_sample is_step update_estimate push_sample sample_of
    offset_at ◌-ℤ◌
timeline-add_sample_mono_example =
    timeline-add_sample_mono follower 500000 1510000 520000 510000 600000 refl refl refl
      (omega arith) refl (omega arith) (omega arith) (omega arith)

run-initial-IsWindow_example : IsWindow (
    run initial_clock (
      windows (pos 2) (pos 1)
      ∷ samples 5 90 9
      ∷ samples 15 99 17
      ∷ samples 25 90 30
      ∷ holds (pos 4) (pos 2)
      ∷ []))
run-initial-IsWindow_example = run-initial-IsWindow (
    windows (pos 2) (pos 1)
    ∷ samples 5 90 9
    ∷ samples 15 99 17
    ∷ samples 25 90 30
    ∷ holds (pos 4) (pos 2)
    ∷ [])
