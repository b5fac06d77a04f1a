-- ===== src/Frames/Stepper.antt =====
-- `TickFixedStepper`: the accumulator of the time that has not made a tick, and the ticks that it
-- made. The counter of the pending ticks is taken to stay below 2 ^ 31, where `int` does not
-- overflow.
use tick_synchronizer.Prelude.{
  ℕ, zero, suc, ◌+◌, ◌-◌, ◌%◌, ◌^◌, ◌≤◌, ◌<◌, ◌≡◌, refl, ap, ◌∙◌, false, List, [], ◌∷◌, not, ◌==◌,
  arith, if◌then◌else◌,
}
use tick_synchronizer.Prelude.Int.{ℤ, pos, pos_part, leb_ℤ}
use tick_synchronizer.Floats.{Floats}

pub record TickFixedStepper (f : Floats) : Type 0 where
  pub ticks_per_second : ℕ
  pub tick_duration : f.Double
  pub time_scale : f.Double
  pub max_ticks_per_advance : ℕ
  pub accumulator : f.Double
  pub pending_ticks : ℕ
  pub next_frame_index : ℕ
  pub dropped_ticks : ℕ

-- Consecutive frames, which wrap around.
unfoldable pub frames_from : ℕ → ℕ → List ℕ
frames_from frame zero = []
frames_from frame (suc n) = frame ∷ frames_from ((frame + 1) % 2 ^ 32) n

module _ {f : Floats} where
  abbrev pub new_stepper : TickFixedStepper f
  new_stepper = record {
    ticks_per_second = 60;
    tick_duration = f.div f.one (f.of_nat 60);
    time_scale = f.one;
    max_ticks_per_advance = 8;
    accumulator = f.nought;
    pending_ticks = 0;
    next_frame_index = 0;
    dropped_ticks = 0;
  }

  unfoldable pub set_ticks_per_second : TickFixedStepper f → ℤ → TickFixedStepper f
  set_ticks_per_second s n = if leb_ℤ n (pos 0) then s else record s {
    ticks_per_second = pos_part n;
    tick_duration = f.div f.one (f.of_nat (pos_part n));
  }

  unfoldable pub set_time_scale : TickFixedStepper f → f.Double → TickFixedStepper f
  set_time_scale s x = if not (f.lt f.nought x) then s else record s { time_scale = x }

  unfoldable pub set_max_ticks_per_advance : TickFixedStepper f → ℤ → TickFixedStepper f
  set_max_ticks_per_advance s n =
      if leb_ℤ n (pos 0) then s else record s { max_ticks_per_advance = pos_part n }

  unfoldable pub advance : TickFixedStepper f → f.Double → TickFixedStepper f × ℕ
  advance s delta =
      let total = f.add s.accumulator (f.mul delta s.time_scale) in
      let ticks = f.floor (f.div total s.tick_duration) in
      let left = f.sub total (f.mul ticks s.tick_duration) in
      let some_left = f.max left f.nought in
      let all_left = f.max total f.nought in
      if not (f.le f.nought delta)
      then (s, s.pending_ticks)
      else if f.lt (f.of_nat s.max_ticks_per_advance) ticks
      then (
        record s {
          dropped_ticks =
              (s.dropped_ticks + (f.to_nat ticks + 2 ^ 64 - s.max_ticks_per_advance)) % 2 ^ 64;
          accumulator = some_left;
          pending_ticks = s.pending_ticks + s.max_ticks_per_advance;
        },
        s.pending_ticks + s.max_ticks_per_advance,
      )
      else if f.le f.one ticks
      then (
        record s { accumulator = some_left; pending_ticks = s.pending_ticks + f.to_nat ticks },
        s.pending_ticks + f.to_nat ticks,
      )
      else (record s { accumulator = all_left }, s.pending_ticks)

  unfoldable pub pop_tick : TickFixedStepper f → TickFixedStepper f × ℕ
  pop_tick s = if s.pending_ticks == 0 then (s, s.next_frame_index) else (
    record s {
      pending_ticks = s.pending_ticks - 1;
      next_frame_index = (s.next_frame_index + 1) % 2 ^ 32;
    },
    s.next_frame_index,
  )

  unfoldable pub step_frame : TickFixedStepper f → TickFixedStepper f × ℕ
  step_frame s =
      (record s { next_frame_index = (s.next_frame_index + 1) % 2 ^ 32 }, s.next_frame_index)

  unfoldable pub set_next_frame_index : TickFixedStepper f → ℕ → TickFixedStepper f
  set_next_frame_index s frame = record s { next_frame_index = frame; pending_ticks = 0 }

  unfoldable pub get_interpolation_fraction : TickFixedStepper f → f.Double
  get_interpolation_fraction s = f.clamp (f.div s.accumulator s.tick_duration) f.nought f.one

  unfoldable pub reset : TickFixedStepper f → TickFixedStepper f
  reset s = record s {
    accumulator = f.nought;
    pending_ticks = 0;
    next_frame_index = 0;
    dropped_ticks = 0;
  }

  -- The loop of the header's example: the frames that are processed until no tick is pending.
  unfoldable pub run_ticks : ℕ → TickFixedStepper f → TickFixedStepper f × List ℕ
  unfolding pop_tick
  run_ticks zero s = (s, [])
  run_ticks (suc fuel) s =
      let (t, frame) = pop_tick s in
      let (u, frames) = run_ticks fuel t in
      if s.pending_ticks == 0 then (s, []) else (u, frame ∷ frames)

  run_pending :
      (n fuel : ℕ) (s : TickFixedStepper f)
      → s.pending_ticks ≡ n
      → n ≤ fuel
      → s.next_frame_index < 2 ^ 32
      → ((run_ticks fuel s).1 ≡ frames_from s.next_frame_index n)
        × ((run_ticks fuel s).0.pending_ticks ≡ 0)
        × ((run_ticks fuel s).0.next_frame_index ≡ (s.next_frame_index + n) % 2 ^ 32)
  unfolding run_ticks frames_from
  run_pending zero zero s e h b = (refl, e, omega arith)
  run_pending zero (suc fuel) s e h b = rw e (refl, refl, omega arith)
  run_pending (suc n) zero s e h b = absurd (omega arith)
  run_pending (suc n) (suc fuel) s e h b =
      let t = record s {
        pending_ticks = s.pending_ticks - 1;
        next_frame_index = (s.next_frame_index + 1) % 2 ^ 32;
      } in
      let r = run_pending n fuel t (omega arith) (omega arith) (omega arith) in
      let some_pending : (s.pending_ticks == 0) ≡ false = ground arith in
      rw some_pending (ap (λ frames. s.next_frame_index ∷ frames) r.0, r.1, r.2 ∙ omega arith)

  -- Popping the pending ticks one after another ends: with at least as many rounds as there are
  -- pending ticks and a frame index below 2 ^ 32, exactly one frame for each tick is processed, in
  -- order from the next frame index on and wrapping around, no tick is left pending, and the next
  -- frame index has moved by their count.
  pub run_ticks_lem :
      (fuel : ℕ) (s : TickFixedStepper f)
      → s.pending_ticks ≤ fuel
      → s.next_frame_index < 2 ^ 32
      → ((run_ticks fuel s).1 ≡ frames_from s.next_frame_index s.pending_ticks)
        × ((run_ticks fuel s).0.pending_ticks ≡ 0)
        × ((run_ticks fuel s).0.next_frame_index ≡ (s.next_frame_index + s.pending_ticks) % 2 ^ 32)
  run_ticks_lem fuel s h b = run_pending s.pending_ticks fuel s refl h b
