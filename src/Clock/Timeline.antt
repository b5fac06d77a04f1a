-- ===== src/Clock/Timeline.antt =====
-- The timeline of `TickClock`: continuous when a sample arrives, and never going back.
use tick_synchronizer.Prelude.{
  ℕ, ◌+◌, ◌-◌, ◌%◌, ◌^◌, ◌<◌, ◌≤◌, ◌≡◌, ap, ◌∙◌, true, false, if◌then◌else◌, arith, inl, inr, List,
  [], ◌∷◌, Bool-cases,
}
use tick_synchronizer.Prelude.Int.{ℤ, pos, negsuc, ◌+ℤ◌, ◌-ℤ◌, ◌≤ℤ◌, int_laws, +ℤ_parts, -ℤ_parts}
use tick_synchronizer.Prelude.Words.{to_word, of_word, IsInt}
use tick_synchronizer.Clock.{
  TickClock, Sample, estimate_from, offset_at, max_time_usec, get_timeline_offset_usec,
  get_timeline_epoch_usec, get_timeline_usec, add_sample, is_plausible_sample, is_synchronized,
  restart_slew, push_sample, update_estimate, sample_of, is_step,
}
use tick_synchronizer.Clock.Slew.{offset_at_rate, offset_at_start}

-- The time since frame 0, with no wrap.
abbrev pub timeline : TickClock → ℕ → ℤ
timeline c local = pos local +ℤ get_timeline_offset_usec c local -ℤ get_timeline_epoch_usec c

wrapped_sum :
    (l : ℕ) (o e : ℤ)
    → IsInt 63 o
    → IsInt 63 e
    → l < 2 ^ 64
    → IsInt 63 (pos l +ℤ o -ℤ e)
    → of_word 63 ((l + to_word 64 o + 2 ^ 64 - to_word 64 e) % 2 ^ 64) ≡ pos l +ℤ o -ℤ e
unfolding ◌+ℤ◌ ◌-ℤ◌ to_word of_word
wrapped_sum l (pos o) (pos e) ho he hl h = ground arith
wrapped_sum l (pos o) (negsuc e) ho he hl h = ground arith
wrapped_sum l (negsuc o) (pos e) ho he hl h = ground arith
wrapped_sum l (negsuc o) (negsuc e) ho he hl h = ground arith

-- For a local time below 2 ^ 64, where the offset, the epoch and the exact time since frame 0 fit
-- an `int64_t`, the wrapping unsigned arithmetic of `get_timeline_usec` gives that exact time.
pub get_timeline_usec_lem :
    (c : TickClock) (local : ℕ)
    → IsInt 63 (get_timeline_offset_usec c local)
    → IsInt 63 (get_timeline_epoch_usec c)
    → local < 2 ^ 64
    → IsInt 63 (timeline c local)
    → get_timeline_usec c local ≡ timeline c local
unfolding get_timeline_usec
get_timeline_usec_lem c local ho he hl h =
    wrapped_sum local (get_timeline_offset_usec c local) (get_timeline_epoch_usec c) ho he hl h

less_epoch : (x y e : ℤ) → x ≤ℤ y → x -ℤ e ≤ℤ y -ℤ e
less_epoch x y e h = omega (arith, -ℤ_parts x e, -ℤ_parts y e)

-- On one clock, whether it is the master, holds a timeline or follows, the timeline never goes back.
pub timeline_mono :
    (c : TickClock) (a b : ℕ) → a ≤ b → b < max_time_usec → timeline c a ≤ℤ timeline c b
timeline_mono c a b h k =
    less_epoch (pos a +ℤ get_timeline_offset_usec c a) (pos b +ℤ get_timeline_offset_usec c b)
      (get_timeline_epoch_usec c) offsets
  where
    constant : (x : ℤ) → pos a +ℤ x ≤ℤ pos b +ℤ x
    constant x = omega (arith, +ℤ_parts (pos a) x, +ℤ_parts (pos b) x)

    offsets : pos a +ℤ get_timeline_offset_usec c a ≤ℤ pos b +ℤ get_timeline_offset_usec c b
    offsets = elim (Bool-cases c.holding) [
      | inl e ↦ unfold get_timeline_offset_usec in rw e (constant c.held_offset_usec)
      | inr e ↦ elim (Bool-cases c.master) [
        | inl m ↦ unfold get_timeline_offset_usec in rw (e, m) (constant (pos 0))
        | inr m ↦ unfold get_timeline_offset_usec in simp (e, m) ((offset_at_rate c a b h k).2)
      ]
    ]

-- The estimate with the new sample in the window.
abbrev pub estimated : TickClock → ℕ → ℕ → ℕ → TickClock
estimated c send time receive = update_estimate (push_sample c (sample_of send time receive))

-- The new sample does not put the clock to another timeline: the estimate is within 100 ms of the
-- timeline that the frames follow.
abbrev pub IsNear : TickClock → ℤ → Type 0
IsNear c applied = is_step (c.offset_usec -ℤ applied) ≡ false

-- Where the frames are when a follower takes a sample, on the clock of the master it samples.
abbrev pub followed : TickClock → ℕ → ℤ
followed c receive =
    if c.holding
    then c.held_offset_usec -ℤ c.held_epoch_usec +ℤ c.pending_epoch_usec
    else offset_at c receive

continued_timeline : (l o e p : ℤ) → l +ℤ (o -ℤ e +ℤ p) -ℤ p ≡ l +ℤ o -ℤ e
continued_timeline l o e p = omega int_laws

-- The last step of `add_sample`, near the timeline.
restart_slew-timeline :
    (c : TickClock) (applied : ℤ) (receive : ℕ)
    → c.master ≡ false
    → receive < max_time_usec
    → IsNear c (
        if c.holding
        then c.held_offset_usec -ℤ c.held_epoch_usec +ℤ c.pending_epoch_usec
        else applied)
    → timeline (restart_slew c true applied receive) receive
      ≡ pos receive
        +ℤ (if c.holding then c.held_offset_usec else applied)
        -ℤ get_timeline_epoch_usec c
unfolding restart_slew get_timeline_offset_usec get_timeline_epoch_usec
restart_slew-timeline c applied receive m h near =
    let continued = c.held_offset_usec -ℤ c.held_epoch_usec +ℤ c.pending_epoch_usec in
    ground (
      arith,
      offset_at_start
          (record c {
            holding = false;
            master_epoch_usec = c.pending_epoch_usec;
            slew_from_usec = continued;
            slew_start_usec = receive;
          })
          h,
      offset_at_start (record c { slew_from_usec = applied; slew_start_usec = receive }) h,
      continued_timeline (pos receive) c.held_offset_usec c.held_epoch_usec c.pending_epoch_usec,
    )

-- Taking the estimate changes none of what the followed timeline is made of.
record SameTimeline (c d : TickClock) : Type 0 where
  same_master : d.master ≡ c.master
  same_holding : d.holding ≡ c.holding
  same_offset : d.held_offset_usec ≡ c.held_offset_usec
  same_held_epoch : d.held_epoch_usec ≡ c.held_epoch_usec
  same_pending_epoch : d.pending_epoch_usec ≡ c.pending_epoch_usec
  same_epoch : d.master_epoch_usec ≡ c.master_epoch_usec

estimate_from-SameTimeline :
    (c : TickClock) (ss : List Sample) → SameTimeline c (estimate_from c ss)
unfolding estimate_from
estimate_from-SameTimeline c [] = ground arith
estimate_from-SameTimeline c (s ∷ ss) = ground arith

estimated-SameTimeline :
    (c : TickClock) (send time receive : ℕ) → SameTimeline c (estimated c send time receive)
unfolding update_estimate push_sample
estimated-SameTimeline c send time receive = ground (
  arith,
  estimate_from-SameTimeline (push_sample c (sample_of send time receive))
      (push_sample c (sample_of send time receive)).samples,
)

-- What `add_sample` does with a sample that it takes.
pub add_sample_taken :
    (c : TickClock) (send time receive : ℕ)
    → c.master ≡ false
    → is_plausible_sample send time receive ≡ true
    → send ≤ receive
    → add_sample c send time receive ≡ (
      restart_slew
          (estimated c send time receive)
          (is_synchronized c)
          (offset_at c receive)
          receive,
      true,
    )
unfolding add_sample
add_sample_taken c send time receive follower plausible ordered = ground arith

-- When a synchronized follower takes a plausible sample that arrives at a local time below 2 ^ 50
-- and whose estimate is within 100 ms of the timeline it follows, its timeline at that local time
-- is the same after the sample as before, also where the sample ends the hold of an earlier
-- timeline.
pub timeline-add_sample :
    (c : TickClock) (send time receive : ℕ)
    → c.master ≡ false
    → is_synchronized c ≡ true
    → is_plausible_sample send time receive ≡ true
    → send ≤ receive
    → receive < max_time_usec
    → IsNear (estimated c send time receive) (followed c receive)
    → timeline (add_sample c send time receive).0 receive ≡ timeline c receive
timeline-add_sample c send time receive follower synced plausible ordered h near =
    let d = estimated c send time receive in
    let same = estimated-SameTimeline c send time receive in
    let taken = add_sample_taken c send time receive follower plausible ordered in
    let now =
      restart_slew-timeline d (offset_at c receive) receive (same.same_master ∙ follower) h
        (near_there d same near) in
    ap (λ r. timeline r.0 receive) taken
    ∙ ap (λ b. timeline (restart_slew d b (offset_at c receive) receive) receive) synced
    ∙ now
    ∙ there d same
  where
    near_there :
        (d : TickClock)
        → SameTimeline c d
        → IsNear d (followed c receive)
        → IsNear d (
            if d.holding
            then d.held_offset_usec -ℤ d.held_epoch_usec +ℤ d.pending_epoch_usec
            else offset_at c receive)
    near_there d same near = ground arith

    there :
        (d : TickClock)
        → SameTimeline c d
        → pos receive
            +ℤ (if d.holding then d.held_offset_usec else offset_at c receive)
            -ℤ get_timeline_epoch_usec d
          ≡ timeline c receive
    there d same = unfold get_timeline_offset_usec get_timeline_epoch_usec in ground arith

-- When a synchronized follower takes a plausible sample whose estimate is within 100 ms of the
-- timeline it follows, no time of the timeline before the sample's arrival is after a time of the
-- timeline at or after it, for local times below 2 ^ 50.
pub timeline-add_sample_mono :
    (c : TickClock) (send time receive a b : ℕ)
    → c.master ≡ false
    → is_synchronized c ≡ true
    → is_plausible_sample send time receive ≡ true
    → send ≤ receive
    → IsNear (estimated c send time receive) (followed c receive)
    → a ≤ receive
    → receive ≤ b
    → b < max_time_usec
    → timeline c a ≤ℤ timeline (add_sample c send time receive).0 b
timeline-add_sample_mono c send time receive a b follower synced plausible ordered near before after
      h =
    let c' = (add_sample c send time receive).0 in
    let same =
      timeline-add_sample c send time receive follower synced plausible ordered (omega arith)
        near in
    let one = timeline_mono c a receive before (omega arith) in
    let two = timeline_mono c' receive b after h in
    joins (timeline c a) (timeline c receive) (timeline c' b) one (rw same at two)
  where
    joins : (x y z : ℤ) → x ≤ℤ y → y ≤ℤ z → x ≤ℤ z
    joins x y z p q = omega arith
