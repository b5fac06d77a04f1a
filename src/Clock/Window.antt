-- ===== src/Clock/Window.antt =====
-- The sample window of `TickClock` and the estimate taken from it, over any sequence of calls.
use tick_synchronizer.Prelude.{
  ℕ, ◌+◌, ◌%◌, ◌<◌, ◌≤◌, ◌≡◌, refl, sym, subst, ◌∙◌, Bool, true, false, ◌||◌, ltb, if◌then◌else◌,
  arith, ◌⊎◌, inl, inr, List, [], ◌∷◌, length, length-append, length-set, Bool-cases,
}
use native.Mathlib.Nat.{mod-eq_of_lt}
use tick_synchronizer.Prelude.Int.{ℤ, pos, negsuc, pos_part, ltb_ℤ, leb_ℤ}
use tick_synchronizer.Clock.{
  TickClock, Sample, initial_clock, best_sample, estimate_from, update_estimate, push_sample,
  sample_of, clear_samples, set_master, set_sample_window, restart_slew, add_sample,
  is_synchronized, offset_at, is_plausible_sample, hold, set_master_epoch_usec,
  set_ticks_per_second,
}

-- The sample is one of the list.
abbrev pub IsAmong : Sample → List Sample → Type 0
IsAmong s [] = ⊥
IsAmong s (x ∷ xs) = (s ≡ x) ⊎ IsAmong s xs

-- No sample of the list has a lower round trip.
abbrev pub IsLowest : ℕ → List Sample → Type 0
IsLowest rtt [] = Unit {0}
IsLowest rtt (x ∷ xs) = (rtt ≤ x.rtt_usec) × IsLowest rtt xs

IsLowest-mono : (a b : ℕ) (xs : List Sample) → a ≤ b → IsLowest b xs → IsLowest a xs
IsLowest-mono a b [] h l = tt
IsLowest-mono a b (x ∷ xs) h l = (omega arith, IsLowest-mono a b xs h l.1)

-- One round of the search.
abbrev lower : Sample → Sample → Sample
lower b s = if ltb s.rtt_usec b.rtt_usec then s else b

lower_lem :
    (b s : Sample)
    → ((lower b s ≡ b) ⊎ (lower b s ≡ s))
      × ((lower b s).rtt_usec ≤ b.rtt_usec)
      × ((lower b s).rtt_usec ≤ s.rtt_usec)
lower_lem b s = (either (Bool-cases (ltb s.rtt_usec b.rtt_usec)), ground arith, ground arith)
  where
    either :
        (ltb s.rtt_usec b.rtt_usec ≡ true) ⊎ (ltb s.rtt_usec b.rtt_usec ≡ false)
        → (lower b s ≡ b) ⊎ (lower b s ≡ s)
    either (inl e) = inr (rw e)
    either (inr e) = inl (rw e)

best_sample_lem :
    (b : Sample) (ss : List Sample)
    → ((best_sample b ss ≡ b) ⊎ IsAmong (best_sample b ss) ss)
      × ((best_sample b ss).rtt_usec ≤ b.rtt_usec)
      × IsLowest (best_sample b ss).rtt_usec ss
unfolding best_sample
best_sample_lem b [] = (inl refl, omega arith, tt)
best_sample_lem b (s ∷ ss) =
    let h = best_sample_lem (lower b s) ss in
    let l = lower_lem b s in (among l.0 h.0, omega arith, (omega arith, h.2))
  where
    among :
        {x : Sample}
        → ((lower b s ≡ b) ⊎ (lower b s ≡ s))
        → ((x ≡ lower b s) ⊎ IsAmong x ss)
        → (x ≡ b) ⊎ ((x ≡ s) ⊎ IsAmong x ss)
    among (inl e) (inl f) = inl (f ∙ e)
    among (inr e) (inl f) = inr (inl (f ∙ e))
    among e (inr m) = inr (inr m)

-- The estimate is the offset of a sample of the window with the lowest round trip; with no sample it
-- is 0.
abbrev pub IsEstimate : ℕ → ℤ → List Sample → Type 0
IsEstimate rtt offset [] = (rtt ≡ 0) × (offset ≡ pos 0)
IsEstimate rtt offset (s ∷ ss) =
    IsAmong (record { rtt_usec = rtt; offset_usec = offset }) (s ∷ ss) × IsLowest rtt (s ∷ ss)

-- What holds of the window and the estimate between the calls.
pub record IsWindow (c : TickClock) : Type 0 where
  pub positive : 0 < c.min_samples
  pub ordered : c.min_samples ≤ c.max_samples
  pub bounded : length c.samples ≤ c.max_samples
  pub place : c.next_sample < c.max_samples
  pub filling : length c.samples < c.max_samples → c.next_sample ≡ length c.samples
  pub estimate : IsEstimate c.rtt_usec c.offset_usec c.samples

-- The calls that change a clock.
pub data ClockCall : Type 0 where
  masters : Bool → ClockCall
  windows : ℤ → ℤ → ClockCall
  samples : ℕ → ℕ → ℕ → ClockCall
  clears : ClockCall
  holds : ℤ → ℤ → ClockCall
  epochs : ℤ → ClockCall
  rates : ℤ → ClockCall

unfoldable pub step : TickClock → ClockCall → TickClock
step c (masters is_master) = set_master c is_master
step c (windows max_count min_count) = set_sample_window c max_count min_count
step c (samples send time receive) = (add_sample c send time receive).0
step c clears = clear_samples c
step c (holds offset epoch) = hold c offset epoch
step c (epochs epoch) = (set_master_epoch_usec c epoch).0
step c (rates ticks) = set_ticks_per_second c ticks

unfoldable pub run : TickClock → List ClockCall → TickClock
run c [] = c
run c (x ∷ xs) = run (step c x) xs

estimate_from-IsEstimate :
    (c : TickClock) (s : Sample) (ss : List Sample)
    → let d = estimate_from c (s ∷ ss) in IsEstimate d.rtt_usec d.offset_usec (s ∷ ss)
unfolding estimate_from
estimate_from-IsEstimate c s ss = let h = best_sample_lem s ss in (h.0, (h.1, h.2))

-- `push_sample` keeps the shape of the window, and leaves it with a sample.
record IsPushed (c d : TickClock) : Type 0 where
  pushed_bounded : length d.samples ≤ c.max_samples
  pushed_place : d.next_sample < c.max_samples
  pushed_filling : length d.samples < c.max_samples → d.next_sample ≡ length d.samples
  pushed_some : 0 < length d.samples

push_sample-IsPushed : (c : TickClock) (s : Sample) → IsWindow c → IsPushed c (push_sample c s)
unfolding push_sample
push_sample-IsPushed c s w =
    let added = length-append c.samples (s ∷ []) in
    let replaced = length-set c.samples c.next_sample s in
    let no_wrap : c.next_sample + 1 < c.max_samples
        → (c.next_sample + 1) % c.max_samples ≡ c.next_sample + 1 =
      λ h. mod-eq_of_lt h in
    record {
      pushed_bounded = ground (arith, added, replaced);
      pushed_place = ground arith;
      pushed_filling = ground (arith, added, replaced, no_wrap);
      pushed_some = ground (arith, added, replaced);
    }

estimate_from-IsWindow :
    (c : TickClock) (ss : List Sample)
    → 0 < c.min_samples
    → c.min_samples ≤ c.max_samples
    → IsPushed c c
    → c.samples ≡ ss
    → IsWindow (estimate_from c ss)
unfolding estimate_from
estimate_from-IsWindow c [] p o h e = absurd (ground arith)
estimate_from-IsWindow c (s ∷ ss) p o h e = record {
  positive = p;
  ordered = o;
  bounded = h.pushed_bounded;
  place = h.pushed_place;
  filling = h.pushed_filling;
  estimate =
      subst (λ xs. IsEstimate (best_sample s ss).rtt_usec (best_sample s ss).offset_usec xs) (sym e)
        (unfold estimate_from in estimate_from-IsEstimate c s ss);
}

-- A clock with the same window and estimate.
record SameWindow (c d : TickClock) : Type 0 where
  same_min : d.min_samples ≡ c.min_samples
  same_max : d.max_samples ≡ c.max_samples
  same_samples : d.samples ≡ c.samples
  same_next : d.next_sample ≡ c.next_sample
  same_rtt : d.rtt_usec ≡ c.rtt_usec
  same_offset : d.offset_usec ≡ c.offset_usec

SameWindow-IsWindow : {c d : TickClock} → SameWindow c d → IsWindow c → IsWindow d
SameWindow-IsWindow {c} {d} e w = record {
  positive = rw e.same_min w.positive;
  ordered = rw (e.same_min, e.same_max) w.ordered;
  bounded = rw (e.same_samples, e.same_max) w.bounded;
  place = rw (e.same_next, e.same_max) w.place;
  filling = rw (e.same_samples, e.same_max, e.same_next) w.filling;
  estimate = rw (e.same_samples, e.same_rtt, e.same_offset) w.estimate;
}

-- What the end of `add_sample`, `hold`, the epoch and the rate leave alone.
restart_slew-SameWindow :
    (c : TickClock) (synced : Bool) (applied : ℤ) (receive : ℕ)
    → SameWindow c (restart_slew c synced applied receive)
unfolding restart_slew
restart_slew-SameWindow c synced applied receive = ground arith

epoch-SameWindow : (c : TickClock) (epoch : ℤ) → SameWindow c (set_master_epoch_usec c epoch).0
unfolding set_master_epoch_usec
epoch-SameWindow c epoch = ground arith

rate-SameWindow : (c : TickClock) (ticks : ℤ) → SameWindow c (set_ticks_per_second c ticks)
unfolding set_ticks_per_second
rate-SameWindow c ticks = ground arith

clear_samples-IsWindow :
    (c : TickClock) → 0 < c.min_samples → c.min_samples ≤ c.max_samples → IsWindow (clear_samples c)
unfolding clear_samples
clear_samples-IsWindow c p o = record {
  positive = p;
  ordered = o;
  bounded = omega arith;
  place = omega arith;
  filling = λ _. refl;
  estimate = (refl, refl);
}

taken-IsWindow :
    (c : TickClock) (s : Sample) (synced : Bool) (applied : ℤ) (receive : ℕ)
    → IsWindow c
    → IsWindow (restart_slew (update_estimate (push_sample c s)) synced applied receive)
unfolding update_estimate push_sample
taken-IsWindow c s synced applied receive w =
    let d = push_sample c s in
    let h = push_sample-IsPushed c s w in
    SameWindow-IsWindow (restart_slew-SameWindow (update_estimate d) synced applied receive) (
      estimate_from-IsWindow d d.samples w.positive w.ordered
        (record {
          pushed_bounded = h.pushed_bounded;
          pushed_place = h.pushed_place;
          pushed_filling = h.pushed_filling;
          pushed_some = h.pushed_some;
        })
        refl)

add_sample-IsWindow :
    (c : TickClock) (send time receive : ℕ)
    → IsWindow c
    → IsWindow (add_sample c send time receive).0
unfolding add_sample
add_sample-IsWindow c send time receive w = elim (Bool-cases c.master) [
  | inl m ↦ simp m w
  | inr m ↦ elim (Bool-cases (is_plausible_sample send time receive)) [
    | inr p ↦ simp (m, p) w
    | inl p ↦ elim (Bool-cases (ltb receive send)) [
      | inl o ↦ simp (m, p, o) w
      | inr o ↦
          simp (m, p, o)
            (taken-IsWindow c (sample_of send time receive) (is_synchronized c)
              (offset_at c receive) receive w)
    ]
  ]
]

set_sample_window-IsWindow :
    (c : TickClock) (max_count min_count : ℤ)
    → IsWindow c
    → IsWindow (set_sample_window c max_count min_count)
unfolding set_sample_window
set_sample_window-IsWindow c (negsuc a) b w =
    let e : leb_ℤ (negsuc a) (pos 0) ≡ true = ground arith in rw e w
set_sample_window-IsWindow c (pos a) b w = elim (Bool-cases (leb_ℤ (pos a) (pos 0))) [
  | inl e ↦ simp e w
  | inr e ↦ elim (Bool-cases (leb_ℤ b (pos 0) || ltb_ℤ (pos a) b)) [
    | inl f ↦ simp (e, f) w
    | inr f ↦
        simp (e, f)
          (clear_samples-IsWindow (record c { max_samples = a; min_samples = pos_part b })
            (positive b f) (ordered b f))
  ]
]
  where
    positive : (b : ℤ) → (leb_ℤ b (pos 0) || ltb_ℤ (pos a) b) ≡ false → 0 < pos_part b
    positive b f = ground arith

    ordered : (b : ℤ) → (leb_ℤ b (pos 0) || ltb_ℤ (pos a) b) ≡ false → pos_part b ≤ a
    ordered b f = ground arith

hold-IsWindow : (c : TickClock) (offset epoch : ℤ) → IsWindow c → IsWindow (hold c offset epoch)
unfolding hold clear_samples
hold-IsWindow c offset epoch w = elim (Bool-cases c.master) [
  | inl m ↦ simp m w
  | inr m ↦ simp m (record {
    positive = w.positive;
    ordered = w.ordered;
    bounded = omega arith;
    place = omega (arith, w.positive, w.ordered);
    filling = λ _. refl;
    estimate = (refl, refl);
  })
]

set_master-IsWindow :
    (c : TickClock) (is_master : Bool) → IsWindow c → IsWindow (set_master c is_master)
unfolding set_master
set_master-IsWindow c is_master w =
    clear_samples-IsWindow (record c { master = is_master }) w.positive w.ordered

-- Every call keeps the window within its size, its next place inside it, and the estimate that of a
-- sample with the lowest round trip.
pub step-IsWindow : (c : TickClock) (x : ClockCall) → IsWindow c → IsWindow (step c x)
unfolding step
step-IsWindow c (masters is_master) w = set_master-IsWindow c is_master w
step-IsWindow c (windows max_count min_count) w = set_sample_window-IsWindow c max_count min_count w
step-IsWindow c (samples send time receive) w = add_sample-IsWindow c send time receive w
step-IsWindow c clears w = clear_samples-IsWindow c w.positive w.ordered
step-IsWindow c (holds offset epoch) w = hold-IsWindow c offset epoch w
step-IsWindow c (epochs epoch) w = SameWindow-IsWindow (epoch-SameWindow c epoch) w
step-IsWindow c (rates ticks) w = SameWindow-IsWindow (rate-SameWindow c ticks) w

run-IsWindow : (c : TickClock) (xs : List ClockCall) → IsWindow c → IsWindow (run c xs)
unfolding run
run-IsWindow c [] w = w
run-IsWindow c (x ∷ xs) w = run-IsWindow (step c x) xs (step-IsWindow c x w)

-- After any sequence of calls on a new clock, the window has at most `max_samples` samples and its
-- next place lies inside it, the settings are positive and in order, and the estimate is the
-- offset of a sample of the window with the lowest round trip, or 0 where there is no sample.
pub run-initial-IsWindow : (xs : List ClockCall) → IsWindow (run initial_clock xs)
run-initial-IsWindow xs = run-IsWindow initial_clock xs (record {
  positive = omega arith;
  ordered = omega arith;
  bounded = omega arith;
  place = omega arith;
  filling = λ _. refl;
  estimate = (refl, refl);
})
