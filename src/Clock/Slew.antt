-- ===== src/Clock/Slew.antt =====
-- The applied offset of `TickClock`: it moves toward the estimate at 5% of the time, so the master's
-- time never goes back.
use tick_synchronizer.Prelude.{
  ℕ, ◌+◌, ◌-◌, ◌*◌, ◌/◌, ◌<◌, ◌≤◌, ◌≡◌, ◌∙◌, Bool, true, false, leb, if◌then◌else◌, arith,
}
use tick_synchronizer.Prelude.Int.{
  ℤ, pos, negsuc, ltb_ℤ, leb_ℤ, eqb_ℤ, ◌+ℤ◌, ◌-ℤ◌, ◌≤ℤ◌, min_ℤ, +ℤ_parts, -ℤ_parts, eq_of_parts,
}
use tick_synchronizer.Clock.{TickClock, slew_moved, offset_at, max_time_usec}

-- Below the plausible times the product does not wrap: 5% of the elapsed time, rounded down.
pub slew_moved_lem : (elapsed : ℕ) → elapsed < max_time_usec → slew_moved elapsed ≡ elapsed / 20
unfolding slew_moved
slew_moved_lem elapsed h = omega arith

-- How far the slew has moved at a local time.
abbrev pub moved_at : TickClock → ℕ → ℕ
moved_at c local = (local - c.slew_start_usec) / 20

-- `from` moved by `moved` toward `to`, and no further.
abbrev pub toward : ℤ → ℤ → ℕ → ℤ
toward from to moved =
    if leb_ℤ from to
    then (if leb_ℤ (from +ℤ pos moved) to then from +ℤ pos moved else to)
    else if leb_ℤ to (from -ℤ pos moved)
    then from -ℤ pos moved
    else to

-- The tests of `offset_at` over the two offsets.
slew_tests :
    (from to : ℤ) (early : Bool) (moved : ℕ)
    → (early ≡ true → moved ≡ 0)
    → (let remaining = to -ℤ from in
        if eqb_ℤ remaining (pos 0)
        then to
        else if early
        then from
        else if ltb_ℤ (pos 0) remaining
        then from +ℤ min_ℤ (pos moved) remaining
        else from -ℤ min_ℤ (pos moved) (pos 0 -ℤ remaining))
      ≡ toward from to moved
unfolding ◌+ℤ◌ ◌-ℤ◌
slew_tests (pos a) (pos b) true m h = ground arith
slew_tests (pos a) (pos b) false m h = ground arith
slew_tests (pos a) (negsuc b) true m h = ground arith
slew_tests (pos a) (negsuc b) false m h = ground arith
slew_tests (negsuc a) (pos b) true m h = ground arith
slew_tests (negsuc a) (pos b) false m h = ground arith
slew_tests (negsuc a) (negsuc b) true m h = ground arith
slew_tests (negsuc a) (negsuc b) false m h = ground arith

-- The applied offset is where the slew has got to: from its start toward the estimate, by 5% of the
-- time since then, and no further than the estimate.
pub offset_at_lem :
    (c : TickClock) (local : ℕ)
    → local < max_time_usec
    → offset_at c local ≡ toward c.slew_from_usec c.offset_usec (moved_at c local)
unfolding offset_at
offset_at_lem c local h = rw (slew_moved_lem (local - c.slew_start_usec) (omega arith)) (
    slew_tests c.slew_from_usec c.offset_usec (leb local c.slew_start_usec) (moved_at c local)
      (λ e. ground arith))

toward_mono :
    (from to : ℤ) (m m' d : ℕ)
    → m ≤ m'
    → m' ≤ m + d
    → toward from to m ≤ℤ toward from to m' +ℤ pos d
toward_mono from to m m' d h k = ground (
  arith,
  +ℤ_parts from (pos m),
  +ℤ_parts from (pos m'),
  -ℤ_parts from (pos m),
  -ℤ_parts from (pos m'),
  +ℤ_parts (toward from to m') (pos d),
)

toward_rate :
    (from to : ℤ) (m m' d : ℕ)
    → m ≤ m'
    → m' ≤ m + d
    → toward from to m' ≤ℤ toward from to m +ℤ pos d
toward_rate from to m m' d h k = ground (
  arith,
  +ℤ_parts from (pos m),
  +ℤ_parts from (pos m'),
  -ℤ_parts from (pos m),
  -ℤ_parts from (pos m'),
  +ℤ_parts (toward from to m) (pos d),
)

-- The master's time by the applied offset, with no wrap.
abbrev pub master_time : TickClock → ℕ → ℤ
master_time c local = pos local +ℤ offset_at c local

-- Between two local times below 2 ^ 50 the applied offset changes, up or down, by at most 5% of
-- the time between them, rounded up, and the master's time by the applied offset does not go back.
pub offset_at_rate :
    (c : TickClock) (a b : ℕ)
    → a ≤ b
    → b < max_time_usec
    → (offset_at c a ≤ℤ offset_at c b +ℤ pos ((b - a + 19) / 20))
      × (offset_at c b ≤ℤ offset_at c a +ℤ pos ((b - a + 19) / 20))
      × (master_time c a ≤ℤ master_time c b)
offset_at_rate c a b h k =
    let f = c.slew_from_usec in
    let t = c.offset_usec in
    let d = (b - a + 19) / 20 in
    let m = moved_at c a in
    let m' = moved_at c b in
    let ea = offset_at_lem c a (omega arith) in
    let eb = offset_at_lem c b k in
    let up = toward_mono f t m m' d (omega arith) (omega arith) in
    rw (ea, eb)
      (
        up,
        toward_rate f t m m' d (omega arith) (omega arith),
        later (toward f t m) (toward f t m') d up (omega arith),
      )
  where
    later : (x y : ℤ) (d : ℕ) → x ≤ℤ y +ℤ pos d → a + d ≤ b → pos a +ℤ x ≤ℤ pos b +ℤ y
    later x y d h k = omega (arith, +ℤ_parts y (pos d), +ℤ_parts (pos a) x, +ℤ_parts (pos b) y)

-- At a local time below 2 ^ 50 that is at least 20 times the distance from the start of the slew
-- to the estimate after that start, the applied offset is the estimate.
pub offset_at_arrives :
    (c : TickClock) (local distance : ℕ)
    → local < max_time_usec
    → c.slew_from_usec ≤ℤ c.offset_usec +ℤ pos distance
    → c.offset_usec ≤ℤ c.slew_from_usec +ℤ pos distance
    → c.slew_start_usec + 20 * distance ≤ local
    → offset_at c local ≡ c.offset_usec
offset_at_arrives c local distance h p q late =
    offset_at_lem c local h
    ∙ arrives c.slew_from_usec c.offset_usec (moved_at c local) p q (omega arith)
  where
    arrives :
        (f t : ℤ) (m : ℕ)
        → f ≤ℤ t +ℤ pos distance
        → t ≤ℤ f +ℤ pos distance
        → distance ≤ m
        → toward f t m ≡ t
    arrives f t m p q k = ground (
      arith,
      +ℤ_parts t (pos distance),
      +ℤ_parts f (pos distance),
      +ℤ_parts f (pos m),
      -ℤ_parts f (pos m),
      eq_of_parts (f +ℤ pos m) t,
      eq_of_parts (f -ℤ pos m) t,
    )

-- At the start of the slew nothing has moved.
pub offset_at_start :
    (c : TickClock)
    → c.slew_start_usec < max_time_usec
    → offset_at c c.slew_start_usec ≡ c.slew_from_usec
offset_at_start c h =
    offset_at_lem c c.slew_start_usec h
    ∙ start c.slew_from_usec c.offset_usec (moved_at c c.slew_start_usec) (omega arith)
  where
    start : (f t : ℤ) (m : ℕ) → m ≡ 0 → toward f t m ≡ f
    start f t m e = ground (
      arith,
      +ℤ_parts f (pos m),
      -ℤ_parts f (pos m),
      eq_of_parts (f +ℤ pos m) f,
      eq_of_parts (f -ℤ pos m) f,
      eq_of_parts t f,
    )
