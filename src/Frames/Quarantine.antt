-- ===== src/Frames/Quarantine.antt =====
-- `tick_prune_quarantine`: which net ids may be given again.
use tick_synchronizer.Prelude.{
  ℕ, ◌<◌, ◌≡◌, refl, ◌∙◌, false, Option, none, some, List, [], ◌∷◌, Pairwise, All, leb, ◌==◌,
  Bool-cases, inl, inr, arith, if◌then◌else◌,
}
use tick_synchronizer.Prelude.Maps.{Map, lookup, erase, keys, has, lookup-erase}
use tick_synchronizer.Frames.{frames_between, expired_ids, erase_all, tick_prune_quarantine}

-- The entry of an id after the pruning.
abbrev pub kept : ℕ → ℕ → Option ℕ → Option ℕ
kept current quarantine none = none
kept current quarantine (some frame) =
    if leb quarantine (frames_between current frame) then none else some frame

lookup-erase_all :
    (id : ℕ) (ids : List ℕ) (m : Map ℕ)
    → lookup id (erase_all ids m) ≡ (if has id ids then none else lookup id m)
unfolding erase_all has
lookup-erase_all id [] m = refl
lookup-erase_all id (j ∷ ids) m =
    ground (arith, lookup-erase_all id ids (erase j m), lookup-erase id j m)

-- An id below all of a map is not in it.
expired_ids-above :
    (id : ℕ) (m : Map ℕ) (current quarantine : ℕ)
    → All (λ j. id < j) (keys m)
    → (has id (expired_ids m current quarantine) ≡ false) × (lookup id m ≡ none)
unfolding expired_ids has lookup
expired_ids-above id [] current quarantine h = (refl, refl)
expired_ids-above id ((j, frame) ∷ m) current quarantine h =
    let rest = expired_ids-above id m current quarantine h.1 in
    let below = h.0 in (ground arith, ground arith)

expired-kept :
    (id : ℕ) (m : Map ℕ) (current quarantine : ℕ)
    → Pairwise (λ i j. i < j) (keys m)
    → (if has id (expired_ids m current quarantine) then none else lookup id m)
      ≡ kept current quarantine (lookup id m)
unfolding expired_ids has lookup
expired-kept id [] current quarantine h = refl
expired-kept id ((j, frame) ∷ m) current quarantine h =
    let rest = expired-kept id m current quarantine h.1 in
    let above = expired_ids-above j m current quarantine h.0 in
    elim (Bool-cases (j == id)) [
      | inl e ↦
          let same : j ≡ id = ground arith in
          let gone : has id (expired_ids m current quarantine) ≡ false = rw (same) at (above.0) in
          ground (arith, gone)
      | inr e ↦ ground (arith, rest)
    ]

-- In a quarantine that has each id once, in ascending order, pruning removes just the ids that
-- were released at least the given number of frames before the current one, as a difference that
-- wraps around, and keeps the others with their frames.
pub lookup-tick_prune_quarantine :
    (id : ℕ) (m : Map ℕ) (current quarantine : ℕ)
    → Pairwise (λ i j. i < j) (keys m)
    → lookup id (tick_prune_quarantine m current quarantine) ≡ kept current quarantine (lookup id m)
unfolding tick_prune_quarantine
lookup-tick_prune_quarantine id m current quarantine h =
    lookup-erase_all id (expired_ids m current quarantine) m
    ∙ expired-kept id m current quarantine h
