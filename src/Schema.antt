-- ===== src/Schema.antt =====
-- source/sync/tick_sync_object.h and tick_sync_object.cpp: `TickSchema`, the variables of an object, and
-- what `TickSyncObject` does by default. A null codec is `none`.
use tick_synchronizer.Prelude.{
  ℕ, ◌+◌, ◌%◌, ◌^◌, ◌≤◌, ◌<◌, ◌≡◌, ◌≢◌, ◌↔◌, refl, ◌∙◌, Bool, true, false, not, ◌&&◌, Option, none,
  some, List, [], ◌∷◌, ◌++◌, length, length-append, leb, arith, if◌then◌else◌, Bool-cases, inl, inr,
  All, Pairwise, Pairwise-append,
}
use tick_synchronizer.Prelude.Int.{ℤ, pos, negsuc, leb_ℤ}
use tick_synchronizer.Floats.{Floats}
use tick_synchronizer.Variants.{Variants}
use tick_synchronizer.Codec.{TickCodec, hash}

-- What is used of `StringName`: its `operator==` and its hash as a `String`.
pub record Names : Type 1 where
  pub Name : Type 0
  pub same : Name → Name → Bool
  pub hash_of : Name → ℕ
  pub same_eq : (x y : Name) → same x y ≡ true ↔ x ≡ y

pub record TickSchema (n : Names) (f : Floats) : Type 0 where
  pub names : List n.Name
  pub codecs : List (TickCodec f)

module _ (n : Names) where
  -- The loop of `find`, from an index on.
  unfoldable pub find_from : ℕ → List n.Name → n.Name → ℤ
  find_from i [] name = negsuc 0
  find_from i (x ∷ xs) name =
      let rest = find_from (i + 1) xs name in if n.same x name then pos i else rest

module _ {n : Names} {f : Floats} where
  abbrev pub empty_schema : TickSchema n f
  empty_schema = record { names = []; codecs = [] }

  unfoldable pub find : TickSchema n f → n.Name → ℤ
  unfolding find_from
  find s name = find_from n 0 s.names name

  unfoldable pub add : TickSchema n f → n.Name → Option (TickCodec f) → TickSchema n f
  unfolding find
  add s name none = s
  add s name (some codec) =
      if leb_ℤ (pos 0) (find s name)
      then s
      else if leb 255 (length s.names)
      then s
      else record s { names = s.names ++ name ∷ []; codecs = s.codecs ++ codec ∷ [] }

  unfoldable pub clear : TickSchema n f → TickSchema n f
  clear s = record s { names = []; codecs = [] }

  -- The names are different, as many as the codecs, and their count fits 8 bits.
  pub record IsSchema (s : TickSchema n f) : Type 0 where
    pub distinct : Pairwise (λ x y. x ≢ y) s.names
    pub paired : length s.names ≡ length s.codecs
    pub few : length s.names ≤ 255

module _ (n : Names) {f : Floats} (w : Variants f) where
  -- The loop of `hash`, over the names and the codecs.
  unfoldable pub hash_from : List n.Name → List (TickCodec f) → ℕ → ℕ
  hash_from (x ∷ xs) (c ∷ cs) h = hash_from xs cs (hash w c (w.hash_murmur3_one_32 (n.hash_of x) h))
  hash_from _ _ h = h

  -- The seed of the first hash is the engine's.
  unfoldable pub schema_hash : ℕ → TickSchema n f → ℕ
  unfolding hash_from
  schema_hash seed s =
      w.hash_fmix32
        (hash_from s.names s.codecs (w.hash_murmur3_one_32 (length s.names % 2 ^ 32) seed))

-- A name that `find` does not find is not there.
module _ (n : Names) where
  pub find_from-absent :
      (i : ℕ) (xs : List n.Name) (name : n.Name)
      → leb_ℤ (pos 0) (find_from n i xs name) ≡ false
      → All (λ x. x ≢ name) xs
  unfolding find_from
  find_from-absent i [] name e = tt
  find_from-absent i (x ∷ xs) name e = elim (Bool-cases (n.same x name)) [
    | inl s ↦ let e' = rw s at e in absurd (ground (arith, e'))
    | inr s ↦ (
      λ q. (let t = (n.same_eq x name).1 q in ground (arith, s, t)),
      find_from-absent (i + 1) xs name (let e' = rw s at e in e'),
    )
  ]

  find_from_none :
      (i : ℕ) (xs : List n.Name) (name : n.Name)
      → leb_ℤ (pos 0) (find_from n i xs name) ≡ false
      → find_from n i xs name ≡ negsuc 0
  unfolding find_from
  find_from_none i [] name e = refl
  find_from_none i (x ∷ xs) name e = elim (Bool-cases (n.same x name)) [
    | inl s ↦ let e' = rw s at e in absurd (ground (arith, e'))
    | inr s ↦ rw s (find_from_none (i + 1) xs name (let e' = rw s at e in e'))
  ]

  -- The search in a list with one more name at its end.
  pub find_from-append :
      (i : ℕ) (xs : List n.Name) (y name : n.Name)
      → find_from n i (xs ++ y ∷ []) name ≡ (
          if leb_ℤ (pos 0) (find_from n i xs name)
          then find_from n i xs name
          else if n.same y name
          then pos (i + length xs)
          else negsuc 0)
  unfolding find_from
  find_from-append i [] y name = ground arith
  find_from-append i (x ∷ xs) y name = elim (Bool-cases (n.same x name)) [
    | inl s ↦ rw s (ground arith)
    | inr s ↦ rw s (find_from-append (i + 1) xs y name ∙ ground arith)
  ]

module _ {n : Names} {f : Floats} where
  pub empty_schema-IsSchema : IsSchema (empty_schema {n = n} {f = f})
  empty_schema-IsSchema = record { distinct = tt; paired = refl; few = omega arith }

  -- The guards of `add`.
  abbrev pub accepts : TickSchema n f → n.Name → Option (TickCodec f) → Bool
  accepts s name none = false
  accepts s name (some codec) = not (leb_ℤ (pos 0) (find s name)) && not (leb 255 (length s.names))

  -- Adding any name with any codec to a schema whose names are different, as many as its codecs
  -- and at most 255 leaves it such a schema; `find` then gives the new name the next index if the
  -- codec is not null, the name was not declared and there were fewer than 255, and gives every
  -- other name what it gave before.
  pub add-IsSchema :
      (s : TickSchema n f) (name : n.Name) (codec : Option (TickCodec f))
      → IsSchema s
      → IsSchema (add s name codec)
        × ((other : n.Name)
            → find (add s name codec) other ≡ (
                if accepts s name codec && n.same name other
                then pos (length s.names)
                else find s other))
  unfolding add find
  add-IsSchema s name none h = (h, λ other. refl)
  add-IsSchema s name (some codec) h = elim (Bool-cases (leb_ℤ (pos 0) (find s name))) [
    | inl e ↦ rw e (h, λ other. refl)
    | inr e ↦ elim (Bool-cases (leb 255 (length s.names))) [
      | inl l ↦ rw (e, l) (h, λ other. refl)
      | inr l ↦
          rw (e, l)
            (
              record {
                distinct =
                    Pairwise-append (λ x y. x ≢ y) s.names name h.distinct
                      (find_from-absent n 0 s.names name e);
                paired = omega (
                  arith,
                  h.paired,
                  length-append s.names (name ∷ []),
                  length-append s.codecs (codec ∷ []),
                );
                few =
                    let m : length s.names < 255 = ground arith in
                    omega (arith, length-append s.names (name ∷ []));
              },
              λ other. find_from-append n 0 s.names name other ∙ found other e,
            )
    ]
  ]
    where
      found :
          (other : n.Name)
          → leb_ℤ (pos 0) (find_from n 0 s.names name) ≡ false
          → (if leb_ℤ (pos 0) (find_from n 0 s.names other)
              then find_from n 0 s.names other
              else if n.same name other
              then pos (0 + length s.names)
              else negsuc 0)
            ≡ (if n.same name other then pos (length s.names) else find_from n 0 s.names other)
      found other e = elim (Bool-cases (leb_ℤ (pos 0) (find_from n 0 s.names other))) [
        | inr g ↦
            rw (g, find_from_none n 0 s.names other g)
              (let z : 0 + length s.names ≡ length s.names = omega arith in rw z refl)
        | inl g ↦ elim (Bool-cases (n.same name other)) [
          | inr q ↦ rw (g, q) refl
          | inl q ↦
              let same : name ≡ other = (n.same_eq name other).0 q in
              let e' = rw same at e in absurd (ground (arith, e', g))
        ]
      ]
