-- ===== src/Codec/Every.antt =====
-- The loops of `TickCodec::is_sendable` that stop at the first element that fails a test.
use tick_synchronizer.Prelude.{
  ℕ, zero, suc, ◌≡◌, refl, sym, ap, ◌∙◌, Bool, true, Option, none, some, List, [], ◌∷◌, length,
  get_elem?, All, arith,
}
use tick_synchronizer.Codec.Sendable.{every, interleave}

abbrev in_option : {A : Type 0} → A → Option A → A
in_option x none = x
in_option x (some y) = y

pub every-get_elem :
    {A : Type 0} (p : A → Bool) (xs : List A) (i : ℕ) (x : A)
    → every p xs ≡ true
    → get_elem? xs i ≡ some x
    → p x ≡ true
unfolding every
every-get_elem p [] i x h e = absurd (ground (arith, e))
every-get_elem p (y ∷ ys) zero x h e = sym (ap p (ap (in_option y) e)) ∙ ground (arith, h)
every-get_elem p (y ∷ ys) (suc i) x h e = every-get_elem p ys i x (ground (arith, h)) e

pub every_of_elems :
    {A : Type 0} (p : A → Bool) (xs : List A)
    → ((i : ℕ) (x : A) → get_elem? xs i ≡ some x → p x ≡ true)
    → every p xs ≡ true
unfolding every
every_of_elems p [] h = refl
every_of_elems p (x ∷ xs) h = rw (h 0 x refl, every_of_elems p xs (λ i y e. h (suc i) y e)) refl

pub every-All :
    {A : Type 0} (p : A → Bool) (xs : List A) → every p xs ≡ true → All (λ x. p x ≡ true) xs
unfolding every
every-All p [] h = tt
every-All p (x ∷ xs) h = (ground (arith, h), every-All p xs (ground (arith, h)))

pub every_of_All :
    {A : Type 0} (p : A → Bool) (xs : List A) → All (λ x. p x ≡ true) xs → every p xs ≡ true
unfolding every
every_of_All p [] h = refl
every_of_All p (x ∷ xs) h = rw (h.0, every_of_All p xs h.1) refl

pub every-interleave :
    {A : Type 0} (p : A → Bool) (ks ys : List A)
    → every p ks ≡ true
    → every p ys ≡ true
    → every p (interleave ks ys) ≡ true
unfolding every
every-interleave p [] ys h k = refl
every-interleave p (x ∷ ks) [] h k = refl
every-interleave p (x ∷ ks) (y ∷ ys) h k =
    let rest = every-interleave p ks ys (ground (arith, h)) (ground (arith, k)) in
    ground (arith, h, k, rest)

pub every_of_interleave :
    {A : Type 0} (p : A → Bool) (ks ys : List A)
    → length ks ≡ length ys
    → every p (interleave ks ys) ≡ true
    → (every p ks ≡ true) × (every p ys ≡ true)
unfolding every
every_of_interleave p [] [] e h = (refl, refl)
every_of_interleave p [] (y ∷ ys) e h = absurd (omega arith)
every_of_interleave p (x ∷ ks) [] e h = absurd (omega arith)
every_of_interleave p (x ∷ ks) (y ∷ ys) e h =
    let rest = every_of_interleave p ks ys (omega arith) (ground (arith, h)) in
    (ground (arith, h, rest), ground (arith, h, rest))
