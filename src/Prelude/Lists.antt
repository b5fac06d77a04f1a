-- ===== src/Prelude/Lists.antt =====
-- Lists measured and indexed by native numbers, under the library's names.
use Prim.Native.Nat.{ℕ, zero, suc, ◌+◌, ◌-◌, ◌≤◌, min}
use mathlib.Core.Path.{◌≡◌, refl, ap, ap₂}
use mathlib.Core.List.{List, [], ◌∷◌, ◌++◌}
use native.Mathlib.Omega.{arith}
use tick_synchronizer.Prelude.Tests.{◌==◌, ltb, if◌then◌else◌, Bool-cases}
use mathlib.Core.Logic.{inl, inr}
use mathlib.Core.Bool.{Bool, ◌&&◌}
use mathlib.Core.Option.{Option, none, some}

module _ {ℓ} {A : Type ℓ} where
  abbrev pub length : List A → ℕ
  length [] = 0
  length (x ∷ xs) = suc (length xs)

  -- The element at an index, or `d` past the end.
  abbrev pub get_or : List A → ℕ → A → A
  get_or [] i d = d
  get_or (x ∷ xs) zero d = x
  get_or (x ∷ xs) (suc i) d = get_or xs i d

  abbrev pub get_elem? : List A → ℕ → Option A
  get_elem? [] i = none
  get_elem? (x ∷ xs) zero = some x
  get_elem? (x ∷ xs) (suc i) = get_elem? xs i

  abbrev pub filter : (A → Bool) → List A → List A
  filter p [] = []
  filter p (x ∷ xs) = let rest = filter p xs in if p x then x ∷ rest else rest

  abbrev pub drop : ℕ → List A → List A
  drop zero xs = xs
  drop (suc n) [] = []
  drop (suc n) (x ∷ xs) = drop n xs

  -- A write past the end changes nothing.
  abbrev pub set : List A → ℕ → A → List A
  set [] i v = []
  set (x ∷ xs) zero v = v ∷ xs
  set (x ∷ xs) (suc i) v = x ∷ set xs i v

  abbrev pub take : ℕ → List A → List A
  take zero xs = []
  take (suc n) [] = []
  take (suc n) (x ∷ xs) = x ∷ take n xs

  abbrev pub replicate : ℕ → A → List A
  replicate zero a = []
  replicate (suc n) a = a ∷ replicate n a

module _ {ℓ} {A : Type ℓ} where
  pub length-append : (xs ys : List A) → length (xs ++ ys) ≡ length xs + length ys
  length-append [] ys = omega arith
  length-append (x ∷ xs) ys = omega (arith, length-append xs ys)

  pub length-set : (xs : List A) (i : ℕ) (v : A) → length (set xs i v) ≡ length xs
  length-set [] i v = refl
  length-set (x ∷ xs) zero v = refl
  length-set (x ∷ xs) (suc i) v = ap suc (length-set xs i v)

  pub length-take : (n : ℕ) (xs : List A) → length (take n xs) ≡ min n (length xs)
  length-take zero xs = omega arith
  length-take (suc n) [] = omega arith
  length-take (suc n) (x ∷ xs) = omega (arith, length-take n xs)

  pub length-replicate : (n : ℕ) (a : A) → length (replicate n a) ≡ n
  length-replicate zero a = refl
  length-replicate (suc n) a = ap suc (length-replicate n a)

  -- What a read finds after a write, at every index.
  pub get_or-set :
      (xs : List A) (i j : ℕ) (v d : A)
      → get_or (set xs i v) j d ≡ (if i == j && ltb j (length xs) then v else get_or xs j d)
  get_or-set [] i j v d = ground arith
  get_or-set (x ∷ xs) zero zero v d = ground arith
  get_or-set (x ∷ xs) zero (suc j) v d = ground arith
  get_or-set (x ∷ xs) (suc i) zero v d = ground arith
  get_or-set (x ∷ xs) (suc i) (suc j) v d = ground (arith, get_or-set xs i j v d)

  pub get_or-append :
      (xs ys : List A) (j : ℕ) (d : A)
      → get_or (xs ++ ys) j d
        ≡ (if ltb j (length xs) then get_or xs j d else get_or ys (j - length xs) d)
  get_or-append [] ys j d = ground arith
  get_or-append (x ∷ xs) ys zero d = ground arith
  get_or-append (x ∷ xs) ys (suc j) d = ground (arith, get_or-append xs ys j d)

  pub get_or-take :
      (n : ℕ) (xs : List A) (j : ℕ) (d : A)
      → get_or (take n xs) j d ≡ (if ltb j n then get_or xs j d else d)
  get_or-take zero xs j d = ground arith
  get_or-take (suc n) [] j d = ground arith
  get_or-take (suc n) (x ∷ xs) zero d = ground arith
  get_or-take (suc n) (x ∷ xs) (suc j) d = ground (arith, get_or-take n xs j d)

  pub get_or-replicate : (n : ℕ) (a : A) (j : ℕ) → get_or (replicate n a) j a ≡ a
  get_or-replicate zero a j = refl
  get_or-replicate (suc n) a zero = refl
  get_or-replicate (suc n) a (suc j) = get_or-replicate n a j

  -- Lists of one length that read the same at every index are equal.
  pub get_or_ext :
      (d : A) (xs ys : List A)
      → length xs ≡ length ys
      → ((i : ℕ) → get_or xs i d ≡ get_or ys i d)
      → xs ≡ ys
  get_or_ext d [] [] e h = refl
  get_or_ext d [] (y ∷ ys) e h = absurd (omega arith)
  get_or_ext d (x ∷ xs) [] e h = absurd (omega arith)
  get_or_ext d (x ∷ xs) (y ∷ ys) e h =
      ap₂ ◌∷◌ (h 0) (get_or_ext d xs ys (omega arith) (λ i. h (suc i)))

  pub nil_of_length : (xs : List A) → length xs ≡ 0 → xs ≡ []
  nil_of_length [] e = refl
  nil_of_length (x ∷ xs) e = absurd (omega arith)

  pub get_or_past : (xs : List A) (j : ℕ) (d : A) → length xs ≤ j → get_or xs j d ≡ d
  get_or_past [] j d h = refl
  get_or_past (x ∷ xs) zero d h = absurd (omega arith)
  get_or_past (x ∷ xs) (suc j) d h = get_or_past xs j d (omega arith)

-- Every element has a property; the predicates are by recursion, so that they compute to tuples.
abbrev pub All {ℓ κ} : {A : Type ℓ} → (A → Type κ) → List A → Type κ
All P [] = Unit
All P (x ∷ xs) = P x × All P xs

-- Every pair of elements, the earlier one first, is related.
abbrev pub Pairwise {ℓ κ} : {A : Type ℓ} → (A → A → Type κ) → List A → Type κ
Pairwise R [] = Unit
Pairwise R (x ∷ xs) = All (R x) xs × Pairwise R xs

pub All-append {ℓ κ} :
    {A : Type ℓ} (P : A → Type κ) (xs ys : List A) → All P xs → All P ys → All P (xs ++ ys)
All-append P [] ys h k = k
All-append P (x ∷ xs) ys h k = (h.0, All-append P xs ys h.1 k)

pub All-weaken {ℓ κ μ} :
    {A : Type ℓ} (P : A → Type κ) (Q : A → Type μ) (xs : List A)
    → ((x : A) → P x → Q x)
    → All P xs
    → All Q xs
All-weaken P Q [] f h = tt
All-weaken P Q (x ∷ xs) f h = (f x h.0, All-weaken P Q xs f h.1)

-- One more at the end.
pub Pairwise-append {ℓ κ} :
    {A : Type ℓ} (R : A → A → Type κ) (xs : List A) (y : A)
    → Pairwise R xs
    → All (λ x. R x y) xs
    → Pairwise R (xs ++ y ∷ [])
Pairwise-append R [] y h k = (tt, tt)
Pairwise-append R (x ∷ xs) y h k =
    (All-append (R x) xs (y ∷ []) h.0 (k.0, tt), Pairwise-append R xs y h.1 k.1)

pub All-both {ℓ κ μ} :
    {A : Type ℓ} (P : A → Type κ) (Q : A → Type μ) (xs : List A)
    → All P xs
    → All Q xs
    → All (λ x. P x × Q x) xs
All-both P Q [] h k = tt
All-both P Q (x ∷ xs) h k = ((h.0, k.0), All-both P Q xs h.1 k.1)

-- Those of the elements that pass a test.
pub All-filter {ℓ κ} :
    {A : Type ℓ} (P : A → Type κ) (f : A → Bool) (xs : List A) → All P xs → All P (filter f xs)
All-filter P f [] h = tt
All-filter P f (x ∷ xs) h = elim (Bool-cases (f x)) [
  | inl e ↦ rw e (h.0, All-filter P f xs h.1)
  | inr e ↦ rw e (All-filter P f xs h.1)
]
