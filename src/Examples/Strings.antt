-- ===== src/Examples/Strings.antt =====
-- The strings of `TickDataBuffer` on concrete bytes.
use tick_synchronizer.Prelude.{
  ℕ, zero, suc, ◌≡◌, refl, Bool, true, false, List, [], ◌∷◌, length, ◌↔◌, arith,
}
use tick_synchronizer.Prelude.Int.{pos}
use tick_synchronizer.BitArray.{IsBytes}
use tick_synchronizer.DataBuffer.{empty_buffer, begin_write, begin_read, is_end_of_buffer}
use tick_synchronizer.DataBuffer.Utf8.{is_valid_utf8}
use tick_synchronizer.DataBuffer.Unicode.{AllScalar, encode_all}
use tick_synchronizer.DataBuffer.Texts.{is_valid_utf8_lem}
use tick_synchronizer.DataBuffer.Strings.{EngineString, begins_with_bom, add_string, read_string}
use tick_synchronizer.DataBuffer.SentStrings.{read_string-add_string}
use tick_synchronizer.Examples.{zero_vector}

-- "aé"
abbrev two_letters : List ℕ
two_letters = 0x61 ∷ 0xC3 ∷ 0xA9 ∷ []

two_letters-IsBytes : IsBytes two_letters
two_letters-IsBytes zero = omega arith
two_letters-IsBytes (suc zero) = omega arith
two_letters-IsBytes (suc (suc zero)) = omega arith
two_letters-IsBytes (suc (suc (suc j))) = omega arith

-- An overlong slash, a surrogate, a NUL and the highest character.
utf8_runs :
    (is_valid_utf8 (0xC0 ∷ 0xAF ∷ []) (pos 2) ≡ false)
    × (is_valid_utf8 (0xED ∷ 0xA0 ∷ 0x80 ∷ []) (pos 3) ≡ false)
    × (is_valid_utf8 (0 ∷ []) (pos 1) ≡ false)
    × (is_valid_utf8 (0xF4 ∷ 0x8F ∷ 0xBF ∷ 0xBF ∷ []) (pos 4) ≡ true)
    × (is_valid_utf8 two_letters (pos 3) ≡ true)
unfolding is_valid_utf8
utf8_runs = (refl, refl, refl, refl, refl)

is_valid_utf8_lem_example :
    (is_valid_utf8 two_letters (pos (length two_letters)) ≡ true)
    ↔ ((cs : List ℕ) × AllScalar cs × (two_letters ≡ encode_all cs))
is_valid_utf8_lem_example = is_valid_utf8_lem two_letters two_letters-IsBytes

-- A string that is empty or "aé".
abbrev letters_of : Bool → List ℕ
letters_of false = []
letters_of true = two_letters

abbrev of_letters : List ℕ → Bool
of_letters [] = false
of_letters (b ∷ bs) = true

letters_of-IsBytes : (t : Bool) → IsBytes (letters_of t)
letters_of-IsBytes false j = omega arith
letters_of-IsBytes true j = two_letters-IsBytes j

of_letters-letters_of :
    (t : Bool)
    → is_valid_utf8 (letters_of t) (pos (length (letters_of t))) ≡ true
    → begins_with_bom (letters_of t) ≡ false
    → of_letters (letters_of t) ≡ t
of_letters-letters_of false h p = refl
of_letters-letters_of true h p = refl

abbrev small_strings : EngineString
small_strings = record {
  Text = Bool;
  empty = false;
  utf8 = letters_of;
  of_utf8 = of_letters;
  in_range = letters_of-IsBytes;
  decoded = of_letters-letters_of;
  no_bytes = refl;
}

nothing-IsBytes : IsBytes []
nothing-IsBytes j = omega arith

read_string-add_string_example :
    let received =
      read_string small_strings
        (begin_read (
          add_string small_strings zero_vector (begin_write zero_vector empty_buffer (pos 0)) true))
        (pos 8) in
    (received.1 ≡ true) × (received.0.buffer_failed ≡ false) × (is_end_of_buffer received.0 ≡ true)
unfolding is_valid_utf8 begins_with_bom
read_string-add_string_example =
    read_string-add_string small_strings zero_vector empty_buffer true 8 nothing-IsBytes
      (omega arith, refl) refl (omega arith)
