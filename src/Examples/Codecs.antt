-- ===== src/Examples/Codecs.antt =====
-- The reals, the codec, the schema and the frames on concrete inputs.
use tick_synchronizer.Prelude.{
  ℕ, ◌+◌, ◌%◌, ◌^◌, ◌≤◌, ◌≡◌, ◌↔◌, refl, true, false, ◌&&◌, some, [], ◌∷◌, ltb, ◌==◌, arith,
  if◌then◌else◌,
}
use tick_synchronizer.Prelude.Int.{pos}
use tick_synchronizer.Prelude.Maps.{Map, lookup}
use tick_synchronizer.DataBuffer.{empty_buffer, begin_write, begin_read, is_end_of_buffer}
use tick_synchronizer.DataBuffer.Values.{is_valid_compression_level}
use tick_synchronizer.DataBuffer.Reals.{add_real, read_real}
use tick_synchronizer.DataBuffer.Carries.{Carries}
use tick_synchronizer.DataBuffer.RealRoundTrip.{read_real-add_real}
use tick_synchronizer.Codec.{check_type, default_value, TickCodec, kind_vector2_ranged, new_codec}
use tick_synchronizer.Codec.Coding.{encode, decode, quantize}
use tick_synchronizer.Codec.Layout.{delivered_value, decode-encode, quantize_lem}
use tick_synchronizer.Codec.Sendable.{is_sendable}
use tick_synchronizer.Codec.Meaning.{Held, MeansTheSame}
use tick_synchronizer.Codec.Contents.{is_sendable_iff}
use tick_synchronizer.Variants.{Variants, VariantType, array_type, dictionary_type}
use tick_synchronizer.Schema.{
  Names, empty_schema, find, add, accepts, IsSchema, empty_schema-IsSchema, add-IsSchema,
}
use tick_synchronizer.Frames.{tick_frame_after, tick_prune_quarantine}
use tick_synchronizer.Frames.Order.{tick_frame_after_lem}
use tick_synchronizer.Frames.Quarantine.{kept, lookup-tick_prune_quarantine}
use tick_synchronizer.Frames.Stepper.{
  TickFixedStepper, new_stepper, run_ticks, frames_from, run_ticks_lem,
}
use tick_synchronizer.Examples.{zero_vector}
use tick_synchronizer.Examples.Numbers.{
  unity, infinite, samples, samples-FloatLaws, Thing, empty, flag, measure, type_of, pair, things,
  things-SerializerLaws,
}

-- An infinity, which is sent as 0.
read_real-add_real_example :
    let sent =
      add_real samples zero_vector
        (begin_write zero_vector empty_buffer (pos 0))
        infinite
        (pos 1) in
    let received = read_real samples (begin_read sent.0) (pos 1) in
    (received.1 ≡ sent.1)
    × (samples.is_finite received.1 ≡ true)
    × (received.0.buffer_failed ≡ false)
    × (is_end_of_buffer received.0 ≡ true)
unfolding is_valid_compression_level
read_real-add_real_example =
    read_real-add_real samples samples-FloatLaws zero_vector empty_buffer infinite (pos 1)
      (λ j. omega arith) refl

abbrev position : TickCodec samples
position = record new_codec { kind = kind_vector2_ranged; bits = 2; range_max = unity }

abbrev place : Thing
place = pair (record { x = unity; y = infinite })

decode-encode_example :
    Carries
      (λ s. encode zero_vector things position s place)
      (λ s. decode things position s)
      (delivered_value samples things position kind_vector2_ranged (
        if check_type things position place
        then place
        else default_value things kind_vector2_ranged))
decode-encode_example =
    decode-encode samples samples-FloatLaws zero_vector things things-SerializerLaws position place
      (omega arith, omega arith) tt

quantize_lem_example :
    quantize zero_vector things position place
    ≡ delivered_value samples things position kind_vector2_ranged (
        if check_type things position place
        then place
        else default_value things kind_vector2_ranged)
quantize_lem_example =
    quantize_lem samples samples-FloatLaws zero_vector things things-SerializerLaws position place
      (omega arith, omega arith) tt

same-eq : (x y : ℕ) → (x == y) ≡ true ↔ x ≡ y
same-eq x y = (λ e. ground arith, λ e. ground arith)

abbrev number_names : Names
number_names = record { Name = ℕ; same = λ x y. x == y; hash_of = λ x. x; same_eq = same-eq }

add-IsSchema_example :
    IsSchema (add (empty_schema {n = number_names} {f = samples}) 7 (some position))
    × ((other : ℕ)
        → find (add (empty_schema {n = number_names} {f = samples}) 7 (some position)) other ≡ (
            if accepts (empty_schema {n = number_names} {f = samples}) 7 (some position)
              && (7 == other)
            then pos 0
            else find (empty_schema {n = number_names} {f = samples}) other))
add-IsSchema_example =
    add-IsSchema (empty_schema {n = number_names} {f = samples}) 7 (some position)
      empty_schema-IsSchema

tick_frame_after_lem_example :
    tick_frame_after ((4294967290 + 10) % 2 ^ 32) 4294967290 ≡ (ltb 0 10 && ltb 10 (2 ^ 31))
tick_frame_after_lem_example = tick_frame_after_lem 4294967290 10 (omega arith) (omega arith)

abbrev released : Map ℕ
released = (3, 4294967290) ∷ (5, 20) ∷ []

lookup-tick_prune_quarantine_example :
    lookup 3 (tick_prune_quarantine released 40 30) ≡ kept 40 30 (lookup 3 released)
lookup-tick_prune_quarantine_example =
    lookup-tick_prune_quarantine 3 released 40 30 (((omega arith, tt)), (tt, tt))

abbrev at_the_end : TickFixedStepper samples
at_the_end = record new_stepper { pending_ticks = 3; next_frame_index = 4294967295 }

run_ticks_lem_example :
    ((run_ticks 8 at_the_end).1 ≡ frames_from 4294967295 3)
    × ((run_ticks 8 at_the_end).0.pending_ticks ≡ 0)
    × ((run_ticks 8 at_the_end).0.next_frame_index ≡ (4294967295 + 3) % 2 ^ 32)
run_ticks_lem_example = run_ticks_lem 8 at_the_end (omega arith) (omega arith)

-- The engine with an array in place of the empty value, and a dictionary in place of a flag.
abbrev list_type_of : Thing → VariantType
list_type_of empty = array_type
list_type_of (flag false) = dictionary_type
list_type_of x = type_of x

abbrev listed : Variants samples
listed = record things {
  get_type = list_type_of;
  elements = λ x. flag true ∷ flag false ∷ [];
  keys = λ x. flag true ∷ [];
  values = λ x. measure unity ∷ [];
}

contents_run : is_sendable listed empty ≡ true
unfolding is_sendable
contents_run = refl

is_sendable_iff_example :
    (is_sendable listed empty ≡ true)
    ↔ ((n : ℕ) (z : Thing) → Held listed n empty z → (n ≤ 100) × MeansTheSame listed z)
is_sendable_iff_example = is_sendable_iff listed (λ y. refl) empty
