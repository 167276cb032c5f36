-- ===== src/Cdr/Tests.antt =====
-- A message with a string and octets, and an instance of each theorem.
use perception_pipeline.Prelude.{List, [], map, refl, true, ◌∷◌, ◌≡◌}
use perception_pipeline.Cdr.{encapsulation, open_reader, exhausted}
use perception_pipeline.Cdr.RoundTrip.{reading}
use perception_pipeline.Cdr.Messages.{
  Field, a_u8, a_u32, a_u64, a_str, a_bytes, a_b, a_f64_array, a_f32_seq, write_fields, read_fields,
  read_fields-write_fields, kind_of,
}

-- A uint8 leaves the uint32 behind it misaligned.
abbrev fields : List Field
fields =
    a_u8 7
    ∷ a_u32 513
    ∷ a_str (104 ∷ 105 ∷ [])
    ∷ a_u64 99
    ∷ a_bytes (1 ∷ 2 ∷ 3 ∷ [])
    ∷ a_b true
    ∷ a_f64_array (5 ∷ 6 ∷ [])
    ∷ a_f32_seq (8 ∷ [])
    ∷ a_f32_seq []
    ∷ []

octets :
    write_fields (a_u8 7 ∷ a_u32 513 ∷ []) encapsulation
    ≡ 0 ∷ 1 ∷ 0 ∷ 0 ∷ 7 ∷ 0 ∷ 0 ∷ 0 ∷ 1 ∷ 2 ∷ 0 ∷ 0 ∷ []
unfolding write_fields
octets = refl

read_fields-write_fields_example :
    (read_fields (map kind_of fields) (open_reader (write_fields fields encapsulation)) ≡ record {
      value = fields;
      reader = reading (write_fields fields encapsulation) (write_fields fields encapsulation);
    })
    × (exhausted (reading (write_fields fields encapsulation) (write_fields fields encapsulation))
        ≡ true)
read_fields-write_fields_example = read_fields-write_fields fields refl
