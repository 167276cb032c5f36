-- ===== src/Ros/Tests.antt =====
-- Messages, and an instance of each theorem.
use perception_pipeline.Cdr.Runs.{one_more, none_left, AllBelow}
use perception_pipeline.Cdr.Writer.{write_str, write_u8, write_bytes}
use perception_pipeline.Ros.Replay.Images.{decode_image-encode, OpensAs, decoded}
use perception_pipeline.Ros.Sizes.{
  encode-le-max_bytes, max_fluid_pressure_bytes, max_magnetic_field_bytes, max_imu_bytes,
}
use perception_pipeline.Ros.Replay.Slots.Filling.{expired, later_on}
use perception_pipeline.Cdr.{open_reader, read_str, read_u8, read_bytes, encapsulation}
use perception_pipeline.Cdr.Layout.{bound}
use perception_pipeline.Ros.Replay.Slots.{
  acquire_slot, ReplayMessage, Source, Handled, Poll, on_message,
}
use perception_pipeline.Ros.{
  encode_fluid_pressure, decode_fluid_pressure, encode_magnetic_field, ros_encoding,
  decode_magnetic_field, write_header, bayer8_gbrg, write_image_body, encode_image, Image,
  encode_imu, decode_imu, Imu, FluidPressure, Header, encode, MagneticField, Message, decode,
}
use perception_pipeline.Ros.RoundTrip.{decode-encode, Doubles, IsMagneticField, Stampable, IsImu}
use perception_pipeline.Ros.Replay.Slots.Messages.{on_message-returns, on_message-Careful, Careful}
use perception_pipeline.Ros.Replay.{decode_image}
use perception_pipeline.Prelude.{
  List, [], arith, false, length, length-replicate, none, refl, replicate, some, suc, true, zero, ℕ,
  ◌<◌, ◌∷◌, ◌≡◌, ◌≢◌, ◌≤◌,
}

abbrev header : Header
header = record { stamp_ns = 1500000007; frame_id = 105 ∷ 109 ∷ 117 ∷ [] }

abbrev imu : ℕ → Imu
imu v = record {
  orientation = replicate 4 v;
  orientation_covariance = replicate 9 v;
  angular_velocity = replicate 3 v;
  angular_velocity_covariance = replicate 9 v;
  linear_acceleration = replicate 3 v;
  linear_acceleration_covariance = replicate 9 v;
}

abbrev magnetic_field : ℕ → MagneticField
magnetic_field v = record {
  magnetic_field = replicate 3 v;
  magnetic_field_covariance = replicate 9 v;
}

replicate-AllBelow : (k n v : ℕ) → v < k → AllBelow k (replicate n v)
replicate-AllBelow k zero v h = none_left
replicate-AllBelow k (suc n) v h = one_more h (replicate-AllBelow k n v h)

same_doubles : (n v : ℕ) → v < 1000 → Doubles n (replicate n v)
unfolding bound
same_doubles n v h = record {
  size = length-replicate n v;
  all = replicate-AllBelow (bound 8) n v (omega arith);
}

imu-IsImu : (v : ℕ) → v < 1000 → IsImu (imu v)
imu-IsImu v h = record {
  orientation = same_doubles 4 v h;
  orientation_covariance = same_doubles 9 v h;
  angular_velocity = same_doubles 3 v h;
  angular_velocity_covariance = same_doubles 9 v h;
  linear_acceleration = same_doubles 3 v h;
  linear_acceleration_covariance = same_doubles 9 v h;
}

magnetic_field-IsMagneticField : (v : ℕ) → v < 1000 → IsMagneticField (magnetic_field v)
magnetic_field-IsMagneticField v h = record {
  magnetic_field = same_doubles 3 v h;
  magnetic_field_covariance = same_doubles 9 v h;
}

abbrev pressure : FluidPressure
pressure = record { fluid_pressure = 101; variance = 0 }

header-Stampable : Stampable header
header-Stampable = record { seconds = omega arith; frame = omega arith }

decode-encode_example :
    (decode decode_imu
        (encode encode_imu (record { header = header; payload = imu 7 }) encapsulation)
        (record { header = header; payload = imu 0 })
      ≡ record { out = record { header = header; payload = imu 7 }; fine = true })
    × ((decode decode_magnetic_field
            (encode encode_magnetic_field
              (record { header = header; payload = magnetic_field 8 })
              encapsulation)
            (record { header = header; payload = magnetic_field 0 })
          ≡ record { out = record { header = header; payload = magnetic_field 8 }; fine = true })
        × (decode decode_fluid_pressure
              (encode encode_fluid_pressure
                (record { header = header; payload = pressure })
                encapsulation)
              (record { header = header; payload = pressure })
            ≡ record { out = record { header = header; payload = pressure }; fine = true }))
decode-encode_example =
    decode-encode header header (imu 7) (imu 0) (magnetic_field 8) (magnetic_field 0) pressure
      pressure header-Stampable (imu-IsImu 7 (omega arith)) (imu-IsImu 0 (omega arith))
      (magnetic_field-IsMagneticField 8 (omega arith))
      (magnetic_field-IsMagneticField 0 (omega arith))
      (record { fluid_pressure = omega arith; variance = omega arith })

encode-le-max_bytes_example :
    (length (encode encode_imu (record { header = header; payload = imu 7 }) encapsulation)
      ≤ max_imu_bytes)
    × ((length (
            encode encode_magnetic_field
              (record { header = header; payload = magnetic_field 8 })
              encapsulation)
          ≤ max_magnetic_field_bytes)
        × (length (
              encode encode_fluid_pressure
                (record { header = header; payload = pressure })
                encapsulation)
            ≤ max_fluid_pressure_bytes))
encode-le-max_bytes_example =
    encode-le-max_bytes (record { header = header; payload = imu 7 })
      (record { header = header; payload = magnetic_field 8 })
      (record { header = header; payload = pressure }) (imu-IsImu 7 (omega arith))
      (magnetic_field-IsMagneticField 8 (omega arith)) (omega arith) (omega arith) (omega arith)

abbrev image : Message Image
image = record {
  header = header;
  payload = record {
    desc = record { width = 2; height = 2; stride_bytes = 2; format = bayer8_gbrg };
    pixels = 10 ∷ 20 ∷ 30 ∷ 40 ∷ [];
  };
}

decode_image-encode_example :
    (decode_image (encode encode_image image encapsulation) ≡ some (decoded image))
    × OpensAs (encode encode_image image encapsulation) image.payload.desc 4
decode_image-encode_example = decode_image-encode image (record {
  stampable = header-Stampable;
  width = omega arith;
  height = omega arith;
  stride_bytes = omega arith;
  pixels = omega arith;
})

-- Both slots are held; the second poll finds the second one consumed.
abbrev polls : List Poll
polls =
    record { consumed = false ∷ false ∷ []; running = true; past_deadline = false }
    ∷ record { consumed = false ∷ true ∷ []; running = true; past_deadline = true }
    ∷ []

abbrev source : Source
source = record {
  started = true;
  buffer_bytes = 4;
  held = true ∷ true ∷ [];
  next_frame_id = 5;
  late = 0;
  undecodable = 0;
}

abbrev message : ReplayMessage
message = record { stamp_ns = 9; content = encode encode_image image encapsulation }

abbrev handled : Handled
handled = record {
  source = record source { next_frame_id = 6; late = 1 };
  result = true;
  commit = some (record {
    slot = 1;
    meta = record { timestamp_ns = 9; host_recv_ns = 77; frame_id = 5; bytes = 4 };
    pixels = 10 ∷ 20 ∷ 30 ∷ 40 ∷ [];
  });
}

on_message-waits : on_message source message 77 polls ≡ some handled
unfolding on_message decode_image encode encode_image write_image_body write_header ros_encoding
    acquire_slot read_bytes read_u8 read_str open_reader write_bytes write_u8 write_str
on_message-waits = refl

on_message-Careful_example : Careful source polls handled
on_message-Careful_example = on_message-Careful source message 77 polls on_message-waits

on_message-returns_example : on_message source message 77 polls ≢ none
on_message-returns_example = on_message-returns source message 77 polls (later_on (expired refl))
