-- ===== src/Ros.antt =====
-- utils/include/perception/utils/message_types.hpp and recording/src/ros_messages.cpp: the recorded
-- messages and their CDR form. A double or float is its bit pattern, a text its octets.
pub mod RoundTrip
pub mod Replay
pub mod Sizes
mod Tests
use perception_pipeline.Cdr.{read_str, read_u64, open_reader, read_u32, read_run, Read, Reader}
use perception_pipeline.Cdr.Writer.{
  write_u8, write_b, write_u32, write_u64, write_str, write_run, write_bytes,
}
use perception_pipeline.Cdr.Agrees.{◌>>=◌, pure}
use perception_pipeline.Prelude.{
  codes, Bool, List, if◌then◌else◌, leb, true, ℕ, ◌%◌, ◌*◌, ◌+◌, ◌/◌, ◌^◌,
}

pub data PixelFormat : Type 0 where
  bayer8_rggb bayer8_grbg bayer8_gbrg bayer8_bggr gray8 rgb8 rgba8 : PixelFormat

-- All fields are of 32 bits.
pub record ImageDesc : Type 0 where
  pub width : ℕ
  pub height : ℕ
  pub stride_bytes : ℕ
  pub format : PixelFormat

pub record Header : Type 0 where
  pub stamp_ns : ℕ
  pub frame_id : List ℕ

pub record Message {ℓ} (Payload : Type ℓ) : Type ℓ where
  pub header : Header
  pub payload : Payload

-- Its octets stand for the pointer and their number.
pub record Image : Type 0 where
  pub desc : ImageDesc
  pub pixels : List ℕ

-- The arrays are of 4, 9, 3, 9, 3 and 9 doubles.
pub record Imu : Type 0 where
  pub orientation : List ℕ
  pub orientation_covariance : List ℕ
  pub angular_velocity : List ℕ
  pub angular_velocity_covariance : List ℕ
  pub linear_acceleration : List ℕ
  pub linear_acceleration_covariance : List ℕ

-- Of 3 and 9 doubles.
pub record MagneticField : Type 0 where
  pub magnetic_field : List ℕ
  pub magnetic_field_covariance : List ℕ

pub record FluidPressure : Type 0 where
  pub fluid_pressure : ℕ
  pub variance : ℕ

pub record DisparityContext : Type 0 where
  pub width : ℕ
  pub height : ℕ
  pub focal_length_px : ℕ
  pub baseline_m : ℕ
  pub min_disparity : ℕ
  pub max_disparity : ℕ

unfoldable pub write_image_body : ℕ → ℕ → List ℕ → ℕ → List ℕ → List ℕ → List ℕ
write_image_body width height encoding step pixels b =
    write_bytes pixels
      (write_u32 step (write_u8 0 (write_str encoding (write_u32 width (write_u32 height b)))))

unfoldable pub write_header : Header → List ℕ → List ℕ
write_header h b =
    write_str h.frame_id
      (write_u32 (h.stamp_ns % 1000000000) (write_u32 (h.stamp_ns / 1000000000 % 2 ^ 32) b))

unfoldable pub ros_encoding : PixelFormat → List ℕ
ros_encoding bayer8_rggb = codes "bayer_rggb8"
ros_encoding bayer8_grbg = codes "bayer_grbg8"
ros_encoding bayer8_gbrg = codes "bayer_gbrg8"
ros_encoding bayer8_bggr = codes "bayer_bggr8"
ros_encoding gray8 = codes "mono8"
ros_encoding rgb8 = codes "rgb8"
ros_encoding rgba8 = codes "rgba8"

unfoldable pub encode_image : Image → List ℕ → List ℕ
unfolding write_image_body ros_encoding
encode_image i b =
    write_image_body i.desc.width i.desc.height (ros_encoding i.desc.format) i.desc.stride_bytes
      i.pixels b

unfoldable pub encode_imu : Imu → List ℕ → List ℕ
encode_imu i b = write_run i.linear_acceleration_covariance 8 (
    write_run i.linear_acceleration 8 (
      write_run i.angular_velocity_covariance 8 (
        write_run i.angular_velocity 8
          (write_run i.orientation_covariance 8 (write_run i.orientation 8 b)))))

unfoldable pub encode_magnetic_field : MagneticField → List ℕ → List ℕ
encode_magnetic_field f b = write_run f.magnetic_field_covariance 8 (write_run f.magnetic_field 8 b)

unfoldable pub encode_fluid_pressure : FluidPressure → List ℕ → List ℕ
encode_fluid_pressure p b = write_u64 p.variance (write_u64 p.fluid_pressure b)

-- A header and then the payload.
unfoldable pub encode {ℓ} :
    {Payload : Type ℓ} → (Payload → List ℕ → List ℕ) → Message Payload → List ℕ → List ℕ
unfolding write_header
encode encode_payload m b = encode_payload m.payload (write_header m.header b)

-- The last field is 0.0f, whose bit pattern is 0.
unfoldable pub encode_disparity : DisparityContext → Message (List ℕ) → List ℕ → List ℕ
unfolding write_header write_image_body
encode_disparity c m b =
    let headers = write_header m.header (write_header m.header b) in
    let image =
      write_image_body c.width c.height (codes "32FC1") (c.width * 4 % 2 ^ 32) m.payload headers in
    let geometry = write_u32 c.baseline_m (write_u32 c.focal_length_px image) in
    let window = write_u32 c.width (write_u32 c.height (write_u32 0 (write_u32 0 geometry))) in
    write_u32 0 (write_u32 c.max_disparity (write_u32 c.min_disparity (write_b true window)))

-- A second count that is negative is one of 2 ^ 31 and more on the wire.
unfoldable pub stamp_of : ℕ → ℕ → ℕ
stamp_of sec nsec = if leb (2 ^ 31) sec then 0 else (sec * 1000000000 + nsec) % 2 ^ 64

unfoldable pub read_header : Reader → Read Header
unfolding stamp_of
read_header = do
  sec ← read_u32
  nsec ← read_u32
  frame_id ← read_str
  pure record { stamp_ns = stamp_of sec nsec; frame_id = frame_id }

-- `imu` is what the caller's struct held.
unfoldable pub decode_imu : Imu → Reader → Read Imu
decode_imu imu = do
  orientation ← read_run 8 4 imu.orientation
  orientation_covariance ← read_run 8 9 imu.orientation_covariance
  angular_velocity ← read_run 8 3 imu.angular_velocity
  angular_velocity_covariance ← read_run 8 9 imu.angular_velocity_covariance
  linear_acceleration ← read_run 8 3 imu.linear_acceleration
  linear_acceleration_covariance ← read_run 8 9 imu.linear_acceleration_covariance
  pure record {
    orientation = orientation;
    orientation_covariance = orientation_covariance;
    angular_velocity = angular_velocity;
    angular_velocity_covariance = angular_velocity_covariance;
    linear_acceleration = linear_acceleration;
    linear_acceleration_covariance = linear_acceleration_covariance;
  }

unfoldable pub decode_magnetic_field : MagneticField → Reader → Read MagneticField
decode_magnetic_field field = do
  magnetic_field ← read_run 8 3 field.magnetic_field
  magnetic_field_covariance ← read_run 8 9 field.magnetic_field_covariance
  pure record {
    magnetic_field = magnetic_field;
    magnetic_field_covariance = magnetic_field_covariance;
  }

unfoldable pub decode_fluid_pressure : FluidPressure → Reader → Read FluidPressure
decode_fluid_pressure pressure = do
  fluid_pressure ← read_u64
  variance ← read_u64
  pure record { fluid_pressure = fluid_pressure; variance = variance }

-- What decode leaves in `out`, and what it returns.
pub record Decoded {ℓ} (A : Type ℓ) : Type ℓ where
  pub out : A
  pub fine : Bool

unfoldable pub decode {ℓ} :
    {Payload : Type ℓ}
    → (Payload → Reader → Read Payload)
    → List ℕ
    → Message Payload
    → Decoded (Message Payload)
unfolding read_header
decode decode_payload content out =
    let header = read_header (open_reader content) in
    let payload = decode_payload out.payload header.reader in
    record {
      out = record { header = header.value; payload = payload.value };
      fine = payload.reader.ok;
    }
