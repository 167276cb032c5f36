-- ===== src/Ros/Sizes.antt =====
-- How long an encoded sensor message is.
use perception_pipeline.Cdr.Runs.{length-elements}
use perception_pipeline.Ros.RoundTrip.{IsImu, IsMagneticField}
use perception_pipeline.Cdr.RoundTrip.{length-raw}
use perception_pipeline.Cdr.Layout.{align_to-4, align_to-8}
use perception_pipeline.Cdr.{encapsulation, aligned}
use perception_pipeline.Ros.{
  Message, Imu, FluidPressure, MagneticField, encode_imu, encode, encode_fluid_pressure,
  encode_magnetic_field, Header, write_header,
}
use perception_pipeline.Cdr.Writer.{elements, align_to, write_str, write_u64, write_run, write_u32}
use perception_pipeline.Prelude.{
  List, [], arith, length, length-append, ℕ, ◌%◌, ◌*◌, ◌++◌, ◌+◌, ◌-◌, ◌/◌, ◌^◌, ◌∷◌, ◌≡◌, ◌≤◌,
}

length-write_u32 :
    (v : ℕ) (b : List ℕ) → 4 ≤ length b → length (write_u32 v b) ≡ aligned (length b) 4 + 4
unfolding write_u32
length-write_u32 v b h = length-raw v 4 4 b (align_to-4 b h)

length-write_u64 :
    (v : ℕ) (b : List ℕ) → 4 ≤ length b → length (write_u64 v b) ≡ aligned (length b) 8 + 8
unfolding write_u64
length-write_u64 v b h = length-raw v 8 8 b (align_to-8 b h)

length-write_str :
    (xs b : List ℕ)
    → 4 ≤ length b
    → length (write_str xs b) ≡ aligned (length b) 4 + 4 + (length xs + 1)
unfolding write_str
length-write_str xs b h =
    let n = (length xs + 1) % 2 ^ 32 in
    omega (
      arith,
      length-append {A = ℕ} (write_u32 n b) (xs ++ 0 ∷ []),
      length-append {A = ℕ} xs (0 ∷ []),
      length-write_u32 n b h,
    )

length-write_run :
    (vs b : List ℕ)
    → 4 ≤ length b
    → 1 ≤ length vs
    → length (write_run vs 8 b) ≡ aligned (length b) 8 + 8 * length vs
unfolding write_run
length-write_run [] b h l = absurd (omega (arith, l))
length-write_run (v ∷ vs) b h l = omega (
  arith,
  align_to-8 b h,
  length-append {A = ℕ} (align_to 8 b) (elements 8 (v ∷ vs)),
  length-elements 8 (v ∷ vs),
)

length-write_header : (h : Header) → length (write_header h encapsulation) ≡ 17 + length h.frame_id
unfolding write_header
length-write_header h =
    let b1 = write_u32 (h.stamp_ns / 1000000000 % 2 ^ 32) encapsulation in
    let b2 = write_u32 (h.stamp_ns % 1000000000) b1 in
    let n1 = length-write_u32 (h.stamp_ns / 1000000000 % 2 ^ 32) encapsulation (omega arith) in
    let n2 = length-write_u32 (h.stamp_ns % 1000000000) b1 (omega (arith, n1)) in
    let n3 = length-write_str h.frame_id b2 (omega (arith, n2)) in omega (arith, n1, n2, n3)

-- A run starts at most 7 octets behind what was written, and the next at once.
length-next :
    (n : ℕ) (vs b : List ℕ)
    → 4 ≤ length b
    → length vs ≡ n
    → 1 ≤ n
    → (length (write_run vs 8 b) ≤ length b + 7 + 8 * n) × ((length (write_run vs 8 b) - 4) % 8 ≡ 0)
length-next n vs b h l k =
    let e = length-write_run vs b h (omega (arith, l)) in (omega (arith, e, l), omega (arith, e, l))

length-aligned :
    (n : ℕ) (vs b : List ℕ)
    → 4 ≤ length b
    → (length b - 4) % 8 ≡ 0
    → length vs ≡ n
    → 1 ≤ n
    → length (write_run vs 8 b) ≡ length b + 8 * n
length-aligned n vs b h a l k =
    let e = length-write_run vs b h (omega (arith, l)) in omega (arith, e, l)

length-imu :
    (i : Imu) (b : List ℕ) → 4 ≤ length b → IsImu i → length (encode_imu i b) ≤ length b + 303
unfolding encode_imu
length-imu i b h d =
    let b1 = write_run i.orientation 8 b in
    let b2 = write_run i.orientation_covariance 8 b1 in
    let b3 = write_run i.angular_velocity 8 b2 in
    let b4 = write_run i.angular_velocity_covariance 8 b3 in
    let b5 = write_run i.linear_acceleration 8 b4 in
    let (n1, a1) = length-next 4 i.orientation b h d.orientation.size (omega arith) in
    let e1 = length-write_run i.orientation b h (omega (arith, d.orientation.size)) in
    let n2 =
      length-aligned 9 i.orientation_covariance b1 (omega (arith, e1)) a1
        d.orientation_covariance.size (omega arith) in
    let n3 =
      length-aligned 3 i.angular_velocity b2 (omega (arith, n2, e1)) (omega (arith, n2, a1, e1))
        d.angular_velocity.size (omega arith) in
    let n4 =
      length-aligned 9 i.angular_velocity_covariance b3 (omega (arith, n3, n2, e1))
        (omega (arith, n2, n3, a1, e1)) d.angular_velocity_covariance.size (omega arith) in
    let n5 =
      length-aligned 3 i.linear_acceleration b4 (omega (arith, n4, n3, n2, e1))
        (omega (arith, n2, n3, n4, a1, e1)) d.linear_acceleration.size (omega arith) in
    let n6 =
      length-aligned 9 i.linear_acceleration_covariance b5 (omega (arith, n5, n4, n3, n2, e1))
        (omega (arith, n2, n3, n4, n5, a1, e1)) d.linear_acceleration_covariance.size
        (omega arith) in
    omega (arith, n1, n2, n3, n4, n5, n6)

length-magnetic_field :
    (f : MagneticField) (b : List ℕ)
    → 4 ≤ length b
    → IsMagneticField f
    → length (encode_magnetic_field f b) ≤ length b + 103
unfolding encode_magnetic_field
length-magnetic_field f b h d =
    let b1 = write_run f.magnetic_field 8 b in
    let e1 = length-write_run f.magnetic_field b h (omega (arith, d.magnetic_field.size)) in
    let (n1, a1) = length-next 3 f.magnetic_field b h d.magnetic_field.size (omega arith) in
    let n2 =
      length-aligned 9 f.magnetic_field_covariance b1 (omega (arith, e1)) a1
        d.magnetic_field_covariance.size (omega arith) in
    omega (arith, n1, n2)

length-fluid_pressure :
    (p : FluidPressure) (b : List ℕ)
    → 4 ≤ length b
    → length (encode_fluid_pressure p b) ≤ length b + 23
unfolding encode_fluid_pressure
length-fluid_pressure p b h =
    let b1 = write_u64 p.fluid_pressure b in
    let n1 = length-write_u64 p.fluid_pressure b h in
    let n2 = length-write_u64 p.variance b1 (omega (arith, n1)) in omega (arith, n1, n2)

-- MessageTraits::max_bytes, what a topic of each type reserves for a message.
unfoldable pub max_imu_bytes : ℕ
max_imu_bytes = 512

unfoldable pub max_magnetic_field_bytes : ℕ
max_magnetic_field_bytes = 256

unfoldable pub max_fluid_pressure_bytes : ℕ
max_fluid_pressure_bytes = 128

-- The encoding of an Imu, a MagneticField and a FluidPressure message, whose arrays are as long as their
-- types say, is no longer than its type's max_bytes, when their frames are of at most 192, 136 and 88
-- octets.
pub encode-le-max_bytes :
    (i : Message Imu) (f : Message MagneticField) (p : Message FluidPressure)
    → IsImu i.payload
    → IsMagneticField f.payload
    → length i.header.frame_id ≤ 192
    → length f.header.frame_id ≤ 136
    → length p.header.frame_id ≤ 88
    → (length (encode encode_imu i encapsulation) ≤ max_imu_bytes)
      × ((length (encode encode_magnetic_field f encapsulation) ≤ max_magnetic_field_bytes)
          × (length (encode encode_fluid_pressure p encapsulation) ≤ max_fluid_pressure_bytes))
unfolding encode max_imu_bytes max_magnetic_field_bytes max_fluid_pressure_bytes
encode-le-max_bytes i f p d e ki kf kp =
    let ni = length-write_header i.header in
    let nf = length-write_header f.header in
    let np = length-write_header p.header in
    let x = length-imu i.payload (write_header i.header encapsulation) (omega (arith, ni)) d in
    let y =
      length-magnetic_field f.payload (write_header f.header encapsulation) (omega (arith, nf)) e in
    let z =
      length-fluid_pressure p.payload (write_header p.header encapsulation) (omega (arith, np)) in
    (omega (arith, ni, x), (omega (arith, nf, y), omega (arith, np, z)))
