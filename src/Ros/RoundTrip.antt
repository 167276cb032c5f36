-- ===== src/Ros/RoundTrip.antt =====
-- What a replay decodes of a recorded sensor message.
use perception_pipeline.Cdr.Runs.{Agrees-f64_array, AllBelow}
use perception_pipeline.Cdr.Writer.{write_u32, write_run}
use perception_pipeline.Cdr.{read_u64, read_str, encapsulation, Read, read_u32, Reader, read_run}
use perception_pipeline.Cdr.Layout.{bound}
use perception_pipeline.Ros.{
  encode_magnetic_field, encode_fluid_pressure, decode_fluid_pressure, decode_magnetic_field,
  encode_imu, decode_imu, Message, encode, write_header, Imu, read_header, stamp_of, decode,
  FluidPressure, Header, MagneticField,
}
use perception_pipeline.Cdr.Agrees.{
  Agrees-u64, Agrees-str, Agrees-u32, Agrees-opens, Agrees-pure, pure, Agrees-bind, Agrees,
}
use perception_pipeline.Cdr.Agrees.{◌>>=◌}
use perception_pipeline.Prelude.{
  List, ap, arith, false, leb, length, subst, true, ℕ, ◌%◌, ◌+◌, ◌/◌, ◌<◌, ◌^◌, ◌≡◌,
}

-- The header's seconds fit the wire's signed 32 bits, and the length of its frame fits too.
pub record Stampable (h : Header) : Type 0 where
  pub seconds : h.stamp_ns / 1000000000 < 2 ^ 31
  pub frame : length h.frame_id + 1 < 2 ^ 32

-- An array of `n` doubles.
pub record Doubles (n : ℕ) (vs : List ℕ) : Type 0 where
  pub size : length vs ≡ n
  pub all : AllBelow (bound 8) vs

pub record IsImu (i : Imu) : Type 0 where
  pub orientation : Doubles 4 i.orientation
  pub orientation_covariance : Doubles 9 i.orientation_covariance
  pub angular_velocity : Doubles 3 i.angular_velocity
  pub angular_velocity_covariance : Doubles 9 i.angular_velocity_covariance
  pub linear_acceleration : Doubles 3 i.linear_acceleration
  pub linear_acceleration_covariance : Doubles 9 i.linear_acceleration_covariance

pub record IsMagneticField (f : MagneticField) : Type 0 where
  pub magnetic_field : Doubles 3 f.magnetic_field
  pub magnetic_field_covariance : Doubles 9 f.magnetic_field_covariance

pub record IsFluidPressure (p : FluidPressure) : Type 0 where
  pub fluid_pressure : p.fluid_pressure < 2 ^ 64
  pub variance : p.variance < 2 ^ 64

Agrees-doubles :
    (n : ℕ) (vs out : List ℕ)
    → Doubles n vs
    → Doubles n out
    → Agrees (read_run 8 n out) vs (write_run vs 8)
Agrees-doubles n vs out d o =
    subst (λ k. Agrees (read_run 8 k out) vs (write_run vs 8)) d.size
      (Agrees-f64_array vs out d.all (omega (arith, d.size, o.size)))

pub stamp-rejoins :
    (t : ℕ) → t / 1000000000 < 2 ^ 31 → (stamp_of (t / 1000000000) (t % 1000000000) ≡ t)
unfolding stamp_of
stamp-rejoins t h =
    let early : leb (2 ^ 31) (t / 1000000000) ≡ false = ground arith in rw early (omega arith)

pub Agrees-header : (h : Header) → Stampable h → Agrees read_header h (write_header h)
unfolding read_header write_header
Agrees-header h s =
    let sec = h.stamp_ns / 1000000000 in
    let exact : sec % 2 ^ 32 ≡ sec = omega (arith, s.seconds) in
    subst
      (λ t. Agrees (read_header) (record { stamp_ns = t; frame_id = h.frame_id }) (write_header h))
      (stamp-rejoins h.stamp_ns s.seconds)
      (Agrees-bind
        (λ sec.
          (read_u32 >>= λ nsec. read_str >>= λ frame_id.
          pure (record { stamp_ns = stamp_of sec nsec; frame_id = frame_id })))
        (subst (λ n. Agrees read_u32 n (write_u32 (sec % 2 ^ 32))) exact
          (Agrees-u32 (sec % 2 ^ 32) (omega arith)))
        (Agrees-bind
          (λ nsec. read_str >>= λ frame_id.
            pure (record { stamp_ns = stamp_of sec nsec; frame_id = frame_id }))
          (Agrees-u32 (h.stamp_ns % 1000000000) (omega arith))
          (Agrees-bind
            (λ frame_id.
              pure
                (record { stamp_ns = stamp_of sec (h.stamp_ns % 1000000000); frame_id = frame_id }))
            (Agrees-str h.frame_id s.frame)
            (Agrees-pure (record {
              stamp_ns = stamp_of sec (h.stamp_ns % 1000000000);
              frame_id = h.frame_id;
            })))))

module _ {ℓ} {Payload : Type ℓ} where
  decode-encode_of :
      (decode_payload : Payload → Reader → Read Payload)
      (encode_payload : Payload → List ℕ → List ℕ) (m out : Message Payload)
      → Stampable m.header
      → Agrees (decode_payload out.payload) m.payload (encode_payload m.payload)
      → (decode decode_payload (encode encode_payload m encapsulation) out
          ≡ record { out = m; fine = true })
  unfolding decode encode
  decode-encode_of decode_payload encode_payload m out s a =
      let whole =
        Agrees-bind
          (λ header. decode_payload out.payload >>= λ payload.
            pure (record { header = header; payload = payload }))
          (Agrees-header m.header s)
          (Agrees-bind (λ payload. pure (record { header = m.header; payload = payload })) a
            (Agrees-pure m)) in
      ap (λ q. record { out = q.value; fine = q.reader.ok }) (Agrees-opens whole)

Agrees-imu : (i out : Imu) → IsImu i → IsImu out → Agrees (decode_imu out) i (encode_imu i)
unfolding decode_imu encode_imu
Agrees-imu i out d o =
    (Agrees-bind
      (λ orientation. read_run 8 9 out.orientation_covariance >>= λ orientation_covariance.
        read_run 8 3 out.angular_velocity >>= λ angular_velocity.
        read_run 8 9 out.angular_velocity_covariance >>= λ angular_velocity_covariance.
        read_run 8 3 out.linear_acceleration >>= λ linear_acceleration.
        read_run 8 9 out.linear_acceleration_covariance >>= λ linear_acceleration_covariance.
        pure (record i {
          orientation = orientation;
          orientation_covariance = orientation_covariance;
          angular_velocity = angular_velocity;
          angular_velocity_covariance = angular_velocity_covariance;
          linear_acceleration = linear_acceleration;
          linear_acceleration_covariance = linear_acceleration_covariance;
        }))
      (Agrees-doubles 4 i.orientation out.orientation d.orientation o.orientation)
      (Agrees-bind
        (λ orientation_covariance. read_run 8 3 out.angular_velocity >>= λ angular_velocity.
          read_run 8 9 out.angular_velocity_covariance >>= λ angular_velocity_covariance.
          read_run 8 3 out.linear_acceleration >>= λ linear_acceleration.
          read_run 8 9 out.linear_acceleration_covariance >>= λ linear_acceleration_covariance.
          pure (record i {
            orientation_covariance = orientation_covariance;
            angular_velocity = angular_velocity;
            angular_velocity_covariance = angular_velocity_covariance;
            linear_acceleration = linear_acceleration;
            linear_acceleration_covariance = linear_acceleration_covariance;
          }))
        (Agrees-doubles 9 i.orientation_covariance out.orientation_covariance
          d.orientation_covariance o.orientation_covariance)
        (Agrees-bind
          (λ angular_velocity.
            read_run 8 9 out.angular_velocity_covariance >>= λ angular_velocity_covariance.
            read_run 8 3 out.linear_acceleration >>= λ linear_acceleration.
            read_run 8 9 out.linear_acceleration_covariance >>= λ linear_acceleration_covariance.
            pure (record i {
              angular_velocity = angular_velocity;
              angular_velocity_covariance = angular_velocity_covariance;
              linear_acceleration = linear_acceleration;
              linear_acceleration_covariance = linear_acceleration_covariance;
            }))
          (Agrees-doubles 3 i.angular_velocity out.angular_velocity d.angular_velocity
            o.angular_velocity)
          (Agrees-bind
            (λ angular_velocity_covariance.
              read_run 8 3 out.linear_acceleration >>= λ linear_acceleration.
              read_run 8 9 out.linear_acceleration_covariance >>= λ linear_acceleration_covariance.
              pure (record i {
                angular_velocity_covariance = angular_velocity_covariance;
                linear_acceleration = linear_acceleration;
                linear_acceleration_covariance = linear_acceleration_covariance;
              }))
            (Agrees-doubles 9 i.angular_velocity_covariance out.angular_velocity_covariance
              d.angular_velocity_covariance o.angular_velocity_covariance)
            (Agrees-bind
              (λ linear_acceleration.
                read_run 8 9 out.linear_acceleration_covariance
                >>= λ linear_acceleration_covariance. pure (record i {
                  linear_acceleration = linear_acceleration;
                  linear_acceleration_covariance = linear_acceleration_covariance;
                }))
              (Agrees-doubles 3 i.linear_acceleration out.linear_acceleration d.linear_acceleration
                o.linear_acceleration)
              (Agrees-bind
                (λ linear_acceleration_covariance.
                  pure
                    (record i { linear_acceleration_covariance = linear_acceleration_covariance }))
                (Agrees-doubles 9 i.linear_acceleration_covariance
                  out.linear_acceleration_covariance d.linear_acceleration_covariance
                  o.linear_acceleration_covariance)
                (Agrees-pure i)))))))

Agrees-magnetic_field :
    (f out : MagneticField)
    → IsMagneticField f
    → IsMagneticField out
    → Agrees (decode_magnetic_field out) f (encode_magnetic_field f)
unfolding decode_magnetic_field encode_magnetic_field
Agrees-magnetic_field f out d o =
    (Agrees-bind
      (λ magnetic_field. read_run 8 9 out.magnetic_field_covariance >>= λ magnetic_field_covariance.
        pure (record {
          magnetic_field = magnetic_field;
          magnetic_field_covariance = magnetic_field_covariance;
        }))
      (Agrees-doubles 3 f.magnetic_field out.magnetic_field d.magnetic_field o.magnetic_field)
      (Agrees-bind
        (λ magnetic_field_covariance. pure (record {
          magnetic_field = f.magnetic_field;
          magnetic_field_covariance = magnetic_field_covariance;
        }))
        (Agrees-doubles 9 f.magnetic_field_covariance out.magnetic_field_covariance
          d.magnetic_field_covariance o.magnetic_field_covariance)
        (Agrees-pure f)))

Agrees-fluid_pressure :
    (p out : FluidPressure)
    → IsFluidPressure p
    → Agrees (decode_fluid_pressure out) p (encode_fluid_pressure p)
unfolding decode_fluid_pressure encode_fluid_pressure
Agrees-fluid_pressure p out d =
    (Agrees-bind
      (λ fluid_pressure. read_u64 >>= λ variance.
        pure (record { fluid_pressure = fluid_pressure; variance = variance }))
      (Agrees-u64 p.fluid_pressure d.fluid_pressure)
      (Agrees-bind
        (λ variance. pure (record { fluid_pressure = p.fluid_pressure; variance = variance }))
        (Agrees-u64 p.variance d.variance) (Agrees-pure p)))

-- An Imu, a MagneticField and a FluidPressure message, whose header's seconds fit a signed 32-bit
-- number, whose frame is shorter than 2 ^ 32 - 1 octets and whose arrays are as long as their types
-- say, with 64-bit elements, are each decoded from their encoding as themselves: decode reports that
-- the message is fine, and leaves nothing of the struct that it was given, whose arrays are as long.
pub decode-encode :
    (h held : Header) (i old_i : Imu) (f old_f : MagneticField) (p old_p : FluidPressure)
    → Stampable h
    → IsImu i
    → IsImu old_i
    → IsMagneticField f
    → IsMagneticField old_f
    → IsFluidPressure p
    → (decode decode_imu
          (encode encode_imu (record { header = h; payload = i }) encapsulation)
          (record { header = held; payload = old_i })
        ≡ record { out = record { header = h; payload = i }; fine = true })
      × ((decode decode_magnetic_field
              (encode encode_magnetic_field (record { header = h; payload = f }) encapsulation)
              (record { header = held; payload = old_f })
            ≡ record { out = record { header = h; payload = f }; fine = true })
          × (decode decode_fluid_pressure
                (encode encode_fluid_pressure (record { header = h; payload = p }) encapsulation)
                (record { header = held; payload = old_p })
              ≡ record { out = record { header = h; payload = p }; fine = true }))
decode-encode h held i old_i f old_f p old_p s di do_i df do_f dp = (
  decode-encode_of decode_imu encode_imu (record { header = h; payload = i })
      (record { header = held; payload = old_i }) s (Agrees-imu i old_i di do_i),
  (
    decode-encode_of decode_magnetic_field encode_magnetic_field
        (record { header = h; payload = f }) (record { header = held; payload = old_f }) s
        (Agrees-magnetic_field f old_f df do_f),
    decode-encode_of decode_fluid_pressure encode_fluid_pressure
        (record { header = h; payload = p }) (record { header = held; payload = old_p }) s
        (Agrees-fluid_pressure p old_p dp),
  ),
)
