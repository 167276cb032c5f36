-- ===== src/Ros/Replay/Images.antt =====
-- What a replay finds in a recorded image.

use perception_pipeline.Cdr.Kept.{Kept-length, kept, Kept, Kept-again}
use perception_pipeline.Cdr.Writer.{write_bytes, write_u8, write_str, write_u32}
use perception_pipeline.Cdr.Agrees.{Agrees-at, Agrees-bytes, Agrees-u8, Agrees-str, Agrees-u32}
use perception_pipeline.Cdr.{open_reader, encapsulation}
use perception_pipeline.Cdr.RoundTrip.{reading}
use perception_pipeline.Ros.{
  ImageDesc, bayer8_rggb, bayer8_grbg, bayer8_gbrg, bayer8_bggr, gray8, rgb8, rgba8,
}
use perception_pipeline.Ros.Replay.{
  with_format, opened, Geometry, to_image_desc, geometry_of, open_source, camera_formats,
  decode_image, image_formats, camera_format_of, checked, decode_image_at, DecodedImage,
}
use perception_pipeline.Ros.RoundTrip.{Stampable}
use perception_pipeline.Ros.{
  gray8, bayer8_bggr, bayer8_gbrg, write_image_body, bayer8_grbg, write_header, bayer8_rggb,
  encode_image, encode, PixelFormat, ros_encoding, Image, Message,
}
use perception_pipeline.Prelude.{
  find_text, codes, ltb, ◌≤◌, ◌∙◌, ap, ℕ, List, refl, append-nil, sym, [], ◌*◌, false, leb, ◌%◌,
  ◌/◌, some, ◌≡◌, arith, ◌+◌, length, ◌<◌, ◌^◌,
}

-- The numbers fit the fields of an image message.
pub record Recordable (m : Message Image) : Type 0 where
  pub stampable : Stampable m.header
  pub width : m.payload.desc.width < 2 ^ 32
  pub height : m.payload.desc.height < 2 ^ 32
  pub stride_bytes : m.payload.desc.stride_bytes < 2 ^ 32
  pub pixels : length m.payload.pixels < 2 ^ 32

abbrev pub decoded : Message Image → DecodedImage
decoded m = record {
  stamp_ns = m.header.stamp_ns;
  frame_id = m.header.frame_id;
  width = m.payload.desc.width;
  height = m.payload.desc.height;
  step = m.payload.desc.stride_bytes;
  encoding = ros_encoding m.payload.desc.format;
  pixels = m.payload.pixels;
}

ros_encoding-short : (f : PixelFormat) → length (ros_encoding f) + 1 < 2 ^ 32
unfolding ros_encoding
ros_encoding-short bayer8_rggb = omega arith
ros_encoding-short bayer8_grbg = omega arith
ros_encoding-short bayer8_gbrg = omega arith
ros_encoding-short bayer8_bggr = omega arith
ros_encoding-short gray8 = omega arith
ros_encoding-short rgb8 = omega arith
ros_encoding-short rgba8 = omega arith

decode_image_at-encode :
    (m : Message Image)
    → Recordable m
    → (4 ≤ length (encode encode_image m encapsulation))
      × (decode_image_at (reading (encode encode_image m encapsulation) encapsulation) ≡ record {
        value = some (decoded m);
        reader =
            reading (encode encode_image m encapsulation) (encode encode_image m encapsulation);
      })
unfolding decode_image_at encode encode_image write_header write_image_body checked
decode_image_at-encode m f =
    let sec = m.header.stamp_ns / 1000000000 in
    let wraps : sec % 2 ^ 32 ≡ sec = omega (arith, f.stampable.seconds) in
    let early : leb (2 ^ 31) (sec % 2 ^ 32) ≡ false = ground (arith, f.stampable.seconds, wraps) in
    let joined : (sec % 2 ^ 32 * 1000000000 + m.header.stamp_ns % 1000000000) % 2 ^ 64
        ≡ m.header.stamp_ns =
      omega (arith, f.stampable.seconds) in
    let a0 = Agrees-u32 (m.header.stamp_ns / 1000000000 % 2 ^ 32) (omega arith) in
    let a1 = Agrees-u32 (m.header.stamp_ns % 1000000000) (omega arith) in
    let a2 = Agrees-str m.header.frame_id f.stampable.frame in
    let a3 = Agrees-u32 m.payload.desc.height f.height in
    let a4 = Agrees-u32 m.payload.desc.width f.width in
    let a5 =
      Agrees-str (ros_encoding m.payload.desc.format) (ros_encoding-short m.payload.desc.format) in
    let a6 = Agrees-u8 0 (omega arith) in
    let a7 = Agrees-u32 m.payload.desc.stride_bytes f.stride_bytes in
    let a8 = Agrees-bytes m.payload.pixels f.pixels in
    let b1 = write_u32 (m.header.stamp_ns / 1000000000 % 2 ^ 32) encapsulation in
    let b2 = write_u32 (m.header.stamp_ns % 1000000000) b1 in
    let b3 = write_str m.header.frame_id b2 in
    let b4 = write_u32 m.payload.desc.height b3 in
    let b5 = write_u32 m.payload.desc.width b4 in
    let b6 = write_str (ros_encoding m.payload.desc.format) b5 in
    let b7 = write_u8 0 b6 in
    let b8 = write_u32 m.payload.desc.stride_bytes b7 in
    let b9 = write_bytes m.payload.pixels b8 in
    let f1 = a0.keeps encapsulation in
    let f2 = Kept-again encapsulation b1 b2 f1 (a1.keeps b1) in
    let f3 = Kept-again encapsulation b2 b3 f2 (a2.keeps b2) in
    let f4 = Kept-again encapsulation b3 b4 f3 (a3.keeps b3) in
    let f5 = Kept-again encapsulation b4 b5 f4 (a4.keeps b4) in
    let f6 = Kept-again encapsulation b5 b6 f5 (a5.keeps b5) in
    let f7 = Kept-again encapsulation b6 b7 f6 (a6.keeps b6) in
    let f8 = Kept-again encapsulation b7 b8 f7 (a7.keeps b7) in
    let f9 = Kept-again encapsulation b8 b9 f8 (a8.keeps b8) in
    let k9 : Kept b9 b9 = record { more = []; same = sym (append-nil b9) } in
    let k8 = Kept-again b8 b9 b9 (a8.keeps b8) k9 in
    let k7 = Kept-again b7 b8 b9 (a7.keeps b7) k8 in
    let k6 = Kept-again b6 b7 b9 (a6.keeps b6) k7 in
    let k5 = Kept-again b5 b6 b9 (a5.keeps b5) k6 in
    let k4 = Kept-again b4 b5 b9 (a4.keeps b4) k5 in
    let k3 = Kept-again b3 b4 b9 (a3.keeps b3) k4 in
    let k2 = Kept-again b2 b3 b9 (a2.keeps b2) k3 in
    let k1 = Kept-again b1 b2 b9 (a1.keeps b1) k2 in
    (
      Kept-length encapsulation b9 f9,
      (rw (Agrees-at encapsulation b9 a0 (kept encapsulation []) k1) (
          rw (Agrees-at b1 b9 a1 f1 k2) (
            rw (Agrees-at b2 b9 a2 f2 k3) (
              rw (Agrees-at b3 b9 a3 f3 k4) (
                rw (Agrees-at b4 b9 a4 f4 k5) (
                  rw (Agrees-at b5 b9 a5 f5 k6) (
                    rw (Agrees-at b6 b9 a6 f6 k7) (
                      rw (Agrees-at b7 b9 a7 f7 k8)
                        (rw (Agrees-at b8 b9 a8 f8 k9) (rw early (rw joined refl))))))))))),
    )

-- A source opens on `content` with a geometry that an application reads as `desc`.
pub record OpensAs (content : List ℕ) (desc : ImageDesc) (bytes : ℕ) : Type 0 where
  pub geometry : Geometry
  pub opens : open_source (some content) ≡ opened geometry
  pub describes : to_image_desc geometry ≡ some desc
  pub slots : geometry.buffer_bytes ≡ bytes

camera_format : PixelFormat → List ℕ
camera_format bayer8_rggb = codes "BayerRG8"
camera_format bayer8_grbg = codes "BayerGR8"
camera_format bayer8_gbrg = codes "BayerGB8"
camera_format bayer8_bggr = codes "BayerBG8"
camera_format gray8 = codes "Mono8"
camera_format rgb8 = codes "RGB8"
camera_format rgba8 = codes "RGBa8"

camera_format_of-ros_encoding :
    (f : PixelFormat) → camera_format_of (ros_encoding f) ≡ some (camera_format f)
unfolding camera_format_of camera_formats ros_encoding camera_format
camera_format_of-ros_encoding bayer8_rggb = refl
camera_format_of-ros_encoding bayer8_grbg = refl
camera_format_of-ros_encoding bayer8_gbrg = refl
camera_format_of-ros_encoding bayer8_bggr = refl
camera_format_of-ros_encoding gray8 = refl
camera_format_of-ros_encoding rgb8 = refl
camera_format_of-ros_encoding rgba8 = refl

find_text-camera_format : (f : PixelFormat) → find_text (camera_format f) image_formats ≡ some f
unfolding image_formats camera_format
find_text-camera_format bayer8_rggb = refl
find_text-camera_format bayer8_grbg = refl
find_text-camera_format bayer8_gbrg = refl
find_text-camera_format bayer8_bggr = refl
find_text-camera_format gray8 = refl
find_text-camera_format rgb8 = refl
find_text-camera_format rgba8 = refl

decoded_again :
    (m : Message Image)
    → Recordable m
    → decode_image (encode encode_image m encapsulation) ≡ some (decoded m)
unfolding decode_image open_reader
decoded_again m f =
    let content = encode encode_image m encapsulation in
    let (long, whole) = decode_image_at-encode m f in
    let enough : ltb (length content) 4 ≡ false = ground arith in
    rw enough (ap (λ q. q.value) whole)

-- An image message whose header's seconds fit a signed 32-bit number, whose frame is shorter than
-- 2 ^ 32 - 1 octets and whose width, height, stride and number of octets fit 32 bits is decoded from its
-- encoding with its stamp, frame, geometry, encoding name and pixels; a source that opens on it has
-- buffers of the size of its pixels, and an application describes the source's images by the same
-- image description, pixel format included.
pub decode_image-encode :
    (m : Message Image)
    → Recordable m
    → (decode_image (encode encode_image m encapsulation) ≡ some (decoded m))
      × OpensAs (encode encode_image m encapsulation) m.payload.desc (length m.payload.pixels)
unfolding decode_image open_source geometry_of to_image_desc
decode_image-encode m f =
    let content = encode encode_image m encapsulation in
    let decodes : decode_image content ≡ some (decoded m) = decoded_again m f in
    let format = m.payload.desc.format in
    (
      decodes,
      record {
        geometry = record {
          width = m.payload.desc.width;
          height = m.payload.desc.height;
          stride_bytes = m.payload.desc.stride_bytes;
          pixel_format = camera_format format;
          frame_bytes = length m.payload.pixels;
          buffer_bytes = length m.payload.pixels;
        };
        opens =
            ap geometry_of decodes
            ∙ ap (with_format (decoded m)) (camera_format_of-ros_encoding format);
        describes = rw (find_text-camera_format format) refl;
        slots = refl;
      },
    )
