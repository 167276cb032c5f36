-- ===== src/Ros/Replay.antt =====
-- recording/src/image_replay_source.cpp: a recorded image topic as a frame source, and to_image_desc of
-- app/src/app_config.cpp, which the applications apply to its geometry.
pub mod Images
pub mod Slots
use perception_pipeline.Ros.{
  rgba8, rgb8, gray8, bayer8_bggr, bayer8_gbrg, bayer8_grbg, bayer8_rggb, ImageDesc, PixelFormat,
}
use perception_pipeline.Cdr.{read_bytes, read_u8, read_str, read_u32, Read, Reader, open_reader}
use perception_pipeline.Cdr.Agrees.{◌>>=◌}
use perception_pipeline.Prelude.{
  find_text, codes, Bool, List, Option, [], if◌then◌else◌, leb, length, none, not, some, ℕ, ◌%◌,
  ◌*◌, ◌+◌, ◌^◌, ◌||◌, ◌∷◌,
}

unfoldable pub camera_formats : List (List ℕ × List ℕ)
camera_formats =
    (codes "bayer_rggb8", codes "BayerRG8")
    ∷ (codes "bayer_grbg8", codes "BayerGR8")
    ∷ (codes "bayer_gbrg8", codes "BayerGB8")
    ∷ (codes "bayer_bggr8", codes "BayerBG8")
    ∷ (codes "mono8", codes "Mono8")
    ∷ (codes "rgb8", codes "RGB8")
    ∷ (codes "rgba8", codes "RGBa8")
    ∷ []

unfoldable pub camera_format_of : List ℕ → Option (List ℕ)
unfolding camera_formats
camera_format_of encoding = find_text encoding camera_formats

pub record DecodedImage : Type 0 where
  pub stamp_ns : ℕ
  pub frame_id : List ℕ
  pub width : ℕ
  pub height : ℕ
  pub step : ℕ
  pub encoding : List ℕ
  pub pixels : List ℕ

-- The checks at the end of decode_image, on the seconds and on what was read.
unfoldable pub checked : ℕ → Bool → Option (List ℕ) → DecodedImage → Option DecodedImage
checked sec fine none out = none
checked sec fine (some pixels) out = if not fine || leb (2 ^ 31) sec then none else some out

abbrev pub or_none : Option (List ℕ) → List ℕ
or_none none = []
or_none (some xs) = xs

-- None stands for false, where the callers ignore `out`.
unfoldable pub decode_image_at : Reader → Read (Option DecodedImage)
unfolding checked
decode_image_at = do
  sec ← read_u32
  nsec ← read_u32
  frame_id ← read_str
  height ← read_u32
  width ← read_u32
  encoding ← read_str
  is_bigendian ← read_u8
  step ← read_u32
  pixels ← read_bytes
  λ r. record {
    value = checked sec r.ok pixels (record {
      stamp_ns = (sec * 1000000000 + nsec) % 2 ^ 64;
      frame_id = frame_id;
      width = width;
      height = height;
      step = step;
      encoding = encoding;
      pixels = or_none pixels;
    });
    reader = r;
  }

unfoldable pub decode_image : List ℕ → Option DecodedImage
unfolding decode_image_at
decode_image content = (decode_image_at (open_reader content)).value

pub record Geometry : Type 0 where
  pub width : ℕ
  pub height : ℕ
  pub stride_bytes : ℕ
  pub pixel_format : List ℕ
  pub frame_bytes : ℕ
  pub buffer_bytes : ℕ

-- What the constructor throws, or the geometry that it takes from the first message.
pub data Opened : Type 0 where
  no_message not_decodable : Opened
  no_pixel_format : List ℕ → Opened
  opened : Geometry → Opened

abbrev pub with_format : DecodedImage → Option (List ℕ) → Opened
with_format first none = no_pixel_format first.encoding
with_format first (some format) = opened (record {
  width = first.width;
  height = first.height;
  stride_bytes = first.step;
  pixel_format = format;
  frame_bytes = length first.pixels;
  buffer_bytes = length first.pixels;
})

unfoldable pub geometry_of : Option DecodedImage → Opened
unfolding camera_format_of
geometry_of none = not_decodable
geometry_of (some first) = with_format first (camera_format_of first.encoding)

-- The argument is what read_first finds on the topic.
unfoldable pub open_source : Option (List ℕ) → Opened
unfolding geometry_of decode_image
open_source none = no_message
open_source (some content) = geometry_of (decode_image content)

unfoldable pub image_formats : List (List ℕ × PixelFormat)
image_formats =
    (codes "BayerRG8", bayer8_rggb)
    ∷ (codes "BayerGR8", bayer8_grbg)
    ∷ (codes "BayerGB8", bayer8_gbrg)
    ∷ (codes "BayerBG8", bayer8_bggr)
    ∷ (codes "Mono8", gray8)
    ∷ (codes "RGB8", rgb8)
    ∷ (codes "RGBa8", rgba8)
    ∷ []

abbrev pub desc_with : Geometry → Option PixelFormat → Option ImageDesc
desc_with g none = none
desc_with g (some format) =
    some (record {
      width = g.width;
      height = g.height;
      stride_bytes = g.stride_bytes;
      format = format;
    })

-- None stands for the exception.
unfoldable pub to_image_desc : Geometry → Option ImageDesc
unfolding image_formats
to_image_desc g = desc_with g (find_text g.pixel_format image_formats)
