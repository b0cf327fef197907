-- ===== src/Picture.antt =====
-- The pictures of video frames: bridge/lumenrtc_bridge/src/rtc_video_frame_impl.cc and the calls
-- lrtc_impl_video_frame_width to lrtc_impl_video_frame_to_argb of native/src/lumenrtc_impl.cpp. WebRTC's buffers
-- and libyuv are parameters. Sizes are numbers whose products fit an int; a pointer is an offset or an address.
pub mod Planes
pub mod Convert
use lumen_rtc.Base.{
  ℕ, ◌+◌, ◌*◌, ◌/◌, Bool, true, false, ◌&&◌, Option, none, some, is_some, if◌then◌else◌, ◌==◌, ltb,
  ℤ, pos, negsuc,
}

-- webrtc::I420BufferInterface.
pub record I420 : Type 0 where
  pub data_y : Option ℕ
  pub data_u : Option ℕ
  pub data_v : Option ℕ
  pub stride_y : ℤ
  pub stride_u : ℤ
  pub stride_v : ℤ

-- webrtc::VideoFrameBuffer: its size, and what GetI420 gives, which is null for a buffer of another type.
pub record Buffer : Type 0 where
  pub width : ℤ
  pub height : ℤ
  pub i420 : Option I420

pub data Rotation : Type 0 where
  rotation_0 rotation_90 rotation_180 rotation_270 : Rotation

-- VideoFrameBufferImpl.
pub record Frame : Type 0 where
  pub buffer : Buffer
  pub rotation : Rotation
  pub timestamp_us : ℕ

-- The constructors.
unfoldable pub new_frame : Buffer → Frame
new_frame b = record { buffer = b; rotation = rotation_0; timestamp_us = 0 }

-- VideoFrameBufferImpl::Copy.
unfoldable pub copy : Frame → Frame
unfolding new_frame
copy f = new_frame f.buffer

-- VideoFrameBufferImpl::rotation, in degrees.
unfoldable pub rotation_degrees : Frame → ℕ
rotation_degrees f = elim f.rotation [
  | rotation_0 ↦ 0
  | rotation_90 ↦ 90
  | rotation_180 ↦ 180
  | rotation_270 ↦ 270
]

-- lrtc_impl_video_frame_width, of a handle that is null or has no frame, or of a frame.
unfoldable pub frame_width : Option Frame → ℤ
frame_width none = pos 0
frame_width (some f) = f.buffer.width

-- lrtc_impl_video_frame_height.
unfoldable pub frame_height : Option Frame → ℤ
frame_height none = pos 0
frame_height (some f) = f.buffer.height

-- A call through a null pointer is `none`.
abbrev pub read : {A : Type 0} → (I420 → A) → Frame → Option A
read get f = elim f.buffer.i420 [ none ↦ none | some b ↦ some (get b) ]

-- lrtc_impl_video_frame_stride_y, _stride_u and _stride_v with VideoFrameBufferImpl::StrideY and its like.
unfoldable pub stride : (I420 → ℤ) → Option Frame → Option ℤ
stride get none = some (pos 0)
stride get (some f) = read get f

-- lrtc_impl_video_frame_data_y, _data_u and _data_v with VideoFrameBufferImpl::DataY and its like.
unfoldable pub plane : (I420 → Option ℕ) → Option Frame → Option (Option ℕ)
plane get none = some none
plane get (some f) = read get f

-- The client's destination of lrtc_impl_video_frame_copy_i420.
pub record Destination : Type 0 where
  pub y : Option ℕ
  pub u : Option ℕ
  pub v : Option ℕ

abbrev pub all_set : Option ℕ → Option ℕ → Option ℕ → Bool
all_set y u v = is_some y && (is_some u && is_some v)

abbrev pub is_zero : ℤ → Bool
is_zero (pos n) = n == 0
is_zero (negsuc n) = false

-- lrtc_impl_video_frame_copy_i420, where libyuv's I420Copy of a picture answers by `i420_copy`.
unfoldable pub copy_i420 : (I420 → ℤ → ℤ → ℤ) → Destination → Option Frame → Option ℕ
copy_i420 i420_copy d none = some 0
copy_i420 i420_copy d (some f) = elim f.buffer.i420 [
  | none ↦ none
  | some b ↦
      if all_set b.data_y b.data_u b.data_v && all_set d.y d.u d.v
      then some (if is_zero (i420_copy b f.buffer.width f.buffer.height) then 1 else 0)
      else some 0
]

-- Where RTCVideoFrame::Create, of one buffer, finds the planes, and their strides.
pub record Layout : Type 0 where
  pub data_y : ℕ
  pub stride_y : ℕ
  pub data_u : ℕ
  pub data_v : ℕ
  pub stride_uv : ℕ

unfoldable pub create : ℕ → ℕ → Layout
create width height =
    let stride_uv = (width + 1) / 2 in
    record {
      data_y = 0;
      stride_y = width;
      data_u = width * height;
      data_v = width * height + stride_uv * height / 2;
      stride_uv = stride_uv;
    }

-- What libyuv is asked to write: the format, the bytes from one row's begin to the next, the pixels in a row
-- and the rows.
pub record Written : Type 0 where
  pub format : ℕ
  pub row_stride : ℕ
  pub columns : ℕ
  pub rows : ℕ

-- VideoFrameBufferImpl::ConvertToARGB: what it has written, and its result. The formats are 0 to 3.
unfoldable pub convert_to_argb : ℕ → ℕ → ℕ → ℕ → Option Written × ℕ
convert_to_argb format dst_stride dest_width dest_height = (
  if ltb format 4
      then some (record {
        format = format;
        row_stride = dest_width * 32 / 8;
        columns = dest_width;
        rows = dest_height;
      })
      else none,
  dest_width * dest_height * 4,
)

-- lrtc_impl_video_frame_to_argb, of a handle and a buffer that may be null.
unfoldable pub to_argb : Bool → Bool → ℕ → ℕ → ℕ → ℕ → Option Written × ℕ
unfolding convert_to_argb
to_argb frame? dst? format dst_stride dest_width dest_height =
    if frame? && dst? then convert_to_argb format dst_stride dest_width dest_height else (none, 0)
