-- ===== src/Desktop.antt =====
-- The calls lrtc_impl_desktop_media_list_update and _get_source_count, lrtc_impl_media_source_get_* and
-- lrtc_impl_desktop_capturer_* of native/src/lumenrtc_impl.cpp, in a build with RTC_DESKTOP_DEVICE. A handle
-- that is null or has no `ref` is `none`.
use lumen_rtc.Base.{
  ℕ, ◌≡◌, refl, Bool, false, List, [], Option, none, some, ◌==◌, Allocator, ℤ, negsuc, pos,
}
use lumen_rtc.Text.{Bytes}
use lumen_rtc.Text.Copy.{copy_string}
use lumen_rtc.Capturer.{
  DesktopType, screen, window, CaptureState, running, stopped, failed, Capturer, Platform,
  is_running, start, start_region, stop,
}
use lumen_rtc.Capturer
use lumen_rtc.Json.{to_string}
use lumen_rtc.MediaList.{MediaList, NewSource, Source, update_source_list, get_source_count}
use lumen_rtc.MediaList

-- lrtc_desktop_capture_state.
abbrev pub state_code : CaptureState → ℕ
state_code running = 0
state_code stopped = 1
state_code failed = 2

-- lrtc_impl_desktop_media_list_update.
unfoldable pub desktop_media_list_update :
    Allocator
    → Bool
    → Bool
    → Option (List NewSource)
    → Option MediaList
    → ℤ × Option MediaList × List MediaList.Event
desktop_media_list_update heap force thumbnail retrieved none = (negsuc 0, none, [])
desktop_media_list_update heap force thumbnail retrieved (some l) =
    let r = update_source_list heap force thumbnail retrieved l in (r.0, some r.1, r.2)

-- lrtc_impl_desktop_media_list_get_source_count.
unfoldable pub desktop_media_list_get_source_count : Option MediaList → ℕ
desktop_media_list_get_source_count none = 0
desktop_media_list_get_source_count (some l) = get_source_count l

-- lrtc_impl_media_source_get_id, by MediaSourceImpl::id, with the buffer afterwards.
unfoldable pub media_source_get_id : Option Source → Option Bytes → ℕ → ℤ × Option Bytes
media_source_get_id none buffer len = (negsuc 0, buffer)
media_source_get_id (some s) buffer len = copy_string (to_string (pos s.id)) buffer len

-- lrtc_impl_media_source_get_name, by MediaSourceImpl::name, of a source that the list has made.
unfoldable pub media_source_get_name :
    MediaList → Option Source → Option Bytes → ℕ → ℤ × Option Bytes
media_source_get_name l none buffer len = (negsuc 0, buffer)
media_source_get_name l (some s) buffer len = copy_string (l.title s.address) buffer len

abbrev type_code : DesktopType → ℤ
type_code screen = pos 0
type_code window = pos 1

-- lrtc_impl_media_source_get_type: a source is of its list's type.
unfoldable pub media_source_get_type : MediaList → Option Source → ℤ
media_source_get_type l none = negsuc 0
media_source_get_type l (some s) = type_code l.type

abbrev pub answer : Capturer × List Capturer.Event → ℕ × Option Capturer × List Capturer.Event
answer r = (state_code r.0.capture_state, some r.0, r.1)

-- lrtc_impl_desktop_capturer_start.
unfoldable pub desktop_capturer_start :
    Platform → ℕ → Option Capturer → ℕ × Option Capturer × List Capturer.Event
desktop_capturer_start p fps none = (2, none, [])
desktop_capturer_start p fps (some c) = answer (start p fps c)

-- lrtc_impl_desktop_capturer_start_region.
unfoldable pub desktop_capturer_start_region :
    Platform → ℕ → ℕ → ℕ → ℕ → ℕ → Option Capturer → ℕ × Option Capturer × List Capturer.Event
desktop_capturer_start_region p fps x y w h none = (2, none, [])
desktop_capturer_start_region p fps x y w h (some c) = answer (start_region p fps x y w h c)

-- lrtc_impl_desktop_capturer_stop.
unfoldable pub desktop_capturer_stop : Option Capturer → Option Capturer × List Capturer.Event
desktop_capturer_stop none = (none, [])
desktop_capturer_stop (some c) = let r = stop c in (some r.0, r.1)

-- lrtc_impl_desktop_capturer_is_running.
unfoldable pub desktop_capturer_is_running : Option Capturer → Bool
desktop_capturer_is_running none = false
desktop_capturer_is_running (some c) = is_running c.capture_state

state_code-is_running : (s : CaptureState) → is_running s ≡ (state_code s == 0)
state_code-is_running running = refl
state_code-is_running stopped = refl
state_code-is_running failed = refl

-- A start of a whole screen or of a region answers 0 exactly if the capturer runs behind it, and a stopped
-- capturer does not run.
pub start_answers :
    (p : Platform) (fps x y w h : ℕ) (c : Option Capturer)
    → (desktop_capturer_is_running (desktop_capturer_start p fps c).1
        ≡ ((desktop_capturer_start p fps c).0 == 0))
      × (desktop_capturer_is_running (desktop_capturer_start_region p fps x y w h c).1
          ≡ ((desktop_capturer_start_region p fps x y w h c).0 == 0))
      × (desktop_capturer_is_running (desktop_capturer_stop c).0 ≡ false)
unfolding desktop_capturer_is_running desktop_capturer_start desktop_capturer_start_region
    desktop_capturer_stop stop
start_answers p fps x y w h none = (refl, refl, refl)
start_answers p fps x y w h (some c) = (state_code-is_running _, state_code-is_running _, refl)
