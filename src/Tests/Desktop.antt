-- ===== src/Tests/Desktop.antt =====
-- Examples on the desktop capturer and the list of sources.
use lumen_rtc.Base.{◌≡◌, refl, true, false, List, [], ◌∷◌, ◌++◌, some, bump, pos}
use lumen_rtc.Capturer.{Capturer, Platform, Capture, window, success, start}
use lumen_rtc.Capturer.Invariant.{Reach, new, next, starts, created, IsSteady, Reach-IsSteady}
use lumen_rtc.MediaList.{MediaList, NewSource, update_source_list}
use lumen_rtc.MediaList.View.{has, replay}
use lumen_rtc.MediaList.Run.{Run, begin, updates, replay-Run}
use lumen_rtc.MediaList.Run
use lumen_rtc.MediaList.Queue.{
  Thumbnails, Request, none_requested, request_thumbnail, on_capture_result, requested, save,
  IsServing, Reach-IsServing, result_saved,
}
use lumen_rtc.MediaList.Queue

abbrev willing : Platform
willing = record { select_source = λ id. true; focus = true }

abbrev fresh_capturer : Capturer
fresh_capturer = created true window (pos 5)

abbrev capturing : Capturer
capturing = (start willing 30 fresh_capturer).0

abbrev capturing_Reach : Reach capturing
capturing_Reach = next (new true window (pos 5)) (starts willing 30)

Reach-IsSteady_example : IsSteady capturing
Reach-IsSteady_example = Reach-IsSteady capturing_Reach

abbrev captures : List Capture
captures =
    record { millis = 5; reported = some success; size = some (640, 480); converted = true } ∷ []

abbrev windows : List NewSource
windows = record { id = 7; title = b'a' ∷ [] } ∷ record { id = 9; title = b'b' ∷ [] } ∷ []

abbrev new_list : MediaList
new_list = Run.created true window (λ a. [])

abbrev listed : MediaList
listed = (update_source_list bump false true (some windows) new_list).1

abbrev listed_Run :
    Run bump listed ([] ++ (update_source_list bump false true (some windows) new_list).2)
listed_Run = updates (begin true window (λ a. [])) false true (some windows) (refl, (refl, tt))

replay-Run_example :
    replay
      (record { address = 1; id = 7 })
      ([] ++ (update_source_list bump false true (some windows) new_list).2)
      false
    ≡ has (record { address = 1; id = 7 }) listed.sources
replay-Run_example = replay-Run bump listed_Run (record { address = 1; id = 7 })

abbrev request : Request
request = record { source = record { address = 1; id = 7 }; notify = true }

abbrev waiting : Thumbnails
waiting = (request_thumbnail true (λ id. true) request none_requested).0

abbrev waiting_Reach : Queue.Reach waiting
waiting_Reach = Queue.next Queue.start (requested (λ id. true) request)

Reach-IsServing_example : IsServing waiting
Reach-IsServing_example = Reach-IsServing waiting_Reach
