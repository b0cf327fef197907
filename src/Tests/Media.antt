-- ===== src/Tests/Media.antt =====
-- Examples on frame cryptors, video renderers and audio senders.
use lumen_rtc.Base.{is_some, refl, pos, false, List, ◌≡◌, ◌≢◌, true, [], ◌∷◌, some}
use lumen_rtc.Cryptor.{
  Provider, create_provider, export_key, export_shared_key, ratchet_key, ratchet_shared_key,
}
use lumen_rtc.Cryptor.Keys
use lumen_rtc.Renderers.{Adapter, add_renderer, remove_renderer, take_renderers, call_next}
use lumen_rtc.Renderers.Frames.{Run, rest, then_step, adds, takes, removed_renderer_rests}
use lumen_rtc.VideoCapture.{VcmCapturer, start, stop}
use lumen_rtc.VideoCapture.Life.{requests, requests-allowed}

-- A shared key 7 of the index 0, and a participant "a" with the key 8 of the index 1.
abbrev calls : List Keys.Call
calls = Keys.shares 0 (7 ∷ []) ∷ Keys.sets (97 ∷ []) 1 (8 ∷ []) ∷ Keys.ratchets (97 ∷ []) 1 ∷ []

abbrev provider : Provider
provider = Keys.run calls (create_provider (some true))

export_key-run_example :
    (export_key (97 ∷ []) 0 provider ≡ 7 ∷ [])
    × (export_shared_key 0 provider ≡ 7 ∷ [])
    × (ratchet_key (97 ∷ []) 0 provider ≡ (export_key (97 ∷ []) 0 provider, provider))
    × (ratchet_shared_key 0 provider ≡ (export_shared_key 0 provider, provider))
export_key-run_example = Keys.export_key-run (some true) calls (97 ∷ []) 0

abbrev two_renderers : Adapter
two_renderers = record { renderers = 5 ∷ 6 ∷ []; under_way = [] }

abbrev other_added : Adapter
other_added = add_renderer 7 (remove_renderer 5 two_renderers)

other_added_Run : Run 5 (remove_renderer 5 two_renderers) (take_renderers other_added)
other_added_Run = then_step (then_step rest (adds 7) refl) takes tt

removed_renderer_rests_example : (call_next (take_renderers other_added)).1 ≢ some 5
removed_renderer_rests_example = removed_renderer_rests 5 two_renderers refl other_added_Run

-- The module 5, found for 640 by 480 pixels.
abbrev camera : VcmCapturer
camera = record {
  vcm = some 5;
  capability = record { width = pos 640; height = pos 480; max_fps = pos 30; interlaced = false };
}

-- The second start comes too late.
requests-allowed_example : is_some (requests (start true ∷ stop ∷ start true ∷ []) camera) ≡ false
requests-allowed_example = requests-allowed (start true ∷ stop ∷ start true ∷ []) camera
