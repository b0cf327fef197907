-- ===== src/Renderers.antt =====
-- The renderers of a video track, bridge/lumenrtc_bridge/src/rtc_video_sink_adapter.cc, and the audio senders
-- of bridge/lumenrtc_bridge/src/internal/custom_audio_transport_impl.cc. Renderers and senders are their
-- addresses. OnFrame copies the list under the lock and calls behind it, so that other calls may come
-- between.
pub mod Frames
pub mod Senders
use lumen_rtc.Base.{
  ℕ, Bool, true, false, List, [], ◌∷◌, ◌++◌, Option, none, some, if◌then◌else◌, ◌==◌,
}

pub record Adapter : Type 0 where
  pub renderers : List ℕ
  -- The calls of renderers that OnFrame has still to make.
  pub under_way : List ℕ

abbrev pub without : ℕ → List ℕ → List ℕ
without r [] = []
without r (x ∷ xs) = let rest = without r xs in if x == r then rest else x ∷ rest

-- AddRenderer.
unfoldable pub add_renderer : ℕ → Adapter → Adapter
add_renderer r a = record a { renderers = a.renderers ++ r ∷ [] }

-- RemoveRenderer.
unfoldable pub remove_renderer : ℕ → Adapter → Adapter
remove_renderer r a = record a { renderers = without r a.renderers }

-- OnFrame under the lock; it returns if there is no renderer.
unfoldable pub take_renderers : Adapter → Adapter
take_renderers a = record a { under_way = a.under_way ++ a.renderers }

-- The next call of OnFrame's loop, with the renderer.
unfoldable pub call_next : Adapter → Adapter × Option ℕ
call_next a = elim a.under_way [ [] ↦ (a, none) | r ∷ rs ↦ (record a { under_way = rs }, some r) ]

-- AddAudioSender.
unfoldable pub add_audio_sender : ℕ → List ℕ → List ℕ
add_audio_sender s senders = senders ++ s ∷ []

-- RemoveAudioSender.
unfoldable pub remove_audio_sender : ℕ → List ℕ → List ℕ
remove_audio_sender = without

-- A frame's way to a sender: a copy, or the frame itself.
pub record Sent : Type 0 where
  pub sender : ℕ
  pub copied : Bool

abbrev pub copies : List ℕ → List Sent
copies [] = []
copies (s ∷ ss) = record { sender = s; copied = true } ∷ copies ss

-- SendAudioData: copies to all senders but the first, and the frame to the first.
unfoldable pub send_audio_data : List ℕ → List Sent
send_audio_data [] = []
send_audio_data (s ∷ ss) = copies ss ++ record { sender = s; copied = false } ∷ []

-- UpdateAudioSenders: the senders that WebRTC's transport gets for those that it is told of.
unfoldable pub update_audio_senders : ℕ → List ℕ → List ℕ
update_audio_senders this [] = []
update_audio_senders this (s ∷ ss) = this ∷ []
