-- ===== src/Tests/Wrappers.antt =====
-- Examples on codec parameters, pictures, audio processors, log messages, senders and what clients create.
use lumen_rtc.Base.{
  ℕ, ◌≡◌, ◌*◌, ◌<◌, ◌%◌, ◌↔◌, if◌then◌else◌, ◌==◌, refl, arith, [], ◌∷◌, some, none, pos, bump,
  List, map, false, is_some,
}
use lumen_rtc.Text.{Bytes}
use lumen_rtc.Peer.Events.{audio, video, Handles}
use lumen_rtc.Capability.{less, Parameters, sdp_fmtp_line, set_sdp_fmtp_line}
use lumen_rtc.Capability.Fmtp.{set_sdp_fmtp_line-sdp_fmtp_line}
use lumen_rtc.Picture.{create, convert_to_argb, Written}
use lumen_rtc.Picture.Planes.{Tiles, create-Tiles_iff}
use lumen_rtc.Picture.Convert.{convert_to_argb_lem}
use lumen_rtc.AudioProcessing.{new_adapter}
use lumen_rtc.AudioProcessing.Runs
use lumen_rtc.AudioProcessing.Delivery.{Delivers}
use lumen_rtc.AudioProcessing.Rates.{Justified, run_informed}
use lumen_rtc.Logging.{deliver}
use lumen_rtc.Logging.Delivery
use lumen_rtc.Sender.{Sender}
use lumen_rtc.Sender.Tracks
use lumen_rtc.Tracks.{ClientSinks, new_track, sink_on_data, on_audio, audio_track_release}
use lumen_rtc.Tracks.Sinks.{
  Request, adds, removes, creates, releases, run_sinks, attached, on_audio-run,
}
use lumen_rtc.Creation.{Makers}
use lumen_rtc.Creation.Given

-- "apt=96;x=1" and a text without a key.
abbrev parameters : Parameters
parameters =
    ([], b'0' ∷ b'-' ∷ b'5' ∷ [])
    ∷ (b'a' ∷ b'p' ∷ b't' ∷ [], b'9' ∷ b'6' ∷ [])
    ∷ (b'x' ∷ [], b'1' ∷ [])
    ∷ []

set_sdp_fmtp_line-sdp_fmtp_line_example :
    set_sdp_fmtp_line (sdp_fmtp_line parameters) [] ≡ some parameters
unfolding less
set_sdp_fmtp_line-sdp_fmtp_line_example =
    set_sdp_fmtp_line-sdp_fmtp_line parameters
      (
        ((refl, refl), (refl, refl), λ e. cc),
        (((refl, refl), (refl, refl), λ e. cc), (((refl, refl), (refl, refl), λ e. cc), tt)),
      )
      ((refl, (refl, tt)), ((refl, tt), (tt, tt)))

create-Tiles_iff_example : Tiles 3 2 (create 3 2) ↔ ((3 % 2 ≡ 0) × (2 % 2 ≡ 0))
create-Tiles_iff_example = create-Tiles_iff 3 2 (omega arith) (omega arith)

convert_to_argb_lem_example :
    (out : Written) × ((convert_to_argb 0 64 10 2).0 ≡ some out)
    × (out.row_stride * out.rows ≡ (convert_to_argb 0 64 10 2).1)
    × (((i : ℕ) → i < 2 → i * out.row_stride ≡ i * 64) ↔ (◌≡◌ {A = ℕ} 64 40))
    × ((64 * 2 < (convert_to_argb 0 64 10 2).1) ↔ (64 < 40))
convert_to_argb_lem_example = convert_to_argb_lem 0 64 10 2 (omega arith) (omega arith)

abbrev audio_calls : List Runs.Request
audio_calls =
    Runs.begins 16000 1
    ∷ Runs.buffers 1 160
    ∷ Runs.sets (some 7)
    ∷ Runs.buffers 3 480
    ∷ Runs.sets none
    ∷ []

run_informed_example :
    Justified none false audio_calls (Runs.run audio_calls new_adapter)
    × Delivers ((7, 3, 480) ∷ []) (Runs.run audio_calls new_adapter)
run_informed_example = run_informed audio_calls

deliver-after_example :
    deliver 3
      (Delivery.after bump (Delivery.sets 2 (some 9) ∷ Delivery.sets 0 (some 8) ∷ [])).streams
      (Delivery.after bump (Delivery.sets 2 (some 9) ∷ Delivery.sets 0 (some 8) ∷ []))
    ≡ 9 ∷ []
deliver-after_example =
    Delivery.deliver-after bump 3 (Delivery.sets 2 (some 9) ∷ Delivery.sets 0 (some 8) ∷ [])

abbrev sender : Sender
sender = record { media_type = pos 0; track = none; ssrc = 1; id = []; stream_ids = [] }

-- Object 4 is an audio track, and every other object a video track.
abbrev kind : ℕ → Bytes
kind o = if o == 4 then audio else video

abbrev calls : List Request
calls =
    creates (some 7)
    ∷ adds (some 1)
    ∷ adds (some 1)
    ∷ adds (some 5)
    ∷ removes (some 1)
    ∷ adds none
    ∷ releases none
    ∷ []

abbrev no_sinks : ClientSinks
no_sinks = record { alive = []; callback = λ h. none }

on_audio-run_example :
    let w = run_sinks bump calls (new_track, no_sinks) in
    (on_audio w.1 w.0 ≡ map (sink_on_data w.1) (attached calls []))
    × (on_audio w.1 (audio_track_release w.0) ≡ [])
on_audio-run_example = on_audio-run bump calls no_sinks

abbrev makers : Makers
makers = record {
  audio_device = some 20;
  video_device = none;
  desktop_device = none;
  audio_source = λ l t o. some 21;
  video_source = λ c l k. none;
  desktop_source = λ c l k. none;
  audio_track = λ s i. some 22;
  video_track = λ s i. none;
  stream = λ i. some 23;
}

abbrev creations : List Given.Call
creations =
    Given.creates (Given.audio_track (some makers) (some 5) (some []))
    ∷ Given.creates (Given.video_device (some makers))
    ∷ Given.creates (Given.stream (some makers) (some []))
    ∷ Given.releases 1
    ∷ []

abbrev held : Given.Held × Handles
held = Given.run bump creations ([], record { live = []; ref = λ h. 0 })

run-Given_example :
    Given.Kept held
    × (is_some (Given.perform bump (Given.video_device (some makers)) held.1).0 ≡ false)
run-Given_example = Given.run-Given bump creations (λ h. 0) (Given.video_device (some makers))
