-- ===== src/Tests/Sessions.antt =====
-- Examples on session descriptions, factories and media streams.
use lumen_rtc.Base.{
  ℕ, ◌≡◌, ◌++◌, refl, true, false, List, [], ◌∷◌, Option, none, some, if◌then◌else◌,
}
use lumen_rtc.Connection.Native.{default_configuration}
use lumen_rtc.Connection.Bridge.{crashes, returns}
use lumen_rtc.Exchange.{Callbacks, Session, Native, Verdict, ask, collect, get_stats}
use lumen_rtc.Exchange.Once.{Reach, start, next, asks, called_or_pending}
use lumen_rtc.Exchange.Answers.{total}
use lumen_rtc.Factory.{
  Factory, System, Capabilities, blank, initialize, is_on, get_rtp_sender_capabilities,
  get_rtp_receiver_capabilities,
}
use lumen_rtc.Factory.Invariant
use lumen_rtc.Factory.Invariant.{Inv, initialize-Inv_result}
use lumen_rtc.Factory.Devices.{capabilities_lem}
use lumen_rtc.Factory.Lifetime
use lumen_rtc.Factory.Lifetime.{
  World, handled, drop_handle, peer_connection_create, peer_connection_close,
  peer_connection_release, clear_connections, creates, live-Held, release_leaks,
}
use lumen_rtc.MediaStream.{Wrapper, Stream, audio_kind, wrap_stream, add_track}
use lumen_rtc.MediaStream
use lumen_rtc.MediaStream.Lists.{Appends, Mirrors, tracks_in, add_track_lists}

abbrev both : Callbacks
both = record { success = true; failure = true; user_data = 7 }

abbrev idle : Session
idle = record { is_open = true; configuration = default_configuration; pending = []; called = [] }

abbrev rtc : Native
rtc = record {
  is_type = λ t. true;
  parses = λ t s. true;
  has_video = λ s. true;
  has_audio = λ s. true;
  local_description = none;
  remote_description = none;
  constrained = λ c. none;
}

abbrev or_idle : Option Session → Session
or_idle none = idle
or_idle (some s) = s

abbrev waiting : Session
waiting = or_idle (ask rtc both idle true get_stats)

waited : ask rtc both idle true get_stats ≡ some waiting
unfolding ask collect
waited = refl

measuring : Reach waiting (7 ∷ [])
measuring = next (start {s = idle} refl refl) (asks rtc true get_stats both (refl, refl) waited)

called_or_pending_example : total 7 waiting ≡ 1
called_or_pending_example = called_or_pending measuring 7

abbrev report_of : Verdict
report_of = record { error = none; sdp = []; type = []; reports = [] }

abbrev shut_session : Session
shut_session = record idle { is_open = false }

abbrev system : System
system = record {
  worker = record { thread = 1; starts = true };
  signaling = record { thread = 2; starts = true };
  network = record { thread = 3; starts = true };
  has_audio = true;
  creates = true;
}

abbrev no_network : System
no_network = record system { network = record { thread = 3; starts = false } }

initialize-Inv_result_example :
    ((initialize no_network blank).1 ≡ false)
    × ((initialize no_network blank).1 ≡ (initialize no_network blank).0.native)
    × Inv (initialize no_network blank).0
initialize-Inv_result_example = initialize-Inv_result no_network Invariant.start

abbrev kinds : Capabilities ℕ
kinds = record { of_senders = λ v. 10; of_receivers = λ v. 20 }

ready : Invariant.Reach (initialize system blank).0
ready = Invariant.next Invariant.start (Invariant.initializes system)

abbrev started : Factory
started = (initialize system blank).0

capabilities_lem_example :
    (get_rtp_sender_capabilities kinds none 1 started
      ≡ (if started.native then returns 10 else crashes))
    × (get_rtp_receiver_capabilities kinds none 1 started ≡ (
        if started.native
        then returns (if is_on none started.signaling_thread then 20 else 10)
        else crashes))
capabilities_lem_example = capabilities_lem kinds none 1 ready

abbrev empty_world : World
empty_world = record { connections = []; handles = []; live = []; observed = [] }

abbrev one_connection : World
one_connection = peer_connection_create 40 true none 5 empty_world

creating : Lifetime.Reach one_connection
creating = Lifetime.next Lifetime.start (creates 40 true none 5)

abbrev telling : MediaStream.Native
telling = record { add = λ t ts. some (ts ++ t ∷ []); remove = λ t ts. none; notifies = true }

telling-Appends : Appends telling
telling-Appends t ts us e = cc

abbrev microphone : Wrapper
microphone = record { address = 3; track = 30 }

abbrev new_stream : Stream
new_stream = wrap_stream 10 [] []

add_track_lists_example :
    let (ok, s1) = add_track telling audio_kind microphone new_stream in
    (telling.add 30 new_stream.audio.native ≡ none → (ok ≡ false) × (s1 ≡ new_stream))
    × ((native : List ℕ)
        → telling.add 30 new_stream.audio.native ≡ some native
        → (ok ≡ true)
          × (s1.audio.native ≡ native)
          × (true ≡ false → Mirrors audio_kind s1)
          × (true ≡ true → tracks_in s1.audio.wrappers ≡ native ++ 30 ∷ []))
unfolding wrap_stream MediaStream.on_changed MediaStream.build_tracks
add_track_lists_example =
    add_track_lists telling audio_kind new_stream microphone telling-Appends refl
