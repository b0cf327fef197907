-- ===== src/Connection/Closing.antt =====
-- What a closed connection does: bridge/lumenrtc_bridge/src/rtc_peerconnection_impl.cc.
use lumen_rtc.Base.{
  ◌≡◌, refl, Bool, true, false, [], ◌∷◌, ◌++◌, none, some, elem, arith, not, if◌then◌else◌, negsuc,
}
use lumen_rtc.Connection.Bridge.{
  crashes, returns, WebRtc, Connection, unit, flag, number, object, close,
}
use lumen_rtc.Connection.Operations.{
  Result, Operation, perform, closing, restarting, listing_senders, listing_receivers,
  listing_transceivers, candidate_adding, channel_creating, stream_adding, stream_removing,
  stream_creating, track_adding, track_removing, track_transceiver, track_transceiver_init,
  type_transceiver, type_transceiver_init, restart_ice, senders, receivers, transceivers,
  add_candidate, create_data_channel, add_stream, remove_stream, create_local_stream, add_track,
  remove_track, add_track_transceiver, add_track_transceiver_init, add_type_transceiver,
  add_type_transceiver_init,
}

-- The operations that use WebRTC's connection without a test.
abbrev pub dereferences : {I : Type 0} → Operation I → Connection → Bool
dereferences listing_senders c = true
dereferences listing_receivers c = true
dereferences listing_transceivers c = true
dereferences (channel_creating label init) c = true
dereferences (stream_adding s n) c = not (elem s c.local_streams)
dereferences (stream_removing s n) c = elem s c.local_streams
dereferences (track_removing s) c = true
dereferences q c = false

-- What any other operation answers, and leaves.
abbrev pub refusal : {I : Type 0} → Operation I → Connection → Result I
refusal closing c = (unit, c, [])
refusal restarting c = (unit, c, [])
refusal (candidate_adding mid index candidate) c = (flag false, c, [])
refusal (stream_adding s n) c = (number (negsuc 0), c, [])
refusal (stream_removing s n) c = (number (negsuc 0), c, [])
refusal (stream_creating (some s)) c =
    (object (some s), record c { local_streams = c.local_streams ++ s ∷ [] }, [])
refusal q c = (object none, c, [])

-- On a closed connection an operation either crashes, if it uses WebRTC's connection without a test, or
-- refuses: it answers false, -1, null or nothing, asks WebRTC for nothing and leaves the connection as it
-- is, but for a new local stream of WebRTC's factory.
pub perform-closed :
    {I : Type 0} (w : WebRtc I) (q : Operation I) (c : Connection)
    → c.native ≡ none
    → perform w q c ≡ (if dereferences q c then crashes else returns (refusal q c))
unfolding perform close restart_ice senders receivers transceivers add_candidate create_data_channel
    add_stream remove_stream create_local_stream add_track remove_track add_track_transceiver
    add_track_transceiver_init add_type_transceiver add_type_transceiver_init
perform-closed w closing c e = ground arith
perform-closed w restarting c e = ground arith
perform-closed w listing_senders c e = ground arith
perform-closed w listing_receivers c e = ground arith
perform-closed w listing_transceivers c e = ground arith
perform-closed w (candidate_adding mid index candidate) c e = ground arith
perform-closed w (channel_creating label init) c e = ground arith
perform-closed w (stream_adding s n) c e = ground arith
perform-closed w (stream_removing s n) c e = ground arith
perform-closed w (stream_creating none) c e = refl
perform-closed w (stream_creating (some s)) c e = refl
perform-closed w (track_adding none ids) c e = refl
perform-closed w (track_adding (some t) ids) c e = ground arith
perform-closed w (track_removing s) c e = ground arith
perform-closed w (track_transceiver none) c e = refl
perform-closed w (track_transceiver (some t)) c e = ground arith
perform-closed w (track_transceiver_init none i) c e = refl
perform-closed w (track_transceiver_init (some t) none) c e = refl
perform-closed w (track_transceiver_init (some t) (some i)) c e = ground arith
perform-closed w (type_transceiver m) c e = ground arith
perform-closed w (type_transceiver_init m none) c e = refl
perform-closed w (type_transceiver_init m (some i)) c e = ground arith
