-- ===== src/Tracks/Sinks.antt =====
-- Which sinks of an audio track hear what WebRTC delivers.
use lumen_rtc.Base.{
  ℕ, ◌≡◌, refl, sym, ap, ◌∙◌, arith, true, false, List, [], ◌∷◌, ◌++◌, Option, none, some,
  if◌then◌else◌, elem, map, update, remove, Allocator,
}
use lumen_rtc.Tracks.{
  ClientSinks, AudioTrack, new_track, adapters, adapter_of, erase_sink, insert_sink, add_sink,
  drop_sink, remove_sink, remove_each, remove_sinks, audio_track_add_sink, audio_track_remove_sink,
  audio_track_release, audio_sink_create, audio_sink_release, sink_on_data, adapter_on_data,
  on_audio,
}
use lumen_rtc.Tracks.Entries.{
  sinks_of, Sound, update-Sound, adapters-append, sinks_of-append, append-Sound,
  adapters-erase_sink, erase_sink-Sound, sinks_of-erase_sink, found, missing, remove-missing,
  on_audio-Sound, remove_each_lem,
}

-- A client's call.
pub data Request : Type 0 where
  adds : Option ℕ → Request
  removes : Option ℕ → Request
  creates : Option ℕ → Request
  releases : Option ℕ → Request

-- The track and the sinks after a call.
abbrev pub perform : Allocator → Request → AudioTrack × ClientSinks → AudioTrack × ClientSinks
perform heap (adds h) (t, s) = (audio_track_add_sink heap h t, s)
perform heap (removes h) (t, s) = (audio_track_remove_sink h t, s)
perform heap (creates f) (t, s) = (t, (audio_sink_create heap f s).1)
perform heap (releases h) (t, s) = (t, audio_sink_release h s)

abbrev pub run_sinks :
    Allocator → List Request → AudioTrack × ClientSinks → AudioTrack × ClientSinks
run_sinks heap [] w = w
run_sinks heap (r ∷ rs) w = run_sinks heap rs (perform heap r w)

-- The sinks that are attached behind a call: each once, in the order of attaching.
abbrev pub attach : Request → List ℕ → List ℕ
attach (adds (some h)) hs = if elem h hs then hs else hs ++ h ∷ []
attach (removes (some h)) hs = remove h hs
attach r hs = hs

abbrev pub attached : List Request → List ℕ → List ℕ
attached [] hs = hs
attached (r ∷ rs) hs = attached rs (attach r hs)

-- What the track keeps of the attached sinks.
record Follows (hs : List ℕ) (t : AudioTrack) : Type 0 where
  order : t.added ≡ adapters t.sinks
  sound : Sound t.target t.sinks
  same : sinks_of t.sinks ≡ hs

add-Follows :
    (heap : Allocator) (h : ℕ) (hs : List ℕ) (t : AudioTrack)
    → Follows hs t
    → Follows (attach (adds (some h)) hs) (add_sink heap h t)
unfolding add_sink
add-Follows heap h hs t v = go (adapter_of h t.sinks) refl
  where
    go :
        (o : Option ℕ)
        → adapter_of h t.sinks ≡ o
        → Follows (if elem h hs then hs else hs ++ h ∷ []) (insert_sink heap h o t)
    go (some a) e =
        let k : elem h hs ≡ true = ap (elem h) (sym v.same) ∙ found h a t.sinks e in rw k v
    go none e =
        let k : elem h hs ≡ false = ap (elem h) (sym v.same) ∙ missing h t.sinks e in
        let a = heap.fresh (adapters t.sinks) in
        let new = heap.fresh_new (adapters t.sinks) in
        rw k (record {
          order =
              ap (λ l. l ++ a ∷ []) v.order
              ∙ sym (adapters-append t.sinks (record { sink = h; adapter = a }));
          sound =
              append-Sound (update t.target a (some h)) t.sinks (record { sink = h; adapter = a })
                (update-Sound t.target a (some h) t.sinks new v.sound) new (ground arith);
          same =
              sinks_of-append t.sinks (record { sink = h; adapter = a })
              ∙ ap (λ l. l ++ h ∷ []) v.same;
        })

remove-Follows :
    (h : ℕ) (hs : List ℕ) (t : AudioTrack) → Follows hs t → Follows (remove h hs) (remove_sink h t)
unfolding remove_sink
remove-Follows h hs t v = go (adapter_of h t.sinks) refl
  where
    go : (o : Option ℕ) → adapter_of h t.sinks ≡ o → Follows (remove h hs) (drop_sink h o t)
    go none e =
        let k : elem h hs ≡ false = ap (elem h) (sym v.same) ∙ missing h t.sinks e in
        rw (remove-missing h hs k) v
    go (some a) e =
        let q = adapters-erase_sink t.target h a t.sinks v.sound e in
        record {
          order = ap (remove a) v.order ∙ sym q.0;
          sound =
              update-Sound t.target a none (erase_sink h t.sinks) q.1
                (erase_sink-Sound t.target h t.sinks v.sound);
          same = sinks_of-erase_sink h t.sinks ∙ ap (remove h) v.same;
        }

perform-Follows :
    (heap : Allocator) (r : Request) (hs : List ℕ) (t : AudioTrack) (s : ClientSinks)
    → Follows hs t
    → Follows (attach r hs) (perform heap r (t, s)).0
unfolding audio_track_add_sink audio_track_remove_sink
perform-Follows heap (adds none) hs t s v = v
perform-Follows heap (adds (some h)) hs t s v = add-Follows heap h hs t v
perform-Follows heap (removes none) hs t s v = v
perform-Follows heap (removes (some h)) hs t s v = remove-Follows h hs t v
perform-Follows heap (creates f) hs t s v = v
perform-Follows heap (releases h) hs t s v = v

run-Follows :
    (heap : Allocator) (rs : List Request) (hs : List ℕ) (t : AudioTrack) (s : ClientSinks)
    → Follows hs t
    → Follows (attached rs hs) (run_sinks heap rs (t, s)).0
run-Follows heap [] hs t s v = v
run-Follows heap (r ∷ rs) hs t s v =
    let w = perform heap r (t, s) in
    run-Follows heap rs (attach r hs) w.0 w.1 (perform-Follows heap r hs t s v)

-- Whatever calls a client makes on a new track and on its sinks: audio from WebRTC reaches each sink that
-- is attached, once and in the order of attaching, as the sink is when the audio comes; and once the
-- track is gone WebRTC calls nothing of it.
pub on_audio-run :
    (heap : Allocator) (rs : List Request) (s : ClientSinks)
    → let w = run_sinks heap rs (new_track, s) in
      (on_audio w.1 w.0 ≡ map (sink_on_data w.1) (attached rs []))
      × (on_audio w.1 (audio_track_release w.0) ≡ [])
unfolding audio_track_release remove_sinks
on_audio-run heap rs s =
    let w = run_sinks heap rs (new_track, s) in
    let v = run-Follows heap rs [] new_track s (record { order = refl; sound = tt; same = refl }) in
    (
      ap (map (λ a. adapter_on_data w.1 (w.0.target a))) v.order
          ∙ on_audio-Sound w.1 w.0.target w.0.sinks v.sound
          ∙ ap (map (sink_on_data w.1)) v.same,
      ap (map (λ a. adapter_on_data w.1 ((audio_track_release w.0).target a)))
          (ap (remove_each w.0.sinks) v.order ∙ remove_each_lem w.0.sinks),
    )
