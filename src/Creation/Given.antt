-- ===== src/Creation/Given.antt =====
-- The handles that a client gets on what it creates.
use lumen_rtc.Base.{
  ℕ, ◌≡◌, refl, sym, ap, ◌∙◌, arith, Bool, true, false, List, [], ◌∷◌, Option, none, some,
  if◌then◌else◌, ◌==◌, is_some, Allocator, count, remove, update, ℤ,
}
use lumen_rtc.Text.{Bytes}
use lumen_rtc.Peer.Events.{Handles, wrap}
use lumen_rtc.Creation.{
  AudioOptions, options_of, Makers, DesktopMakers, give, give_or_delete, release_handle,
  create_audio_device, create_video_device, create_desktop_device, create_audio_source,
  create_video_source, create_desktop_source, create_audio_track, create_video_track, create_stream,
  get_media_list, create_desktop_capturer,
}

pub data Request : Type 0 where
  audio_device : Option Makers → Request
  video_device : Option Makers → Request
  desktop_device : Option Makers → Request
  audio_source : Option Makers → Option Bytes → ℤ → Option AudioOptions → Request
  video_source : Option Makers → Option ℕ → Option Bytes → Option ℕ → Request
  desktop_source : Option Makers → Option ℕ → Option Bytes → Option ℕ → Request
  audio_track : Option Makers → Option ℕ → Option Bytes → Request
  video_track : Option Makers → Option ℕ → Option Bytes → Request
  stream : Option Makers → Option Bytes → Request
  media_list : Option DesktopMakers → ℤ → Request
  desktop_capturer : Option DesktopMakers → Option ℕ → Bool → Request

abbrev pub perform : Allocator → Request → Handles → Option ℕ × Handles
perform heap (audio_device f) hs = create_audio_device heap f hs
perform heap (video_device f) hs = create_video_device heap f hs
perform heap (desktop_device f) hs = create_desktop_device heap f hs
perform heap (audio_source f l t o) hs = create_audio_source heap f l t o hs
perform heap (video_source f c l k) hs = create_video_source heap f c l k hs
perform heap (desktop_source f c l k) hs = create_desktop_source heap f c l k hs
perform heap (audio_track f s i) hs = create_audio_track heap f s i hs
perform heap (video_track f s i) hs = create_video_track heap f s i hs
perform heap (stream f i) hs = create_stream heap f i hs
perform heap (media_list d t) hs = get_media_list heap d t hs
perform heap (desktop_capturer d s b) hs = create_desktop_capturer heap d s b hs

-- Nothing comes of nothing.
infixl 5 ◌>>=◌
abbrev ◌>>=◌ : {A B : Type 0} → Option A → (A → Option B) → Option B
none >>= f = none
some a >>= f = f a

-- What the bridge makes if no needed argument is null.
abbrev pub made : Request → Option ℕ
made (audio_device f) = f >>= λ f. f.audio_device
made (video_device f) = f >>= λ f. f.video_device
made (desktop_device f) = f >>= λ f. f.desktop_device
made (audio_source f l t o) = f >>= λ f. (l >>= λ l. f.audio_source l t (options_of o))
made (video_source f c l k) = f >>= λ f. (c >>= λ c. (l >>= λ l. f.video_source c l k))
made (desktop_source f c l k) = f >>= λ f. (c >>= λ c. (l >>= λ l. f.desktop_source c l k))
made (audio_track f s i) = f >>= λ f. (s >>= λ s. (i >>= λ i. f.audio_track s i))
made (video_track f s i) = f >>= λ f. (s >>= λ s. (i >>= λ i. f.video_track s i))
made (stream f i) = f >>= λ f. (i >>= λ i. f.stream i)
made (media_list d t) = d >>= λ d. d.media_list t
made (desktop_capturer d s b) = d >>= λ d. (s >>= λ s. d.capturer s b)

-- A client's next call: it creates something, or releases a handle.
pub data Call : Type 0 where
  creates : Request → Call
  releases : ℕ → Call

-- The handles that a client holds, each with the object that it asked for.
abbrev pub Held : Type 0
Held = List (ℕ × ℕ)

abbrev pub handles : Held → List ℕ
handles [] = []
handles (e ∷ es) = e.0 ∷ handles es

abbrev pub give_back : ℕ → Held → Held
give_back h [] = []
give_back h (e ∷ es) = let rest = give_back h es in if h == e.0 then es else e ∷ rest

abbrev pub note : Option ℕ → Option ℕ → Held → Held
note (some h) (some object) es = (h, object) ∷ es
note h object es = es

-- What the client holds, and the handles that live.
abbrev pub step : Allocator → Call → Held × Handles → Held × Handles
step heap (creates r) (es, hs) = (note (perform heap r hs).0 (made r) es, (perform heap r hs).1)
step heap (releases h) (es, hs) = (give_back h es, release_handle heap (some h) hs)

abbrev pub run : Allocator → List Call → Held × Handles → Held × Handles
run heap [] w = w
run heap (c ∷ cs) w = run heap cs (step heap c w)

-- Each of them refers to its object, and none of them stands twice.
abbrev pub Refers : (ℕ → ℕ) → Held → Type 0
Refers f [] = Unit
Refers f (e ∷ es) = (f e.0 ≡ e.1) × (count e.0 (handles es) ≡ 0) × Refers f es

-- The handles that live are those that the client holds.
abbrev pub Kept : Held × Handles → Type 0
Kept w = (w.1.live ≡ handles w.0) × Refers w.1.ref w.0

update-Refers :
    (f : ℕ → ℕ) (h v : ℕ) (es : Held)
    → count h (handles es) ≡ 0
    → Refers f es
    → Refers (update f h v) es
update-Refers f h v [] c r = tt
update-Refers f h v (e ∷ es) c r =
    (ground (arith, c, r.0), r.1, update-Refers f h v es (ground (arith, c)) r.2)

count-give_back :
    (x h : ℕ) (es : Held) → count x (handles es) ≡ 0 → count x (handles (give_back h es)) ≡ 0
count-give_back x h [] c = refl
count-give_back x h (e ∷ es) c = ground (arith, c, count-give_back x h es)

give_back-Refers : (f : ℕ → ℕ) (h : ℕ) (es : Held) → Refers f es → Refers f (give_back h es)
give_back-Refers f h [] r = tt
give_back-Refers f h (e ∷ es) r = go (h == e.0) (give_back-Refers f h es r.2)
  where
    go : (b : Bool) → Refers f (give_back h es) → Refers f (if b then es else e ∷ give_back h es)
    go true ih = r.2
    go false ih = (r.0, count-give_back e.0 h es r.1, ih)

handles-give_back : (h : ℕ) (es : Held) → remove h (handles es) ≡ handles (give_back h es)
handles-give_back h [] = refl
handles-give_back h (e ∷ es) = ground (arith, handles-give_back h es)

-- The result of a creation that leaves the handles as they should be.
abbrev Good : Option ℕ → Held → Option ℕ × Handles → Type 0
Good object es r = (is_some r.0 ≡ is_some object) × Kept (note r.0 object es, r.1)

module _ (heap : Allocator) where
  give-Good : (o : Option ℕ) (es : Held) (hs : Handles) → Kept (es, hs) → Good o es (give heap o hs)
  unfolding wrap
  give-Good none es hs k = (refl, k)
  give-Good (some object) es hs k =
      let new : count (heap.fresh hs.live) (handles es) ≡ 0 =
        ap (count (heap.fresh hs.live)) (sym k.0) ∙ heap.fresh_new hs.live in
      (
        refl,
        (ap (λ l. heap.fresh hs.live ∷ l) k.0, (ground arith, new, update-Refers _ _ _ es new k.1)),
      )

  give_or_delete-Good :
      (o : Option ℕ) (es : Held) (hs : Handles)
      → Kept (es, hs)
      → Good o es (give_or_delete heap o hs)
  give_or_delete-Good none es hs k =
      let new : count (heap.fresh hs.live) (handles es) ≡ 0 =
        ap (count (heap.fresh hs.live)) (sym k.0) ∙ heap.fresh_new hs.live in
      (refl, (ground (arith, k.0), update-Refers _ _ _ es new k.1))
  give_or_delete-Good (some object) es hs k =
      let new : count (heap.fresh hs.live) (handles es) ≡ 0 =
        ap (count (heap.fresh hs.live)) (sym k.0) ∙ heap.fresh_new hs.live in
      (
        refl,
        (
          ap (λ l. heap.fresh hs.live ∷ l) k.0,
          (ground arith, new, update-Refers _ _ _ es new (update-Refers _ _ _ es new k.1)),
        ),
      )

  perform-Good :
      (r : Request) (es : Held) (hs : Handles)
      → Kept (es, hs)
      → Good (made r) es (perform heap r hs)
  unfolding create_audio_device create_video_device create_desktop_device create_audio_source
      create_video_source create_desktop_source create_audio_track create_video_track create_stream
      get_media_list create_desktop_capturer
  perform-Good (audio_device none) es hs k = (refl, k)
  perform-Good (audio_device (some f)) es hs k = give_or_delete-Good f.audio_device es hs k
  perform-Good (video_device none) es hs k = (refl, k)
  perform-Good (video_device (some f)) es hs k = give_or_delete-Good f.video_device es hs k
  perform-Good (desktop_device none) es hs k = (refl, k)
  perform-Good (desktop_device (some f)) es hs k = give_or_delete-Good f.desktop_device es hs k
  perform-Good (audio_source none a t o) es hs k = (refl, k)
  perform-Good (audio_source (some f) none t o) es hs k = (refl, k)
  perform-Good (audio_source (some f) (some a) t o) es hs k =
      give-Good (f.audio_source a t (options_of o)) es hs k
  perform-Good (video_source none a b o) es hs k = (refl, k)
  perform-Good (video_source (some f) none b o) es hs k = (refl, k)
  perform-Good (video_source (some f) (some a) none o) es hs k = (refl, k)
  perform-Good (video_source (some f) (some a) (some b) o) es hs k =
      give-Good (f.video_source a b o) es hs k
  perform-Good (desktop_source none a b o) es hs k = (refl, k)
  perform-Good (desktop_source (some f) none b o) es hs k = (refl, k)
  perform-Good (desktop_source (some f) (some a) none o) es hs k = (refl, k)
  perform-Good (desktop_source (some f) (some a) (some b) o) es hs k =
      give-Good (f.desktop_source a b o) es hs k
  perform-Good (audio_track none a b) es hs k = (refl, k)
  perform-Good (audio_track (some f) none b) es hs k = (refl, k)
  perform-Good (audio_track (some f) (some a) none) es hs k = (refl, k)
  perform-Good (audio_track (some f) (some a) (some b)) es hs k =
      give-Good (f.audio_track a b) es hs k
  perform-Good (video_track none a b) es hs k = (refl, k)
  perform-Good (video_track (some f) none b) es hs k = (refl, k)
  perform-Good (video_track (some f) (some a) none) es hs k = (refl, k)
  perform-Good (video_track (some f) (some a) (some b)) es hs k =
      give-Good (f.video_track a b) es hs k
  perform-Good (stream none a) es hs k = (refl, k)
  perform-Good (stream (some f) none) es hs k = (refl, k)
  perform-Good (stream (some f) (some a)) es hs k = give-Good (f.stream a) es hs k
  perform-Good (media_list none t) es hs k = (refl, k)
  perform-Good (media_list (some f) t) es hs k = give-Good (f.media_list t) es hs k
  perform-Good (desktop_capturer none a o) es hs k = (refl, k)
  perform-Good (desktop_capturer (some f) none o) es hs k = (refl, k)
  perform-Good (desktop_capturer (some f) (some a) o) es hs k = give-Good (f.capturer a o) es hs k

  run-Kept :
      (cs : List Call) (es : Held) (hs : Handles) → Kept (es, hs) → Kept (run heap cs (es, hs))
  unfolding release_handle
  run-Kept [] es hs k = k
  run-Kept (creates r ∷ cs) es hs k =
      run-Kept cs (note (perform heap r hs).0 (made r) es) (perform heap r hs).1
        (perform-Good r es hs k).1
  run-Kept (releases h ∷ cs) es hs k =
      run-Kept cs (give_back h es) (release_handle heap (some h) hs)
        (ap (remove h) k.0 ∙ handles-give_back h es, give_back-Refers hs.ref h es k.1)

  -- Over any calls that create devices, sources, tracks, streams, lists and capturers and release the handles on
  -- them, from no handles on: the handles that live are those that the client holds, each once and on the
  -- object that the bridge made of the arguments of its call, so that none is left behind where the bridge makes
  -- nothing. And at any time a call gives a handle exactly if no argument that it needs is null and the bridge
  -- makes an object.
  pub run-Given :
      (cs : List Call) (ref : ℕ → ℕ) (r : Request)
      → let w = run heap cs ([], record { live = []; ref = ref }) in
        Kept w × (is_some (perform heap r w.1).0 ≡ is_some (made r))
  run-Given cs ref r =
      let k = run-Kept cs [] (record { live = []; ref = ref }) (refl, tt) in
      let w = run heap cs ([], record { live = []; ref = ref }) in (k, (perform-Good r w.0 w.1 k).0)
