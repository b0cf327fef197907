-- ===== src/MediaStream/Lists.antt =====
-- The bridge's lists of a stream's tracks against WebRTC's.
use lumen_rtc.Base.{
  ℕ, suc, ◌+◌, ◌<◌, ◌≡◌, refl, sym, ap, subst, ◌∙◌, arith, Bool, true, false, List, [], ◌∷◌, ◌++◌,
  Option, none, some, if◌then◌else◌, length, In, inl, inr,
}
use lumen_rtc.Text.{Bytes, c_string}
use lumen_rtc.MediaList.{same_text}
use lumen_rtc.MediaStream.{
  Wrapper, Stream, Kind, audio_kind, video_kind, tracks_of, build_tracks, on_changed, erase, Native,
  changed, rewrap, when_taken, add_track, remove_track, find_track,
}

-- WebRTC's tracks in a list of wrappers.
abbrev pub tracks_in : List Wrapper → List ℕ
tracks_in [] = []
tracks_in (w ∷ ws) = w.track ∷ tracks_in ws

tracks_in-build_tracks : (n : ℕ) (ts : List ℕ) → tracks_in (build_tracks n ts) ≡ ts
unfolding build_tracks
tracks_in-build_tracks n [] = refl
tracks_in-build_tracks n (t ∷ ts) = ap (◌∷◌ t) (tracks_in-build_tracks (suc n) ts)

tracks_in-append :
    (ws : List Wrapper) (w : Wrapper) → tracks_in (ws ++ w ∷ []) ≡ tracks_in ws ++ w.track ∷ []
tracks_in-append [] w = refl
tracks_in-append (x ∷ xs) w = ap (◌∷◌ x.track) (tracks_in-append xs w)

-- An old wrapper is not among the new ones.
erase_old : (a n : ℕ) (ts : List ℕ) → a < n → erase a (build_tracks n ts) ≡ build_tracks n ts
unfolding erase build_tracks
erase_old a n [] h = refl
erase_old a n (t ∷ ts) h = ground (arith, erase_old a (suc n) ts)

-- The bridge lists WebRTC's tracks of the kind.
abbrev pub Mirrors : Kind → Stream → Type 0
Mirrors k s = tracks_in (tracks_of k s).wrappers ≡ (tracks_of k s).native

on_changed-Mirrors : (k : Kind) (s : Stream) → Mirrors k (on_changed s)
unfolding on_changed
on_changed-Mirrors audio_kind s = tracks_in-build_tracks _ s.audio.native
on_changed-Mirrors video_kind s = tracks_in-build_tracks _ s.video.native

-- What WebRTC documents of AddTrack: a track that it takes comes last.
abbrev pub Appends : Native → Type 0
Appends webrtc = (t : ℕ) (ts us : List ℕ) → webrtc.add t ts ≡ some us → us ≡ ts ++ t ∷ []

-- The bridge's list behind OnChanged, if WebRTC calls it.
changed-tracks :
    (webrtc : Native) (k : Kind) (native : List ℕ) (s : Stream)
    → tracks_in (tracks_of k (changed webrtc k native s)).wrappers
      ≡ (if webrtc.notifies then native else tracks_in (tracks_of k s).wrappers)
unfolding on_changed
changed-tracks webrtc audio_kind native s = go webrtc.notifies
  where
    go :
        (b : Bool)
        → tracks_in (changed (record webrtc { notifies = b }) audio_kind native s).audio.wrappers
          ≡ (if b then native else tracks_in s.audio.wrappers)
    go true = tracks_in-build_tracks _ native
    go false = refl
changed-tracks webrtc video_kind native s = go webrtc.notifies
  where
    go :
        (b : Bool)
        → tracks_in (changed (record webrtc { notifies = b }) video_kind native s).video.wrappers
          ≡ (if b then native else tracks_in s.video.wrappers)
    go true = tracks_in-build_tracks _ native
    go false = refl

changed-native :
    (webrtc : Native) (k : Kind) (native : List ℕ) (s : Stream)
    → (tracks_of k (changed webrtc k native s)).native ≡ native
unfolding on_changed
changed-native webrtc audio_kind native s = ground arith
changed-native webrtc video_kind native s = ground arith

rewrap-tracks :
    (webrtc : Native) (k : Kind) (f : List Wrapper → List Wrapper) (s : Stream)
    → tracks_of k (rewrap webrtc k f s)
      ≡ record { native = (tracks_of k s).native; wrappers = f (tracks_of k s).wrappers }
rewrap-tracks webrtc audio_kind f s = refl
rewrap-tracks webrtc video_kind f s = refl

erase-changed :
    (webrtc : Native) (k : Kind) (native : List ℕ) (s : Stream) (a : ℕ)
    → webrtc.notifies ≡ true
    → a < s.next
    → erase a (tracks_of k (changed webrtc k native s)).wrappers
      ≡ (tracks_of k (changed webrtc k native s)).wrappers
unfolding on_changed
erase-changed webrtc audio_kind native s a e h =
    subst
      (λ b.
        let s1 = changed (record webrtc { notifies = b }) audio_kind native s in
        erase a s1.audio.wrappers ≡ s1.audio.wrappers)
      (sym e) (erase_old a s.next native h)
erase-changed webrtc video_kind native s a e h =
    subst
      (λ b.
        let s1 = changed (record webrtc { notifies = b }) video_kind native s in
        erase a s1.video.wrappers ≡ s1.video.wrappers)
      (sym e) (erase_old a (s.next + length s.audio.native) native (omega (arith, h)))

find_none :
    (id : ℕ → Bytes) (wanted : Bytes) (ws : List Wrapper)
    → find_track id wanted ws ≡ none
    → (t : ℕ) → In t (tracks_in ws)
    → same_text (c_string (id t)) (c_string wanted) ≡ false
unfolding find_track
find_none id wanted [] e t i = absurd i
find_none id wanted (x ∷ xs) e t (inl q) = ground (arith, q)
find_none id wanted (x ∷ xs) e t (inr i) =
    let rest : find_track id wanted xs ≡ none
        → same_text (c_string (id t)) (c_string wanted) ≡ false =
      λ k. find_none id wanted xs k t i in
    ground (arith, rest)

if_some :
    (b : Bool) (x w : Wrapper) (o : Option Wrapper) (P : Wrapper → Type 0)
    → (if b then some x else o) ≡ some w
    → (b ≡ true → P x)
    → (o ≡ some w → P w)
    → P w
if_some true x w o P e h k = let q : x ≡ w = cc in subst P q (h refl)
if_some false x w o P e h k = k e

find_some :
    (id : ℕ → Bytes) (wanted : Bytes) (ws : List Wrapper) (w : Wrapper)
    → find_track id wanted ws ≡ some w
    → In w.track (tracks_in ws) × (same_text (c_string (id w.track)) (c_string wanted) ≡ true)
unfolding find_track
find_some id wanted [] w e = cc
find_some id wanted (x ∷ xs) w e =
    let rest : find_track id wanted xs ≡ some w
        → In w.track (tracks_in xs) × (same_text (c_string (id w.track)) (c_string wanted) ≡ true) =
      λ k. find_some id wanted xs w k in
    if_some (same_text (c_string (id x.track)) (c_string wanted)) x w (find_track id wanted xs)
      (λ v.
        In v.track (tracks_in (x ∷ xs))
        × (same_text (c_string (id v.track)) (c_string wanted) ≡ true))
      e (λ q. (inl refl, q)) (λ k. let (i, q) = rest k in (inr i, q))

module _ (webrtc : Native) (k : Kind) (s : Stream) where
  -- The bridge's list behind a change that WebRTC takes.
  taken-tracks :
      (f : List Wrapper → List Wrapper) (native : List ℕ)
      → tracks_of k (when_taken webrtc k f (some native) s).1 ≡ record {
        native = native;
        wrappers = f (tracks_of k (changed webrtc k native s)).wrappers;
      }
  taken-tracks f native =
      rewrap-tracks webrtc k f (changed webrtc k native s)
      ∙ ap
          (λ n. record {
            native = n;
            wrappers = f (tracks_of k (changed webrtc k native s)).wrappers;
          })
          (changed-native webrtc k native s)

  abbrev add_last : Wrapper → List Wrapper → List Wrapper
  add_last w ws = ws ++ w ∷ []

  added-tracks :
      (w : Wrapper) (native : List ℕ)
      → tracks_in (tracks_of k (when_taken webrtc k (add_last w) (some native) s).1).wrappers
        ≡ (if webrtc.notifies then native else tracks_in (tracks_of k s).wrappers) ++ w.track ∷ []
  added-tracks w native =
      ap (λ ts. tracks_in ts.wrappers) (taken-tracks (add_last w) native)
      ∙ tracks_in-append (tracks_of k (changed webrtc k native s)).wrappers w
      ∙ ap (λ ts. ts ++ w.track ∷ []) (changed-tracks webrtc k native s)

  -- AddTrack, of a stream whose tracks the bridge lists, returns true exactly if WebRTC takes the track.
  -- Where WebRTC does not call OnChanged first, the bridge's list is WebRTC's again; where it does, the new
  -- track stands in the bridge's list once more than in WebRTC's.
  pub add_track_lists :
      (w : Wrapper)
      → Appends webrtc
      → Mirrors k s
      → let (ok, s1) = add_track webrtc k w s in
        (webrtc.add w.track (tracks_of k s).native ≡ none → (ok ≡ false) × (s1 ≡ s))
        × ((native : List ℕ)
            → webrtc.add w.track (tracks_of k s).native ≡ some native
            → (ok ≡ true)
              × ((tracks_of k s1).native ≡ native)
              × (webrtc.notifies ≡ false → Mirrors k s1)
              × (webrtc.notifies ≡ true
                  → tracks_in (tracks_of k s1).wrappers ≡ native ++ w.track ∷ []))
  unfolding add_track
  add_track_lists w h m = (
    (λ e. (
      ap (λ o. (when_taken webrtc k (add_last w) o s).0) e,
      ap (λ o. (when_taken webrtc k (add_last w) o s).1) e,
    )),
    λ native e.
        subst
          (λ o.
            let (ok, s1) = when_taken webrtc k (add_last w) o s in
            (ok ≡ true)
            × ((tracks_of k s1).native ≡ native)
            × (webrtc.notifies ≡ false → Mirrors k s1)
            × (webrtc.notifies ≡ true
                → tracks_in (tracks_of k s1).wrappers ≡ native ++ w.track ∷ []))
          (sym e)
          (
            refl,
            ap (λ ts. ts.native) (taken-tracks (add_last w) native),
            (λ q.
                added-tracks w native
                ∙ ap
                    (λ b.
                      (if b then native else tracks_in (tracks_of k s).wrappers) ++ w.track ∷ [])
                    q
                ∙ ap (λ ts. ts ++ w.track ∷ []) m
                ∙ sym (h w.track (tracks_of k s).native native e)
                ∙ sym (ap (λ ts. ts.native) (taken-tracks (add_last w) native))),
            λ q.
                added-tracks w native
                ∙ ap
                    (λ b.
                      (if b then native else tracks_in (tracks_of k s).wrappers) ++ w.track ∷ [])
                    q,
          ),
  )

  -- RemoveTrack of a wrapper that the client has: where WebRTC takes the track away and calls OnChanged first,
  -- the bridge's list is WebRTC's, and no track is lost from it with the removed one.
  pub remove_track-Mirrors :
      (w : Wrapper) (native : List ℕ)
      → webrtc.notifies ≡ true
      → w.address < s.next
      → webrtc.remove w.track (tracks_of k s).native ≡ some native
      → let (ok, s1) = remove_track webrtc k w s in
        (ok ≡ true) × ((tracks_of k s1).native ≡ native) × Mirrors k s1
  unfolding remove_track
  remove_track-Mirrors w native n h e =
      subst
        (λ o.
          let (ok, s1) = when_taken webrtc k (erase w.address) o s in
          (ok ≡ true) × ((tracks_of k s1).native ≡ native) × Mirrors k s1)
        (sym e)
        (
          refl,
          ap (λ ts. ts.native) (taken-tracks (erase w.address) native),
          ap (λ ts. tracks_in ts.wrappers) (taken-tracks (erase w.address) native)
              ∙ ap tracks_in (erase-changed webrtc k native s w.address n h)
              ∙ changed-tracks webrtc k native s
              ∙ ap (λ b. if b then native else tracks_in (tracks_of k s).wrappers) n
              ∙ sym (ap (λ ts. ts.native) (taken-tracks (erase w.address) native)),
        )

-- The search by id passes no track with the id by, and what it finds has the id and is in the list.
pub find_track_lem :
    (id : ℕ → Bytes) (wanted : Bytes) (k : Kind) (s : Stream)
    → Mirrors k s
    → (find_track id wanted (tracks_of k s).wrappers ≡ none
        → (t : ℕ) → In t (tracks_of k s).native
        → same_text (c_string (id t)) (c_string wanted) ≡ false)
      × ((w : Wrapper)
          → find_track id wanted (tracks_of k s).wrappers ≡ some w
          → In w.track (tracks_of k s).native
            × (same_text (c_string (id w.track)) (c_string wanted) ≡ true))
find_track_lem id wanted k s m =
    subst
      (λ native.
        (find_track id wanted (tracks_of k s).wrappers ≡ none
          → (t : ℕ) → In t native
          → same_text (c_string (id t)) (c_string wanted) ≡ false)
        × ((w : Wrapper)
            → find_track id wanted (tracks_of k s).wrappers ≡ some w
            → In w.track native × (same_text (c_string (id w.track)) (c_string wanted) ≡ true)))
      m (find_none id wanted (tracks_of k s).wrappers, find_some id wanted (tracks_of k s).wrappers)
