-- ===== src/Dtmf.antt =====
-- The DTMF sender of one RTP sender: native/src/lumenrtc_impl.cpp (lrtc_impl_rtp_sender_get_dtmf_sender,
-- lrtc_impl_dtmf_sender_set_callbacks and _release, DtmfSenderObserverImpl) over
-- bridge/lumenrtc_bridge/src/rtc_dtmf_sender_impl.cc. Each lookup makes a new RTCDtmfSenderImpl and a new
-- handle on it, which alone refers to it, while WebRTC's sender behind them, with its one observer, is
-- the same. A handle stands for its wrapper and its observer too, since it has one of each.
pub mod Insert
use lumen_rtc.Base.{
  ℕ, ◌≤◌, ◌<◌, ◌≡◌, ◌⊎◌, inl, inr, refl, Bool, true, false, List, [], ◌∷◌, Option, none, some,
  arith, if◌then◌else◌, count, remove, update, Allocator, count-remove,
}

pub record Dtmf : Type 0 where
  -- The handles that were newed and not deleted.
  pub live : List ℕ
  -- Whether the handle's `observer` was newed, and not deleted.
  pub observer : ℕ → Bool
  -- Its `on_tone_change`, if the client set one.
  pub callback : ℕ → Option ℕ
  -- Whether the wrapper's `observer_` is the handle's observer.
  pub observed : ℕ → Bool
  -- The handle whose wrapper is the observer of WebRTC's sender.
  pub registered : Option ℕ

abbrev pub untouched : Dtmf
untouched = record {
  live = [];
  observer = λ h. false;
  callback = λ h. none;
  observed = λ h. false;
  registered = none;
}

-- lrtc_impl_rtp_sender_get_dtmf_sender, of an audio sender.
unfoldable pub get_dtmf_sender : Allocator → Dtmf → ℕ × Dtmf
get_dtmf_sender heap s =
    let h = heap.fresh s.live in
    (
      h,
      record s {
        live = h ∷ s.live;
        observer = update s.observer h false;
        callback = update s.callback h none;
        observed = update s.observed h false;
      },
    )

-- RTCDtmfSenderImpl::RegisterObserver and UnregisterObserver.
unfoldable pub register_observer : ℕ → Dtmf → Dtmf
register_observer h s = record s { observed = update s.observed h true; registered = some h }

unfoldable pub unregister_observer : ℕ → Dtmf → Dtmf
unregister_observer h s = record s { observed = update s.observed h false; registered = none }

-- lrtc_impl_dtmf_sender_set_callbacks: `callback` is none for null callbacks and for a null
-- on_tone_change.
unfoldable pub set_callbacks : Option ℕ → Option ℕ → Dtmf → Dtmf
unfolding register_observer unregister_observer
set_callbacks none callback s = s
set_callbacks (some h) none s =
    unregister_observer h
      (record s { observer = update s.observer h true; callback = update s.callback h none })
set_callbacks (some h) (some f) s = register_observer h (
    unregister_observer h
      (record s { observer = update s.observer h true; callback = update s.callback h (some f) }))

-- lrtc_impl_dtmf_sender_release.
unfoldable pub release : Option ℕ → Dtmf → Dtmf
unfolding unregister_observer
release none s = s
release (some h) s =
    let t = unregister_observer h s in
    record t { live = remove h t.live; observer = update t.observer h false }

-- What a tone of WebRTC's sender leads to: nothing, a call of a client's callback, or a use of an observer
-- that is deleted or was never made.
pub data Tone : Type 0 where
  silent : Tone
  calls : ℕ → Tone
  dangling : Tone

abbrev call_of : Option ℕ → Tone
call_of none = silent
call_of (some f) = calls f

abbrev tone_at : Option ℕ → Dtmf → Tone
tone_at none s = silent
tone_at (some h) s =
    if s.observed h then (if s.observer h then call_of (s.callback h) else dangling) else silent

-- RTCDtmfSenderImpl::OnToneChange and the observer's behind it.
unfoldable pub on_tone_change : Dtmf → Tone
on_tone_change s = tone_at s.registered s

-- Whether the registered handle, if any, lives, with its observer and a callback.
abbrev pub Sound : Option ℕ → Dtmf → Type 0
Sound none s = Unit
Sound (some h) s =
    (0 < count h s.live)
    × (s.observed h ≡ true)
    × (s.observer h ≡ true)
    × ((f : ℕ) × (s.callback h ≡ some f))

pub record Inv (s : Dtmf) : Type 0 where
  pub sound : Sound s.registered s
  pub once : (h : ℕ) → count h s.live ≤ 1

-- A client looks the sender up, or uses a handle that it has; null handles change nothing.
pub data Step (heap : Allocator) (s : Dtmf) : Dtmf → Type 0 where
  looks_up : Step heap s (get_dtmf_sender heap s).1
  sets : (h : ℕ) (f : Option ℕ) → 0 < count h s.live → Step heap s (set_callbacks (some h) f s)
  releases : (h : ℕ) → 0 < count h s.live → Step heap s (release (some h) s)

pub data Reach (heap : Allocator) : Dtmf → Type 0 where
  start : Reach heap untouched
  next : {s t : Dtmf} → Reach heap s → Step heap s t → Reach heap t

module _ (heap : Allocator) where
  look_up-Inv : (s : Dtmf) → Inv s → Inv (get_dtmf_sender heap s).1
  unfolding get_dtmf_sender
  look_up-Inv s v = record {
    sound = kept s.registered v.sound;
    once = λ h. ground (arith, v.once h, heap.fresh_new s.live);
  }
    where
      kept : (r : Option ℕ) → Sound r s → Sound r (get_dtmf_sender heap s).1
      kept none u = tt
      kept (some h) u = (
        omega (arith, u.0),
        ground (arith, u.0, u.1, heap.fresh_new s.live),
        ground (arith, u.0, u.2, heap.fresh_new s.live),
        (u.3.0, ground (arith, u.0, u.3.1, heap.fresh_new s.live)),
      )

set-Inv :
    (h : ℕ) (f : Option ℕ) (s : Dtmf)
    → Inv s
    → 0 < count h s.live
    → Inv (set_callbacks (some h) f s)
unfolding set_callbacks register_observer unregister_observer
set-Inv h none s v m = record { sound = tt; once = v.once }
set-Inv h (some f) s v m = record {
  sound = (m, ground arith, ground arith, (f, ground arith));
  once = v.once;
}

release-Inv : (h : ℕ) (s : Dtmf) → Inv s → Inv (release (some h) s)
unfolding release unregister_observer
release-Inv h s v = record {
  sound = tt;
  once = λ a. ground (arith, v.once a, count-remove h a s.live);
}

Reach-Inv : (heap : Allocator) {s : Dtmf} → Reach heap s → Inv s
Reach-Inv heap start = record { sound = tt; once = λ h. omega arith }
Reach-Inv heap (next {s} r looks_up) = look_up-Inv heap s (Reach-Inv heap r)
Reach-Inv heap (next {s} r (sets h f m)) = set-Inv h f s (Reach-Inv heap r) m
Reach-Inv heap (next {s} r (releases h m)) = release-Inv h s (Reach-Inv heap r)

-- Whatever clients do with the handles that they have: a tone is either dropped or handed to the callback
-- that is set on a handle that lives, and never to an observer that is gone.
pub on_tone_change-safe :
    (heap : Allocator) {s : Dtmf}
    → Reach heap s
    → (on_tone_change s ≡ silent)
      ⊎ ((h : ℕ) × (f : ℕ) × (0 < count h s.live)
          × (s.callback h ≡ some f)
          × (on_tone_change s ≡ calls f))
unfolding on_tone_change
on_tone_change-safe heap {s} r = go s.registered (Reach-Inv heap r).sound
  where
    go :
        (o : Option ℕ)
        → Sound o s
        → (tone_at o s ≡ silent)
          ⊎ ((h : ℕ) × (f : ℕ) × (0 < count h s.live)
              × (s.callback h ≡ some f)
              × (tone_at o s ≡ calls f))
    go none u = inl refl
    go (some h) u = inr (h, u.3.0, u.0, u.3.1, ground (arith, u.1, u.2, u.3.1))

-- A handle whose callback is set last gets the tones; but if any handle of the same RTP sender, be it
-- another one, is released behind that, tones are dropped, though its callback is still set.
pub release_silences :
    (h h' f : ℕ) (s : Dtmf)
    → (on_tone_change (set_callbacks (some h) (some f) s) ≡ calls f)
      × (on_tone_change (release (some h') (set_callbacks (some h) (some f) s)) ≡ silent)
      × ((release (some h') (set_callbacks (some h) (some f) s)).callback h ≡ some f)
unfolding on_tone_change set_callbacks release register_observer unregister_observer
release_silences h h' f s = (ground arith, refl, ground arith)
