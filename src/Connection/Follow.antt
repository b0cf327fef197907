-- ===== src/Connection/Follow.antt =====
-- What the observer is told against the remote streams, over any order of steps.
use lumen_rtc.Base.{
  ℕ, ◌≡◌, refl, Bool, true, false, List, [], ◌∷◌, Option, none, some, elem, Distinct, ap, sym,
  subst, ◌∙◌, arith, Bool-cases, inl, inr,
}
use lumen_rtc.Connection.Bridge.{
  Outcome, crashes, returns, WebRtc, Connection, Event, asks, tells_stream, tells_no_stream,
  tells_channel, tell, tell_removed, on_add_stream, on_remove_stream, on_channel, register_observer,
  find_remote, close,
}
use lumen_rtc.Connection.Operations.{
  Result, Operation, perform, closing, restarting, listing_senders, listing_receivers,
  listing_transceivers, candidate_adding, channel_creating, stream_adding, stream_removing,
  stream_creating, track_adding, track_removing, track_transceiver, track_transceiver_init,
  type_transceiver, type_transceiver_init, restart_ice, senders, receivers, transceivers,
  add_candidate, create_data_channel, add_stream, remove_stream, create_local_stream, add_track,
  remove_track, add_track_transceiver, add_track_transceiver_init, add_type_transceiver,
  add_type_transceiver_init,
}
use lumen_rtc.Connection.Life.{
  wrappers, Step, performs, registers, gains_stream, loses_stream, gains_channel, Run, rest,
  then_step,
}
use lumen_rtc.Connection.Streams.{
  Distinct-append, wrappers-append, erase-wrappers, Distinct-erase, replay, replay-append,
  replay-tell_removed,
}

-- Remote streams have wrappers of their own, and the observer is registered.
pub record Inv (c : Connection) : Type 0 where
  pub distinct : Distinct (wrappers c.remote_streams)
  pub address : ℕ
  pub observed : c.observer ≡ some address

module _ {I : Type 0} where
  abbrev pub Followed : Connection → Connection → List (Event I) → Type 0
  Followed c d es = Inv d × (replay es (wrappers c.remote_streams) ≡ wrappers d.remote_streams)

  -- What the observer is told of remote streams.
  abbrev told : List (Event I) → List (Event I)
  told [] = []
  told (asks q ∷ es) = told es
  told (e ∷ es) = e ∷ told es

  abbrev is_closing : Operation I → Bool
  is_closing closing = true
  is_closing q = false

  abbrev Same : Connection → Result I → Type 0
  Same c (r, d, es) =
      (d.remote_streams ≡ c.remote_streams) × (d.observer ≡ c.observer) × (told es ≡ [])

  perform-Same :
      (w : WebRtc I) (q : Operation I) (c : Connection) (x : Result I)
      → is_closing q ≡ false
      → perform w q c ≡ returns x
      → Same c x
  unfolding perform restart_ice senders receivers transceivers add_candidate create_data_channel
      add_stream remove_stream create_local_stream add_track remove_track add_track_transceiver
      add_track_transceiver_init add_type_transceiver add_type_transceiver_init
  perform-Same w closing c x n e = cc
  perform-Same w restarting c x n e = ground arith
  perform-Same w listing_senders c x n e = ground arith
  perform-Same w listing_receivers c x n e = ground arith
  perform-Same w listing_transceivers c x n e = ground arith
  perform-Same w (candidate_adding m i s) c x n e = ground arith
  perform-Same w (channel_creating l i) c x n e = ground arith
  perform-Same w (stream_adding s n') c x n e = ground arith
  perform-Same w (stream_removing s n') c x n e = ground arith
  perform-Same w (stream_creating none) c x n e = ground arith
  perform-Same w (stream_creating (some s)) c x n e = ground arith
  perform-Same w (track_adding none ids) c x n e = ground arith
  perform-Same w (track_adding (some t) ids) c x n e = ground arith
  perform-Same w (track_removing s) c x n e = ground arith
  perform-Same w (track_transceiver none) c x n e = ground arith
  perform-Same w (track_transceiver (some t)) c x n e = ground arith
  perform-Same w (track_transceiver_init none i) c x n e = ground arith
  perform-Same w (track_transceiver_init (some t) none) c x n e = ground arith
  perform-Same w (track_transceiver_init (some t) (some i)) c x n e = ground arith
  perform-Same w (type_transceiver m) c x n e = ground arith
  perform-Same w (type_transceiver_init m none) c x n e = ground arith
  perform-Same w (type_transceiver_init m (some i)) c x n e = ground arith

  closing_only : (q : Operation I) → is_closing q ≡ true → q ≡ closing
  closing_only q e = ground arith

  replay-told : (es : List (Event I)) (ws : List ℕ) → told es ≡ [] → replay es ws ≡ ws
  replay-told [] ws e = refl
  replay-told (asks q ∷ es) ws e = replay-told es ws e
  replay-told (tells_stream w ∷ es) ws e = cc
  replay-told (tells_no_stream w ∷ es) ws e = cc
  replay-told (tells_channel w ∷ es) ws e = cc

  steady : (c : Connection) (x : Result I) → Inv c → Same c x → Followed c x.1 x.2
  steady c x v h = (
    record {
      distinct = subst (λ rs. Distinct (wrappers rs)) (sym h.0) v.distinct;
      address = v.address;
      observed = h.1 ∙ v.observed;
    },
    replay-told x.2 _ h.2 ∙ sym (ap wrappers h.0),
  )

  abbrev AllFollowed : Connection → Outcome (Result I) → Type 0
  AllFollowed c crashes = Unit
  AllFollowed c (returns x) = Followed c x.1 x.2

  -- A step on an optional object: nothing, or what the object leads to.
  elim-Followed :
      {A : Type 0} (c : Connection) (o : Option A) (x : Connection × List (Event I))
      (f : A → Connection × List (Event I))
      → Followed c x.0 x.1
      → ((a : A) → o ≡ some a → Followed c (f a).0 (f a).1)
      → let y = elim o as (λ _. Connection × List (Event I)) [ none ↦ x | some a ↦ f a ] in
        Followed c y.0 y.1
  elim-Followed c none x f h k = h
  elim-Followed c (some a) x f h k = k a refl

  -- Where the observer is registered, it is told.
  tell-Followed :
      (c : Connection) (v : Inv c) (e : Event I) (ws : List ℕ)
      → replay (e ∷ []) (wrappers c.remote_streams) ≡ ws
      → replay (tell c.observer e) (wrappers c.remote_streams) ≡ ws
  tell-Followed c v e ws h =
      subst (λ o. replay (tell o e) (wrappers c.remote_streams) ≡ ws) (sym v.observed) h

  abbrev pub IsWatched : {c d : Connection} {es : List (Event I)} → Step c d es → Type 0
  IsWatched (registers none) = ⊥
  IsWatched s = Unit

  -- An observer is registered throughout: none of the steps takes it away.
  abbrev pub Watched : {c d : Connection} {es : List (Event I)} → Run c d es → Type 0
  Watched rest = Unit
  Watched (then_step r s) = Watched r × IsWatched s

module _ (I : Type 0) where
  lose-Followed :
      (c : Connection) (stream : ℕ)
      → Inv c
      → Followed c (on_remove_stream {I = I} stream c).0 (on_remove_stream {I = I} stream c).1
  unfolding on_remove_stream
  lose-Followed c stream v =
      elim-Followed c (find_remote stream c.remote_streams) _ _ (v, refl)
        (λ r e. (
          record {
            distinct = Distinct-erase stream c.remote_streams v.distinct;
            address = v.address;
            observed = v.observed;
          },
          tell-Followed c v _ _ (erase-wrappers stream c.remote_streams r v.distinct e),
        ))

  gain-Followed :
      (c : Connection) (wrapper stream : ℕ)
      → Inv c
      → elem wrapper (wrappers c.remote_streams) ≡ false
      → Followed c
          (on_add_stream {I = I} wrapper stream c).0
          (on_add_stream {I = I} wrapper stream c).1
  unfolding on_add_stream
  gain-Followed c wrapper stream v f = (
    record {
      distinct =
          subst Distinct (sym (wrappers-append c.remote_streams _))
            (Distinct-append (wrappers c.remote_streams) wrapper v.distinct f);
      address = v.address;
      observed = v.observed;
    },
    tell-Followed c v _ _ (sym (wrappers-append c.remote_streams _)),
  )

  close-Followed : (c : Connection) → Inv c → Followed c (close {I = I} c).0 (close {I = I} c).1
  unfolding close
  close-Followed c v =
      elim-Followed c c.native _ _ (v, refl)
        (λ n e. (
          record { distinct = tt; address = v.address; observed = v.observed },
          subst
              (λ o.
                replay {I = I} (tell_removed o c.remote_streams) (wrappers c.remote_streams) ≡ [])
              (sym v.observed) (replay-tell_removed I v.address c.remote_streams),
        ))

module _ {I : Type 0} where
  perform-Followed :
      (w : WebRtc I) (q : Operation I) (c : Connection) (x : Result I)
      → Inv c
      → perform w q c ≡ returns x
      → Followed c x.1 x.2
  unfolding perform
  perform-Followed w q c x v e = elim (Bool-cases (is_closing q)) [
    | inl p ↦
        subst (AllFollowed c) (ap (λ k. perform w k c) (sym (closing_only q p)) ∙ e)
          (close-Followed I c v)
    | inr p ↦ steady c x v (perform-Same w q c x p e)
  ]

  step-Followed :
      {c d : Connection} {es : List (Event I)} (s : Step c d es)
      → IsWatched s
      → Inv c
      → Followed c d es
  unfolding register_observer on_channel
  step-Followed {c} (performs {r} {d} {es} w q e) k v = perform-Followed w q c (r, d, es) v e
  step-Followed (registers none) k v = absurd k
  step-Followed (registers (some o)) k v =
      (record { distinct = v.distinct; address = o; observed = refl }, refl)
  step-Followed {c} (gains_stream wrapper stream f) k v = gain-Followed I c wrapper stream v f
  step-Followed {c} (loses_stream stream) k v = lose-Followed I c stream v
  step-Followed {c} (gains_channel wrapper) k v = (
    record { distinct = v.distinct; address = v.address; observed = v.observed },
    tell-Followed c v _ _ refl,
  )

  -- An observer that is registered throughout can tell the remote streams from what it is told: replaying
  -- it, from the streams at the start, gives the streams at the end, in their order, over any calls that
  -- return and any notifications, Close among them.
  pub Run-Followed :
      {c d : Connection} {es : List (Event I)} (r : Run c d es)
      → Watched r
      → Inv c
      → Inv d × (replay es (wrappers c.remote_streams) ≡ wrappers d.remote_streams)
  Run-Followed rest k v = (v, refl)
  Run-Followed (then_step {es} {fs} r s) k v =
      let (v1, h1) = Run-Followed r k.0 v in
      let (v2, h2) = step-Followed s k.1 v1 in (v2, replay-append es fs _ ∙ ap (replay fs) h1 ∙ h2)
