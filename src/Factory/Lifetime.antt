-- ===== src/Factory/Lifetime.antt =====
-- Who keeps a peer connection alive: the factory's list, bridge/lumenrtc_bridge/src/
-- rtc_peerconnection_factory_impl.cc, and the client's handle, native/src/lumenrtc_impl.cpp. A wrapper whose
-- last reference goes is destroyed, which closes it.
use lumen_rtc.Base.{
  ℕ, ◌≡◌, refl, arith, Bool, true, false, not, ◌||◌, List, [], ◌∷◌, ◌++◌, Option, if◌then◌else◌,
  ◌==◌, elem, ◌&&◌,
}
use lumen_rtc.Peer.Events.{Callbacks, Observer, no_callbacks, set_callbacks}
use lumen_rtc.Factory.{without}

-- A client's handle on a wrapper; each has its observer.
pub record Handle : Type 0 where
  pub connection : ℕ
  pub observer : Observer

pub record World : Type 0 where
  -- `peerconnections_`.
  pub connections : List ℕ
  pub handles : List Handle
  -- The wrappers whose WebRTC connection is there.
  pub live : List ℕ
  -- The wrappers with a registered observer.
  pub observed : List ℕ

abbrev pub handled : ℕ → List Handle → Bool
handled c [] = false
handled c (h ∷ hs) = let rest = handled c hs in if h.connection == c then true else rest

abbrev pub drop_handle : ℕ → List Handle → List Handle
drop_handle c [] = []
drop_handle c (h ∷ hs) = let rest = drop_handle c hs in if h.connection == c then hs else h ∷ rest

-- The destructor of a wrapper that nothing refers to any more: Close.
abbrev pub destroy : List ℕ → List Handle → List ℕ → List ℕ
destroy connections handles [] = []
destroy connections handles (c ∷ cs) =
    let rest = destroy connections handles cs in
    if elem c connections || handled c handles then c ∷ rest else rest

abbrev pub new_observer : Observer
new_observer = record { callbacks = no_callbacks; user_data = 0 }

-- lrtc_impl_peer_connection_create, of a factory that is initialised, by Create: `created` tells whether
-- WebRTC gives a connection, which the code does not look at.
unfoldable pub peer_connection_create : ℕ → Bool → Option Callbacks → ℕ → World → World
peer_connection_create c created callbacks user_data w = record {
  connections = w.connections ++ c ∷ [];
  handles =
      record { connection = c; observer = set_callbacks callbacks user_data new_observer }
      ∷ w.handles;
  live = if created then c ∷ w.live else w.live;
  observed = c ∷ w.observed;
}

-- lrtc_impl_peer_connection_close.
unfoldable pub peer_connection_close : ℕ → World → World
peer_connection_close c w = record w { live = without c w.live }

-- lrtc_impl_peer_connection_release.
unfoldable pub peer_connection_release : ℕ → World → World
peer_connection_release c w =
    let handles = drop_handle c w.handles in
    record w {
      handles = handles;
      observed = without c w.observed;
      live = destroy w.connections handles w.live;
    }

-- Terminate's `peerconnections_.clear()`.
unfoldable pub clear_connections : World → World
clear_connections w = record w { connections = []; live = destroy [] w.handles w.live }

-- A factory's connections over any calls; a new wrapper is where no other lives.
pub data Step (w : World) : World → Type 0 where
  creates :
      (c : ℕ) (created : Bool) (callbacks : Option Callbacks) (user_data : ℕ)
      → Step w (peer_connection_create c created callbacks user_data w)
  closes : (c : ℕ) → Step w (peer_connection_close c w)
  releases : (c : ℕ) → Step w (peer_connection_release c w)
  clears : Step w (clear_connections w)

pub data Reach : World → Type 0 where
  start : Reach (record { connections = []; handles = []; live = []; observed = [] })
  next : {v w : World} → Reach v → Step v w → Reach w

elem-destroy :
    (c : ℕ) (cs : List ℕ) (hs : List Handle) (ls : List ℕ)
    → elem c (destroy cs hs ls) ≡ (elem c ls && (elem c cs || handled c hs))
elem-destroy c cs hs [] = refl
elem-destroy c cs hs (l ∷ ls) = ground (arith, elem-destroy c cs hs ls)

elem-without : (c d : ℕ) (xs : List ℕ) → elem c (without d xs) ≡ (elem c xs && not (c == d))
elem-without c d [] = refl
elem-without c d (x ∷ xs) = ground (arith, elem-without c d xs)

elem-append : (c : ℕ) (xs : List ℕ) (x : ℕ) → elem c (xs ++ x ∷ []) ≡ (elem c xs || c == x)
elem-append c [] x = ground arith
elem-append c (y ∷ ys) x = ground (arith, elem-append c ys x)

-- No WebRTC connection runs that neither the factory nor a handle of the client refers to.
abbrev pub Held : World → Type 0
Held w = (c : ℕ) → elem c w.live ≡ true → (elem c w.connections || handled c w.handles) ≡ true

step-Held : {v w : World} → Held v → Step v w → Held w
unfolding peer_connection_create peer_connection_close peer_connection_release clear_connections
step-Held {v} h (creates d created callbacks user_data) c e =
    ground (arith, h c, elem-append c v.connections d)
step-Held {v} h (closes d) c e = ground (arith, h c, elem-without c d v.live)
step-Held {v} h (releases d) c e =
    ground (arith, elem-destroy c v.connections (drop_handle d v.handles) v.live)
step-Held {v} h clears c e = ground (arith, elem-destroy c [] v.handles v.live)

-- Over any calls, a WebRTC connection runs only while the factory or a handle refers to its wrapper.
pub live-Held :
    {w : World}
    → Reach w
    → (c : ℕ) → elem c w.live ≡ true
    → (elem c w.connections || handled c w.handles) ≡ true
live-Held start c e = cc
live-Held (next r s) c e = step-Held (live-Held r) s c e

-- A client that releases its handle without closing the connection leaves it running: the factory holds
-- every wrapper that it created, until Terminate; and it holds it behind Close and release as well.
pub release_leaks :
    (w : World) (c : ℕ)
    → elem c w.connections ≡ true
    → (elem c (peer_connection_release c w).live ≡ elem c w.live)
      × (elem c (peer_connection_release c (peer_connection_close c w)).connections ≡ true)
      × (handled c (drop_handle c w.handles) ≡ false
          → elem c (clear_connections (peer_connection_release c w)).live ≡ false)
unfolding peer_connection_release peer_connection_close clear_connections
release_leaks w c e = (
  ground (arith, elem-destroy c w.connections (drop_handle c w.handles) w.live),
  e,
  λ h. ground (
    arith,
    elem-destroy c [] (drop_handle c w.handles)
        (destroy w.connections (drop_handle c w.handles) w.live),
  ),
)
