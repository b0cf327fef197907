-- ===== src/Factory/Invariant.antt =====
-- A factory's threads over any order of calls.
use lumen_rtc.Base.{ℕ, ◌≡◌, refl, ap, arith, false, ◌&&◌, ◌||◌, [], Option, is_some}
use lumen_rtc.Connection.Bridge.{returns}
use lumen_rtc.Factory.{
  Factory, System, blank, terminate, initialize, create, delete, get_audio_device, get_video_device,
  get_desktop_device, without,
}

-- With WebRTC's factory all three threads are there, and without it none of them, nor any connection, audio
-- module or queue.
pub record Inv (f : Factory) : Type 0 where
  pub worker : is_some f.worker_thread ≡ f.native
  pub signaling : is_some f.signaling_thread ≡ f.native
  pub network : is_some f.network_thread ≡ f.native
  pub processing : f.audio_processing ≡ f.native
  pub queue : f.task_queue_factory ≡ f.native
  pub no_module : f.native ≡ false → f.audio_device_module ≡ false
  pub no_connections : f.native ≡ false → f.connections ≡ []

pub data Step (f : Factory) : Factory → Type 0 where
  initializes : (w : System) → Step f (initialize w f).0
  terminates : Step f (terminate f)
  creates : {g : Factory} (connection : ℕ) → create connection f ≡ returns g → Step f g
  deletes : (connection : ℕ) → Step f (delete connection f)
  gets_audio :
      {t : Option ℕ} {g : Factory} (w : System) → get_audio_device w f ≡ returns (t, g) → Step f g
  gets_video : Step f (get_video_device f).1
  gets_desktop : Step f (get_desktop_device f).1

pub data Reach : Factory → Type 0 where
  start : Reach blank
  next : {f g : Factory} → Reach f → Step f g → Reach g

initialize-Inv : (w : System) (f : Factory) → Inv f → Inv (initialize w f).0
unfolding initialize terminate
initialize-Inv w f v = record {
  worker = ground (arith, v.worker);
  signaling = ground (arith, v.signaling);
  network = ground (arith, v.network);
  processing = ground (arith, v.processing);
  queue = ground (arith, v.queue);
  no_module = λ e. ground (arith, v.no_module);
  no_connections = λ e. ground (arith, v.no_connections);
}

terminate-Inv : (f : Factory) → Inv (terminate f)
unfolding terminate
terminate-Inv f = record {
  worker = refl;
  signaling = refl;
  network = refl;
  processing = refl;
  queue = refl;
  no_module = λ e. refl;
  no_connections = λ e. refl;
}

create-Inv : (connection : ℕ) (f g : Factory) → Inv f → create connection f ≡ returns g → Inv g
unfolding create
create-Inv connection f g v e = record {
  worker = ground (arith, v.worker);
  signaling = ground (arith, v.signaling);
  network = ground (arith, v.network);
  processing = ground (arith, v.processing);
  queue = ground (arith, v.queue);
  no_module = λ k. ground (arith, v.no_module);
  no_connections = λ k. ground (arith, v.no_connections);
}

audio-Inv :
    (w : System) (f g : Factory) (t : Option ℕ)
    → Inv f
    → get_audio_device w f ≡ returns (t, g)
    → Inv g
unfolding get_audio_device
audio-Inv w f g t v e = record {
  worker = ground (arith, v.worker);
  signaling = ground (arith, v.signaling);
  network = ground (arith, v.network);
  processing = ground (arith, v.processing);
  queue = ground (arith, v.queue);
  no_module = λ k. ground (arith, v.no_module, v.worker);
  no_connections = λ k. ground (arith, v.no_connections);
}

step-Inv : {f g : Factory} → Inv f → Step f g → Inv g
unfolding delete get_video_device get_desktop_device
step-Inv {f} v (initializes w) = initialize-Inv w f v
step-Inv {f} v terminates = terminate-Inv f
step-Inv {f} {g} v (creates connection e) = create-Inv connection f g v e
step-Inv {f} v (deletes connection) = record {
  worker = v.worker;
  signaling = v.signaling;
  network = v.network;
  processing = v.processing;
  queue = v.queue;
  no_module = v.no_module;
  no_connections = λ k. ap (without connection) (v.no_connections k);
}
step-Inv {f} {g} v (gets_audio {t} w e) = audio-Inv w f g t v e
step-Inv v gets_video = record {
  worker = v.worker;
  signaling = v.signaling;
  network = v.network;
  processing = v.processing;
  queue = v.queue;
  no_module = v.no_module;
  no_connections = v.no_connections;
}
step-Inv v gets_desktop = record {
  worker = v.worker;
  signaling = v.signaling;
  network = v.network;
  processing = v.processing;
  queue = v.queue;
  no_module = v.no_module;
  no_connections = v.no_connections;
}

pub reached : {f : Factory} → Reach f → Inv f
reached start = record {
  worker = refl;
  signaling = refl;
  network = refl;
  processing = refl;
  queue = refl;
  no_module = λ e. refl;
  no_connections = λ e. refl;
}
reached (next r s) = step-Inv (reached r) s

-- Initialize is all or nothing: over any calls before it, it returns true exactly if WebRTC's factory was there
-- already, or all three threads start and WebRTC creates the factory, so that a later call may succeed where one
-- failed; and it returns true exactly if the factory is there afterwards, with all three threads. If it
-- returns false, wherever it failed, no thread, no audio module and no connection is left.
pub initialize-Inv_result :
    {f : Factory} (w : System)
    → Reach f
    → ((initialize w f).1
        ≡ (f.native || (w.worker.starts && w.signaling.starts && w.network.starts && w.creates)))
      × ((initialize w f).1 ≡ (initialize w f).0.native)
      × Inv (initialize w f).0
unfolding initialize terminate
initialize-Inv_result {f} w r = (ground arith, ground arith, initialize-Inv w f (reached r))
