-- ===== src/Tests/Frames.antt =====
-- Examples on the frame handle pool: two frames arrive, and a client retains the first one's handle.
use lumen_rtc.Base.{ℕ, ◌<◌, ◌≡◌, ◌≢◌, true, List, [], ◌∷◌, some, arith, count, bump}
use lumen_rtc.FramePool.{Frames, initial, on_frame, retain, release}
use lumen_rtc.FramePool.Invariant.{Inv, Reach, start, next, arrive, Reach-Inv}
use lumen_rtc.FramePool.Reuse.{on_frame_isolated, retain-release}

abbrev first : Frames
first = (on_frame bump true (some 70) initial).1

abbrev second : Frames
second = (on_frame bump true (some 71) first).1

abbrev held : List ℕ
held = 2 ∷ 1 ∷ []

abbrev two_arrived : Reach bump second held
unfolding on_frame
two_arrived = next (next start (arrive true (some 70))) (arrive true (some 71))

Reach-Inv_example : Inv second held
Reach-Inv_example = Reach-Inv bump two_arrived

on_frame_isolated_example :
    (h : ℕ) × ((on_frame bump true (some 72) second).0 ≡ some h)
    × (count h held ≡ 0)
    × ((on_frame bump true (some 72) second).1.ref h ≡ some 72)
    × ((a : ℕ) → 0 < count a held → (on_frame bump true (some 72) second).1.ref a ≡ second.ref a)
on_frame_isolated_example = on_frame_isolated bump 72 two_arrived

retain-release_example :
    (h' : ℕ) × ((retain bump (some 1) second).0 ≡ some h')
    × (h' ≢ 1)
    × ((release (some 1) (retain bump (some 1) second).1).ref h' ≡ second.ref 1)
    × ((release (some h') (retain bump (some 1) second).1).ref 1 ≡ second.ref 1)
retain-release_example = retain-release bump 1 two_arrived (omega arith)
