-- ===== src/Tests/WindowTests.antt =====
-- sliding_window_note on rings of two slots, a window of 2000 ms, one millisecond a jiffy.
use antivirus.Common.{ℕ, ◌<◌, ◌≤◌, ◌≡◌, ◌↔◌, refl, [], ◌∷◌, arith}
use antivirus.Behavior.Window.{Ring, empty, scan, sliding_window_note}
use antivirus.Behavior.Window.View.{IsValid, view}
use antivirus.Behavior.Window.Refine.{run, run_log, run_refines}
use antivirus.Behavior.Window.Detect.{AllRecent, Avoids, replay, trips_iff, burst_trips}

abbrev ms : ℕ → ℕ
ms j = j

-- Two paths noted at 100 and 200.
abbrev full : Ring
full = record { hashes = 7 ∷ 8 ∷ []; jiffies = 100 ∷ 200 ∷ []; next = 0; filled = 2 }

full-IsValid : IsValid 2 full
full-IsValid = omega arith

empty-IsValid : IsValid 2 (empty 2)
empty-IsValid = omega arith

-- A third path trips, a repeat does not, and after the window has passed nothing counts.
counts : run ms 2000 2 full ((9, 300) ∷ (8, 400) ∷ (5, 9000) ∷ []) ≡ 3 ∷ 0 ∷ 1 ∷ []
unfolding run sliding_window_note scan
counts = refl

run_refines_example :
    run ms 2000 2 full ((9, 300) ∷ (8, 400) ∷ [])
    ≡ run_log ms 2000 2 ((8, 200) ∷ (7, 100) ∷ []) ((9, 300) ∷ (8, 400) ∷ [])
run_refines_example =
    run_refines ms 2000 2 ((9, 300) ∷ (8, 400) ∷ []) full ((8, 200) ∷ (7, 100) ∷ []) full-IsValid
      refl

trips_iff_example :
    let n = (sliding_window_note ms 9 300 2000 2 full).0 in
    (n ≤ 3)
    × ((2 < n) ↔ ((full.filled ≡ 2) × AllRecent ms 2000 300 (view 2 full) × Avoids 9 (view 2 full)))
trips_iff_example = trips_iff ms 2000 2 9 300 full full-IsValid

burst_trips_example :
    (sliding_window_note ms 9 300 2000 2 (replay ms 2000 2 (empty 2) ((8, 200) ∷ (7, 100) ∷ []))).0
    ≡ 3
burst_trips_example =
    burst_trips ms 2000 2 (empty 2) ((8, 200) ∷ (7, 100) ∷ []) 9 300 empty-IsValid refl
      (((omega arith), ((omega arith), tt)), (((omega arith), tt), (tt, tt))) refl
      (refl, (refl, tt))
