-- ===== src/Behavior/Window.antt =====
-- The trailing-window ring of behavior.c (av/behavior.c, sliding_window_note). `to_ms` stands for
-- the kernel's jiffies_to_msecs.
pub mod Log
mod Slots
pub mod View
pub mod Refine
pub mod Detect
use antivirus.Common.{
  ℕ, zero, suc, ◌+◌, ◌-◌, ◌%◌, ◌^◌, Bool, true, false, ◌&&◌, ◌||◌, List, [], ◌∷◌, ltb, leb, ◌==◌,
  if◌then◌else◌, set, replicate,
}

-- The four fields of struct av_behavior_entry that make up one ring. The two arrays are co-indexed.
pub record Ring : Type 0 where
  pub hashes : List ℕ
  pub jiffies : List ℕ
  pub next : ℕ
  pub filled : ℕ

abbrev pub empty : ℕ → Ring
empty cap = record { hashes = replicate cap 0; jiffies = replicate cap 0; next = 0; filled = 0 }

-- unsigned long subtraction
abbrev pub sub_ulong : ℕ → ℕ → ℕ
sub_ulong a b = (a + 2 ^ 64 - b) % 2 ^ 64

module _ (to_ms : ℕ → ℕ) where
  -- jiffies_to_msecs(now - t) <= window_ms
  abbrev pub is_recent : ℕ → ℕ → ℕ → Bool
  is_recent window_ms now t = leb (to_ms (sub_ulong now t)) window_ms

  module _ (hash now window_ms : ℕ) where
    -- The loop over the first `filled` slots, with its in_window and seen.
    unfoldable pub scan : ℕ → List ℕ → List ℕ → ℕ → Bool → ℕ × Bool
    scan zero hs ts in_window seen = (in_window, seen)
    scan (suc k) [] ts in_window seen = (in_window, seen)
    scan (suc k) (h ∷ hs) [] in_window seen = (in_window, seen)
    scan (suc k) (h ∷ hs) (t ∷ ts) in_window seen =
        let recent = is_recent window_ms now t in
        scan k hs ts (if recent then in_window + 1 else in_window) (seen || (recent && h == hash))

    -- The returned count and the ring after the call.
    unfoldable pub sliding_window_note : ℕ → Ring → ℕ × Ring
    sliding_window_note cap r =
        let (in_window, seen) = scan r.filled r.hashes r.jiffies 0 false in
        if seen then (0, r) else (
          in_window + 1,
          record {
            hashes = set r.hashes r.next hash;
            jiffies = set r.jiffies r.next now;
            next = (r.next + 1) % cap;
            filled = if ltb r.filled cap then r.filled + 1 else r.filled;
          },
        )
