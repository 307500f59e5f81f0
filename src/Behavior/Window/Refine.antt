-- ===== src/Behavior/Window/Refine.antt =====
-- sliding_window_note (av/behavior.c) against a log of which the newest entries count, for one call
-- and for a sequence.
use antivirus.Common.{
  ℕ, zero, suc, ◌+◌, ◌<◌, ◌≡◌, refl, sym, ap, ◌∙◌, Bool, true, false, ◌||◌, List, [], ◌∷◌, ◌++◌,
  arith, ltb, length, take, drop, take_all, Bool-cases, lt→ltb, inl, inr,
}
use antivirus.Behavior.Window.{Ring, scan, sliding_window_note}
use antivirus.Behavior.Window.Log.{
  Event, count, exists, recent, repeats, note, count-append, exists-append, count-reverse,
  exists-reverse,
}
use antivirus.Behavior.Window.Slots.{zip, take-append-drop, take-cons-take}
use antivirus.Behavior.Window.View.{
  slots, view, IsValid, length-slots, written-IsValid, view-written,
}
use mathlib.Core.Path.{ap₂}
use mathlib.Core.List.{reverse, append-nil}

-- The scan reads the slots in another order than the view lists them.
module _ (p : Event → Bool) (cap : ℕ) (r : Ring) (v : IsValid cap r) where
  abbrev newest : List Event
  newest = take r.next (slots r)

  abbrev oldest : List Event
  oldest = drop r.next (slots r)

  full_slots : ltb r.filled cap ≡ false → take r.filled (slots r) ≡ newest ++ oldest
  full_slots full =
      take_all r.filled (slots r) (ground (arith, length-slots cap 0 0 r v, v.filled_in))
      ∙ sym (take-append-drop r.next (slots r))

  filling_slots : ltb r.filled cap ≡ true → take r.filled (slots r) ≡ newest
  filling_slots room = ap (λ k. take k (slots r)) (ground (arith, v.in_order))

  count-view : count p (take r.filled (slots r)) ≡ count p (view cap r)
  count-view = elim (Bool-cases (ltb r.filled cap)) [
    | inl room ↦
        rw (filling_slots room, room, append-nil (reverse newest)) (sym (count-reverse p newest))
    | inr full ↦
        rw (full_slots full, full)
          (omega (
            arith,
            count-append p newest oldest,
            count-append p (reverse newest) (reverse oldest),
            count-reverse p newest,
            count-reverse p oldest,
          ))
  ]

  exists-view : exists p (take r.filled (slots r)) ≡ exists p (view cap r)
  exists-view = elim (Bool-cases (ltb r.filled cap)) [
    | inl room ↦
        rw (filling_slots room, room, append-nil (reverse newest)) (sym (exists-reverse p newest))
    | inr full ↦
        rw (full_slots full, full)
          (cc (
            exists-append p newest oldest,
            exists-append p (reverse newest) (reverse oldest),
            exists-reverse p newest,
            exists-reverse p oldest,
          ))
  ]

module _ (to_ms : ℕ → ℕ) (hash now window_ms : ℕ) where
  abbrev hits : List Event → ℕ
  hits = count (recent to_ms hash now window_ms)

  abbrev seen_in : List Event → Bool
  seen_in = exists (repeats to_ms hash now window_ms)

  scan_lem :
      (k : ℕ) (hs ts : List ℕ) (n : ℕ) (s : Bool)
      → scan to_ms hash now window_ms k hs ts n s
        ≡ (n + hits (take k (zip hs ts)), s || seen_in (take k (zip hs ts)))
  unfolding scan
  scan_lem zero hs ts n s = ground arith
  scan_lem (suc k) [] ts n s = ground arith
  scan_lem (suc k) (h ∷ hs) [] n s = ground arith
  scan_lem (suc k) (h ∷ hs) (t ∷ ts) n s = scan_lem k hs ts _ _ ∙ ground arith

  -- One call on a ring that holds the newest `cap` events of a log returns what the log returns,
  -- and leaves the ring valid and holding the newest `cap` events of the new log.
  pub note_refines :
      (cap : ℕ) (r : Ring) (log : List Event)
      → IsValid cap r
      → view cap r ≡ take cap log
      → let (n, r') = sliding_window_note to_ms hash now window_ms cap r in
        let (m, log') = note to_ms hash now window_ms cap log in
        (n ≡ m) × IsValid cap r' × (view cap r' ≡ take cap log')
  unfolding sliding_window_note
  note_refines cap r log v e =
      rw
        (
          scan_lem r.filled r.hashes r.jiffies 0 false,
          count-view (recent to_ms hash now window_ms) cap r v,
          exists-view (repeats to_ms hash now window_ms) cap r v,
          e,
        )
        (elim (Bool-cases (seen_in (take cap log))) [
          | inl again ↦ rw again (refl, v, e)
          | inr fresh ↦ rw fresh (
            omega arith,
            written-IsValid cap hash now r v,
            view-written cap hash now r v
                ∙ ap (λ l. take cap ((hash, now) ∷ l)) e
                ∙ take-cons-take cap (hash, now) log,
          )
        ])

-- A sequence of calls on one ring: what each returns, and the ring at the end.
module _ (to_ms : ℕ → ℕ) (window_ms cap : ℕ) where
  unfoldable pub run : Ring → List Event → List ℕ
  run r [] = []
  run r ((h, t) ∷ es) = let (n, r') = sliding_window_note to_ms h t window_ms cap r in n ∷ run r' es

  pub run_log : List Event → List Event → List ℕ
  run_log log [] = []
  run_log log ((h, t) ∷ es) =
      let (n, log') = note to_ms h t window_ms cap log in n ∷ run_log log' es

  -- Whatever a process does, and whatever the times, the counts that a valid ring returns are those
  -- of a log that is only ever added to and of which each call looks at the newest `cap` events, if
  -- ring and log agree on these at the start. An event that more than `cap` newer ones have pushed
  -- out is neither counted nor taken for a repeat, by the ring as by the log.
  pub run_refines :
      (es : List Event) (r : Ring) (log : List Event)
      → IsValid cap r
      → view cap r ≡ take cap log
      → run r es ≡ run_log log es
  unfolding run run_log
  run_refines [] r log v e = refl
  run_refines ((h, t) ∷ es) r log v e =
      let (same, valid, agree) = note_refines to_ms h t window_ms cap r log v e in
      ap₂ ◌∷◌ same (run_refines es _ _ valid agree)

-- A cleared ring, as a new entry or a recycled pid has it, is valid and holds nothing.
pub cleared-IsValid :
    (cap : ℕ) (r : Ring)
    → 0 < cap
    → length r.hashes ≡ cap
    → length r.jiffies ≡ cap
    → r.next ≡ 0
    → r.filled ≡ 0
    → IsValid cap r × (view cap r ≡ [])
cleared-IsValid cap r pos lh lj n f = (
  record {
    hashes_length = lh;
    jiffies_length = lj;
    next_in = omega arith;
    filled_in = omega arith;
    in_order = inr (omega arith);
  },
  rw (n, f, lt→ltb 0 cap pos),
)
