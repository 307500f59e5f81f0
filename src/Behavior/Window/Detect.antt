-- ===== src/Behavior/Window/Detect.antt =====
-- What the count of sliding_window_note (av/behavior.c) detects, against the thresholds of its
-- callers: the ring is as large as the threshold, and a count above it is the full ring and one.
use mathlib.Core.Bool.{false≢true}
use mathlib.Core.List.{reverse, append-nil}
use antivirus.Common.{
  ℕ, zero, suc, ◌+◌, ◌≤◌, ◌<◌, ◌≡◌, ◌≢◌, refl, sym, ap, ◌∙◌, ◌↔◌, Bool, true, false, List, [], ◌∷◌,
  arith, ltb, if◌then◌else◌, length, take, drop, Bool-cases, inl, inr, eq→==, ==→eq, length-append,
  length-take, take_all,
}
use antivirus.Behavior.Window.{Ring, is_recent, sliding_window_note}
use antivirus.Behavior.Window.Log.{Event, count, exists, recent, repeats}
use antivirus.Behavior.Window.Slots.{length-reverse, length-drop}
use antivirus.Behavior.Window.View.{slots, view, IsValid, length-slots}
use antivirus.Behavior.Window.Refine.{note_refines}

-- No event of the list has this hash.
abbrev pub Avoids : ℕ → List Event → Type 0
Avoids hash [] = Unit
Avoids hash (e ∷ es) = (e.0 ≢ hash) × Avoids hash es

abbrev pub Distinct : List Event → Type 0
Distinct [] = Unit
Distinct (e ∷ es) = Avoids e.0 es × Distinct es

module _ (to_ms : ℕ → ℕ) (window_ms : ℕ) where
  -- Every event of the list lies within the window that ends now.
  abbrev pub AllRecent : ℕ → List Event → Type 0
  AllRecent now [] = Unit
  AllRecent now (e ∷ es) = (is_recent to_ms window_ms now e.1 ≡ true) × AllRecent now es

  module _ (hash now : ℕ) where
    abbrev hits : List Event → ℕ
    hits = count (recent to_ms hash now window_ms)

    abbrev again : List Event → Bool
    again = exists (repeats to_ms hash now window_ms)

    hits-le-length : (es : List Event) → hits es ≤ length es
    hits-le-length [] = omega arith
    hits-le-length (e ∷ es) = ground (arith, hits-le-length es)

    hits-AllRecent : (es : List Event) → AllRecent now es → hits es ≡ length es
    hits-AllRecent [] h = refl
    hits-AllRecent (e ∷ es) h = ground (arith, hits-AllRecent es h.1)

    AllRecent-hits : (es : List Event) → hits es ≡ length es → AllRecent now es
    AllRecent-hits [] h = tt
    AllRecent-hits (e ∷ es) h =
        (ground (arith, hits-le-length es), AllRecent-hits es (ground (arith, hits-le-length es)))

    again-Avoids : (es : List Event) → Avoids hash es → again es ≡ false
    again-Avoids [] h = refl
    again-Avoids (e ∷ es) h = ground (arith, again-Avoids es h.1, ==→eq e.0 hash)

    Avoids-again : (es : List Event) → AllRecent now es → again es ≡ false → Avoids hash es
    Avoids-again [] r h = tt
    Avoids-again (e ∷ es) r h =
        ((λ q. ground (arith, eq→== e.0 hash q)), Avoids-again es r.1 (ground arith))

    Avoids-take : (n : ℕ) (es : List Event) → Avoids hash es → Avoids hash (take n es)
    Avoids-take zero es h = tt
    Avoids-take (suc n) [] h = tt
    Avoids-take (suc n) (e ∷ es) h = (h.0, Avoids-take n es h.1)

    AllRecent-take : (n : ℕ) (es : List Event) → AllRecent now es → AllRecent now (take n es)
    AllRecent-take zero es h = tt
    AllRecent-take (suc n) [] h = tt
    AllRecent-take (suc n) (e ∷ es) h = (h.0, AllRecent-take n es h.1)

    trips-log :
        (cap filled : ℕ) (l : List Event)
        → length l ≡ filled
        → filled ≤ cap
        → let n =
            (if◌then◌else◌ {A = ℕ × List Event} (again l) (0, l) (hits l + 1, (hash, now) ∷ l)).0 in
          (n ≤ cap + 1) × ((cap < n) ↔ ((filled ≡ cap) × AllRecent now l × Avoids hash l))
    trips-log cap filled l e h = elim (Bool-cases (again l)) [
      | inl a ↦ rw a (
        omega arith,
        ((λ k. absurd (omega arith)), (λ x. absurd (false≢true (sym (again-Avoids l x.2) ∙ a)))),
      )
      | inr f ↦ rw f (
        omega (arith, hits-le-length l),
        (
          (λ k.
              let all : AllRecent now l = AllRecent-hits l (omega (arith, hits-le-length l)) in
              (omega (arith, hits-le-length l), all, Avoids-again l all f)),
          (λ x. omega (arith, hits-AllRecent l x.1)),
        ),
      )
    ]

length-view : (cap : ℕ) (r : Ring) → IsValid cap r → length (view cap r) ≡ r.filled
length-view cap r v = elim (Bool-cases (ltb r.filled cap)) [
  | inl room ↦
      rw (room, append-nil (reverse (take r.next (slots r))))
        (length-reverse (take r.next (slots r))
          ∙ length-take r.next (slots r) (omega (arith, length-slots cap 0 0 r v, v.next_in))
          ∙ ground (arith, v.in_order))
  | inr full ↦ rw full (
      omega (
        arith,
        length-append (reverse (take r.next (slots r))) (reverse (drop r.next (slots r))),
        length-reverse (take r.next (slots r)),
        length-take r.next (slots r) (omega (arith, length-slots cap 0 0 r v, v.next_in)),
        length-reverse (drop r.next (slots r)),
        length-drop r.next (slots r),
        length-slots cap 0 0 r v,
        full_filled full,
        v.next_in,
      ))
]
  where
    full_filled : ltb r.filled cap ≡ false → r.filled ≡ cap
    full_filled h = ground (arith, v.filled_in)

module _ (to_ms : ℕ → ℕ) (window_ms cap : ℕ) where
  -- On a valid ring the count is at most `cap` + 1. It exceeds `cap` exactly when the ring is full,
  -- all its events lie within the window, and none of them has the new hash.
  pub trips_iff :
      (hash now : ℕ) (r : Ring)
      → IsValid cap r
      → let n = (sliding_window_note to_ms hash now window_ms cap r).0 in
        (n ≤ cap + 1)
        × ((cap < n) ↔ (
            (r.filled ≡ cap)
            × AllRecent to_ms window_ms now (view cap r)
            × Avoids hash (view cap r)))
  trips_iff hash now r v =
      let whole : take cap (view cap r) ≡ view cap r =
        take_all cap (view cap r) (omega (arith, length-view cap r v, v.filled_in)) in
      rw ((note_refines to_ms hash now window_ms cap r (view cap r) v (sym whole)).0, whole)
        (trips-log to_ms window_ms hash now cap r.filled (view cap r) (length-view cap r v)
          v.filled_in)

  -- The ring after a sequence of calls, the last call first.
  pub replay : Ring → List Event → Ring
  replay r [] = r
  replay r ((h, t) ∷ es) = (sliding_window_note to_ms h t window_ms cap (replay r es)).1

  replay-view :
      (r : Ring) (es : List Event)
      → IsValid cap r
      → view cap r ≡ []
      → Distinct es
      → IsValid cap (replay r es) × (view cap (replay r es) ≡ take cap es)
  unfolding replay
  replay-view r [] v e d = (v, e ∙ sym (take_all cap [] (omega arith)))
  replay-view r ((h, t) ∷ es) v e d =
      let (valid, held) = replay-view r es v e d.1 in
      let (same, valid', held') =
        note_refines to_ms h t window_ms cap (replay r es) es valid held in
      (
        valid',
        held'
            ∙ ap (take cap) (
                rw (
                  again-Avoids to_ms window_ms h t (take cap es)
                    (Avoids-take to_ms window_ms h t cap es d.0))),
      )

  -- A process whose ring is clear notes `cap` paths with pairwise distinct hashes, and then one more
  -- with another hash. If at that moment all of them lie within the window, the count exceeds
  -- `cap`, whatever else their times are.
  pub burst_trips :
      (r : Ring) (es : List Event) (hash now : ℕ)
      → IsValid cap r
      → view cap r ≡ []
      → Distinct ((hash, now) ∷ es)
      → length es ≡ cap
      → AllRecent to_ms window_ms now es
      → (sliding_window_note to_ms hash now window_ms cap (replay r es)).0 ≡ cap + 1
  burst_trips r es hash now v e d len all =
      let (valid, held) = replay-view r es v e d.1 in
      let whole : take cap es ≡ es = take_all cap es (omega arith) in
      (note_refines to_ms hash now window_ms cap (replay r es) es valid held).0
      ∙ rw (whole, again-Avoids to_ms window_ms hash now es d.0)
          (omega (arith, hits-AllRecent to_ms window_ms hash now es all))
