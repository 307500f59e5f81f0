-- ===== src/Behavior/Window/Log.antt =====
-- The reference definition: a log of all recorded events, newest first, of which the newest `cap`
-- count. It has no cursor and never overwrites.
use antivirus.Common.{
  ℕ, ◌+◌, ◌≡◌, refl, ap, ◌∙◌, Bool, false, ◌&&◌, ◌||◌, List, [], ◌∷◌, ◌++◌, arith, ◌==◌,
  if◌then◌else◌, take,
}
use antivirus.Behavior.Window.{is_recent}
use mathlib.Core.List.{reverse, reverse-cons}

abbrev pub Event : Type 0
Event = ℕ × ℕ

abbrev pub count : (Event → Bool) → List Event → ℕ
count p [] = 0
count p (e ∷ es) = (if p e then 1 else 0) + count p es

abbrev pub exists : (Event → Bool) → List Event → Bool
exists p [] = false
exists p (e ∷ es) = p e || exists p es

module _ (to_ms : ℕ → ℕ) (hash now window_ms : ℕ) where
  abbrev pub recent : Event → Bool
  recent e = is_recent to_ms window_ms now e.1

  abbrev pub repeats : Event → Bool
  repeats e = recent e && e.0 == hash

  abbrev pub note : ℕ → List Event → ℕ × List Event
  note cap log =
      if exists repeats (take cap log)
      then (0, log)
      else (count recent (take cap log) + 1, (hash, now) ∷ log)

module _ (p : Event → Bool) where
  pub count-append : (a b : List Event) → count p (a ++ b) ≡ count p a + count p b
  count-append [] b = omega arith
  count-append (e ∷ a) b = omega (arith, count-append a b)

  pub exists-append : (a b : List Event) → exists p (a ++ b) ≡ exists p a || exists p b
  exists-append [] b = refl
  exists-append (e ∷ a) b = ground (arith, exists-append a b)

  pub count-reverse : (a : List Event) → count p (reverse a) ≡ count p a
  count-reverse [] = refl
  count-reverse (e ∷ a) =
      ap (count p) (reverse-cons e a)
      ∙ omega (arith, count-append (reverse a) (e ∷ []), count-reverse a)

  pub exists-reverse : (a : List Event) → exists p (reverse a) ≡ exists p a
  exists-reverse [] = refl
  exists-reverse (e ∷ a) =
      ap (exists p) (reverse-cons e a)
      ∙ ground (arith, exists-append (reverse a) (e ∷ []), exists-reverse a)
