-- ===== src/Behavior/Window/Slots.antt =====
-- The co-indexed arrays of a ring (av/behavior.c, struct av_behavior_entry) read as one list.
use mathlib.Core.List.{reverse, reverse-cons}
use antivirus.Common.{
  ℕ, zero, suc, ◌-◌, ◌≤◌, ◌<◌, ◌≡◌, refl, ap, ◌∙◌, List, [], ◌∷◌, ◌++◌, arith, length, take, drop,
  set, length-append,
}
use antivirus.Behavior.Window.Log.{Event}

abbrev pub zip : List ℕ → List ℕ → List Event
zip [] ts = []
zip (h ∷ hs) [] = []
zip (h ∷ hs) (t ∷ ts) = (h, t) ∷ zip hs ts

pub length-zip : (hs ts : List ℕ) → length hs ≡ length ts → length (zip hs ts) ≡ length hs
length-zip [] ts e = refl
length-zip (h ∷ hs) [] e = absurd (omega arith)
length-zip (h ∷ hs) (t ∷ ts) e = ap suc (length-zip hs ts (omega arith))

pub zip-set :
    (hs ts : List ℕ) (i h t : ℕ) → zip (set hs i h) (set ts i t) ≡ set (zip hs ts) i (h, t)
zip-set [] ts i h t = refl
zip-set (a ∷ hs) [] zero h t = refl
zip-set (a ∷ hs) [] (suc i) h t = refl
zip-set (a ∷ hs) (b ∷ ts) zero h t = refl
zip-set (a ∷ hs) (b ∷ ts) (suc i) h t = ap (λ l. (a, b) ∷ l) (zip-set hs ts i h t)

module _ (v : Event) where
  pub take-set_next :
      (n : ℕ) (xs : List Event) → n < length xs → take (suc n) (set xs n v) ≡ take n xs ++ (v ∷ [])
  take-set_next n [] h = absurd (omega arith)
  take-set_next zero (x ∷ xs) h = refl
  take-set_next (suc n) (x ∷ xs) h = ap (λ l. x ∷ l) (take-set_next n xs (omega arith))

  pub drop-set_next : (n : ℕ) (xs : List Event) → drop (suc n) (set xs n v) ≡ drop (suc n) xs
  drop-set_next n [] = refl
  drop-set_next zero (x ∷ xs) = refl
  drop-set_next (suc n) (x ∷ xs) = drop-set_next n xs

pub take-append-drop : (n : ℕ) (xs : List Event) → take n xs ++ drop n xs ≡ xs
take-append-drop zero xs = refl
take-append-drop (suc n) [] = refl
take-append-drop (suc n) (x ∷ xs) = ap (λ l. x ∷ l) (take-append-drop n xs)

pub drop_all : (n : ℕ) (xs : List Event) → length xs ≤ n → drop n xs ≡ []
drop_all zero [] h = refl
drop_all zero (x ∷ xs) h = absurd (omega arith)
drop_all (suc n) [] h = refl
drop_all (suc n) (x ∷ xs) h = drop_all n xs (omega arith)

pub drop_next :
    (n : ℕ) (xs : List Event) → n < length xs → (x : Event) × (drop n xs ≡ x ∷ drop (suc n) xs)
drop_next n [] h = absurd (omega arith)
drop_next zero (x ∷ xs) h = (x, refl)
drop_next (suc n) (x ∷ xs) h = drop_next n xs (omega arith)

pub take-append : (n : ℕ) (a b : List Event) → length a ≡ n → take n (a ++ b) ≡ a
take-append zero [] b e = refl
take-append zero (x ∷ a) b e = absurd (omega arith)
take-append (suc n) [] b e = absurd (omega arith)
take-append (suc n) (x ∷ a) b e = ap (λ l. x ∷ l) (take-append n a b (omega arith))

pub length-reverse : (a : List Event) → length (reverse a) ≡ length a
length-reverse [] = refl
length-reverse (x ∷ a) =
    ap length (reverse-cons x a)
    ∙ omega (arith, length-append (reverse a) (x ∷ []), length-reverse a)

pub length-drop : (n : ℕ) (a : List Event) → length (drop n a) ≡ length a - n
length-drop zero a = omega arith
length-drop (suc n) [] = omega arith
length-drop (suc n) (x ∷ a) = omega (arith, length-drop n a)

take-take : (m n : ℕ) (a : List Event) → m ≤ n → take m (take n a) ≡ take m a
take-take zero n a h = refl
take-take (suc m) zero a h = absurd (omega arith)
take-take (suc m) (suc n) [] h = refl
take-take (suc m) (suc n) (x ∷ a) h = ap (λ l. x ∷ l) (take-take m n a (omega arith))

pub take-cons-take : (n : ℕ) (x : Event) (a : List Event) → take n (x ∷ take n a) ≡ take n (x ∷ a)
take-cons-take zero x a = refl
take-cons-take (suc n) x a = ap (λ l. x ∷ l) (take-take n (suc n) a (omega arith))
