-- ===== src/Behavior/Window/View.antt =====
-- A valid ring holds the newest events of its log: sliding_window_note refines the log.
use mathlib.Core.List.{reverse, reverse-append, reverse-cons, append-nil, append_assoc}
use native.Mathlib.Decide.{dec_lt}
use native.Mathlib.Nat.{mod-eq_of_lt}
use antivirus.Common.{
  ℕ, suc, ◌+◌, ◌-◌, ◌%◌, ◌≤◌, ◌<◌, ◌≡◌, sym, ap, ◌∙◌, ◌⊎◌, inl, inr, false, List, [], ◌∷◌, ◌++◌,
  arith, ltb, if◌then◌else◌, length, take, drop, set, take_all, length-set, length-append,
  length-take, lt→ltb, Bool-cases,
}
use antivirus.Behavior.Window.{Ring}
use antivirus.Behavior.Window.Log.{Event}
use antivirus.Behavior.Window.Slots.{
  zip, length-zip, zip-set, take-set_next, drop-set_next, drop_all, drop_next, take-append,
  length-reverse, length-drop,
}

abbrev pub slots : Ring → List Event
slots r = zip r.hashes r.jiffies

-- From the cursor on stand the oldest events, once the ring is full.
abbrev pub older : ℕ → Ring → List Event
older cap r = if ltb r.filled cap then [] else reverse (drop r.next (slots r))

-- What the ring holds, newest first.
abbrev pub view : ℕ → Ring → List Event
view cap r = reverse (take r.next (slots r)) ++ older cap r

pub record IsValid (cap : ℕ) (r : Ring) : Type 0 where
  pub hashes_length : length r.hashes ≡ cap
  pub jiffies_length : length r.jiffies ≡ cap
  pub next_in : r.next < cap
  pub filled_in : r.filled ≤ cap
  pub in_order : (r.filled ≡ cap) ⊎ (r.next ≡ r.filled)

-- The ring after a write at the cursor.
abbrev pub written : ℕ → ℕ → ℕ → Ring → Ring
written cap hash now r = record {
  hashes = set r.hashes r.next hash;
  jiffies = set r.jiffies r.next now;
  next = (r.next + 1) % cap;
  filled = if ltb r.filled cap then r.filled + 1 else r.filled;
}

module _ (cap hash now : ℕ) (r : Ring) (v : IsValid cap r) where
  pub length-slots : length (slots r) ≡ cap
  length-slots =
      length-zip r.hashes r.jiffies (v.hashes_length ∙ sym v.jiffies_length) ∙ v.hashes_length

  next_cases :
      ((r.next + 1 < cap) × ((r.next + 1) % cap ≡ suc r.next))
      ⊎ ((r.next + 1 ≡ cap) × ((r.next + 1) % cap ≡ 0))
  next_cases = elim (dec_lt (r.next + 1) cap) [
    | yes p ↦ inl (p, mod-eq_of_lt p ∙ omega arith)
    | no p ↦ inr (omega (arith, v.next_in), grind (arith, v.next_in))
  ]

  pub written-IsValid : IsValid cap (written cap hash now r)
  written-IsValid = record {
    hashes_length = length-set r.hashes r.next hash ∙ v.hashes_length;
    jiffies_length = length-set r.jiffies r.next now ∙ v.jiffies_length;
    next_in = ground (arith, next_cases);
    filled_in = ground arith;
    in_order = ground (arith, next_cases);
  }

  -- The slots up to the cursor, after the write, newest first.
  newer :
      reverse (take (suc r.next) (slots (written cap hash now r)))
      ≡ (hash, now) ∷ reverse (take r.next (slots r))
  newer =
      ap (λ l. reverse (take (suc r.next) l)) (zip-set r.hashes r.jiffies r.next hash now)
      ∙ ap reverse (take-set_next (hash, now) r.next (slots r) (omega (arith, length-slots)))
      ∙ reverse-append (take r.next (slots r)) ((hash, now) ∷ [])

  -- The slots past the cursor, after the write.
  rest : drop (suc r.next) (slots (written cap hash now r)) ≡ drop (suc r.next) (slots r)
  rest =
      ap (drop (suc r.next)) (zip-set r.hashes r.jiffies r.next hash now)
      ∙ drop-set_next (hash, now) r.next (slots r)

  -- The arrays after the write.
  abbrev after : List Event
  after = slots (written cap hash now r)

  length-after : length after ≡ cap
  length-after =
      length-zip _ _ (written-IsValid.hashes_length ∙ sym written-IsValid.jiffies_length)
      ∙ written-IsValid.hashes_length

  view-written_cursor :
      view cap (written cap hash now r)
      ≡ reverse (take (suc r.next) after)
        ++ (if ltb r.filled cap then [] else reverse (drop (suc r.next) (slots r)))
  view-written_cursor = elim next_cases [
    | inl (p, e) ↦ elim (Bool-cases (ltb r.filled cap)) [
      | inl room ↦ rw (e, room, lt→ltb (r.filled + 1) cap (ground arith))
      | inr full ↦ rw (e, full, full, rest)
    ]
    | inr (p, e) ↦
        rw (e, not_full, drop_all (suc r.next) (slots r) (omega (arith, length-slots)))
          (rw (take_all (suc r.next) after (omega (arith, length-after)))
            (ground (arith, append-nil (reverse after))))
  ]
    where
      not_full :
          r.next + 1 ≡ cap → ltb (if ltb r.filled cap then r.filled + 1 else r.filled) cap ≡ false
      not_full q = ground (arith, v.in_order)

  -- The slots before the cursor and those past it, newest first.
  abbrev near : List Event
  near = reverse (take r.next (slots r))

  abbrev far : List Event
  far = reverse (drop (suc r.next) (slots r))

  length-near : length near ≡ r.next
  length-near =
      length-reverse (take r.next (slots r))
      ∙ length-take r.next (slots r) (omega (arith, length-slots, v.next_in))

  length-far : length far ≡ cap - suc r.next
  length-far =
      length-reverse (drop (suc r.next) (slots r))
      ∙ length-drop (suc r.next) (slots r)
      ∙ ap (λ k. k - suc r.next) length-slots

  -- In a full ring the write drops the oldest event and nothing else.
  view_full :
      (x : Event)
      → drop r.next (slots r) ≡ x ∷ drop (suc r.next) (slots r)
      → take cap ((hash, now) ∷ (near ++ reverse (drop r.next (slots r))))
        ≡ ((hash, now) ∷ near) ++ far
  view_full x e =
      rw (e, reverse-cons x (drop (suc r.next) (slots r)), ← append_assoc near far (x ∷ []))
        (take-append cap ((hash, now) ∷ (near ++ far)) (x ∷ [])
          (omega (arith, length-append near far, length-near, length-far, v.next_in)))

  pub view-written : view cap (written cap hash now r) ≡ take cap ((hash, now) ∷ view cap r)
  view-written = elim (Bool-cases (ltb r.filled cap)) [
    | inl room ↦
        rw (view-written_cursor, newer, room, append-nil near)
          (sym (take_all cap ((hash, now) ∷ near) (omega (arith, length-near, v.next_in))))
    | inr full ↦
        rw (view-written_cursor, newer, full)
          (let (x, e) = drop_next r.next (slots r) (omega (arith, length-slots, v.next_in)) in
            sym (view_full x e))
  ]
