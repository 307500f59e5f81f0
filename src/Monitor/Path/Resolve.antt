-- ===== src/Monitor/Path/Resolve.antt =====
-- normalize_abs_path (av/main.c) against a definition that reads the pieces of a path from its end:
-- each ".." there drops the nearest name before it that no other ".." drops.
use mathlib.Core.List.{reverse, reverse-cons, reverse-reverse, append-nil, append_assoc}
use antivirus.Common.{
  ℕ, zero, suc, ◌<◌, ◌≡◌, refl, sym, ap, ◌∙◌, Bool, true, false, Option, none, some, List, [], ◌∷◌,
  ◌++◌, ltb, length, ◌-◌, ◌+◌, drop, take, CString, arith, Bool-cases, inl, inr, take_all, ◌&&◌,
  if◌then◌else◌,
}
use mathlib.Core.Path.{subst}
use antivirus.HashTable.Chain.{All}
use antivirus.Monitor.Path.{
  max_components, tokens, is_skipped, is_parent, step_piece, push_pieces, rebuild, settle,
  normalize_abs_path,
}
use antivirus.Monitor.Path.Laws.{
  IsName, IsStack, Ends, IsNormal, whole_loop, length-rebuild, room-reverse, length-reverse,
  All-reverse,
}

-- A name in front of pieces whose ".." leave so many to drop, and whose names stay.
abbrev pub name_before : CString → ℕ × List CString → ℕ × List CString
name_before tok (zero, names) = (zero, tok ∷ names)
name_before tok (suc ups, names) = (ups, names)

abbrev pub parent_before : ℕ × List CString → ℕ × List CString
parent_before (ups, names) = (suc ups, names)

unfoldable pub resolve : List CString → ℕ × List CString
resolve [] = (0, [])
resolve (tok ∷ toks) =
    let rest = resolve toks in
    if is_skipped tok
    then rest
    else if is_parent tok
    then parent_before rest
    else name_before tok rest

-- From the root at depth `depth`, the pieces never lead deeper than 128 components.
unfoldable pub stays_shallow : List CString → ℕ → Bool
stays_shallow [] depth = true
stays_shallow (tok ∷ toks) depth =
    let down = stays_shallow toks (suc depth) in
    let up = stays_shallow toks (depth - 1) in
    let level = stays_shallow toks depth in
    if is_skipped tok then level else if is_parent tok then up else ltb depth max_components && down

-- What a loop over the pieces makes of a stack, by what they resolve to.
abbrev onto : List CString → ℕ × List CString → List CString
onto stack (ups, names) = reverse names ++ drop ups stack

abbrev looped : Bool → List CString → Option (List CString)
looped true stack = some stack
looped false stack = none

onto-name_before :
    (tok : CString) (stack : List CString) (r : ℕ × List CString)
    → onto (tok ∷ stack) r ≡ onto stack (name_before tok r)
onto-name_before tok stack (zero, names) =
    sym (append_assoc (reverse names) (tok ∷ []) stack)
    ∙ ap (λ l. l ++ stack) (sym (reverse-cons tok names))
onto-name_before tok stack (suc ups, names) = refl

drop-drop : (n : ℕ) (stack : List CString) → drop n (drop 1 stack) ≡ drop (suc n) stack
drop-drop zero [] = refl
drop-drop (suc n) [] = refl
drop-drop n (x ∷ stack) = refl

length-drop : (stack : List CString) → length (drop 1 stack) ≡ length stack - 1
length-drop [] = refl
length-drop (x ∷ stack) = omega arith

abbrev next : List CString → Option (List CString) → Option (List CString)
next toks none = none
next toks (some stack) = push_pieces toks stack

push_pieces-step :
    (tok : CString) (toks stack : List CString) (o : Option (List CString))
    → step_piece tok stack ≡ o
    → push_pieces (tok ∷ toks) stack ≡ next toks o
unfolding push_pieces
push_pieces-step tok toks stack o e =
    ap (λ o. elim o [ none ↦ none | some s ↦ push_pieces toks s ]) e ∙ same o
  where
    same :
        (o : Option (List CString))
        → elim o [ none ↦ none | some s ↦ push_pieces toks s ] ≡ next toks o
    same none = refl
    same (some s) = refl

step_skipped :
    (tok : CString) (stack : List CString)
    → is_skipped tok ≡ true
    → step_piece tok stack ≡ some stack
unfolding step_piece
step_skipped tok stack e = rw e refl

step_parent :
    (tok : CString) (stack : List CString)
    → is_skipped tok ≡ false
    → is_parent tok ≡ true
    → step_piece tok stack ≡ some (drop 1 stack)
unfolding step_piece
step_parent tok stack k e = rw (k, e) refl

step_name :
    (tok : CString) (stack : List CString)
    → is_skipped tok ≡ false
    → is_parent tok ≡ false
    → step_piece tok stack
      ≡ (if ltb (length stack) max_components then some (tok ∷ stack) else none)
unfolding step_piece
step_name tok stack k e = rw (k, e) refl

push_pieces-resolve :
    (toks stack : List CString)
    → push_pieces toks stack
      ≡ looped (stays_shallow toks (length stack)) (onto stack (resolve toks))
unfolding push_pieces stays_shallow resolve
push_pieces-resolve [] stack = refl
push_pieces-resolve (tok ∷ toks) stack = elim (Bool-cases (is_skipped tok)) [
  | inl skip ↦ rw skip (
      push_pieces-step tok toks stack _ (step_skipped tok stack skip)
      ∙ push_pieces-resolve toks stack)
  | inr kept ↦ elim (Bool-cases (is_parent tok)) [
    | inl up ↦
        rw (kept, up)
          (push_pieces-step tok toks stack _ (step_parent tok stack kept up)
            ∙ push_pieces-resolve toks (drop 1 stack)
            ∙ ap (λ n. looped (stays_shallow toks n) (onto (drop 1 stack) (resolve toks)))
                (length-drop stack)
            ∙ ap
                (λ l.
                  looped (stays_shallow toks (length stack - 1)) (reverse (resolve toks).1 ++ l))
                (drop-drop (resolve toks).0 stack))
    | inr down ↦ elim (Bool-cases (ltb (length stack) max_components)) [
      | inl room ↦
          rw (kept, down, room)
            (push_pieces-step tok toks stack (some (tok ∷ stack))
                (step_name tok stack kept down ∙ rw room refl)
              ∙ push_pieces-resolve toks (tok ∷ stack)
              ∙ ap (looped (stays_shallow toks (suc (length stack))))
                  (onto-name_before tok stack (resolve toks)))
      | inr full ↦
          rw (kept, down, full)
            (push_pieces-step tok toks stack none (step_name tok stack kept down ∙ rw full refl))
    ]
  ]
]

-- The spelling of a path: its resolved names, or the path itself without memory or where the names
-- would be too many.
abbrev pub Spelled : Bool → CString → CString → Type 0
Spelled alloc path result =
    if alloc && stays_shallow (tokens path) 0
    then (result ≡ rebuild (resolve (tokens path)).1) × IsNormal result
    else result ≡ path

onto_root : (r : ℕ × List CString) → onto [] r ≡ reverse r.1
onto_root (zero, names) = append-nil (reverse names)
onto_root (suc ups, names) = append-nil (reverse names)

module _ (path_len : ℕ) (path : CString) (room_for : length path + 2 < path_len) where
  abbrev names : List CString
  names = (resolve (tokens path)).1

  IsNormal-names : IsStack (suc (length path)) (reverse names) → IsNormal (rebuild names)
  IsNormal-names h = (
    names,
    subst (All IsName) (reverse-reverse names) (All-reverse IsName (reverse names) h.names),
    omega (arith, length-reverse names, h.depth),
    refl,
  )

  settled :
      IsStack (suc (length path)) (reverse names)
      → settle path_len path (some (reverse names)) ≡ rebuild names
  settled h =
      ap (λ l. take (path_len - 1) (rebuild l)) (reverse-reverse names)
      ∙ take_all (path_len - 1) (rebuild names)
          (omega (arith, length-rebuild names, room-reverse names, h.size))

  spelled :
      (shallow : Bool)
      → stays_shallow (tokens path) 0 ≡ shallow
      → Ends (suc (length path)) (looped shallow (onto [] (resolve (tokens path))))
      → Spelled true path (settle path_len path (looped shallow (onto [] (resolve (tokens path)))))
  spelled false e h = rw e refl
  spelled true e h =
      let root = onto_root (resolve (tokens path)) in
      let stack = subst (IsStack (suc (length path))) root h in
      let same = ap (λ l. settle path_len path (some l)) root ∙ settled stack in
      rw e (same, subst IsNormal (sym same) (IsNormal-names stack))

-- In a buffer with room for two more bytes, and with memory, the result of normalize_abs_path is "/"
-- or a sequence of at most 128 components, each after a single slash and none of them empty, "." or
-- "..": the names of the path that stay when each ".." drops the nearest name before it that is not
-- dropped yet, in their order. The path is left as it is exactly where there is no memory, or where
-- its pieces lead deeper than 128 components at some point.
pub normalize_abs_path_lem :
    (alloc : Bool) (path_len : ℕ) (path : CString)
    → length path + 2 < path_len
    → Spelled alloc path (normalize_abs_path alloc path_len path)
unfolding normalize_abs_path
normalize_abs_path_lem false path_len path room_for = refl
normalize_abs_path_lem true path_len path room_for = rw (push_pieces-resolve (tokens path) []) (
    spelled path_len path room_for (stays_shallow (tokens path) 0) refl
      (subst (Ends (suc (length path))) (push_pieces-resolve (tokens path) []) (whole_loop path)))
