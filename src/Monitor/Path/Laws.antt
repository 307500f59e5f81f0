-- ===== src/Monitor/Path/Laws.antt =====
-- The normal form of paths (av/main.c, normalize_abs_path): what its output looks like, and that
-- normalizing again changes nothing.
use mathlib.Core.List.{reverse, reverse-cons, reverse-reverse, append-nil, append_assoc}
use mathlib.Core.Path.{subst}
use Prim.Native.Nat.{◌+◌}
use antivirus.Common.{
  ℕ, suc, ◌≤◌, ◌<◌, ◌≡◌, refl, sym, ap, ◌∙◌, Bool, true, false, Option, none, some, List, [], ◌∷◌,
  ◌++◌, ltb, ◌==◌, length, ◌-◌, drop, take, CString, str_eq, arith, Bool-cases, inl, inr,
  length-append, take_all, if_both,
}
use antivirus.HashTable.Chain.{All}
use antivirus.Behavior.Paths.{slash}
use antivirus.Monitor.Path.{
  max_components, split, tokens, is_skipped, is_parent, step_piece, push_pieces, join, rebuild,
  settle, normalize_abs_path,
}

-- A name between slashes: no slash, not empty, not "." and not "..".
abbrev pub NoSlash : CString → Type 0
NoSlash = All (λ c. c == slash ≡ false)

pub record IsName (tok : CString) : Type 0 where
  pub no_slash : NoSlash tok
  pub kept : is_skipped tok ≡ false
  pub down : is_parent tok ≡ false

-- What a stack of names takes up, each with its slash.
abbrev pub room : List CString → ℕ
room [] = 0
room (tok ∷ toks) = suc (length tok) + room toks

All-append : {A : Type 0} (P : A → Type 0) (xs ys : List A) → All P xs → All P ys → All P (xs ++ ys)
All-append P [] ys h k = k
All-append P (x ∷ xs) ys h k = (h.0, All-append P xs ys h.1 k)

pub All-reverse : {A : Type 0} (P : A → Type 0) (xs : List A) → All P xs → All P (reverse xs)
All-reverse P [] h = tt
All-reverse P (x ∷ xs) h =
    rw (reverse-cons x xs) (All-append P _ _ (All-reverse P xs h.1) (h.0, tt))

room-append : (xs ys : List CString) → room (xs ++ ys) ≡ room xs + room ys
room-append [] ys = omega arith
room-append (x ∷ xs) ys = omega (arith, room-append xs ys)

pub room-reverse : (xs : List CString) → room (reverse xs) ≡ room xs
room-reverse [] = refl
room-reverse (x ∷ xs) =
    rw (reverse-cons x xs) (omega (arith, room-append (reverse xs) (x ∷ []), room-reverse xs))

pub length-reverse : (xs : List CString) → length (reverse xs) ≡ length xs
length-reverse [] = refl
length-reverse (x ∷ xs) =
    rw (reverse-cons x xs) (omega (arith, length-append (reverse xs) (x ∷ []), length-reverse xs))

room-join : (xs : List CString) → length (join xs) ≡ room xs
unfolding join
room-join [] = refl
room-join (x ∷ xs) = omega (arith, length-append x (join xs), room-join xs)

-- The pieces have no slash, and with their separators they are as long as the string.
split-NoSlash : (s : CString) → NoSlash (split s).0 × All NoSlash (split s).1
unfolding split
split-NoSlash [] = (tt, tt)
split-NoSlash (c ∷ s) = elim (Bool-cases (c == slash)) [
  | inl e ↦ rw e (tt, split-NoSlash s)
  | inr e ↦ rw e ((e, (split-NoSlash s).0), (split-NoSlash s).1)
]

room-tokens : (s : CString) → room (tokens s) ≡ suc (length s)
unfolding split
room-tokens [] = refl
room-tokens (c ∷ s) = elim (Bool-cases (c == slash)) [
  | inl e ↦ rw e (omega (arith, room-tokens s))
  | inr e ↦ rw e (omega (arith, room-tokens s))
]

-- The stack that a loop from a stack of names leaves.
pub record IsStack (bound : ℕ) (stack : List CString) : Type 0 where
  pub names : All IsName stack
  pub depth : length stack ≤ max_components
  pub size : room stack ≤ bound

abbrev pub Ends : ℕ → Option (List CString) → Type 0
Ends bound none = Unit
Ends bound (some stack) = IsStack bound stack

drop-IsStack :
    (bound : ℕ) (stack : List CString) → IsStack bound stack → IsStack bound (drop 1 stack)
drop-IsStack bound [] h = h
drop-IsStack bound (x ∷ xs) h = record {
  names = h.names.1;
  depth = omega (arith, h.depth);
  size = omega (arith, h.size);
}

more : (a b : ℕ) (stack : List CString) → a ≤ b → IsStack a stack → IsStack b stack
more a b stack le h = record { names = h.names; depth = h.depth; size = omega (arith, h.size) }

step_piece-Ends :
    (tok : CString) (bound : ℕ) (stack : List CString)
    → NoSlash tok
    → IsStack bound stack
    → Ends (suc (length tok) + bound) (step_piece tok stack)
unfolding step_piece
step_piece-Ends tok bound stack c h =
    if_both (Ends (suc (length tok) + bound)) (is_skipped tok)
      (λ _. more bound _ stack (omega arith) h)
      (λ k.
        if_both (Ends (suc (length tok) + bound)) (is_parent tok)
          (λ _. more bound _ _ (omega arith) (drop-IsStack bound stack h))
          (λ d.
            if_both (Ends (suc (length tok) + bound)) (ltb (length stack) max_components)
              (λ q. record {
                names = (record { no_slash = c; kept = k; down = d }, h.names);
                depth = ground (arith, q);
                size = omega (arith, h.size);
              })
              (λ _. tt)))

push_pieces-Ends :
    (toks : List CString) (bound : ℕ) (stack : List CString)
    → All NoSlash toks
    → IsStack bound stack
    → Ends (room toks + bound) (push_pieces toks stack)
unfolding push_pieces
push_pieces-Ends [] bound stack c h = more bound _ stack (omega arith) h
push_pieces-Ends (tok ∷ toks) bound stack c h =
    go (λ s e. push_pieces-Ends toks (suc (length tok) + bound) s c.1 e) (step_piece tok stack)
      (step_piece-Ends tok bound stack c.0 h)
  where
    widen :
        (o : Option (List CString))
        → Ends (room toks + (suc (length tok) + bound)) o
        → Ends (suc (length tok) + room toks + bound) o
    widen none e = tt
    widen (some s) e = more _ _ s (omega arith) e

    go :
        ((s : List CString)
          → IsStack (suc (length tok) + bound) s
          → Ends (room toks + (suc (length tok) + bound)) (push_pieces toks s))
        → (o : Option (List CString)) → Ends (suc (length tok) + bound) o
        → Ends
            (suc (length tok) + room toks + bound)
            (elim o [ none ↦ none | some s ↦ push_pieces toks s ])
    go rest none e = tt
    go rest (some s) e = widen (push_pieces toks s) (rest s e)

step_piece-name :
    (x : CString) (stack : List CString)
    → IsName x
    → length stack < max_components
    → step_piece x stack ≡ some (x ∷ stack)
unfolding step_piece
step_piece-name x stack h le = ground (arith, h.kept, h.down)

-- Names are pushed one by one.
push_pieces-names :
    (xs stack : List CString)
    → All IsName xs
    → length xs + length stack ≤ max_components
    → push_pieces xs stack ≡ some (reverse xs ++ stack)
unfolding push_pieces
push_pieces-names [] stack h le = refl
push_pieces-names (x ∷ xs) stack h le =
    ap (λ o. elim o [ none ↦ none | some s ↦ push_pieces xs s ])
      (step_piece-name x stack h.0 (omega arith))
    ∙ (push_pieces-names xs (x ∷ stack) h.1 (omega arith)
        ∙ ap some (
            sym (append_assoc (reverse xs) (x ∷ []) stack)
            ∙ ap (λ l. l ++ stack) (sym (reverse-cons x xs))))

split-append :
    (tok s : CString) → NoSlash tok → split (tok ++ s) ≡ (tok ++ (split s).0, (split s).1)
unfolding split
split-append [] s h = refl
split-append (c ∷ tok) s h = rw (split-append tok s h.1, h.0) refl

split-join : (xs : List CString) → All NoSlash xs → split (join xs) ≡ ([], xs)
unfolding split join
split-join [] h = refl
split-join (x ∷ xs) h = rw (split-append x (join xs) h.0, split-join xs h.1, append-nil x) refl

All-NoSlash : (xs : List CString) → All IsName xs → All NoSlash xs
All-NoSlash [] h = tt
All-NoSlash (x ∷ xs) h = (h.0.no_slash, All-NoSlash xs h.1)

tokens-join : (xs : List CString) → All NoSlash xs → tokens (join xs) ≡ [] ∷ xs
tokens-join xs h = ap (λ p. p.0 ∷ p.1) (split-join xs h)

push_pieces-empty : (xs stack : List CString) → push_pieces ([] ∷ xs) stack ≡ push_pieces xs stack
unfolding push_pieces step_piece str_eq
push_pieces-empty xs stack = refl

-- A rebuilt path is taken apart into the names it was built from.
push_pieces-root : push_pieces (tokens (slash ∷ [])) [] ≡ some []
unfolding push_pieces step_piece split str_eq
push_pieces-root = refl

push_pieces-rebuild :
    (xs : List CString)
    → All IsName xs
    → length xs ≤ max_components
    → push_pieces (tokens (rebuild xs)) [] ≡ some (reverse xs)
unfolding rebuild
push_pieces-rebuild [] h le = push_pieces-root
push_pieces-rebuild (x ∷ xs) h le =
    ap (λ t. push_pieces t []) (tokens-join (x ∷ xs) (All-NoSlash (x ∷ xs) h))
    ∙ push_pieces-empty (x ∷ xs) []
    ∙ push_pieces-names (x ∷ xs) [] h (omega arith)
    ∙ ap some (append-nil _)

pub length-rebuild : (xs : List CString) → length (rebuild xs) ≤ 1 + room xs
unfolding rebuild
length-rebuild [] = omega arith
length-rebuild (x ∷ xs) = omega (arith, room-join (x ∷ xs))

-- The path that a stack of names gives.
abbrev pub IsNormal : CString → Type 0
IsNormal path =
    (names : List CString) × All IsName names
    × (length names ≤ max_components)
    × (path ≡ rebuild names)

pub whole_loop : (path : CString) → Ends (suc (length path)) (push_pieces (tokens path) [])
whole_loop path =
    subst (λ n. Ends n (push_pieces (tokens path) [])) (omega (arith, room-tokens path))
      (push_pieces-Ends (tokens path) 0 [] (split-NoSlash path)
        (record { names = tt; depth = omega arith; size = omega arith }))

-- A path in normal form is left as it is, so that paths of one spelling compare equal however often
-- they are normalized.
pub normalize_abs_path_fixed :
    (alloc : Bool) (path_len : ℕ) (path : CString)
    → length path < path_len
    → IsNormal path
    → normalize_abs_path alloc path_len path ≡ path
unfolding normalize_abs_path
normalize_abs_path_fixed false path_len path room_for n = refl
normalize_abs_path_fixed true path_len path room_for (names, all, few, built) =
    ap (settle path_len path)
      (ap (λ p. push_pieces (tokens p) []) built ∙ push_pieces-rebuild names all few)
    ∙ ap (λ l. take (path_len - 1) (rebuild l)) (reverse-reverse names)
    ∙ ap (take (path_len - 1)) (sym built)
    ∙ take_all (path_len - 1) path (omega arith)
