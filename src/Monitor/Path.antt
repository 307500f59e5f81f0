-- ===== src/Monitor/Path.antt =====
-- The normal form of absolute paths (av/main.c, normalize_abs_path).
pub mod Laws
pub mod Resolve
use antivirus.Common.{
  ℕ, zero, suc, Bool, true, false, not, Option, none, some, List, [], ◌∷◌, ◌++◌, ltb, ◌==◌, ◌||◌,
  if◌then◌else◌, length, ◌-◌, drop, CString, bytes, str_eq, take,
}
use mathlib.Core.List.{reverse}
use antivirus.Behavior.Paths.{slash}

-- ARRAY_SIZE(stack)
abbrev pub max_components : ℕ
max_components = 128

-- strsep(&s, "/") over a whole string: the pieces between the slashes, empty ones included.
abbrev pub cons_piece : ℕ → CString × List CString → CString × List CString
cons_piece c (tok, toks) = if c == slash then ([], tok ∷ toks) else (c ∷ tok, toks)

unfoldable pub split : CString → CString × List CString
split [] = ([], [])
split (c ∷ s) = cons_piece c (split s)

abbrev pub tokens : CString → List CString
tokens s = let (tok, toks) = split s in tok ∷ toks

-- The three tests of the loop: an empty piece or ".", "..", and a name.
abbrev pub is_skipped : CString → Bool
is_skipped tok = str_eq tok [] || str_eq tok (bytes ".")

abbrev pub is_parent : CString → Bool
is_parent tok = str_eq tok (bytes "..")

-- One turn of the loop, the stack with its top first; `none` is `overflowed`.
unfoldable pub step_piece : CString → List CString → Option (List CString)
step_piece tok stack =
    if is_skipped tok
    then some stack
    else if is_parent tok
    then some (drop 1 stack)
    else if ltb (length stack) max_components
    then some (tok ∷ stack)
    else none

unfoldable pub push_pieces : List CString → List CString → Option (List CString)
unfolding step_piece
push_pieces [] stack = some stack
push_pieces (tok ∷ toks) stack = elim (step_piece tok stack) [
  | none ↦ none
  | some stack' ↦ push_pieces toks stack'
]

-- The strlcat loop, from the bottom of the stack.
unfoldable pub join : List CString → CString
join [] = []
join (tok ∷ toks) = slash ∷ tok ++ join toks

unfoldable pub rebuild : List CString → CString
unfolding join
rebuild [] = slash ∷ []
rebuild (tok ∷ toks) = join (tok ∷ toks)

-- strlcat keeps the string below the size of the buffer.
abbrev pub settle : ℕ → CString → Option (List CString) → CString
settle path_len path none = path
settle path_len path (some stack) = take (path_len - 1) (rebuild (reverse stack))

-- `alloc` says whether kstrdup succeeds.
unfoldable pub normalize_abs_path : Bool → ℕ → CString → CString
unfolding push_pieces rebuild split
normalize_abs_path alloc path_len path =
    if not alloc then path else settle path_len path (push_pieces (tokens path) [])
