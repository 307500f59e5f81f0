-- ===== src/Behavior/Paths.antt =====
-- The path tests of av/behavior.c. A path is the list of its bytes before the NUL, so that reading
-- the byte at the length of a string gives 0.
pub mod Bounded
pub mod Sensitive
pub mod Shape
use antivirus.Common.{
  ℕ, zero, suc, ◌-◌, Bool, true, false, ◌&&◌, ◌||◌, Option, none, some, List, [], ◌∷◌, ltb, leb,
  ◌==◌, if◌then◌else◌, not, length, get_or, drop, CString, bytes, str_eq, strn_eq, strstr,
}

abbrev pub slash : ℕ
slash = b'/'

abbrev pub excluded_path_prefixes : List CString
excluded_path_prefixes = bytes "/sys/" ∷ bytes "/proc/" ∷ bytes "/dev/" ∷ []

abbrev pub excluded_path_cache_substrings : List CString
excluded_path_cache_substrings = bytes "/.cache/" ∷ []

abbrev pub excluded_path_suffixes : List CString
excluded_path_suffixes = bytes "-journal" ∷ bytes "-wal" ∷ bytes "-shm" ∷ []

abbrev pub sensitive_path_substrings : List CString
sensitive_path_substrings = bytes "/etc/passwd" ∷ bytes "/etc/shadow" ∷ bytes "/.ssh/" ∷ []

abbrev pub sensitive_path_prefixes : List CString
sensitive_path_prefixes = bytes "/boot/" ∷ []

-- A loop that returns true at the first entry that passes the test.
abbrev pub any_of : (CString → Bool) → List CString → Bool
any_of test [] = false
any_of test (s ∷ rest) = test s || any_of test rest

-- !strncmp(path, prefix, strlen(prefix))
abbrev pub has_prefix : CString → CString → Bool
has_prefix path prefix = strn_eq (length prefix) path prefix

unfoldable pub path_is_pseudo_fs : CString → Bool
path_is_pseudo_fs path = any_of (has_prefix path) excluded_path_prefixes

abbrev pub found : Option CString → Bool
found none = false
found (some _) = true

abbrev pub has_suffix : CString → CString → Bool
has_suffix path suffix =
    leb (length suffix) (length path) && str_eq (drop (length path - length suffix) path) suffix

unfoldable pub path_is_rapid_write_noise : CString → Bool
path_is_rapid_write_noise path =
    any_of (λ s. found (strstr path s)) excluded_path_cache_substrings
    || any_of (has_suffix path) excluded_path_suffixes

-- The byte at the end of the needle is '/'.
abbrev pub self_anchored : CString → Bool
self_anchored needle = ltb 0 (length needle) && get_or needle (length needle - 1) 0 == slash

abbrev pub accepts : CString → CString → Bool
accepts needle p =
    self_anchored needle || (get_or p (length needle) 0 == 0 || get_or p (length needle) 0 == slash)

-- The while loop on strstr; each round goes on one byte past the match.
pub bounded_search : ℕ → CString → CString → Bool
bounded_search zero needle p = false
bounded_search (suc fuel) needle p = elim (strstr p needle) [
  | none ↦ false
  | some q ↦
      let rest = bounded_search fuel needle (drop 1 q) in if accepts needle q then true else rest
]

unfoldable pub path_has_bounded_substring : CString → CString → Bool
unfolding bounded_search
path_has_bounded_substring path needle = bounded_search (suc (length path)) needle path

unfoldable pub path_is_sensitive : CString → Bool
unfolding path_has_bounded_substring
path_is_sensitive path =
    any_of (has_prefix path) sensitive_path_prefixes
    || any_of (path_has_bounded_substring path) sensitive_path_substrings

-- strrchr(s, c): the rest of s from the last c on.
unfoldable pub strrchr : CString → ℕ → Option CString
strrchr [] c = none
strrchr (x ∷ s) c = elim (strrchr s c) [
  | none ↦ if x == c then some (x ∷ s) else none
  | some q ↦ some q
]

unfoldable pub path_basename : CString → CString
path_basename path = elim (strrchr path slash) [ none ↦ path | some s ↦ drop 1 s ]

unfoldable pub is_extension_append_rename : CString → CString → Bool
is_extension_append_rename old_path new_path =
    let old_base = path_basename old_path in
    let new_base = path_basename new_path in
    if leb (length new_base) (length old_base)
    then false
    else if not (strn_eq (length old_base) old_base new_base)
    then false
    else get_or new_base (length old_base) 0 == b'.'
