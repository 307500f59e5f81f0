-- ===== src/Behavior/Paths/Shape.antt =====
-- What path_basename and is_extension_append_rename (av/behavior.c) decide.
use antivirus.Common.{
  ◌≡◌, ◌≢◌, refl, sym, ap, ◌∙◌, ◌↔◌, ◌⊎◌, inl, inr, Bool, true, false, not, Option, none, some, [],
  ◌∷◌, ◌++◌, arith, leb, ◌==◌, if◌then◌else◌, length, get_or, drop, Bool-cases, CString, strn_eq,
  strn_eq_prefix, strn_eq-append, length-append, eq→==, ==→eq, strn_eq_comm, get_or-append,
}
use antivirus.Behavior.Paths.{slash, strrchr, path_basename, is_extension_append_rename}

abbrev pub NoSlash : CString → Type 0
NoSlash [] = Unit
NoSlash (c ∷ s) = (c ≢ slash) × NoSlash s

-- What strrchr has found or not.
abbrev Split : CString → Option CString → Type 0
Split path none = NoSlash path
Split path (some q) =
    (dir : CString) × (base : CString) × (q ≡ slash ∷ base) × (path ≡ dir ++ q) × NoSlash base

strrchr-Split : (path : CString) → Split path (strrchr path slash)
unfolding strrchr
strrchr-Split [] = tt
strrchr-Split (c ∷ path) = go (strrchr path slash) (strrchr-Split path)
  where
    go :
        (o : Option CString)
        → Split path o
        → Split
            (c ∷ path)
            (elim o [ none ↦ if c == slash then some (c ∷ path) else none | some q ↦ some q ])
    go (some q) (dir, base, e, e', n) = (c ∷ dir, base, e, ap (λ l. c ∷ l) e', n)
    go none n = elim (Bool-cases (c == slash)) [
      | inl is ↦ rw is ([], path, ap (λ x. x ∷ path) (==→eq c slash is), refl, n)
      | inr isnt ↦ rw isnt ((λ e. ground (arith, eq→== c slash e)), n)
    ]

abbrev base_of : CString → Option CString → CString
base_of path o = elim o [ none ↦ path | some s ↦ drop 1 s ]

base_of-Split :
    (path : CString) (o : Option CString)
    → Split path o
    → NoSlash (base_of path o)
      × ((path ≡ base_of path o) ⊎ ((dir : CString) × (path ≡ dir ++ (slash ∷ base_of path o))))
base_of-Split path none n = (n, inl refl)
base_of-Split path (some q) (dir, base, e, e', n) = rw e (n, inr (dir, e' ∙ ap (λ l. dir ++ l) e))

-- The base name has no '/', and before it stands nothing or a directory that ends in '/'.
pub path_basename_lem :
    (path : CString)
    → NoSlash (path_basename path)
      × ((path ≡ path_basename path)
          ⊎ ((dir : CString) × (path ≡ dir ++ (slash ∷ path_basename path))))
unfolding path_basename
path_basename_lem path = base_of-Split path (strrchr path slash) (strrchr-Split path)

-- The three tests of is_extension_append_rename on the two base names.
abbrev extends : CString → CString → Bool
extends old_base new_base =
    if leb (length new_base) (length old_base)
    then false
    else if not (strn_eq (length old_base) old_base new_base)
    then false
    else get_or new_base (length old_base) 0 == b'.'

extends-prefix : (a b : CString) → extends a b ≡ true → strn_eq (length a) b a ≡ true
extends-prefix a b h = ground (arith, strn_eq_comm (length a) a b)

extends-dot : (a b : CString) → extends a b ≡ true → get_or b (length a) 0 ≡ b'.'
extends-dot a b h = ground arith

dot_first : (rest : CString) → get_or rest 0 0 ≡ b'.' → (ext : CString) × (rest ≡ b'.' ∷ ext)
dot_first [] h = absurd (omega arith)
dot_first (c ∷ ext) h = (ext, ap (λ x. x ∷ ext) h)

extends-split : (a b : CString) → extends a b ≡ true → (ext : CString) × (b ≡ a ++ (b'.' ∷ ext))
extends-split a b h =
    let (rest, e) = strn_eq_prefix b a (extends-prefix a b h) in
    let (ext, d) =
      dot_first rest (
        sym (get_or-append a rest) ∙ ap (λ l. get_or l (length a) 0) (sym e) ∙ extends-dot a b h) in
    (ext, e ∙ ap (λ l. a ++ l) d)

extends-append : (a ext : CString) → extends a (a ++ (b'.' ∷ ext)) ≡ true
extends-append a ext = ground (
  arith,
  length-append a (b'.' ∷ ext),
  strn_eq_comm (length a) a (a ++ (b'.' ∷ ext)),
  strn_eq-append a (b'.' ∷ ext),
  get_or-append a (b'.' ∷ ext),
)

-- A rename counts exactly when the new base name is the old one with a suffix that begins with '.'.
pub is_extension_append_rename_iff :
    (old_path new_path : CString)
    → (is_extension_append_rename old_path new_path ≡ true)
      ↔ ((ext : CString) × (path_basename new_path ≡ path_basename old_path ++ (b'.' ∷ ext)))
unfolding is_extension_append_rename
is_extension_append_rename_iff old_path new_path = (
  extends-split (path_basename old_path) (path_basename new_path),
  (λ (ext, e). rw e (extends-append (path_basename old_path) ext)),
)
