-- ===== src/Behavior/Paths/Sensitive.antt =====
-- Which paths path_is_sensitive and path_is_pseudo_fs (av/behavior.c) accept.
use mathlib.Core.Bool.{false≢true}
use antivirus.Common.{
  ◌≡◌, ◌↔◌, ◌⊎◌, inl, inr, Bool, true, false, ◌||◌, ◌++◌, arith, CString, bytes, strn_eq_prefix,
  strn_eq-append,
}
use antivirus.Behavior.Paths.{has_prefix, path_is_pseudo_fs, path_is_sensitive}
use antivirus.Behavior.Paths.Bounded.{NoNul, Occurs, path_has_bounded_substring_iff}

abbrev pub Under : CString → CString → Type 0
Under prefix path = (rest : CString) × (path ≡ prefix ++ rest)

has_prefix_iff : (path prefix : CString) → (has_prefix path prefix ≡ true) ↔ Under prefix path
has_prefix_iff path prefix =
    (strn_eq_prefix path prefix, λ (rest, e). rw e (strn_eq-append prefix rest))

or_iff : {P Q : Type 0} (a b : Bool) → (a ≡ true) ↔ P → (b ≡ true) ↔ Q → (a || b ≡ true) ↔ (P ⊎ Q)
or_iff true b p q = ((λ h. inl (p.0 h)), (λ x. ground arith))
or_iff false b p q =
    ((λ h. inr (q.0 h)), elim [ inl x ↦ absurd (false≢true (p.1 x)) | inr y ↦ q.1 y ])

or_false_iff : {P : Type 0} (a : Bool) → (a ≡ true) ↔ P → (a || false ≡ true) ↔ P
or_false_iff true p = p
or_false_iff false p = p

-- A path is sensitive exactly when it lies under /boot/, or /etc/passwd or /etc/shadow stands in it
-- as a whole run of components, or /.ssh/ stands anywhere in it.
pub path_is_sensitive_iff :
    (path : CString)
    → NoNul path
    → (path_is_sensitive path ≡ true) ↔ (
        Under (bytes "/boot/") path
        ⊎ (Occurs (bytes "/etc/passwd") path
            ⊎ (Occurs (bytes "/etc/shadow") path ⊎ Occurs (bytes "/.ssh/") path)))
unfolding path_is_sensitive
path_is_sensitive_iff path ok = or_iff _ _ (or_false_iff _ (has_prefix_iff path (bytes "/boot/"))) (
    or_iff _ _ (path_has_bounded_substring_iff path _ _ ok) (
      or_iff _ _ (path_has_bounded_substring_iff path _ _ ok)
        (or_false_iff _ (path_has_bounded_substring_iff path _ _ ok))))

-- A pseudo-filesystem path is one under /sys/, /proc/ or /dev/, and no other.
pub path_is_pseudo_fs_iff :
    (path : CString)
    → (path_is_pseudo_fs path ≡ true)
      ↔ (Under (bytes "/sys/") path ⊎ (Under (bytes "/proc/") path ⊎ Under (bytes "/dev/") path))
unfolding path_is_pseudo_fs
path_is_pseudo_fs_iff path = or_iff _ _ (has_prefix_iff path (bytes "/sys/")) (
    or_iff _ _ (has_prefix_iff path (bytes "/proc/"))
      (or_false_iff _ (has_prefix_iff path (bytes "/dev/"))))
