-- ===== src/Tests/PathTests.antt =====
-- The path tests on the paths that the comments of av/behavior.c name.
use antivirus.Common.{
  ◌≡◌, ◌↔◌, ◌⊎◌, refl, true, false, bytes, CString, str_eq, ◌++◌, ◌∷◌, strn_eq, strstr, arith,
}
use antivirus.Behavior.Paths.{
  path_is_pseudo_fs, path_is_rapid_write_noise, path_is_sensitive, path_basename, strrchr,
  is_extension_append_rename,
}
use antivirus.Behavior.Paths.Bounded.{NoNul, Occurs}
use antivirus.Behavior.Paths.Sensitive.{Under, path_is_sensitive_iff}
use antivirus.Behavior.Paths.Shape.{is_extension_append_rename_iff}

abbrev backup : CString
backup = bytes "/etc/passwd.bak"

abbrev keys : CString
keys = bytes "/home/u/.ssh/id_rsa"

sensitive_examples :
    (path_is_sensitive backup ≡ false)
    × (path_is_sensitive keys ≡ true)
    × (path_is_sensitive (bytes "/src/boot/x") ≡ false)
    × (path_is_sensitive (bytes "/boot/vmlinuz") ≡ true)
    × (path_is_sensitive (bytes "/etc/passwd") ≡ true)
unfolding path_is_sensitive strstr strn_eq
sensitive_examples = (refl, refl, refl, refl, refl)

noise_examples :
    (path_is_rapid_write_noise (bytes "/home/u/.cache/zen/1") ≡ true)
    × (path_is_rapid_write_noise (bytes "/x/places.sqlite-wal") ≡ true)
    × (path_is_rapid_write_noise (bytes "/x/walnut") ≡ false)
    × (path_is_pseudo_fs (bytes "/dev/tty1") ≡ true)
unfolding path_is_rapid_write_noise path_is_pseudo_fs str_eq strstr strn_eq
noise_examples = (refl, refl, refl, refl)

rename_examples :
    (is_extension_append_rename (bytes "/d/a.docx") (bytes "/d/a.docx.crypt") ≡ true)
    × (is_extension_append_rename (bytes "/d/a.tmp") (bytes "/d/a") ≡ false)
    × (is_extension_append_rename (bytes "/d/a") (bytes "/e/a") ≡ false)
unfolding is_extension_append_rename path_basename strrchr strn_eq
rename_examples = (refl, refl, refl)

keys-NoNul : NoNul keys
keys-NoNul = omega arith

path_is_sensitive_iff_example : (path_is_sensitive keys ≡ true) ↔ (
    Under (bytes "/boot/") keys
    ⊎ (Occurs (bytes "/etc/passwd") keys
        ⊎ (Occurs (bytes "/etc/shadow") keys ⊎ Occurs (bytes "/.ssh/") keys)))
path_is_sensitive_iff_example = path_is_sensitive_iff keys keys-NoNul

is_extension_append_rename_iff_example :
    (is_extension_append_rename keys (bytes "/home/u/.ssh/id_rsa.crypt") ≡ true) ↔ (
      (ext : CString) × (path_basename (bytes "/home/u/.ssh/id_rsa.crypt")
        ≡ path_basename keys ++ (b'.' ∷ ext)))
is_extension_append_rename_iff_example =
    is_extension_append_rename_iff keys (bytes "/home/u/.ssh/id_rsa.crypt")
