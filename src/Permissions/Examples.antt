-- ===== src/Permissions/Examples.antt =====
-- 392/lab 5/permstat.c and 392/PermissionFinder/pfind.c: examples of modes.
use cs.Prelude.{◌≡◌, ◌↔◌, refl, some, none, true, List, [], ◌∷◌, bytes, bytes_eq, drop, ltb, ◌%◌}
use mathlib.Core.List.{Memᴰ}
use cs.Permissions.Walk.{
  file, shut, directory, Entries, end, entry, Line, path, no_stat, prefix_of, findpaths, walk,
}
use cs.Permissions.Found.{Matching}
use cs.Permissions.Options.{d_option, p_option, walks, Files, main, main-Matching}
use cs.Permissions.{permission_string, permission_bits, add_bits, matches, without_type}
use cs.Permissions.Bits.{permission_bits-permission_string}

-- A regular file with mode 0644.
string_of_644 : permission_string 33188 ≡ bytes "-rw-r--r--"
string_of_644 = refl

bits_of_rw : permission_bits (bytes "rw-r--r--") ≡ some 420
unfolding permission_bits add_bits
bits_of_rw = refl

refused_string : permission_bits (bytes "rwxrwxrwr") ≡ none
unfolding permission_bits
refused_string = refl

permission_bits-permission_string_example :
    (permission_bits (drop 1 (permission_string 33188)) ≡ some (33188 % 512))
    × (matches (33188 % 512) 33188 ≡ ltb (without_type 33188) 512)
permission_bits-permission_string_example = permission_bits-permission_string 33188

-- A directory with a file of mode 0644, a link that cannot be read, and a directory with one more.
abbrev entries : Entries
entries = entry (bytes ".") (some 16877) shut (
    entry (bytes "a.txt") (some 33188) file (
      entry (bytes "gone") none file (
        entry (bytes "sub") (some 16877) (directory (entry (bytes "b.txt") (some 33188) file end))
          end)))

abbrev files : Files
files = record { opens = λ dir. true; tree_at = λ dir. some (bytes "/home/dir", directory entries) }

walked :
    findpaths 420 (directory entries) (bytes "/home/dir")
    ≡ path (bytes "/home/dir/a.txt")
      ∷ no_stat (bytes "/home/dir/gone")
      ∷ path (bytes "/home/dir/sub/b.txt")
      ∷ []
unfolding findpaths walk bytes_eq
walked = refl

main-Matching_example :
    (lines : List Line) × (main files
        (d_option (bytes "dir") ∷ p_option (drop 1 (permission_string 33188)) ∷ [])
        none
        none
      ≡ walks lines)
    × (Memᴰ (path (bytes "/home/dir/a.txt")) lines
        ↔ Matching (33188 % 512) entries (prefix_of (bytes "/home/dir")) (bytes "/home/dir/a.txt"))
main-Matching_example =
    main-Matching files (bytes "dir") (bytes "/home/dir") entries 33188 (bytes "/home/dir/a.txt")
      refl refl
