-- ===== src/Permissions/Options.antt =====
-- 392/PermissionFinder/pfind.c: `main`, from the options to the first call of `findpaths`.
use cs.Prelude.{
  ℕ, ◌%◌, ◌≡◌, ◌↔◌, refl, Bool, true, Option, none, some, List, [], ◌∷◌, Bytes, if◌then◌else◌, drop,
}
use mathlib.Core.List.{Memᴰ}
use cs.Permissions.{permission_string, permission_bits}
use cs.Permissions.Bits.{permission_bits-permission_string}
use cs.Permissions.Walk.{Tree, directory, Entries, Line, path, no_full_path, prefix_of, findpaths}
use cs.Permissions.Found.{Matching, findpaths-Matching}

-- What `getopt` answers; the source does nothing at a missing argument.
pub data Opt : Type 0 where
  d_option : Bytes → Opt
  p_option : Bytes → Opt
  h_option : Opt
  unknown : ℕ → Opt
  missing_argument : ℕ → Opt

pub data Problem : Type 0 where
  unknown_option : ℕ → Problem
  no_directory : Problem
  no_permissions : Problem
  cannot_open : Bytes → Problem
  invalid_permissions : Bytes → Problem

-- The usage, an error, or the lines of the walk.
pub data Outcome : Type 0 where
  usage : Outcome
  fails : Problem → Outcome
  walks : List Line → Outcome

-- Which paths `fopen` opens for reading, and what stands at a path, with its full path.
pub record Files : Type 0 where
  pub opens : Bytes → Bool
  pub tree_at : Bytes → Option (Bytes × Tree)

abbrev pub find_in : Files → Bytes → ℕ → List Line
find_in w dir permint = elim (w.tree_at dir) as (λ x. List Line) [
  | none ↦ no_full_path dir ∷ []
  | some (pathstr, tree) ↦ findpaths permint tree pathstr
]

-- Behind the options.
abbrev pub check : Files → Option Bytes → Option Bytes → Outcome
check w none permissions = fails no_directory
check w (some dir) none = fails no_permissions
check w (some dir) (some permissions) =
    if w.opens dir
    then elim (permission_bits permissions) as (λ x. Outcome) [
      | none ↦ fails (invalid_permissions permissions)
      | some permint ↦ walks (find_in w dir permint)
    ]
    else fails (cannot_open dir)

-- The loop over the options, and the rest of `main`.
unfoldable pub main : Files → List Opt → Option Bytes → Option Bytes → Outcome
main w [] dir permissions = check w dir permissions
main w (d_option arg ∷ opts) dir permissions = main w opts (some arg) permissions
main w (p_option arg ∷ opts) dir permissions = main w opts dir (some arg)
main w (h_option ∷ opts) dir permissions = usage
main w (unknown c ∷ opts) dir permissions = fails (unknown_option c)
main w (missing_argument c ∷ opts) dir permissions = main w opts dir permissions

-- `pfind -d dir -p` with the string that permstat shows for a mode, without its first character, walks the
-- directory, if it can be opened, and prints a path exactly if there is a file or a directory of that path
-- below it whose mode has the same nine permission bits and no others.
pub main-Matching :
    (w : Files) (dir pathstr : Bytes) (es : Entries) (mode : ℕ) (q : Bytes)
    → w.opens dir ≡ true
    → w.tree_at dir ≡ some (pathstr, directory es)
    → (lines : List Line) × (main w
          (d_option dir ∷ p_option (drop 1 (permission_string mode)) ∷ [])
          none
          none
        ≡ walks lines)
      × (Memᴰ (path q) lines ↔ Matching (mode % 512) es (prefix_of pathstr) q)
unfolding main
main-Matching w dir pathstr es mode q o t = (
  findpaths (mode % 512) (directory es) pathstr,
  rw (o, (permission_bits-permission_string mode).0, find_in, t) refl,
  findpaths-Matching (mode % 512) es pathstr q,
)
