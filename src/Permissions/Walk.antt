-- ===== src/Permissions/Walk.antt =====
-- 392/PermissionFinder/pfind.c: the walk of `findpaths` over a directory tree.
use cs.Prelude.{
  ℕ, Bool, ◌||◌, Option, none, some, List, [], ◌∷◌, ◌++◌, Bytes, bytes, bytes_eq, if◌then◌else◌,
}
use cs.Permissions.{matches}

-- What stands at a path: anything but a directory, a directory that cannot be opened, or a directory with
-- what `readdir` answers: names, each with what `lstat` answers and what stands there.
mutual
  pub data Tree : Type 0 where
    file : Tree
    shut : Tree
    directory : Entries → Tree

  pub data Entries : Type 0 where
    end : Entries
    entry : Bytes → Option ℕ → Tree → Entries → Entries

-- A line on stdout, or a message on stderr.
pub data Line : Type 0 where
  path : Bytes → Line
  no_stat : Bytes → Line
  no_open : Bytes → Line
  no_full_path : Bytes → Line

-- "." and "..", which the walk passes over.
abbrev pub is_dots : Bytes → Bool
is_dots name = bytes_eq name (bytes ".") || bytes_eq name (bytes "..")

-- `filepath` up to the names, for the full path of a directory.
abbrev pub prefix_of : Bytes → Bytes
prefix_of pathstr = (if bytes_eq pathstr (bytes "/") then [] else pathstr) ++ bytes "/"

module _ (permint : ℕ) where
  abbrev pub shows : Bytes → ℕ → List Line
  shows filepath mode = if matches permint mode then path filepath ∷ [] else []

  unfoldable mutual
    -- `findpaths` on the full path of a directory; a directory below it has its own path as full path.
    pub findpaths : Tree → Bytes → List Line
    findpaths file pathstr = []
    findpaths shut pathstr = no_open pathstr ∷ []
    findpaths (directory es) pathstr = walk es (prefix_of pathstr)

    -- Its `while`, for the entries left.
    pub walk : Entries → Bytes → List Line
    walk end prefix = []
    walk (entry name none child es) prefix =
        (if is_dots name then [] else no_stat (prefix ++ name) ∷ []) ++ walk es prefix
    walk (entry name (some mode) child es) prefix =
        let below = findpaths child (prefix ++ name) in
        (if is_dots name then [] else shows (prefix ++ name) mode ++ below) ++ walk es prefix
