-- ===== src/Permissions/Found.antt =====
-- 392/PermissionFinder/pfind.c: which paths `findpaths` prints.
use cs.Prelude.{
  ℕ, ◌≡◌, refl, sym, ap, subst, true, false, Option, none, some, List, [], ◌∷◌, ◌++◌, Bytes, arith,
  if◌then◌else◌, Bool-cases, inl, inr, ◌↔◌,
}
use mathlib.Core.List.{Memᴰ}
use mathlib.Core.List.Memᴰ.{head, tail, append_left, append_right, append_cases, not-nil}
use cs.Permissions.{matches}
use cs.Permissions.Walk.{
  Tree, file, shut, directory, Entries, end, entry, Line, path, no_stat, no_open, is_dots,
  prefix_of, shows, findpaths, walk,
}

-- The path `q` is that of a file or directory below, in a directory that can be opened, with the given
-- permissions.
pub data Matching (permint : ℕ) : Entries → Bytes → Bytes → Type 0 where
  here :
      {name prefix : Bytes} {mode : ℕ} {child : Tree} {es : Entries}
      → is_dots name ≡ false
      → matches permint mode ≡ true
      → Matching permint (entry name (some mode) child es) prefix (prefix ++ name)
  inside :
      {name prefix q : Bytes} {mode : ℕ} {below es : Entries}
      → is_dots name ≡ false
      → Matching permint below (prefix_of (prefix ++ name)) q
      → Matching permint (entry name (some mode) (directory below) es) prefix q
  later :
      {name prefix q : Bytes} {stat : Option ℕ} {child : Tree} {es : Entries}
      → Matching permint es prefix q
      → Matching permint (entry name stat child es) prefix q

module _ (permint : ℕ) where
  walk_complete :
      {es : Entries} {prefix q : Bytes}
      → Matching permint es prefix q
      → Memᴰ (path q) (walk permint es prefix)
  unfolding findpaths walk
  walk_complete (here {name} {prefix} {mode} {child} {es} named m) = rw (named, m) (head refl)
  walk_complete (inside {name} {prefix} {q} {mode} {below} {es} named m) = rw named (
      append_left (walk permint es prefix)
        (append_right (shows permint (prefix ++ name) mode) (walk_complete m)))
  walk_complete (later {name} {prefix} {q} {stat = none} {child} {es} m) =
      append_right (if is_dots name then [] else no_stat (prefix ++ name) ∷ []) (walk_complete m)
  walk_complete (later {name} {prefix} {q} {stat = some mode} {child} {es} m) =
      append_right
        (if is_dots name
          then []
          else shows permint (prefix ++ name) mode ++ findpaths permint child (prefix ++ name))
        (walk_complete m)

  -- A path among the lines of an entry that is passed over, or not.
  unless_dots :
      (name : Bytes) (lines : List Line) (q : Bytes)
      → Memᴰ (path q) (if is_dots name then [] else lines)
      → (is_dots name ≡ false) × Memᴰ (path q) lines
  unless_dots name lines q m = elim (Bool-cases (is_dots name)) [
    | inl dots ↦ absurd (not-nil (subst (λ d. Memᴰ (path q) (if d then [] else lines)) dots m))
    | inr named ↦ (named, subst (λ d. Memᴰ (path q) (if d then [] else lines)) named m)
  ]

  path_injective : {p q : Bytes} → path p ≡ path q → p ≡ q
  path_injective {p} e = ap (λ l. elim l as (λ x. Bytes) [ path r ↦ r | _ ↦ p ]) e

  shown :
      (filepath q : Bytes) (mode : ℕ)
      → Memᴰ (path q) (shows permint filepath mode)
      → (matches permint mode ≡ true) × (q ≡ filepath)
  shown filepath q mode m = elim (Bool-cases (matches permint mode)) [
    | inl fits ↦
        (fits, one (subst (λ d. Memᴰ (path q) (if d then path filepath ∷ [] else [])) fits m))
    | inr other ↦
        absurd (not-nil (subst (λ d. Memᴰ (path q) (if d then path filepath ∷ [] else [])) other m))
  ]
    where
      one : Memᴰ (path q) (path filepath ∷ []) → q ≡ filepath
      one (head e) = path_injective e
      one (tail m') = absurd (not-nil m')

  no_path : {q : Bytes} (l : Line) → ¬ (path q ≡ l) → ¬ Memᴰ (path q) (l ∷ [])
  no_path l n (head e) = n e
  no_path l n (tail m) = not-nil m

  by_mode :
      {name prefix q : Bytes} {mode : ℕ} {child : Tree} {es : Entries}
      → is_dots name ≡ false
      → (matches permint mode ≡ true) × (q ≡ prefix ++ name)
      → Matching permint (entry name (some mode) child es) prefix q
  by_mode {name} {prefix} {q} {mode} {child} {es} named (fits, at) =
      subst (λ r. Matching permint (entry name (some mode) child es) prefix r) (sym at)
        (here named fits)

  -- The lines of one entry.
  abbrev entry_lines : Bytes → ℕ → Tree → Bytes → List Line
  entry_lines name mode child prefix =
      if is_dots name
      then []
      else shows permint (prefix ++ name) mode ++ findpaths permint child (prefix ++ name)

  walk_sound :
      (es : Entries) (prefix q : Bytes)
      → Memᴰ (path q) (walk permint es prefix)
      → Matching permint es prefix q
  unfolding findpaths walk
  walk_sound end prefix q m = absurd (not-nil m)
  walk_sound (entry name none child es) prefix q m =
      elim (append_cases (if is_dots name then [] else no_stat (prefix ++ name) ∷ []) m) [
        | inl this ↦ absurd (
            no_path (no_stat (prefix ++ name)) (λ e. ground arith)
              (unless_dots name (no_stat (prefix ++ name) ∷ []) q this).1)
        | inr rest ↦ later (walk_sound es prefix q rest)
      ]
  walk_sound (entry name (some mode) file es) prefix q m =
      elim (append_cases (entry_lines name mode file prefix) m) [
        | inl this ↦
            let (named, m1) = unless_dots name _ q this in
            elim (append_cases (shows permint (prefix ++ name) mode) m1) [
              | inl a ↦ by_mode named (shown (prefix ++ name) q mode a)
              | inr b ↦ absurd (not-nil b)
            ]
        | inr rest ↦ later (walk_sound es prefix q rest)
      ]
  walk_sound (entry name (some mode) shut es) prefix q m =
      elim (append_cases (entry_lines name mode shut prefix) m) [
        | inl this ↦
            let (named, m1) = unless_dots name _ q this in
            elim (append_cases (shows permint (prefix ++ name) mode) m1) [
              | inl a ↦ by_mode named (shown (prefix ++ name) q mode a)
              | inr b ↦ absurd (no_path (no_open (prefix ++ name)) (λ e. ground arith) b)
            ]
        | inr rest ↦ later (walk_sound es prefix q rest)
      ]
  walk_sound (entry name (some mode) (directory below) es) prefix q m =
      elim (append_cases (entry_lines name mode (directory below) prefix) m) [
        | inl this ↦
            let (named, m1) = unless_dots name _ q this in
            elim (append_cases (shows permint (prefix ++ name) mode) m1) [
              | inl a ↦ by_mode named (shown (prefix ++ name) q mode a)
              | inr b ↦ inside named (walk_sound below (prefix_of (prefix ++ name)) q b)
            ]
        | inr rest ↦ later (walk_sound es prefix q rest)
      ]

-- `findpaths` on a directory that can be opened prints a path exactly if there is a file or a directory of
-- that path below it, with the given permissions, that is reached through directories that can be opened.
pub findpaths-Matching :
    (permint : ℕ) (es : Entries) (pathstr q : Bytes)
    → Memᴰ (path q) (findpaths permint (directory es) pathstr)
      ↔ Matching permint es (prefix_of pathstr) q
unfolding findpaths
findpaths-Matching permint es pathstr q =
    (walk_sound permint es (prefix_of pathstr) q, walk_complete permint)
