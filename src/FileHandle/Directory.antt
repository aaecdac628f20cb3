-- ===== src/FileHandle/Directory.antt =====
-- The static functions of FileHandle: directories and paths.
use base_utilities_esp.Base.{
  ℕ, zero, suc, ◌<◌, String, ◌≡◌, Bool, true, false, ◌||◌, Option, none, some, List, [], ◌∷◌, ◌++◌,
  append-nil, append_assoc, arith, str_eq, length, eqb_ℤ, if◌then◌else◌, pos, Bool-cases, inl, inr,
}
use base_utilities_esp.Posix.{Posix, Dirent, FileType, directory, regular}

-- FileHandle::DirEntry
pub record DirEntry : Type 0 where
  pub name : String
  pub is_dir : Bool
  pub is_regular : Bool

abbrev is_dir_type : FileType → Bool
is_dir_type directory = true
is_dir_type _ = false

abbrev is_regular_type : FileType → Bool
is_regular_type regular = true
is_regular_type _ = false

-- The entry that `listdir` makes of a directory entry, by `d_type`.
abbrev pub to_entry : Dirent → DirEntry
to_entry e = record {
  name = e.d_name;
  is_dir = is_dir_type e.d_type;
  is_regular = is_regular_type e.d_type;
}

abbrev pub is_dots : Dirent → Bool
is_dots e = str_eq e.d_name "." || str_eq e.d_name ".."

module _ (P : Posix) where
  listdir_loop : ℕ → P.Dir → List DirEntry → P.World → Option (List DirEntry × P.World)
  listdir_loop zero dir entries w = none
  listdir_loop (suc fuel) dir entries w =
      let (entry, w') = P.readdir w dir in
      elim entry [
        | none ↦ some (entries, P.closedir w' dir)
        | some e ↦
            listdir_loop fuel dir (if is_dots e then entries else entries ++ to_entry e ∷ []) w'
      ]

  unfoldable pub listdir : ℕ → String → P.World → Option (List DirEntry × P.World)
  unfolding listdir_loop
  listdir fuel path w =
      let (dir, w') = P.opendir w path in
      elim dir [ none ↦ some ([], w') | some d ↦ listdir_loop fuel d [] w' ]

  unfoldable pub is_directory : String → P.World → Bool
  is_directory path w = elim (P.stat w path) [ none ↦ false | some t ↦ is_dir_type t ]

  unfoldable pub is_regular_file : String → P.World → Bool
  is_regular_file path w = elim (P.stat w path) [ none ↦ false | some t ↦ is_regular_type t ]

  unfoldable pub exists : String → P.World → Bool
  exists path w = eqb_ℤ (P.access w path) (pos 0)

  unfoldable pub remove : String → P.World → Bool × P.World
  remove path w = let (r, w') = P.unlink w path in (eqb_ℤ r (pos 0), w')

  unfoldable pub rename : String → String → P.World → Bool × P.World
  rename old_path new_path w =
      let (r, w') = P.sys_rename w old_path new_path in (eqb_ℤ r (pos 0), w')

  -- From a state on, `readdir` gives `es` and then the end of the directory.
  abbrev pub Gives : P.World → P.Dir → List Dirent → Type 0
  Gives w dir [] = (P.readdir w dir).0 ≡ none
  Gives w dir (e ∷ es) = ((P.readdir w dir).0 ≡ some e) × Gives (P.readdir w dir).1 dir es

  -- The entries of a directory but `.` and `..`.
  abbrev pub listing : List Dirent → List DirEntry
  listing [] = []
  listing (e ∷ es) = if is_dots e then listing es else to_entry e ∷ listing es

  -- The system when `readdir` has given `es` and then the end.
  abbrev pub read_through : P.World → P.Dir → List Dirent → P.World
  read_through w dir [] = (P.readdir w dir).1
  read_through w dir (e ∷ es) = read_through (P.readdir w dir).1 dir es

  listdir_loop_lem :
      (fuel : ℕ) (dir : P.Dir) (entries : List DirEntry) (w : P.World) (es : List Dirent)
      → Gives w dir es
      → length es < fuel
      → listdir_loop fuel dir entries w
        ≡ some (entries ++ listing es, P.closedir (read_through w dir es) dir)
  unfolding listdir_loop
  listdir_loop_lem zero dir entries w es g enough = absurd (omega arith)
  listdir_loop_lem (suc fuel) dir entries w [] g enough = rw (g, listdir_loop, append-nil entries)
  listdir_loop_lem (suc fuel) dir entries w (e ∷ es) g enough = elim (Bool-cases (is_dots e)) [
    | inl dots ↦
        rw (g.0, listdir_loop, dots)
          (listdir_loop_lem fuel dir entries (P.readdir w dir).1 es g.1 (omega arith))
    | inr named ↦
        let run =
          listdir_loop_lem fuel dir (entries ++ to_entry e ∷ []) (P.readdir w dir).1 es g.1
            (omega arith) in
        rw (g.0, listdir_loop, named)
          (rw (← append_assoc entries (to_entry e ∷ []) (listing es)) run)
  ]

  -- On a directory whose entries end, and with fuel for them, `listdir` returns its entries in their
  -- order, without `.` and `..`, each with its name and the type that the system reports; it has read
  -- up to the end of the directory, and then closed it.
  pub listdir_lem :
      (fuel : ℕ) (path : String) (w : P.World) (dir : P.Dir) (es : List Dirent)
      → (P.opendir w path).0 ≡ some dir
      → Gives (P.opendir w path).1 dir es
      → length es < fuel
      → listdir fuel path w
        ≡ some (listing es, P.closedir (read_through (P.opendir w path).1 dir es) dir)
  unfolding listdir
  listdir_lem fuel path w dir es opened g enough =
      let run = listdir_loop_lem fuel dir [] (P.opendir w path).1 es g enough in
      rw (opened, listdir) run
