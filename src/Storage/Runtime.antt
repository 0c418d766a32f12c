-- ===== src/Storage/Runtime.antt =====
-- The runtime directory and its archive: `_write_archive`, `_archive_symlink`, `_restore_runtime` and
-- `_require_transcript` of harness/session/session_manager.py, `create_runtime` and
-- `remove_runtime` of harness/utils/storage.py. Modes are not modelled, and a directory's files come
-- in the order of their paths, as `sorted` gives them.
use de_framework.Exec.{Result, after, err, ok, file_not_found_error, value_error}
use de_framework.Storage.Archive.{
  parts_eq, validate_archive_entries, workspace_directory, PurePosixPath, ZipInfo, sdk_directory,
}
use de_framework.Prelude.{
  Bool, List, Option, true, ◌∷◌, [], false, if◌then◌else◌, bool_eq, map, some, ◌&&◌, length, none,
  ◌++◌, ◌==◌,
}
use de_framework.Text.{Text, text_eq, codes}

pub data Node : Type 0 where
  folder special : Node
  regular : Text → Node
  link : PurePosixPath → Node

-- A file by the parts of its path below the runtime directory.
abbrev pub Files : Type 0
Files = List (List Text × Node)

abbrev pub is_link_node : Node → Bool
is_link_node (link t) = true
is_link_node _ = false

abbrev pub info : List Text × Node → ZipInfo
info (p, n) = record { path = record { is_absolute = false; parts = p }; is_link = is_link_node n }

-- p.is_relative_to(base)
unfoldable pub is_within : List Text → List Text → Bool
unfolding text_eq
is_within [] p = true
is_within (b ∷ base) [] = false
is_within (b ∷ base) (a ∷ p) = text_eq b a && is_within base p

abbrev pub sdk_debug_directory : List Text
sdk_debug_directory = sdk_directory ∷ codes "debug" ∷ []

abbrev pub is_debug : List Text → Bool
is_debug = is_within sdk_debug_directory

-- `root` holds the parts of the runtime directory's own path, and `relpath` is os.path.relpath.
module _ (root : List Text) (relpath : List Text → List Text → PurePosixPath) where
  unfoldable pub portable : List Text → PurePosixPath → PurePosixPath
  unfolding is_within
  portable p t = if t.is_absolute && is_within root t.parts then relpath t.parts (root ++ p) else t

  unfoldable pub archive_entry : List Text × Node → Result (List Text × Node)
  unfolding portable
  archive_entry (p, folder) = ok (p, folder)
  archive_entry (p, regular t) = ok (p, regular t)
  archive_entry (p, special) = err value_error
  archive_entry (p, link t) = if length p == 1 then err value_error else ok (p, link (portable p t))

  unfoldable pub write_archive : Files → Result Files
  unfolding is_within archive_entry
  write_archive [] = ok []
  write_archive (f ∷ fs) =
      let rest = write_archive fs in
      if is_debug f.0 then rest else after (archive_entry f) (λ e. after rest (λ es. ok (e ∷ es)))

unfoldable pub put_file : List Text × Node → Files → Files
unfolding parts_eq
put_file f [] = f ∷ []
put_file f (g ∷ fs) = if parts_eq g.0 f.0 then f ∷ fs else g ∷ put_file f fs

unfoldable pub put_files : List (List Text × Node) → Files → Files
unfolding put_file
put_files [] fs = fs
put_files (e ∷ es) fs = put_files es (put_file e fs)

-- create_runtime
abbrev pub new_runtime : Files
new_runtime = (workspace_directory ∷ [], folder) ∷ (sdk_directory ∷ [], folder) ∷ []

unfoldable pub select_links : Bool → Files → Files
select_links wanted [] = []
select_links wanted (f ∷ fs) =
    let rest = select_links wanted fs in
    if bool_eq wanted (is_link_node f.1) then f ∷ rest else rest

-- Files and directories first, then the links.
unfoldable pub restore_runtime : Files → Result Files
unfolding validate_archive_entries put_files select_links
restore_runtime es =
    after (validate_archive_entries (map info es))
      (λ _. ok (put_files (select_links true es) (put_files (select_links false es) new_runtime)))

-- path.name
unfoldable pub file_name : List Text → Text
file_name [] = []
file_name (a ∷ []) = a
file_name (a ∷ (b ∷ p)) = file_name (b ∷ p)

abbrev pub is_regular : Node → Bool
is_regular (regular t) = true
is_regular _ = false

abbrev pub is_transcript : Text → List Text × Node → Bool
is_transcript id f =
    is_within (sdk_directory ∷ []) f.0
    && text_eq (file_name f.0) (id ++ codes ".jsonl")
    && is_regular f.1

unfoldable pub find_transcripts : Text → Files → List (List Text)
unfolding is_within file_name text_eq
find_transcripts id [] = []
find_transcripts id (f ∷ fs) =
    let rest = find_transcripts id fs in if is_transcript id f then f.0 ∷ rest else rest

-- `transcript, = paths` raises ValueError for several.
abbrev pub only_one : List (List Text) → Result (Option (List Text))
only_one [] = err file_not_found_error
only_one (p ∷ []) = ok (some p)
only_one (p ∷ (q ∷ ps)) = err value_error

unfoldable pub require_transcript : Option Text → Files → Result (Option (List Text))
unfolding find_transcripts
require_transcript none fs = ok none
require_transcript (some id) fs = only_one (find_transcripts id fs)
