-- ===== src/CommunityRepo/Query.antt =====
-- internal/communityrepo/fetch.go: what a client reads from an extracted archive, and the archive
-- without its one top-level directory. A loop over a map takes its elements in an order that Go does
-- not fix: here it is the order of the association list, from the back where that is shorter to say.
use homeassistant_operator.Prelude.{
  ℕ, ◌+◌, Bool, true, false, not, ◌&&◌, ◌||◌, Option, none, some, List, [], ◌∷◌, ◌++◌, any,
  if◌then◌else◌,
}
use homeassistant_operator.GoPath.{
  Bytes, slash, dot, bytes_eq, cut_prefix, has_slash, before_slash, clean,
}
use homeassistant_operator.CommunityRepo.{
  FileEntry, ExtractedRepo, Fetched, ok, err, not_exist, not_retained, top_level_dirs, get, put,
  contains, insert,
}

pub record DirEntry : Type 0 where
  pub name : Bytes
  pub is_dir : Bool

unfoldable pub read_file : ExtractedRepo → Bytes → Fetched Bytes
read_file e p = elim (get (clean p) e.files) [
  | none ↦ err (not_exist p)
  | some entry ↦ if entry.retained then ok entry.content else err (not_retained p)
]

unfoldable pub exists : ExtractedRepo → Bytes → Bool
exists e p = elim (get (clean p) e.files) [ some _ ↦ true | none ↦ contains (clean p) e.dirs ]

unfoldable pub child_of_root : Bytes → Option Bytes
child_of_root child =
    if has_slash child then none else if bytes_eq child [] then none else some child

unfoldable pub below_prefix : Option Bytes → Option Bytes
below_prefix none = none
below_prefix (some rest) = if bytes_eq rest [] || has_slash rest then none else some rest

unfoldable pub direct_child : Bytes → Bytes → Option Bytes
unfolding child_of_root below_prefix
direct_child [] child = child_of_root child
direct_child (c ∷ parent) child = below_prefix (cut_prefix ((c ∷ parent) ++ slash ∷ []) child)

unfoldable pub listed : Bytes → List DirEntry → Bool
listed name es = any (λ e. bytes_eq e.name name) es

unfoldable pub add_once : Bool → Option Bytes → List DirEntry → List DirEntry
unfolding listed
add_once is_dir none es = es
add_once is_dir (some name) es =
    if listed name es then es else es ++ record { name = name; is_dir = is_dir } ∷ []

unfoldable pub list_files : Bytes → List (Bytes × FileEntry) → List DirEntry → List DirEntry
unfolding add_once direct_child
list_files d [] es = es
list_files d ((p, _) ∷ m) es = list_files d m (add_once false (direct_child d p) es)

unfoldable pub list_dirs : Bytes → List Bytes → List DirEntry → List DirEntry
unfolding add_once direct_child
list_dirs d [] es = es
list_dirs d (p ∷ ds) es = list_dirs d ds (add_once true (direct_child d p) es)

unfoldable pub list_root_as_empty : Bytes → Bytes
list_root_as_empty p = if bytes_eq (clean p) dot then [] else clean p

unfoldable pub read_dir : ExtractedRepo → Bytes → Fetched (List DirEntry)
unfolding list_files list_dirs list_root_as_empty
read_dir e p =
    let d = list_root_as_empty p in
    if not (bytes_eq d []) && not (contains d e.dirs)
    then err (not_exist p)
    else ok (list_dirs d e.dirs (list_files d e.files []))

unfoldable pub note_file : Bytes → List Bytes → List Bytes
note_file p tops = elim (before_slash p) [ some top ↦ insert top tops | none ↦ tops ]

unfoldable pub note_dir : Bytes → List Bytes → List Bytes
note_dir p tops = elim (before_slash p) [
  | some top ↦ insert top tops
  | none ↦ if bytes_eq p [] then tops else insert p tops
]

unfoldable pub file_tops : List (Bytes × FileEntry) → List Bytes
unfolding note_file
file_tops [] = []
file_tops ((p, _) ∷ m) = note_file p (file_tops m)

unfoldable pub dir_tops : List Bytes → List Bytes → List Bytes
unfolding note_dir
dir_tops tops [] = tops
dir_tops tops (p ∷ ds) = note_dir p (dir_tops tops ds)

-- The relative path, unless the path lies elsewhere or is the directory itself.
unfoldable pub below : Bytes → Bytes → Option Bytes
below prefix p = elim (cut_prefix prefix p) [
  | none ↦ none
  | some rel ↦ if bytes_eq rel [] then none else some rel
]

unfoldable pub strip_files : Bytes → List (Bytes × FileEntry) → List (Bytes × FileEntry)
unfolding below
strip_files prefix [] = []
strip_files prefix ((p, e) ∷ m) =
    let rest = strip_files prefix m in
    elim (below prefix p) [ none ↦ rest | some rel ↦ put rel e rest ]

unfoldable pub strip_dirs : Bytes → List Bytes → List Bytes
unfolding below
strip_dirs prefix [] = []
strip_dirs prefix (p ∷ ds) =
    let rest = strip_dirs prefix ds in
    elim (below prefix p) [ none ↦ rest | some rel ↦ insert rel rest ]

unfoldable pub count : List Bytes → ℕ
count [] = 0
count (_ ∷ ds) = 1 + count ds

unfoldable pub strip_by : ExtractedRepo → List Bytes → Fetched ExtractedRepo
unfolding strip_files strip_dirs count
strip_by e [] = err (top_level_dirs 0)
strip_by e (d ∷ []) =
    let prefix = d ++ slash ∷ [] in
    ok (record { files = strip_files prefix e.files; dirs = strip_dirs prefix e.dirs })
strip_by e (d ∷ d' ∷ ds) = err (top_level_dirs (2 + count ds))

unfoldable pub strip_top_level_dir : ExtractedRepo → Fetched ExtractedRepo
unfolding strip_by file_tops dir_tops
strip_top_level_dir e = strip_by e (dir_tops (file_tops e.files) e.dirs)
