-- ===== src/CommunityRepo/Tests.antt =====
-- internal/communityrepo/fetch.go: a small archive, extracted, and what is read from it.
use homeassistant_operator.Prelude.{
  ℕ, ◌-◌, ◌*◌, ◌^◌, ◌≤◌, ◌≡◌, refl, true, some, List, [], ◌∷◌, arith, length, All,
}
use homeassistant_operator.GoPath.{Bytes, slash, clean, dir}
use homeassistant_operator.CommunityRepo.{
  FileEntry, ExtractedRepo, directory, regular, Header, Item, header, ok, err, escapes, put, insert,
  mark_from, mark_parent_dirs, Progress, start, safe_name, add_file, add_dir, keep_content,
  regular_file, by_kind, extract_entry, extract_from, extract_tar, exceeds, is_negative,
}
use homeassistant_operator.CommunityRepo.Room.{held}
use homeassistant_operator.CommunityRepo.Fetch.{
  answered, fetch_tarball, extract_answer, strip_extracted, fetch_tarball-bounds,
}
use homeassistant_operator.CommunityRepo.Bounds.{extract_tar_bounds}
use homeassistant_operator.CommunityRepo.Local.{IsTree, extract_tar-IsTree}
use homeassistant_operator.CommunityRepo.Query.{
  direct_child, strip_top_level_dir, strip_by, strip_files, strip_dirs, file_tops, dir_tops,
  note_file, note_dir, below, add_once, listed, child_of_root, below_prefix, read_dir, list_files,
  list_dirs, list_root_as_empty, DirEntry,
}
use homeassistant_operator.CommunityRepo.Lookup.{
  IsStripped, direct_child_iff, strip_top_level_dir-IsStripped,
}
use homeassistant_operator.CommunityRepo.Listing.{IsListing, read_dir-IsListing}
use homeassistant_operator.CommunityRepo.Total.{
  declared_total, extract_tar-total, regular_file-wraps,
}

-- r, r/a and r/a/f
abbrev top : Bytes
top = 114 ∷ []

abbrev folder : Bytes
folder = 114 ∷ slash ∷ 97 ∷ []

abbrev file : Bytes
file = 114 ∷ slash ∷ 97 ∷ slash ∷ 102 ∷ []

-- The directory r/ and the file r/./a/f of three bytes.
abbrev archive : List Item
archive =
    header (record { name = 114 ∷ slash ∷ []; kind = directory; size = 0; body = [] })
    ∷ header (record {
      name = 114 ∷ slash ∷ 46 ∷ slash ∷ 97 ∷ slash ∷ 102 ∷ [];
      kind = regular;
      size = 3;
      body = 1 ∷ 2 ∷ 3 ∷ [];
    })
    ∷ []

abbrev entry : FileEntry
entry = record { content = 1 ∷ 2 ∷ 3 ∷ []; retained = true; size = 3 }

abbrev tree : ExtractedRepo
tree = record { files = (file, entry) ∷ []; dirs = folder ∷ top ∷ [] }

extracted : extract_tar archive ≡ ok tree
unfolding extract_tar extract_from extract_entry by_kind regular_file keep_content add_file add_dir
    safe_name mark_parent_dirs mark_from clean dir insert put exceeds is_negative
extracted = refl

-- A name that leads out of the archive is refused.
abbrev escaping : Bytes
escaping = 97 ∷ slash ∷ 46 ∷ 46 ∷ slash ∷ 46 ∷ 46 ∷ slash ∷ 98 ∷ []

refused :
    extract_tar (header (record { name = escaping; kind = directory; size = 0; body = [] }) ∷ [])
    ≡ err (escapes escaping)
unfolding extract_tar extract_from extract_entry safe_name clean
refused = refl

extract_tar_bounds_example :
    (held tree.files ≤ 32 * 1024 * 1024)
    × (length tree.files ≤ 20000)
    × All (λ f. length f.1.content ≤ 1024 * 1024) tree.files
extract_tar_bounds_example = extract_tar_bounds archive tree extracted

extract_tar-IsTree_example : IsTree tree
extract_tar-IsTree_example = extract_tar-IsTree archive tree extracted

extract_tar-total_example : declared_total archive ≤ 100 * 1024 * 1024
extract_tar-total_example =
    extract_tar-total archive tree (omega arith, (omega arith, tt)) extracted

abbrev huge : Header
huge = record { name = file; kind = regular; size = 2 ^ 63 - 1; body = [] }

regular_file-wraps_example :
    (q : Progress) × (regular_file file huge (record start { total_bytes = 1 }) ≡ ok q)
    × (is_negative q.total_bytes ≡ true)
regular_file-wraps_example =
    regular_file-wraps file huge (record start { total_bytes = 1 }) (omega arith) (omega arith)
      (omega arith) (omega arith)

direct_child_iff_example : direct_child top folder ≡ some (97 ∷ [])
direct_child_iff_example = (direct_child_iff top folder (97 ∷ [])).1 (refl, (λ e. cc e), refl)

-- a and a/f
abbrev stripped : ExtractedRepo
stripped = record { files = (97 ∷ slash ∷ 102 ∷ [], entry) ∷ []; dirs = (97 ∷ []) ∷ [] }

strips : strip_top_level_dir tree ≡ ok stripped
unfolding strip_top_level_dir strip_by strip_files strip_dirs file_tops dir_tops note_file note_dir
    below insert put
strips = refl

strip_top_level_dir-IsStripped_example : (d : Bytes) × IsStripped d tree stripped
strip_top_level_dir-IsStripped_example = strip_top_level_dir-IsStripped tree stripped strips

abbrev listing : List DirEntry
listing = record { name = 97 ∷ []; is_dir = true } ∷ []

lists : read_dir tree top ≡ ok listing
unfolding read_dir list_files list_dirs list_root_as_empty direct_child clean add_once listed
    child_of_root below_prefix
lists = refl

read_dir-IsListing_example : IsListing tree top listing
unfolding clean
read_dir-IsListing_example = read_dir-IsListing tree top listing lists

fetched : fetch_tarball (answered 200 (some archive)) ≡ ok stripped
unfolding fetch_tarball extract_answer strip_extracted extract_tar extract_from extract_entry
    by_kind regular_file keep_content add_file add_dir safe_name mark_parent_dirs mark_from clean
    dir insert put exceeds is_negative strip_top_level_dir strip_by strip_files strip_dirs file_tops
    dir_tops note_file note_dir below
fetched = refl

fetch_tarball-bounds_example :
    (◌≡◌ {A = ℕ} 200 200)
    × (held stripped.files ≤ 32 * 1024 * 1024)
    × (length stripped.files ≤ 20000)
fetch_tarball-bounds_example = fetch_tarball-bounds 200 (some archive) stripped fetched
