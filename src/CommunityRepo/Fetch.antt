-- ===== src/CommunityRepo/Fetch.antt =====
-- internal/communityrepo/fetch.go: `FetchTarball`, from the answer to the download on.
use homeassistant_operator.Prelude.{
  ℕ, ◌*◌, ◌≤◌, ◌≡◌, inl, inr, not, Option, none, some, List, [], ◌∷◌, ◌++◌, arith, eqb, length,
  Bool-cases, Option-cases, if◌then◌else◌,
}
use homeassistant_operator.GoPath.{Bytes, slash}
use homeassistant_operator.CommunityRepo.{
  FileEntry, ExtractedRepo, Item, Fetched, ok, err, request_failed, bad_gzip,
  repository_unreachable, extract_tar, Fetched-cases,
}
use homeassistant_operator.CommunityRepo.Query.{
  below, strip_files, strip_by, strip_top_level_dir, file_tops, dir_tops,
}
use homeassistant_operator.CommunityRepo.Room.{held, held-put, length-put}
use homeassistant_operator.CommunityRepo.Bounds.{extract_tar_bounds}

-- The answer to the request: its status, and the archive unless its gzip header is bad.
pub data Download : Type 0 where
  failed : Download
  answered : ℕ → Option (List Item) → Download

unfoldable pub extract_answer : Option (List Item) → Fetched ExtractedRepo
extract_answer none = err bad_gzip
extract_answer (some items) = extract_tar items

unfoldable pub strip_extracted : Fetched ExtractedRepo → Fetched ExtractedRepo
strip_extracted (err e) = err e
strip_extracted (ok r) = strip_top_level_dir r

unfoldable pub fetch_tarball : Download → Fetched ExtractedRepo
unfolding extract_answer strip_extracted
fetch_tarball failed = err request_failed
fetch_tarball (answered status body) =
    if eqb status 404
    then err (repository_unreachable 404)
    else if not (eqb status 200)
    then err (repository_unreachable status)
    else strip_extracted (extract_answer body)

strip_files-held :
    (prefix : Bytes) (m : List (Bytes × FileEntry))
    → (held (strip_files prefix m) ≤ held m) × (length (strip_files prefix m) ≤ length m)
unfolding strip_files
strip_files-held prefix [] = (omega arith, omega arith)
strip_files-held prefix ((p, e) ∷ m) =
    let (bytes, files) = strip_files-held prefix m in
    elim (Option-cases (below prefix p)) [
      | inl elsewhere ↦ rw (strip_files, elsewhere) (omega (arith, bytes), omega (arith, files))
      | inr (rel, here) ↦
          rw (strip_files, here)
            (
              omega (arith, bytes, held-put rel e (strip_files prefix m)),
              omega (arith, files, length-put rel e (strip_files prefix m)),
            )
    ]

-- No more content and no more files than before.
abbrev IsWithin : ExtractedRepo → ExtractedRepo → Type 0
IsWithin s r = (held s.files ≤ held r.files) × (length s.files ≤ length r.files)

strip_by-IsWithin :
    (r s : ExtractedRepo) (tops : List Bytes) → strip_by r tops ≡ ok s → IsWithin s r
unfolding strip_by
strip_by-IsWithin r s [] h = absurd (cc h)
strip_by-IsWithin r s (d ∷ []) h =
    let files : strip_files (d ++ slash ∷ []) r.files ≡ s.files = cc h in
    rw (← files) (strip_files-held (d ++ slash ∷ []) r.files)
strip_by-IsWithin r s (d ∷ d' ∷ ds) h = absurd (cc h)

extracted-bounds :
    (items : List Item) (s : ExtractedRepo)
    → strip_extracted (extract_tar items) ≡ ok s
    → (held s.files ≤ 32 * 1024 * 1024) × (length s.files ≤ 20000)
unfolding strip_extracted strip_top_level_dir
extracted-bounds items s h = elim (Fetched-cases (extract_tar items)) [
  | inl (e, bad) ↦ absurd (cc (rw (bad, strip_extracted) at h))
  | inr (r, good) ↦
      let (bytes, files, _) = extract_tar_bounds items r good in
      let within =
        strip_by-IsWithin r s (dir_tops (file_tops r.files) r.dirs)
          (rw (good, strip_extracted, strip_top_level_dir) at h) in
      (omega (arith, bytes, within.0), omega (arith, files, within.1))
]

answer-bounds :
    (body : Option (List Item)) (s : ExtractedRepo)
    → strip_extracted (extract_answer body) ≡ ok s
    → (held s.files ≤ 32 * 1024 * 1024) × (length s.files ≤ 20000)
unfolding strip_extracted extract_answer
answer-bounds none s h = absurd (cc h)
answer-bounds (some items) s h = extracted-bounds items s h

-- A repository is fetched only from an answer with status 200, and what the program then holds of it
-- is at most 32 MiB of file content in at most 20000 files.
pub fetch_tarball-bounds :
    (status : ℕ) (body : Option (List Item)) (s : ExtractedRepo)
    → fetch_tarball (answered status body) ≡ ok s
    → (status ≡ 200) × (held s.files ≤ 32 * 1024 * 1024) × (length s.files ≤ 20000)
unfolding fetch_tarball
fetch_tarball-bounds status body s h = elim (Bool-cases (eqb status 404)) [
  | inl missing ↦ absurd (cc (rw (missing, fetch_tarball) at h))
  | inr found ↦ elim (Bool-cases (eqb status 200)) [
    | inr other ↦ absurd (cc (rw (found, other, fetch_tarball) at h))
    | inl fine ↦
        let (bytes, files) = answer-bounds body s (rw (found, fine, fetch_tarball) at h) in
        (ground arith, bytes, files)
  ]
]
