-- ===== src/CommunityRepo/Lookup.antt =====
-- Paths in an archive without its top-level directory, and the files directly inside a directory.
use mathlib.Core.Path.{subst}
use homeassistant_operator.Prelude.{
  ◌≡◌, ◌≢◌, ◌↔◌, refl, ap, ◌∙◌, inl, inr, false, ◌||◌, none, some, List, [], ◌∷◌, ◌++◌, arith, eqb,
  eqb_iff, Bool-cases, Option-cases, if◌then◌else◌,
}
use homeassistant_operator.GoPath.{Bytes, slash, bytes_eq, bytes_eq_iff, cut_prefix, has_slash}
use homeassistant_operator.CommunityRepo.{FileEntry, ExtractedRepo, ok, get, put, contains, insert}
use homeassistant_operator.CommunityRepo.Query.{
  child_of_root, below_prefix, direct_child, below, strip_files, strip_dirs, strip_by,
  strip_top_level_dir, file_tops, dir_tops,
}

pub cut_prefix-append : (pre rel : Bytes) → cut_prefix pre (pre ++ rel) ≡ some rel
cut_prefix-append [] rel = refl
cut_prefix-append (a ∷ pre) rel = rw ((eqb_iff a a).1 refl) (cut_prefix-append pre rel)

pub cut_prefix_sound : (pre p rel : Bytes) → cut_prefix pre p ≡ some rel → p ≡ pre ++ rel
cut_prefix_sound [] p rel h = cc h
cut_prefix_sound (a ∷ pre) [] rel h = cc
cut_prefix_sound (a ∷ pre) (b ∷ p) rel h = elim (Bool-cases (eqb a b)) [
  | inl e ↦
      let same : a ≡ b = (eqb_iff a b).0 e in
      let tail = cut_prefix_sound pre p rel (rw (e, cut_prefix) at h) in cc (same, tail)
  | inr e ↦ absurd (cc (rw (e, cut_prefix) at h))
]

below_prefix_iff :
    (rest name : Bytes)
    → (below_prefix (some rest) ≡ some name)
      ↔ ((rest ≡ name) × (name ≢ []) × (has_slash name ≡ false))
unfolding below_prefix
below_prefix_iff rest name = ground (arith, bytes_eq_iff rest [])

pub append-slash : (d rel : Bytes) → (d ++ slash ∷ []) ++ rel ≡ d ++ slash ∷ rel
append-slash [] rel = refl
append-slash (c ∷ d) rel = ap (λ t. c ∷ t) (append-slash d rel)

cut_slash_sound :
    (d p rel : Bytes) → cut_prefix (d ++ slash ∷ []) p ≡ some rel → p ≡ d ++ slash ∷ rel
cut_slash_sound d p rel h = cut_prefix_sound (d ++ slash ∷ []) p rel h ∙ append-slash d rel

cut_slash-append : (d rel : Bytes) → cut_prefix (d ++ slash ∷ []) (d ++ slash ∷ rel) ≡ some rel
cut_slash-append d rel = rw (append-slash d rel) at (cut_prefix-append (d ++ slash ∷ []) rel)

below_prefix_sound :
    (d p name : Bytes)
    → below_prefix (cut_prefix (d ++ slash ∷ []) p) ≡ some name
    → (p ≡ d ++ slash ∷ name) × (name ≢ []) × (has_slash name ≡ false)
unfolding below_prefix
below_prefix_sound d p name h = elim (Option-cases (cut_prefix (d ++ slash ∷ []) p)) [
  | inl miss ↦ absurd (cc (rw (miss, below_prefix) at h))
  | inr (rest, hit) ↦
      let (same, filled, plain) = (below_prefix_iff rest name).0 (rw hit at h) in
      (rw (← same) (cut_slash_sound d p rest hit), filled, plain)
]

-- A path lists the entry `name` directly inside the directory `parent`, where [] is the repository's
-- root, exactly if the path is the parent's path, a slash and `name`, or `name` alone at the root, and
-- `name` is not empty and has no slash.
pub direct_child_iff :
    (parent child name : Bytes)
    → (direct_child parent child ≡ some name) ↔ (
        (child ≡ (if bytes_eq parent [] then name else parent ++ slash ∷ name))
        × (name ≢ [])
        × (has_slash name ≡ false))
unfolding direct_child child_of_root
direct_child_iff [] child name = ground (arith, bytes_eq_iff child [])
direct_child_iff (c ∷ parent) child name = (
  below_prefix_sound (c ∷ parent) child name,
  λ (e, filled, plain).
      rw (e, cut_slash-append (c ∷ parent) name)
        ((below_prefix_iff name name).1 (refl, filled, plain)),
)

-- The part of `below` that succeeds.
pub below_sound :
    (d p rel : Bytes) → below (d ++ slash ∷ []) p ≡ some rel → (p ≡ d ++ slash ∷ rel) × (rel ≢ [])
unfolding below
below_sound d p rel h = elim (Option-cases (cut_prefix (d ++ slash ∷ []) p)) [
  | inl miss ↦ absurd (cc (rw (miss, below) at h))
  | inr (rest, hit) ↦
      let same : rest ≡ rel = ground (arith, rw (hit, below) at h) in
      let filled : rel ≢ [] = ground (arith, rw (hit, below) at h, bytes_eq_iff rest []) in
      (rw same at (cut_slash_sound d p rest hit), filled)
]

pub below_complete :
    (d rel : Bytes) → rel ≢ [] → below (d ++ slash ∷ []) (d ++ slash ∷ rel) ≡ some rel
unfolding below
below_complete d rel h = rw (below, cut_slash-append d rel) (ground (arith, bytes_eq_iff rel []))

pub get-put :
    (k j : Bytes) (e : FileEntry) (m : List (Bytes × FileEntry))
    → get k (put j e m) ≡ (if bytes_eq j k then some e else get k m)
unfolding get put
get-put k j e [] = refl
get-put k j e ((i, d) ∷ m) =
    ground (arith, get-put k j e m, bytes_eq_iff i j, bytes_eq_iff j k, bytes_eq_iff i k)

bytes_eq-append : (d s t : Bytes) → bytes_eq (d ++ s) (d ++ t) ≡ bytes_eq s t
bytes_eq-append [] s t = refl
bytes_eq-append (c ∷ d) s t = rw ((eqb_iff c c).1 refl) (bytes_eq-append d s t)

-- A path that is not below `d` is no path `d ++ slash ∷ rel`.
elsewhere :
    (d p rel : Bytes)
    → rel ≢ []
    → below (d ++ slash ∷ []) p ≡ none
    → bytes_eq p (d ++ slash ∷ rel) ≡ false
elsewhere d p rel h miss = elim (Bool-cases (bytes_eq p (d ++ slash ∷ rel))) [
  | inl same ↦
      let e = (bytes_eq_iff p (d ++ slash ∷ rel)).0 same in
      absurd (cc (below_complete d rel h, miss, e))
  | inr differs ↦ differs
]

same_below :
    (d p r rel : Bytes)
    → below (d ++ slash ∷ []) p ≡ some r
    → bytes_eq p (d ++ slash ∷ rel) ≡ bytes_eq r rel
same_below d p r rel hit =
    rw ((below_sound d p r hit).0) (bytes_eq-append d (slash ∷ r) (slash ∷ rel))

strip_files-get :
    (d rel : Bytes)
    → rel ≢ []
    → (m : List (Bytes × FileEntry))
    → get rel (strip_files (d ++ slash ∷ []) m) ≡ get (d ++ slash ∷ rel) m
unfolding strip_files get
strip_files-get d rel h [] = refl
strip_files-get d rel h ((p, e) ∷ m) = elim (Option-cases (below (d ++ slash ∷ []) p)) [
  | inl miss ↦ rw (strip_files, miss, elsewhere d p rel h miss) (strip_files-get d rel h m)
  | inr (r, hit) ↦
      rw
        (
          strip_files,
          hit,
          same_below d p r rel hit,
          get-put rel r e (strip_files (d ++ slash ∷ []) m),
          strip_files-get d rel h m,
        )
        refl
]

contains-insert :
    (x d : Bytes) (ds : List Bytes) → contains x (insert d ds) ≡ (bytes_eq d x || contains x ds)
unfolding insert
contains-insert x d ds = elim (Bool-cases (contains d ds)) [
  | inl here ↦ elim (Bool-cases (bytes_eq d x)) [
    | inl same ↦ rw (here, same) (rw ((bytes_eq_iff d x).0 same) at here)
    | inr differs ↦ rw (here, differs) refl
  ]
  | inr missing ↦ rw missing refl
]

strip_dirs-contains :
    (d rel : Bytes)
    → rel ≢ []
    → (ds : List Bytes)
    → contains rel (strip_dirs (d ++ slash ∷ []) ds) ≡ contains (d ++ slash ∷ rel) ds
unfolding strip_dirs
strip_dirs-contains d rel h [] = refl
strip_dirs-contains d rel h (p ∷ ds) = elim (Option-cases (below (d ++ slash ∷ []) p)) [
  | inl miss ↦ rw (strip_dirs, miss, elsewhere d p rel h miss) (strip_dirs-contains d rel h ds)
  | inr (r, hit) ↦
      rw
        (
          strip_dirs,
          hit,
          same_below d p r rel hit,
          contains-insert rel r (strip_dirs (d ++ slash ∷ []) ds),
          strip_dirs-contains d rel h ds,
        )
        refl
]

-- `s` is the part of `r` below the directory `d`, and `r` has no other directory at its top.
pub record IsStripped (d : Bytes) (r s : ExtractedRepo) : Type 0 where
  pub files : (rel : Bytes) → rel ≢ [] → get rel s.files ≡ get (d ++ slash ∷ rel) r.files
  pub dirs : (rel : Bytes) → rel ≢ [] → contains rel s.dirs ≡ contains (d ++ slash ∷ rel) r.dirs
  pub tops : dir_tops (file_tops r.files) r.dirs ≡ d ∷ []

strip_by-IsStripped :
    (r s : ExtractedRepo) (tops : List Bytes)
    → dir_tops (file_tops r.files) r.dirs ≡ tops
    → strip_by r tops ≡ ok s
    → (d : Bytes) × IsStripped d r s
unfolding strip_by
strip_by-IsStripped r s [] e h = absurd (cc h)
strip_by-IsStripped r s (d ∷ []) e h =
    let prefix = d ++ slash ∷ [] in
    let stripped : ExtractedRepo = record {
      files = strip_files prefix r.files;
      dirs = strip_dirs prefix r.dirs;
    } in
    let same : stripped ≡ s = cc h in
    (
      d,
      subst (λ t. IsStripped d r t) same
          (record {
            files = λ rel filled. strip_files-get d rel filled r.files;
            dirs = λ rel filled. strip_dirs-contains d rel filled r.dirs;
            tops = e;
          }),
    )
strip_by-IsStripped r s (d ∷ d' ∷ ds) e h = absurd (cc h)

-- Removing the top-level directory succeeds only if there is exactly one, and then looking a path up,
-- as a file or as a directory, gives what looking it up below that directory gave before.
pub strip_top_level_dir-IsStripped :
    (r s : ExtractedRepo) → strip_top_level_dir r ≡ ok s → (d : Bytes) × IsStripped d r s
unfolding strip_top_level_dir
strip_top_level_dir-IsStripped r s h =
    strip_by-IsStripped r s (dir_tops (file_tops r.files) r.dirs) refl h
