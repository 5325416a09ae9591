-- ===== src/CommunityRepo/Listing.antt =====
-- `ReadDir`: which names it lists.
use mathlib.Core.Path.{subst}
use homeassistant_operator.Prelude.{
  ◌≡◌, refl, sym, ap, ◌∙◌, inl, inr, Bool, true, false, not, ◌&&◌, ◌||◌, Option, none, some, List,
  [], ◌∷◌, ◌++◌, arith, any, Bool-cases, Option-cases, if◌then◌else◌,
}
use homeassistant_operator.GoPath.{Bytes, dot, bytes_eq, bytes_eq_iff, clean}
use homeassistant_operator.CommunityRepo.{FileEntry, ExtractedRepo, ok, contains}
use homeassistant_operator.CommunityRepo.Query.{
  DirEntry, direct_child, listed, add_once, list_files, list_dirs, list_root_as_empty, read_dir,
}

-- Whether the path `p` lies directly in the directory `d` under this name.
abbrev pub is_child : Bytes → Bytes → Bytes → Bool
is_child d name p = elim (direct_child d p) [ none ↦ false | some n ↦ bytes_eq n name ]

or-false : (a : Bool) → (a || false) ≡ a
or-false true = refl
or-false false = refl

listed-append :
    (name n : Bytes) (b : Bool) (es : List DirEntry)
    → listed name (es ++ record { name = n; is_dir = b } ∷ []) ≡ (listed name es || bytes_eq n name)
unfolding listed
listed-append name n b [] = ground arith
listed-append name n b (e ∷ es) = ground (arith, listed-append name n b es)

already_listed :
    (name n : Bytes) (es : List DirEntry)
    → listed n es ≡ true
    → listed name es ≡ (listed name es || bytes_eq n name)
already_listed name n es here = elim (Bool-cases (bytes_eq n name)) [
  | inl same ↦
      let found = subst (λ t. listed t es ≡ true) ((bytes_eq_iff n name).0 same) here in
      rw (same, found) refl
  | inr differs ↦ rw differs (sym (or-false (listed name es)))
]

listed-add_once :
    (d name p : Bytes) (b : Bool) (es : List DirEntry)
    → listed name (add_once b (direct_child d p) es) ≡ (listed name es || is_child d name p)
unfolding add_once
listed-add_once d name p b es = elim (Option-cases (direct_child d p)) [
  | inl other ↦ rw (add_once, other) (ground arith)
  | inr (n, child) ↦ elim (Bool-cases (listed n es)) [
    | inl here ↦ rw (add_once, is_child, child, here) (already_listed name n es here)
    | inr missing ↦ rw (add_once, is_child, child, missing) (listed-append name n b es)
  ]
]

or_assoc : (a b c : Bool) → ((a || b) || c) ≡ (a || (b || c))
or_assoc true b c = refl
or_assoc false b c = refl

listed-list_files :
    (d name : Bytes) (m : List (Bytes × FileEntry)) (es : List DirEntry)
    → listed name (list_files d m es) ≡ (listed name es || any (λ f. is_child d name f.0) m)
unfolding list_files
listed-list_files d name [] es = sym (or-false (listed name es))
listed-list_files d name ((p, e) ∷ m) es =
    listed-list_files d name m (add_once false (direct_child d p) es)
    ∙ ap (λ b. b || any (λ f. is_child d name f.0) m) (listed-add_once d name p false es)
    ∙ or_assoc (listed name es) (is_child d name p) (any (λ f. is_child d name f.0) m)

listed-list_dirs :
    (d name : Bytes) (ds : List Bytes) (es : List DirEntry)
    → listed name (list_dirs d ds es) ≡ (listed name es || any (λ p. is_child d name p) ds)
unfolding list_dirs
listed-list_dirs d name [] es = sym (or-false (listed name es))
listed-list_dirs d name (p ∷ ds) es =
    listed-list_dirs d name ds (add_once true (direct_child d p) es)
    ∙ ap (λ b. b || any (λ q. is_child d name q) ds) (listed-add_once d name p true es)
    ∙ or_assoc (listed name es) (is_child d name p) (any (λ q. is_child d name q) ds)

-- No two entries have one name.
abbrev pub AreOnce : List DirEntry → Type 0
AreOnce [] = Unit
AreOnce (e ∷ es) = (listed e.name es ≡ false) × AreOnce es

AreOnce-append :
    (n : Bytes) (b : Bool) (es : List DirEntry)
    → listed n es ≡ false
    → AreOnce es
    → AreOnce (es ++ record { name = n; is_dir = b } ∷ [])
unfolding listed
AreOnce-append n b [] h a = (refl, tt)
AreOnce-append n b (e ∷ es) h a = (
  listed-append e.name n b es ∙ ground (arith, a.0, bytes_eq_iff n e.name, bytes_eq_iff e.name n),
  AreOnce-append n b es (ground arith) a.1,
)

add_once-AreOnce :
    (b : Bool) (o : Option Bytes) (es : List DirEntry) → AreOnce es → AreOnce (add_once b o es)
unfolding add_once
add_once-AreOnce b none es a = a
add_once-AreOnce b (some n) es a = elim (Bool-cases (listed n es)) [
  | inl here ↦ rw here a
  | inr missing ↦ rw missing (AreOnce-append n b es missing a)
]

list_files-AreOnce :
    (d : Bytes) (m : List (Bytes × FileEntry)) (es : List DirEntry)
    → AreOnce es
    → AreOnce (list_files d m es)
unfolding list_files
list_files-AreOnce d [] es a = a
list_files-AreOnce d ((p, e) ∷ m) es a =
    list_files-AreOnce d m (add_once false (direct_child d p) es)
      (add_once-AreOnce false (direct_child d p) es a)

list_dirs-AreOnce :
    (d : Bytes) (ds : List Bytes) (es : List DirEntry) → AreOnce es → AreOnce (list_dirs d ds es)
unfolding list_dirs
list_dirs-AreOnce d [] es a = a
list_dirs-AreOnce d (p ∷ ds) es a =
    list_dirs-AreOnce d ds (add_once true (direct_child d p) es)
      (add_once-AreOnce true (direct_child d p) es a)

-- The entries `es` are the names directly inside the directory `d`, each once.
pub record IsListing (r : ExtractedRepo) (d : Bytes) (es : List DirEntry) : Type 0 where
  pub lists :
      (name : Bytes)
      → listed name es
        ≡ (any (λ f. is_child d name f.0) r.files || any (λ p. is_child d name p) r.dirs)
  pub once : AreOnce es

list_dirs-IsListing :
    (r : ExtractedRepo) (d : Bytes) → IsListing r d (list_dirs d r.dirs (list_files d r.files []))
unfolding listed
list_dirs-IsListing r d = record {
  lists = λ name.
      listed-list_dirs d name r.dirs (list_files d r.files [])
      ∙ ap (λ b. b || any (λ p. is_child d name p) r.dirs) (listed-list_files d name r.files []);
  once = list_dirs-AreOnce d r.dirs (list_files d r.files []) (list_files-AreOnce d r.files [] tt);
}

-- A directory that can be listed is listed completely: its entries are the names of the files and
-- directories directly inside it, and no name stands twice. The path "." or "" is the root.
pub read_dir-IsListing :
    (r : ExtractedRepo) (p : Bytes) (es : List DirEntry)
    → read_dir r p ≡ ok es
    → IsListing r (if bytes_eq (clean p) dot then [] else clean p) es
unfolding read_dir list_root_as_empty
read_dir-IsListing r p es h =
    let d = list_root_as_empty p in
    elim (Bool-cases (not (bytes_eq d []) && not (contains d r.dirs))) [
      | inl missing ↦ absurd (cc (rw (missing, read_dir) at h))
      | inr found ↦
          let same : list_dirs d r.dirs (list_files d r.files []) ≡ es =
            cc (rw (found, read_dir) at h) in
          subst (λ t. IsListing r d t) same (list_dirs-IsListing r d)
    ]
