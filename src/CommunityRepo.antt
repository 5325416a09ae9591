-- ===== src/CommunityRepo.antt =====
-- internal/communityrepo/fetch.go: a repository archive held in memory. The archive is the list of
-- what `tar.Reader.Next` returns; the download is one value, and the gzip layer is not modelled. An `int64` is its
-- bit pattern, a number below 2 ^ 64 that is negative from 2 ^ 63 on, and a map is an association
-- list, whose order stands for the order in which Go happens to iterate.
pub mod Room
pub mod Bounds
pub mod Tree
pub mod Parents
pub mod Local
pub mod Query
pub mod Fetch
pub mod Manifest
pub mod Keys
pub mod Names
pub mod Single
pub mod Found
pub mod Allowed
pub mod Lookup
pub mod Listing
pub mod Total
mod ManifestTests
mod Tests
use homeassistant_operator.Prelude.{
  ℕ, zero, suc, ◌+◌, ◌*◌, ◌%◌, ◌^◌, String, ◌≡◌, ◌⊎◌, refl, inl, inr, Bool, true, false, not, ◌&&◌,
  ◌||◌, Option, none, some, List, [], ◌∷◌, ◌++◌, ltb, leb, eqb, length, any, if◌then◌else◌,
}
use homeassistant_operator.GoPath.{
  Bytes, slash, dot, dot_dot, bytes_eq, cut_prefix, has_slash, before_slash, is_abs, clean, dir,
}

abbrev pub max_retained_entry_bytes : ℕ
max_retained_entry_bytes = 1 * 1024 * 1024

abbrev pub max_retained_total_bytes : ℕ
max_retained_total_bytes = 32 * 1024 * 1024

abbrev pub max_extracted_total_bytes : ℕ
max_extracted_total_bytes = 100 * 1024 * 1024

abbrev pub max_extracted_entries : ℕ
max_extracted_entries = 20000

pub record FileEntry : Type 0 where
  pub content : Bytes
  pub retained : Bool
  pub size : ℕ

pub record ExtractedRepo : Type 0 where
  pub files : List (Bytes × FileEntry)
  pub dirs : List Bytes

pub data Kind : Type 0 where
  directory regular special : Kind

pub Kind-cases : (k : Kind) → (k ≡ directory) ⊎ ((k ≡ regular) ⊎ (k ≡ special))
Kind-cases directory = inl refl
Kind-cases regular = inr (inl refl)
Kind-cases special = inr (inr refl)

-- A tar header, with the bytes that the reader yields for the entry.
pub record Header : Type 0 where
  pub name : Bytes
  pub kind : Kind
  pub size : ℕ
  pub body : Bytes

-- What a call of `Next` returns before the end of the archive.
pub data Item : Type 0 where
  header : Header → Item
  broken : Item

pub data FetchError : Type 0 where
  unreadable_entry too_many_entries too_large too_much_retained : FetchError
  escapes negative_size short_read : Bytes → FetchError
  request_failed bad_gzip : FetchError
  repository_unreachable : ℕ → FetchError
  not_exist not_retained : Bytes → FetchError
  top_level_dirs : ℕ → FetchError

pub data Fetched {ℓ} (A : Type ℓ) : Type ℓ where
  ok : A → Fetched A
  err : FetchError → Fetched A

pub Fetched-cases {ℓ} :
    {A : Type ℓ} (r : Fetched A) → ((e : FetchError) × (r ≡ err e)) ⊎ ((a : A) × (r ≡ ok a))
Fetched-cases (err e) = inl (e, refl)
Fetched-cases (ok a) = inr (a, refl)

-- Addition and comparison of `int64`.
abbrev pub add_int64 : ℕ → ℕ → ℕ
add_int64 a b = (a + b) % 2 ^ 64

unfoldable pub is_negative : ℕ → Bool
is_negative a = leb (2 ^ 63) a

-- `a > b` for a `b` that is not negative
unfoldable pub exceeds : ℕ → ℕ → Bool
unfolding is_negative
exceeds a b = not (is_negative a) && ltb b a

module _ {ℓ} {V : Type ℓ} where
  unfoldable pub get : Bytes → List (Bytes × V) → Option V
  get key [] = none
  get key ((k, v) ∷ m) = if bytes_eq k key then some v else get key m

  unfoldable pub put : Bytes → V → List (Bytes × V) → List (Bytes × V)
  put key v [] = (key, v) ∷ []
  put key v ((k, u) ∷ m) = if bytes_eq k key then (key, v) ∷ m else (k, u) ∷ put key v m

abbrev pub contains : Bytes → List Bytes → Bool
contains d ds = any (λ x. bytes_eq x d) ds

unfoldable pub insert : Bytes → List Bytes → List Bytes
insert d ds = if contains d ds then ds else d ∷ ds

-- The loop of `markParentDirs`, on fuel: each round takes the directory of the directory.
pub mark_from : ℕ → List Bytes → Bytes → List Bytes
mark_from zero ds d = ds
mark_from (suc fuel) ds d =
    let more = mark_from fuel (d ∷ ds) (dir d) in
    if bytes_eq d dot || bytes_eq d (slash ∷ []) || bytes_eq d []
    then ds
    else if contains d ds
    then ds
    else more

pub mark_parent_dirs : List Bytes → Bytes → List Bytes
unfolding mark_from
mark_parent_dirs ds p = mark_from (length p) ds (dir p)

-- The variables of the loop of `extractTarGz`.
pub record Progress : Type 0 where
  pub repo : ExtractedRepo
  pub total_bytes : ℕ
  pub retained_bytes : ℕ
  pub entry_count : ℕ

abbrev pub start : Progress
start = record {
  repo = record { files = []; dirs = [] };
  total_bytes = 0;
  retained_bytes = 0;
  entry_count = 0;
}

abbrev take : ℕ → Bytes → Option Bytes
take zero s = some []
take (suc n) [] = none
take (suc n) (c ∷ s) = elim (take n s) [ none ↦ none | some t ↦ some (c ∷ t) ]

-- The cleaned name of an entry, unless it leads out of the archive.
pub safe_name : Bytes → Option Bytes
safe_name name =
    let n = clean name in
    if bytes_eq n dot_dot then none else elim (cut_prefix (46 ∷ 46 ∷ slash ∷ []) n) [
      | some _ ↦ none
      | none ↦ if is_abs n then none else some n
    ]

pub add_file : Bytes → FileEntry → Progress → Progress
add_file name e p = record p {
  repo = record { files = put name e p.repo.files; dirs = mark_parent_dirs p.repo.dirs name };
}

add_dir : Bytes → Progress → Progress
add_dir name p = record p {
  repo = record { files = p.repo.files; dirs = mark_parent_dirs (insert name p.repo.dirs) name };
}

-- A small file is read in full; `io.ReadFull` fails if the reader yields too few bytes.
keep_content : Bytes → Header → Progress → Fetched Progress
unfolding add_file
keep_content name h p =
    if exceeds p.retained_bytes max_retained_total_bytes
    then err too_much_retained
    else elim (take h.size h.body) [
      | none ↦ err (short_read h.name)
      | some content ↦
          ok (add_file name (record { content = content; retained = true; size = h.size }) p)
    ]

-- The case `tar.TypeReg`.
unfoldable pub regular_file : Bytes → Header → Progress → Fetched Progress
unfolding keep_content
regular_file name h p =
    if is_negative h.size
    then err (negative_size h.name)
    else let p' = record p { total_bytes = add_int64 p.total_bytes h.size } in
      if exceeds p'.total_bytes max_extracted_total_bytes
      then err too_large
      else if exceeds h.size max_retained_entry_bytes
      then ok (add_file name (record { content = []; retained = false; size = h.size }) p')
      else keep_content name h (record p' { retained_bytes = add_int64 p.retained_bytes h.size })

by_kind : Bytes → Header → Progress → Fetched Progress
unfolding regular_file add_dir
by_kind name h p = elim h.kind [
  | directory ↦ ok (add_dir name p)
  | regular ↦ regular_file name h p
  | special ↦ ok p
]

-- One round of the loop of `extractTarGz`.
pub extract_entry : Item → Progress → Fetched Progress
unfolding by_kind safe_name
extract_entry broken p = err unreadable_entry
extract_entry (header h) p =
    let p' = record p { entry_count = p.entry_count + 1 } in
    if ltb max_extracted_entries p'.entry_count
    then err too_many_entries
    else elim (safe_name h.name) [ none ↦ err (escapes h.name) | some name ↦ by_kind name h p' ]

infixl 5 ◌>>=◌
abbrev pub ◌>>=◌ {ℓ κ} : {A : Type ℓ} {B : Type κ} → Fetched A → (A → Fetched B) → Fetched B
ok a >>= f = f a
err e >>= f = err e

pub extract_from : Progress → List Item → Fetched Progress
extract_from p [] = ok p
extract_from p (i ∷ rest) = do p' ← extract_entry i p; extract_from p' rest

pub extract_tar : List Item → Fetched ExtractedRepo
unfolding extract_from
extract_tar items = do p ← extract_from start items; ok p.repo
