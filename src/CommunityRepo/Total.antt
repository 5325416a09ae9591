-- ===== src/CommunityRepo/Total.antt =====
-- `extractTarGz`: the limit on the bytes that an archive declares in total.
use homeassistant_operator.Prelude.{
  ℕ, ◌+◌, ◌^◌, ◌≤◌, ◌<◌, ◌*◌, ◌≡◌, refl, sym, ap, ◌∙◌, true, false, List, [], ◌∷◌, arith, ltb, All,
  Bool-cases, Option-cases, inl, inr,
}
use homeassistant_operator.GoPath.{Bytes}
use homeassistant_operator.CommunityRepo.{
  FileEntry, ExtractedRepo, Kind, directory, regular, special, Header, Item, header, broken, ok,
  take, Progress, start, add_file, add_dir, keep_content, regular_file, by_kind, extract_entry,
  extract_from, extract_tar, safe_name, ◌>>=◌, Fetched-cases, Kind-cases, max_retained_entry_bytes,
  max_retained_total_bytes, max_extracted_entries, max_extracted_total_bytes, exceeds, is_negative,
  add_int64,
}

-- The size that a regular file declares, and the sum over an archive, as numbers that do not wrap.
abbrev pub declared_by : Kind → ℕ → ℕ
declared_by directory size = 0
declared_by regular size = size
declared_by special size = 0

abbrev pub declared : Item → ℕ
declared broken = 0
declared (header h) = declared_by h.kind h.size

abbrev pub declared_total : List Item → ℕ
declared_total [] = 0
declared_total (i ∷ items) = declared i + declared_total items

-- After an entry that declares `n` bytes: the counter has them all, within the limit.
record IsCounted (n : ℕ) (p q : Progress) : Type 0 where
  added : q.total_bytes ≡ p.total_bytes + n
  within : q.total_bytes ≤ max_extracted_total_bytes

keep_content-total :
    (name : Bytes) (h : Header) (p q : Progress)
    → keep_content name h p ≡ ok q
    → q.total_bytes ≡ p.total_bytes
unfolding keep_content add_file
keep_content-total name h p q e =
    elim (Bool-cases (exceeds p.retained_bytes max_retained_total_bytes)) [
      | inl over ↦ absurd (cc (rw (over, keep_content) at e))
      | inr within ↦ elim (Option-cases (take h.size h.body)) [
        | inl short ↦ absurd (cc (rw (within, short, keep_content) at e))
        | inr (content, full) ↦
            let entry : FileEntry = record { content = content; retained = true; size = h.size } in
            let kept : add_file name entry p ≡ q = cc (rw (within, full, keep_content) at e) in
            ap (λ r. r.total_bytes) (sym kept)
      ]
    ]

-- The sum of a counter within the limit and a size below 2 ^ 62 does not wrap.
count_exact :
    (t n : ℕ)
    → t ≤ max_extracted_total_bytes
    → n < 2 ^ 62
    → exceeds (add_int64 t n) max_extracted_total_bytes ≡ false
    → (add_int64 t n ≡ t + n) × (add_int64 t n ≤ max_extracted_total_bytes)
unfolding exceeds is_negative
count_exact t n small fits within =
    let exact : add_int64 t n ≡ t + n = omega arith in (exact, ground (arith, exact))

regular_file-total :
    (name : Bytes) (h : Header) (p q : Progress)
    → p.total_bytes ≤ max_extracted_total_bytes
    → h.size < 2 ^ 62
    → regular_file name h p ≡ ok q
    → IsCounted h.size p q
unfolding regular_file add_file
regular_file-total name h p q small fits e = elim (Bool-cases (is_negative h.size)) [
  | inl neg ↦ absurd (cc (rw (neg, regular_file) at e))
  | inr pos ↦
      elim (Bool-cases (exceeds (add_int64 p.total_bytes h.size) max_extracted_total_bytes)) [
        | inl over ↦ absurd (cc (rw (pos, over, regular_file) at e))
        | inr within ↦
            let (exact, limited) = count_exact p.total_bytes h.size small fits within in
            let total : q.total_bytes ≡ add_int64 p.total_bytes h.size =
              elim (Bool-cases (exceeds h.size max_retained_entry_bytes)) [
                | inl large ↦
                    let p' = record p { total_bytes = add_int64 p.total_bytes h.size } in
                    let entry : FileEntry = record {
                      content = [];
                      retained = false;
                      size = h.size;
                    } in
                    let same : add_file name entry p' ≡ q =
                      cc (rw (pos, within, large, regular_file) at e) in
                    ap (λ r. r.total_bytes) (sym same)
                | inr little ↦
                    keep_content-total name h _ q (rw (pos, within, little, regular_file) at e)
              ] in
            record { added = total ∙ exact; within = rw total limited }
      ]
]

by_kind-total :
    (name : Bytes) (h : Header) (p q : Progress)
    → p.total_bytes ≤ max_extracted_total_bytes
    → h.size < 2 ^ 62
    → by_kind name h p ≡ ok q
    → IsCounted (declared_by h.kind h.size) p q
unfolding by_kind add_dir
by_kind-total name h p q small fits e = elim (Kind-cases h.kind) [
  | inl folder ↦
      let same : add_dir name p ≡ q = cc (rw (folder, by_kind) at e) in
      let total : q.total_bytes ≡ p.total_bytes = ap (λ r. r.total_bytes) (sym same) in
      rw folder (record { added = omega (arith, total); within = omega (arith, total) })
  | inr (inl file) ↦ rw file (regular_file-total name h p q small fits (rw (file, by_kind) at e))
  | inr (inr other) ↦
      let same : p ≡ q = cc (rw (other, by_kind) at e) in
      let total : q.total_bytes ≡ p.total_bytes = ap (λ r. r.total_bytes) (sym same) in
      rw other (record { added = omega (arith, total); within = omega (arith, total) })
]

abbrev size_of : Item → ℕ
size_of broken = 0
size_of (header h) = h.size

extract_entry-total :
    (i : Item) (p q : Progress)
    → p.total_bytes ≤ max_extracted_total_bytes
    → size_of i < 2 ^ 62
    → extract_entry i p ≡ ok q
    → IsCounted (declared i) p q
unfolding extract_entry
extract_entry-total broken p q small fits e = absurd (cc e)
extract_entry-total (header h) p q small fits e =
    elim (Bool-cases (ltb max_extracted_entries (p.entry_count + 1))) [
      | inl many ↦ absurd (cc (rw (many, extract_entry) at e))
      | inr few ↦ elim (Option-cases (safe_name h.name)) [
        | inl unsafe ↦ absurd (cc (rw (few, unsafe, extract_entry) at e))
        | inr (name, safe) ↦
            let c =
              by_kind-total name h (record p { entry_count = p.entry_count + 1 }) q small fits
                (rw (few, safe, extract_entry) at e) in
            record { added = c.added; within = c.within }
      ]
    ]

extract_from-total :
    (items : List Item) (p q : Progress)
    → p.total_bytes ≤ max_extracted_total_bytes
    → All (λ i. size_of i < 2 ^ 62) items
    → extract_from p items ≡ ok q
    → p.total_bytes + declared_total items ≤ max_extracted_total_bytes
unfolding extract_from
extract_from-total [] p q small fits e = omega arith
extract_from-total (i ∷ rest) p q small fits e = elim (Fetched-cases (extract_entry i p)) [
  | inl (_, bad) ↦ absurd (cc (rw (bad, ◌>>=◌) at e))
  | inr (p', good) ↦
      let c = extract_entry-total i p p' small fits.0 good in
      let rest_total = extract_from-total rest p' q c.within fits.1 (rw (good, ◌>>=◌) at e) in
      omega (arith, c.added, rest_total)
]

-- An archive that is extracted successfully declares at most 100 MiB of regular files in total, if
-- every size in its headers is below 2 ^ 62.
pub extract_tar-total :
    (items : List Item) (repo : ExtractedRepo)
    → All (λ i. size_of i < 2 ^ 62) items
    → extract_tar items ≡ ok repo
    → declared_total items ≤ 100 * 1024 * 1024
unfolding extract_tar
extract_tar-total items repo fits e = elim (Fetched-cases (extract_from start items)) [
  | inl (_, bad) ↦ absurd (cc (rw (bad, ◌>>=◌) at e))
  | inr (p, good) ↦ omega (arith, extract_from-total items start p (omega arith) fits good)
]

sum_wraps :
    (t n : ℕ)
    → n < 2 ^ 63
    → t < 2 ^ 63
    → 2 ^ 63 ≤ t + n
    → (is_negative (add_int64 t n) ≡ true)
      × (exceeds (add_int64 t n) max_extracted_total_bytes ≡ false)
unfolding exceeds is_negative
sum_wraps t n a b c =
    let exact : add_int64 t n ≡ t + n = omega arith in
    (ground (arith, exact), ground (arith, exact))

not_negative : (n : ℕ) → n < 2 ^ 63 → is_negative n ≡ false
unfolding is_negative
not_negative n h = ground arith

is_large :
    (n : ℕ) → n < 2 ^ 63 → max_retained_entry_bytes < n → exceeds n max_retained_entry_bytes ≡ true
unfolding exceeds is_negative
is_large n fits large = ground arith

-- A regular file of more than 1 MiB is added, and no limit stops it, if its size carries the sum of
-- the sizes to 2 ^ 63 or beyond: the sum is then negative as an `int64`.
pub regular_file-wraps :
    (name : Bytes) (h : Header) (p : Progress)
    → h.size < 2 ^ 63
    → max_retained_entry_bytes < h.size
    → p.total_bytes < 2 ^ 63
    → 2 ^ 63 ≤ p.total_bytes + h.size
    → (q : Progress) × (regular_file name h p ≡ ok q) × (is_negative q.total_bytes ≡ true)
unfolding regular_file add_file
regular_file-wraps name h p fits large small over =
    let n = add_int64 p.total_bytes h.size in
    let (negative, uncaught) = sum_wraps p.total_bytes h.size fits small over in
    let entry : FileEntry = record { content = []; retained = false; size = h.size } in
    (
      add_file name entry (record p { total_bytes = n }),
      rw (regular_file, not_negative h.size fits, uncaught, is_large h.size fits large) refl,
      negative,
    )
