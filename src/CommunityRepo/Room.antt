-- ===== src/CommunityRepo/Room.antt =====
-- The counters of `extractTarGz`, and the content that they count.
use homeassistant_operator.Prelude.{
  ℕ, zero, suc, ◌+◌, ◌^◌, ◌≤◌, ◌<◌, ◌≡◌, false, some, List, [], ◌∷◌, arith, length, All, Bool-cases,
  Option-cases, inl, inr,
}
use homeassistant_operator.GoPath.{Bytes, bytes_eq}
use homeassistant_operator.CommunityRepo.{
  FileEntry, put, take, Progress, add_file, max_retained_entry_bytes, max_retained_total_bytes,
  max_extracted_entries, exceeds,
}

-- The bytes of content that a repository holds.
abbrev pub held : List (Bytes × FileEntry) → ℕ
held [] = 0
held ((_, e) ∷ m) = length e.content + held m

abbrev pub IsSmall : Bytes × FileEntry → Type 0
IsSmall (_, e) = length e.content ≤ max_retained_entry_bytes

pub held-put :
    (k : Bytes) (e : FileEntry) (m : List (Bytes × FileEntry))
    → held (put k e m) ≤ length e.content + held m
unfolding put
held-put k e [] = omega arith
held-put k e ((j, d) ∷ m) = ground (arith, held-put k e m)

pub length-put :
    (k : Bytes) (e : FileEntry) (m : List (Bytes × FileEntry)) → length (put k e m) ≤ length m + 1
unfolding put
length-put k e [] = omega arith
length-put k e ((j, d) ∷ m) = ground (arith, length-put k e m)

IsSmall-put :
    (k : Bytes) (e : FileEntry) (m : List (Bytes × FileEntry))
    → length e.content ≤ max_retained_entry_bytes
    → All IsSmall m
    → All IsSmall (put k e m)
unfolding put
IsSmall-put k e [] h a = (h, tt)
IsSmall-put k e ((j, d) ∷ m) h a = elim (Bool-cases (bytes_eq j k)) [
  | inl same ↦ rw same (h, a.1)
  | inr differs ↦ rw differs (a.0, IsSmall-put k e m h a.1)
]

pub length-take : (n : ℕ) (s t : Bytes) → take n s ≡ some t → length t ≡ n
length-take zero s t h = ground arith
length-take (suc n) [] t h = cc
length-take (suc n) (c ∷ s) t h = elim (Option-cases (take n s)) [
  | inl short ↦ absurd (cc (rw (short, take) at h))
  | inr (u, full) ↦ ground (arith, length-take n s u full, full)
]

-- The counters of the loop, and what they count.
pub record IsBounded (p : Progress) : Type 0 where
  pub held_counted : held p.repo.files ≤ p.retained_bytes
  pub retained_bounded : p.retained_bytes ≤ max_retained_total_bytes
  pub files_counted : length p.repo.files ≤ p.entry_count
  pub entries_bounded : p.entry_count ≤ max_extracted_entries
  pub small : All IsSmall p.repo.files

-- The same before a file with `n` bytes of content is added.
pub record HasRoom (n : ℕ) (p : Progress) : Type 0 where
  pub held_counted : held p.repo.files + n ≤ p.retained_bytes
  pub retained_bounded : p.retained_bytes ≤ max_retained_total_bytes
  pub files_counted : length p.repo.files + 1 ≤ p.entry_count
  pub entries_bounded : p.entry_count ≤ max_extracted_entries
  pub small : All IsSmall p.repo.files

pub add_file-IsBounded :
    (name : Bytes) (e : FileEntry) (p : Progress)
    → HasRoom (length e.content) p
    → length e.content ≤ max_retained_entry_bytes
    → IsBounded (add_file name e p)
unfolding add_file
add_file-IsBounded name e p room fits = record {
  held_counted = omega (arith, held-put name e p.repo.files);
  retained_bounded = room.retained_bounded;
  files_counted = omega (arith, length-put name e p.repo.files);
  entries_bounded = room.entries_bounded;
  small = IsSmall-put name e p.repo.files fits room.small;
}

-- Before the test of the counter.
pub record IsCounted (n : ℕ) (p : Progress) : Type 0 where
  pub held_counted : held p.repo.files + n ≤ p.retained_bytes
  pub no_overflow : p.retained_bytes < 2 ^ 63
  pub files_counted : length p.repo.files + 1 ≤ p.entry_count
  pub entries_bounded : p.entry_count ≤ max_extracted_entries
  pub small : All IsSmall p.repo.files

pub room_of_count :
    (n : ℕ) (p : Progress)
    → exceeds p.retained_bytes max_retained_total_bytes ≡ false
    → IsCounted n p
    → HasRoom n p
unfolding exceeds
room_of_count n p within c = record {
  held_counted = c.held_counted;
  retained_bounded = ground arith;
  files_counted = c.files_counted;
  entries_bounded = c.entries_bounded;
  small = c.small;
}
