-- ===== src/CommunityRepo/Bounds.antt =====
-- How much memory an extracted archive takes.
use homeassistant_operator.Prelude.{
  ℕ, ◌+◌, ◌≤◌, ◌*◌, ◌≡◌, refl, true, false, List, [], ◌∷◌, arith, ltb, length, All, Bool-cases,
  Option-cases, inl, inr,
}
use homeassistant_operator.GoPath.{Bytes}
use homeassistant_operator.CommunityRepo.{
  FileEntry, ExtractedRepo, Header, Item, header, broken, ok, take, Progress, start, add_file,
  add_dir, keep_content, regular_file, by_kind, extract_entry, extract_from, extract_tar, safe_name,
  ◌>>=◌, Fetched-cases, Kind-cases, max_retained_entry_bytes, max_retained_total_bytes,
  max_extracted_entries, max_extracted_total_bytes, exceeds, is_negative, add_int64,
}
use homeassistant_operator.CommunityRepo.Room.{
  held, length-take, IsBounded, HasRoom, add_file-IsBounded, IsCounted, room_of_count,
}

keep_content-IsBounded :
    (name : Bytes) (h : Header) (p q : Progress)
    → IsCounted h.size p
    → h.size ≤ max_retained_entry_bytes
    → keep_content name h p ≡ ok q
    → IsBounded q
unfolding keep_content
keep_content-IsBounded name h p q c fits e =
    elim (Bool-cases (exceeds p.retained_bytes max_retained_total_bytes)) [
      | inl over ↦ absurd (cc (rw (over, keep_content) at e))
      | inr within ↦ elim (Option-cases (take h.size h.body)) [
        | inl short ↦ absurd (cc (rw (within, short, keep_content) at e))
        | inr (content, full) ↦
            let same = rw (within, full, keep_content) at e in
            let n : length content ≡ h.size = length-take h.size h.body content full in
            let entry : FileEntry = record { content = content; retained = true; size = h.size } in
            let kept : add_file name entry p ≡ q = cc same in
            rw kept at (
              add_file-IsBounded name entry p (rw (← n) at (room_of_count h.size p within c))
                (rw (← n) at fits))
      ]
    ]

skip_content-IsBounded :
    (name : Bytes) (size : ℕ) (p : Progress)
    → HasRoom 0 p
    → IsBounded (add_file name (record { content = []; retained = false; size = size }) p)
skip_content-IsBounded name size p room =
    add_file-IsBounded name (record { content = []; retained = false; size = size }) p room
      (omega arith)

count_small :
    (h : Header) (p : Progress) (total : ℕ)
    → HasRoom 0 p
    → h.size ≤ max_retained_entry_bytes
    → IsCounted h.size
        (record p { total_bytes = total; retained_bytes = add_int64 p.retained_bytes h.size })
count_small h p total room fits = record {
  held_counted = omega arith;
  no_overflow = omega arith;
  files_counted = room.files_counted;
  entries_bounded = room.entries_bounded;
  small = room.small;
}

not_large :
    (n : ℕ)
    → is_negative n ≡ false
    → exceeds n max_retained_entry_bytes ≡ false
    → n ≤ max_retained_entry_bytes
unfolding exceeds
not_large n a b = ground arith

regular_file-IsBounded :
    (name : Bytes) (h : Header) (p q : Progress)
    → HasRoom 0 p
    → regular_file name h p ≡ ok q
    → IsBounded q
unfolding regular_file
regular_file-IsBounded name h p q room e = elim (Bool-cases (is_negative h.size)) [
  | inl neg ↦ absurd (cc (rw (neg, regular_file) at e))
  | inr pos ↦
      elim (Bool-cases (exceeds (add_int64 p.total_bytes h.size) max_extracted_total_bytes)) [
        | inl over ↦ absurd (cc (rw (pos, over, regular_file) at e))
        | inr within ↦ elim (Bool-cases (exceeds h.size max_retained_entry_bytes)) [
          | inl large ↦
              let p' = record p { total_bytes = add_int64 p.total_bytes h.size } in
              let room' : HasRoom 0 p' = record {
                held_counted = room.held_counted;
                retained_bounded = room.retained_bounded;
                files_counted = room.files_counted;
                entries_bounded = room.entries_bounded;
                small = room.small;
              } in
              let same : add_file name (record { content = []; retained = false; size = h.size }) p'
                  ≡ q =
                cc (rw (pos, within, large, regular_file) at e) in
              rw same at (skip_content-IsBounded name h.size p' room')
          | inr small ↦
              let fits = not_large h.size pos small in
              keep_content-IsBounded name h _ q
                (count_small h p (add_int64 p.total_bytes h.size) room fits) fits
                (rw (pos, within, small, regular_file) at e)
        ]
      ]
]

unchanged-IsBounded :
    (p q : Progress)
    → q.repo.files ≡ p.repo.files
    → q.retained_bytes ≡ p.retained_bytes
    → q.entry_count ≡ p.entry_count
    → HasRoom 0 p
    → IsBounded q
unchanged-IsBounded p q files retained count room = record {
  held_counted = rw (files, retained) (omega arith);
  retained_bounded = rw retained room.retained_bounded;
  files_counted = rw (files, count) (omega arith);
  entries_bounded = rw count room.entries_bounded;
  small = rw files room.small;
}

by_kind-IsBounded :
    (name : Bytes) (h : Header) (p q : Progress)
    → HasRoom 0 p
    → by_kind name h p ≡ ok q
    → IsBounded q
unfolding by_kind add_dir
by_kind-IsBounded name h p q room e = elim (Kind-cases h.kind) [
  | inl folder ↦
      let same : add_dir name p ≡ q = cc (rw (folder, by_kind) at e) in
      rw same at (unchanged-IsBounded p (add_dir name p) refl refl refl room)
  | inr (inl file) ↦ regular_file-IsBounded name h p q room (rw (file, by_kind) at e)
  | inr (inr other) ↦
      let same : p ≡ q = cc (rw (other, by_kind) at e) in
      rw same at (unchanged-IsBounded p p refl refl refl room)
]

extract_entry-IsBounded :
    (i : Item) (p q : Progress) → IsBounded p → extract_entry i p ≡ ok q → IsBounded q
unfolding extract_entry
extract_entry-IsBounded broken p q b e = absurd (cc e)
extract_entry-IsBounded (header h) p q b e =
    elim (Bool-cases (ltb max_extracted_entries (p.entry_count + 1))) [
      | inl many ↦ absurd (cc (rw (many, extract_entry) at e))
      | inr few ↦ elim (Option-cases (safe_name h.name)) [
        | inl unsafe ↦ absurd (cc (rw (few, unsafe, extract_entry) at e))
        | inr (name, safe) ↦
            by_kind-IsBounded name h (record p { entry_count = p.entry_count + 1 }) q
              (record {
                held_counted = omega arith;
                retained_bounded = b.retained_bounded;
                files_counted = omega arith;
                entries_bounded = ground arith;
                small = b.small;
              })
              (rw (few, safe, extract_entry) at e)
      ]
    ]

extract_from-IsBounded :
    (items : List Item) (p q : Progress) → IsBounded p → extract_from p items ≡ ok q → IsBounded q
unfolding extract_from
extract_from-IsBounded [] p q b e = let same : p ≡ q = cc e in rw same at b
extract_from-IsBounded (i ∷ rest) p q b e = elim (Fetched-cases (extract_entry i p)) [
  | inl (_, bad) ↦ absurd (cc (rw (bad, ◌>>=◌) at e))
  | inr (p', good) ↦
      extract_from-IsBounded rest p' q (extract_entry-IsBounded i p p' b good)
        (rw (good, ◌>>=◌) at e)
]

-- Every archive that is extracted successfully is held in at most 32 MiB of file content: no file
-- holds more than 1 MiB, and there are at most 20000 files. This is so for any archive, whatever
-- sizes its headers declare.
pub extract_tar_bounds :
    (items : List Item) (repo : ExtractedRepo)
    → extract_tar items ≡ ok repo
    → (held repo.files ≤ 32 * 1024 * 1024)
      × (length repo.files ≤ 20000)
      × All (λ f. length f.1.content ≤ 1024 * 1024) repo.files
unfolding extract_tar
extract_tar_bounds items repo e = elim (Fetched-cases (extract_from start items)) [
  | inl (_, bad) ↦ absurd (cc (rw (bad, ◌>>=◌) at e))
  | inr (p, good) ↦
      let b =
        extract_from-IsBounded items start p
          (record {
            held_counted = omega arith;
            retained_bounded = omega arith;
            files_counted = omega arith;
            entries_bounded = omega arith;
            small = tt;
          })
          good in
      let same : p.repo ≡ repo = cc (rw (good, ◌>>=◌) at e) in
      rw (← same) (
        omega (arith, b.held_counted, b.retained_bounded),
        omega (arith, b.files_counted, b.entries_bounded),
        b.small,
      )
]
