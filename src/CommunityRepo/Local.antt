-- ===== src/CommunityRepo/Local.antt =====
-- The names of an extracted archive, and the directories above them.
use mathlib.Core.Path.{subst}
use homeassistant_operator.Prelude.{
  ◌+◌, ◌≡◌, inl, inr, true, false, some, List, [], ◌∷◌, All, Bool-cases, Option-cases, ltb,
}
use homeassistant_operator.GoPath.{Bytes, slash, dot_dot, bytes_eq, join, is_abs, clean, cut_prefix}
use homeassistant_operator.GoPath.Parts.{IsLocal, clean-IsLocal}
use homeassistant_operator.GoPath.Dirs.{snoc}
use homeassistant_operator.CommunityRepo.{
  FileEntry, ExtractedRepo, Header, Item, header, broken, ok, put, contains, insert,
  mark_parent_dirs, Progress, start, safe_name, add_file, add_dir, keep_content, regular_file,
  by_kind, extract_entry, extract_from, extract_tar, ◌>>=◌, Fetched-cases, Kind-cases,
  max_retained_entry_bytes, max_retained_total_bytes, max_extracted_entries,
  max_extracted_total_bytes, exceeds, is_negative, add_int64, take,
}
use homeassistant_operator.CommunityRepo.Tree.{contains-tail, contains-cons, IsClosed}
use homeassistant_operator.CommunityRepo.Parents.{HasParent, ClosedUpTo, mark-AreParents}

-- A repository whose paths stay inside it, and which lists every directory above a path.
pub record IsTree (r : ExtractedRepo) : Type 0 where
  pub local_files : All (λ f. IsLocal f.0) r.files
  pub local_dirs : All IsLocal r.dirs
  pub closed : IsClosed r.dirs
  pub parents : All (λ f. HasParent r.dirs f.0) r.files

All-put :
    (P : Bytes → Type 0) (k : Bytes) (e : FileEntry) (m : List (Bytes × FileEntry))
    → P k
    → All (λ f. P f.0) m
    → All (λ f. P f.0) (put k e m)
unfolding put
All-put P k e [] h a = (h, tt)
All-put P k e ((j, d) ∷ m) h a = elim (Bool-cases (bytes_eq j k)) [
  | inl same ↦ rw same (h, a.1)
  | inr differs ↦ rw differs (a.0, All-put P k e m h a.1)
]

HasParent-keeps :
    (ds rs : List Bytes)
    → ((x : Bytes) → contains x ds ≡ true → contains x rs ≡ true)
    → (m : List (Bytes × FileEntry)) → All (λ f. HasParent ds f.0) m
    → All (λ f. HasParent rs f.0) m
HasParent-keeps ds rs keeps [] a = tt
HasParent-keeps ds rs keeps ((k, e) ∷ m) a = (
  λ p ps q b h same. keeps (join (p ∷ ps)) (a.0 p ps q b h same),
  HasParent-keeps ds rs keeps m a.1,
)

add_file-IsTree :
    (name : Bytes) (e : FileEntry) (p : Progress)
    → IsLocal name
    → IsTree p.repo
    → IsTree (add_file name e p).repo
unfolding add_file
add_file-IsTree name e p local t =
    let m =
      mark-AreParents name p.repo.dirs local t.local_dirs
        (λ r rs q a h found. inl (t.closed r rs q a h found)) in
    let rs = mark_parent_dirs p.repo.dirs name in
    record {
      local_files = All-put IsLocal name e p.repo.files local t.local_files;
      local_dirs = m.local;
      closed = m.closed;
      parents =
          All-put (HasParent rs) name e p.repo.files m.parent
            (HasParent-keeps p.repo.dirs rs m.keeps p.repo.files t.parents);
    }

insert-ClosedUpTo :
    (name : Bytes) (ds : List Bytes) → IsClosed ds → ClosedUpTo name (insert name ds)
unfolding insert
insert-ClosedUpTo name ds c p ps q a h m = elim (Bool-cases (contains name ds)) [
  | inl here ↦ rw here (inl (c p ps q a h (rw here at m)))
  | inr missing ↦ elim (contains-cons (join (snoc (p ∷ ps) q)) name ds (rw missing at m)) [
    | inl same ↦ inr same
    | inr old ↦ rw missing (inl (contains-tail (join (p ∷ ps)) name ds (c p ps q a h old)))
  ]
]

insert-IsLocal :
    (name : Bytes) (ds : List Bytes) → IsLocal name → All IsLocal ds → All IsLocal (insert name ds)
unfolding insert
insert-IsLocal name ds h a = elim (Bool-cases (contains name ds)) [
  | inl here ↦ rw here a
  | inr missing ↦ rw missing (h, a)
]

insert-keeps :
    (name : Bytes) (ds : List Bytes) (x : Bytes)
    → contains x ds ≡ true
    → contains x (insert name ds) ≡ true
unfolding insert
insert-keeps name ds x h = elim (Bool-cases (contains name ds)) [
  | inl here ↦ rw here h
  | inr missing ↦ rw missing (contains-tail x name ds h)
]

add_dir-IsTree :
    (name : Bytes) (p : Progress) → IsLocal name → IsTree p.repo → IsTree (add_dir name p).repo
unfolding add_dir
add_dir-IsTree name p local t =
    let ds = insert name p.repo.dirs in
    let m =
      mark-AreParents name ds local (insert-IsLocal name p.repo.dirs local t.local_dirs)
        (insert-ClosedUpTo name p.repo.dirs t.closed) in
    record {
      local_files = t.local_files;
      local_dirs = m.local;
      closed = m.closed;
      parents =
          HasParent-keeps p.repo.dirs (mark_parent_dirs ds name)
            (λ x h. m.keeps x (insert-keeps name p.repo.dirs x h)) p.repo.files t.parents;
    }

pub safe_name-IsLocal : (s name : Bytes) → safe_name s ≡ some name → IsLocal name
unfolding safe_name
safe_name-IsLocal s name e = elim (Bool-cases (bytes_eq (clean s) dot_dot)) [
  | inl up ↦ absurd (cc (rw (up, safe_name) at e))
  | inr plain ↦ elim (Option-cases (cut_prefix (46 ∷ 46 ∷ slash ∷ []) (clean s))) [
    | inr (rest, up) ↦ absurd (cc (rw (plain, up, safe_name) at e))
    | inl inside ↦ elim (Bool-cases (is_abs (clean s))) [
      | inl root ↦ absurd (cc (rw (plain, inside, root, safe_name) at e))
      | inr relative ↦
          let same : clean s ≡ name = cc (rw (plain, inside, relative, safe_name) at e) in
          rw same at (clean-IsLocal s plain inside relative)
    ]
  ]
]

keep_content-IsTree :
    (name : Bytes) (h : Header) (p q : Progress)
    → IsLocal name
    → IsTree p.repo
    → keep_content name h p ≡ ok q
    → IsTree q.repo
unfolding keep_content
keep_content-IsTree name h p q local t e =
    elim (Bool-cases (exceeds p.retained_bytes max_retained_total_bytes)) [
      | inl over ↦ absurd (cc (rw (over, keep_content) at e))
      | inr within ↦ elim (Option-cases (take h.size h.body)) [
        | inl short ↦ absurd (cc (rw (within, short, keep_content) at e))
        | inr (content, full) ↦
            let entry : FileEntry = record { content = content; retained = true; size = h.size } in
            let kept : add_file name entry p ≡ q = cc (rw (within, full, keep_content) at e) in
            subst (λ r. IsTree r.repo) kept (add_file-IsTree name entry p local t)
      ]
    ]

regular_file-IsTree :
    (name : Bytes) (h : Header) (p q : Progress)
    → IsLocal name
    → IsTree p.repo
    → regular_file name h p ≡ ok q
    → IsTree q.repo
unfolding regular_file
regular_file-IsTree name h p q local t e = elim (Bool-cases (is_negative h.size)) [
  | inl neg ↦ absurd (cc (rw (neg, regular_file) at e))
  | inr pos ↦
      elim (Bool-cases (exceeds (add_int64 p.total_bytes h.size) max_extracted_total_bytes)) [
        | inl over ↦ absurd (cc (rw (pos, over, regular_file) at e))
        | inr within ↦ elim (Bool-cases (exceeds h.size max_retained_entry_bytes)) [
          | inl large ↦
              let p' = record p { total_bytes = add_int64 p.total_bytes h.size } in
              let entry : FileEntry = record { content = []; retained = false; size = h.size } in
              let same : add_file name entry p' ≡ q =
                cc (rw (pos, within, large, regular_file) at e) in
              subst (λ r. IsTree r.repo) same (add_file-IsTree name entry p' local t)
          | inr small ↦
              keep_content-IsTree name h _ q local t (rw (pos, within, small, regular_file) at e)
        ]
      ]
]

by_kind-IsTree :
    (name : Bytes) (h : Header) (p q : Progress)
    → IsLocal name
    → IsTree p.repo
    → by_kind name h p ≡ ok q
    → IsTree q.repo
unfolding by_kind
by_kind-IsTree name h p q local t e = elim (Kind-cases h.kind) [
  | inl folder ↦
      let same : add_dir name p ≡ q = cc (rw (folder, by_kind) at e) in
      subst (λ r. IsTree r.repo) same (add_dir-IsTree name p local t)
  | inr (inl file) ↦ regular_file-IsTree name h p q local t (rw (file, by_kind) at e)
  | inr (inr other) ↦ let same : p ≡ q = cc (rw (other, by_kind) at e) in rw same at t
]

extract_entry-IsTree :
    (i : Item) (p q : Progress) → IsTree p.repo → extract_entry i p ≡ ok q → IsTree q.repo
unfolding extract_entry
extract_entry-IsTree broken p q t e = absurd (cc e)
extract_entry-IsTree (header h) p q t e =
    elim (Bool-cases (ltb max_extracted_entries (p.entry_count + 1))) [
      | inl many ↦ absurd (cc (rw (many, extract_entry) at e))
      | inr few ↦ elim (Option-cases (safe_name h.name)) [
        | inl unsafe ↦ absurd (cc (rw (few, unsafe, extract_entry) at e))
        | inr (name, safe) ↦
            by_kind-IsTree name h (record p { entry_count = p.entry_count + 1 }) q
              (safe_name-IsLocal h.name name safe) t (rw (few, safe, extract_entry) at e)
      ]
    ]

extract_from-IsTree :
    (items : List Item) (p q : Progress)
    → IsTree p.repo
    → extract_from p items ≡ ok q
    → IsTree q.repo
unfolding extract_from
extract_from-IsTree [] p q t e = let same : p ≡ q = cc e in rw same at t
extract_from-IsTree (i ∷ rest) p q t e = elim (Fetched-cases (extract_entry i p)) [
  | inl (_, bad) ↦ absurd (cc (rw (bad, ◌>>=◌) at e))
  | inr (p', good) ↦
      extract_from-IsTree rest p' q (extract_entry-IsTree i p p' t good) (rw (good, ◌>>=◌) at e)
]

-- In a repository that was extracted successfully, every path of a file or a directory is "." or a
-- relative path of non-empty parts, none of them "." or "..", so it stays inside the repository; and
-- the directory above a file or a listed directory is listed, unless it is the repository itself.
pub extract_tar-IsTree :
    (items : List Item) (repo : ExtractedRepo) → extract_tar items ≡ ok repo → IsTree repo
unfolding extract_tar
extract_tar-IsTree items repo e = elim (Fetched-cases (extract_from start items)) [
  | inl (_, bad) ↦ absurd (cc (rw (bad, ◌>>=◌) at e))
  | inr (p, good) ↦
      let same : p.repo ≡ repo = cc (rw (good, ◌>>=◌) at e) in
      rw same at (
        extract_from-IsTree items start p
          (record {
            local_files = tt;
            local_dirs = tt;
            closed = λ r rs q a h m. absurd (cc m);
            parents = tt;
          })
          good)
]
