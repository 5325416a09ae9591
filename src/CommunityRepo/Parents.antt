-- ===== src/CommunityRepo/Parents.antt =====
-- `markParentDirs` on the path of an entry: the directories above it are marked, and no more is.
use homeassistant_operator.Prelude.{
  ◌≡◌, ◌⊎◌, refl, sym, ap, ◌∙◌, inl, inr, true, List, [], ◌∷◌, arith, length, All,
}
use homeassistant_operator.GoPath.{Bytes, dot, join, dir, clean}
use homeassistant_operator.GoPath.Parts.{IsPlain, IsLocal}
use homeassistant_operator.GoPath.Dirs.{snoc, dir-snoc, dir-alone}
use homeassistant_operator.CommunityRepo.{contains, mark_parent_dirs}
use homeassistant_operator.CommunityRepo.Tree.{
  first-split, join-injective, init, init-snoc, length-le-join, length-snoc, snoc-All, All-snoc,
  mark_from-dot, Ending, nothing, last, ending, IsClosed, mark_from-IsMarked,
}

-- The directory of the path `n`, if it has two parts or more, is in `ds`.
abbrev pub HasParent : List Bytes → Bytes → Type 0
HasParent ds n =
    (p : Bytes) (ps : List Bytes) (q : Bytes)
    → All IsPlain (p ∷ ps)
    → IsPlain q
    → n ≡ join (snoc (p ∷ ps) q)
    → contains (join (p ∷ ps)) ds ≡ true

-- Only the directory of `n` may be missing in `ds`.
abbrev pub ClosedUpTo : Bytes → List Bytes → Type 0
ClosedUpTo n ds =
    (p : Bytes) (ps : List Bytes) (q : Bytes)
    → All IsPlain (p ∷ ps)
    → IsPlain q
    → contains (join (snoc (p ∷ ps) q)) ds ≡ true
    → (contains (join (p ∷ ps)) ds ≡ true) ⊎ (n ≡ join (snoc (p ∷ ps) q))

-- What `mark_parent_dirs` makes of `ds` for the path `n`.
pub record AreParents (n : Bytes) (ds rs : List Bytes) : Type 0 where
  pub keeps : (x : Bytes) → contains x ds ≡ true → contains x rs ≡ true
  pub local : All IsLocal rs
  pub closed : IsClosed rs
  pub parent : HasParent rs n

-- A path with at most one part has no parent to mark.
childless-AreParents :
    (n : Bytes) (ds : List Bytes)
    → ((p : Bytes) (ps : List Bytes) (q : Bytes)
        → All IsPlain (p ∷ ps)
        → IsPlain q
        → n ≡ join (snoc (p ∷ ps) q)
        → ⊥)
    → All IsLocal ds
    → ClosedUpTo n ds
    → AreParents n ds ds
childless-AreParents n ds alone l c = record {
  keeps = λ x h. h;
  local = l;
  closed = λ p ps q a h m. elim (c p ps q a h m) [
    | inl parent ↦ parent
    | inr same ↦ absurd (alone p ps q a h same)
  ];
  parent = λ p ps q a h same. absurd (alone p ps q a h same);
}

dot-alone :
    (p : Bytes) (ps : List Bytes) (q : Bytes)
    → All IsPlain (p ∷ ps)
    → IsPlain q
    → dot ≡ join (snoc (p ∷ ps) q)
    → ⊥
dot-alone p ps q a h e = a.0.0.1 (first-split p (snoc ps q) dot (snoc-All (p ∷ ps) q a h) (sym e))

part-alone :
    (t : Bytes)
    → IsPlain t
    → (p : Bytes) (ps : List Bytes) (q : Bytes) → All IsPlain (p ∷ ps)
    → IsPlain q
    → t ≡ join (snoc (p ∷ ps) q)
    → ⊥
unfolding init
part-alone t plain p ps q a h e =
    let lists = join-injective t [] p (snoc ps q) (plain, tt) (snoc-All (p ∷ ps) q a h) e in
    let none_left : [] ≡ p ∷ ps = ap init lists ∙ init-snoc (p ∷ ps) q in cc none_left

deep-AreParents :
    (p : Bytes) (ps : List Bytes) (q : Bytes) (ds : List Bytes)
    → All IsPlain (p ∷ ps)
    → IsPlain q
    → All IsLocal ds
    → ClosedUpTo (join (snoc (p ∷ ps) q)) ds
    → AreParents (join (snoc (p ∷ ps) q)) ds (mark_parent_dirs ds (join (snoc (p ∷ ps) q)))
unfolding mark_parent_dirs
deep-AreParents p ps q ds a h l c =
    let n = join (snoc (p ∷ ps) q) in
    let whole = snoc-All (p ∷ ps) q a h in
    let parents : (r : Bytes) (rs : List Bytes) (t : Bytes)
        → All IsPlain (r ∷ rs)
        → IsPlain t
        → n ≡ join (snoc (r ∷ rs) t)
        → join (r ∷ rs) ≡ join (p ∷ ps) =
      λ r rs t b k e. ap join (
        sym (init-snoc (r ∷ rs) t)
        ∙ ap init
            (sym (join-injective p (snoc ps q) r (snoc rs t) whole (snoc-All (r ∷ rs) t b k) e))
        ∙ init-snoc (p ∷ ps) q) in
    let marked =
      mark_from-IsMarked (length n) p ps ds
        (omega (arith, length-le-join p (snoc ps q) whole, length-snoc ps q)) a l
        (λ r rs t b k m. elim (c r rs t b k m) [
          | inl parent ↦ inl parent
          | inr same ↦ inr (parents r rs t b k same)
        ]) in
    rw (dir-snoc p ps q a h) (record {
      keeps = marked.keeps;
      local = marked.local;
      closed = marked.closed;
      parent = λ r rs t b k e. rw (parents r rs t b k e) marked.here;
    })

plain-AreParents :
    (p : Bytes) (ps ds : List Bytes)
    → Ending ps
    → All IsPlain (p ∷ ps)
    → All IsLocal ds
    → ClosedUpTo (join (p ∷ ps)) ds
    → AreParents (join (p ∷ ps)) ds (mark_parent_dirs ds (join (p ∷ ps)))
unfolding mark_parent_dirs
plain-AreParents p ps ds nothing a l c =
    rw (dir-alone p a.0, mark_from-dot (length p) ds)
      (childless-AreParents p ds (part-alone p a.0) l c)
plain-AreParents p ps ds (last qs q) a l c =
    let (b, h) = All-snoc (p ∷ qs) q a in deep-AreParents p qs q ds b h l c

dot-dir : dir dot ≡ dot
unfolding dir clean
dot-dir = refl

pub mark-AreParents :
    (n : Bytes) (ds : List Bytes)
    → IsLocal n
    → All IsLocal ds
    → ClosedUpTo n ds
    → AreParents n ds (mark_parent_dirs ds n)
unfolding mark_parent_dirs
mark-AreParents n ds (inl e) l c =
    rw (e, dot-dir, mark_from-dot (length dot) ds)
      (childless-AreParents dot ds dot-alone l (λ p ps q a h m. elim (c p ps q a h m) [
        | inl parent ↦ inl parent
        | inr same ↦ inr (sym e ∙ same)
      ]))
mark-AreParents n ds (inr (p, ps, a, e)) l c = rw e (
    plain-AreParents p ps ds (ending ps) a l (λ r rs q b h m. elim (c r rs q b h m) [
      | inl parent ↦ inl parent
      | inr same ↦ inr (sym e ∙ same)
    ]))
