-- ===== src/CommunityRepo/Tree.antt =====
-- `markParentDirs`: a set of directories that has every directory above its members stays so.
use homeassistant_operator.Prelude.{
  ℕ, zero, suc, ◌+◌, ◌≤◌, ◌≡◌, ◌≢◌, ◌⊎◌, refl, sym, ap, ◌∙◌, inl, inr, Bool, true, false, ◌||◌,
  List, [], ◌∷◌, arith, length, length-append, All, Bool-cases,
}
use homeassistant_operator.GoPath.{Bytes, slash, dot, bytes_eq, bytes_eq_iff, split, join, dir}
use homeassistant_operator.GoPath.Parts.{IsPlain, IsLocal}
use homeassistant_operator.GoPath.Dirs.{snoc, split-join, dir-snoc, dir-alone}
use homeassistant_operator.CommunityRepo.{contains, mark_from}

unfoldable pub init : List Bytes → List Bytes
init [] = []
init (x ∷ []) = []
init (x ∷ y ∷ xs) = x ∷ init (y ∷ xs)

pub init-snoc : (xs : List Bytes) (q : Bytes) → init (snoc xs q) ≡ xs
unfolding init
init-snoc [] q = refl
init-snoc (x ∷ []) q = refl
init-snoc (x ∷ y ∷ xs) q = ap (λ r. x ∷ r) (init-snoc (y ∷ xs) q)

-- A list is empty, or has a last element.
pub data Ending : List Bytes → Type 0 where
  nothing : Ending []
  last : (ps : List Bytes) (q : Bytes) → Ending (snoc ps q)

Ending-cons : (p : Bytes) {ps : List Bytes} → Ending ps → Ending (p ∷ ps)
Ending-cons p nothing = last [] p
Ending-cons p (last ps q) = last (p ∷ ps) q

pub ending : (ps : List Bytes) → Ending ps
ending [] = nothing
ending (p ∷ ps) = Ending-cons p (ending ps)

pub All-snoc : (ps : List Bytes) (q : Bytes) → All IsPlain (snoc ps q) → All IsPlain ps × IsPlain q
All-snoc [] q a = (tt, a.0)
All-snoc (p ∷ ps) q a = let (xs, y) = All-snoc ps q a.1 in ((a.0, xs), y)

pub snoc-All : (ps : List Bytes) (q : Bytes) → All IsPlain ps → IsPlain q → All IsPlain (snoc ps q)
snoc-All [] q a h = (h, tt)
snoc-All (p ∷ ps) q a h = (a.0, snoc-All ps q a.1 h)

pub join-injective :
    (p : Bytes) (ps : List Bytes) (q : Bytes) (qs : List Bytes)
    → All IsPlain (p ∷ ps)
    → All IsPlain (q ∷ qs)
    → join (p ∷ ps) ≡ join (q ∷ qs)
    → p ∷ ps ≡ q ∷ qs
join-injective p ps q qs a b e = sym (split-join p ps a) ∙ ap split e ∙ split-join q qs b

pub length-le-join :
    (p : Bytes) (ps : List Bytes) → All IsPlain (p ∷ ps) → length (p ∷ ps) ≤ length (join (p ∷ ps))
length-le-join [] ps a = absurd (a.0.0.0 refl)
length-le-join (c ∷ p) [] a = omega arith
length-le-join (c ∷ p) (q ∷ ps) a =
    omega (arith, length-append (c ∷ p) (slash ∷ join (q ∷ ps)), length-le-join q ps a.1)

-- The loop does not stop at a path of plain parts.
stops : Bytes → Bool
stops d = bytes_eq d dot || bytes_eq d (slash ∷ []) || bytes_eq d []

abbrev pub first : List Bytes → Bytes
first [] = []
first (x ∷ xs) = x

pub first-split :
    (p : Bytes) (ps : List Bytes) (t : Bytes)
    → All IsPlain (p ∷ ps)
    → join (p ∷ ps) ≡ t
    → p ≡ first (split t)
first-split p ps t a e = ap first (sym (split-join p ps a) ∙ ap split e)

join-not-stops :
    (p : Bytes) (ps : List Bytes) → All IsPlain (p ∷ ps) → stops (join (p ∷ ps)) ≡ false
unfolding stops
join-not-stops p ps a =
    let not_dot : join (p ∷ ps) ≢ dot = λ e. a.0.0.1 (first-split p ps dot a e) in
    let not_root : join (p ∷ ps) ≢ slash ∷ [] = λ e. a.0.0.0 (first-split p ps (slash ∷ []) a e) in
    let not_empty : join (p ∷ ps) ≢ [] = λ e. a.0.0.0 (first-split p ps [] a e) in
    ground (
      arith,
      bytes_eq_iff (join (p ∷ ps)) dot,
      bytes_eq_iff (join (p ∷ ps)) (slash ∷ []),
      bytes_eq_iff (join (p ∷ ps)) [],
    )

pub contains-cons :
    (d x : Bytes) (ds : List Bytes) → contains d (x ∷ ds) ≡ true → (x ≡ d) ⊎ (contains d ds ≡ true)
contains-cons d x ds h = ground (arith, bytes_eq_iff x d)

pub contains-head : (d x : Bytes) (ds : List Bytes) → x ≡ d → contains x (d ∷ ds) ≡ true
contains-head d x ds e = ground (arith, bytes_eq_iff d x)

pub contains-tail :
    (d x : Bytes) (ds : List Bytes) → contains d ds ≡ true → contains d (x ∷ ds) ≡ true
contains-tail d x ds h = ground arith

-- The parent of every path in `ds` is in `ds`, or is `d`.
abbrev pub ClosedBut : Bytes → List Bytes → Type 0
ClosedBut d ds =
    (p : Bytes) (ps : List Bytes) (q : Bytes)
    → All IsPlain (p ∷ ps)
    → IsPlain q
    → contains (join (snoc (p ∷ ps) q)) ds ≡ true
    → (contains (join (p ∷ ps)) ds ≡ true) ⊎ (join (p ∷ ps) ≡ d)

abbrev pub IsClosed : List Bytes → Type 0
IsClosed ds =
    (p : Bytes) (ps : List Bytes) (q : Bytes)
    → All IsPlain (p ∷ ps)
    → IsPlain q
    → contains (join (snoc (p ∷ ps) q)) ds ≡ true
    → contains (join (p ∷ ps)) ds ≡ true

pub record IsMarked (d : Bytes) (ds rs : List Bytes) : Type 0 where
  pub here : contains d rs ≡ true
  pub keeps : (x : Bytes) → contains x ds ≡ true → contains x rs ≡ true
  pub local : All IsLocal rs
  pub closed : IsClosed rs

ClosedBut-cons-IsClosed :
    (d : Bytes) (ds : List Bytes) → contains d ds ≡ true → ClosedBut d ds → IsClosed ds
ClosedBut-cons-IsClosed d ds here c p ps q a h m = elim (c p ps q a h m) [
  | inl parent ↦ parent
  | inr same ↦ rw same here
]

-- A directory at the top has no parent to add.
pub top-IsClosed :
    (p : Bytes) (ds : List Bytes)
    → IsPlain p
    → ClosedBut (join (p ∷ [])) ds
    → IsClosed (join (p ∷ []) ∷ ds)
unfolding init
top-IsClosed p ds h c r rs q a k m =
    elim (contains-cons (join (snoc (r ∷ rs) q)) (join (p ∷ [])) ds m) [
      | inl same ↦
          let lists = join-injective p [] r (snoc rs q) (h, tt) (snoc-All (r ∷ rs) q a k) same in
          let none_left : [] ≡ r ∷ rs = ap init lists ∙ init-snoc (r ∷ rs) q in cc none_left
      | inr old ↦ elim (c r rs q a k old) [
        | inl parent ↦ contains-tail (join (r ∷ rs)) (join (p ∷ [])) ds parent
        | inr is_d ↦ contains-head (join (p ∷ [])) (join (r ∷ rs)) ds is_d
      ]
    ]

-- With `d` added, only the parent of `d` may be missing.
step-ClosedBut :
    (p : Bytes) (ps : List Bytes) (q : Bytes) (ds : List Bytes)
    → All IsPlain (p ∷ ps)
    → IsPlain q
    → ClosedBut (join (snoc (p ∷ ps) q)) ds
    → ClosedBut (join (p ∷ ps)) (join (snoc (p ∷ ps) q) ∷ ds)
step-ClosedBut p ps q ds a h c r rs t b k m =
    let d = join (snoc (p ∷ ps) q) in
    elim (contains-cons (join (snoc (r ∷ rs) t)) d ds m) [
      | inl same ↦
          let lists =
            join-injective p (snoc ps q) r (snoc rs t) (snoc-All (p ∷ ps) q a h)
              (snoc-All (r ∷ rs) t b k) same in
          let parents : p ∷ ps ≡ r ∷ rs =
            sym (init-snoc (p ∷ ps) q) ∙ ap init lists ∙ init-snoc (r ∷ rs) t in
          inr (ap join (sym parents))
      | inr old ↦ elim (c r rs t b k old) [
        | inl parent ↦ inl (contains-tail (join (r ∷ rs)) d ds parent)
        | inr is_d ↦ inl (contains-head d (join (r ∷ rs)) ds is_d)
      ]
    ]

pub mark_from-dot : (fuel : ℕ) (ds : List Bytes) → mark_from fuel ds dot ≡ ds
unfolding mark_from
mark_from-dot zero ds = refl
mark_from-dot (suc fuel) ds = refl

mark_from-found :
    (fuel : ℕ) (ds : List Bytes) (d : Bytes)
    → stops d ≡ false
    → contains d ds ≡ true
    → mark_from (suc fuel) ds d ≡ ds
unfolding mark_from stops
mark_from-found fuel ds d go here = rw (go, here) refl

mark_from-missing :
    (fuel : ℕ) (ds : List Bytes) (d : Bytes)
    → stops d ≡ false
    → contains d ds ≡ false
    → mark_from (suc fuel) ds d ≡ mark_from fuel (d ∷ ds) (dir d)
unfolding mark_from stops
mark_from-missing fuel ds d go missing = rw (go, missing) refl

pub length-snoc : (ps : List Bytes) (q : Bytes) → length (snoc ps q) ≡ length ps + 1
length-snoc [] q = omega arith
length-snoc (p ∷ ps) q = omega (arith, length-snoc ps q)

-- The marks of the parent of `d` over `d` are marks of `d`.
below-IsMarked : (e d : Bytes) (ds rs : List Bytes) → IsMarked e (d ∷ ds) rs → IsMarked d ds rs
below-IsMarked e d ds rs m = record {
  here = m.keeps d (contains-head d d ds refl);
  keeps = λ x h. m.keeps x (contains-tail x d ds h);
  local = m.local;
  closed = m.closed;
}

-- The loop from the path `join (p ∷ ps)` over any set, on this fuel.
abbrev pub Marks : ℕ → Bytes → Type 0
Marks fuel p =
    (ps ds : List Bytes)
    → length (p ∷ ps) ≤ fuel
    → All IsPlain (p ∷ ps)
    → All IsLocal ds
    → ClosedBut (join (p ∷ ps)) ds
    → IsMarked (join (p ∷ ps)) ds (mark_from fuel ds (join (p ∷ ps)))

missing-IsMarked :
    (fuel : ℕ) (p : Bytes) (ps ds : List Bytes)
    → Ending ps
    → Marks fuel p
    → length (p ∷ ps) ≤ suc fuel
    → All IsPlain (p ∷ ps)
    → All IsLocal ds
    → ClosedBut (join (p ∷ ps)) ds
    → IsMarked (join (p ∷ ps)) ds (mark_from fuel (join (p ∷ ps) ∷ ds) (dir (join (p ∷ ps))))
missing-IsMarked fuel p ps ds nothing ih enough a l c =
    rw (dir-alone p a.0, mark_from-dot fuel (p ∷ ds))
      (record {
        here = contains-head p p ds refl;
        keeps = λ x m. contains-tail x p ds m;
        local = (inr (p, [], a, refl), l);
        closed = top-IsClosed p ds a.0 c;
      })
missing-IsMarked fuel p ps ds (last qs q) ih enough a l c =
    let (plain, plain_q) = All-snoc (p ∷ qs) q a in
    let d = join (snoc (p ∷ qs) q) in
    rw (dir-snoc p qs q plain plain_q) (
      below-IsMarked (join (p ∷ qs)) d ds (mark_from fuel (d ∷ ds) (join (p ∷ qs))) (
        ih qs (d ∷ ds) (omega (arith, length-snoc qs q)) plain (inr (p, snoc qs q, a, refl), l)
          (step-ClosedBut p qs q ds plain plain_q c)))

pub mark_from-IsMarked : (fuel : ℕ) (p : Bytes) → Marks fuel p
mark_from-IsMarked zero p ps ds enough a l c = absurd (omega arith)
mark_from-IsMarked (suc fuel) p ps ds enough a l c =
    let d = join (p ∷ ps) in
    let go = join-not-stops p ps a in
    elim (Bool-cases (contains d ds)) [
      | inl here ↦ rw (mark_from-found fuel ds d go here) (record {
        here = here;
        keeps = λ x m. m;
        local = l;
        closed = ClosedBut-cons-IsClosed d ds here c;
      })
      | inr missing ↦
          rw (mark_from-missing fuel ds d go missing)
            (missing-IsMarked fuel p ps ds (ending ps) (mark_from-IsMarked fuel p) enough a l c)
    ]
