-- ===== src/Registry/Slices.antt =====
-- `stringSlicesEqual` of internal/controller/homeassistantarea_controller.go, and what it decides.
use homeassistant_operator.Prelude.{
  ℕ, suc, ◌+◌, ◌-◌, ◌≤◌, String, ◌≡◌, ◌↔◌, ◌<◌, eqb_iff, refl, Bool, true, false, List, [], ◌∷◌,
  ◌==◌, eq_iff, arith, eqb, length, Bool-cases, inl, inr, if◌then◌else◌,
}

-- The map `seen`: how often each text is still to be met.
abbrev Seen : Type 0
Seen = String → ℕ

abbrev bump : String → Seen → Seen
bump v seen x = if v == x then suc (seen x) else seen x

abbrev take_one : String → Seen → Seen
take_one v seen x = if v == x then seen x - 1 else seen x

-- the loop over `a`
tally : Seen → List String → Seen
tally seen [] = seen
tally seen (v ∷ a) = tally (bump v seen) a

-- the loop over `b`: a count that would fall below 0 ends it
take_all : Seen → List String → Bool
take_all seen [] = true
take_all seen (v ∷ b) =
    let rest = take_all (take_one v seen) b in if eqb (seen v) 0 then false else rest

unfoldable pub string_slices_equal : List String → List String → Bool
unfolding tally take_all
string_slices_equal a b = if eqb (length a) (length b) then take_all (tally (λ x. 0) a) b else false

-- How often `x` stands in a list.
abbrev pub count : String → List String → ℕ
count x [] = 0
count x (v ∷ a) = if v == x then suc (count x a) else count x a

tally-count : (x : String) (seen : Seen) (a : List String) → tally seen a x ≡ seen x + count x a
unfolding tally
tally-count x seen [] = omega arith
tally-count x seen (v ∷ a) = ground (arith, tally-count x (bump v seen) a)

-- The loop over `b` succeeds exactly when no text is met more often than it was counted.
take_all-true :
    (b : List String) (seen : Seen) → take_all seen b ≡ true → (x : String) → count x b ≤ seen x
unfolding take_all
take_all-true [] seen h x = omega arith
take_all-true (v ∷ b) seen h x =
    ground (arith, take_all-true b (take_one v seen) (ground arith) x, eq_iff v x)

take_all-of-le :
    (b : List String) (seen : Seen) → ((x : String) → count x b ≤ seen x) → take_all seen b ≡ true
unfolding take_all
take_all-of-le [] seen h = refl
take_all-of-le (v ∷ b) seen h = elim (Bool-cases (eqb (seen v) 0)) [
  | inl e ↦ absurd (ground (arith, h v, eq_iff v v))
  | inr e ↦ rw e (take_all-of-le b (take_one v seen) (λ x. ground (arith, h x, eq_iff v x)))
]

drop_first : String → List String → List String
drop_first v [] = []
drop_first v (x ∷ a) = if x == v then a else x ∷ drop_first v a

count-drop_first :
    (v x : String) (a : List String)
    → count x (drop_first v a) ≡ (if v == x then count x a - 1 else count x a)
unfolding drop_first
count-drop_first v x [] = ground arith
count-drop_first v x (y ∷ a) =
    ground (arith, count-drop_first v x a, eq_iff y v, eq_iff v x, eq_iff y x)

length-drop_first :
    (v : String) (a : List String) → 0 < count v a → suc (length (drop_first v a)) ≡ length a
unfolding drop_first
length-drop_first v [] h = absurd (omega arith)
length-drop_first v (y ∷ a) h = ground (arith, length-drop_first v a)

count-pos : (v : String) (b a : List String) → count v (v ∷ b) ≤ count v a → 0 < count v a
count-pos v b a h = ground (arith, eq_iff v v)

-- What is left to compare once one `v` is taken from both lists.
count-tail-le :
    (v : String) (b a : List String)
    → ((x : String) → count x (v ∷ b) ≤ count x a)
    → (x : String) → count x b ≤ count x (drop_first v a)
count-tail-le v b a h x = ground (arith, h x, count-drop_first v x a)

pub length-le-of-count :
    (b a : List String) → ((x : String) → count x b ≤ count x a) → length b ≤ length a
length-le-of-count [] a h = omega arith
length-le-of-count (v ∷ b) a h = omega (
  arith,
  length-drop_first v a (count-pos v b a (h v)),
  length-le-of-count b (drop_first v a) (count-tail-le v b a h),
)

-- Where one list is no longer than another and holds every text at least as often, the other does
-- not hold any text oftener.
count-le-of-length :
    (b a : List String)
    → length a ≤ length b
    → ((x : String) → count x b ≤ count x a)
    → (x : String) → count x a ≤ count x b
count-le-of-length [] [] l h x = omega arith
count-le-of-length [] (y ∷ a) l h x = absurd (omega arith)
count-le-of-length (v ∷ b) a l h x =
    let shorter = length-drop_first v a (count-pos v b a (h v)) in
    ground (
      arith,
      count-le-of-length b (drop_first v a) (omega (arith, shorter)) (count-tail-le v b a h) x,
      count-drop_first v x a,
      h x,
    )

same-counts :
    (a b : List String) → string_slices_equal a b ≡ true → (x : String) → count x a ≡ count x b
unfolding string_slices_equal
same-counts a b h x =
    let same : length a ≡ length b = ground arith in
    let below : (y : String) → count y b ≤ count y a = λ y.
      omega
        (arith, take_all-true b (tally (λ z. 0) a) (ground arith) y, tally-count y (λ z. 0) a) in
    omega (arith, below x, count-le-of-length b a (omega (arith, same)) below x)

equal-of-counts :
    (a b : List String) → ((x : String) → count x a ≡ count x b) → string_slices_equal a b ≡ true
unfolding string_slices_equal
equal-of-counts a b h =
    let below = length-le-of-count b a (λ x. omega (arith, h x)) in
    let above = length-le-of-count a b (λ x. omega (arith, h x)) in
    let same : length a ≡ length b = omega (arith, below, above) in
    rw ((eqb_iff (length a) (length b)).1 same)
      (take_all-of-le b (tally (λ z. 0) a) (λ x. omega (arith, tally-count x (λ z. 0) a, h x)))

-- `stringSlicesEqual` is equality of the two lists as multisets: it is true exactly when every text
-- occurs equally often in both.
pub string_slices_equal_iff :
    (a b : List String) → (string_slices_equal a b ≡ true) ↔ ((x : String) → count x a ≡ count x b)
string_slices_equal_iff a b = (same-counts a b, equal-of-counts a b)
