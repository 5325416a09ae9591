-- ===== src/GoPath.antt =====
-- The parts of Go's packages path and strings that internal/communityrepo uses. A text is the list
-- of its bytes, since the code takes paths apart byte by byte.
pub mod Parts
pub mod Dirs
use homeassistant_operator.Prelude.{
  ℕ, String, ◌≡◌, ◌↔◌, refl, Bool, true, false, not, ◌&&◌, ◌||◌, Option, none, some, List, [], ◌∷◌,
  ◌++◌, arith, eqb, eqb_iff, if◌then◌else◌,
}

abbrev pub Bytes : Type 0
Bytes = List ℕ

abbrev pub slash : ℕ
slash = 47

abbrev pub dot : Bytes
dot = 46 ∷ []

abbrev pub dot_dot : Bytes
dot_dot = 46 ∷ 46 ∷ []

abbrev pub bytes_eq : Bytes → Bytes → Bool
bytes_eq [] [] = true
bytes_eq [] (_ ∷ _) = false
bytes_eq (_ ∷ _) [] = false
bytes_eq (a ∷ s) (b ∷ t) = eqb a b && bytes_eq s t

pub bytes_eq_iff : (s t : Bytes) → (bytes_eq s t ≡ true) ↔ (s ≡ t)
bytes_eq_iff [] [] = ground arith
bytes_eq_iff [] (b ∷ t) = ground arith
bytes_eq_iff (a ∷ s) [] = ground arith
bytes_eq_iff (a ∷ s) (b ∷ t) = ground (arith, bytes_eq_iff s t)

pub bytes_eq_refl : (s : Bytes) → bytes_eq s s ≡ true
bytes_eq_refl s = (bytes_eq_iff s s).1 refl

-- `strings.CutPrefix`: what follows the prefix.
abbrev pub cut_prefix : Bytes → Bytes → Option Bytes
cut_prefix [] s = some s
cut_prefix (a ∷ p) [] = none
cut_prefix (a ∷ p) (b ∷ s) = let rest = cut_prefix p s in if eqb a b then rest else none

-- `strings.Contains(s, "/")`
abbrev pub has_slash : Bytes → Bool
has_slash [] = false
has_slash (c ∷ s) = eqb c slash || has_slash s

-- `strings.Index(p, "/")` and `p[:idx]`: the part before the first slash, if there is one.
abbrev pub before_slash : Bytes → Option Bytes
before_slash [] = none
before_slash (c ∷ s) =
    let rest = before_slash s in
    if eqb c slash then some [] else elim rest [ none ↦ none | some t ↦ some (c ∷ t) ]

-- `path.IsAbs`
abbrev pub is_abs : Bytes → Bool
is_abs [] = false
is_abs (c ∷ s) = eqb c slash

abbrev pub push_head : ℕ → List Bytes → List Bytes
push_head c [] = (c ∷ []) ∷ []
push_head c (p ∷ ps) = (c ∷ p) ∷ ps

-- The parts between slashes.
abbrev pub split : Bytes → List Bytes
split [] = [] ∷ []
split (c ∷ s) = let rest = split s in if eqb c slash then [] ∷ rest else push_head c rest

abbrev pub join : List Bytes → Bytes
join [] = []
join (p ∷ []) = p
join (p ∷ q ∷ ps) = p ++ slash ∷ join (q ∷ ps)

-- One part of a path, over the parts kept so far, the last of them at the head.
abbrev pub clean_part : Bool → List Bytes → Bytes → List Bytes
clean_part rooted [] p =
    if bytes_eq p [] || bytes_eq p dot
    then []
    else if bytes_eq p dot_dot && rooted
    then []
    else p ∷ []
clean_part rooted (t ∷ stack) p =
    if bytes_eq p [] || bytes_eq p dot
    then t ∷ stack
    else if bytes_eq p dot_dot && not (bytes_eq t dot_dot)
    then stack
    else p ∷ t ∷ stack

abbrev pub clean_parts : Bool → List Bytes → List Bytes → List Bytes
clean_parts rooted stack [] = stack
clean_parts rooted stack (p ∷ ps) = clean_parts rooted (clean_part rooted stack p) ps

abbrev pub or_dot : Bytes → Bytes
or_dot [] = dot
or_dot (c ∷ s) = c ∷ s

abbrev pub rev : List Bytes → List Bytes → List Bytes
rev acc [] = acc
rev acc (p ∷ ps) = rev (p ∷ acc) ps

-- `path.Clean`: "." and empty parts are dropped, ".." takes back the part before it, and is dropped
-- at the root.
unfoldable pub clean : Bytes → Bytes
clean s =
    let body = join (rev [] (clean_parts (is_abs s) [] (split s))) in
    if is_abs s then slash ∷ body else or_dot body

-- The text up to its last slash, without that slash.
abbrev pub up_to_last : Bytes → Option Bytes
up_to_last [] = none
up_to_last (c ∷ s) =
    let rest = up_to_last s in
    elim rest [ some t ↦ some (c ∷ t) | none ↦ if eqb c slash then some [] else none ]

-- `path.Dir`
unfoldable pub dir : Bytes → Bytes
dir p = elim (up_to_last p) [ none ↦ clean [] | some t ↦ clean (t ++ slash ∷ []) ]
