-- ===== src/GoPath/Parts.antt =====
-- The parts of a cleaned path.
use mathlib.Core.Path.{subst}
use homeassistant_operator.Prelude.{
  ℕ, ◌≡◌, ◌≢◌, ◌⊎◌, refl, ap, ◌∙◌, inl, inr, true, false, not, ◌&&◌, ◌||◌, none, some, List, [],
  ◌∷◌, arith, eqb, All, Bool-cases,
}
use homeassistant_operator.GoPath.{
  Bytes, slash, dot, dot_dot, bytes_eq, bytes_eq_iff, cut_prefix, has_slash, is_abs, push_head,
  split, join, rev, clean_part, clean_parts, or_dot, clean,
}

-- A part that `clean` keeps.
abbrev pub IsPart : Bytes → Type 0
IsPart p = (p ≢ []) × (p ≢ dot) × (has_slash p ≡ false)

-- A name that stays in the directory in which it is looked up.
abbrev pub IsPlain : Bytes → Type 0
IsPlain p = IsPart p × (p ≢ dot_dot)

-- A relative path that does not leave its root: "." or plain parts.
abbrev pub IsLocal : Bytes → Type 0
IsLocal n =
    (n ≡ dot) ⊎ ((p : Bytes) × (ps : List Bytes) × All IsPlain (p ∷ ps) × (n ≡ join (p ∷ ps)))

abbrev NoSlash : Bytes → Type 0
NoSlash p = has_slash p ≡ false

push_head-NoSlash :
    (c : ℕ) (ps : List Bytes) → eqb c slash ≡ false → All NoSlash ps → All NoSlash (push_head c ps)
push_head-NoSlash c [] h a = (ground arith, tt)
push_head-NoSlash c (p ∷ ps) h a = (ground arith, a.1)

pub split-NoSlash : (s : Bytes) → All NoSlash (split s)
split-NoSlash [] = (refl, tt)
split-NoSlash (c ∷ s) = elim (Bool-cases (eqb c slash)) [
  | inl here ↦ rw here (refl, split-NoSlash s)
  | inr other ↦ rw other (push_head-NoSlash c (split s) other (split-NoSlash s))
]

abbrev IsDotDot : Bytes → Type 0
IsDotDot p = p ≡ dot_dot

-- ".." stands only below other "..", at the beginning of the path.
abbrev IsOrdered : List Bytes → Type 0
IsOrdered [] = Unit
IsOrdered (t ∷ s) = IsPart t × (t ≡ dot_dot → All IsDotDot s) × IsOrdered s

pub IsPart-of-test : (p : Bytes) → (bytes_eq p [] || bytes_eq p dot) ≡ false → NoSlash p → IsPart p
IsPart-of-test p e h = ground (arith, bytes_eq_iff p [], bytes_eq_iff p dot)

push-IsOrdered :
    (t : Bytes) (stack : List Bytes) (p : Bytes)
    → IsPart p
    → (bytes_eq p dot_dot && not (bytes_eq t dot_dot)) ≡ false
    → IsOrdered (t ∷ stack)
    → IsOrdered (p ∷ t ∷ stack)
push-IsOrdered t stack p part e o = (
  part,
  λ up.
      let same : t ≡ dot_dot = ground (arith, bytes_eq_iff p dot_dot, bytes_eq_iff t dot_dot) in
      (same, o.1 same),
  o,
)

clean_part-IsOrdered :
    (stack : List Bytes) (p : Bytes)
    → NoSlash p
    → IsOrdered stack
    → IsOrdered (clean_part false stack p)
clean_part-IsOrdered [] p h o = elim (Bool-cases (bytes_eq p [] || bytes_eq p dot)) [
  | inl skip ↦ rw skip tt
  | inr keep ↦ elim (Bool-cases (bytes_eq p dot_dot && false)) [
    | inl up ↦ rw (keep, up) tt
    | inr push ↦ rw (keep, push) (IsPart-of-test p keep h, λ e. tt, tt)
  ]
]
clean_part-IsOrdered (t ∷ stack) p h o = elim (Bool-cases (bytes_eq p [] || bytes_eq p dot)) [
  | inl skip ↦ rw skip o
  | inr keep ↦ elim (Bool-cases (bytes_eq p dot_dot && not (bytes_eq t dot_dot))) [
    | inl up ↦ rw (keep, up) o.2
    | inr push ↦ rw (keep, push) (push-IsOrdered t stack p (IsPart-of-test p keep h) push o)
  ]
]

clean_parts-IsOrdered :
    (stack ps : List Bytes)
    → All NoSlash ps
    → IsOrdered stack
    → IsOrdered (clean_parts false stack ps)
clean_parts-IsOrdered stack [] a o = o
clean_parts-IsOrdered stack (p ∷ ps) a o =
    clean_parts-IsOrdered (clean_part false stack p) ps a.1 (clean_part-IsOrdered stack p a.0 o)

abbrev last_part : Bytes → List Bytes → Bytes
last_part t [] = t
last_part t (u ∷ s) = last_part u s

IsPlain-stack :
    (t : Bytes) (s : List Bytes) → IsOrdered (t ∷ s) → last_part t s ≢ dot_dot → All IsPlain (t ∷ s)
IsPlain-stack t [] o h = ((o.0, h), tt)
IsPlain-stack t (u ∷ s) o h =
    let below = IsPlain-stack u s o.2 h in ((o.0, λ e. below.0.1 (o.1 e).0), below)

All-rev : (acc ps : List Bytes) → All IsPlain acc → All IsPlain ps → All IsPlain (rev acc ps)
All-rev acc [] a h = a
All-rev acc (p ∷ ps) a h = All-rev (p ∷ acc) ps (h.0, a) h.1

rev-head :
    (t : Bytes) (acc s : List Bytes)
    → (rest : List Bytes) × (rev (t ∷ acc) s ≡ last_part t s ∷ rest)
rev-head t acc [] = (acc, refl)
rev-head t acc (u ∷ s) = rev-head u (t ∷ acc) s

-- `join` of parts begins with the first of them, and goes on with a slash.
join-dot_dot :
    (rest : List Bytes)
    → (bytes_eq (join (dot_dot ∷ rest)) dot_dot ≡ true)
      ⊎ ((t : Bytes) × (cut_prefix (46 ∷ 46 ∷ slash ∷ []) (join (dot_dot ∷ rest)) ≡ some t))
join-dot_dot [] = inl refl
join-dot_dot (q ∷ ps) = inr (join (q ∷ ps), refl)

pub or_dot-join :
    (f : Bytes) (rest : List Bytes) → f ≢ [] → or_dot (join (f ∷ rest)) ≡ join (f ∷ rest)
or_dot-join [] rest h = absurd (h refl)
or_dot-join (c ∷ f) [] h = refl
or_dot-join (c ∷ f) (q ∷ ps) h = refl

-- The text that `clean` makes of a stack of parts.
abbrev text_of : List Bytes → Bytes
text_of stack = or_dot (join (rev [] stack))

last_part-IsPart : (t : Bytes) (s : List Bytes) → IsOrdered (t ∷ s) → IsPart (last_part t s)
last_part-IsPart t [] o = o.0
last_part-IsPart t (u ∷ s) o = last_part-IsPart u s o.2

-- A text of parts that is not ".." and does not begin with "../" has another first part.
first-not-up :
    (f : Bytes) (rest : List Bytes)
    → bytes_eq (join (f ∷ rest)) dot_dot ≡ false
    → cut_prefix (46 ∷ 46 ∷ slash ∷ []) (join (f ∷ rest)) ≡ none
    → f ≢ dot_dot
first-not-up f rest a b e = elim (join-dot_dot rest) [
  | inl same ↦ cc (subst (λ f. bytes_eq (join (f ∷ rest)) dot_dot ≡ false) e a, same)
  | inr (t, prefixed) ↦
      cc (subst (λ f. cut_prefix (46 ∷ 46 ∷ slash ∷ []) (join (f ∷ rest)) ≡ none) e b, prefixed)
]

IsLocal-stack :
    (stack : List Bytes)
    → IsOrdered stack
    → bytes_eq (text_of stack) dot_dot ≡ false
    → cut_prefix (46 ∷ 46 ∷ slash ∷ []) (text_of stack) ≡ none
    → IsLocal (text_of stack)
IsLocal-stack [] o a b = inl refl
IsLocal-stack (t ∷ s) o a b =
    let (rest, shape) = rev-head t [] s in
    let part = last_part-IsPart t s o in
    let text : text_of (t ∷ s) ≡ join (last_part t s ∷ rest) =
      ap (λ ps. or_dot (join ps)) shape ∙ or_dot-join (last_part t s) rest part.0 in
    let plain =
      IsPlain-stack t s o (first-not-up (last_part t s) rest (rw text at a) (rw text at b)) in
    inr (last_part t s, rest, rw shape at (All-rev [] (t ∷ s) tt plain), text)

-- A cleaned text that is neither ".." nor absolute nor begins with "../" is local.
pub clean-IsLocal :
    (s : Bytes)
    → bytes_eq (clean s) dot_dot ≡ false
    → cut_prefix (46 ∷ 46 ∷ slash ∷ []) (clean s) ≡ none
    → is_abs (clean s) ≡ false
    → IsLocal (clean s)
unfolding clean
clean-IsLocal s a b c = elim (Bool-cases (is_abs s)) [
  | inl rooted ↦ absurd (cc (rw (rooted, clean) at c))
  | inr relative ↦
      rw (relative, clean)
        (IsLocal-stack (clean_parts false [] (split s))
          (clean_parts-IsOrdered [] (split s) (split-NoSlash s) tt) (rw (relative, clean) at a)
          (rw (relative, clean) at b))
]
