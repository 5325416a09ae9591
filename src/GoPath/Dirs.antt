-- ===== src/GoPath/Dirs.antt =====
-- `path.Dir` of a path that is joined from plain parts.
use mathlib.Core.List.{append_assoc}
use homeassistant_operator.Prelude.{
  ◌≡◌, refl, sym, ap, ◌∙◌, false, none, some, List, [], ◌∷◌, ◌++◌, arith, eqb, All,
}
use homeassistant_operator.GoPath.{
  Bytes, slash, dot, dot_dot, bytes_eq_iff, has_slash, is_abs, split, join, rev, clean_part,
  clean_parts, or_dot, clean, up_to_last, dir,
}
use homeassistant_operator.GoPath.Parts.{IsPlain, or_dot-join}

abbrev pub snoc : List Bytes → Bytes → List Bytes
snoc [] q = q ∷ []
snoc (p ∷ ps) q = p ∷ snoc ps q

split-before : (p s : Bytes) → has_slash p ≡ false → split (p ++ slash ∷ s) ≡ p ∷ split s
split-before [] s h = refl
split-before (c ∷ p) s h =
    let other : eqb c slash ≡ false = ground arith in
    rw (other, split-before p s (ground arith)) refl

split-alone : (p : Bytes) → has_slash p ≡ false → split p ≡ p ∷ []
split-alone [] h = refl
split-alone (c ∷ p) h =
    let other : eqb c slash ≡ false = ground arith in rw (other, split-alone p (ground arith)) refl

pub split-join :
    (p : Bytes) (ps : List Bytes) → All IsPlain (p ∷ ps) → split (join (p ∷ ps)) ≡ p ∷ ps
split-join p [] a = split-alone p a.0.0.2
split-join p (q ∷ ps) a =
    split-before p (join (q ∷ ps)) a.0.0.2 ∙ ap (λ r. p ∷ r) (split-join q ps a.1)

split-join-slash :
    (p : Bytes) (ps : List Bytes)
    → All IsPlain (p ∷ ps)
    → split (join (p ∷ ps) ++ slash ∷ []) ≡ snoc (p ∷ ps) []
split-join-slash p [] a = split-before p [] a.0.0.2
split-join-slash p (q ∷ ps) a = rw (append_assoc p (slash ∷ join (q ∷ ps)) (slash ∷ [])) (
    split-before p (join (q ∷ ps) ++ slash ∷ []) a.0.0.2
    ∙ ap (λ r. p ∷ r) (split-join-slash q ps a.1))

clean_part-plain :
    (stack : List Bytes) (p : Bytes) → IsPlain p → clean_part false stack p ≡ p ∷ stack
clean_part-plain [] p h =
    ground (arith, bytes_eq_iff p [], bytes_eq_iff p dot, bytes_eq_iff p dot_dot)
clean_part-plain (t ∷ stack) p h =
    ground (arith, bytes_eq_iff p [], bytes_eq_iff p dot, bytes_eq_iff p dot_dot)

clean_part-empty : (stack : List Bytes) → clean_part false stack [] ≡ stack
clean_part-empty [] = refl
clean_part-empty (t ∷ stack) = refl

clean_parts-plain :
    (stack ps : List Bytes) → All IsPlain ps → clean_parts false stack (snoc ps []) ≡ rev stack ps
clean_parts-plain stack [] a = clean_part-empty stack
clean_parts-plain stack (p ∷ ps) a =
    ap (λ st. clean_parts false st (snoc ps [])) (clean_part-plain stack p a.0)
    ∙ clean_parts-plain (p ∷ stack) ps a.1

rev-rev : (acc ps : List Bytes) → rev [] (rev acc ps) ≡ rev ps acc
rev-rev acc [] = refl
rev-rev acc (p ∷ ps) = rev-rev (p ∷ acc) ps

is_abs-join :
    (p : Bytes) (ps : List Bytes) (s : Bytes) → IsPlain p → is_abs (join (p ∷ ps) ++ s) ≡ false
is_abs-join [] ps s h = absurd (h.0.0 refl)
is_abs-join (c ∷ p) [] s h = ground arith
is_abs-join (c ∷ p) (q ∷ ps) s h = ground arith

pub clean-join-slash :
    (p : Bytes) (ps : List Bytes)
    → All IsPlain (p ∷ ps)
    → clean (join (p ∷ ps) ++ slash ∷ []) ≡ join (p ∷ ps)
unfolding clean
clean-join-slash p ps a =
    rw (is_abs-join p ps (slash ∷ []) a.0, clean, split-join-slash p ps a)
      (ap (λ st. or_dot (join (rev [] st))) (clean_parts-plain [] (p ∷ ps) a)
        ∙ ap (λ st. or_dot (join st)) (rev-rev [] (p ∷ ps))
        ∙ or_dot-join p ps a.0.0.0)

up_to_last-none : (q : Bytes) → has_slash q ≡ false → up_to_last q ≡ none
up_to_last-none [] h = refl
up_to_last-none (c ∷ q) h =
    let other : eqb c slash ≡ false = ground arith in
    rw (up_to_last-none q (ground arith), up_to_last, other) refl

up_to_last-slash : (s q : Bytes) → has_slash q ≡ false → up_to_last (s ++ slash ∷ q) ≡ some s
up_to_last-slash [] q h = rw (up_to_last-none q h, up_to_last) refl
up_to_last-slash (c ∷ s) q h = rw (up_to_last-slash s q h, up_to_last) refl

join-snoc :
    (p : Bytes) (ps : List Bytes) (q : Bytes) → join (snoc (p ∷ ps) q) ≡ join (p ∷ ps) ++ slash ∷ q
join-snoc p [] q = refl
join-snoc p (r ∷ ps) q =
    ap (λ t. p ++ slash ∷ t) (join-snoc r ps q)
    ∙ sym (append_assoc p (slash ∷ join (r ∷ ps)) (slash ∷ q))

-- The directory of a joined path is the join of all parts but the last.
pub dir-snoc :
    (p : Bytes) (ps : List Bytes) (q : Bytes)
    → All IsPlain (p ∷ ps)
    → IsPlain q
    → dir (join (snoc (p ∷ ps) q)) ≡ join (p ∷ ps)
unfolding dir
dir-snoc p ps q a h =
    rw (join-snoc p ps q, up_to_last-slash (join (p ∷ ps)) q h.0.2, dir) (clean-join-slash p ps a)

pub dir-alone : (p : Bytes) → IsPlain p → dir p ≡ dot
unfolding dir clean
dir-alone p h = rw (up_to_last-none p h.0.2, dir) refl
