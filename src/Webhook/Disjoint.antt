-- ===== src/Webhook/Disjoint.antt =====
-- internal/webhook/v1/collision_helpers.go: the check refuses exactly the requests that clash, and
-- resources admitted one after the other never share an identifier.
use homeassistant_operator.Prelude.{
  ℕ, String, ◌≡◌, ◌≢◌, ◌↔◌, refl, sym, ap, ◌∙◌, inl, inr, Bool, true, false, not, ◌&&◌, Option,
  none, some, List, [], ◌∷◌, ◌++◌, map, ◌==◌, arith, eq_iff, All, Bool-cases, Option-cases,
  if◌then◌else◌,
}
use homeassistant_operator.Webhook.{
  Resource, Refusal, effective_id, find_identifier_collision, check_identifier_collision,
  descriptor, validate,
}

abbrev pub live : Option ℕ → Bool
live none = true
live (some _) = false

-- Another resource, not being deleted, of the same HomeAssistant and with the same identifier.
abbrev pub clashes : Resource → Resource → Bool
clashes self s =
    not (s.uid == self.uid)
    && (live s.deletion_timestamp
        && (s.home_assistant_ref == self.home_assistant_ref
            && effective_id s.id s.name == effective_id self.id self.name))

-- What the check looks for among the siblings of `self`.
abbrev first_conflict : Resource → List Resource → String
first_conflict self rs =
    find_identifier_collision (map descriptor rs) self.uid self.home_assistant_ref
      (effective_id self.id self.name)

first_conflict-step :
    (self s : Resource) (rs : List Resource)
    → first_conflict self (s ∷ rs) ≡ (if clashes self s then s.name else first_conflict self rs)
unfolding find_identifier_collision
first_conflict-step self s rs = elim (Option-cases s.deletion_timestamp) [
  | inl alive ↦ rw (find_identifier_collision, alive) (ground arith)
  | inr (t, deleted) ↦ rw (find_identifier_collision, deleted) (ground arith)
]

refused :
    (kind : String) (self : Resource) (rs : List Resource)
    → validate kind (some rs) self ≡ (
        if first_conflict self rs == ""
        then none
        else some (record {
          kind = kind;
          self_name = self.name;
          self_effective_id = effective_id self.id self.name;
          conflict = first_conflict self rs;
          home_assistant = self.home_assistant_ref;
        }))
unfolding validate check_identifier_collision
refused kind self rs = refl

no_conflict_iff :
    (self : Resource) (rs : List Resource)
    → All (λ s. s.name ≢ "") rs
    → (first_conflict self rs ≡ "") ↔ All (λ s. clashes self s ≡ false) rs
unfolding find_identifier_collision
no_conflict_iff self [] named = (λ _. tt, λ _. refl)
no_conflict_iff self (s ∷ rs) named = elim (Bool-cases (clashes self s)) [
  | inl clash ↦ (
    λ h. absurd (named.0 (sym (rw clash at (first_conflict-step self s rs)) ∙ h)),
    λ a. absurd (cc (a.0, clash)),
  )
  | inr apart ↦
      let same = rw apart at (first_conflict-step self s rs) in
      let (sound, complete) = no_conflict_iff self rs named.1 in
      (λ h. (apart, sound (sym same ∙ h)), λ a. same ∙ complete a.1)
]

-- The check of a resource against the siblings that the list call returned accepts it exactly if none
-- of them clashes with it, that is, has another UID, is not being deleted, and has its HomeAssistant
-- and its identifier, which is the name where no id is set. Every sibling has a name that is not empty.
pub validate-accepts_iff :
    (kind : String) (self : Resource) (rs : List Resource)
    → All (λ s. s.name ≢ "") rs
    → (validate kind (some rs) self ≡ none) ↔ All (λ s. clashes self s ≡ false) rs
validate-accepts_iff kind self rs named =
    let (sound, complete) = no_conflict_iff self rs named in
    elim (Bool-cases (first_conflict self rs == "")) [
      | inl e ↦
          let empty = (eq_iff (first_conflict self rs) "").0 e in
          (λ _. sound empty, λ _. refused kind self rs ∙ rw e refl)
      | inr e ↦ (
        λ h. absurd (cc (h, rw e at (refused kind self rs))),
        λ a. absurd (cc (e, (eq_iff (first_conflict self rs) "").1 (complete a))),
      )
    ]

-- The first of the siblings that clash with `self`, and what the refusal says of it.
pub record IsFirstClash (self : Resource) (rs : List Resource) (c : Refusal) : Type 0 where
  pub before : List Resource
  pub sibling : Resource
  pub after : List Resource
  pub found : rs ≡ before ++ sibling ∷ after
  pub first : All (λ s. clashes self s ≡ false) before
  pub clash : clashes self sibling ≡ true
  pub named : c.conflict ≡ sibling.name

first_clash :
    (self : Resource) (rs : List Resource) (c : Refusal)
    → first_conflict self rs ≢ ""
    → c.conflict ≡ first_conflict self rs
    → IsFirstClash self rs c
unfolding find_identifier_collision
first_clash self [] c h e = absurd (h refl)
first_clash self (s ∷ rs) c h e = elim (Bool-cases (clashes self s)) [
  | inl clash ↦ record {
    before = [];
    sibling = s;
    after = rs;
    found = refl;
    first = tt;
    clash = clash;
    named = e ∙ rw clash at (first_conflict-step self s rs);
  }
  | inr apart ↦
      let same = rw apart at (first_conflict-step self s rs) in
      let rest = first_clash self rs c (λ k. h (same ∙ k)) (e ∙ same) in
      record {
        before = s ∷ rest.before;
        sibling = rest.sibling;
        after = rest.after;
        found = ap (λ t. s ∷ t) rest.found;
        first = (apart, rest.first);
        clash = rest.clash;
        named = rest.named;
      }
]

conflict_of : (c : Refusal) {d : Refusal} → some c ≡ some d → c.conflict ≡ d.conflict
conflict_of c {d} h = let same : c ≡ d = cc h in ap (λ r. r.conflict) same

-- A refusal names the first sibling, in the order of the list, that clashes with the resource. This
-- holds also if some siblings have no name.
pub validate-refuses_first :
    (kind : String) (self : Resource) (rs : List Resource) (c : Refusal)
    → validate kind (some rs) self ≡ some c
    → IsFirstClash self rs c
validate-refuses_first kind self rs c h = elim (Bool-cases (first_conflict self rs == "")) [
  | inl e ↦ absurd (cc (h, rw e at (refused kind self rs)))
  | inr e ↦
      let same = sym h ∙ rw e at (refused kind self rs) in
      first_clash self rs c (λ k. cc (e, (eq_iff (first_conflict self rs) "").1 k))
        (conflict_of c same)
]
