-- ===== src/Webhook/Store.antt =====
-- internal/webhook/v1: the resources of one namespace, as requests that were admitted make them.
use homeassistant_operator.Prelude.{
  ℕ, String, ◌≡◌, ◌≢◌, refl, inl, inr, Bool, false, ◌&&◌, none, some, List, [], ◌∷◌, ◌==◌, arith,
  eq_iff, All, Bool-cases, if◌then◌else◌,
}
use homeassistant_operator.Webhook.{Resource, effective_id, create, update, admit}
use homeassistant_operator.Webhook.Disjoint.{clashes, live, validate-accepts_iff}

abbrev pub replace : Resource → List Resource → List Resource
replace r [] = []
replace r (s ∷ rs) = (if s.uid == r.uid then r else s) ∷ replace r rs

abbrev pub terminate : String → ℕ → List Resource → List Resource
terminate uid time [] = []
terminate uid time (s ∷ rs) =
    (if s.uid == uid then record s { deletion_timestamp = some time } else s)
    ∷ terminate uid time rs

abbrev pub remove : String → List Resource → List Resource
remove uid [] = []
remove uid (s ∷ rs) = if s.uid == uid then remove uid rs else s ∷ remove uid rs

-- The resources of a namespace after some requests, each admitted against the list of that moment.
pub data Store (kind : String) : List Resource → Type 0 where
  empty : Store kind []
  created :
      (r : Resource) (rs : List Resource)
      → Store kind rs
      → r.name ≢ ""
      → admit kind (some rs) (create r) ≡ none
      → Store kind (r ∷ rs)
  updated :
      (old r : Resource) (rs : List Resource)
      → Store kind rs
      → r.name ≢ ""
      → admit kind (some rs) (update old r) ≡ none
      → Store kind (replace r rs)
  terminating :
      (uid : String) (time : ℕ) (rs : List Resource)
      → Store kind rs
      → Store kind (terminate uid time rs)
  removed : (uid : String) (rs : List Resource) → Store kind rs → Store kind (remove uid rs)

-- Two resources that are not being deleted and would write one identifier.
abbrev pub share : Resource → Resource → Bool
share a b = live a.deletion_timestamp && clashes a b

abbrev pub AreDisjoint : List Resource → Type 0
AreDisjoint [] = Unit
AreDisjoint (r ∷ rs) = All (λ s. share r s ≡ false) rs × AreDisjoint rs

abbrev AreNamed : List Resource → Type 0
AreNamed rs = All (λ s. s.name ≢ "") rs

share-new : (r a : Resource) → clashes r a ≡ false → share a r ≡ false
share-new r a h = ground (
  arith,
  eq_iff r.uid a.uid,
  eq_iff a.uid r.uid,
  eq_iff r.home_assistant_ref a.home_assistant_ref,
  eq_iff a.home_assistant_ref r.home_assistant_ref,
  eq_iff (effective_id r.id r.name) (effective_id a.id a.name),
  eq_iff (effective_id a.id a.name) (effective_id r.id r.name),
)

share-old : (r a : Resource) → clashes r a ≡ false → share r a ≡ false
share-old r a h = rw h (ground arith)

share_self : (r a : Resource) → a.uid ≡ r.uid → share r a ≡ false
share_self r a h = ground (arith, eq_iff a.uid r.uid)

fresh-shares :
    (r : Resource) (rs : List Resource)
    → All (λ s. clashes r s ≡ false) rs
    → All (λ s. share r s ≡ false) rs
fresh-shares r [] a = tt
fresh-shares r (s ∷ rs) a = (share-old r s a.0, fresh-shares r rs a.1)

replace-shares :
    (r a : Resource) (rs : List Resource)
    → clashes r a ≡ false
    → All (λ s. share a s ≡ false) rs
    → All (λ s. share a s ≡ false) (replace r rs)
replace-shares r a [] h k = tt
replace-shares r a (s ∷ rs) h k = elim (Bool-cases (s.uid == r.uid)) [
  | inl same ↦ rw same (share-new r a h, replace-shares r a rs h k.1)
  | inr differs ↦ rw differs (k.0, replace-shares r a rs h k.1)
]

new-shares :
    (r : Resource) (rs : List Resource)
    → All (λ s. clashes r s ≡ false) rs
    → All (λ s. share r s ≡ false) (replace r rs)
new-shares r [] a = tt
new-shares r (s ∷ rs) a = elim (Bool-cases (s.uid == r.uid)) [
  | inl same ↦ rw same (share_self r r refl, new-shares r rs a.1)
  | inr differs ↦ rw differs (share-old r s a.0, new-shares r rs a.1)
]

replace-AreDisjoint :
    (r : Resource) (rs : List Resource)
    → All (λ s. clashes r s ≡ false) rs
    → AreDisjoint rs
    → AreDisjoint (replace r rs)
replace-AreDisjoint r [] a d = tt
replace-AreDisjoint r (s ∷ rs) a d = elim (Bool-cases (s.uid == r.uid)) [
  | inl same ↦ rw same (new-shares r rs a.1, replace-AreDisjoint r rs a.1 d.1)
  | inr differs ↦ rw differs (replace-shares r s rs a.0 d.0, replace-AreDisjoint r rs a.1 d.1)
]

replace-AreNamed :
    (r : Resource) (rs : List Resource) → r.name ≢ "" → AreNamed rs → AreNamed (replace r rs)
replace-AreNamed r [] h a = tt
replace-AreNamed r (s ∷ rs) h a = elim (Bool-cases (s.uid == r.uid)) [
  | inl same ↦ rw same (h, replace-AreNamed r rs h a.1)
  | inr differs ↦ rw differs (a.0, replace-AreNamed r rs h a.1)
]

remove-All :
    (P : Resource → Type 0) (uid : String) (rs : List Resource) → All P rs → All P (remove uid rs)
remove-All P uid [] a = tt
remove-All P uid (s ∷ rs) a = elim (Bool-cases (s.uid == uid)) [
  | inl same ↦ rw same (remove-All P uid rs a.1)
  | inr differs ↦ rw differs (a.0, remove-All P uid rs a.1)
]

remove-AreDisjoint :
    (uid : String) (rs : List Resource) → AreDisjoint rs → AreDisjoint (remove uid rs)
remove-AreDisjoint uid [] d = tt
remove-AreDisjoint uid (s ∷ rs) d = elim (Bool-cases (s.uid == uid)) [
  | inl same ↦ rw same (remove-AreDisjoint uid rs d.1)
  | inr differs ↦
      rw differs (remove-All (λ t. share s t ≡ false) uid rs d.0, remove-AreDisjoint uid rs d.1)
]

terminate-shares :
    (a : Resource) (uid : String) (time : ℕ) (rs : List Resource)
    → All (λ s. share a s ≡ false) rs
    → All (λ s. share a s ≡ false) (terminate uid time rs)
terminate-shares a uid time [] k = tt
terminate-shares a uid time (s ∷ rs) k = elim (Bool-cases (s.uid == uid)) [
  | inl same ↦ rw same (ground arith, terminate-shares a uid time rs k.1)
  | inr differs ↦ rw differs (k.0, terminate-shares a uid time rs k.1)
]

dead-shares :
    (a : Resource) (rs : List Resource)
    → live a.deletion_timestamp ≡ false
    → All (λ s. share a s ≡ false) rs
dead-shares a [] h = tt
dead-shares a (s ∷ rs) h = (rw h refl, dead-shares a rs h)

terminate-AreDisjoint :
    (uid : String) (time : ℕ) (rs : List Resource)
    → AreDisjoint rs
    → AreDisjoint (terminate uid time rs)
terminate-AreDisjoint uid time [] d = tt
terminate-AreDisjoint uid time (s ∷ rs) d = elim (Bool-cases (s.uid == uid)) [
  | inl same ↦ rw same (
    dead-shares (record s { deletion_timestamp = some time }) (terminate uid time rs) refl,
    terminate-AreDisjoint uid time rs d.1,
  )
  | inr differs ↦
      rw differs (terminate-shares s uid time rs d.0, terminate-AreDisjoint uid time rs d.1)
]

terminate-AreNamed :
    (uid : String) (time : ℕ) (rs : List Resource) → AreNamed rs → AreNamed (terminate uid time rs)
terminate-AreNamed uid time [] a = tt
terminate-AreNamed uid time (s ∷ rs) a = elim (Bool-cases (s.uid == uid)) [
  | inl same ↦ rw same (a.0, terminate-AreNamed uid time rs a.1)
  | inr differs ↦ rw differs (a.0, terminate-AreNamed uid time rs a.1)
]

Store-sound : (kind : String) (rs : List Resource) → Store kind rs → AreNamed rs × AreDisjoint rs
unfolding admit
Store-sound kind [] empty = (tt, tt)
Store-sound kind _ (created r rs s named ok) =
    let (n, d) = Store-sound kind rs s in
    ((named, n), (fresh-shares r rs ((validate-accepts_iff kind r rs n).0 ok), d))
Store-sound kind _ (updated old r rs s named ok) =
    let (n, d) = Store-sound kind rs s in
    (
      replace-AreNamed r rs named n,
      replace-AreDisjoint r rs ((validate-accepts_iff kind r rs n).0 ok) d,
    )
Store-sound kind _ (terminating uid time rs s) =
    let (n, d) = Store-sound kind rs s in
    (terminate-AreNamed uid time rs n, terminate-AreDisjoint uid time rs d)
Store-sound kind _ (removed uid rs s) =
    let (n, d) = Store-sound kind rs s in
    (remove-All (λ t. t.name ≢ "") uid rs n, remove-AreDisjoint uid rs d)

-- As long as every create and update of a namespace is admitted against the complete list of the
-- moment, and names are not empty, no two resources that are not being deleted have one HomeAssistant
-- and one identifier, whatever resources are marked for deletion or removed in between.
pub admitted-AreDisjoint : (kind : String) (rs : List Resource) → Store kind rs → AreDisjoint rs
admitted-AreDisjoint kind rs s = (Store-sound kind rs s).1
