-- ===== src/Registry/Reflect.antt =====
-- What a reconcile that reports Ready has achieved in Home Assistant.
use homeassistant_operator.Prelude.{
  String, ◌≡◌, ◌≢◌, ◌↔◌, refl, Bool, false, Option, some, List, [], ◌==◌, find, arith, Bool-cases,
  Option-cases, inl, inr,
}
use homeassistant_operator.Cluster.{Result-cases, Failure, Result, ok, err, is_true}
use homeassistant_operator.Credentials.{Session}
use homeassistant_operator.Registry.{
  Resource, Payload, Env, Kind, Verdict, Message, find_by_id, find_by_name, decoded, created_id,
  list_entries, update_entry, create_entry, ready, not_ready, after_update, sync_existing,
  after_create, adopt_or_create, sync_entries, on_list, sync,
}

-- What a kind of entries has to do with its specs. `Carries p e` says that `e` has the values of the
-- data `p` of a command, `Reflects spec l e` that `e` is what the spec and its links ask for, and
-- `Good l` restricts the links.
pub record Faithful {S L E : Type 0} (k : Kind S L E) (Good : L → Type 0)
    (Carries : Payload → E → Type 0) (Reflects : S → L → E → Type 0) : Type 0 where
  pub unchanged : (spec : S) (l : L) (e : E) → (k.needs_update spec l e ≡ false) ↔ Reflects spec l e
  pub after_update :
      (id : String) (spec : S) (l : L) (e : E)
      → Good l
      → Carries (k.update_payload id spec l) e
      → Reflects spec l e
  pub after_create :
      (spec : S) (l : L) (e : E) → Good l → Carries (k.create_payload spec l) e → Reflects spec l e

-- What Home Assistant documents of a registry: `shows w` are the entries that it holds.
pub record IsRegistry {W S L E J : Type 0} (env : Env W S E J) (k : Kind S L E)
    (Carries : Payload → E → Type 0) (shows : W → List E) : Type 0 where
  -- ids are unique, and no id is empty
  pub ids :
      (w : W) (p : E → Bool) (e : E)
      → find p (shows w) ≡ some e
      → find_by_id k.entry_id (k.entry_id e) (shows w) ≡ some e
  pub not_empty : (w : W) (p : E → Bool) (e : E) → find p (shows w) ≡ some e → k.entry_id e ≢ ""
  -- the list command answers with all entries, and changes none
  pub listed :
      (s : Session) (w : W) (j : J) (l : List E)
      → (env.send s k.list_command [] w).0 ≡ ok j
      → env.decode_list j ≡ some l
      → l ≡ shows (env.send s k.list_command [] w).1
  pub kept : (s : Session) (w : W) → shows (env.send s k.list_command [] w).1 ≡ shows w
  -- an update of an entry gives it the values of the command
  pub updated :
      (s : Session) (id : String) (spec : S) (l : L) (w : W) (e : E) (j : J)
      → find_by_id k.entry_id id (shows w) ≡ some e
      → (env.send s k.update_command (k.update_payload id spec l) w).0 ≡ ok j
      → (e' : E) × (find_by_id k.entry_id id
            (shows (env.send s k.update_command (k.update_payload id spec l) w).1)
          ≡ some e')
        × Carries (k.update_payload id spec l) e'
  -- a create command answers with the new entry, which has the values of the command
  pub created :
      (s : Session) (spec : S) (l : L) (w : W) (j : J) (e : E)
      → (env.send s k.create_command (k.create_payload spec l) w).0 ≡ ok j
      → env.decode_entry j ≡ some e
      → (e' : E) × (find_by_id k.entry_id
            (k.entry_id e)
            (shows (env.send s k.create_command (k.create_payload spec l) w).1)
          ≡ some e')
        × Carries (k.create_payload spec l) e'

pub decoded-ok :
    {A J : Type 0} (decode : J → Option A) (r : Result J) (a : A)
    → decoded decode r ≡ ok a
    → (j : J) × (r ≡ ok j) × (decode j ≡ some a)
unfolding decoded
decoded-ok decode (err e) a h = cc
decoded-ok decode (ok j) a h = elim (Option-cases (decode j)) [
  | inl bad ↦ absurd (cc (rw (bad, decoded) at h))
  | inr (b, good) ↦ (j, refl, ground (arith, good))
]

module _ {W S L E J : Type 0} {env : Env W S E J} {k : Kind S L E} {Good : L → Type 0}
    {Carries : Payload → E → Type 0} {Reflects : S → L → E → Type 0} {shows : W → List E}
    (fit : Faithful k Good Carries Reflects) (law : IsRegistry env k Carries shows) (s : Session)
    (l : L) (good : Good l) where
  -- If the verdict is Ready, the registry holds the entry of the resource, as its spec asks for.
  abbrev pub Achieves : Verdict S × W → Type 0
  Achieves (v, w) =
      v.status ≡ is_true
      → (e : E) × (find_by_id k.entry_id v.resource.id (shows w) ≡ some e)
        × Reflects v.resource.spec l e

  update-Achieves :
      (message : Failure → Message) (r : Resource S) (e : E) (w : W)
      → find_by_id k.entry_id r.id (shows w) ≡ some e
      → Achieves (after_update env k message r (update_entry env k s r l w))
  unfolding after_update update_entry not_ready ready
  update-Achieves message r e w here =
      elim (Result-cases (env.send s k.update_command (k.update_payload r.id r.spec l) w).0) [
        | inl (_, bad) ↦ rw (bad, after_update) (λ h. absurd (cc h))
        | inr (j, good_reply) ↦
            let (e', found, carries) = law.updated s r.id r.spec l w e j here good_reply in
            rw (good_reply, after_update)
              (λ _. (e', found, fit.after_update r.id r.spec l e' good carries))
      ]

  sync_existing-Achieves :
      (message : Failure → Message) (r : Resource S) (e : E) (w : W)
      → find_by_id k.entry_id r.id (shows w) ≡ some e
      → Achieves (sync_existing env k message s r l e w)
  unfolding sync_existing
  sync_existing-Achieves message r e w here = elim (Bool-cases (k.needs_update r.spec l e)) [
    | inl stale ↦ rw stale (update-Achieves message r e w here)
    | inr fresh ↦ rw fresh (λ _. (e, here, (fit.unchanged r.spec l e).0 fresh))
  ]

  abbrev send_create : Resource S → W → Result J × W
  send_create r w = env.send s k.create_command (k.create_payload r.spec l) w

  created-Achieves :
      (r : Resource S) (w : W) (id : String)
      → created_id env k (decoded env.decode_entry (send_create r w).0) ≡ ok id
      → (e : E) × (find_by_id k.entry_id id (shows (send_create r w).1) ≡ some e)
        × Reflects r.spec l e
  unfolding created_id
  created-Achieves r w id h = elim (Result-cases (decoded env.decode_entry (send_create r w).0)) [
    | inl (_, bad) ↦ absurd (cc (rw (bad, created_id) at h))
    | inr (e, good_reply) ↦
        let (j, sent, read) = decoded-ok env.decode_entry (send_create r w).0 e good_reply in
        let (e', found, carries) = law.created s r.spec l w j e sent read in
        let same : k.entry_id e ≡ id = cc (rw (good_reply, created_id) at h) in
        (e', rw same at found, fit.after_create r.spec l e' good carries)
  ]

  create-Achieves :
      (r : Resource S) (w : W) → Achieves (after_create env k r (create_entry env k s r l w))
  unfolding after_create create_entry not_ready ready
  create-Achieves r w =
      elim (Result-cases (created_id env k (decoded env.decode_entry (send_create r w).0))) [
        | inl (_, bad) ↦ rw (bad, after_create) (λ h. absurd (cc h))
        | inr (id, good_reply) ↦
            rw (good_reply, after_create) (λ _. created-Achieves r w id good_reply)
      ]

  adopt_or_create-Achieves :
      (r : Resource S) (w : W) → Achieves (adopt_or_create env k s r l (shows w) w)
  unfolding adopt_or_create
  adopt_or_create-Achieves r w =
      elim (Option-cases (find_by_name k.entry_name (k.spec_name r.spec) (shows w))) [
        | inl missing ↦ rw (missing, adopt_or_create) (create-Achieves r w)
        | inr (e, found) ↦
            rw (found, adopt_or_create) (sync_existing-Achieves _ _ e w (law.ids w _ e found))
      ]

  sync_entries-Achieves : (r : Resource S) (w : W) → Achieves (sync_entries env k s r l (shows w) w)
  unfolding sync_entries
  sync_entries-Achieves r w = elim (Bool-cases (r.id == "")) [
    | inl fresh ↦ rw fresh (adopt_or_create-Achieves r w)
    | inr known ↦ elim (Option-cases (find_by_id k.entry_id r.id (shows w))) [
      | inl gone ↦ rw (known, gone, sync_entries) (adopt_or_create-Achieves _ w)
      | inr (e, found) ↦ rw (known, found, sync_entries) (sync_existing-Achieves _ r e w found)
    ]
  ]

  pub sync-Achieves : (r : Resource S) (w : W) → Achieves (sync env k s r l w)
  unfolding sync on_list list_entries not_ready
  sync-Achieves r w =
      elim (Result-cases (decoded env.decode_list (env.send s k.list_command [] w).0)) [
        | inl (_, bad) ↦ rw (bad, on_list) (λ h. absurd (cc h))
        | inr (entries, good_reply) ↦
            let (j, sent, read) =
              decoded-ok env.decode_list (env.send s k.list_command [] w).0 entries good_reply in
            rw (good_reply, on_list, law.listed s w j entries sent read)
              (sync_entries-Achieves r (env.send s k.list_command [] w).1)
      ]

module _ {W S L E J : Type 0} (env : Env W S E J) (k : Kind S L E) (s : Session) (l : L) where
  update-spec :
      (message : Failure → Message) (r : Resource S) (x : Result (Unit {0}) × W)
      → (after_update env k message r x).0.resource.spec ≡ r.spec
  unfolding after_update ready not_ready
  update-spec message r (ok _, w) = refl
  update-spec message r (err e, w) = refl

  create-spec :
      (r : Resource S) (x : Result String × W) → (after_create env k r x).0.resource.spec ≡ r.spec
  unfolding after_create ready not_ready
  create-spec r (ok id, w) = refl
  create-spec r (err e, w) = refl

  existing-spec :
      (message : Failure → Message) (r : Resource S) (e : E) (w : W)
      → (sync_existing env k message s r l e w).0.resource.spec ≡ r.spec
  unfolding sync_existing ready
  existing-spec message r e w = elim (Bool-cases (k.needs_update r.spec l e)) [
    | inl stale ↦ rw (stale, sync_existing) (update-spec message r (update_entry env k s r l w))
    | inr fresh ↦ rw (fresh, sync_existing) refl
  ]

  adopt-spec :
      (r : Resource S) (entries : List E) (w : W)
      → (adopt_or_create env k s r l entries w).0.resource.spec ≡ r.spec
  unfolding adopt_or_create
  adopt-spec r entries w =
      elim (Option-cases (find_by_name k.entry_name (k.spec_name r.spec) entries)) [
        | inl missing ↦ rw (missing, adopt_or_create) (create-spec r (create_entry env k s r l w))
        | inr (e, found) ↦ rw (found, adopt_or_create) (existing-spec _ _ e w)
      ]

  entries-spec :
      (r : Resource S) (entries : List E) (w : W)
      → (sync_entries env k s r l entries w).0.resource.spec ≡ r.spec
  unfolding sync_entries
  entries-spec r entries w = elim (Bool-cases (r.id == "")) [
    | inl fresh ↦ rw fresh (adopt-spec r entries w)
    | inr known ↦ elim (Option-cases (find_by_id k.entry_id r.id entries)) [
      | inl gone ↦ rw (known, gone, sync_entries) (adopt-spec _ entries w)
      | inr (e, found) ↦ rw (known, found, sync_entries) (existing-spec _ r e w)
    ]
  ]

  listed-spec :
      (r : Resource S) (x : Result (List E) × W) → (on_list env k s r l x).0.resource.spec ≡ r.spec
  unfolding on_list not_ready
  listed-spec r (err e, w) = refl
  listed-spec r (ok entries, w) = entries-spec r entries w

  -- The verdict is about the same spec.
  pub sync-spec : (r : Resource S) (w : W) → (sync env k s r l w).0.resource.spec ≡ r.spec
  unfolding sync
  sync-spec r w = listed-spec r (list_entries env k s w)
