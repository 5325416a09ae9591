-- ===== src/Registry/Create.antt =====
-- When an entry is created, and when an area is updated without end.
use homeassistant_operator.Prelude.{
  ◌≤◌, String, ◌≡◌, ◌⊎◌, refl, true, false, some, List, ◌==◌, arith, Bool-cases, Option-cases, inl,
  inr,
}
use homeassistant_operator.Cluster.{Failure, Result, ok, err}
use homeassistant_operator.Credentials.{Session}
use homeassistant_operator.Registry.{
  Resource, Env, Kind, Message, find_by_id, find_by_name, update_entry, list_entries, after_update,
  sync_existing, adopt_or_create, sync_entries, on_list, sync,
}
use homeassistant_operator.Registry.Slices.{count}
use homeassistant_operator.Registry.Area.{
  AreaSpec, AreaLinks, AreaEntry, area_kind, update_area, needs_area_update,
  needs_area_update-false_iff,
}

module _ {W S L E J : Type 0} (env : Env W S E J) (k : Kind S L E) (s : Session) (l : L) where
  -- From the world `w` to the world of the result at most an update command was sent.
  abbrev pub UpdatesAtMost : Resource S → W → W → Type 0
  UpdatesAtMost r w w' =
      (w' ≡ w)
      ⊎ ((id : String) × (w' ≡ (env.send s k.update_command (k.update_payload id r.spec l) w).1))

  after_update-world :
      (message : Failure → Message) (r : Resource S) (res : Result (Unit {0}) × W)
      → (after_update env k message r res).1 ≡ res.1
  unfolding after_update
  after_update-world message r (ok _, w) = refl
  after_update-world message r (err e, w) = refl

  sync_existing-UpdatesAtMost :
      (message : Failure → Message) (r : Resource S) (e : E) (w : W)
      → UpdatesAtMost r w (sync_existing env k message s r l e w).1
  unfolding sync_existing update_entry
  sync_existing-UpdatesAtMost message r e w = elim (Bool-cases (k.needs_update r.spec l e)) [
    | inl stale ↦
        rw (stale, after_update-world message r (update_entry env k s r l w)) (inr (r.id, refl))
    | inr fresh ↦ rw fresh (inl refl)
  ]

  adopt-UpdatesAtMost :
      (r : Resource S) (entries : List E) (w : W) (e : E)
      → find_by_name k.entry_name (k.spec_name r.spec) entries ≡ some e
      → UpdatesAtMost r w (adopt_or_create env k s r l entries w).1
  unfolding adopt_or_create
  adopt-UpdatesAtMost r entries w e found =
      rw (found, adopt_or_create) (sync_existing-UpdatesAtMost _ _ e w)

  sync_entries-UpdatesAtMost :
      (r : Resource S) (entries : List E) (w : W) (e : E)
      → find_by_name k.entry_name (k.spec_name r.spec) entries ≡ some e
      → UpdatesAtMost r w (sync_entries env k s r l entries w).1
  unfolding sync_entries
  sync_entries-UpdatesAtMost r entries w e found = elim (Bool-cases (r.id == "")) [
    | inl fresh ↦ rw fresh (adopt-UpdatesAtMost r entries w e found)
    | inr known ↦ elim (Option-cases (find_by_id k.entry_id r.id entries)) [
      | inl gone ↦ rw (known, gone, sync_entries) (adopt-UpdatesAtMost _ entries w e found)
      | inr (e', here) ↦ rw (known, here, sync_entries) (sync_existing-UpdatesAtMost _ r e' w)
    ]
  ]

  -- Where the list that Home Assistant answers with has an entry of the name of the spec, no entry is
  -- created, whatever id the status has: after the list command at most one update command is sent.
  pub listed_name_not_created :
      (r : Resource S) (entries : List E) (w : W) (e : E)
      → (list_entries env k s w).0 ≡ ok entries
      → find_by_name k.entry_name (k.spec_name r.spec) entries ≡ some e
      → UpdatesAtMost r (list_entries env k s w).1 (sync env k s r l w).1
  unfolding sync on_list
  listed_name_not_created r entries w e listed found =
      rw (listed, on_list) (sync_entries-UpdatesAtMost r entries (list_entries env k s w).1 e found)

-- A pass that resolves two of an area's labels to one label id never finds settled an area entry that
-- holds its labels as a set: where the stored id is listed, every such pass sends an update command
-- with the resolved ids, and after it no other command.
pub repeated_label_never_settles :
    {W J : Type 0} (env : Env W AreaSpec AreaEntry J) (s : Session) (r : Resource AreaSpec)
    (l : AreaLinks) (w : W) (entries : List AreaEntry) (e : AreaEntry) (x : String)
    → (list_entries env area_kind s w).0 ≡ ok entries
    → (r.id == "") ≡ false
    → find_by_id (λ e. e.area_id) r.id entries ≡ some e
    → 2 ≤ count x l.label_ids
    → count x e.label_ids ≤ 1
    → (sync env area_kind s r l w).1
      ≡ (env.send s "config/area_registry/update"
          (update_area r.id r.spec l)
          (list_entries env area_kind s w).1).1
unfolding sync on_list sync_entries sync_existing update_entry
repeated_label_never_settles env s r l w entries e x listed known here twice once =
    let w' = (list_entries env area_kind s w).1 in
    let stale : needs_area_update r.spec l e ≡ true =
      elim (Bool-cases (needs_area_update r.spec l e)) [
        | inl needed ↦ needed
        | inr settled ↦
            absurd (omega (arith, ((needs_area_update-false_iff r.spec l e).0 settled).labels x))
      ] in
    rw (listed, on_list, known, here, stale)
      (after_update-world env area_kind s l _ r (update_entry env area_kind s r l w'))
