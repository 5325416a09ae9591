-- ===== src/Registry/Stable.antt =====
-- A second reconcile of a resource that became Ready changes nothing in Home Assistant.
use homeassistant_operator.Prelude.{
  ◌≡◌, refl, ap, ◌∙◌, true, false, some, List, [], ◌==◌, eq_iff, find_sound, arith,
}
use homeassistant_operator.Cluster.{ok, is_true}
use homeassistant_operator.Credentials.{Session}
use homeassistant_operator.Registry.{
  Resource, Payload, Env, Kind, find_by_id, with_condition, list_entries, ready, sync_existing,
  sync_entries, on_list, sync,
}
use homeassistant_operator.Registry.Reflect.{Faithful, IsRegistry, decoded-ok, sync-Achieves}

module _ {W S L E J : Type 0} {env : Env W S E J} {k : Kind S L E} {Good : L → Type 0}
    {Carries : Payload → E → Type 0} {Reflects : S → L → E → Type 0} {shows : W → List E}
    (fit : Faithful k Good Carries Reflects) (law : IsRegistry env k Carries shows) (s : Session)
    (l : L) where
  -- An entry that has the id of the status and is as the spec asks for is left alone.
  sync_entries-quiet :
      (r : Resource S) (e : E) (w : W)
      → find_by_id k.entry_id r.id (shows w) ≡ some e
      → Reflects r.spec l e
      → sync_entries env k s r l (shows w) w ≡ (ready env k r, w)
  unfolding sync_entries sync_existing
  sync_entries-quiet r e w found fits =
      let here : (k.entry_id e == r.id) ≡ true =
        find_sound (λ x. k.entry_id x == r.id) (shows w) found in
      let known : (r.id == "") ≡ false = ground (
        arith,
        law.not_empty w (λ x. k.entry_id x == r.id) e found,
        eq_iff (k.entry_id e) r.id,
        eq_iff r.id "",
      ) in
      rw (known, found, sync_entries, (fit.unchanged r.spec l e).1 fits) refl

  sync-quiet :
      (r : Resource S) (e : E) (w : W) (entries : List E)
      → find_by_id k.entry_id r.id (shows w) ≡ some e
      → Reflects r.spec l e
      → (list_entries env k s w).0 ≡ ok entries
      → sync env k s r l w ≡ (ready env k r, (list_entries env k s w).1)
  unfolding sync on_list list_entries
  sync-quiet r e w entries found fits listed =
      let (j, sent, read) =
        decoded-ok env.decode_list (env.send s k.list_command [] w).0 entries listed in
      rw (listed, on_list, law.listed s w j entries sent read)
        (sync_entries-quiet r e (env.send s k.list_command [] w).1 (rw (law.kept s w) found) fits)

  -- The second pass starts in any world whose entries are those that the first left.
  pub sync_twice :
      (r : Resource S) (w w' : W) (entries : List E)
      → Good l
      → (sync env k s r l w).0.status ≡ is_true
      → shows w' ≡ shows (sync env k s r l w).1
      → (list_entries env k s w').0 ≡ ok entries
      → sync env k s (with_condition (sync env k s r l w).0) l w'
        ≡ (ready env k (with_condition (sync env k s r l w).0), (list_entries env k s w').1)
  unfolding with_condition
  sync_twice r w w' entries good made same listed =
      let (e, found, fits) = sync-Achieves fit law s l good r w made in
      sync-quiet (with_condition (sync env k s r l w).0) e w' entries
        (ap (λ es. find_by_id k.entry_id (sync env k s r l w).0.resource.id es) same ∙ found) fits
        listed
