-- ===== src/Registry/Toy.antt =====
-- A registry that holds at most one entry, kept as the data of the command that wrote it last. It
-- shows that the registry laws can hold.
use homeassistant_operator.Prelude.{
  String, ◌≡◌, ◌≢◌, refl, Bool, true, false, Option, none, some, List, [], ◌∷◌, ◌==◌, eq_iff,
  eq_refl, find, arith, if◌then◌else◌,
}
use homeassistant_operator.Cluster.{Result, ok, err, not_found, other, Api}
use homeassistant_operator.Registry.{Payload, Env, Kind, find_by_id}
use homeassistant_operator.Registry.Reflect.{IsRegistry}

pub data Response (E : Type 0) : Type 0 where
  entries : List E → Response E
  entry : E → Response E
  nothing : Response E

abbrev pub no_api : Api (Option Payload)
no_api = record {
  get_home_assistant = λ ns name w. (err not_found, w);
  get_secret = λ ns name w. (err not_found, w);
}

module _ {S L E : Type 0} (k : Kind S L E) (build : Payload → E) where
  abbrev pub shown : Option Payload → List E
  shown none = []
  shown (some p) = build p ∷ []

  abbrev write_over : Payload → Option Payload → Result (Response E) × Option Payload
  write_over p none = (err (other "no entry"), none)
  write_over p (some q) = (ok nothing, some p)

  abbrev write_new : Payload → Option Payload → Result (Response E) × Option Payload
  write_new p none = (ok (entry (build p)), some p)
  write_new p (some q) = (err (other "full"), some q)

  abbrev pub answer : String → Payload → Option Payload → Result (Response E) × Option Payload
  answer command p w =
      if command == k.list_command
      then (ok (entries (shown w)), w)
      else if command == k.update_command
      then write_over p w
      else if command == k.create_command
      then write_new p w
      else (ok nothing, none)

  abbrev listed_of : Response E → Option (List E)
  listed_of (entries l) = some l
  listed_of (entry e) = none
  listed_of nothing = none

  abbrev entry_of : Response E → Option E
  entry_of (entry e) = some e
  entry_of (entries l) = none
  entry_of nothing = none

  abbrev pub toy : Env (Option Payload) S E (Response E)
  toy = record {
    api = no_api;
    get = λ w. (err not_found, w);
    update = λ r w. (none, w);
    update_status = λ r w. (none, w);
    send = λ s command p w. answer command p w;
    decode_list = listed_of;
    decode_entry = entry_of;
  }

  module _ (Carries : Payload → E → Type 0) (one_id : (p : Payload) → k.entry_id (build p) ≡ "a1")
      (carries : (p : Payload) → Carries p (build p))
      (update_list : (k.update_command == k.list_command) ≡ false)
      (create_list : (k.create_command == k.list_command) ≡ false)
      (create_update : (k.create_command == k.update_command) ≡ false) where
    only :
        (w : Option Payload) (p : E → Bool) (e : E)
        → find p (shown w) ≡ some e
        → (q : Payload) × (w ≡ some q) × (e ≡ build q)
    only none p e h = cc
    only (some q) p e h = (q, refl, ground arith)

    toy_ids :
        (w : Option Payload) (p : E → Bool) (e : E)
        → find p (shown w) ≡ some e
        → find_by_id k.entry_id (k.entry_id e) (shown w) ≡ some e
    toy_ids w p e h =
        let (q, held, same) = only w p e h in
        rw (held, same) (rw (eq_refl (k.entry_id (build q))) refl)

    toy_not_empty :
        (w : Option Payload) (p : E → Bool) (e : E) → find p (shown w) ≡ some e → k.entry_id e ≢ ""
    toy_not_empty w p e h =
        let (q, held, same) = only w p e h in
        rw (same, one_id q) (λ c. ground (arith, eq_iff "a1" ""))

    found_alone :
        (p : Payload) (id : String)
        → (k.entry_id (build p) == id) ≡ true
        → find_by_id k.entry_id id (shown (some p)) ≡ some (build p)
    found_alone p id h = rw h refl

    answer_list : (w : Option Payload) → answer k.list_command [] w ≡ (ok (entries (shown w)), w)
    answer_list w = rw (eq_refl k.list_command) refl

    answer_update :
        (p : Payload) (w : Option Payload) → answer k.update_command p w ≡ write_over p w
    answer_update p w = rw (update_list, eq_refl k.update_command) refl

    answer_create : (p : Payload) (w : Option Payload) → answer k.create_command p w ≡ write_new p w
    answer_create p w = rw (create_list, create_update, eq_refl k.create_command) refl

    toy_listed :
        (w : Option Payload) (j : Response E) (l : List E)
        → (answer k.list_command [] w).0 ≡ ok j
        → listed_of j ≡ some l
        → l ≡ shown (answer k.list_command [] w).1
    toy_listed w j l sent read =
        let same : ok (entries (shown w)) ≡ ok j = rw (answer_list w) at sent in
        rw (answer_list w) (ground arith)

    toy_updated :
        (id : String) (p : Payload) (w : Option Payload) (e : E)
        → find_by_id k.entry_id id (shown w) ≡ some e
        → (e' : E) × (find_by_id k.entry_id id (shown (answer k.update_command p w).1) ≡ some e')
          × Carries p e'
    toy_updated id p none e found = absurd (cc found)
    toy_updated id p (some q) e found =
        let old : (k.entry_id (build q) == id) ≡ true = ground arith in
        rw (answer_update p (some q))
          (build p, found_alone p id (rw (one_id p, ← one_id q) old), carries p)

    toy_created :
        (p : Payload) (w : Option Payload) (j : Response E) (e : E)
        → (answer k.create_command p w).0 ≡ ok j
        → entry_of j ≡ some e
        → (e' : E) × (find_by_id k.entry_id (k.entry_id e) (shown (answer k.create_command p w).1)
            ≡ some e')
          × Carries p e'
    toy_created p none j e sent read =
        let same : ok (entry (build p)) ≡ ok j = rw (answer_create p none) at sent in
        let mine : e ≡ build p = ground arith in
        rw (answer_create p none, mine)
          (
            build p,
            found_alone p (k.entry_id (build p)) (eq_refl (k.entry_id (build p))),
            carries p,
          )
    toy_created p (some q) j e sent read = absurd (cc (rw (answer_create p (some q)) at sent))

    pub toy_law : IsRegistry toy k Carries shown
    toy_law = record {
      ids = toy_ids;
      not_empty = toy_not_empty;
      listed = λ s w j l sent read. toy_listed w j l sent read;
      kept = λ s w. rw (eq_refl k.list_command) refl;
      updated =
          λ s id spec l w e j found sent. toy_updated id (k.update_payload id spec l) w e found;
      created = λ s spec l w j e sent read. toy_created (k.create_payload spec l) w j e sent read;
    }
