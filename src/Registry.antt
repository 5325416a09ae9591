-- ===== src/Registry.antt =====
-- The reconcile loop that the area, floor and label controllers of internal/controller share, line
-- for line: fetch, finalizer, Home Assistant, token, then find, adopt or create the entry. Its
-- parameters are what differs between the three. `Registry.Area` and its siblings fill them in.
pub mod Reflect
pub mod Stable
pub mod Create
mod Toy
mod Tests
pub mod Floor
pub mod Label
pub mod Converge
pub mod Slices
pub mod Area
use homeassistant_operator.Prelude.{
  ℕ, ℤ, String, Bool, true, false, not, Option, none, some, List, [], ◌==◌, find, if◌then◌else◌,
}
use homeassistant_operator.Cluster.{
  Failure, Result, ok, err, not_found, invalid_response, Reply, done, requeue, failed,
  ConditionStatus, is_true, is_false, HomeAssistant, Api,
}
use homeassistant_operator.Credentials.{get_api_token, build_home_assistant_url, Session}

-- The messages that the controllers report, each with the values that its text shows.
pub data Message : Type 0 where
  empty configured token_not_available : Message
  home_assistant_not_found floor_not_found : String → Message
  failed_to_list failed_to_update failed_to_update_adopted failed_to_create : Failure → Message
  failed_to_list_floors failed_to_list_labels : Failure → Message

-- The condition of type Ready.
pub record Condition : Type 0 where
  pub status : ConditionStatus
  pub reason : String
  pub message : Message
  pub observed_generation : ℕ

-- A custom resource: its metadata, its spec `S`, and its status. `id` is the id that Home Assistant
-- gave the entry, "" while there is none.
pub record Resource (S : Type 0) : Type 0 where
  pub name : String
  pub namespace : String
  pub generation : ℕ
  pub deleting : Bool
  -- whether the controller's finalizer is among the object's finalizers
  pub has_finalizer : Bool
  pub home_assistant_ref : String
  pub spec : S
  pub id : String
  pub observed_generation : ℕ
  pub last_error : Message
  pub ready : Option Condition

-- A value in the data of a command.
pub data Value : Type 0 where
  text : String → Value
  number : ℤ → Value
  texts : List String → Value
  null : Value

abbrev pub Payload : Type 0
Payload = List (String × Value)

-- What the program calls and does not implement: the API server's writes of one resource, the
-- commands of a Home Assistant instance, and the JSON decoder. `J` is a raw response.
pub record Env (W S E J : Type 0) : Type 0 where
  pub api : Api W
  pub get : W → Result (Resource S) × W
  pub update : Resource S → W → Option Failure × W
  pub update_status : Resource S → W → Option Failure × W
  pub send : Session → String → Payload → W → Result J × W
  pub decode_list : J → Option (List E)
  pub decode_entry : J → Option E

-- A controller: `L` is what the references of a spec resolve to.
pub record Kind (S L E : Type 0) : Type 0 where
  pub ready_reason : String
  pub failed_reason : String
  pub not_ready_reason : String
  pub token_reason : String
  pub list_command : String
  pub create_command : String
  pub update_command : String
  pub delete_command : String
  pub entry_id : E → String
  pub entry_name : E → String
  pub spec_name : S → String
  pub needs_update : S → L → E → Bool
  pub create_payload : S → L → Payload
  pub update_payload : String → S → L → Payload
  pub delete_payload : String → Payload

-- What a call of `setCondition` is given.
pub record Verdict (S : Type 0) : Type 0 where
  pub resource : Resource S
  pub status : ConditionStatus
  pub reason : String
  pub message : Message
  pub requeue_after : ℕ

-- The references of a spec, or the reason and message with which the reconcile stops.
pub data Resolved (L : Type 0) : Type 0 where
  links : L → Resolved L
  unresolved : String → Message → Resolved L

-- `LastError` is the message of a False condition, and is cleared by any other.
pub with_condition : {S : Type 0} → Verdict S → Resource S
with_condition v =
    let r = v.resource in
    record r {
      ready = some (record {
        status = v.status;
        reason = v.reason;
        message = v.message;
        observed_generation = r.generation;
      });
      observed_generation = r.generation;
      last_error = elim v.status [ is_false ↦ v.message | _ ↦ empty ];
    }

reply_of : ℕ → Option Failure → Reply
reply_of seconds none = requeue seconds
reply_of seconds (some e) = failed e

unfoldable pub decoded : {A J : Type 0} → (J → Option A) → Result J → Result A
decoded decode (err e) = err e
decoded decode (ok j) = elim (decode j) [ none ↦ err invalid_response | some a ↦ ok a ]

abbrev pub find_by_id : {E : Type 0} → (E → String) → String → List E → Option E
find_by_id entry_id id l = find (λ e. entry_id e == id) l

abbrev pub find_by_name : {E : Type 0} → (E → String) → String → List E → Option E
find_by_name entry_name name l = find (λ e. entry_name e == name) l

module _ {W S L E J : Type 0} (env : Env W S E J) (k : Kind S L E) where
  pub set_condition : Verdict S → W → Reply × W
  set_condition v w =
      let (e, w') = env.update_status (with_condition v) w in (reply_of v.requeue_after e, w')

  pub list_entries : Session → W → Result (List E) × W
  list_entries s w = let (r, w') = env.send s k.list_command [] w in (decoded env.decode_list r, w')

  pub update_entry : Session → Resource S → L → W → Result (Unit {0}) × W
  update_entry s r l w =
      let (res, w') = env.send s k.update_command (k.update_payload r.id r.spec l) w in
      (elim res [ ok _ ↦ ok tt | err e ↦ err e ], w')

  created_id : Result E → Result String
  created_id (err e) = err e
  created_id (ok e) = ok (k.entry_id e)

  pub create_entry : Session → Resource S → L → W → Result String × W
  unfolding created_id
  create_entry s r l w =
      let (res, w') = env.send s k.create_command (k.create_payload r.spec l) w in
      (created_id (decoded env.decode_entry res), w')

  pub ready : Resource S → Verdict S
  ready r = record {
    resource = r;
    status = is_true;
    reason = k.ready_reason;
    message = configured;
    requeue_after = 0;
  }

  not_ready : Resource S → String → Message → Verdict S
  not_ready r reason message = record {
    resource = r;
    status = is_false;
    reason = reason;
    message = message;
    requeue_after = 30;
  }

  after_update : (Failure → Message) → Resource S → Result (Unit {0}) × W → Verdict S × W
  after_update message r (ok _, w) = (ready r, w)
  after_update message r (err e, w) = (not_ready r k.failed_reason (message e), w)

  -- Bring an entry that exists to the spec.
  pub sync_existing : (Failure → Message) → Session → Resource S → L → E → W → Verdict S × W
  unfolding after_update ready not_ready
  sync_existing message s r l e w =
      if k.needs_update r.spec l e
      then after_update message r (update_entry s r l w)
      else (ready r, w)

  after_create : Resource S → Result String × W → Verdict S × W
  after_create r (err e, w) = (not_ready r k.failed_reason (failed_to_create e), w)
  after_create r (ok id, w) = (ready (record r { id = id }), w)

  -- Adopt an entry by its name, or create one. The status of `r` has no id.
  pub adopt_or_create : Session → Resource S → L → List E → W → Verdict S × W
  unfolding after_create ready not_ready
  adopt_or_create s r l entries w = elim (find_by_name k.entry_name (k.spec_name r.spec) entries) [
    | some e ↦ sync_existing failed_to_update_adopted s (record r { id = k.entry_id e }) l e w
    | none ↦ after_create r (create_entry s r l w)
  ]

  -- Find the entry by the id of the status; an id that Home Assistant no longer has is cleared.
  pub sync_entries : Session → Resource S → L → List E → W → Verdict S × W
  sync_entries s r l entries w =
      if r.id == ""
      then adopt_or_create s r l entries w
      else elim (find_by_id k.entry_id r.id entries) [
        | some e ↦ sync_existing failed_to_update s r l e w
        | none ↦ adopt_or_create s (record r { id = "" }) l entries w
      ]

  on_list : Session → Resource S → L → Result (List E) × W → Verdict S × W
  on_list s r l (err e, w) = (not_ready r k.failed_reason (failed_to_list e), w)
  on_list s r l (ok entries, w) = sync_entries s r l entries w

  -- From the list of the existing entries to the verdict.
  pub sync : Session → Resource S → L → W → Verdict S × W
  unfolding on_list not_ready
  sync s r l w = on_list s r l (list_entries s w)

  -- The cleanup in Home Assistant of a resource that is being deleted. Its failures are dropped.
  delete_with_token : HomeAssistant → String → Result String × W → W
  delete_with_token ha id (err e, w) = w
  delete_with_token ha id (ok token, w) =
      (env.send (record { url = build_home_assistant_url ha; token = token }) k.delete_command
        (k.delete_payload id) w).1

  delete_from : String → Result HomeAssistant × W → W
  unfolding delete_with_token
  delete_from id (err e, w) = w
  delete_from id (ok ha, w) = delete_with_token ha id (get_api_token env.api ha w)

  pub handle_deletion : Resource S → W → W
  unfolding delete_from
  handle_deletion r w =
      if r.id == ""
      then w
      else delete_from r.id (env.api.get_home_assistant r.namespace r.home_assistant_ref w)

  after_write : Option Failure × W → Reply × W
  after_write (none, w) = (done, w)
  after_write (some e, w) = (failed e, w)

  module _ (resolve : Session → S → W → Resolved L × W) where
    pub on_resolved : Session → Resource S → Resolved L × W → Reply × W
    on_resolved s r (unresolved reason message, w) = set_condition (not_ready r reason message) w
    on_resolved s r (links l, w) = let (v, w') = sync s r l w in set_condition v w'

    on_token : HomeAssistant → Resource S → Result String × W → Reply × W
    on_token ha r (err e, w) = set_condition (not_ready r k.token_reason token_not_available) w
    on_token ha r (ok token, w) =
        let s : Session = record { url = build_home_assistant_url ha; token = token } in
        on_resolved s r (resolve s r.spec w)

    on_home_assistant : Resource S → Result HomeAssistant × W → Reply × W
    on_home_assistant r (err e, w) =
        set_condition
          (not_ready r k.not_ready_reason (home_assistant_not_found r.home_assistant_ref)) w
    on_home_assistant r (ok ha, w) = on_token ha r (get_api_token env.api ha w)

    -- The reconcile of a resource that has been fetched.
    pub reconcile_resource : Resource S → W → Reply × W
    unfolding on_home_assistant on_token on_resolved not_ready after_write handle_deletion
    reconcile_resource r w =
        if r.deleting
        then if r.has_finalizer
          then after_write (env.update (record r { has_finalizer = false }) (handle_deletion r w))
          else (done, w)
        else if not r.has_finalizer
        then after_write (env.update (record r { has_finalizer = true }) w)
        else on_home_assistant r (env.api.get_home_assistant r.namespace r.home_assistant_ref w)

    on_get : Result (Resource S) × W → Reply × W
    on_get (err not_found, w) = (done, w)
    on_get (err e, w) = (failed e, w)
    on_get (ok r, w) = reconcile_resource r w

    pub reconcile : W → Reply × W
    unfolding on_get
    reconcile w = on_get (env.get w)
