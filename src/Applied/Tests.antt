-- ===== src/Applied/Tests.antt =====
-- internal/controller, the automation, scene and script controllers: runs on a small instance.
use homeassistant_operator.Prelude.{
  String, ◌≡◌, refl, true, false, inl, inr, Option, none, some, List, [], ◌∷◌, arith,
}
use homeassistant_operator.Cluster.{
  ok, err, not_found, Reply, done, lookup, set, remove, value_at, Secret, HomeAssistant, is_false,
}
use homeassistant_operator.Cluster.Maps.{
  lookup-set, lookup-set_same, lookup-remove, lookup-remove_same,
}
use homeassistant_operator.Credentials.{
  Session, get_api_token, active_account, dedicated_operator_account, token_secret_name,
  legacy_mode_name, default_name, legacy_token,
}
use homeassistant_operator.Applied.Model.{
  Status, Condition, token_not_available, Resource, Payload, Library, Env, Kind, last_applied_key,
}
use homeassistant_operator.Applied.{
  apply, on_home_assistant, validate_home_assistant_ref, on_reference, calculate_hash, on_token,
  on_applied, delete_previous, after_put, after_patch, disable_if, after_removal, handle_deletion,
  reconcile_via_api, reconcile_resource,
}
use homeassistant_operator.Applied.Scene.{
  SceneSpec, scene_kind, scene_to_yaml, scene_entities, entity_data,
}
use homeassistant_operator.Applied.Script.{
  ScriptSpec, script_kind, script_to_yaml, script_fields, script_sequence, field_entry, limits,
}
use homeassistant_operator.Applied.Entries.{IsHome}
use homeassistant_operator.Applied.Reached.{IsStored, reconcile-IsStored}
use homeassistant_operator.Applied.Rename.{IsServer, IsTracked, reconcile_via_api-IsTracked}
use homeassistant_operator.Applied.Deletion.{handle_deletion-others}
use homeassistant_operator.Applied.Reported.{IsReported, scripts, pass-conditions}

-- The entries of an instance, and the id that the stored object holds.
record Instance : Type 0 where
  entries : List (String × Payload String)
  saved_id : String

abbrev lib : Library String
lib = record {
  unmarshal = λ s. some s;
  unmarshal_map = λ s. some [];
  marshal = λ m. some "";
  sha256 = λ s. s;
}

abbrev home : HomeAssistant
home = record {
  name = "home";
  namespace = "default";
  uid = "u1";
  service_port = none;
  bootstrap = none;
  bootstrap_status = none;
  ban = record {
    window_start = none;
    window_count = 0;
    last_self_unban = none;
    self_unban_count = 0;
  };
  conditions = [];
}

abbrev secret : Secret
secret = record {
  name = "t";
  namespace = "default";
  type = "Opaque";
  labels = [];
  annotations = [];
  contents = ("token", "abc") ∷ [];
  owner = none;
}

abbrev no_status : Status
no_status = record {
  conditions = [];
  hash = "";
  observed_generation = 0;
  last_reload_time = none;
  last_reload_method = "";
  last_error = "";
  entity_count = 0;
}

abbrev stored : Instance → String → Option (Payload String)
stored w id = lookup id w.entries

abbrev saved : Instance → String
saved w = w.saved_id

module _ {S : Type 0} where
  abbrev env : Env Instance S String
  env = record {
    api = record {
      get_home_assistant = λ ns n w. (ok home, w);
      get_secret = λ ns n w. (ok secret, w);
    };
    get = λ w. (err not_found, w);
    update = λ r w. (none, w);
    update_status = λ r w. (none, w);
    patch = λ r w. (none, record w { saved_id = value_at last_applied_key r.annotations });
    put_item = λ s id m w. (none, record w { entries = set id m w.entries });
    delete_item = λ s id w. (none, record w { entries = remove id w.entries });
    disable_item = λ s id w. (none, w);
    now = λ w. 7;
  }

  is_home : IsHome {W = Instance} {S = S} {J = String} env stored
  is_home = record {
    home_kept = λ ns n w. refl;
    secret_kept = λ ns n w. refl;
    update_kept = λ r w. refl;
    status_kept = λ r w. refl;
    patch_kept = λ r w. refl;
    disable_kept = λ s id w. refl;
    put_stored = λ s id m w h. lookup-set_same id m w.entries;
    put_failed = λ s id m w e h. cc;
    put_other = λ s id other m w h. ground (arith, lookup-set id other m w.entries);
    deleted = λ s id w h. lookup-remove_same id w.entries;
    delete_other = λ s id other w h. ground (arith, lookup-remove id other w.entries);
  }

  is_server : IsServer {W = Instance} {S = S} {J = String} env saved
  is_server = record {
    delete_ok = λ s id w. refl;
    patch_ok = λ r w. refl;
    patched = λ r w. refl;
    delete_kept = λ s id w. refl;
    disable_kept = λ s id w. refl;
    put_kept = λ s id m w. refl;
  }

abbrev evening : SceneSpec
evening = record {
  id = "evening";
  name = "Evening";
  icon = "";
  entities = record { entity_id = "light.hall"; state = "on"; attributes = "" } ∷ [];
}

abbrev resource : {S : Type 0} → S → Resource S
resource spec = record {
  name = "r1";
  namespace = "default";
  generation = 2;
  deleting = false;
  has_finalizer = true;
  home_assistant_ref = "home";
  annotations = (last_applied_key, "dusk") ∷ [];
  spec = spec;
  status = no_status;
}

abbrev before : Instance
before = record { entries = ("dusk", []) ∷ []; saved_id = "dusk" }

abbrev session : Session
session = record {
  url = record { service = "home"; namespace = "default"; port = 8123 };
  token = "abc";
}

abbrev scene : Kind SceneSpec String
scene = scene_kind lib

abbrev script : Kind ScriptSpec String
script = script_kind lib

abbrev pass : Reply × Instance
pass = reconcile_resource lib env scene (resource evening) before

settled : pass.0 ≡ done
unfolding reconcile_resource apply on_home_assistant validate_home_assistant_ref on_reference
    calculate_hash on_token on_applied reconcile_via_api delete_previous after_put after_patch
    disable_if after_removal get_api_token active_account dedicated_operator_account
    token_secret_name legacy_mode_name default_name legacy_token scene_to_yaml scene_entities
    entity_data
settled = refl

reconcile-IsStored_example : IsStored lib env scene stored is_home (resource evening) pass.1
reconcile-IsStored_example =
    reconcile-IsStored lib env scene stored is_home (resource evening) before
      (λ e. omega (arith, e)) refl refl settled

tracked : IsTracked lib env scene stored is_home saved is_server before
unfolding IsTracked
tracked id outside = elim outside [ inl e ↦ rw e refl | inr e ↦ rw e refl ]

reconcile_via_api-IsTracked_example :
    IsTracked lib env scene stored is_home saved is_server
      (reconcile_via_api lib env scene session (resource evening) before).1
reconcile_via_api-IsTracked_example =
    reconcile_via_api-IsTracked lib env scene stored is_home saved is_server session
      (resource evening) before (λ e. cc e) refl tracked

-- A scene that was renamed and is then deleted leaves the entry of its old id.
abbrev deletion : Reply × Instance
deletion = handle_deletion lib env scene (resource evening) before

handle_deletion-others_example :
    (deletion.0 ≡ done) × (lookup "dusk" deletion.1.entries ≡ lookup "dusk" before.entries)
handle_deletion-others_example =
    handle_deletion-others lib env scene stored is_home (resource evening) before "dusk"
      (λ r w. refl) refl

left_behind : lookup "dusk" deletion.1.entries ≡ some []
left_behind = handle_deletion-others_example.1

abbrev greet : ScriptSpec
greet = record {
  id = "greet";
  alias = "Greet";
  description = "";
  icon = "";
  sequence = [];
  fields = [];
  mode = "";
  max = none;
  max_exceeded = "";
}

abbrev no_token : Condition
no_token = record {
  status = is_false;
  reason = "TokenNotAvailable";
  message = token_not_available;
  observed_generation = 2;
}

-- A script whose token was missing for a while, and whose hash is as before.
abbrev recovering : Resource ScriptSpec
recovering = record (resource greet) {
  status = record no_status { conditions = ("ReloadReady", no_token) ∷ []; hash = "greet\n" };
}

abbrev recovery : Reply × Instance
recovery = reconcile_resource lib env script recovering before

recovered : recovery.0 ≡ done
unfolding reconcile_resource apply on_home_assistant validate_home_assistant_ref on_reference
    calculate_hash on_token on_applied reconcile_via_api delete_previous after_put after_patch
    disable_if after_removal get_api_token active_account dedicated_operator_account
    token_secret_name legacy_mode_name default_name legacy_token script_to_yaml script_fields
    script_sequence field_entry limits
recovered = refl

pass-conditions_example :
    (hash : String) × (calculate_hash lib env script recovering ≡ some hash)
    × IsReported lib env script false hash recovering.status 2 recovery.1
pass-conditions_example = pass-conditions lib scripts env recovering before refl refl recovered
