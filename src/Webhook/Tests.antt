-- ===== src/Webhook/Tests.antt =====
-- internal/webhook/v1: the collision check on concrete resources.
use homeassistant_operator.Prelude.{
  String, ◌≡◌, ◌≢◌, refl, false, none, some, [], ◌∷◌, ◌==◌, arith, eq_iff,
}
use homeassistant_operator.Webhook.{
  Resource, admit, validate, check_identifier_collision, find_identifier_collision,
}
use homeassistant_operator.Webhook.Disjoint.{
  IsFirstClash, validate-accepts_iff, validate-refuses_first,
}
use homeassistant_operator.Webhook.Store.{
  Store, empty, created, updated, terminating, replace, terminate, AreDisjoint,
  admitted-AreDisjoint,
}

abbrev movie : Resource
movie = record {
  name = "movie";
  uid = "u1";
  deletion_timestamp = none;
  home_assistant_ref = "home";
  id = "";
}

abbrev film : Resource
film = record {
  name = "film";
  uid = "u2";
  deletion_timestamp = none;
  home_assistant_ref = "home";
  id = "movie";
}

abbrev night : Resource
night = record film { id = "night" }

nonempty : (s : String) → (s == "") ≡ false → s ≢ ""
nonempty s h e = ground (arith, eq_iff s "")

film_refused :
    validate "HomeAssistantScene" (some (movie ∷ [])) film
    ≡ some (record {
      kind = "HomeAssistantScene";
      self_name = "film";
      self_effective_id = "movie";
      conflict = "movie";
      home_assistant = "home";
    })
unfolding validate check_identifier_collision find_identifier_collision
film_refused = refl

validate-accepts_iff_example : validate "HomeAssistantScene" (some (movie ∷ [])) night ≡ none
validate-accepts_iff_example =
    (validate-accepts_iff "HomeAssistantScene" night (movie ∷ []) (nonempty "movie" refl, tt)).1
      (refl, tt)

validate-refuses_first_example : IsFirstClash film (movie ∷ []) (record {
  kind = "HomeAssistantScene";
  self_name = "film";
  self_effective_id = "movie";
  conflict = "movie";
  home_assistant = "home";
})
validate-refuses_first_example =
    validate-refuses_first "HomeAssistantScene" film (movie ∷ [])
      (record {
        kind = "HomeAssistantScene";
        self_name = "film";
        self_effective_id = "movie";
        conflict = "movie";
        home_assistant = "home";
      })
      film_refused

one_stored : Store "HomeAssistantScene" (movie ∷ [])
unfolding admit validate check_identifier_collision find_identifier_collision
one_stored = created movie [] empty (nonempty "movie" refl) refl

two_stored : Store "HomeAssistantScene" (night ∷ movie ∷ [])
unfolding admit validate check_identifier_collision find_identifier_collision
two_stored = created night (movie ∷ []) one_stored (nonempty "film" refl) refl

-- Once the first scene is being deleted, the second one may take its identifier.
renamed : Store "HomeAssistantScene" (replace film (terminate "u1" 5 (night ∷ movie ∷ [])))
unfolding admit validate check_identifier_collision find_identifier_collision
renamed =
    updated night film (terminate "u1" 5 (night ∷ movie ∷ []))
      (terminating "u1" 5 (night ∷ movie ∷ []) two_stored) (nonempty "film" refl) refl

admitted-AreDisjoint_example : AreDisjoint (replace film (terminate "u1" 5 (night ∷ movie ∷ [])))
admitted-AreDisjoint_example =
    admitted-AreDisjoint "HomeAssistantScene" (replace film (terminate "u1" 5 (night ∷ movie ∷ [])))
      renamed
