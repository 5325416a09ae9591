-- ===== src/HttpConfig.antt =====
-- internal/controller/http_config.go and http_config_fields.go, with the types of
-- internal/haclient/http_config.go: the http: settings of Home Assistant, delivered through its API as
-- a pending configuration that is confirmed on a later pass. What packages net and fmt compute is the
-- record `Library`, and the two commands of Home Assistant are the record `Client`.
pub mod Maps
pub mod Settled
pub mod Promote
mod Tests
use homeassistant_operator.Prelude.{
  ℕ, String, ◌≡◌, Bool, true, false, not, ◌&&◌, Option, none, some, List, [], ◌∷◌, map, ◌==◌, any,
  all, if◌then◌else◌,
}
use homeassistant_operator.Cluster.{
  Failure, Result, ok, err, lookup, ConditionStatus, is_true, is_false, is_unknown,
}

-- An element of a list of type []interface{}; `O` holds what is no text.
pub data Element (O : Type 0) : Type 0 where
  word : String → Element O
  thing : O → Element O

-- A value of a decoded document.
pub data HttpValue (O : Type 0) : Type 0 where
  text : String → HttpValue O
  strings : List String → HttpValue O
  items : List (Element O) → HttpValue O
  other : O → HttpValue O

abbrev pub Settings : Type 0 → Type 0
Settings O = List (String × HttpValue O)

pub record Response (O : Type 0) : Type 0 where
  pub stable : Settings O
  pub pending : Option (Settings O)
  pub default : Settings O

-- `net.ParseCIDR` with the text of its network, `net.ParseIP`, `ip.To4() != nil`, the text of an
-- address with a mask of that many bits, and `fmt.Sprintf("%v", v)`.
pub record Library (O : Type 0) : Type 1 where
  pub Ip : Type 0
  pub parse_cidr : String → Option String
  pub parse_ip : String → Option Ip
  pub is_four : Ip → Bool
  pub with_mask : Ip → ℕ → String
  pub render : HttpValue O → String

pub data Decision (O : Type 0) : Type 0 where
  undetermined : Decision O
  in_yaml : Decision O
  in_api : Response O → Decision O

-- What the probe of the API answers.
pub data Probe (O : Type 0) : Type 0 where
  answered : Response O → Probe O
  unsupported : Probe O
  broken : Probe O

pub data Source : Type 0 where
  from_yaml from_api : Source

pub data HttpReason : Type 0 where
  waiting managed_in_yaml unreadable rejected applied foreign : HttpReason

pub data Event : Type 0 where
  was_rejected : String → Event
  foreign_change : Event

pub record Outcome : Type 0 where
  pub source : Option Source
  pub status : ConditionStatus
  pub reason : HttpReason
  pub event : Option Event
  pub requeue_after : ℕ

-- The commands that change the configuration: `none` clears a pending one.
pub record Client (O W : Type 0) : Type 0 where
  pub configure : Option (Settings O) → W → Result Bool × W
  pub promote : W → Option Failure × W

abbrev pub metadata_keys : List String
metadata_keys = "created_at" ∷ "error" ∷ "error_message" ∷ "base_url" ∷ []

abbrev pub known_keys : List String
known_keys =
    "server_host" ∷ "server_port" ∷ "ssl_certificate" ∷ "ssl_peer_certificate" ∷ "ssl_key"
    ∷ "cors_allowed_origins" ∷ "use_x_forwarded_for" ∷ "trusted_proxies"
    ∷ "login_attempts_threshold" ∷ "ip_ban_enabled" ∷ "ssl_profile" ∷ "use_x_frame_options" ∷ []

unfoldable pub is_metadata : String → Bool
is_metadata key = any (λ k. k == key) metadata_keys

unfoldable pub is_known : String → Bool
is_known key = any (λ k. k == key) known_keys

module _ {O : Type 0} where
  unfoldable pub put : String → HttpValue O → Settings O → Settings O
  put key v [] = (key, v) ∷ []
  put key v ((k, u) ∷ m) = if k == key then (key, v) ∷ m else (k, u) ∷ put key v m

  -- The keys of a map that pass a test.
  unfoldable pub keep : (String → Bool) → Settings O → Settings O
  keep p [] = []
  keep p ((k, v) ∷ m) = let rest = keep p m in if p k then (k, v) ∷ rest else rest

  -- A loop that writes the entries of one map into another.
  unfoldable pub put_all : Settings O → Settings O → Settings O
  put_all [] base = base
  put_all ((k, v) ∷ m) base = put k v (put_all m base)

  unfoldable pub stripped_metadata : Settings O → Settings O
  stripped_metadata d = keep (λ k. not (is_metadata k)) d

  abbrev text_of : Option (HttpValue O) → String
  text_of (some (text s)) = s
  text_of _ = ""

  unfoldable pub pending_error : Settings O → String
  pending_error p =
      if not (text_of (lookup "error_message" p) == "")
      then text_of (lookup "error_message" p)
      else text_of (lookup "error" p)

  words : List (Element O) → Option (List String)
  words [] = some []
  words (thing o ∷ l) = none
  words (word s ∷ l) = elim (words l) [ none ↦ none | some t ↦ some (s ∷ t) ]

  unfoldable pub to_string_list : HttpValue O → Option (List String)
  unfolding words
  to_string_list (strings l) = some l
  to_string_list (items l) = words l
  to_string_list _ = none

module _ {O : Type 0} (lib : Library O) where
  canonical_trusted_proxy : String → String
  canonical_trusted_proxy entry = elim (lib.parse_cidr entry) [
    | some network ↦ network
    | none ↦ elim (lib.parse_ip entry) [
      | none ↦ entry
      | some ip ↦ lib.with_mask ip (if lib.is_four ip then 32 else 128)
    ]
  ]

  unfoldable pub canonical_proxies : HttpValue O → HttpValue O
  unfolding canonical_trusted_proxy
  canonical_proxies v = elim (to_string_list v) [
    | none ↦ v
    | some l ↦ items (map (λ e. word (canonical_trusted_proxy e)) l)
  ]

  unfoldable pub canonicalize_trusted_proxies : Settings O → Settings O
  canonicalize_trusted_proxies d = elim (lookup "trusted_proxies" d) [
    | none ↦ d
    | some raw ↦ put "trusted_proxies" (canonical_proxies raw) d
  ]

  unfoldable pub desired_http_config : Response O → Settings O → Settings O
  desired_http_config resp section =
      let defaults = put_all (stripped_metadata resp.default) [] in
      let passed =
        put_all (keep (λ k. not (is_known k)) (stripped_metadata resp.stable)) defaults in
      canonicalize_trusted_proxies (put_all section passed)

  abbrev pub rendered : Option (HttpValue O) → Option String
  rendered none = none
  rendered (some v) = some (lib.render v)

  abbrev pub same_text : Option String → Option String → Bool
  same_text none none = true
  same_text none (some _) = false
  same_text (some _) none = false
  same_text (some a) (some b) = a == b

  -- Whether the maps agree at every key of the list.
  unfoldable pub agree_on : List (String × HttpValue O) → Settings O → Settings O → Bool
  agree_on [] a b = true
  agree_on ((k, _) ∷ keys) a b =
      same_text (rendered (lookup k a)) (rendered (lookup k b)) && agree_on keys a b

  -- `reflect.DeepEqual` of the rendered maps: they agree at the keys of both.
  unfoldable pub http_config_equal : Settings O → Settings O → Bool
  http_config_equal desired held =
      let a = canonicalize_trusted_proxies (stripped_metadata desired) in
      let b = canonicalize_trusted_proxies (stripped_metadata held) in
      agree_on a a b && agree_on b a b

  unfoldable pub decide_http_config_path : Result String → Bool → Probe O → Decision O
  decide_http_config_path (err e) ready probe = undetermined
  decide_http_config_path (ok token) ready probe =
      if token == "" then undetermined else if not ready then undetermined else elim probe [
        | answered resp ↦ in_api resp
        | unsupported ↦ in_yaml
        | broken ↦ undetermined
      ]

  abbrev pub report : ConditionStatus → HttpReason → ℕ → Outcome
  report status reason seconds = record {
    source = some from_api;
    status = status;
    reason = reason;
    event = none;
    requeue_after = seconds;
  }

  module _ {W : Type 0} (client : Client O W) where
    clear_rejected : String → Result Bool × W → Outcome × W
    clear_rejected message (_, w) =
        (record (report is_false rejected 30) { event = some (was_rejected message) }, w)

    after_promote : Option Failure × W → Outcome × W
    after_promote (some e, w) = (report is_false rejected 30, w)
    after_promote (none, w) = (report is_true applied 0, w)

    after_configure : Result Bool × W → Outcome × W
    after_configure (err e, w) = (report is_false rejected 30, w)
    after_configure (ok restart, w) = (report is_unknown waiting 30, w)

    unfoldable pub on_pending : Settings O → Settings O → W → Outcome × W
    unfolding clear_rejected after_promote
    on_pending desired p w =
        if not (pending_error p == "")
        then clear_rejected (pending_error p) (client.configure none w)
        else if http_config_equal desired p
        then after_promote (client.promote w)
        else (record (report is_false foreign 30) { event = some foreign_change }, w)

    unfoldable pub on_stable : Settings O → Settings O → W → Outcome × W
    unfolding after_configure
    on_stable desired stable w =
        if http_config_equal desired stable
        then (report is_true applied 0, w)
        else after_configure (client.configure (some desired) w)

    unfoldable pub reconcile_http_config : Decision O → Settings O → Bool → W → Outcome × W
    reconcile_http_config undetermined section readable w =
        (record (report is_unknown waiting 30) { source = none }, w)
    reconcile_http_config in_yaml section readable w =
        (record (report is_true managed_in_yaml 0) { source = some from_yaml }, w)
    reconcile_http_config (in_api resp) section readable w =
        if not readable
        then (record (report is_false unreadable 0) { source = some from_yaml }, w)
        else elim resp.pending [
          | some p ↦ on_pending (desired_http_config resp section) p w
          | none ↦ on_stable (desired_http_config resp section) resp.stable w
        ]
