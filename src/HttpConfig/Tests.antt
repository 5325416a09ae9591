-- ===== src/HttpConfig/Tests.antt =====
-- internal/controller/http_config.go: a configuration that is sent, confirmed and left alone.
use homeassistant_operator.Prelude.{
  ℕ, String, ◌+◌, ◌≡◌, ◌↔◌, refl, true, false, Option, none, some, [], ◌∷◌, ◌==◌, if◌then◌else◌,
}
use homeassistant_operator.Cluster.{ok, is_true, lookup}
use homeassistant_operator.HttpConfig.{
  HttpValue, text, strings, items, other, Settings, Response, Library, Client, in_api, report,
  applied, reconcile_http_config, on_pending, desired_http_config, http_config_equal, agree_on,
  canonicalize_trusted_proxies, stripped_metadata, keep, put, put_all, is_metadata, is_known,
  pending_error, after_promote,
}
use homeassistant_operator.HttpConfig.Maps.{compared, http_config_equal_iff}
use homeassistant_operator.HttpConfig.Settled.{Alike, IsConfirmed, confirmed_left_alone}
use homeassistant_operator.HttpConfig.Promote.{IsCount, Confirms, promotes_iff}

-- Every text is an address, and a network is printed with its mask.
abbrev lib : Library ℕ
lib = record {
  Ip = String;
  parse_cidr = λ s. if s == "10.0.0.1/32" then some s else none;
  parse_ip = λ s. some s;
  is_four = λ ip. true;
  with_mask = λ ip bits. if ip == "10.0.0.1" then "10.0.0.1/32" else ip;
  render = λ v. elim v [ text s ↦ s | strings l ↦ "list" | items l ↦ "list" | other n ↦ "number" ];
}

-- The world counts the confirmations.
abbrev client : Client ℕ ℕ
client = record { configure = λ d w. (ok false, w); promote = λ w. (none, w + 1) }

abbrev section : Settings ℕ
section = ("use_x_frame_options", text "false") ∷ []

abbrev defaults : Settings ℕ
defaults = ("use_x_frame_options", text "true") ∷ []

-- An option of a newer Home Assistant, which the operator does not know, and a time of writing.
abbrev fresh : Response ℕ
fresh = record {
  stable = ("new_option", text "on") ∷ ("created_at", text "now") ∷ [];
  pending = none;
  default = defaults;
}

abbrev wanted : Settings ℕ
wanted = ("use_x_frame_options", text "false") ∷ ("new_option", text "on") ∷ []

wanted_run : desired_http_config lib fresh section ≡ wanted
unfolding desired_http_config canonicalize_trusted_proxies put_all put keep stripped_metadata
    is_metadata is_known
wanted_run = refl

abbrev held : Response ℕ
held = record { stable = wanted; pending = none; default = defaults }

self-Alike : (o : Option (HttpValue ℕ)) → Alike lib o o
self-Alike none = tt
self-Alike (some v) = (refl, refl)

held-IsConfirmed : IsConfirmed lib fresh held section
held-IsConfirmed = record {
  default = refl;
  settled = refl;
  stable = λ k _. rw wanted_run (self-Alike (lookup k wanted));
}

confirmed_left_alone_example :
    reconcile_http_config lib client (in_api held) section true 0
    ≡ (report lib is_true applied 0, 0)
confirmed_left_alone_example = confirmed_left_alone lib client fresh held section 0 held-IsConfirmed

count : IsCount lib client (λ w. w)
count = record { configured = λ d w. refl; promoted = λ w. refl }

abbrev sent : Response ℕ
sent = record { stable = []; pending = some section; default = defaults }

promotes_iff_example :
    ((reconcile_http_config lib client (in_api sent) section true 0).1 ≡ 1)
    ↔ Confirms lib client (λ w. w) count (in_api sent) section true
promotes_iff_example = promotes_iff lib client (λ w. w) count (in_api sent) section true 0

promotes_run : (reconcile_http_config lib client (in_api sent) section true 0).1 ≡ 1
unfolding reconcile_http_config on_pending pending_error http_config_equal agree_on
    desired_http_config canonicalize_trusted_proxies put_all put keep stripped_metadata is_metadata
    is_known after_promote
promotes_run = refl

http_config_equal_iff_example :
    (http_config_equal lib (("trusted_proxies", strings ("10.0.0.1" ∷ [])) ∷ []) wanted ≡ true) ↔ (
      (k : String)
      → compared lib (("trusted_proxies", strings ("10.0.0.1" ∷ [])) ∷ []) k
        ≡ compared lib wanted k)
http_config_equal_iff_example =
    http_config_equal_iff lib (("trusted_proxies", strings ("10.0.0.1" ∷ [])) ∷ []) wanted
