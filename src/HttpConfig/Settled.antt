-- ===== src/HttpConfig/Settled.antt =====
-- internal/controller/http_config.go: a configuration that Home Assistant has confirmed is left alone,
-- and only the configuration that the operator wants is confirmed.
use mathlib.Core.Path.{subst}
use homeassistant_operator.Prelude.{
  String, ◌≡◌, refl, sym, ap, ◌∙◌, inl, inr, true, false, not, Option, none, some, [], ◌==◌, arith,
  Bool-cases, Option-cases, if◌then◌else◌,
}
use homeassistant_operator.Cluster.{lookup, is_true}
use homeassistant_operator.HttpConfig.{
  HttpValue, Settings, Response, Library, is_metadata, is_known, keep, put_all, stripped_metadata,
  to_string_list, canonical_proxies, desired_http_config, rendered, http_config_equal, Client,
  in_api, report, applied, on_stable, reconcile_http_config,
}
use homeassistant_operator.HttpConfig.Maps.{
  or_else, lookup-keep, lookup-put_all, lookup-stripped, lookup-canonical, canonical_at, other_key,
  http_config_equal_iff,
}

-- What the layers of the desired configuration have at a key that is no metadata.
module _ {O : Type 0} where
  abbrev layers : Response O → Settings O → String → Option (HttpValue O)
  layers resp section k =
      or_else (lookup k section)
        (or_else (if not (is_known k) then lookup k resp.stable else none) (lookup k resp.default))

  stripped-none :
      (k : String) (m : Settings O)
      → is_metadata k ≡ false
      → lookup k (stripped_metadata m) ≡ lookup k m
  stripped-none k m h = lookup-stripped k m ∙ rw h refl

  or_else-none : (o : Option (HttpValue O)) → or_else o none ≡ o
  or_else-none none = refl
  or_else-none (some v) = refl

module _ {O : Type 0} (lib : Library O) where
  lookup-desired :
      (k : String) (resp : Response O) (section : Settings O)
      → is_metadata k ≡ false
      → lookup k (desired_http_config lib resp section) ≡ canonical_at lib k (layers resp section k)
  unfolding desired_http_config
  lookup-desired k resp section h =
      let defaults = put_all (stripped_metadata resp.default) [] in
      let foreign = keep (λ j. not (is_known j)) (stripped_metadata resp.stable) in
      let base : lookup k defaults ≡ lookup k resp.default =
        lookup-put_all k (stripped_metadata resp.default) []
        ∙ or_else-none (lookup k (stripped_metadata resp.default))
        ∙ stripped-none k resp.default h in
      let passed : lookup k foreign ≡ (if not (is_known k) then lookup k resp.stable else none) =
        lookup-keep (λ j. not (is_known j)) k (stripped_metadata resp.stable)
        ∙ rw (stripped-none k resp.stable h) refl in
      lookup-canonical lib k (put_all section (put_all foreign defaults))
      ∙ ap (λ o. canonical_at lib k o)
          (lookup-put_all k section (put_all foreign defaults)
            ∙ ap (λ o. or_else (lookup k section) o)
                (lookup-put_all k foreign defaults ∙ rw (base, passed) refl))

  -- Two values that print alike and hold the same list of texts, if they hold one.
  abbrev pub Alike : Option (HttpValue O) → Option (HttpValue O) → Type 0
  Alike none none = Unit
  Alike none (some w) = ⊥
  Alike (some v) none = ⊥
  Alike (some v) (some w) = (lib.render v ≡ lib.render w) × (to_string_list v ≡ to_string_list w)

  Alike-refl : (o : Option (HttpValue O)) → Alike o o
  Alike-refl none = tt
  Alike-refl (some v) = (refl, refl)

  canonical_proxies-alike :
      (v w : HttpValue O)
      → lib.render v ≡ lib.render w
      → to_string_list v ≡ to_string_list w
      → lib.render (canonical_proxies lib v) ≡ lib.render (canonical_proxies lib w)
  unfolding canonical_proxies
  canonical_proxies-alike v w h l = elim (Option-cases (to_string_list w)) [
    | inl scalar ↦ rw (canonical_proxies, l, scalar) h
    | inr (s, list) ↦ rw (canonical_proxies, l, list) refl
  ]

  Alike-rendered :
      (k : String) (o p : Option (HttpValue O))
      → Alike o p
      → rendered lib (canonical_at lib k o) ≡ rendered lib (canonical_at lib k p)
  Alike-rendered k none none a = refl
  Alike-rendered k none (some w) a = absurd a
  Alike-rendered k (some v) none a = absurd a
  Alike-rendered k (some v) (some w) a = elim (Bool-cases ("trusted_proxies" == k)) [
    | inl proxies ↦ rw proxies (ap (λ t. some t) (canonical_proxies-alike v w a.0 a.1))
    | inr others ↦ rw others (ap (λ t. some t) a.0)
  ]

  unknown_key : (k : String) → is_known k ≡ false → ("trusted_proxies" == k) ≡ false
  unfolding is_known
  unknown_key k h = ground arith

  none-Alike : (o : Option (HttpValue O)) → Alike o none → o ≡ none
  none-Alike none a = refl
  none-Alike (some v) a = absurd a

  second_none : (a b : Option (HttpValue O)) → or_else a b ≡ none → b ≡ none
  second_none none b h = h
  second_none (some v) b h = absurd (cc h)

  -- A key that the operator does not know keeps the value that Home Assistant holds.
  passed_on :
      (held before default : Option (HttpValue O))
      → Alike (or_else before default) held
      → Alike (or_else held default) held
  passed_on none before default a =
      let gone = second_none before default (none-Alike (or_else before default) a) in rw gone tt
  passed_on (some v) before default a = (refl, refl)

  unknown_layers :
      (k : String) (r : Response O) (section : Settings O)
      → lookup k section ≡ none
      → is_known k ≡ false
      → canonical_at lib k (layers r section k) ≡ or_else (lookup k r.stable) (lookup k r.default)
  unknown_layers k r section unset unknown =
      sym (other_key lib k (layers r section k) (unknown_key k unknown)) ∙ rw (unset, unknown) refl

  layers-Alike :
      (k : String) (resp next : Response O) (section : Settings O)
      → next.default ≡ resp.default
      → Alike (canonical_at lib k (layers resp section k)) (lookup k next.stable)
      → Alike (canonical_at lib k (layers next section k)) (lookup k next.stable)
  layers-Alike k resp next section same a = elim (Option-cases (lookup k section)) [
    | inr (v, set) ↦ rw set (rw set at a)
    | inl unset ↦ elim (Bool-cases (is_known k)) [
      | inl known ↦ rw (unset, known, same) (rw (unset, known) at a)
      | inr unknown ↦
          let held = lookup k next.stable in
          let kept =
            passed_on held (lookup k resp.stable) (lookup k resp.default)
              (subst (λ o. Alike o held) (unknown_layers k resp section unset unknown) a) in
          subst (λ o. Alike o held) (sym (unknown_layers k next section unset unknown))
            (subst (λ d. Alike (or_else held (lookup k d)) held) (sym same) kept)
    ]
  ]

  -- Home Assistant reports the desired configuration of an earlier answer as its stable one: its own
  -- defaults are the same, and every value that is no metadata is alike.
  pub record IsConfirmed (resp next : Response O) (section : Settings O) : Type 0 where
    pub default : next.default ≡ resp.default
    pub settled : next.pending ≡ none
    pub stable :
        (k : String)
        → is_metadata k ≡ false
        → Alike (lookup k (desired_http_config lib resp section)) (lookup k next.stable)

  confirmed-equal :
      (resp next : Response O) (section : Settings O)
      → IsConfirmed resp next section
      → http_config_equal lib (desired_http_config lib next section) next.stable ≡ true
  confirmed-equal resp next section c =
      (http_config_equal_iff lib (desired_http_config lib next section) next.stable).1 (λ k.
        elim (Bool-cases (is_metadata k)) [
          | inl meta ↦ rw meta refl
          | inr real ↦
              let before =
                subst (λ o. Alike o (lookup k next.stable)) (lookup-desired k resp section real)
                  (c.stable k real) in
              let after =
                subst (λ o. Alike o (lookup k next.stable))
                  (sym (lookup-desired k next section real))
                  (layers-Alike k resp next section c.default before) in
              rw real (
                Alike-rendered k (lookup k (desired_http_config lib next section))
                  (lookup k next.stable) after)
        ])

  module _ {W : Type 0} (client : Client O W) where
    -- Once Home Assistant has confirmed the configuration that the operator wanted at an earlier answer,
    -- a later pass with the same settings of the resource sends no command and reports it applied,
    -- whatever keys unknown to the operator were passed on.
    pub confirmed_left_alone :
        (resp next : Response O) (section : Settings O) (w : W)
        → IsConfirmed resp next section
        → reconcile_http_config lib client (in_api next) section true w
          ≡ (report lib is_true applied 0, w)
    unfolding reconcile_http_config on_stable
    confirmed_left_alone resp next section w c =
        rw (reconcile_http_config, c.settled, on_stable, confirmed-equal resp next section c) refl
