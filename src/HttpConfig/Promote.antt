-- ===== src/HttpConfig/Promote.antt =====
-- internal/controller/http_config.go: which pending configuration the operator confirms.
use homeassistant_operator.Prelude.{
  ℕ, String, ◌+◌, ◌≡◌, ◌↔◌, refl, inl, inr, Bool, true, false, Option, none, some, ◌==◌, arith,
  eq_iff, Bool-cases, Option-cases, if◌then◌else◌,
}
use homeassistant_operator.Cluster.{Failure, Result, ok, err}
use homeassistant_operator.HttpConfig.{
  Settings, Response, Library, desired_http_config, http_config_equal, Client, Decision,
  undetermined, in_yaml, in_api, pending_error, on_pending, on_stable, reconcile_http_config,
  clear_rejected, after_promote, after_configure,
}

module _ {O W : Type 0} (lib : Library O) (client : Client O W) where
  -- A count of the confirmations that Home Assistant was asked for.
  pub record IsCount (promotions : W → ℕ) : Type 0 where
    pub configured :
        (d : Option (Settings O)) (w : W) → promotions (client.configure d w).1 ≡ promotions w
    pub promoted : (w : W) → promotions (client.promote w).1 ≡ promotions w + 1

  cleared-world : (m : String) (r : Result Bool × W) → (clear_rejected lib client m r).1 ≡ r.1
  unfolding clear_rejected
  cleared-world m (r, w) = refl

  promoted-world : (r : Option Failure × W) → (after_promote lib client r).1 ≡ r.1
  unfolding after_promote
  promoted-world (none, w) = refl
  promoted-world (some e, w) = refl

  configured-world : (r : Result Bool × W) → (after_configure lib client r).1 ≡ r.1
  unfolding after_configure
  configured-world (ok b, w) = refl
  configured-world (err e, w) = refl

  -- The pending configuration is the one that the operator wants, and was not rejected.
  pub record IsWanted (resp : Response O) (section : Settings O) (p : Settings O) : Type 0 where
    pub pending : resp.pending ≡ some p
    pub accepted : pending_error p ≡ ""
    pub equal : http_config_equal lib (desired_http_config lib resp section) p ≡ true

  module _ (promotions : W → ℕ) (c : IsCount promotions) where
    on_stable-keeps :
        (d s : Settings O) (w : W) → promotions (on_stable lib client d s w).1 ≡ promotions w
    unfolding on_stable
    on_stable-keeps d s w = elim (Bool-cases (http_config_equal lib d s)) [
      | inl same ↦ rw same refl
      | inr differs ↦
          rw (differs, configured-world (client.configure (some d) w)) (c.configured (some d) w)
    ]

    on_pending-count :
        (d p : Settings O) (w : W)
        → promotions (on_pending lib client d p w).1
          ≡ promotions w
            + (if pending_error p == "" then (if http_config_equal lib d p then 1 else 0) else 0)
    unfolding on_pending
    on_pending-count d p w = elim (Bool-cases (pending_error p == "")) [
      | inr bad ↦
          rw (bad, cleared-world (pending_error p) (client.configure none w))
            (omega (arith, c.configured none w))
      | inl good ↦ elim (Bool-cases (http_config_equal lib d p)) [
        | inl same ↦ rw (good, same, promoted-world (client.promote w)) (c.promoted w)
        | inr differs ↦ rw (good, differs) (omega arith)
      ]
    ]

    IsWanted-count :
        (resp : Response O) (section p : Settings O) (w : W)
        → resp.pending ≡ some p
        → (promotions (on_pending lib client (desired_http_config lib resp section) p w).1
            ≡ promotions w + 1)
          ↔ IsWanted resp section p
    IsWanted-count resp section p w here =
        let d = desired_http_config lib resp section in
        let count = on_pending-count d p w in
        (
          λ h. record {
            pending = here;
            accepted = ground (arith, count, eq_iff (pending_error p) "");
            equal = ground (arith, count);
          },
          λ i. ground (arith, count, i.accepted, i.equal, eq_iff (pending_error p) ""),
        )

    -- What has to hold for a confirmation.
    abbrev pub Confirms : Decision O → Settings O → Bool → Type 0
    Confirms decision section readable =
        (resp : Response O) × (p : Settings O) × (decision ≡ in_api resp)
        × (readable ≡ true)
        × IsWanted resp section p

    api-promotes :
        (resp : Response O) (section : Settings O) (w : W)
        → (promotions (reconcile_http_config lib client (in_api resp) section true w).1
            ≡ promotions w + 1)
          ↔ ((p : Settings O) × IsWanted resp section p)
    unfolding reconcile_http_config
    api-promotes resp section w = elim (Option-cases resp.pending) [
      | inl idle ↦ (
        λ h.
            let kept = on_stable-keeps (desired_http_config lib resp section) resp.stable w in
            absurd (omega (arith, kept, rw (idle, reconcile_http_config) at h)),
        λ (p, i). absurd (cc (idle, i.pending)),
      )
      | inr (p, here) ↦
          let (to, from) = IsWanted-count resp section p w here in
          (
            λ h. (p, to (rw (here, reconcile_http_config) at h)),
            λ (q, i).
                let same : q ≡ p = cc (here, i.pending) in
                rw (here, reconcile_http_config) (from (rw same at i)),
          )
    ]

    -- A pass confirms a configuration exactly if the API of Home Assistant answered, the http: section
    -- of the resource can be read, and the pending configuration was not rejected and equals the one
    -- that the operator wants.
    pub promotes_iff :
        (decision : Decision O) (section : Settings O) (readable : Bool) (w : W)
        → (promotions (reconcile_http_config lib client decision section readable w).1
            ≡ promotions w + 1)
          ↔ Confirms decision section readable
    unfolding reconcile_http_config
    promotes_iff undetermined section readable w =
        (λ h. absurd (omega (arith, h)), λ (resp, p, e, t, i). absurd (cc e))
    promotes_iff in_yaml section readable w =
        (λ h. absurd (omega (arith, h)), λ (resp, p, e, t, i). absurd (cc e))
    promotes_iff (in_api resp) section false w =
        (λ h. absurd (omega (arith, h)), λ (r, p, e, t, i). absurd (cc t))
    promotes_iff (in_api resp) section true w =
        let (to, from) = api-promotes resp section w in
        (
          λ h. let (p, i) = to h in (resp, p, refl, refl, i),
          λ (r, p, e, t, i). let same : r ≡ resp = cc e in from (p, rw same at i),
        )
