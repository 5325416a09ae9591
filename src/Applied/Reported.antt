-- ===== src/Applied/Reported.antt =====
-- internal/controller, the automation, scene and script controllers: the status that a pass which
-- succeeds writes, for each of the three.
use mathlib.Core.Path.{subst}
use homeassistant_operator.Prelude.{
  ℕ, String, ◌≡◌, ◌≢◌, ◌∙◌, sym, refl, ap, Bool, true, false, ◌||◌, not, Option, none, some, ◌==◌,
  inl, inr, arith, Bool-cases, Option-cases, if◌then◌else◌,
}
use homeassistant_operator.Cluster.{
  Failure, Result, ok, err, not_found, done, is_true, lookup, HomeAssistant,
}
use homeassistant_operator.Credentials.{Session, get_api_token}
use homeassistant_operator.Applied.Model.{
  Condition, Status, Resource, applied, loaded, Library, Env, Kind,
}
use homeassistant_operator.Applied.{
  calculate_hash, session, on_reference, after_removal, after_patch, after_put, reconcile_via_api,
  effective_id, report_not_ready, succeeded, on_applied, on_token, on_home_assistant,
  reconcile_resource,
}
use homeassistant_operator.Applied.Automation.{AutomationSpec, automation_kind}
use homeassistant_operator.Applied.Scene.{SceneSpec, scene_kind}
use homeassistant_operator.Applied.Script.{ScriptSpec, script_kind}
use homeassistant_operator.Applied.Conditions.{succeeded-conditions}
use homeassistant_operator.Applied.Reached.{live-pass}

abbrev reload_succeeded : ℕ → Condition
reload_succeeded generation = record {
  status = is_true;
  reason = "ReloadSuccessful";
  message = applied;
  observed_generation = generation;
}

module _ {W S J : Type 0} (lib : Library J) (env : Env W S J) (k : Kind S J) where
  -- The world is the one after a status was written over the status `old`, for the hash of the spec.
  pub record IsReported (always : Bool) (hash : String) (old : Status) (generation : ℕ) (after : W)
      : Type 0 where
    pub reported : Resource S
    pub before : W
    pub accepted : (env.update_status reported before).0 ≡ none
    pub written : after ≡ (env.update_status reported before).1
    pub ready :
        lookup "Ready" reported.status.conditions
        ≡ some (record {
          status = is_true;
          reason = k.generated_reason;
          message = loaded;
          observed_generation = generation;
        })
    pub reload : lookup "ReloadReady" reported.status.conditions ≡ (
        if always || not (old.hash == hash)
        then some (reload_succeeded generation)
        else lookup "ReloadReady" old.conditions)

  -- Only the annotations differ.
  record IsSame (r r' : Resource S) : Type 0 where
    status : r'.status ≡ r.status
    generation : r'.generation ≡ r.generation

  patched-IsSame :
      (s : Session) (r : Resource S) (x : Option Failure × W)
      → IsSame r (after_patch lib env k s r x).0.1
  unfolding after_patch
  patched-IsSame s r (none, w) = record { status = refl; generation = refl }
  patched-IsSame s r (some e, w) = elim (Bool-cases k.patch_is_fatal) [
    | inl fatal ↦ rw (fatal, after_patch) (record { status = refl; generation = refl })
    | inr logged ↦ rw (logged, after_patch) (record { status = refl; generation = refl })
  ]

  put-IsSame :
      (s : Session) (r : Resource S) (x : Option Failure × W)
      → IsSame r (after_put lib env k s r x).0.1
  unfolding after_put
  put-IsSame s r (some e, w) = record { status = refl; generation = refl }
  put-IsSame s r (none, w) =
      let same = patched-IsSame s _ (env.patch _ w) in
      record { status = same.status; generation = same.generation }

  via_api-IsSame :
      (s : Session) (r : Resource S) (w : W) → IsSame r (reconcile_via_api lib env k s r w).0.1
  unfolding reconcile_via_api
  via_api-IsSame s r w = elim (Option-cases (k.to_map (effective_id lib env k r) r.spec)) [
    | inl bad ↦ rw (bad, reconcile_via_api) (record { status = refl; generation = refl })
    | inr (m, good) ↦ rw (good, reconcile_via_api) (put-IsSame s r _)
  ]

  removal-done : (x : Option Failure × W) → (after_removal lib env k x).0 ≡ done → x.0 ≡ none
  unfolding after_removal
  removal-done (none, w) h = refl
  removal-done (some e, w) h = cc

  removal-kept : (x : Option Failure × W) → (after_removal lib env k x).1 ≡ x.1
  unfolding after_removal
  removal-kept (none, w) = refl
  removal-kept (some e, w) = refl

  applied-IsReported :
      (hash : String) (x : (Option Failure × Resource S) × W)
      → (on_applied lib env k hash x).0 ≡ done
      → IsReported k.always_records hash x.0.1.status x.0.1.generation
          (on_applied lib env k hash x).1
  unfolding on_applied report_not_ready
  applied-IsReported hash ((some e, r), w) h = absurd (omega (arith, ap (λ p. p.requeue_after) h))
  applied-IsReported hash ((none, r), w) h =
      let written = env.update_status (succeeded lib env k (env.now w) hash r) w in
      let (is_ready, is_reloaded) = succeeded-conditions lib env k (env.now w) hash r in
      record {
        reported = succeeded lib env k (env.now w) hash r;
        before = w;
        accepted = removal-done written h;
        written = removal-kept written;
        ready = is_ready;
        reload = is_reloaded;
      }

  token-IsReported :
      (ha : HomeAssistant) (hash : String) (r : Resource S) (x : Result String × W)
      → (on_token lib env k ha hash r x).0 ≡ done
      → IsReported k.always_records hash r.status r.generation (on_token lib env k ha hash r x).1
  unfolding on_token report_not_ready
  token-IsReported ha hash r (err e, w) h = absurd (omega (arith, ap (λ p. p.requeue_after) h))
  token-IsReported ha hash r (ok token, w) h =
      let s = session lib env k ha token in
      let y = reconcile_via_api lib env k s r w in
      let same = via_api-IsSame s r w in
      let final = (on_applied lib env k hash y).1 in
      subst (λ g. IsReported k.always_records hash r.status g final) same.generation
        (subst (λ o. IsReported k.always_records hash o y.0.1.generation final) same.status
          (applied-IsReported hash y h))

  home-IsReported :
      (r : Resource S) (x : Result HomeAssistant × W)
      → k.ref_delay ≢ 0
      → (on_home_assistant lib env k (on_reference lib env k r x)).0 ≡ done
      → (hash : String) × (calculate_hash lib env k r ≡ some hash)
        × IsReported k.always_records hash r.status r.generation
            (on_home_assistant lib env k (on_reference lib env k r x)).1
  unfolding on_home_assistant on_reference
  home-IsReported r (err not_found, w) delay h = absurd (delay (ap (λ p. p.requeue_after) h))
  home-IsReported r (err _, w) delay h = absurd (delay (ap (λ p. p.requeue_after) h))
  home-IsReported r (ok ha, w) delay h = elim (Option-cases (calculate_hash lib env k r)) [
    | inl bad ↦ absurd (cc (rw (bad, on_home_assistant) at h))
    | inr (hash, good) ↦ (
      hash,
      good,
      rw (good, on_home_assistant)
          (token-IsReported ha hash r (get_api_token env.api ha w)
            (rw (good, on_home_assistant) at h)),
    )
  ]

  pass-IsReported :
      (r : Resource S) (w : W)
      → k.ref_delay ≢ 0
      → r.deleting ≡ false
      → r.has_finalizer ≡ true
      → (reconcile_resource lib env k r w).0 ≡ done
      → (hash : String) × (calculate_hash lib env k r ≡ some hash)
        × IsReported k.always_records hash r.status r.generation
            (reconcile_resource lib env k r w).1
  pass-IsReported r w delay live has h =
      let x = env.api.get_home_assistant r.namespace r.home_assistant_ref w in
      let same = live-pass lib env k r w live has in
      subst
        (λ y.
          (hash : String) × (calculate_hash lib env k r ≡ some hash)
          × IsReported k.always_records hash r.status r.generation y.1)
        (sym same) (home-IsReported r x delay (ap (λ y. y.0) (sym same) ∙ h))

pub data Controller : Type 0 where
  automations scenes scripts : Controller

abbrev pub SpecOf : Controller → Type 0
SpecOf automations = AutomationSpec
SpecOf scenes = SceneSpec
SpecOf scripts = ScriptSpec

abbrev pub kind_of : {J : Type 0} → Library J → (c : Controller) → Kind (SpecOf c) J
kind_of lib automations = automation_kind lib
kind_of lib scenes = scene_kind lib
kind_of lib scripts = script_kind lib

abbrev pub is_scenes : Controller → Bool
is_scenes automations = false
is_scenes scenes = true
is_scenes scripts = false

-- A pass of one of the three controllers over a resource that has its finalizer and is not being
-- deleted, which ends with no error and no requeue, ends with a status update that is accepted. The
-- status has the condition Ready True. Its condition ReloadReady is True for a scene, and for an
-- automation or a script if the hash of the spec differs from that of the old status; otherwise it is
-- the old one, a False one of an earlier failure included.
pub pass-conditions :
    {W J : Type 0} (lib : Library J) (c : Controller) (env : Env W (SpecOf c) J)
    (r : Resource (SpecOf c)) (w : W)
    → r.deleting ≡ false
    → r.has_finalizer ≡ true
    → (reconcile_resource lib env (kind_of lib c) r w).0 ≡ done
    → (hash : String) × (calculate_hash lib env (kind_of lib c) r ≡ some hash)
      × IsReported lib env
          (kind_of lib c)
          (is_scenes c)
          hash
          r.status
          r.generation
          (reconcile_resource lib env (kind_of lib c) r w).1
pass-conditions lib automations env r w live has h =
    pass-IsReported lib env (automation_kind lib) r w (λ e. omega (arith, e)) live has h
pass-conditions lib scenes env r w live has h =
    pass-IsReported lib env (scene_kind lib) r w (λ e. omega (arith, e)) live has h
pass-conditions lib scripts env r w live has h =
    pass-IsReported lib env (script_kind lib) r w (λ e. omega (arith, e)) live has h
