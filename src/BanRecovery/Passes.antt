-- ===== src/BanRecovery/Passes.antt =====
-- internal/controller/bootstrap_controller.go: what a pass of ban recovery does to the stored status
-- and to the pod, when each status patch succeeds.
use Prim.Native.String.{◌++◌ as str_append}
use homeassistant_operator.Prelude.{
  ℕ, String, ◌+◌, ◌≤◌, ◌≡◌, ◌⊎◌, ◌∙◌, refl, ap, inl, inr, false, Option, none, some, List, [], ◌∷◌,
  leb, arith, Bool-cases, Option-cases,
}
use homeassistant_operator.Cluster.{Failure, not_found, HomeAssistant}
use homeassistant_operator.BanRecovery.{
  BanApi, after_patch, after_delete, after_get, reset_expired, cooling, counted,
  ban_restart_max_count, report_limit, commit_restart, restart_pod, handle_self_ban,
}

abbrev if_none : Option Failure → ℕ
if_none none = 1
if_none (some e) = 0

module _ {W : Type 0} (api : BanApi W) where
  -- The stored object, and a count of the pods that were deleted.
  pub record IsServer (load : W → HomeAssistant) (deleted : W → ℕ) : Type 0 where
    pub patch_ok : (ha : HomeAssistant) (w : W) → (api.patch_status ha w).0 ≡ none
    pub patch_load : (ha : HomeAssistant) (w : W) → load (api.patch_status ha w).1 ≡ ha
    pub patch_deleted : (ha : HomeAssistant) (w : W) → deleted (api.patch_status ha w).1 ≡ deleted w
    pub get_load : (n ns : String) (w : W) → load (api.get_pod n ns w).1 ≡ load w
    pub get_deleted : (n ns : String) (w : W) → deleted (api.get_pod n ns w).1 ≡ deleted w
    pub delete_load : (n ns : String) (w : W) → load (api.delete_pod n ns w).1 ≡ load w
    pub delete_deleted :
        (n ns : String) (w : W)
        → deleted (api.delete_pod n ns w).1 ≡ deleted w + if_none (api.delete_pod n ns w).0

  -- The passes that find the operator banned, at these times: each starts from the stored object.
  unfoldable pub passes : (W → HomeAssistant) → List ℕ → W → W
  passes load [] w = w
  passes load (t ∷ ts) w = passes load ts (handle_self_ban api t t (load w) w).1

  module _ (load : W → HomeAssistant) (deleted : W → ℕ) (server : IsServer load deleted) where
    -- The counters are as before the pass, or an expired window was reset.
    pub record IsIdle (t : ℕ) (w w' : W) : Type 0 where
      pub pods : deleted w' ≡ deleted w
      pub ban : ((load w').ban ≡ (load w).ban) ⊎ ((load w').ban ≡ reset_expired t (load w).ban)

    pub record IsRestart (t : ℕ) (w w' : W) : Type 0 where
      pub pods : deleted w' ≤ deleted w + 1
      pub ban : (load w').ban ≡ counted t (reset_expired t (load w).ban)
      pub cooled : cooling t (reset_expired t (load w).ban) ≡ none
      pub below : leb ban_restart_max_count (reset_expired t (load w).ban).window_count ≡ false

    patched-world : (ha : HomeAssistant) (r : Option Failure × W) → (after_patch api ha r).1 ≡ r.1
    unfolding after_patch
    patched-world ha (none, w) = refl
    patched-world ha (some e, w) = refl

    patched :
        (ha : HomeAssistant) (w : W)
        → (load (after_patch api ha (api.patch_status ha w)).1 ≡ ha)
          × (deleted (after_patch api ha (api.patch_status ha w)).1 ≡ deleted w)
    patched ha w =
        rw (patched-world ha (api.patch_status ha w))
          (server.patch_load ha w, server.patch_deleted ha w)

    IsCommitted : ℕ → HomeAssistant → W → W → Type 0
    IsCommitted t ha w w' = ((load w').ban ≡ counted t ha.ban) × (deleted w' ≡ deleted w)

    committed :
        (t : ℕ) (ha : HomeAssistant) (w : W) → IsCommitted t ha w (commit_restart api t ha w).1
    unfolding commit_restart IsCommitted
    committed t ha w = let p = patched _ w in (ap (λ h. h.ban) p.0, p.1)

    limited :
        (t : ℕ) (ha : HomeAssistant) (w : W)
        → ((load (report_limit api ha w).1).ban ≡ ha.ban)
          × (deleted (report_limit api ha w).1 ≡ deleted w)
    unfolding report_limit
    limited t ha w = (ap (λ h. h.ban) (server.patch_load _ w), server.patch_deleted _ w)

    -- The pod is restarted, or a call failed and nothing is written.
    IsRestarted : ℕ → HomeAssistant → W → W → Type 0
    IsRestarted t ha w w' =
        (((load w').ban ≡ counted t ha.ban) × (deleted w' ≤ deleted w + 1))
        ⊎ ((load w' ≡ load w) × (deleted w' ≡ deleted w))

    after_delete-IsRestarted :
        (t : ℕ) (ha : HomeAssistant) (w0 w : W) (e : Option Failure)
        → load w ≡ load w0
        → deleted w ≡ deleted w0 + if_none e
        → IsRestarted t ha w0 (after_delete api t ha (e, w)).1
    unfolding after_delete IsRestarted IsCommitted
    after_delete-IsRestarted t ha w0 w none same count =
        let c = committed t ha w in inl (c.0, omega (arith, c.1, count))
    after_delete-IsRestarted t ha w0 w (some not_found) same count =
        let c = committed t ha w in inl (c.0, omega (arith, c.1, count))
    after_delete-IsRestarted t ha w0 w (some _) same count = inr (same, omega (arith, count))

    after_get-IsRestarted :
        (t : ℕ) (pod : String) (ha : HomeAssistant) (w0 w : W) (e : Option Failure)
        → load w ≡ load w0
        → deleted w ≡ deleted w0
        → IsRestarted t ha w0 (after_get api t pod ha (e, w)).1
    unfolding after_get IsRestarted IsCommitted
    after_get-IsRestarted t pod ha w0 w none same count =
        let (e, w') = api.delete_pod pod ha.namespace w in
        after_delete-IsRestarted t ha w0 w' e (server.delete_load pod ha.namespace w ∙ same)
          (omega (arith, server.delete_deleted pod ha.namespace w, count))
    after_get-IsRestarted t pod ha w0 w (some not_found) same count =
        let c = committed t ha w in inl (c.0, omega (arith, c.1, count))
    after_get-IsRestarted t pod ha w0 w (some _) same count = inr (same, count)

    restarted : (t : ℕ) (ha : HomeAssistant) (w : W) → IsRestarted t ha w (restart_pod api t ha w).1
    unfolding restart_pod
    restarted t ha w =
        let (e, w') = api.get_pod (str_append ha.name "-0") ha.namespace w in
        after_get-IsRestarted t (str_append ha.name "-0") ha w w' e
          (server.get_load (str_append ha.name "-0") ha.namespace w)
          (server.get_deleted (str_append ha.name "-0") ha.namespace w)

    pub pass-cases :
        (t : ℕ) (w : W)
        → IsIdle t w (handle_self_ban api t t (load w) w).1
          ⊎ IsRestart t w (handle_self_ban api t t (load w) w).1
    unfolding handle_self_ban IsRestarted
    pass-cases t w =
        let ha = record (load w) { ban = reset_expired t (load w).ban } in
        elim (Option-cases (cooling t ha.ban)) [
          | inr (wait, e) ↦ rw (e, handle_self_ban) (inl (record { pods = refl; ban = inl refl }))
          | inl e ↦ elim (Bool-cases (leb ban_restart_max_count ha.ban.window_count)) [
            | inl f ↦
                rw (e, f, handle_self_ban)
                  (inl (record { pods = (limited t ha w).1; ban = inr (limited t ha w).0 }))
            | inr f ↦
                rw (e, f, handle_self_ban)
                  (elim (restarted t ha w) [
                    | inl (b, n) ↦ inr (record { pods = n; ban = b; cooled = e; below = f })
                    | inr (same, n) ↦ inl (record { pods = n; ban = inl (ap (λ h. h.ban) same) })
                  ])
          ]
        ]
