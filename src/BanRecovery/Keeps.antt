-- ===== src/BanRecovery/Keeps.antt =====
-- internal/controller/bootstrap_controller.go: what every branch of ban recovery has in common.
use homeassistant_operator.Prelude.{
  ℕ, String, ◌+◌, ◌<◌, ◌≡◌, ◌∙◌, refl, inl, inr, Option, none, some, ltb, leb, arith, Bool-cases,
  Option-cases,
}
use homeassistant_operator.Cluster.{Failure, not_found, Reply, BanStatus, HomeAssistant}
use homeassistant_operator.BanRecovery.{
  BanApi, reset_expired, cooling, ban_restart_max_count, report_limit, after_patch, commit_restart,
  after_delete, after_get, restart_pod, handle_self_ban, nothing_to_reset, reset_ban_recovery,
}

cooling-waits : (later n : ℕ) (b : BanStatus) → cooling later b ≡ some n → 0 < n
unfolding cooling
cooling-waits later n b h = elim (Option-cases b.last_self_unban) [
  | inl unset ↦ absurd (cc (rw (unset, cooling) at h))
  | inr (last, e) ↦ elim (Bool-cases (ltb later (last + 300))) [
    | inl early ↦ ground (arith, rw (e, early, cooling) at h)
    | inr late ↦ absurd (cc (rw (e, late, cooling) at h))
  ]
]

module _ {W : Type 0} (api : BanApi W) where
  -- The call answers with a delay.
  abbrev pub Waits : (Reply × HomeAssistant) × W → Type 0
  Waits y = 0 < y.0.0.requeue_after

  patch-Waits : (ha : HomeAssistant) (x : Option Failure × W) → Waits (after_patch api ha x)
  unfolding after_patch
  patch-Waits ha (none, w) = omega arith
  patch-Waits ha (some e, w) = omega arith

  commit-Waits : (now : ℕ) (ha : HomeAssistant) (w : W) → Waits (commit_restart api now ha w)
  unfolding commit_restart
  commit-Waits now ha w = patch-Waits _ (api.patch_status _ w)

  delete-Waits :
      (now : ℕ) (ha : HomeAssistant) (x : Option Failure × W) → Waits (after_delete api now ha x)
  unfolding after_delete
  delete-Waits now ha (none, w) = commit-Waits now ha w
  delete-Waits now ha (some not_found, w) = commit-Waits now ha w
  delete-Waits now ha (some _, w) = omega arith

  get-Waits :
      (now : ℕ) (pod : String) (ha : HomeAssistant) (x : Option Failure × W)
      → Waits (after_get api now pod ha x)
  unfolding after_get
  get-Waits now pod ha (none, w) = delete-Waits now ha (api.delete_pod pod ha.namespace w)
  get-Waits now pod ha (some not_found, w) = commit-Waits now ha w
  get-Waits now pod ha (some _, w) = omega arith

  pub handle_self_ban-Waits :
      (now later : ℕ) (ha : HomeAssistant) (w : W) → Waits (handle_self_ban api now later ha w)
  unfolding handle_self_ban restart_pod report_limit
  handle_self_ban-Waits now later ha w =
      let ha' = record ha { ban = reset_expired now ha.ban } in
      elim (Option-cases (cooling later ha'.ban)) [
        | inr (n, e) ↦ rw (e, handle_self_ban) (cooling-waits later n ha'.ban e)
        | inl e ↦ elim (Bool-cases (leb ban_restart_max_count ha'.ban.window_count)) [
          | inl f ↦ rw (e, f, handle_self_ban) (omega arith)
          | inr f ↦ rw (e, f, handle_self_ban) (get-Waits now _ ha' (api.get_pod _ ha'.namespace w))
        ]
      ]

  -- What the three calls of the API server keep, ban recovery keeps.
  module _ {X : Type 0} (f : W → X)
      (patch : (ha : HomeAssistant) (w : W) → f (api.patch_status ha w).1 ≡ f w)
      (get : (n ns : String) (w : W) → f (api.get_pod n ns w).1 ≡ f w)
      (delete : (n ns : String) (w : W) → f (api.delete_pod n ns w).1 ≡ f w) where
    patch-keeps : (ha : HomeAssistant) (x : Option Failure × W) → f (after_patch api ha x).1 ≡ f x.1
    unfolding after_patch
    patch-keeps ha (none, w) = refl
    patch-keeps ha (some e, w) = refl

    commit-keeps : (now : ℕ) (ha : HomeAssistant) (w : W) → f (commit_restart api now ha w).1 ≡ f w
    unfolding commit_restart
    commit-keeps now ha w = patch-keeps _ (api.patch_status _ w) ∙ patch _ w

    delete-keeps :
        (now : ℕ) (ha : HomeAssistant) (x : Option Failure × W)
        → f (after_delete api now ha x).1 ≡ f x.1
    unfolding after_delete
    delete-keeps now ha (none, w) = commit-keeps now ha w
    delete-keeps now ha (some not_found, w) = commit-keeps now ha w
    delete-keeps now ha (some _, w) = refl

    get-keeps :
        (now : ℕ) (pod : String) (ha : HomeAssistant) (x : Option Failure × W)
        → f (after_get api now pod ha x).1 ≡ f x.1
    unfolding after_get
    get-keeps now pod ha (none, w) =
        delete-keeps now ha (api.delete_pod pod ha.namespace w) ∙ delete pod ha.namespace w
    get-keeps now pod ha (some not_found, w) = commit-keeps now ha w
    get-keeps now pod ha (some _, w) = refl

    pub handle_self_ban-keeps :
        (now later : ℕ) (ha : HomeAssistant) (w : W)
        → f (handle_self_ban api now later ha w).1 ≡ f w
    unfolding handle_self_ban restart_pod report_limit
    handle_self_ban-keeps now later ha w =
        let ha' = record ha { ban = reset_expired now ha.ban } in
        elim (Option-cases (cooling later ha'.ban)) [
          | inr (n, e) ↦ rw (e, handle_self_ban) refl
          | inl e ↦ elim (Bool-cases (leb ban_restart_max_count ha'.ban.window_count)) [
            | inl g ↦ rw (e, g, handle_self_ban) (patch _ w)
            | inr g ↦
                rw (e, g, handle_self_ban)
                  (get-keeps now _ ha' (api.get_pod _ ha'.namespace w) ∙ get _ ha'.namespace w)
          ]
        ]

    pub reset_ban_recovery-keeps :
        (ha : HomeAssistant) (w : W) → f (reset_ban_recovery api ha w).1 ≡ f w
    unfolding reset_ban_recovery
    reset_ban_recovery-keeps ha w = elim (Bool-cases (nothing_to_reset api ha)) [
      | inl e ↦ rw (e, reset_ban_recovery) refl
      | inr e ↦ rw (e, reset_ban_recovery) (patch _ w)
    ]
