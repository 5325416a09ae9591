-- ===== src/BanRecovery/Pace.antt =====
-- internal/controller/bootstrap_controller.go: the cooldown between two restarts of the pod.
use homeassistant_operator.Prelude.{
  ℕ, ◌+◌, ◌≤◌, ◌<◌, ◌≡◌, refl, ap, ◌∙◌, inl, inr, none, some, List, [], ◌∷◌, ltb, All, arith,
  Bool-cases,
}
use homeassistant_operator.Cluster.{BanStatus, HomeAssistant}
use homeassistant_operator.BanRecovery.{BanApi, reset_expired, cooling, counted, handle_self_ban}
use homeassistant_operator.BanRecovery.Passes.{IsServer, IsIdle, passes, pass-cases}

reset-last : (t : ℕ) (b : BanStatus) → (reset_expired t b).last_self_unban ≡ b.last_self_unban
unfolding reset_expired
reset-last t b = ground arith

cooled-after :
    (t l : ℕ) (b : BanStatus) → b.last_self_unban ≡ some l → cooling t b ≡ none → l + 300 ≤ t
unfolding cooling
cooled-after t l b last cooled = elim (Bool-cases (ltb t (l + 300))) [
  | inl e ↦ absurd (cc (rw (last, e, cooling) at cooled))
  | inr e ↦ ground arith
]

module _ {W : Type 0} (api : BanApi W) (load : W → HomeAssistant) (deleted : W → ℕ)
    (server : IsServer api load deleted) where
  idle-last :
      (t : ℕ) (w w' : W)
      → IsIdle api load deleted server t w w'
      → (load w').ban.last_self_unban ≡ (load w).ban.last_self_unban
  idle-last t w w' i = elim i.ban [
    | inl same ↦ ap (λ b. b.last_self_unban) same
    | inr reset ↦ ap (λ b. b.last_self_unban) reset ∙ reset-last t (load w).ban
  ]

  cooling-deleted :
      (l : ℕ) (ts : List ℕ) (w : W)
      → (load w).ban.last_self_unban ≡ some l
      → All (λ u. u < l + 300) ts
      → deleted (passes api load ts w) ≡ deleted w
  unfolding passes
  cooling-deleted l [] w last soon = refl
  cooling-deleted l (u ∷ us) w last (h, soon) =
      let w' = (handle_self_ban api u u (load w) w).1 in
      elim (pass-cases api load deleted server u w) [
        | inl i ↦ omega (arith, cooling-deleted l us w' (idle-last u w w' i ∙ last) soon, i.pods)
        | inr r ↦ absurd (
            omega (
              arith,
              cooled-after u l (reset_expired u (load w).ban) (reset-last u (load w).ban ∙ last)
                  r.cooled,
              h,
            ))
      ]

  -- A pass at the time `t` that deletes a pod deletes one, and as long as no connection succeeds and
  -- each status patch does, the passes after it delete none before five minutes have gone by. This
  -- holds from any state.
  pub restart-cools :
      (t : ℕ) (ts : List ℕ) (w : W)
      → deleted w < deleted (handle_self_ban api t t (load w) w).1
      → All (λ u. u < t + 300) ts
      → deleted (passes api load (t ∷ ts) w) ≡ deleted w + 1
  unfolding passes counted
  restart-cools t ts w restarts soon = elim (pass-cases api load deleted server t w) [
    | inl i ↦ absurd (omega (arith, restarts, i.pods))
    | inr r ↦ omega (
      arith,
      cooling-deleted t ts (handle_self_ban api t t (load w) w).1
          (ap (λ b. b.last_self_unban) r.ban) soon,
      r.pods,
      restarts,
    )
  ]
