-- ===== src/BanRecovery/Limit.antt =====
-- internal/controller/bootstrap_controller.go: the limit of restarts in one window.
use mathlib.Core.Path.{subst}
use homeassistant_operator.Prelude.{
  ℕ, ◌+◌, ◌≤◌, ◌<◌, ◌≡◌, ◌⊎◌, refl, ap, sym, ◌∙◌, inl, inr, false, none, some, List, [], ◌∷◌, All,
  arith,
}
use homeassistant_operator.Cluster.{BanStatus, HomeAssistant}
use homeassistant_operator.BanRecovery.{
  BanApi, expired, reset_expired, counted, ban_restart_window, handle_self_ban,
}
use homeassistant_operator.BanRecovery.Passes.{IsServer, IsIdle, IsRestart, passes, pass-cases}

-- A window that is open begins at this time or later.
unfoldable pub IsOpenFrom : ℕ → BanStatus → Type 0
IsOpenFrom t0 b = (b.window_start ≡ none) ⊎ ((s : ℕ) × (b.window_start ≡ some s) × (t0 ≤ s))

not_expired :
    (t0 t : ℕ) (b : BanStatus) → t ≤ t0 + ban_restart_window → IsOpenFrom t0 b → expired t b ≡ false
unfolding expired IsOpenFrom
not_expired t0 t b ht (inl e) = rw (e, expired) refl
not_expired t0 t b ht (inr (s, e, hs)) = rw (e, expired) (ground arith)

kept :
    (t0 t : ℕ) (b : BanStatus)
    → t ≤ t0 + ban_restart_window
    → IsOpenFrom t0 b
    → reset_expired t b ≡ b
unfolding reset_expired
kept t0 t b ht h = rw (not_expired t0 t b ht h, reset_expired) refl

counted-open : (t0 t : ℕ) (b : BanStatus) → t0 ≤ t → IsOpenFrom t0 b → IsOpenFrom t0 (counted t b)
unfolding IsOpenFrom counted
counted-open t0 t b h (inl e) = inr (t, simp e, h)
counted-open t0 t b h (inr (s, e, hs)) = inr (s, simp e, hs)

module _ {W : Type 0} (api : BanApi W) (load : W → HomeAssistant) (deleted : W → ℕ)
    (server : IsServer api load deleted) where
  idle-ban :
      (t0 t : ℕ) (w w' : W)
      → t ≤ t0 + ban_restart_window
      → IsOpenFrom t0 (load w).ban
      → IsIdle api load deleted server t w w'
      → (load w').ban ≡ (load w).ban
  idle-ban t0 t w w' ht hb i = elim i.ban [
    | inl same ↦ same
    | inr reset ↦ reset ∙ kept t0 t (load w).ban ht hb
  ]

  room :
      (t0 t : ℕ) (w : W) {w' : W}
      → t ≤ t0 + ban_restart_window
      → IsOpenFrom t0 (load w).ban
      → IsRestart api load deleted server t w w'
      → (load w).ban.window_count < 3
  room t0 t w ht hb r =
      ground (arith, r.below, ap (λ b. b.window_count) (kept t0 t (load w).ban ht hb))

  -- While no connection succeeds and each status patch does, the passes of the half hour after a time
  -- delete at most three pods, less those that the open window has counted, if it began at that time
  -- or later.
  pub passes-limit :
      (t0 : ℕ) (ts : List ℕ) (w : W)
      → IsOpenFrom t0 (load w).ban
      → (load w).ban.window_count ≤ 3
      → All (λ t. (t0 ≤ t) × (t ≤ t0 + ban_restart_window)) ts
      → deleted (passes api load ts w) + (load w).ban.window_count ≤ deleted w + 3
  unfolding passes counted
  passes-limit t0 [] w hb h bounded = omega (arith, h)
  passes-limit t0 (t ∷ ts) w hb h ((lo, hi), bounded) =
      let w' = (handle_self_ban api t t (load w) w).1 in
      elim (pass-cases api load deleted server t w) [
        | inl i ↦
            let same = idle-ban t0 t w w' hi hb i in
            let rest =
              passes-limit t0 ts w' (subst (IsOpenFrom t0) (sym same) hb)
                (omega (arith, h, ap (λ b. b.window_count) same)) bounded in
            omega (arith, rest, i.pods, ap (λ b. b.window_count) same)
        | inr r ↦
            let unchanged = kept t0 t (load w).ban hi hb in
            let new : (load w').ban ≡ counted t (load w).ban = r.ban ∙ ap (counted t) unchanged in
            let below : (load w).ban.window_count < 3 = room t0 t w hi hb r in
            let rest =
              passes-limit t0 ts w'
                (subst (IsOpenFrom t0) (sym new) (counted-open t0 t (load w).ban lo hb))
                (omega (arith, below, ap (λ b. b.window_count) new)) bounded in
            omega (arith, rest, r.pods, ap (λ b. b.window_count) new)
      ]
