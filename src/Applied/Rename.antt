-- ===== src/Applied/Rename.antt =====
-- internal/controller, the automation, scene and script controllers: the entries that a resource whose
-- id changes leaves in Home Assistant.
use mathlib.Core.Path.{subst}
use homeassistant_operator.Prelude.{
  String, ◌≡◌, ◌≢◌, ◌⊎◌, ◌∙◌, refl, ap, sym, false, Option, none, some, ◌==◌, inl, inr, Bool-cases,
  Option-cases, eq_iff,
}
use homeassistant_operator.Cluster.{Failure, value_at}
use homeassistant_operator.Cluster.Maps.{lookup-set_same}
use homeassistant_operator.Credentials.{Session}
use homeassistant_operator.Applied.Model.{Resource, Payload, Library, Env, Kind, last_applied_key}
use homeassistant_operator.Applied.{
  effective_id, previous_id, delete_previous, disable_if, after_patch, after_put, reconcile_via_api,
}
use homeassistant_operator.Applied.Entries.{IsHome, put-kept}

-- The stored object: `saved w` is its last applied id. No delete and no patch fails.
pub record IsServer {W S J : Type 0} (env : Env W S J) (saved : W → String) : Type 0 where
  pub delete_ok : (s : Session) (id : String) (w : W) → (env.delete_item s id w).0 ≡ none
  pub patch_ok : (r : Resource S) (w : W) → (env.patch r w).0 ≡ none
  pub patched :
      (r : Resource S) (w : W) → saved (env.patch r w).1 ≡ value_at last_applied_key r.annotations
  pub delete_kept : (s : Session) (id : String) (w : W) → saved (env.delete_item s id w).1 ≡ saved w
  pub disable_kept :
      (s : Session) (id : String) (w : W) → saved (env.disable_item s id w).1 ≡ saved w
  pub put_kept :
      (s : Session) (id : String) (m : Payload J) (w : W)
      → saved (env.put_item s id m w).1 ≡ saved w

module _ {W S J : Type 0} (lib : Library J) (env : Env W S J) (k : Kind S J)
    (stored : W → String → Option (Payload J)) (home : IsHome env stored) (saved : W → String)
    (server : IsServer env saved) where
  -- Home Assistant holds no entry but that of the last applied id, and none without an id.
  unfoldable pub IsTracked : W → Type 0
  IsTracked w = (id : String) → ((saved w == id) ≡ false) ⊎ (id ≡ "") → stored w id ≡ none

  -- The previous entry is deleted, unless there is none or it has the effective id.
  previous-cases :
      (s : Session) (r : Resource S) (w : W)
      → ((delete_previous lib env k s r w ≡ w)
          × ((previous_id lib env k r ≡ "") ⊎ (previous_id lib env k r ≡ effective_id lib env k r)))
        ⊎ (delete_previous lib env k s r w ≡ (env.delete_item s (previous_id lib env k r) w).1)
  unfolding delete_previous
  previous-cases s r w =
      let p = previous_id lib env k r in
      let e = effective_id lib env k r in
      elim (Bool-cases (p == "")) [
        | inl unset ↦ inl (rw (unset, delete_previous) refl, inl ((eq_iff p "").0 unset))
        | inr has ↦ elim (Bool-cases (p == e)) [
          | inl same ↦ inl (rw (has, same, delete_previous) refl, inr ((eq_iff p e).0 same))
          | inr differs ↦ inr (rw (has, differs, delete_previous) refl)
        ]
      ]

  previous-saved :
      (s : Session) (r : Resource S) (w : W) → saved (delete_previous lib env k s r w) ≡ saved w
  previous-saved s r w = elim (previous-cases s r w) [
    | inl (same, why) ↦ ap saved same
    | inr gone ↦ ap saved gone ∙ server.delete_kept s (previous_id lib env k r) w
  ]

  delete-removes :
      (s : Session) (p id : String) (w : W)
      → (p ≡ id) ⊎ (stored w id ≡ none)
      → stored (env.delete_item s p w).1 id ≡ none
  delete-removes s p id w h = elim (Bool-cases (p == id)) [
    | inl same ↦
        ap (stored (env.delete_item s p w).1) (sym ((eq_iff p id).0 same))
        ∙ home.deleted s p w (server.delete_ok s p w)
    | inr differs ↦
        home.delete_other s p id w differs
        ∙ elim h [ inl e ↦ absurd (cc (differs, (eq_iff p id).1 e)) | inr empty ↦ empty ]
  ]

  -- The delete of the previous entry removes entries only.
  previous-removes :
      (s : Session) (r : Resource S) (w : W) (id : String)
      → stored w id ≡ none
      → stored (delete_previous lib env k s r w) id ≡ none
  previous-removes s r w id h = elim (previous-cases s r w) [
    | inl (same, why) ↦ ap (λ w'. stored w' id) same ∙ h
    | inr gone ↦
        ap (λ w'. stored w' id) gone ∙ delete-removes s (previous_id lib env k r) id w (inr h)
  ]

  only_effective :
      (s : Session) (r : Resource S) (w : W) (id : String)
      → IsTracked w
      → previous_id lib env k r ≡ saved w
      → (effective_id lib env k r == id) ≡ false
      → stored (delete_previous lib env k s r w) id ≡ none
  unfolding IsTracked
  only_effective s r w id tracked fresh differs =
      let p = previous_id lib env k r in
      let e = effective_id lib env k r in
      elim (Bool-cases (saved w == id)) [
        | inr other ↦ previous-removes s r w id (tracked id (inl other))
        | inl same ↦
            let here : p ≡ id = fresh ∙ (eq_iff (saved w) id).0 same in
            elim (previous-cases s r w) [
              | inr gone ↦ ap (λ w'. stored w' id) gone ∙ delete-removes s p id w (inl here)
              | inl (unmoved, inl unset) ↦
                  ap (λ w'. stored w' id) unmoved ∙ tracked id (inr (sym here ∙ unset))
              | inl (unmoved, inr effective) ↦
                  absurd (cc (differs, (eq_iff e id).1 (sym effective ∙ here)))
            ]
      ]

  disabled-saved :
      (s : Session) (r : Resource S) (w : W) → saved (disable_if lib env k s r w) ≡ saved w
  unfolding disable_if
  disabled-saved s r w = elim (Bool-cases (k.is_disabled r.spec)) [
    | inl e ↦ rw (e, disable_if) (server.disable_kept s (effective_id lib env k r) w)
    | inr e ↦ rw (e, disable_if) refl
  ]

  patched-saved :
      (s : Session) (r : Resource S) (x : Option Failure × W)
      → x.0 ≡ none
      → saved (after_patch lib env k s r x).1 ≡ saved x.1
  unfolding after_patch
  patched-saved s r (none, w) h = disabled-saved s r w
  patched-saved s r (some e, w) h = cc

  put-saved :
      (s : Session) (r : Resource S) (x : Option Failure × W)
      → x.0 ≡ none
      → saved (after_put lib env k s r x).1 ≡ effective_id lib env k r
  unfolding after_put
  put-saved s r (some e, w) h = cc
  put-saved s r (none, w) h =
      patched-saved s _ (env.patch _ w) (server.patch_ok _ w)
      ∙ server.patched _ w
      ∙ ap (λ o. elim o [ none ↦ "" | some v ↦ v ])
          (lookup-set_same last_applied_key (effective_id lib env k r) r.annotations)

  put-unmoved :
      (s : Session) (r : Resource S) (x : Option Failure × W) (f : Failure)
      → x.0 ≡ some f
      → (after_put lib env k s r x).1 ≡ x.1
  unfolding after_put
  put-unmoved s r (some e, w) f h = refl
  put-unmoved s r (none, w) f h = cc

  -- An id that is empty or not the last applied one is not the effective id.
  differs-from :
      (e saved_id id : String)
      → e ≢ ""
      → saved_id ≡ e
      → ((saved_id == id) ≡ false) ⊎ (id ≡ "")
      → (e == id) ≡ false
  differs-from e saved_id id named same outside = elim outside [
    | inl other ↦ ap (λ x. x == id) (sym same) ∙ other
    | inr empty ↦ elim (Bool-cases (e == id)) [
      | inl equal ↦ absurd (named ((eq_iff e id).0 equal ∙ empty))
      | inr differs ↦ differs
    ]
  ]

  -- Home Assistant holds at most the entry of the last applied id, and the REST calls of a pass keep
  -- it so, whether they succeed or not: a resource whose id changes leaves no entry behind. The object
  -- is freshly read, its effective id is not empty, a failed call changes no entry, and no delete and
  -- no patch fails.
  pub reconcile_via_api-IsTracked :
      (s : Session) (r : Resource S) (w : W)
      → effective_id lib env k r ≢ ""
      → previous_id lib env k r ≡ saved w
      → IsTracked w
      → IsTracked (reconcile_via_api lib env k s r w).1
  unfolding reconcile_via_api after_put IsTracked
  reconcile_via_api-IsTracked s r w named fresh tracked id outside =
      let e = effective_id lib env k r in
      let w' = delete_previous lib env k s r w in
      elim (Option-cases (k.to_map e r.spec)) [
        | inl bad ↦
            rw (bad, reconcile_via_api) (tracked id (rw (bad, reconcile_via_api) at outside))
        | inr (m, good) ↦
            let x = env.put_item s e (k.sent m) w' in
            let out : ((saved (after_put lib env k s r x).1 == id) ≡ false) ⊎ (id ≡ "") =
              rw (good, reconcile_via_api) at outside in
            rw (good, reconcile_via_api)
              (elim (Option-cases x.0) [
                | inl put ↦
                    let differs =
                      differs-from e (saved (after_put lib env k s r x).1) id named
                        (put-saved s r x put) out in
                    ap (λ f. f id) (put-kept lib env k stored home s r x)
                    ∙ home.put_other s e id (k.sent m) w' differs
                    ∙ only_effective s r w id tracked fresh differs
                | inr (f, broken) ↦
                    let unmoved = put-unmoved s r x f broken in
                    let same =
                      ap saved unmoved ∙ server.put_kept s e (k.sent m) w' ∙ previous-saved s r w in
                    ap (λ f. f id) (ap stored unmoved ∙ home.put_failed s e (k.sent m) w' f broken)
                    ∙ previous-removes s r w id
                        (tracked id (subst (λ t. ((t == id) ≡ false) ⊎ (id ≡ "")) same out))
              ])
      ]
