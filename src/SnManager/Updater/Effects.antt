-- ===== src/SnManager/Updater/Effects.antt =====
-- The effects of `checkAndUpdateCombined`, on every path.
use supernode.Base.{
  ◌≡◌, refl, ◌∙◌, Bool, true, false, ◌&&◌, ◌||◌, Option, List, [], ◌∷◌, ◌++◌, Bytes, arith, inl,
  inr, Bool-cases, Option-cases,
}
use supernode.SnManager.Gateway.{should_update}
use supernode.SnManager.Updater.{
  Extraction, create_fails, copy_fails, close_fails, extracted, TarStep, file, read_error, World,
  Effect, AutoUpdater, Extracting, trim_space, manager_needs_update, extract, extract_all, go_on,
  takes_manager, takes_supernode, apply_updates, download_and_apply, gateway_error, check_latest,
  check_and_update_combined, download_tarball, remove_tarball, write_manager_temp,
  remove_manager_temp, replace_manager, write_supernode_temp, remove_supernode_temp, schedule_exit,
}

abbrev pub any_effect : (Effect → Bool) → List Effect → Bool
any_effect p [] = false
any_effect p (e ∷ es) = p e || any_effect p es

abbrev pub is_exit : Effect → Bool
is_exit schedule_exit = true
is_exit _ = false

abbrev pub is_replacement : Effect → Bool
is_replacement replace_manager = true
is_replacement _ = false

abbrev pub is_download : Effect → Bool
is_download download_tarball = true
is_download _ = false

abbrev pub is_removal : Effect → Bool
is_removal remove_tarball = true
is_removal _ = false

any_effect-append :
    (p : Effect → Bool) (xs ys : List Effect)
    → any_effect p (xs ++ ys) ≡ (any_effect p xs || any_effect p ys)
any_effect-append p [] ys = refl
any_effect-append p (x ∷ xs) ys = ground (arith, any_effect-append p xs ys)

module _ (p : Effect → Bool)
    (temps : (p write_manager_temp ≡ false)
      × (p remove_manager_temp ≡ false)
      × (p write_supernode_temp ≡ false)
      × (p remove_supernode_temp ≡ false)) where
  extract-quiet :
      (how : Extraction) (write remove : Effect)
      → p write ≡ false
      → p remove ≡ false
      → any_effect p (extract how write remove).0 ≡ false
  unfolding extract
  extract-quiet create_fails write remove h k = refl
  extract-quiet copy_fails write remove h k = ground arith
  extract-quiet close_fails write remove h k = ground arith
  extract-quiet extracted write remove h k = ground arith

  go_on-quiet :
      (step : List Effect × Bool) (later : List Effect × Option Extracting)
      → any_effect p step.0 ≡ false
      → any_effect p later.0 ≡ false
      → any_effect p (go_on step later).0 ≡ false
  unfolding go_on
  go_on-quiet (effects, true) (more, end) h k = any_effect-append p effects more ∙ ground arith
  go_on-quiet (effects, false) later h k = h

  -- The extraction writes and removes temporary files only.
  extract_all-quiet :
      (x : Extracting) (steps : List TarStep) → any_effect p (extract_all x steps).0 ≡ false
  unfolding extract_all
  extract_all-quiet x [] = refl
  extract_all-quiet x (read_error ∷ rest) = refl
  extract_all-quiet x (file base how ∷ rest) = elim (Bool-cases (takes_manager x base)) [
    | inl manager ↦
        rw (manager, extract_all)
          (go_on-quiet _ _ (extract-quiet how _ _ temps.0 temps.1)
            (extract_all-quiet (record x { has_manager = true }) rest))
    | inr other ↦ elim (Bool-cases (takes_supernode x base)) [
      | inl supernode ↦
          rw (other, supernode, extract_all)
            (go_on-quiet _ _ (extract-quiet how _ _ temps.2 temps.3)
              (extract_all-quiet (record x { has_supernode = true }) rest))
      | inr skipped ↦ rw (other, skipped, extract_all) (extract_all-quiet x rest)
    ]
  ]

apply_updates-exit :
    (w : World) (x : Extracting) (u : AutoUpdater) (latest : Bytes)
    → (any_effect is_exit (apply_updates w x u latest).1
        ≡ any_effect is_replacement (apply_updates w x u latest).1)
      × (any_effect is_download (apply_updates w x u latest).1 ≡ false)
      × (any_effect is_removal (apply_updates w x u latest).1 ≡ false)
unfolding apply_updates
apply_updates-exit w x u latest = ground arith

-- What the two theorems below say of a list of effects.
abbrev Balanced : List Effect → Type 0
Balanced es =
    (any_effect is_exit es ≡ any_effect is_replacement es)
    × (any_effect is_download es ≡ any_effect is_removal es)

around-Balanced :
    (inner applied : List Effect)
    → ((p : Effect → Bool)
        → (p write_manager_temp ≡ false)
          × (p remove_manager_temp ≡ false)
          × (p write_supernode_temp ≡ false)
          × (p remove_supernode_temp ≡ false)
        → any_effect p inner ≡ false)
    → any_effect is_exit applied ≡ any_effect is_replacement applied
    → Balanced (download_tarball ∷ (inner ++ (applied ++ remove_tarball ∷ [])))
around-Balanced inner applied quiet e = ground (
  arith,
  quiet is_exit (refl, refl, refl, refl),
  quiet is_replacement (refl, refl, refl, refl),
  any_effect-append is_exit inner (applied ++ remove_tarball ∷ []),
  any_effect-append is_replacement inner (applied ++ remove_tarball ∷ []),
  any_effect-append is_removal inner (applied ++ remove_tarball ∷ []),
  any_effect-append is_exit applied (remove_tarball ∷ []),
  any_effect-append is_replacement applied (remove_tarball ∷ []),
  any_effect-append is_removal applied (remove_tarball ∷ []),
)

download_and_apply-Balanced :
    (w : World) (x : Extracting) (u : AutoUpdater) (latest : Bytes)
    → Balanced (download_and_apply w x u latest).1
unfolding download_and_apply
download_and_apply-Balanced w x u latest = elim (Bool-cases (w.has_tarball_url && w.downloads)) [
  | inr fails ↦ rw (fails, download_and_apply) (refl, refl)
  | inl got ↦ elim (Bool-cases (w.opens && (w.unzips && w.has_executable))) [
    | inr fails ↦ rw (got, fails, download_and_apply) (refl, refl)
    | inl ready ↦ elim (Option-cases (extract_all x w.tar_steps).1) [
      | inl stopped ↦
          rw (got, ready, download_and_apply)
            (rw stopped (
              around-Balanced (extract_all x w.tar_steps).0 []
                (λ p t. extract_all-quiet p t x w.tar_steps) refl))
      | inr (done, e) ↦
          rw (got, ready, download_and_apply)
            (rw e (
              around-Balanced (extract_all x w.tar_steps).0 (apply_updates w done u latest).1
                (λ p t. extract_all-quiet p t x w.tar_steps)
                (apply_updates-exit w done u latest).0))
    ]
  ]
]

check_latest-Balanced :
    (w : World) (u : AutoUpdater) (latest : Bytes) → Balanced (check_latest w u latest).1
unfolding check_latest gateway_error
check_latest-Balanced w u latest = ground (
  arith,
  download_and_apply-Balanced w
      (record {
        wants_manager = manager_needs_update u.manager_version latest;
        wants_supernode = should_update u.current_version latest;
        has_manager = false;
        has_supernode = false;
      })
      u latest,
)

-- The exit of the process is scheduled exactly if the manager's binary was replaced, and the
-- tarball is removed exactly if it was downloaded, on every path through the function.
pub check_and_update_combined-effects :
    (w : World) (u : AutoUpdater)
    → (any_effect is_exit (check_and_update_combined w u).1
        ≡ any_effect is_replacement (check_and_update_combined w u).1)
      × (any_effect is_download (check_and_update_combined w u).1
          ≡ any_effect is_removal (check_and_update_combined w u).1)
unfolding check_and_update_combined
check_and_update_combined-effects w u = elim (Option-cases w.latest_release) [
  | inl fails ↦ rw (fails, check_and_update_combined) (refl, refl)
  | inr (tag, e) ↦ rw (e, check_and_update_combined) (check_latest-Balanced w u (trim_space tag))
]
