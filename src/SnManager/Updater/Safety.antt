-- ===== src/SnManager/Updater/Safety.antt =====
-- What `checkAndUpdateCombined` may do, and when.
use supernode.Base.{
  ◌≡◌, refl, ◌∙◌, Bool, true, false, ◌&&◌, Option, some, List, [], ◌∷◌, Bytes, arith, ◌⊎◌, inl, inr,
  Bool-cases, Option-cases, ap, sym,
}
use supernode.SnManager.Gateway.{should_update, is_gateway_idle}
use supernode.SnManager.Updater.{
  TarStep, file, read_error, World, Effect, AutoUpdater, Outcome, Extracting, trim_space,
  manager_needs_update, recover_marker, extract_all, go_on, takes_manager, takes_supernode,
  apply_updates, download_and_apply, gateway_error, check_latest, check_and_update_combined,
  needs_restart,
}

-- If the gateway is not known to be idle, then no file is downloaded, extracted, replaced,
-- installed or activated, and the current version stays. The only possible effect is the marker by
-- which gateway errors ask for a restart.
pub check_and_update_combined-gated :
    (w : World) (u : AutoUpdater)
    → (is_gateway_idle w.gateway).0 ≡ false
    → ((check_and_update_combined w u).0.current_version ≡ u.current_version)
      × (((check_and_update_combined w u).1 ≡ [])
          ⊎ ((check_and_update_combined w u).1 ≡ needs_restart recover_marker ∷ []))
unfolding check_and_update_combined check_latest gateway_error
check_and_update_combined-gated w u busy = ground arith

go_on-some :
    (step : List Effect × Bool) (later : List Effect × Option Extracting) (done : Extracting)
    → (go_on step later).1 ≡ some done
    → later.1 ≡ some done
unfolding go_on
go_on-some (effects, true) (more, end) done e = e
go_on-some (effects, false) later done e = cc

-- A property of the flags that both updates of the loop keep.
module _ (f : Extracting → Bool)
    (keeps : (x : Extracting) → f (record x { has_manager = true }) ≡ f x)
    (keeps_too : (x : Extracting) → f (record x { has_supernode = true }) ≡ f x) where
  extract_all-keeps :
      (x : Extracting) (steps : List TarStep) (done : Extracting)
      → (extract_all x steps).1 ≡ some done
      → f done ≡ f x
  unfolding extract_all
  extract_all-keeps x [] done e = let same : x ≡ done = cc in ap f (sym same)
  extract_all-keeps x (read_error ∷ rest) done e = cc
  extract_all-keeps x (file base how ∷ rest) done e = elim (Bool-cases (takes_manager x base)) [
    | inl manager ↦
        extract_all-keeps (record x { has_manager = true }) rest done
          (go_on-some _ _ done (rw (manager, extract_all) at e))
        ∙ keeps x
    | inr other ↦ elim (Bool-cases (takes_supernode x base)) [
      | inl supernode ↦
          extract_all-keeps (record x { has_supernode = true }) rest done
            (go_on-some _ _ done (rw (other, supernode, extract_all) at e))
          ∙ keeps_too x
      | inr skipped ↦ extract_all-keeps x rest done (rw (other, skipped, extract_all) at e)
    ]
  ]

extract_all-wants :
    (x : Extracting) (steps : List TarStep) (done : Extracting)
    → (extract_all x steps).1 ≡ some done
    → (done.wants_supernode ≡ x.wants_supernode) × (done.wants_manager ≡ x.wants_manager)
extract_all-wants x steps done e = (
  extract_all-keeps (λ y. y.wants_supernode) (λ y. refl) (λ y. refl) x steps done e,
  extract_all-keeps (λ y. y.wants_manager) (λ y. refl) (λ y. refl) x steps done e,
)

abbrev Changed : World → Extracting → AutoUpdater → Bytes → Outcome → Type 0
Changed w x u latest o =
    (o.0.current_version ≡ u.current_version)
    ⊎ ((o.0.current_version ≡ latest)
        × (x.wants_supernode ≡ true)
        × (w.installs ≡ true)
        × (w.activates ≡ true))

apply_updates-Changed :
    (w : World) (x : Extracting) (u : AutoUpdater) (latest : Bytes)
    → Changed w x u latest (apply_updates w x u latest)
unfolding apply_updates
apply_updates-Changed w x u latest = ground arith

download_and_apply-Changed :
    (w : World) (x : Extracting) (u : AutoUpdater) (latest : Bytes)
    → Changed w x u latest (download_and_apply w x u latest)
unfolding download_and_apply
download_and_apply-Changed w x u latest = elim (Bool-cases (w.has_tarball_url && w.downloads)) [
  | inr fails ↦ rw (fails, download_and_apply) (inl refl)
  | inl got ↦ elim (Bool-cases (w.opens && (w.unzips && w.has_executable))) [
    | inr fails ↦ rw (got, fails, download_and_apply) (inl refl)
    | inl ready ↦ elim (Option-cases (extract_all x w.tar_steps).1) [
      | inl stopped ↦ rw (got, ready, download_and_apply) (rw stopped (inl refl))
      | inr (done, e) ↦
          rw (got, ready, download_and_apply)
            (rw e (
              ground (
                arith,
                apply_updates-Changed w done u latest,
                extract_all-wants x w.tar_steps done e,
              )))
    ]
  ]
]

check_latest-version :
    (w : World) (u : AutoUpdater) (latest : Bytes)
    → ((check_latest w u latest).0.current_version ≡ u.current_version)
      ⊎ (((check_latest w u latest).0.current_version ≡ latest)
          × (should_update u.current_version latest ≡ true)
          × ((is_gateway_idle w.gateway).0 ≡ true)
          × (w.installs ≡ true)
          × (w.activates ≡ true))
unfolding check_latest gateway_error
check_latest-version w u latest = ground (
  arith,
  download_and_apply-Changed w
      (record {
        wants_manager = manager_needs_update u.manager_version latest;
        wants_supernode = should_update u.current_version latest;
        has_manager = false;
        has_supernode = false;
      })
      u latest,
)

-- The current version changes only to the trimmed tag of the latest release, and then the policy
-- asks for it, the gateway is idle, and the installation and the activation both succeeded.
pub check_and_update_combined-version :
    (w : World) (u : AutoUpdater)
    → ((check_and_update_combined w u).0.current_version ≡ u.current_version)
      ⊎ ((tag : Bytes) × (w.latest_release ≡ some tag)
          × ((check_and_update_combined w u).0.current_version ≡ trim_space tag)
          × (should_update u.current_version (trim_space tag) ≡ true)
          × ((is_gateway_idle w.gateway).0 ≡ true)
          × (w.installs ≡ true)
          × (w.activates ≡ true))
unfolding check_and_update_combined
check_and_update_combined-version w u = elim (Option-cases w.latest_release) [
  | inl fails ↦ rw (fails, check_and_update_combined) (inl refl)
  | inr (tag, e) ↦
      rw (e, check_and_update_combined) (ground (arith, check_latest-version w u (trim_space tag)))
]
