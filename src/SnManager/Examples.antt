-- ===== src/SnManager/Examples.antt =====
-- The theorems of sn-manager at concrete versions and updater states, and tests.
use supernode.Base.{
  ◌+◌, ◌≡◌, refl, ◌⊎◌, true, false, none, some, [], ◌∷◌, ◌++◌, Bytes, bytes_eq, arith,
}
use supernode.Base.Int.{pos, ◌+ℤ◌}
use supernode.SnManager.Version.{compare_versions, parse_semver, trim_v, same_major, lower, higher}
use supernode.SnManager.Version.Order.{opposite, compare_versions-opposite, has_tie}
use supernode.SnManager.Gateway.{
  answer, GatewayErrors, should_update, is_gateway_idle, handle_gateway_error, window,
}
use supernode.SnManager.Gateway.Policy.{should_update-policy}
use supernode.SnManager.Gateway.Window.{errors_at, handle_gateway_error-window}
use supernode.SnManager.Updater.{
  extracted, file, World, AutoUpdater, check_and_update_combined, trim_space, sn_manager_name,
  supernode_name, recover_marker, needs_restart,
}
use supernode.SnManager.Updater.Safety.{
  check_and_update_combined-gated, check_and_update_combined-version,
}
use supernode.SnManager.Updater.Effects.{
  check_and_update_combined-effects, any_effect, is_exit, is_replacement, is_download, is_removal,
}

-- "v1.2.3", "v1.3.0", "v1.3.1-rc.1" and "v1.3.1-rc".
abbrev v1_2_3 : Bytes
v1_2_3 = b'v' ∷ b'1' ∷ b'.' ∷ b'2' ∷ b'.' ∷ b'3' ∷ []

abbrev v1_3_0 : Bytes
v1_3_0 = b'v' ∷ b'1' ∷ b'.' ∷ b'3' ∷ b'.' ∷ b'0' ∷ []

abbrev rc : Bytes
rc = b'v' ∷ b'1' ∷ b'.' ∷ b'3' ∷ b'.' ∷ b'1' ∷ b'-' ∷ b'r' ∷ b'c' ∷ []

abbrev rc_1 : Bytes
rc_1 = rc ++ b'.' ∷ b'1' ∷ []

compare_versions-opposite_example :
    compare_versions rc v1_2_3 ≡ opposite (compare_versions v1_2_3 rc)
unfolding parse_semver has_tie bytes_eq
compare_versions-opposite_example = compare_versions-opposite v1_2_3 rc refl

test_order : compare_versions v1_2_3 v1_3_0 ≡ lower
unfolding compare_versions bytes_eq
test_order = refl

test_prerelease : compare_versions rc rc_1 ≡ higher
unfolding compare_versions bytes_eq
test_prerelease = refl

should_update-policy_example : should_update rc v1_3_0 ≡ false
unfolding should_update trim_v same_major compare_versions
should_update-policy_example = should_update-policy rc v1_3_0

test_update : should_update v1_2_3 v1_3_0 ≡ true
unfolding should_update trim_v same_major compare_versions
test_update = refl

abbrev no_errors : GatewayErrors
no_errors = record { count = 0; window_start = none }

handle_gateway_error-window_example :
    (after : GatewayErrors) × (errors_at no_errors (10 ∷ 20 ∷ 30 ∷ []) ≡ (after, false))
    × (handle_gateway_error after (window + 10)
        ≡ (record { count = 1; window_start = some (window + 10) }, true))
handle_gateway_error-window_example =
    handle_gateway_error-window no_errors 10 (window + 10) (20 ∷ 30 ∷ []) refl (ground arith)
      (ground arith)

-- A release "v1.3.0" with both binaries, an idle gateway, and a run in which every step succeeds.
abbrev release : World
release = record {
  latest_release = some (b' ' ∷ v1_3_0);
  gateway = answer 200 (some (pos 0 ∷ []));
  now = 5;
  has_tarball_url = true;
  downloads = true;
  opens = true;
  unzips = true;
  has_executable = true;
  tar_steps = file sn_manager_name extracted ∷ file supernode_name extracted ∷ [];
  renames = true;
  installs = true;
  activates = true;
}

abbrev busy_release : World
busy_release = record release { gateway = answer 200 (some (pos 2 ∷ [])) }

abbrev updater : AutoUpdater
updater = record { current_version = v1_2_3; manager_version = v1_2_3; gateway_errors = no_errors }

check_and_update_combined-gated_example :
    ((check_and_update_combined busy_release updater).0.current_version ≡ v1_2_3)
    × (((check_and_update_combined busy_release updater).1 ≡ [])
        ⊎ ((check_and_update_combined busy_release updater).1 ≡ needs_restart recover_marker ∷ []))
unfolding is_gateway_idle ◌+ℤ◌
check_and_update_combined-gated_example = check_and_update_combined-gated busy_release updater refl

check_and_update_combined-version_example :
    ((check_and_update_combined release updater).0.current_version ≡ v1_2_3)
    ⊎ ((tag : Bytes) × (release.latest_release ≡ some tag)
        × ((check_and_update_combined release updater).0.current_version ≡ trim_space tag)
        × (should_update v1_2_3 (trim_space tag) ≡ true)
        × ((is_gateway_idle release.gateway).0 ≡ true)
        × (release.installs ≡ true)
        × (release.activates ≡ true))
check_and_update_combined-version_example = check_and_update_combined-version release updater

test_updated : (check_and_update_combined release updater).0.current_version ≡ v1_3_0
unfolding check_and_update_combined bytes_eq same_major compare_versions is_gateway_idle ◌+ℤ◌
    should_update
test_updated = refl

check_and_update_combined-effects_example :
    (any_effect is_exit (check_and_update_combined release updater).1
      ≡ any_effect is_replacement (check_and_update_combined release updater).1)
    × (any_effect is_download (check_and_update_combined release updater).1
        ≡ any_effect is_removal (check_and_update_combined release updater).1)
check_and_update_combined-effects_example = check_and_update_combined-effects release updater
