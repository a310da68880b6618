-- ===== src/SnManager/Updater.antt =====
-- sn-manager/internal/updater/updater.go: `checkAndUpdateCombined`. What the outside world answers
-- is a record of results; what the call does to files and processes is the list of its effects, and
-- `schedule_exit` is the start of the goroutine that exits the process half a second later.
-- Texts are trimmed of ASCII white space, and compared with "unknown" by ASCII letters.
pub mod Safety
pub mod Effects
use supernode.Base.{
  ℕ, ◌+◌, Bool, true, false, not, ◌&&◌, ◌||◌, Option, none, some, List, [], ◌∷◌, ◌++◌, map, Bytes,
  bytes_eq, leb, ◌==◌, if◌then◌else◌,
}
use supernode.Base.Int.{ltb_ℤ}
use supernode.SnManager.Version.{same_major, compare_versions, same}
use supernode.SnManager.Gateway.{
  GatewayResponse, GatewayErrors, should_update, is_gateway_idle, handle_gateway_error,
}

-- How the extraction of one binary goes.
pub data Extraction : Type 0 where
  create_fails copy_fails close_fails extracted : Extraction

-- What `tr.Next` gives before `io.EOF`: a file with its base name, or an error.
pub data TarStep : Type 0 where
  file : Bytes → Extraction → TarStep
  read_error : TarStep

pub record World : Type 0 where
  pub latest_release : Option Bytes
  pub gateway : GatewayResponse
  pub now : ℕ
  pub has_tarball_url : Bool
  pub downloads : Bool
  pub opens : Bool
  pub unzips : Bool
  pub has_executable : Bool
  pub tar_steps : List TarStep
  pub renames : Bool
  pub installs : Bool
  pub activates : Bool

pub data Effect : Type 0 where
  download_tarball remove_tarball : Effect
  write_manager_temp remove_manager_temp replace_manager : Effect
  write_supernode_temp remove_supernode_temp : Effect
  install_version activate_version : Bytes → Effect
  save_config : Bytes → Effect
  needs_restart : Bytes → Effect
  schedule_exit : Effect

pub record AutoUpdater : Type 0 where
  pub current_version : Bytes
  pub manager_version : Bytes
  pub gateway_errors : GatewayErrors

abbrev pub Outcome : Type 0
Outcome = AutoUpdater × List Effect

abbrev is_space : ℕ → Bool
is_space c = c == 32 || (leb 9 c && leb c 13)

trim_left : Bytes → Bytes
trim_left [] = []
trim_left (c ∷ cs) = elim (is_space c) [ true ↦ trim_left cs | false ↦ c ∷ cs ]

trim_right : Bytes → Bytes
trim_right [] = []
trim_right (c ∷ cs) = elim (trim_right cs) [
  | [] ↦ if is_space c then [] else c ∷ []
  | d ∷ ds ↦ c ∷ d ∷ ds
]

pub trim_space : Bytes → Bytes
unfolding trim_left trim_right
trim_space s = trim_right (trim_left s)

abbrev lower_letter : ℕ → ℕ
lower_letter c = if leb b'A' c && leb c b'Z' then c + 32 else c

abbrev dev : Bytes
dev = b'd' ∷ b'e' ∷ b'v' ∷ []

abbrev unknown : Bytes
unknown = b'u' ∷ b'n' ∷ b'k' ∷ b'n' ∷ b'o' ∷ b'w' ∷ b'n' ∷ []

abbrev pub sn_manager_name : Bytes
sn_manager_name = b's' ∷ b'n' ∷ b'-' ∷ b'm' ∷ b'a' ∷ b'n' ∷ b'a' ∷ b'g' ∷ b'e' ∷ b'r' ∷ []

abbrev pub supernode_name : Bytes
supernode_name = b's' ∷ b'u' ∷ b'p' ∷ b'e' ∷ b'r' ∷ b'n' ∷ b'o' ∷ b'd' ∷ b'e' ∷ []

-- The text "gateway-error-recover".
abbrev pub recover_marker : Bytes
recover_marker =
    b'g' ∷ b'a' ∷ b't' ∷ b'e' ∷ b'w' ∷ b'a' ∷ b'y' ∷ b'-' ∷ b'e' ∷ b'r' ∷ b'r' ∷ b'o' ∷ b'r' ∷ b'-'
    ∷ b'r' ∷ b'e' ∷ b'c' ∷ b'o' ∷ b'v' ∷ b'e' ∷ b'r' ∷ []

pub manager_needs_update : Bytes → Bytes → Bool
unfolding trim_space
manager_needs_update manager_version latest =
    let ver = trim_space manager_version in
    not (bytes_eq ver [])
    && (not (bytes_eq ver dev)
        && (not (bytes_eq (map lower_letter ver) unknown)
            && (same_major ver latest && ltb_ℤ (compare_versions ver latest) same)))

-- The two binaries of the tarball that are wanted, and those that are extracted so far.
pub record Extracting : Type 0 where
  pub wants_manager : Bool
  pub wants_supernode : Bool
  pub has_manager : Bool
  pub has_supernode : Bool

-- One file: `none` is a return from the whole function.
pub extract : Extraction → Effect → Effect → List Effect × Bool
extract create_fails write remove = ([], false)
extract copy_fails write remove = (write ∷ remove ∷ [], false)
extract close_fails write remove = (write ∷ remove ∷ [], false)
extract extracted write remove = (write ∷ [], true)

-- The tests of the loop on a file's base name.
pub takes_manager : Extracting → Bytes → Bool
takes_manager x base = x.wants_manager && (bytes_eq base sn_manager_name && not x.has_manager)

pub takes_supernode : Extracting → Bytes → Bool
takes_supernode x base = x.wants_supernode && (bytes_eq base supernode_name && not x.has_supernode)

-- After a file that was extracted the loop goes on, after a failure the function returns.
pub go_on : List Effect × Bool → List Effect × Option Extracting → List Effect × Option Extracting
go_on (effects, true) (more, end) = (effects ++ more, end)
go_on (effects, false) later = (effects, none)

-- The loop over the tarball: the effects, and the flags at its end unless the function returns.
pub extract_all : Extracting → List TarStep → List Effect × Option Extracting
unfolding extract takes_manager takes_supernode go_on
extract_all x [] = ([], some x)
extract_all x (read_error ∷ rest) = ([], none)
extract_all x (file base how ∷ rest) = elim (takes_manager x base) [
  | true ↦
      go_on (extract how write_manager_temp remove_manager_temp)
        (extract_all (record x { has_manager = true }) rest)
  | false ↦ elim (takes_supernode x base) [
    | true ↦
        go_on (extract how write_supernode_temp remove_supernode_temp)
          (extract_all (record x { has_supernode = true }) rest)
    | false ↦ extract_all x rest
  ]
]

-- The effects, and whether the manager was replaced.
apply_manager : World → Extracting → List Effect × Bool
apply_manager w x =
    if x.wants_manager && x.has_manager
    then (if w.renames then (replace_manager ∷ [], true) else (remove_manager_temp ∷ [], false))
    else ([], false)

apply_supernode : World → Extracting → Bytes → Bytes → List Effect × Bytes
apply_supernode w x current latest =
    if x.wants_supernode && x.has_supernode
    then (if w.installs
        then (if w.activates
            then (
              install_version latest
                  ∷ activate_version latest
                  ∷ save_config latest
                  ∷ needs_restart latest
                  ∷ remove_supernode_temp
                  ∷ [],
              latest,
            )
            else (install_version latest ∷ remove_supernode_temp ∷ [], current))
        else (remove_supernode_temp ∷ [], current))
    else ([], current)

pub apply_updates : World → Extracting → AutoUpdater → Bytes → Outcome
unfolding apply_manager apply_supernode
apply_updates w x u latest =
    let (manager, replaced) = apply_manager w x in
    let (supernode, current) = apply_supernode w x u.current_version latest in
    (
      record u { current_version = current },
      manager ++ (supernode ++ (if replaced then schedule_exit ∷ [] else [])),
    )

-- From the download on. The tarball is removed on every return behind a successful download.
pub download_and_apply : World → Extracting → AutoUpdater → Bytes → Outcome
unfolding extract_all apply_updates
download_and_apply w x u latest =
    if not (w.has_tarball_url && w.downloads)
    then (u, [])
    else if not (w.opens && (w.unzips && w.has_executable))
    then (u, download_tarball ∷ remove_tarball ∷ [])
    else (let (effects, end) = extract_all x w.tar_steps in
        elim end [
          | none ↦ (u, download_tarball ∷ (effects ++ remove_tarball ∷ []))
          | some done ↦
              let (u', applied) = apply_updates w done u latest in
              (u', download_tarball ∷ (effects ++ (applied ++ remove_tarball ∷ [])))
        ])

pub gateway_error : AutoUpdater → ℕ → Outcome
gateway_error u now =
    let (errors, wrote) = handle_gateway_error u.gateway_errors now in
    (record u { gateway_errors = errors }, if wrote then needs_restart recover_marker ∷ [] else [])

pub check_latest : World → AutoUpdater → Bytes → Outcome
unfolding download_and_apply gateway_error manager_needs_update
check_latest w u latest =
    let manager = manager_needs_update u.manager_version latest in
    let supernode = should_update u.current_version latest in
    if bytes_eq latest []
    then (u, [])
    else if not (manager || supernode)
    then (u, [])
    else (let (idle, is_err) = is_gateway_idle w.gateway in
        if idle
        then download_and_apply w
            (record {
              wants_manager = manager;
              wants_supernode = supernode;
              has_manager = false;
              has_supernode = false;
            })
            u latest
        else if is_err
        then gateway_error u w.now
        else (u, []))

unfoldable pub check_and_update_combined : World → AutoUpdater → Outcome
unfolding check_latest trim_space
check_and_update_combined w u = elim w.latest_release [
  | none ↦ (u, [])
  | some tag ↦ check_latest w u (trim_space tag)
]
