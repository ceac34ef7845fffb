-- ===== src/Devops/Deploy.antt =====
-- devops/deploy.go: ParseDeployInfo, DeployApp and Deploy, which install applications by running
-- commands.
use godev.Prelude.{
  Bool, true, false, ◌||◌, List, [], ◌∷◌, ◌++◌, Option, none, some, Bytes, codes, bytes_eq,
  if◌then◌else◌, ◌==◌,
}
use godev.Devops.Tree.{LastDeploy, InstallDescriptor, ApplicationDotHocon, App, join}

-- `DeployInfo`: what an argument asks for.
pub record DeployInfo : Type 0 where
  pub domain_name : Bytes
  pub version : Bytes

-- `strings.SplitN` at the first colon.
unfoldable pub before_colon : Bytes → Bytes
before_colon [] = []
before_colon (c ∷ cs) = if c == b':' then [] else c ∷ before_colon cs

unfoldable pub after_colon : Bytes → Bytes
after_colon [] = []
after_colon (c ∷ cs) = if c == b':' then cs else after_colon cs

abbrev pub version_or_current : Bytes → Bytes
version_or_current v = if bytes_eq v [] then codes "current" else v

-- `ParseDeployInfo`; an argument without a colon has no second part, as one that ends in it.
abbrev pub parse_deploy_info : Bytes → Option DeployInfo
parse_deploy_info arg =
    if bytes_eq arg []
    then none
    else some
        (record { domain_name = before_colon arg; version = version_or_current (after_colon arg) })

-- What the program does to the disk and to other machines.
pub data DeployAction : Type 0 where
  remove_all make_all remove_file : Bytes → DeployAction
  copy_directory : Bytes → Bytes → DeployAction
  write_descriptor : Bytes → InstallDescriptor → DeployAction
  write_last_deploy : Bytes → LastDeploy → DeployAction
  run_command : List Bytes → DeployAction

-- The disk, the commands and the clock: what they answer, by the actions so far, the last first.
pub record Machine : Type 0 where
  pub directory_exists : List DeployAction → Bytes → Bool
  pub file_exists : List DeployAction → Bytes → Bool
  pub succeeds : List DeployAction → DeployAction → Bool
  pub file_time : List DeployAction → Bytes
  pub utc_now : List DeployAction → Bytes
  pub public_keys : List Bytes
  pub is_trace_enabled : Bool

pub data Deployed : Type 0 where
  done failed panics : Deployed

-- `isCurrentVersionLabel`
abbrev pub is_current_label : Bytes → Bool
is_current_label v = bytes_eq v (codes "current") || bytes_eq v []

-- The version to install, none where `last-deploy.json` is needed and missing.
abbrev pub last_version_of : Option LastDeploy → Option Bytes
last_version_of none = none
last_version_of (some l) = some l.last_version

abbrev pub settle_version : Bytes → Option LastDeploy → Option Bytes
settle_version v l = if is_current_label v then last_version_of l else some v

abbrev pub home_dir : App → Bytes
home_dir a = codes "/home/" ++ a.user_name

abbrev pub ssh_name : App → Bytes
ssh_name a = a.user_name ++ codes "@" ++ a.server_ssh_name

abbrev pub descriptor_of : App → Bytes → InstallDescriptor
descriptor_of a v = record {
  install_name = a.app_name;
  install_version = v;
  backup_dir = join (join (home_dir a) (codes "apps")) (codes ".backups");
  install_dir = join (join (home_dir a) (codes "apps")) a.app_name;
}

abbrev pub remote_dir : App → Bytes → Bytes
remote_dir a stage = join (join (home_dir a) (codes ".a8-staging")) stage

abbrev pub last_in : Bytes → Bytes
last_in local = join local (codes "last-deploy.json")

-- The loop over the deployments: an error is kept and the next one is tried; a panic ends it.
abbrev pub after_deploy :
    Deployed × List DeployAction → Deployed × List DeployAction → Deployed × List DeployAction
after_deploy (done, tr) rest = rest
after_deploy (failed, tr) (panics, tr') = (panics, tr')
after_deploy (failed, tr) (done, tr') = (failed, tr')
after_deploy (failed, tr) (failed, tr') = (failed, tr')
after_deploy (panics, tr) rest = (panics, tr)

abbrev pub describe : App → Bytes → Bytes → DeployAction
describe a v local =
    write_descriptor (join local (codes "install-descriptor.json")) (descriptor_of a v)

abbrev pub mkdir_command : App → Bytes → List Bytes
mkdir_command a remote =
    codes "ssh" ∷ ssh_name a ∷ codes "--" ∷ codes "mkdir" ∷ codes "-p" ∷ remote ∷ []

abbrev pub rsync_command : App → Bytes → Bytes → List Bytes
rsync_command a local remote =
    codes "rsync"
    ∷ codes "--recursive"
    ∷ codes "--links"
    ∷ codes "--perms"
    ∷ (local ++ codes "/")
    ∷ (ssh_name a ++ codes ":" ++ remote ++ codes "/")
    ∷ []

module _ (w : Machine) where
  -- An action whose error ends the deployment.
  abbrev pub attempt :
      DeployAction
      → (List DeployAction → Deployed × List DeployAction)
      → List DeployAction
      → Deployed × List DeployAction
  attempt a next tr = if w.succeeds tr a then next (a ∷ tr) else (failed, a ∷ tr)

  abbrev pub attempt_if :
      Bool
      → DeployAction
      → (List DeployAction → Deployed × List DeployAction)
      → List DeployAction
      → Deployed × List DeployAction
  attempt_if true a next tr = attempt a next tr
  attempt_if false a next tr = next tr

  abbrev pub ignore_if : Bool → DeployAction → List DeployAction → List DeployAction
  ignore_if true a tr = a ∷ tr
  ignore_if false a tr = tr

  abbrev pub install_command : App → Bytes → List Bytes
  install_command a remote =
      codes "ssh"
      ∷ ssh_name a
      ∷ codes "--"
      ∷ codes "a8"
      ∷ (if w.is_trace_enabled
          then codes "--trace" ∷ codes "local-install" ∷ remote ∷ []
          else codes "local-install" ∷ remote ∷ [])

  -- The end of `DeployApp`: an error of the write is logged.
  abbrev pub last_deploy_of : Bytes → List DeployAction → LastDeploy
  last_deploy_of v tr = record {
    last_version = v;
    deployed_at = w.utc_now tr;
    ssh_keys = w.public_keys;
  }

  abbrev pub record_deploy : App → Bytes → List DeployAction → Deployed × List DeployAction
  record_deploy a v tr = (done, write_last_deploy (last_in a.app_dir) (last_deploy_of v tr) ∷ tr)

  abbrev pub run_install :
      App → Bytes → Bytes → Bytes → List DeployAction → Deployed × List DeployAction
  run_install a v stage local =
      let remote = remote_dir a stage in
      attempt (describe a v local) (
        attempt (run_command (mkdir_command a remote)) (
          attempt (run_command (rsync_command a local remote))
            (attempt (run_command (install_command a remote)) (record_deploy a v))))

  -- A nil `Install` is dereferenced once the version is settled.
  abbrev pub with_version :
      App → Bool → Option Bytes → Bytes → Bytes → List DeployAction → Deployed × List DeployAction
  with_version a has none stage local tr = (failed, tr)
  with_version a true (some v) stage local tr = run_install a v stage local tr
  with_version a false (some v) stage local tr = (panics, tr)

  -- `DeployApp`
  abbrev pub deploy_staged :
      App
      → Option ApplicationDotHocon
      → Bytes
      → Bytes
      → Bytes
      → List DeployAction
      → Deployed × List DeployAction
  deploy_staged a none v stage local tr =
      (panics, ignore_if (w.file_exists tr (last_in local)) (remove_file (last_in local)) tr)
  deploy_staged a (some d) v stage local tr =
      with_version a d.has_install (settle_version v a.last_deploy) stage local
        (ignore_if (w.file_exists tr (last_in local)) (remove_file (last_in local)) tr)

  abbrev pub deploy_to :
      App → Bytes → Bytes → Bytes → List DeployAction → Deployed × List DeployAction
  deploy_to a v stage local tr =
      attempt_if (w.directory_exists tr local) (remove_all local)
        (attempt (make_all local)
          (attempt (copy_directory a.app_dir local) (deploy_staged a a.dot_hocon v stage local)))
        tr

  unfoldable pub deploy_app : Bytes → App → Bytes → List DeployAction → Deployed × List DeployAction
  deploy_app staging a v tr =
      let stage = a.app_name ++ codes "-" ++ w.file_time tr in
      deploy_to a v stage (join staging stage) tr

  unfoldable pub deploy_each :
      Bytes → List (App × Bytes) → List DeployAction → Deployed × List DeployAction
  deploy_each staging [] tr = (done, tr)
  deploy_each staging ((a, v) ∷ more) tr =
      let rest = deploy_each staging more (deploy_app staging a v tr).1 in
      after_deploy (deploy_app staging a v tr) rest
