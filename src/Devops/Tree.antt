-- ===== src/Devops/Tree.antt =====
-- devops/deploy.go: loadRoot, loadServer, loadUser, loadApp and FindApp, over what is on the disk; and
-- ParseDeployInfo.
use godev.Prelude.{
  Bool, false, ◌||◌, List, [], ◌∷◌, ◌++◌, Option, none, some, Bytes, codes, bytes_eq, if◌then◌else◌,
}

-- `LastDeploy`
pub record LastDeploy : Type 0 where
  pub last_version : Bytes
  pub deployed_at : Bytes
  pub ssh_keys : List Bytes

-- The texts of `InstallDescriptor` that the deployment sets; it also sets five flags to true.
pub record InstallDescriptor : Type 0 where
  pub install_name : Bytes
  pub install_version : Bytes
  pub backup_dir : Bytes
  pub install_dir : Bytes

-- `ApplicationDotHocon`: whether it has an `install`, and its domain names.
pub record ApplicationDotHocon : Type 0 where
  pub has_install : Bool
  pub domain_names : List Bytes

-- `App` without the pointer to its user, whose name stands for it, with the ssh name of the server. A
-- nil `ApplicationDotHocon` is none.
pub record App : Type 0 where
  pub app_name : Bytes
  pub app_dir : Bytes
  pub user_name : Bytes
  pub server_ssh_name : Bytes
  pub dot_hocon : Option ApplicationDotHocon
  pub last_deploy : Option LastDeploy

-- A file that a parser reads: it is missing, not parsed, or parsed.
pub data File {ℓ} (A : Type ℓ) : Type ℓ where
  missing unparsed : File A
  parsed : A → File A

-- A directory of the disk; `entries_of` is none where ReadDir fails.
pub record AppDir : Type 0 where
  pub base : Bytes
  pub is_dir : Bool
  pub application_hocon : File ApplicationDotHocon
  pub last_deploy_json : File LastDeploy

pub record UserDir : Type 0 where
  pub user_base : Bytes
  pub user_is_dir : Bool
  -- Its text, which the code does not read.
  pub user_hocon : Option Bytes
  pub app_dirs : Option (List AppDir)

pub record ServerDir : Type 0 where
  pub server_base : Bytes
  pub server_is_dir : Bool
  -- Its `vpnName`.
  pub server_hocon : Option Bytes
  pub user_dirs : Option (List UserDir)

pub record User : Type 0 where
  pub apps : List App

pub record DeployServer : Type 0 where
  pub users : List User

-- `filepath.Join` of names without dots and double slashes.
abbrev pub join : Bytes → Bytes → Bytes
join a b = a ++ codes "/" ++ b

-- A load gives a nil pointer with an error, which is logged, or without, or what was loaded.
abbrev pub add_loaded {ℓ} : {A : Type ℓ} → Option A → List A → List A
add_loaded none xs = xs
add_loaded (some x) xs = x ∷ xs

-- `loadApplicationDotHocon` where the file exists: its error is overwritten by that of
-- `LoadLastDeployJson`, and the pointer is nil.
abbrev pub dot_hocon_of : File ApplicationDotHocon → Option ApplicationDotHocon
dot_hocon_of (parsed d) = some d
dot_hocon_of missing = none
dot_hocon_of unparsed = none

-- `loadApp`; none is a nil pointer, with an error or without.
abbrev pub load_last :
    Bytes → Bytes → Bytes → Bytes → Option ApplicationDotHocon → File LastDeploy → Option App
load_last name dir user ssh d unparsed = none
load_last name dir user ssh d missing = some (record {
  app_name = name;
  app_dir = dir;
  user_name = user;
  server_ssh_name = ssh;
  dot_hocon = d;
  last_deploy = none;
})
load_last name dir user ssh d (parsed l) = some (record {
  app_name = name;
  app_dir = dir;
  user_name = user;
  server_ssh_name = ssh;
  dot_hocon = d;
  last_deploy = some l;
})

abbrev pub load_app : Bytes → Bytes → Bytes → AppDir → Option App
load_app dir user ssh a = with_hocon a.application_hocon
  where
    with_hocon : File ApplicationDotHocon → Option App
    with_hocon missing = none
    with_hocon f = load_last a.base (join dir a.base) user ssh (dot_hocon_of f) a.last_deploy_json

unfoldable pub load_apps : Bytes → Bytes → Bytes → List AppDir → List App
load_apps dir user ssh [] = []
load_apps dir user ssh (a ∷ more) =
    let rest = load_apps dir user ssh more in
    if a.is_dir then add_loaded (load_app dir user ssh a) rest else rest

-- `loadUser` where `user.hocon` is missing or parsed.
abbrev pub load_user : Bytes → Bytes → UserDir → Option User
load_user dir ssh u = if u.user_is_dir then with_files u.user_hocon u.app_dirs else none
  where
    with_files : Option Bytes → Option (List AppDir) → Option User
    with_files (some t) (some more) =
        some (record { apps = load_apps (join dir u.user_base) u.user_base ssh more })
    with_files f o = none

unfoldable pub load_users : Bytes → Bytes → List UserDir → List User
load_users dir ssh [] = []
load_users dir ssh (u ∷ us) = add_loaded (load_user dir ssh u) (load_users dir ssh us)

-- `SshName`
abbrev pub ssh_name_of : Bytes → Bytes → Bytes
ssh_name_of vpn name = if bytes_eq vpn [] then name else vpn

-- `loadServer` where `server.hocon` is missing or parsed.
abbrev pub load_server : Bytes → ServerDir → Option DeployServer
load_server dir s = if s.server_is_dir then with_files s.server_hocon s.user_dirs else none
  where
    with_files : Option Bytes → Option (List UserDir) → Option DeployServer
    with_files (some vpn) (some us) =
        some (record {
          users = load_users (join dir s.server_base) (ssh_name_of vpn s.server_base) us;
        })
    with_files f o = none

-- `loadRoot` of a directory that exists and is read.
unfoldable pub load_root : Bytes → List ServerDir → List DeployServer
load_root dir [] = []
load_root dir (s ∷ ss) = add_loaded (load_server dir s) (load_root dir ss)

-- What a search ends in: `IsNamed` dereferences the pointer of an application.
pub data Search : Type 0 where
  nil_dereference not_found : Search
  found_app : App → Search

unfoldable pub is_named : Bytes → List Bytes → Bool
is_named domain [] = false
is_named domain (n ∷ ns) = bytes_eq n domain || is_named domain ns

abbrev pub or_search : Search → Search → Search
or_search not_found s = s
or_search (found_app a) s = found_app a
or_search nil_dereference s = nil_dereference

abbrev pub search_app : Bytes → App → Option ApplicationDotHocon → Search
search_app domain a none = nil_dereference
search_app domain a (some d) = if is_named domain d.domain_names then found_app a else not_found

unfoldable pub search_apps : Bytes → List App → Search
search_apps domain [] = not_found
search_apps domain (a ∷ more) =
    or_search (search_app domain a a.dot_hocon) (search_apps domain more)

unfoldable pub search_users : Bytes → List User → Search
search_users domain [] = not_found
search_users domain (u ∷ us) = or_search (search_apps domain u.apps) (search_users domain us)

-- `FindApp`
unfoldable pub find_app : Bytes → List DeployServer → Search
find_app domain [] = not_found
find_app domain (s ∷ ss) = or_search (search_users domain s.users) (find_app domain ss)
