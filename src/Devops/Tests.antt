-- ===== src/Devops/Tests.antt =====
-- Tests of devops/deploy.go: a disk with one server, one user and two applications.
use godev.Prelude.{true, false, List, [], ◌∷◌, some, Bytes, codes, bytes_eq, ◌≡◌, refl}
use godev.Devops.Tree.{
  ApplicationDotHocon, AppDir, ServerDir, DeployServer, missing, unparsed, parsed, load_root,
  load_users, load_apps, LastDeploy, find_app, search_users, search_apps, is_named, nil_dereference,
}
use godev.Devops.Deploy.{Machine, deploy_app, deploy_each, before_colon, after_colon, done, failed}
use godev.Devops.Command.{look_up, parse_all, join_words, deploy}
use godev.Devops.Commits.{Commits, deploy-Commits}

abbrev hocon : Bytes → ApplicationDotHocon
hocon name = record { has_install = true; domain_names = name ∷ [] }

abbrev last : LastDeploy
last = record { last_version = codes "7"; deployed_at = codes "then"; ssh_keys = [] }

abbrev app_dirs_of : List AppDir
app_dirs_of =
    record {
      base = codes "a";
      is_dir = true;
      application_hocon = parsed (hocon (codes "a.com"));
      last_deploy_json = parsed last;
    }
    ∷ record {
      base = codes "b";
      is_dir = true;
      application_hocon = parsed (hocon (codes "b.com"));
      last_deploy_json = missing;
    }
    ∷ []

abbrev disk : List AppDir → List ServerDir
disk dirs =
    record {
      server_base = codes "s";
      server_is_dir = true;
      server_hocon = some [];
      user_dirs = some (
          record {
            user_base = codes "u";
            user_is_dir = true;
            user_hocon = some [];
            app_dirs = some dirs;
          }
          ∷ []);
    }
    ∷ []

abbrev servers : List DeployServer
unfolding load_root load_users load_apps
servers = load_root (codes "/conf") (disk app_dirs_of)

abbrev machine : Machine
machine = record {
  directory_exists = λ tr d. false;
  file_exists = λ tr f. true;
  succeeds = λ tr a. true;
  file_time = λ tr. codes "1200";
  utc_now = λ tr. codes "now";
  public_keys = [];
  is_trace_enabled = false;
}

abbrev args : List Bytes
args = codes "a.com" ∷ codes "b.com:9" ∷ []

good_run : (deploy machine (codes "/conf") (some servers) args []).0 ≡ done
unfolding deploy parse_all look_up find_app search_users search_apps is_named deploy_each deploy_app
    before_colon after_colon bytes_eq join_words load_root load_users load_apps
good_run = refl

-- There is no last deployment of the second application.
no_version : (deploy machine (codes "/conf") (some servers) (codes "b.com" ∷ []) []).0 ≡ failed
unfolding deploy parse_all look_up find_app search_users search_apps is_named deploy_each deploy_app
    before_colon after_colon bytes_eq join_words load_root load_users load_apps
no_version = refl

-- One file of another application that is not parsed.
broken_hocon :
    find_app (codes "a.com") (
      load_root (codes "/conf") (
        disk (
          record {
            base = codes "0";
            is_dir = true;
            application_hocon = unparsed;
            last_deploy_json = missing;
          }
          ∷ app_dirs_of)))
    ≡ nil_dereference
unfolding find_app search_users search_apps is_named bytes_eq load_root load_users load_apps
broken_hocon = refl

deploy-Commits_example :
    Commits machine
      (codes "/conf")
      (some servers)
      args
      []
      (deploy machine (codes "/conf") (some servers) args [])
deploy-Commits_example = deploy-Commits machine (codes "/conf") (some servers) args [] good_run
