-- ===== src/Devops/Command.antt =====
-- devops/deploy.go: Deploy, which finds all applications, installs each, and commits.
use godev.Prelude.{List, [], ◌∷◌, ◌++◌, Option, none, some, Bytes, codes}
use godev.Devops.Tree.{
  App, DeployServer, join, Search, nil_dereference, not_found, found_app, find_app,
}
use godev.Devops.Deploy.{
  DeployInfo, parse_deploy_info, DeployAction, run_command, Machine, Deployed, done, failed, panics,
  attempt, deploy_each,
}

-- What the search for all applications ends in; an error does not end it.
pub data Lookups : Type 0 where
  lookup_panics some_missing : Lookups
  all_found : List (App × Bytes) → Lookups

abbrev pub and_search : Bytes → Search → Lookups → Lookups
and_search v nil_dereference rest = lookup_panics
and_search v not_found lookup_panics = lookup_panics
and_search v not_found some_missing = some_missing
and_search v not_found (all_found more) = some_missing
and_search v (found_app a) (all_found more) = all_found ((a, v) ∷ more)
and_search v (found_app a) lookup_panics = lookup_panics
and_search v (found_app a) some_missing = some_missing

-- A nil root is dereferenced by the first search.
unfoldable pub look_up : Option (List DeployServer) → List DeployInfo → Lookups
look_up root [] = all_found []
look_up none (i ∷ more) = lookup_panics
look_up (some ss) (i ∷ more) =
    and_search i.version (find_app i.domain_name ss) (look_up (some ss) more)

abbrev pub and_parsed : Option DeployInfo → Option (List DeployInfo) → Option (List DeployInfo)
and_parsed (some i) (some more) = some (i ∷ more)
and_parsed (some i) none = none
and_parsed none rest = none

unfoldable pub parse_all : List Bytes → Option (List DeployInfo)
parse_all [] = some []
parse_all (arg ∷ args) = and_parsed (parse_deploy_info arg) (parse_all args)

-- `strings.Join` with spaces.
unfoldable pub join_words : List Bytes → Bytes
join_words [] = []
join_words (x ∷ []) = x
join_words (x ∷ y ∷ more) = x ++ codes " " ++ join_words (y ∷ more)

abbrev pub commit_command : Bytes → List Bytes → List Bytes
commit_command dir args =
    codes "git"
    ∷ codes "-C"
    ∷ dir
    ∷ codes "commit"
    ∷ codes "-am"
    ∷ (codes "deployed " ++ join_words args)
    ∷ []

module _ (w : Machine) (dir : Bytes) where
  abbrev pub then_commit : List Bytes → Deployed × List DeployAction → Deployed × List DeployAction
  then_commit args (done, tr) =
      attempt w (run_command (commit_command dir args)) (λ tr'. (done, tr')) tr
  then_commit args (failed, tr) = (failed, tr)
  then_commit args (panics, tr) = (panics, tr)

  abbrev pub deploy_found : List Bytes → Lookups → List DeployAction → Deployed × List DeployAction
  deploy_found args lookup_panics tr = (panics, tr)
  deploy_found args some_missing tr = (failed, tr)
  deploy_found args (all_found more) tr =
      then_commit args (deploy_each w (join dir (codes ".staging")) more tr)

  abbrev pub deploy_parsed :
      Option (List DeployServer)
      → List Bytes
      → Option (List DeployInfo)
      → List DeployAction
      → Deployed × List DeployAction
  deploy_parsed root args none tr = (failed, tr)
  deploy_parsed root args (some infos) tr = deploy_found args (look_up root infos) tr

  -- `Deploy`, of what `loadRoot` gave without an error.
  unfoldable pub deploy :
      Option (List DeployServer) → List Bytes → List DeployAction → Deployed × List DeployAction
  deploy root args tr = deploy_parsed root args (parse_all args) tr
