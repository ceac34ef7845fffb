-- ===== src/Devops/Commits.antt =====
-- devops/deploy.go: a whole run of Deploy.
use godev.Prelude.{true, List, ◌∷◌, Option, none, some, Bytes, codes, ◌≡◌, refl}
use godev.Devops.Tree.{App, DeployServer, join}
use godev.Devops.Deploy.{
  DeployInfo, DeployAction, run_command, Machine, Deployed, done, failed, panics, deploy_each,
}
use godev.Devops.Command.{
  Lookups, lookup_panics, some_missing, all_found, look_up, parse_all, commit_command, then_commit,
  deploy_found, deploy_parsed, deploy,
}
use godev.Devops.Installs.{InstallsAll, by_attempt, each-InstallsAll, failed_done, panics_done}

module _ (w : Machine) (dir : Bytes) (root : Option (List DeployServer)) (args : List Bytes)
    (tr : List DeployAction) where
  -- Every argument is parsed and its application found, all are installed in their order, and then the
  -- configurations are committed.
  abbrev pub Commits : Deployed × List DeployAction → Type 0
  Commits o =
      (infos : List DeployInfo) × (found : List (App × Bytes)) × (tr' : List DeployAction)
      × (parse_all args ≡ some infos)
      × (look_up root infos ≡ all_found found)
      × InstallsAll w (join dir (codes ".staging")) found tr tr'
      × (w.succeeds tr' (run_command (commit_command dir args)) ≡ true)
      × (o.1 ≡ run_command (commit_command dir args) ∷ tr')

  by_commit :
      (found : List (App × Bytes)) (infos : List DeployInfo) (o : Deployed × List DeployAction)
      → parse_all args ≡ some infos
      → look_up root infos ≡ all_found found
      → (o.0 ≡ done → InstallsAll w (join dir (codes ".staging")) found tr o.1)
      → (then_commit w dir args o).0 ≡ done
      → Commits (then_commit w dir args o)
  by_commit found infos (done, t) p q f h =
      by_attempt w Commits (run_command (commit_command dir args)) (λ u. (done, u)) t
        (λ s k. (infos, found, t, p, q, f refl, s, refl)) h
  by_commit found infos (failed, t) p q f h = absurd (failed_done h)
  by_commit found infos (panics, t) p q f h = absurd (panics_done h)

  by_look :
      (infos : List DeployInfo) (l : Lookups)
      → parse_all args ≡ some infos
      → look_up root infos ≡ l
      → (deploy_found w dir args l tr).0 ≡ done
      → Commits (deploy_found w dir args l tr)
  by_look infos lookup_panics p q h = absurd (panics_done h)
  by_look infos some_missing p q h = absurd (failed_done h)
  by_look infos (all_found found) p q h =
      let staging = join dir (codes ".staging") in
      by_commit found infos (deploy_each w staging found tr) p q
        (each-InstallsAll w staging found tr) h

  by_parse :
      (o : Option (List DeployInfo))
      → parse_all args ≡ o
      → (deploy_parsed w dir root args o tr).0 ≡ done
      → Commits (deploy_parsed w dir root args o tr)
  by_parse none p h = absurd (failed_done h)
  by_parse (some infos) p h = by_look infos (look_up root infos) p refl h

  -- A Deploy that ends well, for any machine: every argument was parsed and its application found, and
  -- they were installed in their order. For each, the staging directory was cleared where it was there
  -- and made, the application's configuration copied to it, a last-deploy.json that came with the copy
  -- asked to be removed, the descriptor written, and the stage copied to the server and installed
  -- there, all but that removal with success, under the version that was asked for or, for the label
  -- of the current one, the last one's; then the write of its last-deploy.json with that version was
  -- asked for. After the last application the configurations were committed, as the last action.
  pub deploy-Commits : (deploy w dir root args tr).0 ≡ done → Commits (deploy w dir root args tr)
  unfolding deploy
  deploy-Commits = by_parse (parse_all args) refl
