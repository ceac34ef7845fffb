-- ===== src/Devops/Installs.antt =====
-- devops/deploy.go: what a deployment that ends well has done.
use godev.Prelude.{
  [], codes, refl, Bool, true, false, List, ◌∷◌, ◌++◌, Option, none, some, Bytes, ◌≡◌, ◌≢◌, inl,
  inr, Bool-cases, ◌⊎◌, ◌⊎◌,
}
use godev.Devops.Tree.{ApplicationDotHocon, join, App}
use godev.Devops.Deploy.{
  remove_all, make_all, remove_file, copy_directory, deploy_staged, deploy_to, deploy_app,
  after_deploy, deploy_each, attempt_if, ignore_if, record_deploy, DeployAction, write_last_deploy,
  run_command, Machine, Deployed, done, failed, panics, settle_version, remote_dir, last_in,
  describe, mkdir_command, rsync_command, install_command, attempt, last_deploy_of, run_install,
  with_version,
}

pub failed_done : failed ≢ done
failed_done e = cc

pub panics_done : panics ≢ done
panics_done e = cc

module _ (w : Machine) where
  -- The stage's name and its directory, and the actions that fill it: what is left there is removed,
  -- the directory is made, the application's configuration is copied, and a record of the last
  -- deployment that came with it is removed.
  abbrev stage_name : App → List DeployAction → Bytes
  stage_name a tr = a.app_name ++ codes "-" ++ w.file_time tr

  abbrev cleared : Bytes → List DeployAction → List DeployAction
  cleared local tr = ignore_if w (w.directory_exists tr local) (remove_all local) tr

  abbrev copied_app : App → Bytes → List DeployAction → List DeployAction
  copied_app a local tr = copy_directory a.app_dir local ∷ make_all local ∷ cleared local tr

  abbrev staged : App → Bytes → List DeployAction → List DeployAction
  staged a local tr =
      let copied = copied_app a local tr in
      ignore_if w (w.file_exists copied (last_in local)) (remove_file (last_in local)) copied

  -- The steps of the staging whose errors end a deployment succeed.
  abbrev Stages : App → Bytes → List DeployAction → Type 0
  Stages a local tr =
      ((w.directory_exists tr local ≡ false) ⊎ (w.succeeds tr (remove_all local) ≡ true))
      × (w.succeeds (cleared local tr) (make_all local) ≡ true)
      × (w.succeeds (make_all local ∷ cleared local tr) (copy_directory a.app_dir local) ≡ true)

  -- What is done after the staging, the last first: the descriptor, the copy and the installation.
  abbrev described : App → Bytes → Bytes → List DeployAction → List DeployAction
  described a u local tr = describe a u local ∷ staged a local tr

  abbrev made_remote : App → Bytes → Bytes → Bytes → List DeployAction → List DeployAction
  made_remote a u stage local tr =
      run_command (mkdir_command a (remote_dir a stage)) ∷ described a u local tr

  abbrev copied_remote : App → Bytes → Bytes → Bytes → List DeployAction → List DeployAction
  copied_remote a u stage local tr =
      run_command (rsync_command a local (remote_dir a stage)) ∷ made_remote a u stage local tr

  abbrev installed : App → Bytes → Bytes → Bytes → List DeployAction → List DeployAction
  installed a u stage local tr =
      run_command (install_command w a (remote_dir a stage)) ∷ copied_remote a u stage local tr

  -- Each of them succeeds.
  abbrev Copies : App → Bytes → Bytes → Bytes → List DeployAction → Type 0
  Copies a u stage local tr =
      let remote = remote_dir a stage in
      (w.succeeds (staged a local tr) (describe a u local) ≡ true)
      × (w.succeeds (described a u local tr) (run_command (mkdir_command a remote)) ≡ true)
      × (w.succeeds (made_remote a u stage local tr) (run_command (rsync_command a local remote))
          ≡ true)
      × (w.succeeds (copied_remote a u stage local tr) (run_command (install_command w a remote))
          ≡ true)

  -- From one trace to another, an application is installed: its configuration is staged; the version
  -- is the one that was asked for, or that of the last deployment; it is described, copied and
  -- installed; each of these steps succeeds; and the write of the deployment's record under that
  -- version is the last action.
  pub data Installs (staging : Bytes) (a : App) (v : Bytes) (tr : List DeployAction)
      : List DeployAction → Type 0 where
    installs :
        (u : Bytes)
        → settle_version v a.last_deploy ≡ some u
        → (let stage = stage_name a tr in
            Stages a (join staging stage) tr × Copies a u stage (join staging stage) tr)
        → Installs staging a v tr (
            (let stage = stage_name a tr in
              let after = installed a u stage (join staging stage) tr in
              write_last_deploy (last_in a.app_dir) (last_deploy_of w u after) ∷ after))

  pub by_attempt :
      (P : Deployed × List DeployAction → Type 0) (a : DeployAction)
      (next : List DeployAction → Deployed × List DeployAction) (tr : List DeployAction)
      → (w.succeeds tr a ≡ true → (next (a ∷ tr)).0 ≡ done → P (next (a ∷ tr)))
      → (attempt w a next tr).0 ≡ done
      → P (attempt w a next tr)
  by_attempt P a next tr f e = elim (Bool-cases (w.succeeds tr a)) [
    | inl l ↦ rw l (f l (rw l at e))
    | inr l ↦ absurd (failed_done (rw l at e))
  ]

  by_attempt_if :
      (P : Deployed × List DeployAction → Type 0) (b : Bool) (a : DeployAction)
      (next : List DeployAction → Deployed × List DeployAction) (tr : List DeployAction)
      → ((b ≡ false) ⊎ (w.succeeds tr a ≡ true)
          → (next (ignore_if w b a tr)).0 ≡ done
          → P (next (ignore_if w b a tr)))
      → (attempt_if w b a next tr).0 ≡ done
      → P (attempt_if w b a next tr)
  by_attempt_if P true a next tr f = by_attempt P a next tr λ p. f (inr p)
  by_attempt_if P false a next tr f = f (inl refl)

  module _ (staging : Bytes) (a : App) (v : Bytes) (tr : List DeployAction) where
    Good : Deployed × List DeployAction → Type 0
    Good o = Installs staging a v tr o.1

    abbrev stage : Bytes
    stage = stage_name a tr

    abbrev local : Bytes
    local = join staging stage

    run_install-Installs :
        (u : Bytes)
        → settle_version v a.last_deploy ≡ some u
        → Stages a local tr
        → (run_install w a u stage local (staged a local tr)).0 ≡ done
        → Good (run_install w a u stage local (staged a local tr))
    unfolding Good
    run_install-Installs u s g =
        let remote = remote_dir a stage in
        let made = run_command (mkdir_command a remote) in
        let copied = run_command (rsync_command a local remote) in
        let third = attempt w (run_command (install_command w a remote)) (record_deploy w a u) in
        let second = attempt w copied third in
        by_attempt Good (describe a u local) (attempt w made second) (staged a local tr) λ p.
          by_attempt Good made second (described a u local tr) λ q.
            by_attempt Good copied third (made_remote a u stage local tr) λ r.
              by_attempt Good (run_command (install_command w a remote)) (record_deploy w a u)
                (copied_remote a u stage local tr) λ t e. installs u s (g, (p, q, r, t))

    version-Installs :
        (has : Bool) (o : Option Bytes)
        → settle_version v a.last_deploy ≡ o
        → Stages a local tr
        → (with_version w a has o stage local (staged a local tr)).0 ≡ done
        → Good (with_version w a has o stage local (staged a local tr))
    version-Installs has none s g e = absurd (failed_done e)
    version-Installs true (some u) s g e = run_install-Installs u s g e
    version-Installs false (some u) s g e = absurd (panics_done e)

    staged-Installs :
        (o : Option ApplicationDotHocon)
        → Stages a local tr
        → (deploy_staged w a o v stage local (copied_app a local tr)).0 ≡ done
        → Good (deploy_staged w a o v stage local (copied_app a local tr))
    staged-Installs none g e = absurd (panics_done e)
    staged-Installs (some d) g e =
        version-Installs d.has_install (settle_version v a.last_deploy) refl g e

    to-Installs : (deploy_to w a v stage local tr).0 ≡ done → Good (deploy_to w a v stage local tr)
    to-Installs =
        let copy = deploy_staged w a a.dot_hocon v stage local in
        let make = attempt w (copy_directory a.app_dir local) copy in
        by_attempt_if Good (w.directory_exists tr local) (remove_all local)
          (attempt w (make_all local) make) tr
          λ c. by_attempt Good (make_all local) make (cleared local tr) λ m.
            by_attempt Good (copy_directory a.app_dir local) copy
              (make_all local ∷ cleared local tr) λ p. staged-Installs a.dot_hocon (c, m, p)

    app-Installs :
        (deploy_app w staging a v tr).0 ≡ done
        → Installs staging a v tr (deploy_app w staging a v tr).1
    unfolding deploy_app Good
    app-Installs = to-Installs

  -- Applications that are installed one after another.
  pub data InstallsAll (staging : Bytes)
      : List (App × Bytes) → List DeployAction → List DeployAction → Type 0 where
    no_more : {tr : List DeployAction} → InstallsAll staging [] tr tr
    and_then :
        {a : App} {v : Bytes} {more : List (App × Bytes)} {tr tr' tr'' : List DeployAction}
        → Installs staging a v tr tr'
        → InstallsAll staging more tr' tr''
        → InstallsAll staging ((a, v) ∷ more) tr tr''

  pub each-InstallsAll :
      (staging : Bytes) (found : List (App × Bytes)) (tr : List DeployAction)
      → (deploy_each w staging found tr).0 ≡ done
      → InstallsAll staging found tr (deploy_each w staging found tr).1
  unfolding deploy_each
  each-InstallsAll staging [] tr e = no_more
  each-InstallsAll staging ((a, v) ∷ more) tr e =
      by_first (deploy_app w staging a v tr)
        (deploy_each w staging more (deploy_app w staging a v tr).1) (app-Installs staging a v tr)
        (each-InstallsAll staging more (deploy_app w staging a v tr).1) e
    where
      by_first :
          (o r : Deployed × List DeployAction)
          → (o.0 ≡ done → Installs staging a v tr o.1)
          → (r.0 ≡ done → InstallsAll staging more o.1 r.1)
          → (after_deploy o r).0 ≡ done
          → InstallsAll staging ((a, v) ∷ more) tr (after_deploy o r).1
      by_first (done, t) r f g h = and_then (f refl) (g h)
      by_first (failed, t) (done, u) f g h = absurd (failed_done h)
      by_first (failed, t) (failed, u) f g h = absurd (failed_done h)
      by_first (failed, t) (panics, u) f g h = absurd (panics_done h)
      by_first (panics, t) r f g h = absurd (panics_done h)
