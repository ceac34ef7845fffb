-- ===== src/Launchy/Keys.antt =====
-- The names that RunServiceSlurpLoopOnce of launchy/agent.go goes through, and its loop over them.
use mathlib.Core.Path.{subst}
use godev.Prelude.{
  true, false, ◌||◌, List, [], ◌∷◌, ◌++◌, Option, none, some, Bytes, bytes_eq, bytes_eq_iff, get,
  ◌≡◌, ◌≢◌, ◌∙◌, refl, sym, inl, inr, Bool-cases, Option-cases, arith, last_with, none_right,
  none_right,
}
use godev.Slices.{member}
use godev.Slices.Dupes.{remove_dupes-IsDistinct}
use godev.Nefario.Crud.{ServiceRecord, Table, Database, records}
use godev.Launchy.Slurp.{
  Host, Agent, SystemdUnit, CommandOutput, all_keys, names_in, actual_by_name, in_db_by_name,
  rpc_systemctl_list,
}
use godev.Launchy.Last.{get-to_map}
use godev.Launchy.Views.{view}
use godev.Launchy.Turns.{IsHealthy, IsReady}
use godev.Launchy.Handles.{IsSound}
use godev.Launchy.Converge.{Slurps, slurp_all}

-- `maps.Keys` gives the keys of a map, in any order.
abbrev pub GivesKeys : Host → Type 0
GivesKeys h =
    (k : Bytes) (ks : List Bytes) → member bytes_eq k (h.keys_of ks) ≡ member bytes_eq k ks

-- The unit that a name leads to in systemctl's answer.
abbrev pub unit_shown : Host → CommandOutput → Bytes → Option SystemdUnit
unit_shown h c k = last_with (λ u. u.unit) k (rpc_systemctl_list h c).services

module _ {V : Type 0} where
  pub member-names_in :
      (k : Bytes) (m : List (Bytes × V)) → get k m ≢ none → member bytes_eq k (names_in m) ≡ true
  unfolding member get
  member-names_in k [] h = absurd (h refl)
  member-names_in k ((j, v) ∷ m) h = elim (Bool-cases (bytes_eq j k)) [
    | inl e ↦ rw e refl
    | inr e ↦ rw e (member-names_in k m (λ f. h (rw e f)))
  ]

  names_in-get :
      (k : Bytes) (m : List (Bytes × V)) → member bytes_eq k (names_in m) ≡ true → get k m ≢ none
  unfolding member get
  names_in-get k [] h e = cc
  names_in-get k ((j, v) ∷ m) h e = elim (Bool-cases (bytes_eq j k)) [
    | inl f ↦ let g : some v ≡ none = rw f at e in absurd (cc)
    | inr f ↦ names_in-get k m (rw f at h) (rw f at e)
  ]

module _ {V : Type 0} where
  pub names_in_absent :
      (k : Bytes) (m : List (Bytes × V)) → member bytes_eq k (names_in m) ≡ false → get k m ≡ none
  names_in_absent k m h = elim (Option-cases (get k m)) [
    | inl e ↦ e
    | inr (v, e) ↦
        let f : get k m ≢ none = λ g. let n : some v ≡ none = sym e ∙ g in absurd (cc) in
        absurd (cc (member-names_in k m f))
  ]

member-append_all :
    (u : Bytes) (xs ys : List Bytes)
    → member bytes_eq u (xs ++ ys) ≡ (member bytes_eq u xs || member bytes_eq u ys)
unfolding member
member-append_all u [] ys = refl
member-append_all u (x ∷ xs) ys = ground (arith, member-append_all u xs ys)

pub member-all_keys :
    (h : Host) (keys : GivesKeys h) (c : CommandOutput) (rs : List ServiceRecord) (k : Bytes)
    → member bytes_eq k (all_keys h c rs) ≡ (
        member bytes_eq k (names_in (actual_by_name h c))
        || member bytes_eq k (names_in (in_db_by_name rs)))
member-all_keys h keys c rs k =
    rw
      (
        (remove_dupes-IsDistinct bytes_eq bytes_eq_iff (
              h.keys_of (names_in (actual_by_name h c))
              ++ h.keys_of (names_in (in_db_by_name rs)))).1
            k,
        member-append_all k (h.keys_of (names_in (actual_by_name h c)))
            (h.keys_of (names_in (in_db_by_name rs))),
        keys k (names_in (actual_by_name h c)),
        keys k (names_in (in_db_by_name rs)),
      )
      refl

-- What the server lists for the agent.
abbrev pub listed : Host → Database → Table → List ServiceRecord
listed h db t = records db h.minion_uid t

module _ (h : Host) (db : Database) (c : CommandOutput) (a : Agent) (t : Table) where
  pub listed-view : (k : Bytes) → view db h.minion_uid k t ≡ get k (in_db_by_name (listed h db t))
  unfolding get
  listed-view k = none_right _ ∙ sym (get-to_map (λ r. r.name) k (listed h db t) [])

  pub unit-get : (k : Bytes) → unit_shown h c k ≡ get k (actual_by_name h c)
  unfolding get
  unit-get k = none_right _ ∙ sym (get-to_map (λ u. u.unit) k (rpc_systemctl_list h c).services [])

  -- A name among the keys is in one of the maps.
  keys_known :
      GivesKeys h
      → (k : Bytes) → member bytes_eq k (all_keys h c (listed h db t)) ≡ true
      → get k (actual_by_name h c) ≡ none
      → get k (in_db_by_name (listed h db t)) ≢ none
  keys_known keys k m e f = elim (Bool-cases (member bytes_eq k (names_in (actual_by_name h c)))) [
    | inl i ↦ names_in-get k (actual_by_name h c) i e
    | inr o ↦
        names_in-get k (in_db_by_name (listed h db t))
          (subst (λ b. (b || member bytes_eq k (names_in (in_db_by_name (listed h db t)))) ≡ true) o
            (sym (member-all_keys h keys c (listed h db t) k) ∙ m))
          f
  ]

  pub pass-Slurps :
      IsSound h
      → GivesKeys h
      → IsHealthy db
      → IsReady h a.uuids t
      → Slurps h db
          (actual_by_name h c)
          (in_db_by_name (listed h db t))
          (all_keys h c (listed h db t))
          a
          t
  pass-Slurps sound keys ok w =
      slurp_all h db (actual_by_name h c) (in_db_by_name (listed h db t))
        (all_keys h c (listed h db t)) a t
        (remove_dupes-IsDistinct bytes_eq bytes_eq_iff (
          h.keys_of (names_in (actual_by_name h c))
          ++ h.keys_of (names_in (in_db_by_name (listed h db t))))).0
        (λ k m. listed-view k) (keys_known keys) sound ok w
