-- ===== src/Launchy/Converge.antt =====
-- The loop of RunServiceSlurpLoopOnce in launchy/agent.go over all names, and what the actions of the
-- pass do to the table of nefario/nefario.go.
use mathlib.Core.Path.{subst}
use godev.Prelude.{
  true, false, List, [], ◌∷◌, ◌++◌, none, some, Bytes, bytes_eq, get, ◌≡◌, ◌≢◌, ◌∙◌, refl, sym, inl,
  inr, arith, ◌≤◌, ℕ, ◌<◌,
}
use godev.Slices.{member}
use godev.Slices.Dupes.{IsDistinct}
use godev.Nefario.Crud.{ServiceRecord, RecordCrud, Table, Database, crud_all, any_bad}
use godev.Launchy.Slurp.{
  Host, Agent, SystemdUnit, slurped, slurp_names, cache_service, dto_of, ServiceDto, ServiceDto,
  ServiceDto, random_uid,
}
use godev.Launchy.Names.{member_self, member-later, member_split, not_member}
use godev.Launchy.Sending.{crud_all-append, any_bad-append}
use godev.Launchy.Caching.{cache_kept, cache_other, cache_first}
use godev.Launchy.Listing.{listed_names}
use godev.Launchy.Views.{view}
use godev.Launchy.Turns.{IsHealthy, IsReady, Shows, Handled}
use godev.Launchy.Handles.{IsSound, handle_service}

-- A new record has one of the uids that the pass made, as has the cache if it lacked the name.
abbrev pub Inserted : Host → Database → Bytes → Agent → Agent → Table → Type 0
Inserted h db k a b after =
    (n : ℕ) × (r : ServiceRecord) × (a.uuids ≤ n)
    × (n < b.uuids)
    × (r.uid ≡ random_uid h n)
    × (view db h.minion_uid k after ≡ some r)
    × (get k a.services_by_name ≡ none → get k b.services_by_name ≡ some (dto_of r))

module _ (h : Host) (db : Database) (actual : List (Bytes × SystemdUnit))
    (in_db : List (Bytes × ServiceRecord)) where
  pub record Slurps (names : List Bytes) (a : Agent) (t : Table) : Type 0 where
    pub agent : Agent
    pub actions : List RecordCrud
    pub after : Table
    pub slurps : slurp_names h actual in_db names a ≡ slurped agent actions
    pub accepted : any_bad actions ≡ false
    pub applied : crud_all db actions t ≡ (none, after)
    pub shown :
        (k : Bytes)
        → member bytes_eq k names ≡ true
        → Shows (get k actual) (get k in_db) (view db h.minion_uid k after)
    pub others :
        (k : Bytes)
        → member bytes_eq k names ≡ false
        → view db h.minion_uid k after ≡ view db h.minion_uid k t
    pub ready : IsReady h agent.uuids after
    pub unique :
        IsDistinct bytes_eq (listed_names db h.minion_uid t)
        → IsDistinct bytes_eq (listed_names db h.minion_uid after)
    pub counted : a.uuids ≤ agent.uuids
    pub kept_cache :
        (k : Bytes) (d : ServiceDto)
        → get k a.services_by_name ≡ some d
        → get k agent.services_by_name ≡ some d
    pub inserted :
        (k : Bytes)
        → member bytes_eq k names ≡ true
        → get k in_db ≡ none
        → Inserted h db k a agent after

  Inserted-first :
      (k : Bytes) (names : List Bytes) (a : Agent) (t : Table)
      (first : Handled h db k (get k actual) (get k in_db) a.uuids t)
      → member bytes_eq k names ≡ false
      → (rest : Slurps names
          (record {
            services_by_name = cache_service k (dto_of first.service) a.services_by_name;
            uuids = first.count;
          })
          first.after)
      → get k in_db ≡ none
      → Inserted h db k a rest.agent rest.after
  Inserted-first k names a t first new rest e =
      let (uid, more, shown) = first.inserted e in
      (
        a.uuids,
        first.service,
        omega arith,
        omega (arith, more, rest.counted),
        uid,
        rest.others k new ∙ shown,
        λ f.
            rest.kept_cache k (dto_of first.service)
              (cache_first k (dto_of first.service) a.services_by_name f),
      )

  -- The turn of one name, then those of the others.
  slurp_first :
      (k : Bytes) (names : List Bytes) (a : Agent) (t : Table)
      (first : Handled h db k (get k actual) (get k in_db) a.uuids t)
      → member bytes_eq k names ≡ false
      → Slurps names
          (record {
            services_by_name = cache_service k (dto_of first.service) a.services_by_name;
            uuids = first.count;
          })
          first.after
      → Slurps (k ∷ names) a t
  unfolding slurp_names
  slurp_first k names a t first new rest = record {
    agent = rest.agent;
    actions = first.actions ++ rest.actions;
    after = rest.after;
    slurps = rw (first.turned, rest.slurps) refl;
    accepted = rw (any_bad-append first.actions rest.actions, first.accepted) rest.accepted;
    applied =
        crud_all-append db first.actions rest.actions t first.after first.applied ∙ rest.applied;
    shown = λ j m. elim (member_split j k names m) [
      | inl e ↦
          subst (λ x. Shows (get x actual) (get x in_db) (view db h.minion_uid x rest.after)) e
            (subst (λ v. Shows (get k actual) (get k in_db) v) (sym (rest.others k new))
              first.shown)
      | inr later ↦ rest.shown j later
    ];
    others =
        λ j m. let (ne, later) = not_member j k names m in rest.others j later ∙ first.others j ne;
    ready = rest.ready;
    unique = λ d. rest.unique (first.unique d);
    counted = omega (arith, first.counted, rest.counted);
    kept_cache =
        λ j d e. rest.kept_cache j d (cache_kept j k (dto_of first.service) a.services_by_name d e);
    inserted = λ j m e. elim (member_split j k names m) [
      | inl same ↦
          subst (λ x. Inserted h db x a rest.agent rest.after) same
            (Inserted-first k names a t first new rest
              (subst (λ x. get x in_db ≡ none) (sym same) e))
      | inr later ↦
          let differ : j ≢ k = λ f.
            let g : member bytes_eq k names ≡ true =
              subst (λ x. member bytes_eq x names ≡ true) f later in
            absurd (cc) in
          let (n, r, above, below, uid, shown, cached) = rest.inserted j later e in
          (
            n,
            r,
            omega (arith, first.counted),
            below,
            uid,
            shown,
            λ f. cached (cache_other j k (dto_of first.service) a.services_by_name differ ∙ f),
          )
    ];
  }

  pub slurp_all :
      (names : List Bytes) (a : Agent) (t : Table)
      → IsDistinct bytes_eq names
      → ((k : Bytes) → member bytes_eq k names ≡ true → view db h.minion_uid k t ≡ get k in_db)
      → ((k : Bytes) → member bytes_eq k names ≡ true → get k actual ≡ none → get k in_db ≢ none)
      → IsSound h
      → IsHealthy db
      → IsReady h a.uuids t
      → Slurps names a t
  unfolding slurp_names crud_all any_bad member
  slurp_all [] a t d same known sound ok w = record {
    agent = a;
    actions = [];
    after = t;
    slurps = refl;
    accepted = refl;
    applied = refl;
    shown = λ k m. absurd (cc);
    others = λ k m. refl;
    ready = w;
    unique = λ d. d;
    counted = omega arith;
    kept_cache = λ k d e. e;
    inserted = λ k m. absurd (cc);
  }
  slurp_all (k ∷ names) a t d same known sound ok w =
      let self = member_self k names in
      let first =
        handle_service h db sound ok k a.uuids t w (get k actual) (get k in_db) (same k self)
          (known k self) in
      slurp_first k names a t first d.0 (
        slurp_all names
          (record {
            services_by_name = cache_service k (dto_of first.service) a.services_by_name;
            uuids = first.count;
          })
          first.after d.1
          (λ j m.
            first.others j (λ e. absurd (cc (sym m ∙ (rw (← e) at d.0))))
            ∙ same j (member-later j k names m))
          (λ j m. known j (member-later j k names m)) sound ok first.ready)
