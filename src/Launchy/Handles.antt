-- ===== src/Launchy/Handles.antt =====
-- Each of the cases of RunServiceSlurpLoopOnce in launchy/agent.go brings the record of its name to the
-- state that systemctl shows.
use mathlib.Core.Path.{subst}
use godev.Prelude.{
  ℕ, ◌+◌, true, false, [], ◌∷◌, Option, none, some, Bytes, ◌≡◌, ◌≢◌, ◌∙◌, refl, sym, inl, inr,
  Bool-cases, arith, ap,
}
use godev.Nefario.Crud.{UnitJson, ServiceRecord, Table, Database, crud_all, any_bad, insert}
use godev.Launchy.Slurp.{
  Host, SystemdUnit, turn, random_uid, new_record, update_record, to_service_unit_json, not_showing,
  compare_service, same_json, missing_turn,
}
use godev.Launchy.Views.{view, view-json}
use godev.Launchy.Turns
use godev.Launchy.Turns.{IsHealthy, IsReady, Shows, Handled}
use godev.Launchy.Insertion

-- `reflect.DeepEqual` finds no two different messages equal, and no uuid is made twice.
pub record IsSound (h : Host) : Type 0 where
  pub same : (a b : UnitJson) → h.deep_equal a b ≡ true → a ≡ b
  pub injective : (i j : ℕ) → random_uid h i ≡ random_uid h j → i ≡ j

module _ (h : Host) (db : Database) (sound : IsSound h) (ok : IsHealthy db) (k : Bytes) (n : ℕ)
    (t : Table) (w : IsReady h n t) where
  nothing_sent :
      (o : Option SystemdUnit) (q r : ServiceRecord)
      → compare_service h k o (some q) n ≡ turn [] r n
      → Shows o (some q) (view db h.minion_uid k t)
      → Handled h db k o (some q) n t
  unfolding crud_all any_bad
  nothing_sent o q r e shown = record {
    actions = [];
    service = r;
    count = n;
    after = t;
    turned = e;
    accepted = refl;
    applied = refl;
    counted = omega arith;
    shown = shown;
    others = λ j ne. refl;
    ready = w;
    unique = λ d. d;
    inserted = λ new. absurd (cc);
  }

  update_sent :
      (o : Option SystemdUnit) (r : ServiceRecord) (j : UnitJson)
      → compare_service h k o (some r) n
        ≡ turn (update_record r j ∷ []) (record r { unit_json = some j }) n
      → view db h.minion_uid k t ≡ some r
      → Shows o (some r) (some (record r { unit_json = some j }))
      → Handled h db k o (some r) n t
  unfolding any_bad
  update_sent o r j e v shown = record {
    actions = update_record r j ∷ [];
    service = record r { unit_json = some j };
    count = n;
    after = Turns.update_of h db ok k r j t;
    turned = e;
    accepted = refl;
    applied = Turns.update_applied h db ok k r j t;
    counted = omega arith;
    shown = rw (Turns.update-view h db ok k r j t v) shown;
    others = Turns.update_others h db ok k r j t n w v;
    ready = Turns.update-IsReady h db ok k r j t n w;
    unique = Turns.update_unique h db ok k r j t;
    inserted = λ new. absurd (cc);
  }

  accept_insert :
      (r : ServiceRecord) → any_bad (record { action = insert; record_of = some r } ∷ []) ≡ false
  unfolding any_bad
  accept_insert r = refl

  pub handle_service :
      (o : Option SystemdUnit) (d : Option ServiceRecord)
      → view db h.minion_uid k t ≡ d
      → (o ≡ none → d ≢ none)
      → Handled h db k o d n t
  handle_service (some u) (some r) v known =
      let (j, e) = view-json db h.minion_uid k t r v in
      let js = to_service_unit_json u in
      elim (Bool-cases (h.deep_equal js j)) [
        | inl same ↦
            let test : same_json h js r.unit_json ≡ true =
              subst (λ o. same_json h js o ≡ true) (sym e) same in
            let kept : r ≡ record r { unit_json = some js } =
              ap (λ (o : Option UnitJson). record r { unit_json = o })
                (e ∙ ap some (sym (sound.same js j same))) in
            nothing_sent (some u) r r (rw test refl) (v ∙ ap some kept)
        | inr differ ↦
            let test : same_json h js r.unit_json ≡ false =
              subst (λ o. same_json h js o ≡ false) (sym e) differ in
            update_sent (some u) r js (rw test refl) v refl
      ]
  handle_service (some u) none v known = record {
    actions = Insertion.insert_record h db ok k u n t w ∷ [];
    service = new_record h k u n;
    count = n + 1;
    after = Insertion.added h db ok k u n t w;
    turned = refl;
    accepted = accept_insert (new_record h k u n);
    applied = Insertion.insert_applied h db ok k u n t w;
    counted = omega arith;
    shown = (new_record h k u n, Insertion.insert-view h db ok k u n t w, refl);
    others = Insertion.insert_others h db ok k u n t w;
    ready = Insertion.insert-IsReady h db ok k u n t w sound.injective;
    unique = Insertion.insert_unique h db ok k u n t w v;
    inserted = λ new. (refl, omega arith, Insertion.insert-view h db ok k u n t w);
  }
  handle_service none (some r) v known =
      let (j, e) = view-json db h.minion_uid k t r v in
      elim (Bool-cases j.unit_exists) [
        | inl showing ↦
            update_sent none r (not_showing j)
              (ap (λ o. missing_turn h r o n) e ∙ (rw showing refl)) v (j, e, (rw showing refl))
        | inr gone ↦ nothing_sent none r r (ap (λ o. missing_turn h r o n) e ∙ (rw gone refl)) (
          j,
          e,
          (rw gone (v ∙ ap (λ (o : Option UnitJson). some (record r { unit_json = o })) e)),
        )
      ]
  handle_service none none v known = absurd (known refl refl)
