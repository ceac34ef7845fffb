-- ===== src/Journal/Processes.antt =====
-- SubmitJournalCtlStdoutReader of launchy/journalctl-utils.go: the processes that the server is told of.
use godev.Prelude.{
  ℕ, suc, ◌≤◌, true, false, List, [], ◌∷◌, Option, none, some, Bytes, bytes_eq, bytes_eq_iff, get,
  put, get-put_if, ◌==◌, ==_iff, ◌≡◌, ◌≢◌, refl, sym, ◌∙◌, ap, inl, inr, Bool-cases, arith,
}
use godev.Journal.Lines.{SystemdService, Request, asked_start, asked_completion, Reader}
use godev.Journal.Reading.{absent, opened, closed, phase}

abbrev pub current_of : Option SystemdService → Option ℕ
current_of none = none
current_of (some v) = v.current_slurp

-- Each start is of a process that the server has not heard of, and each completion of one that is open.
abbrev pub WellFormed : List Request → Type 0
WellFormed [] = Unit
WellFormed (asked_start u n pid ∷ rs) = (phase u rs ≡ absent) × WellFormed rs
WellFormed (asked_completion u t ∷ rs) = ((n : Bytes) × (phase u rs ≡ opened n)) × WellFormed rs

-- What holds between two events: an open process is the current one of its service, so a service has
-- one at most; a current one was started.
pub record Orderly (m : List (Bytes × SystemdService)) (next : ℕ) (rs : List Request) : Type 0 where
  pub held : (u : ℕ) (n : Bytes) → phase u rs ≡ opened n → current_of (get n m) ≡ some u
  pub known : (u : ℕ) (n : Bytes) → current_of (get n m) ≡ some u → phase u rs ≢ absent
  pub fresh : (u : ℕ) → next ≤ u → phase u rs ≡ absent
  pub formed : WellFormed rs

abbrev pub OrderlyIn : Reader → Type 0
OrderlyIn s = Orderly s.services_by_name s.uids s.requests

pub closed_absent : closed ≢ absent
closed_absent e = cc

closed_opened : {n : Bytes} → closed ≢ opened n
closed_opened e = cc

opened_same : {n k : Bytes} → opened n ≡ opened k → n ≡ k
opened_same e = cc

pub absent_opened : {n : Bytes} → absent ≢ opened n
absent_opened e = cc

pub none-some : {u : ℕ} → none ≢ some u
none-some e = cc

module _ (m : List (Bytes × SystemdService)) (n k : Bytes) (v : SystemdService) where
  pub put_self : bytes_eq n k ≡ true → current_of (get k (put n v m)) ≡ v.current_slurp
  put_self l = rw (get-put_if k n v m, l) refl

  pub put-other : bytes_eq n k ≡ false → current_of (get k (put n v m)) ≡ current_of (get k m)
  put-other l = rw (get-put_if k n v m, l) refl

module _ {m : List (Bytes × SystemdService)} {next : ℕ} {rs : List Request} where
  pub completed-Orderly :
      (u : ℕ) (t n : Bytes)
      → phase u rs ≡ opened n
      → Orderly m next rs
      → Orderly m next (asked_completion u t ∷ rs)
  unfolding phase
  completed-Orderly u t n e i = record {
    held = λ w k p. elim (Bool-cases (w == u)) [
      | inl l ↦ absurd (closed_opened (rw l at p))
      | inr l ↦ i.held w k (rw l at p)
    ];
    known = λ w k p. elim (Bool-cases (w == u)) [
      | inl l ↦ rw l closed_absent
      | inr l ↦ rw l (i.known w k p)
    ];
    fresh = λ w p. elim (Bool-cases (w == u)) [
      | inl l ↦
          absurd (absent_opened (sym (i.fresh w p) ∙ (ap (λ x. phase x rs) ((==_iff w u).0 l) ∙ e)))
      | inr l ↦ rw l (i.fresh w p)
    ];
    formed = ((n, e), i.formed);
  }

  -- The current process of a service is closed and forgotten.
  pub forgotten-Orderly :
      (n : Bytes) (v : SystemdService) (u : ℕ)
      → current_of (get n m) ≡ some u
      → phase u rs ≡ closed
      → Orderly m next rs
      → Orderly (put n (record v { current_slurp = none }) m) next rs
  forgotten-Orderly n v u e c i = record {
    held = λ w k p. elim (Bool-cases (bytes_eq n k)) [
      | inl l ↦
          let h = i.held w k p in
          let q = (bytes_eq_iff n k).0 l in
          let same : u ≡ w = cc in absurd (closed_opened (sym c ∙ (ap (λ x. phase x rs) same ∙ p)))
      | inr l ↦ put-other m n k (record v { current_slurp = none }) l ∙ i.held w k p
    ];
    known = λ w k p. elim (Bool-cases (bytes_eq n k)) [
      | inl l ↦ absurd (none-some (sym (put_self m n k (record v { current_slurp = none }) l) ∙ p))
      | inr l ↦ i.known w k (sym (put-other m n k (record v { current_slurp = none }) l) ∙ p)
    ];
    fresh = i.fresh;
    formed = i.formed;
  }

  -- A change of a service that keeps its current process.
  pub kept-Orderly :
      (n : Bytes) (v : SystemdService)
      → v.current_slurp ≡ current_of (get n m)
      → Orderly m next rs
      → Orderly (put n v m) next rs
  kept-Orderly n v e i = record {
    held = λ w k p. same k ∙ i.held w k p;
    known = λ w k p. i.known w k (sym (same k) ∙ p);
    fresh = i.fresh;
    formed = i.formed;
  }
    where
      same : (k : Bytes) → current_of (get k (put n v m)) ≡ current_of (get k m)
      same k = elim (Bool-cases (bytes_eq n k)) [
        | inl l ↦ put_self m n k v l ∙ (e ∙ ap (λ x. current_of (get x m)) ((bytes_eq_iff n k).0 l))
        | inr l ↦ put-other m n k v l
      ]

  -- A new process is started for a service that has none.
  pub started-Orderly :
      (n : Bytes) (v : SystemdService) (pid : ℕ)
      → current_of (get n m) ≡ none
      → Orderly m next rs
      → Orderly
          (put n (record v { current_slurp = some next }) m)
          (suc next)
          (asked_start next n pid ∷ rs)
  unfolding phase
  started-Orderly n v pid e i = record {
    held = λ w k p. elim (Bool-cases (w == next)) [
      | inl l ↦
          let q : opened n ≡ opened k = rw l at p in
          put_self m n k (record v { current_slurp = some next })
            ((bytes_eq_iff n k).1 (opened_same q))
          ∙ ap some (sym ((==_iff w next).0 l))
      | inr l ↦ only_other k w (i.held w k (rw l at p))
    ];
    known = λ w k p. elim (Bool-cases (w == next)) [
      | inl l ↦ rw l (λ z. absent_opened (sym z))
      | inr l ↦ rw l (still k w l p)
    ];
    fresh = λ w p. elim (Bool-cases (w == next)) [
      | inl l ↦ absurd (grind (arith, ==_iff))
      | inr l ↦ rw l (i.fresh w (omega arith))
    ];
    formed = (i.fresh next (omega arith), i.formed);
  }
    where
      only_other :
          (k : Bytes) (w : ℕ)
          → current_of (get k m) ≡ some w
          → current_of (get k (put n (record v { current_slurp = some next }) m)) ≡ some w
      only_other k w h = elim (Bool-cases (bytes_eq n k)) [
        | inl l ↦ let q = (bytes_eq_iff n k).0 l in absurd (none-some {u = w} cc)
        | inr l ↦ put-other m n k (record v { current_slurp = some next }) l ∙ h
      ]

      still :
          (k : Bytes) (w : ℕ)
          → (w == next) ≡ false
          → current_of (get k (put n (record v { current_slurp = some next }) m)) ≡ some w
          → phase w rs ≢ absent
      still k w f p = elim (Bool-cases (bytes_eq n k)) [
        | inl l ↦
            let q : some next ≡ some w =
              sym (put_self m n k (record v { current_slurp = some next }) l) ∙ p in
            let same : next ≡ w = cc in absurd (grind (arith, ==_iff))
        | inr l ↦ i.known w k (sym (put-other m n k (record v { current_slurp = some next }) l) ∙ p)
      ]
