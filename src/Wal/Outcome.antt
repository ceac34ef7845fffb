-- ===== src/Wal/Outcome.antt =====
-- The ways in which a Go function of the listener can end: a value, an `error`, or a run-time panic.
-- The first six errors are those of wal-listener/listener/errors.go; the others come from the
-- publisher, the repository and the replicator, or from `pgx.ParseLSN`.
use godev.Prelude.{◌≡◌, refl, ◌⊎◌, inl, inr, ℕ}

pub data Error : Type 0 where
  repl_connection_is_lost connection_is_lost : Error
  message_lost empty_wal_message relation_not_found : Error
  unknown_message_type : ℕ → Error
  publish_failed status_not_built status_not_sent : Error
  wait_failed slot_not_read slot_not_created bad_lsn start_failed : Error
  repository_not_closed replicator_not_closed : Error

-- `slice_bounds`, `index_out_of_range` and `make_len` are the run-time errors of Go's slices,
-- `nil_dereference` that of a nil pointer.
pub data Panic : Type 0 where
  slice_bounds index_out_of_range make_len nil_dereference : Panic

pub data Outcome (A : Type 0) : Type 0 where
  ok : A → Outcome A
  err : Error → Outcome A
  panic : Panic → Outcome A

abbrev pub bind : {A B : Type 0} → Outcome A → (A → Outcome B) → Outcome B
bind (ok a) f = f a
bind (err e) f = err e
bind (panic p) f = panic p

pub Outcome-cases :
    {A : Type 0} (m : Outcome A)
    → ((a : A) × (m ≡ ok a)) ⊎ ((e : Error) × (m ≡ err e)) ⊎ ((p : Panic) × (m ≡ panic p))
Outcome-cases (ok a) = inl (a, refl)
Outcome-cases (err e) = inr (inl (e, refl))
Outcome-cases (panic p) = inr (inr (p, refl))

pub bind-eq-ok :
    {A B : Type 0} (m : Outcome A) (f : A → Outcome B) {b : B}
    → bind m f ≡ ok b
    → (a : A) × (m ≡ ok a) × (f a ≡ ok b)
bind-eq-ok (ok a) f h = (a, refl, h)
bind-eq-ok (err e) f h = cc
bind-eq-ok (panic p) f h = cc

pub ok-injective : {A : Type 0} {a b : A} → ok a ≡ ok b → a ≡ b
ok-injective h = cc
