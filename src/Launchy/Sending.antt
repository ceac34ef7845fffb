-- ===== src/Launchy/Sending.antt =====
-- The actions of SystemdServiceCrud in nefario/nefario.go, one list after the other.
use godev.Prelude.{◌||◌, List, [], ◌∷◌, ◌++◌, none, some, ◌≡◌, refl, ap, arith}
use godev.Nefario.Crud.{
  RecordCrud, Table, Database, crud_all, any_bad, Written, unless_refused, crud_one,
}

pub crud_all-append :
    (db : Database) (cs ds : List RecordCrud) (t u : Table)
    → crud_all db cs t ≡ (none, u)
    → crud_all db (cs ++ ds) t ≡ crud_all db ds u
unfolding crud_all
crud_all-append db [] ds t u h = ap (λ (w : Written). crud_all db ds w.1) h
crud_all-append db (c ∷ cs) ds t u h =
    after_first (crud_all-append db cs ds) (crud_one db c.action c.record_of t) h
  where
    after_first :
        ((x v : Table) → crud_all db cs x ≡ (none, v) → crud_all db (cs ++ ds) x ≡ crud_all db ds v)
        → (w : Written) → unless_refused db (λ x. crud_all db cs x) w ≡ (none, u)
        → unless_refused db (λ x. crud_all db (cs ++ ds) x) w ≡ crud_all db ds u
    after_first ih (none, x) e = ih x u e
    after_first ih (some e, x) f = absurd (cc (ap (λ (w : Written). w.0) f))

pub any_bad-append : (cs ds : List RecordCrud) → any_bad (cs ++ ds) ≡ (any_bad cs || any_bad ds)
unfolding any_bad
any_bad-append [] ds = refl
any_bad-append (c ∷ cs) ds = ground (arith, any_bad-append cs ds)
