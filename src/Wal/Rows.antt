-- ===== src/Wal/Rows.antt =====
-- Laws of wal-listener/listener/wal_transaction.go: the relation store, the columns of an action, and
-- the field maps of an event.
use godev.Prelude.{
  ◌≡◌, refl, ap, ◌∙◌, List, [], ◌∷◌, Option, some, Bytes, ℤ, arith, int_eq, int_eq_iff, bytes_eq,
  bytes_eq_iff, if◌then◌else◌,
}
use godev.Wal.Transaction.{Value, Column, RelationData, find_relation, store_relation}
use godev.Wal.Event.{Fields, get_field, set_field, fill_fields}

-- A stored relation replaces what is known under its identifier and under no other.
pub find_relation-store_relation :
    {J : Type 0} (id k : ℤ) (r : RelationData J) (store : List (ℤ × RelationData J))
    → find_relation k (store_relation id r store)
      ≡ (if int_eq id k then some r else find_relation k store)
unfolding find_relation store_relation
find_relation-store_relation id k r [] = refl
find_relation-store_relation id k r ((j, s) ∷ store) = ground (
  arith,
  int_eq_iff id k,
  int_eq_iff j id,
  int_eq_iff j k,
  find_relation-store_relation id k r store,
)

pub get_field-set_field :
    {J : Type 0} (k j : Bytes) (v : Value J) (m : Fields J)
    → get_field j (set_field k v m) ≡ (if bytes_eq k j then some v else get_field j m)
unfolding get_field set_field
get_field-set_field k j v [] = refl
get_field-set_field k j v ((i, w) ∷ m) =
    ground
      (arith, bytes_eq_iff k j, bytes_eq_iff i k, bytes_eq_iff i j, get_field-set_field k j v m)

-- The value of the last column of that name.
pub last_value : {J : Type 0} → Bytes → Option (Value J) → List (Column J) → Option (Value J)
last_value k v [] = v
last_value k v (c ∷ cs) = last_value k (if bytes_eq c.name k then some c.value else v) cs

-- An event's map holds, under each name, the value of the last column of that name.
pub get_field-fill_fields :
    {J : Type 0} (k : Bytes) (cs : List (Column J)) (m : Fields J)
    → get_field k (fill_fields m cs) ≡ last_value k (get_field k m) cs
unfolding fill_fields last_value
get_field-fill_fields k [] m = refl
get_field-fill_fields k (c ∷ cs) m =
    get_field-fill_fields k cs (set_field c.name c.value m)
    ∙ ap (λ v. last_value k v cs) (get_field-set_field c.name k c.value m)
