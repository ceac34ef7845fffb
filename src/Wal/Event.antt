-- ===== src/Wal/Event.antt =====
-- wal-listener/publisher/event.go, and `CreateEventsWithFilter` of
-- wal-listener/listener/wal_transaction.go.
use godev.Prelude.{
  ℕ, suc, ◌+◌, Bool, true, false, ◌&&◌, ◌||◌, List, [], ◌∷◌, ◌++◌, Option, none, some, Bytes, codes,
  bytes_eq, leb, ◌==◌, if◌then◌else◌,
}
use godev.Wal.Outcome.{Outcome, ok, err, panic, nil_dereference}
use godev.Wal.Protocol.{Time}
use godev.Wal.Transaction.{Value, Column, ActionData, kind_string}

-- A `map[string]any`, with at most one entry for a key.
abbrev pub Fields : Type 0 → Type 0
Fields J = List (Bytes × Value J)

unfoldable pub get_field : {J : Type 0} → Bytes → Fields J → Option (Value J)
get_field k [] = none
get_field k ((j, v) ∷ m) = if bytes_eq j k then some v else get_field k m

unfoldable pub set_field : {J : Type 0} → Bytes → Value J → Fields J → Fields J
set_field k v [] = (k, v) ∷ []
set_field k v ((j, w) ∷ m) = if bytes_eq j k then (k, v) ∷ m else (j, w) ∷ set_field k v m

-- `for _, val := range columns { data[val.name] = val.value }`
unfoldable pub fill_fields : {J : Type 0} → Fields J → List (Column J) → Fields J
unfolding set_field
fill_fields m [] = m
fill_fields m (c ∷ cs) = fill_fields (set_field c.name c.value m) cs

pub record Event (J : Type 0) : Type 0 where
  pub id : Bytes
  pub schema : Bytes
  pub table : Bytes
  pub action : Bytes
  pub event_data : Fields J
  pub data_old : Fields J
  pub event_time : Time

-- The suffix is `strings.ToLower(fmt.Sprintf(".%v", uid))`; `lower_format` gives it after the dot.
abbrev pub key_suffix : {J : Type 0} → (Value J → Bytes) → Option (Value J) → Bytes
key_suffix lower_format none = []
key_suffix lower_format (some uid) = b'.' ∷ lower_format uid

unfoldable pub subject_name : {J : Type 0} → (Value J → Bytes) → Bytes → Event J → Bytes
subject_name lower_format topic e =
    topic
    ++ (codes ".nefario."
        ++ (e.table ++ key_suffix lower_format (get_field (codes "uid") e.event_data)))

abbrev pub lower : ℕ → ℕ
lower c = if leb b'A' c && leb c b'Z' then c + 32 else c

-- `strings.EqualFold` on ASCII texts.
unfoldable pub equal_fold : Bytes → Bytes → Bool
equal_fold [] [] = true
equal_fold (x ∷ xs) (y ∷ ys) = lower x == lower y && equal_fold xs ys
equal_fold _ _ = false

unfoldable pub in_array : List Bytes → Bytes → Bool
unfolding equal_fold
in_array [] value = false
in_array (v ∷ vs) value = equal_fold v value || in_array vs value

-- `tableMap[table]`
unfoldable pub table_actions : Bytes → List (Bytes × List Bytes) → Option (List Bytes)
table_actions t [] = none
table_actions t ((k, as') ∷ m) = if bytes_eq k t then some as' else table_actions t m

abbrev pub is_valid : Option (List Bytes) → Bytes → Bool
is_valid none kind = false
is_valid (some actions) kind = in_array actions kind

unfoldable pub event_of : {J : Type 0} → Bytes → Time → ActionData J → Event J
event_of id time item = record {
  id = id;
  schema = item.schema;
  table = item.table;
  action = kind_string item.kind;
  event_data = fill_fields [] item.new_columns;
  data_old = fill_fields [] item.old_columns;
  event_time = time;
}

-- The events and the tables that `IncFilterSkippedEvents` counts, one `uuid.New()` for each item: the
-- first argument gives the text of the n-th one. The filter's test begins with `true ||`.
unfoldable pub create_events :
    {J : Type 0}
    → (ℕ → Bytes)
    → List (Bytes × List Bytes)
    → Option Time
    → ℕ
    → List (ActionData J)
    → Outcome (List (Event J) × List Bytes)
create_events new_uuid tables time n [] = ok ([], [])
create_events new_uuid tables none n (item ∷ items) = panic nil_dereference
create_events new_uuid tables (some time) n (item ∷ items) =
    let valid = is_valid (table_actions item.table tables) (kind_string item.kind) in
    elim (create_events new_uuid tables (some time) (suc n) items) [
      | ok (events, skipped) ↦
          if true || valid
          then ok (event_of (new_uuid n) time item ∷ events, skipped)
          else ok (events, item.table ∷ skipped)
      | err e ↦ err e
      | panic p ↦ panic p
    ]
