-- ===== src/Nefario/Crud.antt =====
-- nefario/nefario.go, SystemdServiceCrud and ListSystemdServices, with the queries of
-- nefario/db/query.sql.go on the table `service` and the messages of nefario/rpc/nefario_rpc.proto.
-- WithQueries takes a connection and begins no transaction, so what was done before an error stays.
use godev.Prelude.{
  Bool, false, ◌||◌, not, List, [], ◌∷◌, ◌++◌, Option, none, some, Bytes, bytes_eq, if◌then◌else◌,
  true,
}

-- `SystemdServiceStatus`
pub data Status : Type 0 where
  unspecified stopped running failed unknown : Status

-- `ServiceUnitJson`
pub record UnitJson : Type 0 where
  pub status : Status
  pub status_source : Bytes
  pub unit_exists : Bool
  pub unit_description : Bytes
  pub unit_name : Bytes

-- `ServiceRecord`
pub record ServiceRecord : Type 0 where
  pub uid : Bytes
  pub name : Bytes
  pub minion_uid : Bytes
  pub minion_enabled : Bool
  pub unit_json : Option UnitJson

pub data CrudAction : Type 0 where
  no_action insert update : CrudAction

-- `SystemdServiceRecordCrud`
pub record RecordCrud : Type 0 where
  pub action : CrudAction
  pub record_of : Option ServiceRecord

-- A row of the table, with the columns that these queries use.
pub record ServiceRow : Type 0 where
  pub row_uid : Bytes
  pub row_name : Bytes
  pub row_minion : Bytes
  pub row_enabled : Bool
  pub row_json : Bytes

abbrev pub Table : Type 0
Table = List ServiceRow

-- PostgreSQL and protojson: whether a statement with its parameters is executed, whether the rows
-- are read, `ToProtoJson`, and `protojson.Unmarshal` into a new message, which leaves a message also
-- where it gives an error.
pub record Database : Type 0 where
  pub insert_ok : ServiceRow → Bool
  pub update_ok : Bytes → Bytes → Bool
  pub list_ok : Bytes → Bool
  pub to_json : Option UnitJson → Bytes
  pub from_json : Bytes → UnitJson

pub data CrudError : Type 0 where
  invalid_request refused : CrudError

-- The table that a request leaves, and the error that it gives.
abbrev pub Written : Type 0
Written = Option CrudError × Table

unfoldable pub has_uid : Bytes → Table → Bool
has_uid u [] = false
has_uid u (r ∷ rows) = bytes_eq r.row_uid u || has_uid u rows

unfoldable pub set_json : Bytes → Bytes → Table → Table
set_json u json [] = []
set_json u json (r ∷ rows) =
    (if bytes_eq r.row_uid u then record r { row_json = json } else r) ∷ set_json u json rows

module _ (db : Database) where
  -- `InsertService`: the primary key of the table is its uid.
  unfoldable pub insert_service : ServiceRow → Table → Written
  insert_service row rows =
      if has_uid row.row_uid rows || not (db.insert_ok row)
      then (some refused, rows)
      else (none, rows ++ row ∷ [])

  -- `UpdateService`: an uid that no row has is no error.
  unfoldable pub update_service : Bytes → Bytes → Table → Written
  update_service u json rows =
      if db.update_ok u json then (none, set_json u json rows) else (some refused, rows)

  abbrev pub row_of : ServiceRecord → ServiceRow
  row_of r = record {
    row_uid = r.uid;
    row_name = r.name;
    row_minion = r.minion_uid;
    row_enabled = r.minion_enabled;
    row_json = db.to_json r.unit_json;
  }

  abbrev pub crud_record : CrudAction → ServiceRecord → Table → Written
  crud_record insert r rows = insert_service (row_of r) rows
  crud_record update r rows = update_service r.uid (db.to_json r.unit_json) rows
  crud_record no_action r rows = (none, rows)

  abbrev pub unless_refused : (Table → Written) → Written → Written
  unless_refused next (some e, rows) = (some e, rows)
  unless_refused next (none, rows) = next rows

  abbrev pub crud_one : CrudAction → Option ServiceRecord → Table → Written
  crud_one a none rows = (none, rows)
  crud_one a (some r) rows = crud_record a r rows

  -- The loop over the actions; those with a nil record have been refused before.
  unfoldable pub crud_all : List RecordCrud → Table → Written
  crud_all [] rows = (none, rows)
  crud_all (c ∷ cs) rows = unless_refused (λ t. crud_all cs t) (crud_one c.action c.record_of rows)

  -- `ListServicesForMinion`, and the records made of its rows. The statement has no ORDER BY, so that
  -- PostgreSQL may give them in any order; the model gives them in the table's, where an update leaves
  -- a row in its place and an insert adds one at the end. A caller that looks records up by their
  -- names finds the same in any order only where no name stands twice among them.
  -- An error of Unmarshal is logged, and what it left is taken.
  abbrev pub record_of_row : ServiceRow → ServiceRecord
  record_of_row r = record {
    uid = r.row_uid;
    name = r.row_name;
    minion_uid = r.row_minion;
    minion_enabled = r.row_enabled;
    unit_json = some (db.from_json r.row_json);
  }

  unfoldable pub records : Bytes → Table → List ServiceRecord
  records m [] = []
  records m (r ∷ rows) =
      if bytes_eq r.row_minion m then record_of_row r ∷ records m rows else records m rows

  -- `ListSystemdServices`; none is an error.
  unfoldable pub list_systemd_services : Bytes → Table → Option (List ServiceRecord)
  list_systemd_services m rows = if db.list_ok m then some (records m rows) else none

abbrev pub is_bad : CrudAction → Option ServiceRecord → Bool
is_bad no_action r = true
is_bad a none = true
is_bad a (some r) = false

unfoldable pub any_bad : List RecordCrud → Bool
any_bad [] = false
any_bad (c ∷ cs) = is_bad c.action c.record_of || any_bad cs

module _ (db : Database) where
  -- `SystemdServiceCrud`
  unfoldable pub systemd_service_crud : List RecordCrud → Table → Written
  systemd_service_crud cs rows =
      if any_bad cs then (some invalid_request, rows) else crud_all db cs rows
