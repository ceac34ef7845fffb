-- ===== src/Launchy/Slurp.antt =====
-- launchy/agent.go: RpcSystemctlListSystemdServices and the pass RunServiceSlurpLoopOnce, which compares
-- the services of systemctl with the records of the server and gives the changes to send. ToMap of
-- iter/iter.go is on iterators of slices here.
use godev.Prelude.{
  ℕ, ◌+◌, Bool, true, false, List, [], ◌∷◌, ◌++◌, map, Option, none, some, Bytes, codes, bytes_eq,
  get, put, if◌then◌else◌, without,
}
use godev.Slices.{remove_dupes}
use godev.Nefario.Crud.{
  Status, running, stopped, unknown, unspecified, UnitJson, ServiceRecord, RecordCrud, insert,
  update,
}

-- `SystemdUnitInfo`
pub record SystemdUnit : Type 0 where
  pub unit : Bytes
  pub load : Bytes
  pub active : Bytes
  pub sub : Bytes
  pub description : Bytes

-- `ListSystemdServicesResponse`
pub record ListResponse : Type 0 where
  pub error_message : Bytes
  pub error_output : Bytes
  pub services : List SystemdUnit

-- What the command systemctl gives: its output, and the text of the error where it fails.
pub record CommandOutput : Type 0 where
  pub output : Bytes
  pub failure : Option Bytes

-- `ServiceRecordDto`
pub record ServiceDto : Type 0 where
  pub dto_uid : Bytes
  pub dto_name : Bytes
  pub dto_minion : Bytes
  pub dto_enabled : Bool

-- Code of other packages: the texts of uuid.NewRandom by the number of calls, reflect.DeepEqual on two
-- messages, the order in which maps.Keys gives the keys of a map, and the parsing of systemctl's
-- output, behind scrubSystemCtlOutput, with the text of its error.
pub record Host : Type 0 where
  pub minion_uid : Bytes
  pub new_uuid : ℕ → Bytes
  pub deep_equal : UnitJson → UnitJson → Bool
  pub keys_of : List Bytes → List Bytes
  pub parse_output : Bytes → Option (List SystemdUnit)
  pub parse_error : Bytes → Bytes

-- The part of `AgentServices` that the pass changes.
pub record Agent : Type 0 where
  pub services_by_name : List (Bytes × ServiceDto)
  pub uuids : ℕ

module _ {A : Type 0} (key_getter : A → Bytes) where
  -- `ToMap`: the last value of a key stays.
  unfoldable pub to_map : List A → List (Bytes × A) → List (Bytes × A)
  to_map [] m = m
  to_map (x ∷ xs) m = to_map xs (put (key_getter x) x m)

abbrev pub get_status : SystemdUnit → Status
get_status u =
    if bytes_eq u.sub (codes "running")
    then running
    else if bytes_eq u.sub (codes "dead")
    then stopped
    else unknown

abbrev pub to_service_unit_json : SystemdUnit → UnitJson
to_service_unit_json u = record {
  status = get_status u;
  status_source = codes "systemctl";
  unit_exists = true;
  unit_description = u.description;
  unit_name = u.unit;
}

abbrev pub not_showing : UnitJson → UnitJson
not_showing j = record j {
  unit_exists = false;
  status = unspecified;
  status_source = codes "service not showing in systemctl";
}

abbrev pub update_record : ServiceRecord → UnitJson → RecordCrud
update_record r j = record { action = update; record_of = some (record r { unit_json = some j }) }

-- What the body of the loop does for one name: it panics, or it gives the actions, the record, and
-- whether it has taken a new uid.
pub data Turn : Type 0 where
  nil_dereference : Turn
  turn : List RecordCrud → ServiceRecord → ℕ → Turn

module _ (h : Host) where
  abbrev pub list_response : Bytes → Option Bytes → Option (List SystemdUnit) → ListResponse
  list_response out (some e) items = record { error_message = e; error_output = out; services = [] }
  list_response out none none = record {
    error_message = h.parse_error out;
    error_output = out;
    services = [];
  }
  list_response out none (some items) = record {
    error_message = [];
    error_output = [];
    services = items;
  }

  -- `RpcSystemctlListSystemdServices`, which gives no error.
  unfoldable pub rpc_systemctl_list : CommandOutput → ListResponse
  rpc_systemctl_list c = list_response c.output c.failure (h.parse_output c.output)

  -- `a8.RandomUid`
  abbrev pub random_uid : ℕ → Bytes
  random_uid n = without b'-' (h.new_uuid n)

  abbrev pub same_json : UnitJson → Option UnitJson → Bool
  same_json j none = false
  same_json j (some k) = h.deep_equal j k

  abbrev pub new_record : Bytes → SystemdUnit → ℕ → ServiceRecord
  new_record name u n = record {
    uid = random_uid n;
    name = name;
    minion_uid = h.minion_uid;
    minion_enabled = false;
    unit_json = some (to_service_unit_json u);
  }

  abbrev pub update_turn : SystemdUnit → ServiceRecord → ℕ → Turn
  update_turn u r n =
      if same_json (to_service_unit_json u) r.unit_json
      then turn [] r n
      else turn (update_record r (to_service_unit_json u) ∷ [])
          (record r { unit_json = some (to_service_unit_json u) }) n

  abbrev pub missing_turn : ServiceRecord → Option UnitJson → ℕ → Turn
  missing_turn r none n = nil_dereference
  missing_turn r (some j) n =
      if j.unit_exists
      then turn (update_record r (not_showing j) ∷ [])
          (record r { unit_json = some (not_showing j) }) n
      else turn [] r n

  -- The three cases of the loop. A name that neither map has leaves the record nil.
  abbrev pub compare_service : Bytes → Option SystemdUnit → Option ServiceRecord → ℕ → Turn
  compare_service name (some u) (some r) n = update_turn u r n
  compare_service name (some u) none n =
      turn (record { action = insert; record_of = some (new_record name u n) } ∷ [])
        (new_record name u n) (n + 1)
  compare_service name none (some r) n = missing_turn r r.unit_json n
  compare_service name none none n = nil_dereference

abbrev pub dto_of : ServiceRecord → ServiceDto
dto_of r = record {
  dto_uid = r.uid;
  dto_name = r.name;
  dto_minion = r.minion_uid;
  dto_enabled = r.minion_enabled;
}

-- A service that the cache has stays as it is.
abbrev pub cache_new :
    Bytes → ServiceDto → Option ServiceDto → List (Bytes × ServiceDto) → List (Bytes × ServiceDto)
cache_new name d (some old) cache = cache
cache_new name d none cache = put name d cache

unfoldable pub cache_service :
    Bytes → ServiceDto → List (Bytes × ServiceDto) → List (Bytes × ServiceDto)
cache_service name d cache = cache_new name d (get name cache) cache

-- The actions of the names so far, and the agent; or a panic.
pub data Slurped : Type 0 where
  panicked : Slurped
  slurped : Agent → List RecordCrud → Slurped

abbrev pub add_actions : List RecordCrud → Slurped → Slurped
add_actions acts panicked = panicked
add_actions acts (slurped a rest) = slurped a (acts ++ rest)

abbrev pub after_turn : (Agent → Slurped) → Bytes → Agent → Turn → Slurped
after_turn next name a nil_dereference = panicked
after_turn next name a (turn acts r n) = add_actions acts (
    next
      (record { services_by_name = cache_service name (dto_of r) a.services_by_name; uuids = n }))

module _ (h : Host) (actual : List (Bytes × SystemdUnit))
    (in_db : List (Bytes × ServiceRecord)) where
  -- The loop over the names.
  unfoldable pub slurp_names : List Bytes → Agent → Slurped
  slurp_names [] a = slurped a []
  slurp_names (name ∷ names) a =
      after_turn (λ b. slurp_names names b) name a
        (compare_service h name (get name actual) (get name in_db) a.uuids)

module _ {V : Type 0} where
  abbrev pub names_in : List (Bytes × V) → List Bytes
  names_in m = map (λ (e : Bytes × V). e.0) m

abbrev pub in_db_by_name : List ServiceRecord → List (Bytes × ServiceRecord)
in_db_by_name rs = to_map (λ r. r.name) rs []

module _ (h : Host) where
  abbrev pub actual_by_name : CommandOutput → List (Bytes × SystemdUnit)
  actual_by_name c = to_map (λ u. u.unit) (rpc_systemctl_list h c).services []

  abbrev pub all_keys : CommandOutput → List ServiceRecord → List Bytes
  all_keys c rs =
      remove_dupes bytes_eq
        (h.keys_of (names_in (actual_by_name c)) ++ h.keys_of (names_in (in_db_by_name rs)))

  -- The pass up to the request to the server, for the records that the server listed.
  unfoldable pub slurp : CommandOutput → List ServiceRecord → Agent → Slurped
  slurp c rs a = slurp_names h (actual_by_name c) (in_db_by_name rs) (all_keys c rs) a
