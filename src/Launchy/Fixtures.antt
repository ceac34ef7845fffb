-- ===== src/Launchy/Fixtures.antt =====
-- A machine, a database and an output of systemctl for the tests of launchy/agent.go.
use godev.Prelude.{
  ℕ, zero, suc, Bool, true, false, [], ◌∷◌, ◌++◌, Option, none, some, Bytes, codes, without,
  bytes_eq, length, take, drop, replicate, take-length-append, drop-length-append, ◌==◌,
  if◌then◌else◌, ◌≡◌, refl, ap, arith,
}
use godev.Nefario.Crud.{
  Status, unspecified, stopped, running, failed, unknown, UnitJson, ServiceRecord, Table, Database,
  has_uid, records,
}
use godev.Launchy.Slurp.{Host, Agent, SystemdUnit, CommandOutput, random_uid}
use godev.Launchy.Keys.{GivesKeys}
use godev.Launchy.Listing.{listed_names}
use godev.Slices.Dupes.{IsDistinct}
use godev.Launchy.Turns.{IsHealthy, IsReady}
use godev.Launchy.Handles.{IsSound}

abbrev status_code : Status → ℕ
status_code unspecified = 0
status_code stopped = 1
status_code running = 2
status_code failed = 3
status_code unknown = 4

abbrev status_of : ℕ → Status
status_of n =
    if n == 0
    then unspecified
    else if n == 1
    then stopped
    else if n == 2
    then running
    else if n == 3
    then failed
    else unknown

-- A writing of the message by lengths.
abbrev written_json : Option UnitJson → Bytes
written_json none = []
written_json (some j) =
    status_code j.status
    ∷ (if j.unit_exists then 1 else 0)
    ∷ length j.status_source
    ∷ length j.unit_description
    ∷ (j.status_source ++ (j.unit_description ++ j.unit_name))

abbrev empty_json : UnitJson
empty_json = record {
  status = unspecified;
  status_source = [];
  unit_exists = false;
  unit_description = [];
  unit_name = [];
}

abbrev read_json : Bytes → UnitJson
read_json (s ∷ e ∷ n ∷ m ∷ rest) = record {
  status = status_of s;
  status_source = take n rest;
  unit_exists = e == 1;
  unit_description = take m (drop n rest);
  unit_name = drop m (drop n rest);
}
read_json _ = empty_json

abbrev pub database : Database
database = record {
  insert_ok = λ r. true;
  update_ok = λ u json. true;
  list_ok = λ m. true;
  to_json = written_json;
  from_json = read_json;
}

status_of-status_code : (s : Status) → status_of (status_code s) ≡ s
status_of-status_code unspecified = refl
status_of-status_code stopped = refl
status_of-status_code running = refl
status_of-status_code failed = refl
status_of-status_code unknown = refl

exists_of : (b : Bool) → ((if b then 1 else 0) == 1) ≡ b
exists_of true = refl
exists_of false = refl

read_json-written_json : (j : UnitJson) → read_json (written_json (some j)) ≡ j
read_json-written_json j =
    rw
      (
        status_of-status_code j.status,
        exists_of j.unit_exists,
        take-length-append j.status_source (j.unit_description ++ j.unit_name)
            (length j.status_source) refl,
        drop-length-append j.status_source (j.unit_description ++ j.unit_name)
            (length j.status_source) refl,
        take-length-append j.unit_description j.unit_name (length j.unit_description) refl,
        drop-length-append j.unit_description j.unit_name (length j.unit_description) refl,
      )
      refl

pub database-IsHealthy : IsHealthy database
database-IsHealthy = record {
  inserts = λ r. refl;
  updates = λ u json. refl;
  lists = λ m. refl;
  reads_back = read_json-written_json;
}

abbrev pub alpha : SystemdUnit
alpha = record {
  unit = codes "alpha.service";
  load = codes "loaded";
  active = codes "active";
  sub = codes "running";
  description = codes "the first";
}

-- The two messages are never found equal.
abbrev pub machine : Host
machine = record {
  minion_uid = codes "minion";
  new_uuid = λ n. b'a' ∷ replicate n b'-' ++ replicate n b'a';
  deep_equal = λ a b. false;
  keys_of = λ ks. ks;
  parse_output = λ out. some (alpha ∷ []);
  parse_error = λ out. codes "not parsed";
}

abbrev pub one_unit : CommandOutput
one_unit = record { output = codes "alpha.service loaded active running the first"; failure = none }

abbrev pub broken_command : CommandOutput
broken_command = record { output = []; failure = some (codes "exit status 1") }

abbrev pub new_agent : Agent
new_agent = record { services_by_name = []; uuids = 0 }

abbrev beta_json : UnitJson
beta_json = record {
  status = running;
  status_source = codes "systemctl";
  unit_exists = true;
  unit_description = codes "the second";
  unit_name = codes "beta.service";
}

abbrev pub beta : ServiceRecord
beta = record {
  uid = codes "x1";
  name = codes "beta.service";
  minion_uid = codes "minion";
  minion_enabled = true;
  unit_json = some beta_json;
}

-- The table with the service beta only.
abbrev pub one_row : Table
one_row =
    record {
      row_uid = codes "x1";
      row_name = codes "beta.service";
      row_minion = codes "minion";
      row_enabled = true;
      row_json = written_json (some beta_json);
    }
    ∷ []

pub machine-GivesKeys : GivesKeys machine
machine-GivesKeys k ks = refl

uid_text : (n i : ℕ) → length (without b'-' (replicate n b'-' ++ replicate i b'a')) ≡ i
unfolding without
uid_text zero zero = refl
uid_text zero (suc i) = ap suc (uid_text zero i)
uid_text (suc n) i = uid_text n i

uid_length : (i : ℕ) → length (random_uid machine i) ≡ suc i
unfolding without
uid_length i = ap suc (uid_text i i)

pub machine-IsSound : IsSound machine
machine-IsSound = record {
  same = λ a b h. absurd (cc);
  injective = λ i j e. omega (arith, uid_length i, uid_length j, ap length e);
}

pub one_row-IsReady : IsReady machine 0 one_row
unfolding godev.Slices.member has_uid bytes_eq without
one_row-IsReady = record { distinct = (refl, tt); fresh = λ i le. refl }

pub one_row_names : IsDistinct bytes_eq (listed_names database machine.minion_uid one_row)
unfolding godev.Slices.member records bytes_eq
one_row_names = (refl, tt)
