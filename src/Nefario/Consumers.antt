-- ===== src/Nefario/Consumers.antt =====
-- nefario/nefario.go: the cycle of Run that starts and stops the consumers of the servers.
use godev.Prelude.{
  ℕ, suc, Bool, true, false, ◌&&◌, ◌||◌, List, [], ◌∷◌, ◌++◌, Option, none, some, Bytes, bytes_eq,
  get, put, delete, if◌then◌else◌,
}

-- The row of a server: its uid, and the other columns together.
pub record DbServer : Type 0 where
  pub server_uid : Bytes
  pub columns : Bytes

-- `Consumer`; its context is known by the number of the call that made it.
pub record Consumer : Type 0 where
  pub row : DbServer
  pub context : ℕ

-- `consumersByUid`, the number of contexts, and those that were cancelled, in order.
pub record Consumers : Type 0 where
  pub by_uid : List (Bytes × Consumer)
  pub contexts : ℕ
  pub cancelled : List ℕ

-- `reflect.DeepEqual` of two rows.
abbrev pub same_row : DbServer → DbServer → Bool
same_row a b = bytes_eq a.server_uid b.server_uid && bytes_eq a.columns b.columns

unfoldable pub has_server : Bytes → List DbServer → Bool
has_server k [] = false
has_server k (s ∷ ss) = bytes_eq s.server_uid k || has_server k ss

module _ (m : List (Bytes × Consumer)) where
  abbrev pub add_if : Option Consumer → DbServer → List DbServer → List DbServer
  add_if none s rest = s ∷ rest
  add_if (some c) s rest = if same_row c.row s then rest else s ∷ rest

  -- `adds`
  unfoldable pub adds_of : List DbServer → List DbServer
  adds_of [] = []
  adds_of (s ∷ ss) = add_if (get s.server_uid m) s (adds_of ss)

  abbrev pub delete_if : Option Consumer → DbServer → List Consumer → List Consumer
  delete_if none s rest = rest
  delete_if (some c) s rest = if same_row c.row s then rest else c ∷ rest

  -- The `deletes` of the loop over the servers.
  unfoldable pub changed_of : List DbServer → List Consumer
  changed_of [] = []
  changed_of (s ∷ ss) = delete_if (get s.server_uid m) s (changed_of ss)

-- Those of the loop over the map, in whose order they are found.
unfoldable pub gone_of : List DbServer → List (Bytes × Consumer) → List Consumer
gone_of ss [] = []
gone_of ss ((k, c) ∷ m) = if has_server k ss then gone_of ss m else c ∷ gone_of ss m

unfoldable pub stop_all : List Consumer → Consumers → Consumers
stop_all [] s = s
stop_all (c ∷ cs) s = stop_all cs (record s {
  by_uid = delete c.row.server_uid s.by_uid;
  cancelled = s.cancelled ++ c.context ∷ [];
})

unfoldable pub start_all : List DbServer → Consumers → Consumers
start_all [] s = s
start_all (r ∷ rs) s = start_all rs (record s {
  by_uid = put r.server_uid (record { row = r; context = s.contexts }) s.by_uid;
  contexts = suc s.contexts;
})

-- The cycle on the rows that the database gives; none is an error of ListServers. It tells whether
-- there was no error.
abbrev pub with_servers : List DbServer → Consumers → Bool × Consumers
with_servers [] s = (false, s)
with_servers (r ∷ rs) s = (
  true,
  start_all (adds_of s.by_uid (r ∷ rs))
      (stop_all (changed_of s.by_uid (r ∷ rs) ++ gone_of (r ∷ rs) s.by_uid) s),
)

abbrev pub run_update_cycle : Option (List DbServer) → Consumers → Bool × Consumers
run_update_cycle none s = (false, s)
run_update_cycle (some rs) s = with_servers rs s
