-- ===== src/Nefario/Stops.antt =====
-- nefario/nefario.go: consumers that are stopped and started.
use godev.Prelude.{
  Bool, true, false, ◌||◌, List, [], ◌∷◌, none, Bytes, bytes_eq, get, delete, ◌≡◌, refl, ◌∙◌, inl,
  inr, Bool-cases, get-put_if, get-delete_if, arith,
}
use godev.Nefario.Consumers.{DbServer, Consumer, Consumers, has_server, stop_all, start_all}

-- Whether one of the consumers has the uid.
unfoldable pub has_consumer : Bytes → List Consumer → Bool
has_consumer k [] = false
has_consumer k (c ∷ cs) = bytes_eq c.row.server_uid k || has_consumer k cs

pub start_other :
    (k : Bytes) (rs : List DbServer) (s : Consumers)
    → has_server k rs ≡ false
    → get k (start_all rs s).by_uid ≡ get k s.by_uid
unfolding has_server start_all
start_other k [] s h = refl
start_other k (r ∷ rs) s h = elim (Bool-cases (bytes_eq r.server_uid k)) [
  | inl l ↦ absurd (grind arith)
  | inr l ↦ start_other k rs _ (rw l at h) ∙ (rw (get-put_if k r.server_uid _ s.by_uid, l) refl)
]

pub stop_other :
    (k : Bytes) (cs : List Consumer) (s : Consumers)
    → has_consumer k cs ≡ false
    → get k (stop_all cs s).by_uid ≡ get k s.by_uid
unfolding has_consumer stop_all
stop_other k [] s h = refl
stop_other k (c ∷ cs) s h = elim (Bool-cases (bytes_eq c.row.server_uid k)) [
  | inl l ↦ absurd (grind arith)
  | inr l ↦ stop_other k cs _ (rw l at h) ∙ (rw (get-delete_if k c.row.server_uid s.by_uid, l) refl)
]

pub stop_none :
    (k : Bytes) (cs : List Consumer) (s : Consumers)
    → get k s.by_uid ≡ none
    → get k (stop_all cs s).by_uid ≡ none
unfolding stop_all
stop_none k [] s h = h
stop_none k (c ∷ cs) s h = stop_none k cs _ (deleted (bytes_eq c.row.server_uid k) refl)
  where
    deleted :
        (b : Bool)
        → bytes_eq c.row.server_uid k ≡ b
        → get k (delete c.row.server_uid s.by_uid) ≡ none
    deleted true l = rw (get-delete_if k c.row.server_uid s.by_uid, l) refl
    deleted false l = rw (get-delete_if k c.row.server_uid s.by_uid, l) h

pub stop_one :
    (k : Bytes) (cs : List Consumer) (s : Consumers)
    → has_consumer k cs ≡ true
    → get k (stop_all cs s).by_uid ≡ none
unfolding has_consumer stop_all
stop_one k [] s h = cc
stop_one k (c ∷ cs) s h = elim (Bool-cases (bytes_eq c.row.server_uid k)) [
  | inl l ↦ stop_none k cs _ (rw (get-delete_if k c.row.server_uid s.by_uid, l) refl)
  | inr l ↦ stop_one k cs _ (rw l at h)
]
