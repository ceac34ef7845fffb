-- ===== src/Nefario/Own.antt =====
-- nefario/nefario.go: consumers stand under their uids, whatever the cycle does.
use godev.Prelude.{List, [], ◌∷◌, Bytes, bytes_eq, put, delete, inl, inr, Bool-cases, All, refl}
use godev.Nefario.Consumers.{DbServer, Consumer, Consumers, stop_all, start_all}
use godev.Nefario.Changes.{IsOwn}

put-IsOwn :
    (c : Consumer) (m : List (Bytes × Consumer))
    → All IsOwn m
    → All IsOwn (put c.row.server_uid c m)
unfolding put
put-IsOwn c [] h = (refl, tt)
put-IsOwn c ((j, d) ∷ m) (o, h) = elim (Bool-cases (bytes_eq j c.row.server_uid)) [
  | inl l ↦ rw l (refl, h)
  | inr l ↦ rw l (o, put-IsOwn c m h)
]

delete-IsOwn : (k : Bytes) (m : List (Bytes × Consumer)) → All IsOwn m → All IsOwn (delete k m)
unfolding delete
delete-IsOwn k [] h = h
delete-IsOwn k ((j, d) ∷ m) (o, h) = elim (Bool-cases (bytes_eq j k)) [
  | inl l ↦ rw l (delete-IsOwn k m h)
  | inr l ↦ rw l (o, delete-IsOwn k m h)
]

pub stop_all-IsOwn :
    (cs : List Consumer) (s : Consumers) → All IsOwn s.by_uid → All IsOwn (stop_all cs s).by_uid
unfolding stop_all
stop_all-IsOwn [] s h = h
stop_all-IsOwn (c ∷ cs) s h = stop_all-IsOwn cs _ (delete-IsOwn c.row.server_uid s.by_uid h)

pub start_all-IsOwn :
    (rs : List DbServer) (s : Consumers) → All IsOwn s.by_uid → All IsOwn (start_all rs s).by_uid
unfolding start_all
start_all-IsOwn [] s h = h
start_all-IsOwn (r ∷ rs) s h =
    start_all-IsOwn rs _ (put-IsOwn (record { row = r; context = s.contexts }) s.by_uid h)
