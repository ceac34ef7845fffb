-- ===== src/Nefario/Changes.antt =====
-- nefario/nefario.go: which consumers the cycle of Run stops and starts.
use godev.Prelude.{
  true, false, ◌||◌, List, [], ◌∷◌, ◌++◌, Option, none, some, Bytes, bytes_eq, bytes_eq_iff, get,
  ◌≡◌, ◌≢◌, refl, sym, ◌∙◌, ap, inl, inr, Bool-cases, arith, All,
}
use godev.Nefario.Consumers.{
  DbServer, Consumer, Consumers, same_row, has_server, add_if, adds_of, delete_if, changed_of,
  gone_of, start_all,
}
use godev.Nefario.Stops.{has_consumer}

-- A consumer stands under its server's uid.
abbrev pub IsOwn : Bytes × Consumer → Type 0
IsOwn (k, c) = c.row.server_uid ≡ k

false-true : false ≢ true
false-true e = cc

pub own-get :
    (k : Bytes) (m : List (Bytes × Consumer)) (c : Consumer)
    → All IsOwn m
    → get k m ≡ some c
    → c.row.server_uid ≡ k
unfolding get
own-get k [] c h e = cc
own-get k ((j, d) ∷ m) c (o, h) e = elim (Bool-cases (bytes_eq j k)) [
  | inl l ↦
      let q : some d ≡ some c = rw l at e in
      let p : d ≡ c = cc in ap (λ x. x.row.server_uid) (sym p) ∙ (o ∙ (bytes_eq_iff j k).0 l)
  | inr l ↦ own-get k m c h (rw l at e)
]

module _ (m : List (Bytes × Consumer)) (own : All IsOwn m) where
  pub adds_other :
      (k : Bytes) (rs : List DbServer)
      → has_server k rs ≡ false
      → has_server k (adds_of m rs) ≡ false
  unfolding has_server adds_of
  adds_other k [] h = refl
  adds_other k (r ∷ rs) h =
      let first : bytes_eq r.server_uid k ≡ false = ground arith in
      by_found first (adds_other k rs (rw first at h)) (get r.server_uid m)
    where
      by_found :
          bytes_eq r.server_uid k ≡ false
          → has_server k (adds_of m rs) ≡ false
          → (o : Option Consumer) → has_server k (add_if m o r (adds_of m rs)) ≡ false
      by_found first rest none = rw first rest
      by_found first rest (some c) = elim (Bool-cases (same_row c.row r)) [
        | inl l ↦ rw l rest
        | inr l ↦ rw (l, first) rest
      ]

  pub changed_other :
      (k : Bytes) (rs : List DbServer)
      → has_server k rs ≡ false
      → has_consumer k (changed_of m rs) ≡ false
  unfolding has_server changed_of has_consumer
  changed_other k [] h = refl
  changed_other k (r ∷ rs) h =
      let first : bytes_eq r.server_uid k ≡ false = ground arith in
      by_found first (changed_other k rs (rw first at h)) (get r.server_uid m) refl
    where
      by_found :
          bytes_eq r.server_uid k ≡ false
          → has_consumer k (changed_of m rs) ≡ false
          → (o : Option Consumer) → get r.server_uid m ≡ o
          → has_consumer k (delete_if m o r (changed_of m rs)) ≡ false
      by_found first rest none e = rest
      by_found first rest (some c) e = elim (Bool-cases (same_row c.row r)) [
        | inl l ↦ rw l rest
        | inr l ↦ rw (l, own-get r.server_uid m c own e, first) rest
      ]

module _ (rs : List DbServer) where
  pub gone_one :
      (k : Bytes) (m : List (Bytes × Consumer)) (c : Consumer)
      → All IsOwn m
      → get k m ≡ some c
      → has_server k rs ≡ false
      → has_consumer k (gone_of rs m) ≡ true
  unfolding get gone_of has_consumer
  gone_one k [] c h e n = cc
  gone_one k ((j, d) ∷ m) c (o, h) e n = elim (Bool-cases (bytes_eq j k)) [
    | inl l ↦
        rw (((bytes_eq_iff j k).0 l), n, o, (bytes_eq_iff j k).0 l, (bytes_eq_iff k k).1 refl) refl
    | inr l ↦ elim (Bool-cases (has_server j rs)) [
      | inl a ↦ rw a (gone_one k m c h (rw l at e) n)
      | inr a ↦ rw (a, o, l) (gone_one k m c h (rw l at e) n)
    ]
  ]

  pub gone_other :
      (k : Bytes) (m : List (Bytes × Consumer))
      → All IsOwn m
      → has_server k rs ≡ true
      → has_consumer k (gone_of rs m) ≡ false
  unfolding gone_of has_consumer
  gone_other k [] h n = refl
  gone_other k ((j, d) ∷ m) (o, h) n = elim (Bool-cases (has_server j rs)) [
    | inl a ↦ rw a (gone_other k m h n)
    | inr a ↦ elim (Bool-cases (bytes_eq j k)) [
      | inl l ↦
          absurd (false-true (sym a ∙ (ap (λ x. has_server x rs) ((bytes_eq_iff j k).0 l) ∙ n)))
      | inr l ↦ rw (a, o, l) (gone_other k m h n)
    ]
  ]

module _ (m : List (Bytes × Consumer)) where
  pub adds_append : (xs ys : List DbServer) → adds_of m (xs ++ ys) ≡ adds_of m xs ++ adds_of m ys
  unfolding adds_of
  adds_append [] ys = refl
  adds_append (r ∷ xs) ys = by_found (get r.server_uid m) (adds_append xs ys)
    where
      by_found :
          (o : Option Consumer)
          → adds_of m (xs ++ ys) ≡ adds_of m xs ++ adds_of m ys
          → add_if m o r (adds_of m (xs ++ ys)) ≡ add_if m o r (adds_of m xs) ++ adds_of m ys
      by_found none e = rw e refl
      by_found (some c) e = elim (Bool-cases (same_row c.row r)) [
        | inl l ↦ rw l e
        | inr l ↦ rw (l, e) refl
      ]

  pub changed_append :
      (xs ys : List DbServer) → changed_of m (xs ++ ys) ≡ changed_of m xs ++ changed_of m ys
  unfolding changed_of
  changed_append [] ys = refl
  changed_append (r ∷ xs) ys = by_found (get r.server_uid m) (changed_append xs ys)
    where
      by_found :
          (o : Option Consumer)
          → changed_of m (xs ++ ys) ≡ changed_of m xs ++ changed_of m ys
          → delete_if m o r (changed_of m (xs ++ ys))
            ≡ delete_if m o r (changed_of m xs) ++ changed_of m ys
      by_found none e = e
      by_found (some c) e = elim (Bool-cases (same_row c.row r)) [
        | inl l ↦ rw l e
        | inr l ↦ rw (l, e) refl
      ]

pub start_append :
    (xs ys : List DbServer) (s : Consumers) → start_all (xs ++ ys) s ≡ start_all ys (start_all xs s)
unfolding start_all
start_append [] ys s = refl
start_append (r ∷ xs) ys s = start_append xs ys _

pub consumer_append :
    (k : Bytes) (xs ys : List Consumer)
    → has_consumer k (xs ++ ys) ≡ (has_consumer k xs || has_consumer k ys)
unfolding has_consumer
consumer_append k [] ys = refl
consumer_append k (c ∷ xs) ys = ground (arith, consumer_append k xs ys)

pub server_append :
    (k : Bytes) (xs ys : List DbServer)
    → has_server k (xs ++ ys) ≡ (has_server k xs || has_server k ys)
unfolding has_server
server_append k [] ys = refl
server_append k (r ∷ xs) ys = ground (arith, server_append k xs ys)
