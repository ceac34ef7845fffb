-- ===== src/Nefario/Cancels.antt =====
-- nefario/nefario.go: which contexts the cycle of Run cancels and makes.
use mathlib.Core.List.{append_assoc}
use godev.Prelude.{
  ℕ, ◌≤◌, false, List, [], ◌∷◌, ◌++◌, map, Option, none, some, Bytes, bytes_eq, bytes_eq_iff, get,
  ◌≡◌, ◌⊎◌, refl, sym, ◌∙◌, ap, inl, inr, Bool-cases, arith, All, append-nil,
}
use godev.Nefario.Consumers.{
  DbServer, Consumer, Consumers, same_row, has_server, delete_if, changed_of, gone_of, stop_all,
  start_all,
}

-- A consumer is one of the list.
unfoldable pub Among : Consumer → List Consumer → Type 0
Among c [] = ⊥
Among c (d ∷ ds) = (d ≡ c) ⊎ Among c ds

pub Among-left : (c : Consumer) (xs ys : List Consumer) → Among c xs → Among c (xs ++ ys)
unfolding Among
Among-left c [] ys h = absurd h
Among-left c (d ∷ xs) ys (inl h) = inl h
Among-left c (d ∷ xs) ys (inr h) = inr (Among-left c xs ys h)

pub Among-right : (c : Consumer) (xs ys : List Consumer) → Among c ys → Among c (xs ++ ys)
unfolding Among
Among-right c [] ys h = h
Among-right c (d ∷ xs) ys h = inr (Among-right c xs ys h)

abbrev pub all_of : List (Bytes × Consumer) → List Consumer
all_of m = map (λ (p : Bytes × Consumer). p.1) m

get-Among :
    (k : Bytes) (m : List (Bytes × Consumer)) (c : Consumer) → get k m ≡ some c → Among c (all_of m)
unfolding Among get
get-Among k [] c e = cc
get-Among k ((j, d) ∷ m) c e = elim (Bool-cases (bytes_eq j k)) [
  | inl l ↦ let q : some d ≡ some c = rw l at e in inl cc
  | inr l ↦ inr (get-Among k m c (rw l at e))
]

module _ (P : Consumer → Type 0) where
  pub append-All : (xs ys : List Consumer) → All P xs → All P ys → All P (xs ++ ys)
  append-All [] ys h k = k
  append-All (c ∷ xs) ys (h, hs) k = (h, append-All xs ys hs k)

  pub gone_of-All :
      (rs : List DbServer) (m : List (Bytes × Consumer))
      → ((c : Consumer) → Among c (all_of m) → P c)
      → All P (gone_of rs m)
  unfolding Among gone_of
  gone_of-All rs [] f = tt
  gone_of-All rs ((j, d) ∷ m) f = elim (Bool-cases (has_server j rs)) [
    | inl a ↦ rw a (gone_of-All rs m λ c h. f c (inr h))
    | inr a ↦ rw a (f d (inl refl), gone_of-All rs m λ c h. f c (inr h))
  ]

  pub changed_of-All :
      (m : List (Bytes × Consumer)) (rs : List DbServer)
      → ((c : Consumer) → Among c (all_of m) → P c)
      → All P (changed_of m rs)
  unfolding changed_of
  changed_of-All m [] f = tt
  changed_of-All m (r ∷ rs) f = by_found (get r.server_uid m) refl (changed_of-All m rs f)
    where
      by_found :
          (o : Option Consumer)
          → get r.server_uid m ≡ o
          → All P (changed_of m rs)
          → All P (delete_if m o r (changed_of m rs))
      by_found none e h = h
      by_found (some c) e h = elim (Bool-cases (same_row c.row r)) [
        | inl l ↦ rw l h
        | inr l ↦ rw l (f c (get-Among r.server_uid m c e), h)
      ]

pub gone_of-Among :
    (k : Bytes) (rs : List DbServer) (m : List (Bytes × Consumer)) (c : Consumer)
    → get k m ≡ some c
    → has_server k rs ≡ false
    → Among c (gone_of rs m)
unfolding get gone_of Among
gone_of-Among k rs [] c e n = cc
gone_of-Among k rs ((j, d) ∷ m) c e n = elim (Bool-cases (bytes_eq j k)) [
  | inl l ↦
      let q : some d ≡ some c = rw l at e in
      let a : has_server j rs ≡ false = ap (λ x. has_server x rs) ((bytes_eq_iff j k).0 l) ∙ n in
      rw a (inl cc)
  | inr l ↦ elim (Bool-cases (has_server j rs)) [
    | inl a ↦ rw a (gone_of-Among k rs m c (rw l at e) n)
    | inr a ↦ rw a (inr (gone_of-Among k rs m c (rw l at e) n))
  ]
]

pub stop_all-cancelled :
    (cs : List Consumer) (s : Consumers)
    → (stop_all cs s).cancelled ≡ s.cancelled ++ map (λ (c : Consumer). c.context) cs
unfolding stop_all
stop_all-cancelled [] s = sym (append-nil s.cancelled)
stop_all-cancelled (c ∷ cs) s =
    stop_all-cancelled cs _
    ∙ append_assoc s.cancelled (c.context ∷ []) (map (λ (d : Consumer). d.context) cs)

pub stop_all-contexts : (cs : List Consumer) (s : Consumers) → (stop_all cs s).contexts ≡ s.contexts
unfolding stop_all
stop_all-contexts [] s = refl
stop_all-contexts (c ∷ cs) s = stop_all-contexts cs _

pub start_all-cancelled :
    (rs : List DbServer) (s : Consumers) → (start_all rs s).cancelled ≡ s.cancelled
unfolding start_all
start_all-cancelled [] s = refl
start_all-cancelled (r ∷ rs) s = start_all-cancelled rs _

pub start_all-contexts :
    (rs : List DbServer) (s : Consumers) (n : ℕ) → n ≤ s.contexts → n ≤ (start_all rs s).contexts
unfolding start_all
start_all-contexts [] s n h = h
start_all-contexts (r ∷ rs) s n h = start_all-contexts rs _ n (omega arith)
