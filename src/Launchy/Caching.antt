-- ===== src/Launchy/Caching.antt =====
-- The map ServicesByName of launchy/agent.go after a turn of RunServiceSlurpLoopOnce.
use godev.Prelude.{
  List, none, some, Bytes, bytes_eq, bytes_eq_iff, get, ◌≡◌, ◌≢◌, ◌∙◌, refl, sym, inl, inr,
  Option-cases, Option-cases, get-put, Bool-cases, get-put_ne, get-put_if,
}
use godev.Launchy.Slurp.{cache_service, ServiceDto, ServiceDto, ServiceDto}

pub cache_kept :
    (j k : Bytes) (new : ServiceDto) (cache : List (Bytes × ServiceDto)) (d : ServiceDto)
    → get j cache ≡ some d
    → get j (cache_service k new cache) ≡ some d
unfolding cache_service
cache_kept j k new cache d e = elim (Option-cases (get k cache)) [
  | inl none_cached ↦ elim (Bool-cases (bytes_eq k j)) [
    | inl same ↦
        let f : none ≡ some d = sym none_cached ∙ (rw ((bytes_eq_iff k j).0 same) e) in absurd (cc)
    | inr ne ↦ rw (none_cached, get-put_if j k new cache, ne) e
  ]
  | inr (old, cached) ↦ rw cached e
]

pub cache_other :
    (j k : Bytes) (new : ServiceDto) (cache : List (Bytes × ServiceDto))
    → j ≢ k
    → get j (cache_service k new cache) ≡ get j cache
unfolding cache_service
cache_other j k new cache ne = elim (Option-cases (get k cache)) [
  | inl none_cached ↦ rw none_cached (get-put_ne j k new cache (λ e. ne (sym e)))
  | inr (old, cached) ↦ rw cached refl
]

pub cache_first :
    (k : Bytes) (new : ServiceDto) (cache : List (Bytes × ServiceDto))
    → get k cache ≡ none
    → get k (cache_service k new cache) ≡ some new
unfolding cache_service
cache_first k new cache e = rw e (get-put k new cache)
