-- ===== src/Discovery/Pools/Laws.antt =====
-- What adding and removing a URL does to a pool.
use tokendog.Base.{
  ◌≡◌, refl, ◌∙◌, sym, String, List, [], ◌∷◌, ◌++◌, true, false, not, ◌&&◌, ◌||◌, arith, Bool-cases,
  inl, inr, any-append,
}
use tokendog.Base.Text.{str_eq, eq_iff, eq_refl}
use tokendog.Worker
use tokendog.Worker.{Worker}
use tokendog.Discovery.Pools.{has_url, add_worker_to_pool, remove_worker_from_pool}

has_url_known :
    (u v : String) (workers : List Worker)
    → has_url v workers ≡ true
    → has_url u workers ≡ (str_eq v u || has_url u workers)
has_url_known u v workers there = elim (Bool-cases (str_eq v u)) [
  | inl same ↦ let e : u ≡ v = sym ((eq_iff v u).0 same) in rw (e, there, eq_refl v)
  | inr other ↦ rw other
]

-- After an addition the pool has the new URL and those it had.
pub has_url-add_worker_to_pool :
    (u v : String) (workers : List Worker)
    → has_url u (add_worker_to_pool workers v).0 ≡ (str_eq v u || has_url u workers)
unfolding add_worker_to_pool
has_url-add_worker_to_pool u v workers = elim (Bool-cases (has_url v workers)) [
  | inl there ↦ rw there (has_url_known u v workers there)
  | inr new ↦ rw (new, any-append (λ w. str_eq w.url u) workers (Worker.new v ∷ [])) (ground arith)
]

-- After a removal it has all but the removed URL.
pub has_url-remove_worker_from_pool :
    (u v : String) (workers : List Worker)
    → has_url u (remove_worker_from_pool workers v).0 ≡ (not (str_eq v u) && has_url u workers)
unfolding remove_worker_from_pool
has_url-remove_worker_from_pool u v [] = ground arith
has_url-remove_worker_from_pool u v (w ∷ workers) =
    ground (
      arith,
      has_url-remove_worker_from_pool u v workers,
      eq_iff v u,
      eq_iff w.url v,
      eq_iff w.url u,
    )

-- No URL stands twice.
abbrev pub NoTwice : List Worker → Type 0
NoTwice [] = Unit
NoTwice (w ∷ workers) = (has_url w.url workers ≡ false) × NoTwice workers

NoTwice-append :
    (v : String) (workers : List Worker)
    → has_url v workers ≡ false
    → NoTwice workers
    → NoTwice (workers ++ Worker.new v ∷ [])
NoTwice-append v [] new once = (refl, tt)
NoTwice-append v (w ∷ workers) new once = (
  any-append (λ x. str_eq x.url w.url) workers (Worker.new v ∷ [])
      ∙ ground (arith, eq_iff w.url v, eq_iff v w.url),
  NoTwice-append v workers (ground arith) once.1,
)

pub NoTwice-add_worker_to_pool :
    (v : String) (workers : List Worker)
    → NoTwice workers
    → NoTwice (add_worker_to_pool workers v).0
unfolding add_worker_to_pool
NoTwice-add_worker_to_pool v workers once = elim (Bool-cases (has_url v workers)) [
  | inl there ↦ rw there once
  | inr new ↦ rw new (NoTwice-append v workers new once)
]

pub NoTwice-remove_worker_from_pool :
    (v : String) (workers : List Worker)
    → NoTwice workers
    → NoTwice (remove_worker_from_pool workers v).0
unfolding remove_worker_from_pool
NoTwice-remove_worker_from_pool v [] once = tt
NoTwice-remove_worker_from_pool v (w ∷ workers) once = elim (Bool-cases (str_eq w.url v)) [
  | inl gone ↦ rw gone (NoTwice-remove_worker_from_pool v workers once.1)
  | inr kept ↦ rw kept (
    has_url-remove_worker_from_pool w.url v workers ∙ ground arith,
    NoTwice-remove_worker_from_pool v workers once.1,
  )
]
