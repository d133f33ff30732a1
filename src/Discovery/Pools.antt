-- ===== src/Discovery/Pools.antt =====
-- The shared worker pools: add_worker_to_pool, remove_worker_from_pool and select_pool. The three
-- pools are distinct lists; a lock of one is never poisoned, as no holder of it panics.
pub mod Laws
use tokendog.Base.{
  ℕ, String, List, [], ◌∷◌, ◌++◌, Option, none, some, Bool, true, false, not, any, retain, length,
  ltb, if◌then◌else◌,
}
use tokendog.Base.Text.{str_eq}
use tokendog.Worker
use tokendog.Worker.{Worker}
use tokendog.Discovery.Pods.{PodInfo, PodType, prefill, decode, regular}

abbrev pub has_url : String → List Worker → Bool
has_url url workers = any (λ w. str_eq w.url url) workers

-- The pool, and whether the URL was new.
unfoldable pub add_worker_to_pool : List Worker → String → List Worker × Bool
add_worker_to_pool workers url =
    if has_url url workers then (workers, false) else (workers ++ Worker.new url ∷ [], true)

unfoldable pub remove_worker_from_pool : List Worker → String → List Worker × Bool
remove_worker_from_pool workers url =
    let kept = retain (λ w. not (str_eq w.url url)) workers in
    (kept, ltb (length kept) (length workers))

-- The tracked set (a HashSet, here a list with no pod twice) and the pools.
pub record Discovery : Type 0 where
  pub tracked : List PodInfo
  pub regular_pool : List Worker
  pub prefill_pool : Option (List Worker)
  pub decode_pool : Option (List Worker)

-- The reference that select_pool returns.
pub data PoolRef : Type 0 where
  regular_ref prefill_ref decode_ref : PoolRef

abbrev or_regular : Option (List Worker) → PoolRef → PoolRef
or_regular none there = regular_ref
or_regular (some pool) there = there

abbrev by_type : Option PodType → Discovery → PoolRef
by_type (some prefill) self = or_regular self.prefill_pool prefill_ref
by_type (some decode) self = or_regular self.decode_pool decode_ref
by_type _ self = regular_ref

unfoldable pub select_pool : PodInfo → Bool → Discovery → PoolRef
select_pool pod_info pd_mode self = if pd_mode then by_type pod_info.pod_type self else regular_ref

abbrev on_some : (List Worker → List Worker) → Option (List Worker) → Option (List Worker)
on_some change none = none
on_some change (some pool) = some (change pool)

-- A write through the reference.
unfoldable pub change_pool : PoolRef → (List Worker → List Worker) → Discovery → Discovery
change_pool regular_ref change self = record self { regular_pool = change self.regular_pool }
change_pool prefill_ref change self = record self {
  prefill_pool = on_some change self.prefill_pool;
}
change_pool decode_ref change self = record self { decode_pool = on_some change self.decode_pool }

abbrev pub add_url : String → PoolRef → Discovery → Discovery
add_url url target = change_pool target (λ workers. (add_worker_to_pool workers url).0)

abbrev pub remove_url : String → PoolRef → Discovery → Discovery
remove_url url target = change_pool target (λ workers. (remove_worker_from_pool workers url).0)
