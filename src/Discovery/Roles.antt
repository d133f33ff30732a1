-- ===== src/Discovery/Roles.antt =====
-- PD mode: the pods of one role and their pool, seen as a discovery in regular mode.
pub mod Lists
pub mod Views
pub mod Others
pub mod Known
pub mod Stale
pub mod Updates
use tokendog.Base.{
  ℕ, ◌≡◌, ◌≢◌, refl, List, [], ◌∷◌, Option, none, some, Bool, true, false, retain, ◌⊎◌, inl, inr,
  if◌then◌else◌,
}
use tokendog.Discovery.Pods.{PodInfo, PodType, prefill, decode, regular}
use tokendog.Discovery.Pools.{Discovery, PoolRef, regular_ref, prefill_ref, decode_ref, select_pool}
use tokendog.Server.Build.{snapshot}
use tokendog.Worker.{Worker}

-- The pool of a pod where both pools of PD mode are there.
abbrev pub role_of : Option PodType → PoolRef
role_of (some prefill) = prefill_ref
role_of (some decode) = decode_ref
role_of _ = regular_ref

abbrev pub role : PodInfo → PoolRef
role p = role_of p.pod_type

abbrev pub same_ref : PoolRef → PoolRef → Bool
same_ref regular_ref regular_ref = true
same_ref prefill_ref prefill_ref = true
same_ref decode_ref decode_ref = true
same_ref _ _ = false

-- The pods of a role.
abbrev pub of_role : PoolRef → PodInfo → Bool
of_role r p = same_ref (role p) r

abbrev pub pool_at : PoolRef → Discovery → List Worker
pool_at regular_ref self = self.regular_pool
pool_at prefill_ref self = snapshot self.prefill_pool
pool_at decode_ref self = snapshot self.decode_pool

-- The discovery that only tracks `tracked`, in one pool.
abbrev pub alone : List PodInfo → List Worker → Discovery
alone tracked pool = record {
  tracked = tracked;
  regular_pool = pool;
  prefill_pool = none;
  decode_pool = none;
}

abbrev pub view : PoolRef → Discovery → Discovery
view r self = alone (retain (of_role r) self.tracked) (pool_at r self)

-- start_service_discovery is given both pools in PD mode.
abbrev pub HasPools : Discovery → Type 0
HasPools self =
    ((workers : List Worker) × (self.prefill_pool ≡ some workers))
    × ((workers : List Worker) × (self.decode_pool ≡ some workers))

pub same_ref_self : (r : PoolRef) → same_ref r r ≡ true
same_ref_self regular_ref = refl
same_ref_self prefill_ref = refl
same_ref_self decode_ref = refl

pub PoolRef-cases : (t r : PoolRef) → (t ≡ r) ⊎ (same_ref t r ≡ false)
PoolRef-cases regular_ref regular_ref = inl refl
PoolRef-cases regular_ref prefill_ref = inr refl
PoolRef-cases regular_ref decode_ref = inr refl
PoolRef-cases prefill_ref regular_ref = inr refl
PoolRef-cases prefill_ref prefill_ref = inl refl
PoolRef-cases prefill_ref decode_ref = inr refl
PoolRef-cases decode_ref regular_ref = inr refl
PoolRef-cases decode_ref prefill_ref = inr refl
PoolRef-cases decode_ref decode_ref = inl refl

role_lem :
    (t : Option PodType) (p : PodInfo) (self : Discovery)
    → p.pod_type ≡ t
    → HasPools self
    → select_pool p true self ≡ role_of t
unfolding select_pool
role_lem none p self e h = rw e refl
role_lem (some prefill) p self e ((w, at), d) = rw (e, at) refl
role_lem (some decode) p self e (q, (w, at)) = rw (e, at) refl
role_lem (some regular) p self e h = rw e refl

pub select_pool-role :
    (p : PodInfo) (self : Discovery) → HasPools self → select_pool p true self ≡ role p
select_pool-role p self h = role_lem p.pod_type p self refl h
