-- ===== src/Tests/Discovery.antt =====
-- A pod that is replaced under its name.
use tokendog.Base.{
  ◌≡◌, refl, sym, ◌⊎◌, inl, inr, String, List, [], ◌∷◌, some, none, true, arith, some_eq,
}
use tokendog.Discovery.Pods.{
  Pod, PodInfo, ServiceDiscoveryConfig, default, regular, worker_url, decimal, same_pod, from_pod,
}
use tokendog.Discovery.Pools.{Discovery}
use tokendog.Discovery.Consistency.{IsConsistent}
use tokendog.Discovery.Consistency.Updates.{
  Update, watched, listed, apply_all, Apart, apply_all-IsConsistent,
}
use tokendog.Discovery.Consistency.Live.{ComesFrom}

abbrev web : String → String → PodInfo
web uid ip = record {
  name = "web";
  uid = uid;
  ip = ip;
  status = "Running";
  is_ready = true;
  pod_type = some regular;
}

abbrev one_pod : Discovery
one_pod = record {
  tracked = web "1" "10.0.0.1" ∷ [];
  regular_pool = record { url = "10.0.0.1:8000"; healthy = true } ∷ [];
  prefill_pool = none;
  decode_pool = none;
}

one_pod-IsConsistent : IsConsistent 8000 one_pod
unfolding worker_url decimal
one_pod-IsConsistent = record {
  names = (tt, tt);
  urls = (tt, tt);
  listed = λ u. refl;
  once = (refl, tt);
}

-- The pods of the example, as the cluster shows them.
abbrev shown : String → String → Pod
shown uid ip = record {
  name = some "web";
  uid = some uid;
  labels = some (("app", "web") ∷ []);
  deletion_timestamp = none;
  status = some (record {
    pod_ip = some ip;
    phase = some "Running";
    conditions = some (record { type_ = "Ready"; status = "True" } ∷ []);
  });
}

abbrev web_config : ServiceDiscoveryConfig
web_config = record default { selector = ("app", "web") ∷ [] }

-- The pod was restarted; the list call that follows shows the new incarnation only.
abbrev restart : List Update
restart =
    watched (shown "2" "10.0.0.2") ∷ listed (some (shown "2" "10.0.0.2" ∷ [])) ∷ listed none ∷ []

IsWeb : PodInfo → Type 0
IsWeb p = (p ≡ web "1" "10.0.0.1") ⊎ (p ≡ web "2" "10.0.0.2")

webs-Apart : Apart 8000 IsWeb
unfolding IsWeb same_pod
webs-Apart p q (inl a) (inl b) = rw (a, b) ((λ ne. absurd (ne refl)), (λ e. refl))
webs-Apart p q (inl a) (inr b) = rw (a, b) ((λ ne. absurd (ne refl)), (λ e. absurd (ground arith)))
webs-Apart p q (inr a) (inl b) = rw (a, b) ((λ ne. absurd (ne refl)), (λ e. absurd (ground arith)))
webs-Apart p q (inr a) (inr b) = rw (a, b) ((λ ne. absurd (ne refl)), (λ e. refl))

only_webs : ComesFrom web_config IsWeb (shown "2" "10.0.0.2")
unfolding IsWeb from_pod
only_webs i e = inr (some_eq (sym e))

apply_all-IsConsistent_example : IsConsistent 8000 (apply_all web_config restart one_pod)
unfolding IsWeb
apply_all-IsConsistent_example =
    apply_all-IsConsistent web_config IsWeb webs-Apart refl restart one_pod
      (only_webs, ((only_webs, tt), (tt, tt))) (inl refl, tt) one_pod-IsConsistent
