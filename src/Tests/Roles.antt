-- ===== src/Tests/Roles.antt =====
-- A prefill and a decode worker that Kubernetes tells of.
use tokendog.Base.{
  ◌≡◌, ◌≢◌, refl, sym, ◌⊎◌, inl, inr, ◌++◌, String, List, [], ◌∷◌, some, none, true, false, arith,
  some_eq, All,
}
use tokendog.Base.Map.{lookup}
use tokendog.Base.Text.{eq_iff}
use tokendog.Discovery.Pods.{
  Pod, PodInfo, ServiceDiscoveryConfig, default, prefill, decode, worker_url, decimal, same_pod,
  from_pod, matches_selector, should_include, entries,
}
use tokendog.Discovery.Pools.{Discovery, PoolRef, prefill_ref, decode_ref, regular_ref}
use tokendog.Discovery.Consistency.{IsConsistent}
use tokendog.Discovery.Consistency.Live.{ComesFrom}
use tokendog.Discovery.Consistency.Updates.{Update, watched, listed, apply_all, Apart}
use tokendog.Discovery.Roles.{view}
use tokendog.Discovery.Roles.Known.{OneRole}
use tokendog.Discovery.Roles.Updates.{apply_all-AreConsistent}
use tokendog.Discovery.Selection.{HasLabel, entries-should_include}
use tokendog.Discovery.Supervisor.{TaskRun, Supervisor, supervise}
use tokendog.Discovery.Supervisor.Told.{told, pauses, supervise-apply_all}

abbrev two_roles : ServiceDiscoveryConfig
two_roles = record default {
  pd_mode = true;
  prefill_selector = ("app", "llm") ∷ ("role", "prefill") ∷ [];
  decode_selector = ("app", "llm") ∷ ("role", "decode") ∷ [];
}

abbrev shown : String → String → String → Pod
shown name ip role = record {
  name = some name;
  uid = some "1";
  labels = some (("app", "llm") ∷ ("role", role) ∷ []);
  deletion_timestamp = none;
  status = some (record {
    pod_ip = some ip;
    phase = some "Running";
    conditions = some (record { type_ = "Ready"; status = "True" } ∷ []);
  });
}

abbrev first : PodInfo
first = record {
  name = "prefill-0";
  uid = "1";
  ip = "10.0.0.1";
  status = "Running";
  is_ready = true;
  pod_type = some prefill;
}

abbrev second : PodInfo
second = record {
  name = "decode-0";
  uid = "1";
  ip = "10.0.0.2";
  status = "Running";
  is_ready = true;
  pod_type = some decode;
}

abbrev empty : Discovery
empty = record { tracked = []; regular_pool = []; prefill_pool = some []; decode_pool = some [] }

IsOurs : PodInfo → Type 0
IsOurs p = (p ≡ first) ⊎ (p ≡ second)

apart_urls : worker_url first 8000 ≢ worker_url second 8000
unfolding worker_url decimal
apart_urls e =
    let b : false ≡ true = (eq_iff (worker_url first 8000) (worker_url second 8000)).1 e in cc

IsOurs-Apart : Apart 8000 IsOurs
unfolding IsOurs same_pod
IsOurs-Apart p q (inl a) (inl b) = rw (a, b) ((λ ne. absurd (ne refl)), (λ e. refl))
IsOurs-Apart p q (inl a) (inr b) = rw (a, b) ((λ ne. apart_urls), (λ e. absurd (ground arith)))
IsOurs-Apart p q (inr a) (inl b) =
    rw (a, b) ((λ ne e. apart_urls (sym e)), (λ e. absurd (ground arith)))
IsOurs-Apart p q (inr a) (inr b) = rw (a, b) ((λ ne. absurd (ne refl)), (λ e. refl))

IsOurs-OneRole : OneRole IsOurs
unfolding IsOurs
IsOurs-OneRole p q (inl a) (inl b) e = rw (a, b) refl
IsOurs-OneRole p q (inl a) (inr b) e =
    let names : "prefill-0" ≡ "decode-0" = rw (a, b) at e in
    let b : false ≡ true = (eq_iff "prefill-0" "decode-0").1 names in absurd cc
IsOurs-OneRole p q (inr a) (inl b) e =
    let names : "decode-0" ≡ "prefill-0" = rw (a, b) at e in
    let b : false ≡ true = (eq_iff "decode-0" "prefill-0").1 names in absurd cc
IsOurs-OneRole p q (inr a) (inr b) e = rw (a, b) refl

from_first : ComesFrom two_roles IsOurs (shown "prefill-0" "10.0.0.1" "prefill")
unfolding IsOurs from_pod matches_selector lookup
from_first i e = inl (some_eq (sym e))

from_second : ComesFrom two_roles IsOurs (shown "decode-0" "10.0.0.2" "decode")
unfolding IsOurs from_pod matches_selector lookup
from_second i e = inr (some_eq (sym e))

abbrev told_of_both : List Update
told_of_both =
    watched (shown "prefill-0" "10.0.0.1" "prefill")
    ∷ listed
        (some (shown "prefill-0" "10.0.0.1" "prefill" ∷ shown "decode-0" "10.0.0.2" "decode" ∷ []))
    ∷ []

empty-IsConsistent : (r : PoolRef) → IsConsistent 8000 (view r empty)
empty-IsConsistent regular_ref = record { names = tt; urls = tt; listed = λ u. refl; once = tt }
empty-IsConsistent prefill_ref = record { names = tt; urls = tt; listed = λ u. refl; once = tt }
empty-IsConsistent decode_ref = record { names = tt; urls = tt; listed = λ u. refl; once = tt }

apply_all-AreConsistent_example :
    IsConsistent 8000 (view decode_ref (apply_all two_roles told_of_both empty))
apply_all-AreConsistent_example =
    apply_all-AreConsistent two_roles IsOurs IsOurs-Apart IsOurs-OneRole refl told_of_both empty
      decode_ref (from_first, ((from_first, (from_second, tt)), tt)) tt (([], refl), ([], refl))
      empty-IsConsistent

included : should_include (shown "decode-0" "10.0.0.2" "decode") two_roles ≡ true
unfolding should_include matches_selector lookup
included = refl

entries-should_include_example :
    All (HasLabel (shown "decode-0" "10.0.0.2" "decode")) (entries two_roles)
entries-should_include_example =
    entries-should_include (shown "decode-0" "10.0.0.2" "decode") two_roles included

-- The second run ends, so the third is not made.
abbrev runs : List TaskRun
runs =
    record { answers = none ∷ []; panicked = true }
    ∷ record { answers = some [] ∷ []; panicked = false }
    ∷ record { answers = none ∷ []; panicked = true }
    ∷ []

abbrev watching : Supervisor
watching = record { discovery = empty; waits = [] }

supervise-apply_all_example :
    ((supervise two_roles runs watching).discovery ≡ apply_all two_roles (told runs) empty)
    × ((supervise two_roles runs watching).waits ≡ [] ++ pauses 60 runs)
supervise-apply_all_example = supervise-apply_all two_roles runs watching
