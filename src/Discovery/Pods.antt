-- ===== src/Discovery/Pods.antt =====
-- ServiceDiscoveryConfig, PodInfo and their methods. A Pod is the part of the Kubernetes object
-- that the program reads.
use Prim.Native.String
use tokendog.Base.{
  ℕ, zero, suc, ◌/◌, ◌%◌, String, List, [], ◌∷◌, Option, none, some, Bool, true, false, ◌&&◌, ◌||◌,
  any, map, retain, get_elem?, ltb, ◌≡◌, refl, if◌then◌else◌,
}
use mathlib.Core.Option
use tokendog.Base.Map.{lookup}
use tokendog.Base.Text.{str_eq}

pub record ServiceDiscoveryConfig : Type 0 where
  pub enabled : Bool
  pub selector : List (String × String)
  pub check_interval : ℕ
  pub port : ℕ
  pub namespace : Option String
  pub pd_mode : Bool
  pub prefill_selector : List (String × String)
  pub decode_selector : List (String × String)

abbrev pub default : ServiceDiscoveryConfig
default = record {
  enabled = false;
  selector = [];
  check_interval = 60;
  port = 8000;
  namespace = none;
  pd_mode = false;
  prefill_selector = [];
  decode_selector = [];
}

abbrev infixed : String → String → String → String
infixed a sep b = String.◌++◌ a (String.◌++◌ sep b)

-- `collect::<Vec<_>>().join(",")`.
abbrev join : List String → String
join [] = ""
join (s ∷ []) = s
join (s ∷ t ∷ rest) = infixed s "," (join (t ∷ rest))

infixl 5 ◌>>=◌
abbrev ◌>>=◌ {ℓ κ} : {A : Type ℓ} {B : Type κ} → Option A → (A → Option B) → Option B
none >>= k = none
some a >>= k = k a

abbrev pub is_some_eq : Option String → String → Bool
is_some_eq none v = false
is_some_eq (some w) v = str_eq w v

-- The entries of the label selector, in the order of the model's map; that of a HashMap is not
-- specified.
abbrev pub entries : ServiceDiscoveryConfig → List (String × String)
entries self =
    if self.pd_mode
    then retain (λ (k, v). is_some_eq (lookup k self.decode_selector) v) self.prefill_selector
    else self.selector

unfoldable pub list_label_selector : ServiceDiscoveryConfig → String
list_label_selector self = join (map (λ (k, v). infixed k "=" v) (entries self))

pub data PodType : Type 0 where
  prefill decode regular : PodType

pub record PodCondition : Type 0 where
  pub type_ : String
  pub status : String

pub record PodStatus : Type 0 where
  pub pod_ip : Option String
  pub phase : Option String
  pub conditions : Option (List PodCondition)

pub record Pod : Type 0 where
  pub name : Option String
  pub uid : Option String
  pub labels : Option (List (String × String))
  pub deletion_timestamp : Option String
  pub status : Option PodStatus

pub record PodInfo : Type 0 where
  pub name : String
  pub uid : String
  pub ip : String
  pub status : String
  pub is_ready : Bool
  pub pod_type : Option PodType

-- `impl PartialEq for PodInfo`: identity is the name and the uid.
unfoldable pub same_pod : PodInfo → PodInfo → Bool
same_pod a b = str_eq a.name b.name && str_eq a.uid b.uid

abbrev pub is_empty {ℓ} : {A : Type ℓ} → List A → Bool
is_empty [] = true
is_empty (x ∷ xs) = false

abbrev pub all {ℓ} : {A : Type ℓ} → (A → Bool) → List A → Bool
all p [] = true
all p (x ∷ xs) = p x && all p xs

abbrev pub labels_match : Option (List (String × String)) → List (String × String) → Bool
labels_match none selector = false
labels_match (some labels) selector = all (λ (k, v). is_some_eq (lookup k labels) v) selector

unfoldable pub matches_selector : Pod → List (String × String) → Bool
matches_selector pod [] = false
matches_selector pod (entry ∷ selector) = labels_match pod.labels (entry ∷ selector)

unfoldable pub should_include : Pod → ServiceDiscoveryConfig → Bool
unfolding matches_selector
should_include pod config =
    if config.pd_mode
    then if is_empty config.prefill_selector && is_empty config.decode_selector
      then false
      else matches_selector pod config.prefill_selector
        || matches_selector pod config.decode_selector
    else if is_empty config.selector
    then false
    else matches_selector pod config.selector

-- The "Ready" condition; without conditions a pod is not ready.
abbrev ready : Option (List PodCondition) → Bool
ready none = false
ready (some conditions) =
    any (λ condition. str_eq condition.type_ "Ready" && str_eq condition.status "True") conditions

abbrev classify : Pod → ServiceDiscoveryConfig → PodType
classify pod cfg =
    if cfg.pd_mode
    then if matches_selector pod cfg.prefill_selector
      then prefill
      else if matches_selector pod cfg.decode_selector
      then decode
      else regular
    else regular

abbrev unwrap_or {ℓ} : {A : Type ℓ} → Option A → A → A
unwrap_or none a = a
unwrap_or (some b) a = b

-- `None` where the name, the uid, the status or the IP is absent.
unfoldable pub from_pod : Pod → Option ServiceDiscoveryConfig → Option PodInfo
from_pod pod config = do
  name ← pod.name
  uid ← pod.uid
  status ← pod.status
  pod_ip ← status.pod_ip
  some (record {
    name = name;
    uid = uid;
    ip = pod_ip;
    status = unwrap_or status.phase "Unknown";
    is_ready = ready status.conditions;
    pod_type = Option.map (classify pod) config;
  })

unfoldable pub is_healthy : PodInfo → Bool
is_healthy self = self.is_ready && str_eq self.status "Running"

-- The decimal digits of a u16.
abbrev digit : ℕ → String
digit d =
    unwrap_or (get_elem? ("0" ∷ "1" ∷ "2" ∷ "3" ∷ "4" ∷ "5" ∷ "6" ∷ "7" ∷ "8" ∷ "9" ∷ []) d) ""

unfoldable pub decimal : ℕ → ℕ → String
decimal zero n = digit (n % 10)
decimal (suc places) n =
    let more = String.◌++◌ (decimal places (n / 10)) (digit (n % 10)) in
    if ltb n 10 then digit n else more

-- `format!("{}:{}", self.ip, port)`; a u16 has five digits at most.
unfoldable pub worker_url : PodInfo → ℕ → String
worker_url self port = infixed self.ip ":" (decimal 4 port)

test_worker_url :
    worker_url
      (record {
        name = "pod-1";
        uid = "uid-1";
        ip = "10.0.0.1";
        status = "Running";
        is_ready = true;
        pod_type = none;
      })
      8000
    ≡ "10.0.0.1:8000"
unfolding worker_url decimal
test_worker_url = refl
