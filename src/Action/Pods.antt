-- ===== src/Action/Pods.antt =====
-- internal/action: the fields of a corev1.Pod that the executor reads.
use llm_k8s_redis.Prelude.{
  ℕ, String, List, [], ◌∷◌, Map, Option, some, none, Bool, false, ◌&&◌, not, ◌==◌, string_keys,
  if◌then◌else◌, insert, lookup, is_blank, ◌<>◌, find,
}

pub record PodCondition : Type 0 where
  pub kind : String
  pub status : String

pub record Container : Type 0 where
  pub name : String
  pub image : String

pub record Pod : Type 0 where
  pub name : String
  pub namespace : String
  pub labels : Map String String
  pub deletion_timestamp : Option ℕ
  pub containers : List Container
  pub conditions : List PodCondition
  pub pod_ip : String

abbrev is_true : Option PodCondition → Bool
is_true none = false
is_true (some c) = c.status == "True"

-- podReady of internal/action/wait_node_ready.go
unfoldable pub pod_ready : Pod → Bool
pod_ready p = is_true (find (λ c. c.kind == "Ready") p.conditions)

abbrev pub has_ip : Pod → Bool
has_ip p = not (is_blank p.pod_ip)

-- podReady(&p) && p.Status.PodIP != ""
abbrev pub usable : Pod → Bool
usable p = pod_ready p && has_ip p

abbrev pub is_deleting : Pod → Bool
is_deleting p = elim p.deletion_timestamp [ none ↦ false | some at ↦ not false ]

-- podRedisAddr of internal/action/ensure_node.go
unfoldable pub pod_redis_addr : Pod → String
pod_redis_addr p = if is_blank p.pod_ip then "" else p.pod_ip <> ":6379"

abbrev image_or_blank : Option Container → String
image_or_blank none = ""
image_or_blank (some c) = c.image

unfoldable pub pod_redis_image : Pod → String
pod_redis_image p = image_or_blank (find (λ c. c.name == "redis") p.containers)

abbrev pub PodsByIp : Type 0
PodsByIp = Map String Pod

unfoldable pub index_by_ip : List Pod → PodsByIp → PodsByIp
index_by_ip [] out = out
index_by_ip (p ∷ pods) out =
    index_by_ip pods (if is_blank p.pod_ip then out else insert p.pod_ip p out)

unfoldable pub map_pods_by_ip : List Pod → PodsByIp
unfolding index_by_ip
map_pods_by_ip pods = index_by_ip pods []

abbrev name_or_blank : Option Pod → String
name_or_blank none = ""
name_or_blank (some p) = p.name

unfoldable pub pod_name_for_ip : PodsByIp → String → String
pod_name_for_ip pods ip = name_or_blank (lookup ip pods)

abbrev ready_or_false : Option Pod → Bool
ready_or_false none = false
ready_or_false (some p) = pod_ready p

unfoldable pub pod_ready_for_ip : PodsByIp → String → Bool
pod_ready_for_ip pods ip = ready_or_false (lookup ip pods)
