-- ===== src/Action/World.antt =====
-- internal/action/actions.go: how a step ends, and the calls of Kubernetes and of Redis that the steps
-- make.
use llm_k8s_redis.Prelude.{
  ok_injective, Bool-cases, inl, inr, ap, ◌≡◌, ℕ, String, List, Map, Option, some, none, false,
  if◌then◌else◌, Result, ok, err, ◌<>◌, is_blank,
}
use llm_k8s_redis.Plan.{Value, param_string}
use llm_k8s_redis.Controller.Status.{StepState, running, completed, failed}
use llm_k8s_redis.Controller.Execution.{StepOutcome}
use llm_k8s_redis.Action.Pods.{Pod}
use llm_k8s_redis.Action.Observe.{Listing}

-- What a step returns: its outcome and the text of an error, none for nil.
pub record Ended : Type 0 where
  pub outcome : StepOutcome
  pub error : Option String

abbrev pub ended : StepState → String → Option String → Ended
ended status msg error = record {
  outcome = record { status = status; message = msg; supersede_plan = false };
  error = error;
}

-- paramErr: the error has the text of the message.
abbrev pub param_err : String → Ended
param_err msg = ended failed msg (some msg)

abbrev pub failed_with : String → String → Ended
failed_with msg e = ended failed msg (some e)

abbrev pub running_with : String → Ended
running_with msg = ended running msg none

abbrev pub completed_with : String → Ended
completed_with msg = ended completed msg none

-- A call that writes.
pub data Call : Type 0 where
  cluster_forget : String → String → Call
  cluster_add_slots : String → List ℕ → Call
  delete_pod : String → String → Call

abbrev pub History : Type 0
History = List Call

pub data PodReply : Type 0 where
  pod_found : Pod → PodReply
  pod_not_found : PodReply
  get_failed : String → PodReply

pub data DeleteReply : Type 0 where
  deleted : DeleteReply
  already_gone : DeleteReply
  delete_failed : String → DeleteReply

-- What Kubernetes and Redis answer to a call, given the writes before it. An error is its text, and none
-- is no error. A Redis client is named by its address.
pub record World : Type 0 where
  pub list_pods : History → Listing
  pub get_pod : History → String → String → PodReply
  pub dial : History → String → Option String
  pub ping : History → String → Option String
  pub cluster_nodes : History → String → Result String String
  pub forget : History → String → String → Option String
  pub add_slots : History → String → List ℕ → Option String
  pub delete : History → String → String → DeleteReply

-- A failed List ends a step with its message.
abbrev pub pods_or_end : Result String (List Pod) → Result Ended (List Pod)
pods_or_end (ok pods) = ok pods
pods_or_end (err msg) = err (failed_with msg msg)

-- What a step does where a call fails.
abbrev pub no_error : Option String → (String → Ended) → Result Ended (Unit {0})
no_error none end = ok tt
no_error (some e) end = err (end e)

abbrev pub or_end : {A : Type 0} → Result String A → (String → Ended) → Result Ended A
or_end (ok a) end = ok a
or_end (err e) end = err (end e)

abbrev pub some_or_end : {A : Type 0} → Option A → Ended → Result Ended A
some_or_end (some a) end = ok a
some_or_end none end = err end

-- `quote` is the %q of fmt.
module _ (quote : String → String) where
  abbrev pub required : String → Option String → Result Ended String
  required key none = err (param_err ("missing required string param " <> quote key))
  required key (some s) =
      if is_blank s then err (param_err ("missing required string param " <> quote key)) else ok s

  unfoldable pub require_string : Option (Map String Value) → String → Result Ended String
  require_string params key = required key (param_string params key)

  required_sound :
      (key : String) (o : Option String) (s : String) → required key o ≡ ok s → o ≡ some s
  required_sound key none s h = cc h
  required_sound key (some t) s h = elim (Bool-cases (is_blank t)) [
    | inl blank ↦ absurd (cc (rw blank at h))
    | inr text ↦ ap some (ok_injective t s (rw text at h))
  ]

  -- A parameter that is required is what the step has under its key.
  pub require_string_sound :
      (params : Option (Map String Value)) (key s : String)
      → require_string params key ≡ ok s
      → param_string params key ≡ some s
  unfolding require_string
  require_string_sound params key s h = required_sound key (param_string params key) s h
