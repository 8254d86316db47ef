-- ===== src/External/Objects.antt =====
-- The Kubernetes objects (k8s.io/api/core/v1), with the fields that the source reads.
use kubefin.Base.{String, Option, List, Dict}

-- `v1.PodPhase`
pub data Phase : Type 0 where
  pending running succeeded failed unknown : Phase

pub record Container (Q : Type 0) : Type 0 where
  pub name : String
  -- `Resources.Requests`
  pub requests : Dict String Q

pub record Pod (Q : Type 0) : Type 0 where
  pub namespace : String
  pub name : String
  pub labels : Dict String String
  -- `Spec.NodeName`, empty before the pod is bound
  pub node_name : String
  pub phase : Phase
  pub containers : List (Container Q)

-- A nil map of labels is `none`.
pub record Node (Q : Type 0) : Type 0 where
  pub name : String
  pub labels : Option (Dict String String)
  pub provider_id : String
  -- `Status.Capacity`, `Status.Allocatable`
  pub capacity : Dict String Q
  pub allocatable : Dict String Q

-- What an informer hands to a handler as an `interface{}`.
pub data Object (Q : Type 0) : Type 0 where
  pod_object : Pod Q → Object Q
  node_object : Node Q → Object Q
  other_object : Object Q
