-- ===== src/Analyzer/WorkloadCost/Keys/RoundTrip.antt =====
-- Keys are taken apart as they were put together.
use Prim.Native.Char.{code}
use Prim.Native.String.{◌++◌ as append}
use Prim.Native.String.append
use text.Mathlib.TextLemmas.{append-nil, append_assoc}
use kubefin.Base.{concat, String, false, nat_eqb, [], ◌∷◌, ◌≡◌, refl, done}
use kubefin.External.Prometheus.{Labels}
use kubefin.Agent.Values
use kubefin.Analyzer.Series.{label}
use kubefin.Analyzer.WorkloadCost.Keys.{
  split_slash, generate_pod_namespace_name_key, generate_workload_namespace_name_key,
  parse_workload_namespace_name_type,
}

-- The text has no slash, as names and namespaces of Kubernetes.
abbrev pub HasNoSlash : String → Type 0
HasNoSlash String.[] = Unit {0}
HasNoSlash (String.◌∷◌ c s) = (nat_eqb (code c) 47 ≡ false) × HasNoSlash s

split_slash-HasNoSlash : (s : String) → HasNoSlash s → split_slash s ≡ s ∷ []
unfolding split_slash
split_slash-HasNoSlash String.[] h = refl
split_slash-HasNoSlash (String.◌∷◌ c s) h = rw (h.0, split_slash-HasNoSlash s h.1)

-- A slash in front.
split_slash-slash : (rest : String) → split_slash (append "/" rest) ≡ "" ∷ split_slash rest
unfolding split_slash
split_slash-slash rest = rw (append.cons "/" "" rest, append.nil rest)

split_slash-append :
    (s rest : String)
    → HasNoSlash s
    → split_slash (append s (append "/" rest)) ≡ s ∷ split_slash rest
unfolding split_slash
split_slash-append String.[] rest h = rw (append.nil (append "/" rest)) (split_slash-slash rest)
split_slash-append (String.◌∷◌ c s) rest h =
    rw (append.cons c s (append "/" rest), h.0, split_slash-append s rest h.1)

split_slash-three :
    (s t u : String)
    → HasNoSlash s
    → HasNoSlash t
    → HasNoSlash u
    → split_slash (concat (s ∷ "/" ∷ t ∷ "/" ∷ u ∷ [])) ≡ s ∷ t ∷ u ∷ []
split_slash-three s t u hs ht hu = rw (
  append-nil u,
  split_slash-append s (append t (append "/" u)) hs,
  split_slash-append t u ht,
  split_slash-HasNoSlash u hu,
)

-- The key of a workload is taken apart into its type, namespace and name, where they have no slash.
pub parse-generate_workload_namespace_name_key :
    (labels : Labels)
    → HasNoSlash (label Values.workload_type_label_key labels)
    → HasNoSlash (label Values.namespace_label_key labels)
    → HasNoSlash (label Values.workload_name_label_key labels)
    → parse_workload_namespace_name_type (generate_workload_namespace_name_key labels)
      ≡ done (
        label Values.workload_type_label_key labels,
        label Values.namespace_label_key labels,
        label Values.workload_name_label_key labels,
      )
unfolding generate_workload_namespace_name_key parse_workload_namespace_name_type
parse-generate_workload_namespace_name_key labels hk hn hw =
    rw (split_slash-three _ _ _ hk hn hw, parse_workload_namespace_name_type)

-- The same for a pod, whose type is "pod".
pub parse-generate_pod_namespace_name_key :
    (labels : Labels)
    → HasNoSlash (label Values.namespace_label_key labels)
    → HasNoSlash (label Values.pod_name_label_key labels)
    → parse_workload_namespace_name_type (generate_pod_namespace_name_key labels)
      ≡ done
          ("pod", label Values.namespace_label_key labels, label Values.pod_name_label_key labels)
unfolding generate_pod_namespace_name_key parse_workload_namespace_name_type
parse-generate_pod_namespace_name_key labels hn hp =
    let namespace = label Values.namespace_label_key labels in
    let name = label Values.pod_name_label_key labels in
    rw (
      append_assoc "pod" "/" (concat (namespace ∷ "/" ∷ name ∷ [])),
      split_slash-three "pod" namespace name (refl, (refl, (refl, tt))) hn hp,
      parse_workload_namespace_name_type,
    )
