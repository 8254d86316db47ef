-- ===== src/Analyzer/WorkloadCost/Keys.antt =====
-- The keys of pods and workloads in pkg/analyzer/server/implementation/workload_cost.go.
pub mod RoundTrip
use Prim.Native.Char.{code}
use kubefin.Base.{
  concat, ℕ, String, nat_eqb, string_key, List, [], ◌∷◌, if◌then◌else◌, Outcome, done, panic,
}
use kubefin.External.Prometheus.{Labels}
use kubefin.Agent.Values
use kubefin.Analyzer.Series.{label}

unfoldable pub generate_pod_namespace_name_key : Labels → String
generate_pod_namespace_name_key labels =
    let namespace = label Values.namespace_label_key labels in
    let name = label Values.pod_name_label_key labels in
    concat ("pod/" ∷ namespace ∷ "/" ∷ name ∷ [])

unfoldable pub generate_workload_namespace_name_key : Labels → String
generate_workload_namespace_name_key labels =
    let workload_type = label Values.workload_type_label_key labels in
    let namespace = label Values.namespace_label_key labels in
    let name = label Values.workload_name_label_key labels in
    concat (workload_type ∷ "/" ∷ namespace ∷ "/" ∷ name ∷ [])

-- `strings.Split(s, "/")`
unfoldable pub split_slash : String → List String
split_slash String.[] = "" ∷ []
split_slash (String.◌∷◌ c s) =
    let rest = split_slash s in
    if nat_eqb (code c) 47
    then "" ∷ rest
    else elim rest [ [] ↦ String.◌∷◌ c "" ∷ [] | part ∷ parts ↦ String.◌∷◌ c part ∷ parts ]

-- The results in the order in which they are returned; an index past the parts panics.
unfoldable pub parse_workload_namespace_name_type : String → Outcome (String × String × String)
parse_workload_namespace_name_type key = elim (split_slash key) [
  | workload_type ∷ namespace ∷ name ∷ parts ↦ done (workload_type, namespace, name)
  | _ ↦ panic
]
