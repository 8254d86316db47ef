-- ===== src/Analyzer/Query/Selectors.antt =====
-- What a request's cluster makes of the selectors of pkg/analyzer/query/promql.go, into which it is put as
-- it is.
use kubefin.Base.{String, ◌≡◌}
use Prim.Native.String.{◌++◌ as append}
use text.Mathlib.TextLemmas.{append-nil, append_assoc}
use kubefin.Analyzer.Query.Promql.{ql_cluster_activity}

two_selectors :
    (left right middle c d : String)
    → append left
        (append (append c (append right (append middle (append left d)))) (append right ""))
      ≡ append
          (append left (append c (append right "")))
          (append middle (append left (append d (append right ""))))
two_selectors left right middle c d = simp (append_assoc, append-nil)

-- The identity of a cluster is not quoted: one that closes the selector and opens another, with "or" between
-- them, makes the query of one cluster the union of the queries of two.
pub ql_cluster_activity-append :
    (c d : String)
    → ql_cluster_activity
        (append c (append "'}" (append " or " (append "kubefin_cluster_active{cluster_id='" d))))
      ≡ append (ql_cluster_activity c) (append " or " (ql_cluster_activity d))
unfolding ql_cluster_activity
ql_cluster_activity-append c d = two_selectors "kubefin_cluster_active{cluster_id='" "'}" " or " c d
