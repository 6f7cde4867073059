-- ===== src/Labels.antt =====
-- sig-scheduler-plugins/pkg/fluence/labels/labels.go: the labels that tie a pod to its group.
use Prim.Native.String.{◌++◌}
use mathlib.Core.Option.{get_or}
use flux_k8s.Base.{String, Option, none, some, str_eq, get, if◌then◌else◌}
use flux_k8s.Kube.{Labels, Pod}

abbrev pub pod_group_label : String
pod_group_label = "scheduling.x-k8s.io/pod-group"

abbrev pub pod_group_size_label : String
pod_group_size_label = "fluence.group-size"

abbrev pub pod_group_time_created : String
pod_group_time_created = "flunce.created-at"

-- `value, ok := labels[key]`; a nil map holds nothing.
unfoldable pub read_label : Labels → String → Option String
unfolding get
read_label none key = none
read_label (some m) key = get key m

unfoldable pub get_pod_group_label : Pod → String
unfolding read_label
get_pod_group_label pod = get_or (read_label pod.labels pod_group_label) ""

-- `fmt.Sprintf("%v/%v", namespace, name)`
abbrev pub namespaced : String → String → String
namespaced namespace name = namespace ++ "/" ++ name

unfoldable pub get_pod_group_full_name : Pod → String
unfolding get_pod_group_label
get_pod_group_full_name pod =
    if str_eq (get_pod_group_label pod) ""
    then ""
    else namespaced pod.namespace (get_pod_group_label pod)

unfoldable pub get_pod_group_size : Pod → String
unfolding read_label
get_pod_group_size pod = get_or (read_label pod.labels pod_group_size_label) ""

-- `GetTimeCreated`, with the present time as JSON, if it can be had.
pub get_time_created : Option String → String
get_time_created time_created = get_or time_created ""
