-- ===== src/Scheduler/Program.antt =====
-- sig-scheduler-plugins/cmd/scheduler/main.go: the scheduler with its plugins.
use flux_k8s.Base.{String, List, [], ◌∷◌, ℤ}
use flux_k8s.Scheduler.Plugin.Answers.{fluence_name}

-- `app.NewSchedulerCommand` with its `app.WithPlugin` options, and `cli.Run` with its exit code.
pub record Framework : Type 1 where
  pub PluginFactory : Type 0
  pub Command : Type 0
  pub new_scheduler_command : List (String × PluginFactory) → Command
  pub run : Command → ℤ

-- `Name` and `New` of the packages of the plugins that are not in this repository.
pub record OtherPlugins (f : Framework) : Type 0 where
  pub capacity_scheduling : String × f.PluginFactory
  pub coscheduling : String × f.PluginFactory
  pub load_variation_risk_balancing : String × f.PluginFactory
  pub network_overhead : String × f.PluginFactory
  pub topological_sort : String × f.PluginFactory
  pub node_resource_topology : String × f.PluginFactory
  pub preemption_toleration : String × f.PluginFactory
  pub target_load_packing : String × f.PluginFactory
  pub pod_state : String × f.PluginFactory
  pub qos : String × f.PluginFactory

-- `main`: the code that the program exits with. `new_fluence` is `fluence.New` as a factory.
unfoldable scheduler_main : (f : Framework) → OtherPlugins f → f.PluginFactory → ℤ
scheduler_main f others new_fluence = f.run (
    f.new_scheduler_command (
      others.capacity_scheduling
      ∷ others.coscheduling
      ∷ others.load_variation_risk_balancing
      ∷ others.network_overhead
      ∷ others.topological_sort
      ∷ others.node_resource_topology
      ∷ others.preemption_toleration
      ∷ others.target_load_packing
      ∷ others.pod_state
      ∷ others.qos
      ∷ (fluence_name, new_fluence)
      ∷ []))
