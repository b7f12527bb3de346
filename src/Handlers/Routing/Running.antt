-- ===== src/Handlers/Routing/Running.antt =====
-- Which job a request runs, for whom and with what: src/websocket/handlers/run_job.cpp.
use cis1_webui_native_srv_cp.Prelude.{
  ◌≡◌, Bool, true, List, [], ◌∷◌, some, Option-cases, inl, inr, String, arith,
}
use cis1_webui_native_srv_cp.Managers.{ClientInfo, Context}
use cis1_webui_native_srv_cp.Managers.Cis.{Job, Task, run_job as run_job_task}
use cis1_webui_native_srv_cp.Handlers.Jobs.{param_values}
use cis1_webui_native_srv_cp.Handlers.Jobs.Params.{IsFilled, param_values-IsFilled}
use cis1_webui_native_srv_cp.Handlers.Routing.{cis_job_run, Bound, route}
use cis1_webui_native_srv_cp.Handlers.Routing.Access.{executing, in_project, granted}

module _ {W : Type 0} (b : Bound W) where
  -- A request that starts a call is that of a logged-in client who is granted the running of jobs in
  -- the project; the job was found; and the call runs it in the client's name, with a value for each
  -- parameter of the job: the first that is given under its name, or else its default, not empty.
  pub route-runs :
      (project job : String) (force : Bool) (given : List (String × String)) (ctx : Context) (w : W)
      (task : Task)
      → (route b (cis_job_run project job force given) ctx w).tasks ≡ task ∷ []
      → (info : ClientInfo) × (j : Job) × (values : List (String × String)) × (ctx.client_info
          ≡ some info)
        × ((b.cis.get_job_info project job w).1 ≡ some j)
        × (granted b info.email (b.cis.get_job_info project job w).0 executing (in_project project)
            ≡ true)
        × (task ≡ run_job_task project job force values info.email)
        × IsFilled given j.params values
  unfolding route
  route-runs project job force given ctx w task h = elim (Option-cases ctx.client_info) [
    | inl e ↦ absurd (ground (arith, h, e))
    | inr (info, client) ↦ elim (Option-cases (b.cis.get_job_info project job w).1) [
      | inl e ↦ absurd (ground (arith, h, e, client))
      | inr (j, found) ↦ elim (Option-cases (param_values given j.params)) [
        | inl e ↦ absurd (ground (arith, h, e, found, client))
        | inr (values, filled) ↦ (
          info,
          j,
          values,
          client,
          found,
          ground (arith, h, filled, found, client),
          ground (arith, h, filled, found, client),
          param_values-IsFilled given j.params values filled,
        )
      ]
    ]
  ]
