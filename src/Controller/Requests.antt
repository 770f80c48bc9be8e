-- ===== src/Controller/Requests.antt =====
-- control/controller.go: what a user asks of a job, and the order in which the controller serves it.
use weibo.Base.{Bool, not, Option, none, some, List, [], ◌∷◌, ◌++◌, if◌then◌else◌, codes, ◌||◌}
use weibo.Base.Int.{pos}
use weibo.State.{Bytes, bytes_key}
use weibo.Lifecycle.{running, cancelling, cancelled}
use weibo.Controller.{
  Controller, desired_running, desired_stopped, SecretRef, Run, JobState, Operation, ok, Error,
  invalid, also, done, fail, handle_both, ignore, when, ◌>>=◌, ◌>>◌, is_empty,
}
use weibo.Controller.Store.{
  get_job, set_desired, list_runs, latest_run, update_run, append_transition, delete_job, is_active,
}
use weibo.Controller.Backend.{stop_container, remove_container, delete_job_data, container_status}
use weibo.Controller.Launch.{error_text, start_run}
use weibo.Controller.Endings.{finish_run}
use weibo.Controller.Reconcile.{reconcile}
use weibo.Controller.Submissions.{submit}

-- `restarted` is a new process of the controller: the secrets in memory are gone.
pub data Request : Type 0 where
  ask_submit : Bytes → List (Bytes × Bytes) → List (Bytes × SecretRef) → Request
  ask_cancel : Request
  ask_restart : Request
  ask_restart_from : Bytes → Request
  ask_delete : Bool → Request
  ask_savepoint : Bytes → Request
  ask_reconcile : Request
  restarted : Request

abbrev pub or_error : List Error → Operation (Unit {0}) → Operation (List Error)
or_error errs m = handle_both m (λ _. done errs) (λ e. done (errs ++ e ∷ []))

abbrev pub join_errors : Error → List Error → Error
join_errors e [] = e
join_errors e (f ∷ es) = also e (join_errors f es)

module _ (c : Controller) where
  open c.outside use {now, new_id, savepoint_accepted, parse_sdk_manifest, parse_quantity, compile}

  abbrev pub cancel_run : Option Run → Operation (Unit {0})
  cancel_run none = done tt
  cancel_run (some r) =
      if is_active r
      then handle_both (stop_container c r.container_id)
          (λ _. finish_run c r r.phase cancelled (codes "user cancel"))
          (λ e. update_run c (record r { error = error_text e }) >> fail e)
      else done tt

  unfoldable pub cancel : Operation (Unit {0})
  cancel = get_job c >>= λ job. set_desired c desired_stopped >> (latest_run c >>= cancel_run)

  abbrev pub stop_old : Option Run → Operation (Unit {0})
  stop_old none = done tt
  stop_old (some r) =
      if is_active r
      then stop_container c r.container_id
        >> when (not (is_empty r.container_id)) (ignore (remove_container c r.container_id))
        >> finish_run c r r.phase cancelled (codes "restart")
      else done tt

  unfoldable pub do_restart : Bytes → Operation (Unit {0})
  do_restart restore = get_job c >>= λ job.
      (latest_run c >>= stop_old)
      >> set_desired c desired_running
      >> start_run c job (pos 1) restore

  unfoldable pub restart_from_savepoint : Bytes → Operation (Unit {0})
  restart_from_savepoint label =
      if is_empty label
      then fail (invalid (codes "restart: empty savepoint label"))
      else do_restart label

  -- Stopped if it may run, then removed.
  unfoldable pub delete_container : List Error → Run → Operation (List Error)
  delete_container errs r =
      if is_empty r.container_id
      then done errs
      else (or_error errs (when (is_active r) (stop_container c r.container_id)) >>= λ errs'.
          or_error errs' (remove_container c r.container_id))

  -- The errors are collected.
  unfoldable pub delete_containers : List Error → List Run → Operation (List Error)
  delete_containers errs [] = done errs
  delete_containers errs (r ∷ rs) = delete_container errs r >>= λ errs'. delete_containers errs' rs

  abbrev pub delete_rows : Bool → List Error → Operation (Unit {0})
  delete_rows delete_data (e ∷ es) = fail (join_errors e es)
  delete_rows delete_data [] =
      when delete_data (delete_job_data c)
      >> (λ s. (ok tt, record s { secrets = [] }))
      >> delete_job c

  unfoldable pub delete_with_options : Bool → Operation (Unit {0})
  delete_with_options delete_data =
      get_job c >>= λ job. list_runs c >>= delete_containers [] >>= delete_rows delete_data

  abbrev pub address_of : Option Run → Operation Bytes
  address_of none = done []
  address_of (some r) =
      if is_empty r.container_id || not (is_active r)
      then done []
      else (container_status c r.container_id >>= λ st. done st.address)

  unfoldable pub control_address : Operation Bytes
  control_address = latest_run c >>= address_of

  abbrev pub drained : Bytes → Operation (Unit {0})
  drained label = set_desired c desired_stopped >> (λ s.
      append_transition c
        (record {
          run_id = [];
          from = some running;
          to = cancelling;
          reason = codes "savepoint: " ++ label;
          at = now s.calls;
        })
        s)

  abbrev pub trigger_savepoint : Bytes → Bytes → Operation (Unit {0})
  trigger_savepoint label address s =
      if is_empty address
      then fail (invalid (codes "savepoint: no running control surface")) s
      else if savepoint_accepted s.calls address label
      then drained label s
      else fail (invalid (codes "savepoint: not accepted by the agent")) s

  unfoldable pub savepoint : Bytes → Operation (Unit {0})
  savepoint label =
      if is_empty label
      then fail (invalid (codes "savepoint: empty label"))
      else (control_address >>= trigger_savepoint label)

  abbrev pub serve : Request → Operation (Unit {0})
  serve (ask_submit doc env refs) s = submit c doc env refs s
  serve ask_cancel s = cancel s
  serve ask_restart s = do_restart [] s
  serve (ask_restart_from label) s = restart_from_savepoint label s
  serve (ask_delete delete_data) s = delete_with_options delete_data s
  serve (ask_savepoint label) s = savepoint label s
  serve ask_reconcile s = reconcile c s
  serve restarted s = (ok tt, record s { secrets = [] })

  unfoldable pub serve_all : List Request → JobState → JobState
  serve_all [] s = s
  serve_all (q ∷ qs) s = serve_all qs (serve q s).1

-- A job that nobody has submitted.
abbrev pub no_job_yet : JobState
no_job_yet = record {
  job = none;
  runs = [];
  transitions = [];
  secrets = [];
  live = [];
  orphans = [];
  most_live = 0;
  launches = [];
  calls = 0;
}
