-- ===== src/Workflow/Run/Resume.antt =====
-- Resuming the run that `execute` left.
use alharistech_platform.Base.{
  ℕ, String, ◌≡◌, refl, sym, ap, subst, ◌∙◌, true, Option, none, some, arith, string_eq,
  if◌then◌else◌, [],
}
use alharistech_platform.Base.Dict
use alharistech_platform.Value.{Value, Items, Fields, end, dict, list, drop_items}
use alharistech_platform.Workflow.Model.{RunStatus, Exn, Result, ok, err, value_error}
use alharistech_platform.Workflow.State.{
  RunState, Event, Disk, files_of, load, new_run_state, append_log, matches_run_id_pattern,
  validate_run_id,
}
use alharistech_platform.Workflow.State.Laws.{
  state_of-state_document, files_of-save, files_of-append_log,
}
use alharistech_platform.Workflow.Definition.{Definition, definition_of, definition_of_document}
use alharistech_platform.Workflow.Inputs.{resolve_inputs}
use alharistech_platform.Workflow.Engine.{elements}
use alharistech_platform.Workflow.Engine.Effects.{
  Machine, Flow, next, stop, raised, interrupted, saved, logged, with_status, Outcome,
}
use alharistech_platform.Workflow.Engine.Frame.{execute_steps-SameFrame}
use alharistech_platform.Workflow.Run.{
  Engine, Ended, run_from, close, close_interrupted, close_failed, finish_run, finish_outcome,
  start_machine, execute, execute_created, execute_resolved, resume, resume_loaded, resume_defined,
  resume_with, resume_sliced, document_of, updated_inputs, slice_steps, store_workflow, resumable,
  refused,
}
use alharistech_platform.Workflow.Run.Final.{execute-Recorded, created, Recorded}

workflow-store_workflow :
    (run_id : String) (doc : Value) (disk : Disk Value)
    → (files_of (store_workflow run_id doc disk) run_id).workflow ≡ some doc
unfolding store_workflow files_of
workflow-store_workflow run_id doc disk =
    ground (
      arith,
      Dict.get-put disk run_id run_id (record (files_of disk run_id) { workflow = some doc }),
    )

module _ {W : Type 0} where
  -- The run's copy of its document.
  abbrev Copy : String → Value → Machine Value W → Type 0
  Copy run_id doc m = (m.state.run_id ≡ run_id) × ((files_of m.disk run_id).workflow ≡ some doc)

  Copy-saved :
      (run_id : String) (doc : Value) (m : Machine Value W)
      → Copy run_id doc m
      → Copy run_id doc (saved m)
  unfolding saved
  Copy-saved run_id doc m h = (h.0, ground (arith, h.0, h.1, files_of-save m.state m.disk run_id))

  Copy-logged :
      (run_id : String) (doc : Value) (e : Event) (m : Machine Value W)
      → Copy run_id doc m
      → Copy run_id doc (logged e m)
  unfolding logged append_log
  Copy-logged run_id doc e m h =
      (h.0, ground (arith, h.0, h.1, files_of-append_log e m.state m.disk run_id))

  Copy-with_status :
      (run_id : String) (doc : Value) (st : RunStatus) (m : Machine Value W)
      → Copy run_id doc m
      → Copy run_id doc (with_status st m)
  unfolding with_status
  Copy-with_status run_id doc st m h = h

  Copy-finish_run :
      (run_id : String) (doc : Value) (event : Exn → Event) (fl : Flow) (m : Machine Value W)
      → Copy run_id doc m
      → (files_of (finish_run event fl m).disk run_id).workflow ≡ some doc
  unfolding finish_run close close_interrupted close_failed
  Copy-finish_run run_id doc event next m h =
      (Copy-saved run_id doc _ (Copy-logged run_id doc _ _ (Copy-with_status run_id doc _ m h))).1
  Copy-finish_run run_id doc event stop m h =
      (Copy-saved run_id doc _ (Copy-logged run_id doc _ _ (Copy-with_status run_id doc _ m h))).1
  Copy-finish_run run_id doc event interrupted m h =
      (Copy-saved run_id doc _ (Copy-logged run_id doc _ _ (Copy-with_status run_id doc _ m h))).1
  Copy-finish_run run_id doc event (raised e) m h =
      (Copy-saved run_id doc _ (Copy-logged run_id doc _ _ (Copy-with_status run_id doc _ m h))).1

  Copy-run_from :
      (run_id : String) (doc : Value) (eng : Engine W) (f : ℕ) (o : Result Items) (i : ℕ)
      (m m' : Machine Value W) (fl : Flow)
      → Copy run_id doc m
      → run_from eng f o i m ≡ some (fl, m')
      → Copy run_id doc m'
  unfolding run_from
  Copy-run_from run_id doc eng f (err x) i m m' fl h e = ground arith
  Copy-run_from run_id doc eng f (ok steps) i m m' fl h e =
      let frame = execute_steps-SameFrame eng.host f steps (some i) m m' fl e in
      (frame.run_id ∙ h.0, rw h.0 at frame.workflow ∙ h.1)

  Copy-finish_outcome :
      (run_id : String) (doc : Value) (event : Exn → Event) (o : Outcome Value W) (x : Ended W)
      → ((fl : Flow) (m : Machine Value W) → o ≡ some (fl, m) → Copy run_id doc m)
      → finish_outcome event o ≡ some x
      → (files_of x.disk run_id).workflow ≡ some doc
  unfolding finish_outcome
  Copy-finish_outcome run_id doc event none x h e = absurd (cc)
  Copy-finish_outcome run_id doc event (some (fl, m)) x h e =
      let e' : finish_run event fl m ≡ x = ground arith in
      subst (λ y. (files_of y.disk run_id).workflow ≡ some doc) e'
        (Copy-finish_run run_id doc event fl m (h fl m refl))

  Copy-start :
      (eng : Engine W) (d : Definition) (s : RunState) (disk : Disk Value) (w : W) (doc : Value)
      → Copy s.run_id doc (start_machine eng d s (store_workflow s.run_id doc disk) w)
  unfolding start_machine
  Copy-start eng d s disk w doc =
      Copy-saved s.run_id doc _ (refl, workflow-store_workflow s.run_id doc disk)

created_matches :
    (fresh : String) (id : Option String) (wf : Value) (s : RunState)
    → new_run_state fresh id wf ≡ ok s
    → matches_run_id_pattern s.run_id ≡ true
unfolding new_run_state validate_run_id
created_matches fresh none wf s e = ground arith
created_matches fresh (some id) wf s e = ground arith

load-Recorded :
    (s : RunState) (disk : Disk Value) (run_id : String)
    → matches_run_id_pattern run_id ≡ true
    → Recorded run_id (ok s) disk
    → load run_id disk ≡ ok (record s { log_entries = [] })
unfolding load validate_run_id
load-Recorded s disk run_id p h = ground (
  arith,
  h.1,
  h.2,
  h.3,
  state_of-state_document s (subst (λ r. matches_run_id_pattern r ≡ true) (sym h.1) p),
)

resume_loaded-eq :
    {W : Type 0} (eng : Engine W) (g : ℕ) (run_id : String) (disk : Disk Value) (w : W)
    (s : RunState) (d : Definition) (steps : Items)
    → (files_of disk run_id).workflow ≡ some (dict d.data_)
    → definition_of d.data_ ≡ ok d
    → d.steps ≡ list steps
    → resume_loaded eng g run_id end disk w (ok s) ≡ (
        if resumable s.status
        then finish_outcome Event.resume_failed (
            run_from eng g
              (ok (drop_items s.current_step_index steps))
              s.current_step_index
              (start_machine eng d s disk w))
        else refused (value_error "Cannot resume run") disk w)
unfolding resume_loaded
resume_loaded-eq eng g run_id disk w s d steps copy parsed listed =
    ap (λ o. if resumable s.status then o else refused (value_error "Cannot resume run") disk w)
      (ap (λ c. resume_defined eng g end s disk w (document_of eng s c)) copy ∙ defined)
  where
    defined :
        resume_defined eng g end s disk w (document_of eng s (some (dict d.data_)))
        ≡ finish_outcome Event.resume_failed (
            run_from eng g
              (ok (drop_items s.current_step_index steps))
              s.current_step_index
              (start_machine eng d s disk w))
    defined =
        unfold document_of definition_of_document resume_defined resume_with resume_sliced
          updated_inputs slice_steps in
        rw (parsed, resume_defined, listed, slice_steps)

module _ {W : Type 0} (eng : Engine W) (f : ℕ) (d : Definition) (inputs : Fields)
    (run_id : Option String) (disk : Disk Value) (w : W) (s₀ s : RunState) (ins : Fields)
    (x : Ended W) (steps : Items) (made : created eng f d inputs run_id disk w ≡ ok s₀)
    (resolved : resolve_inputs eng.project_integration d.inputs inputs ≡ ok ins)
    (ran : execute eng f d inputs run_id disk w ≡ some x) (gave : x.result ≡ ok s)
    (parsed : definition_of d.data_ ≡ ok d) (listed : d.steps ≡ list steps) where
  copied : (files_of x.disk s₀.run_id).workflow ≡ some (dict d.data_)
  unfolding execute execute_created execute_resolved
  copied =
      Copy-finish_outcome s₀.run_id (dict d.data_) Event.workflow_failed _ x
        (λ fl m e.
          Copy-run_from s₀.run_id (dict d.data_) eng f (elements d.steps) 0 _ m fl
            (Copy-start eng d (record s₀ { inputs = ins }) disk w (dict d.data_)) e)
        (rw (made, execute_created, resolved, execute_resolved) at ran)

  recorded : Recorded s₀.run_id (ok s) x.disk
  recorded =
      subst (λ r. Recorded s₀.run_id r x.disk) gave
        (execute-Recorded eng f d inputs run_id disk w s₀ ins x made resolved ran)

  loaded : load s.run_id x.disk ≡ ok (record s { log_entries = [] })
  loaded =
      subst (λ r. load r x.disk ≡ ok (record s { log_entries = [] })) (sym recorded.1)
        (load-Recorded s x.disk s₀.run_id (created_matches _ _ _ s₀ made) recorded)

  -- After `execute` returned with PAUSED or FAILED, a resume with no new inputs runs the rest of the
  -- same definition's steps, from the step at which the run stopped, with the results and inputs that
  -- the run had. After any other status it is refused and changes nothing.
  pub resume-execute :
      (eng' : Engine W) (g : ℕ) (w' : W)
      → resume eng' g s.run_id end x.disk w' ≡ (
          if resumable s.status
          then finish_outcome Event.resume_failed (
              run_from eng' g
                (ok (drop_items s.current_step_index steps))
                s.current_step_index
                (start_machine eng' d (record s { log_entries = [] }) x.disk w'))
          else refused (value_error "Cannot resume run") x.disk w')
  unfolding resume
  resume-execute eng' g w' =
      ap (resume_loaded eng' g s.run_id end x.disk w') loaded
      ∙ resume_loaded-eq eng' g s.run_id x.disk w' (record s { log_entries = [] }) d steps
          (subst (λ r. (files_of x.disk r).workflow ≡ some (dict d.data_)) (sym recorded.1) copied)
          parsed listed
