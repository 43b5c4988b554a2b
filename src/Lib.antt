-- ===== src/Lib.antt =====
-- A verification library for the spec kit of the platform, tools/spec-kit/src/specify_cli: its
-- workflow engine, workflows/, with its validation and its expressions; the part of its bundler,
-- bundler/, that finds, installs and removes bundles; the state of the integrations that a project
-- has, integration_state.py; and the hosts that get a token, authentication/.
--
-- A workflow is a YAML document, which `validate_workflow` checks. `execute` resolves its inputs,
-- runs its steps one after the other and keeps the run's state on disk, so that `resume` can take a
-- stopped run up again. A step's implementation returns a result that may hold nested steps, which
-- the engine then runs: once for `if` and `switch`, in rounds for `while` and `do-while`, per item
-- for `fan-out`. A step's configuration may hold expressions, which are evaluated against the
-- inputs and the results of earlier steps. The bundler looks a bundle up in a stack of catalogs,
-- resolves a bundle's manifest into a plan, installs the plan's components, rolls back what it
-- installed if one raises, and records which bundle contributed which component, so that a removal
-- takes only what no other bundle needs.
--
-- Which file models what, with paths from tools/spec-kit/src/specify_cli:
-- - Base and its children: Python's dicts, `==` on decided types, `str.strip`, `str.split`, decimal
--   texts.
-- - Value: the values of documents, their truth, `==`, and how deep dicts nest in them.
-- - Exception: the exceptions raised, and results that may be one.
-- - Workflow/Model: workflows/base.py, statuses, StepContext, StepResult.
-- - Workflow/State: `RunState` of workflows/engine.py with `save`, `load` and `append_log`; a disk
--   maps a run's id to its files. State/Document: the parts of state.json, and reading them;
--   State/Laws: loading what was saved.
-- - Workflow/Definition, Workflow/Inputs: `WorkflowDefinition`, `_resolve_inputs`, `_coerce_input`.
-- - Workflow/Engine: `_execute_steps`, with Engine/Parts. Engine/Effects: the state that it
--   changes, and its assignments as functions. Engine/Rules, Invariant, Preserves and Stable: how a
--   property of each assignment becomes one of the whole loop; Frame, History, Index, Mirror,
--   Status, Failure and Terminates use that.
-- - Workflow/Run: `execute` and `resume`. Run/Final, Run/Resume and Run/Ends: how they end.
-- - Workflow/Steps: the built-in steps, workflows/steps/; Steps/External: those that act on the
--   world, and the registry of workflows/__init__.py. Steps/Init: the init step. Steps/Validate:
--   their `validate`.
-- - Workflow/Validation: `validate_workflow` and `_validate_steps` of workflows/engine.py;
--   Problems: what is checked outside the steps. The other children say what holds of a workflow
--   without problems.
-- - Workflow/Expressions: workflows/expressions.py, by its parts. Filters, Operators, Paths, Simple
--   and Template hold the code, Sizes, Runs and Total the fuel, Reference and Variables what a path
--   and a template give, Evaluator its use as the evaluator of the steps.
-- - Bundle/Component, Manifest, Records, Conflict, Resolver, Installer: bundler/models/manifest.py,
--   records.py and bundler/services/conflict.py, resolver.py, installer.py. Installer/Lawful says
--   what is relied on in the installer of components, the protocol `PrimitiveInstaller`.
--   Records/Refines: the records as a map.
-- - Bundle/Catalog, CatalogStack: bundler/models/catalog.py and bundler/services/catalog_stack.py.
--   CatalogStack/Order and Sorted: the order of the sources; Precedence: at which one a bundle is
--   resolved.
-- - Integration/State: integration_state.py without its reading and writing of files. State/Keys
--   and State/Normal: the keys, and what is read from a normalized state.
-- - Authentication/Hosts, Config: authentication/http.py and config.py; Matching and Named: which
--   entries a host gets.
-- - Demo and Examples: small inputs at which the theorems are applied.
--
-- How state and control are modelled. The engine's state is the record `Machine`: the context and
-- the run's state, which the Python code shares by reference, the disk, and a world that stands for
-- what lies outside the program. A statement is an `Action`, which ends by going on, by an early
-- return, by an exception or by an interrupt; `⨾` puts two in a row. A function that may raise
-- returns a `Result`. The recursion of `_execute_steps` is on fuel, which bounds how deep its calls
-- nest: the depth of the steps is enough. Validation has the depth of the steps as its fuel too,
-- and the evaluator the length of the expression, since each part that it evaluates is shorter.
--
-- Parameters. The evaluator of the steps, which Workflow/Expressions/Evaluator fills, `json.loads`,
-- the terminal, the shell, the integrations' command lines, the directories and the command line of
-- the program itself that the init step uses, the text of a fresh id, the environment and the
-- installed workflows are parameters of the workflow part; of the bundler, `is_semver`, `satisfies`
-- and the reading and writing of files in bundler/lib, which the repository does not hold, the
-- fetcher of catalogs, the installer of components, and the time of day.
--
-- What is left out. Timestamps; floats, so that a number input is a whole number of at most 2 ^ 53;
-- step ids that are no text, which validation refuses, and other uses of types that the engine does
-- not expect, where the model returns `unmodelled`; the texts of errors, which are abbreviated;
-- failing writes. Dicts are values here: the sharing of a dict matters only where a fan-out's
-- template reuses the id of the fan-out. `on_step_start` is unset. Custom steps, the search of
-- catalogs, the other catalogs, the installation of integrations, tokens and requests, and the
-- command line are not modelled. Of texts: those of lists, dicts and floats, letters and digits of
-- other scripts in the patterns, and host names that are not ASCII. `fnmatch` is modelled as it is
-- on POSIX, brackets included.
pub mod Base
pub mod Value
pub mod Exception
pub mod Workflow
pub mod Bundle
pub mod Integration
pub mod Authentication
