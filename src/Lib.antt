-- ===== src/Lib.antt =====
-- A verification library of badgerdoc's annotation and pipelines services: the distribution of the pages of a
-- job's files among its annotators and validators, annotation/annotation/distribution/main.py; what a new
-- distribution of a job does with its old tasks, and the creation and deletion of tasks,
-- annotation/annotation/jobs/services.py; the saving and reading of the annotations of a file,
-- annotation/annotation/annotations; and the execution of pipelines, pipelines/pipelines/execution.py.
--
-- The program. A job has files, and each file has pages. The distribution turns the files, with the
-- pages of each that are not yet distributed, and the users, with their default and overall loads, into
-- tasks: a task gives at most 50 pages of one file to one user, for annotation or for validation. First
-- calculate_users_load divides the number of pages among the users. Then distribute_whole_files gives
-- each user whole files. What is left goes out page by page, to annotators by
-- distribute_annotation_partial_files and to validators by distribute_validation_partial_files.
-- distribute_tasks_extensively gives each page to several annotators. distribute_tasks puts the rest
-- together. With cross-validation the annotators are the validators, and
-- find_annotated_pages says what each of them may not validate. Before a job is distributed again,
-- get_tasks_to_delete chooses the old tasks to delete and get_pages_in_work collects the pages of the rest,
-- which remove_pages_in_work takes out of the new tasks; afterwards set_task_statuses decides which of the
-- pending tasks are ready. When tasks are created, deleted or finished, the distributed pages of the files and
-- the overall loads of their users are calculated again. When an agreement score is reached, finish_task also
-- finishes the validation tasks of the file, by finish_validation_task, without the loads of their users.
--
-- The users then save revisions. A revision is made for one file in a job, and holds the hashes of the
-- annotated pages, the pages that are validated and those that failed. post_annotation_by_user checks that
-- the task and its pages are the user's and starts the task; post_annotation_by_pipeline has no task.
-- Both let construct_annotated_doc add the revision to the database and its pages to the object storage, each
-- page under its hash. What a file's pages are like is read from all revisions: accumulate_pages_info gives
-- the status of each page, find_latest_revision_pages and find_all_revisions_pages give what each user has
-- made of it, and the handlers that read annotations load the pages again. finish_task first checks what a
-- validator has done with the pages of a task.
--
-- The pipelines service runs the steps of a pipeline for a file, pipelines/pipelines/execution.py and
-- pipeline_runner.py. initialize_execution makes a row for each step; start sends the first step to its model by
-- Kafka, and process_message takes the answers, starts the next steps, and finishes the task.
--
-- The files.
--   Base                       names of the library, calls with exceptions, lists, integers
--   Distribution/Types         the dicts of files, users and tasks, and what is counted of them
--   Distribution/Unassigned    find_unassigned_files, check_file_distribution, find_unassigned_pages,
--                              add_unassigned_file
--   Distribution/Combination   find_pages_combination
--   Distribution/Files         find_files_for_task, find_equal_files, find_small_files
--   Distribution/Tasks         create_tasks, and the loop that cuts pages into tasks
--   Distribution/Annotated     find_annotated_pages
--   Distribution/Loads         what is counted of the loads
--   Distribution/Load          calculate_users_load, find_users_share_loads
--   Distribution/Whole         distribute_whole_files
--   Distribution/Partial       distribute_annotation_partial_files
--   Distribution/Validation    distribute_validation_partial_files, create_partial_validation_tasks,
--                              filter_validation_files_pages
--   Distribution/Extensive     distribute_tasks_extensively
--   Distribution/Run           distribute_tasks, choose_validators_users
--   Jobs                       get_tasks_to_delete, get_pages_in_work
--   Jobs/Statuses              set_task_statuses
--   Jobs/Removal               remove_pages_in_work
--   Jobs/Books                 create_tasks of annotation/annotation/tasks/services.py, update_files,
--                              update_user_overall_load, recalculate_file_pages, delete_tasks,
--                              delete_tasks_for_removed_users, finish_validation_task and the end of
--                              finish_task
--   Actions                    code that changes a state and may raise, and what holds after it
--   Base/Dict                  Python's dicts
--   Annotations/Types          AnnotatedDoc, and strings
--   Annotations/Accumulate     accumulate_pages_info
--   Annotations/Pages          find_latest_revision_pages, find_all_revisions_pages
--   Annotations/Tables         the tables, the object storage and the services
--   Annotations/Save           construct_annotated_doc, get_pages_sha, check_docs_identity,
--                              upload_pages_to_minio, create_manifest_json
--   Annotations/Request        DocForSaveSchema with its validators, check_null_fields
--   Annotations/Post           post_annotation_by_user, post_annotation_by_pipeline, check_task_pages,
--                              update_task_status
--   Annotations/Read           load_page, load_all_revisions_pages, load_latest_revision_pages,
--                              construct_particular_rev_response
--   Annotations/Handlers       get_latest_revision_by_user, get_annotations_up_to_given_revision,
--                              get_annotation_for_given_revision, get_all_revisions
--   Pipelines/Arguments        InputArguments of pipelines/pipelines/schemas.py
--   Pipelines/Graph            PipelineStep, Pipeline, get_step_parent, the rows of initialize_execution
--   Pipelines/Tables           ExecutionStep's queries, check_preprocessing_status
--   Pipelines/Execution        the coroutines of ExecutionStep and PipelineTask, process_message
--   Tasks/Finish               the checks of finish_task, get_task_revisions, validate_user_actions
--   Tests                      runs on small inputs, and each theorem at an input
-- A component's file holds the definitions; the files below it hold the proofs.
--
-- Conventions. A function that changes its arguments returns the changed values, in place of appending
-- to a list of tasks it returns the tasks to append. An exception is `raises` of a Call: IndexError,
-- StopIteration and ZeroDivisionError. FilesForUserFoundException, by which find_pages_combination
-- leaves its recursion, is `some`. The dicts of files are shared between the lists of files, so a change
-- of one is a change in the list (store_item), by the file's id. A load is an integer, since the
-- corrections of calculate_users_load can make it negative; numbers of pages are natural numbers. Python's
-- integers are not bounded, so nothing wraps around.
--
-- A string is the list of its characters' codes. A dict is the list of its items in the order of insertion;
-- the keys of the JSON dict of a revision's pages are decimal numbers and stand as numbers. A set is a list
-- whose order plays no part. The rows of annotated_docs are in the order of their dates, which are numbers.
-- The handlers are Actions over a Store of the tables, the objects and the messages to the search service;
-- what is changed before an exception stays changed. The detail of an HTTPException is left out.
--
-- The pipelines run as events: a coroutine of the event loop runs to its end, or a model answers a message, in
-- any order. The ids of steps are strings that are only compared, and stand as numbers. Only the rows of one task
-- are there.
--
-- Parameters. What pydantic reads of a dict and writes to it, urljoin, str, Python's white space, the dict of an
-- error and the configured retries are a record of functions for the pipelines, Arguments' Services, of which
-- nothing is assumed. The JSON and UTF-8 encoders, SHA-1, the constraints of the database, the buckets, the assets
-- service and SQL's IN are a record of functions, Annotations' Services; only the theorem on loading assumes
-- something of them (IsFaithful). Python's floats are a record of operations, FloatOps, of which nothing is assumed; the
-- conversion of an int is the one of the runtime. The order in which Python iterates a set of pages is a
-- function `to_set`, of which is assumed that it gives each item once (IsToSet); that of a set of tasks is
-- a function `iterate`, which gives the tasks of a list in any order (IsIterate).
--
-- Fuel. The while loop of calculate_users_load runs on fuel, one unit for each round. A round takes
-- at least one page while a user has room, so with enough users one unit more than the pages left is
-- enough. The while loop of distribute_tasks_extensively runs on fuel too: each round gives out a page or
-- drops an annotator, so one unit more than the pages and the annotators is enough, and the theorem shows that
-- it ends. All other loops recur on their lists.
--
-- Not modelled. distribute, prepare_users, prepare_response and redistribute
-- of annotation/annotation/distribution/main.py; the rest of annotation/annotation/jobs; of
-- annotation/annotation/tasks all but update_task_status, create_tasks, finish_validation_task, and the checks, the end
-- of an agreement and the update of the load in finish_task; the column links_json, the handler
-- get_jobs_by_file_id and annotation/annotation/revisions, which is one query; the categories, which are
-- stored in a database; and the services of the repository (assets, convert, jobs, models,
-- processing, scheduler, search, taxonomy, users, web) with the libraries in lib and common.
--
-- Of the pipelines service the versions and names of pipelines, the merging of results
-- (pipelines/pipelines/result_processing.py) and the status of a job are not modelled. The tenant of the bucket, the
-- service token and the posts to the webhook are taken as answered.
pub mod Base
pub mod Actions
pub mod Annotations
pub mod Distribution
pub mod Jobs
pub mod Tasks
pub mod Pipelines
mod Tests
