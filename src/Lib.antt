-- ===== src/Lib.antt =====
-- The bulk processing service: HTML documents are sent to a merge job over HTTP, each is rendered to
-- a PDF by WeasyPrint, and at the end they are merged into one file. These modules model the
-- service's own logic in app/ and prove what it promises.
--
-- The parts and their files:
--   Models        app/models.py, the data of jobs and requests; Aliases are their names in JSON
--   Storage       what is kept on disk and in memory: the directories of the jobs by their paths, the
--                 locks of this process and of other replicas; an operation is a function from the
--                 storage to an outcome (returns, raises or waits for a lock) and the new storage
--   Paths         app/job_manager.py, `_job_dir`, and the settings and libraries (`Host`)
--   Locks         app/job_manager.py, `_thread_lock`, `_job_lock`, `_try_job_lock`
--   Locks.Threads the same locks, an access at a time, for the threads of many replicas, with what is
--                 done under them as a parameter
--   JobManager    app/job_manager.py, the operations of `JobManager`; Batch is their specification
--                 without files, Refinement and Frame relate the two and the jobs to each other;
--                 Concurrent is what is done under the lock, a file access at a time, and Alone
--                 relates it to the operations
--   PdfMerger     app/pdf_merger.py over the objects of pikepdf: ParentTree, PageKeys, Prune, Structures
--                 and EmbeddedFiles are its parts, Merge puts documents together; Jobs relates the merge
--                 to the job that is finished with it
--   Cleanup       app/cleanup.py, the sweep of expired jobs; Laws and Contention are about one job, Sweep
--                 is about all of them; Ttl is `parse_ttl`
--   PolarionAuth  app/polarion_auth.py, the tokens of Polarion and whom a job opens for; KeySet
--                 and HostHeader are how its key set is asked for and cleaned, Setup is
--                 `build_verifier`
--   Auth          app/auth.py, the optional API key
--   WeasyprintClient  app/weasyprint_client.py, the requests that render HTML
--   CoverPage     app/pdf_merger.py, `resolve_cover_page_placeholders`
--   Disposition   app/converter_controller.py, the file name in the headers of a result
--   Controller    app/converter_controller.py, the handlers of the endpoints; Forms is the one whose
--                 request is a form
--   BodyLimit     app/app.py, `BodySizeLimitMiddleware`
--   Probes        app/app.py, `/health` and `/ready`
--   Settings      app/constants.py, `get_request_body_limit_bytes`; Constants are the other settings,
--                 and Logging is `setup_logging`
--   LogText       app/constants.py, `sanitize_for_log`
--   Startup       app/application.py; Lifespan is the start of app/app.py, and its version
--   Tls           app/tls.py, `get_tls_options`; Material is `load_tls_options`
--   Strings       the methods of Python's `str` that these use
--   Base, Tests   shared helpers; runs at concrete inputs
--
-- A handler asks `get_authorized_job` first, which asks `may_use_job`, and then calls the operations
-- of the job manager. Those take the lock of the job, read its metadata, change its files and write
-- the metadata again. The sweep takes the lock only where it is free.
--
-- A text is the list of its code points. A time is a number of microseconds from a fixed instant, or
-- of seconds for tokens, and the clock is an argument. In `JobManager`, an operation runs without
-- interruption, but locks that others hold are in the storage and stop it. In `Locks.Threads`, the
-- accesses of any number of threads to one job are interleaved, calls may fail between any two of
-- them, and a deletion may come in at any time; `JobManager.Concurrent` keeps a log of the calls
-- there, which is no data of the program. Loops run over lists; the substitution of
-- placeholders runs for as many rounds as the text has characters, and each round takes one.
--
-- A merge reads the documents of a job, and adds each to the first one, with its pages, its part of the
-- structure and its embedded files. A document is what the merge looks into: its pages with their
-- keys into the parent tree, the structure, the name tree of the embedded files, and a few entries of
-- the catalog. Trees are trees here, without a node that stands in two places, keys are natural
-- numbers, and an object that is only passed on is opaque. The search for a free name runs for one
-- round more than there are names taken.
--
-- Parameters, since they are libraries: `os.path.realpath`, Pydantic's writing and reading of
-- metadata, PyJWT with its client, SHA-256, the HTTP client, the environment with the file system
-- that the TLS options ask, `load_cert_chain`, the decimal digits of Unicode, `float`, `str.upper` and
-- the levels of the logging module, and pikepdf and pypdf:
-- opening, saving and copying, of which the theorems assume that numbers, texts and arrays are read
-- back as they were written, and that the copy of a page keeps its keys and what it shows. Handlers
-- take the page count and the cover page put in place as arguments of which nothing is assumed.
--
-- Not modelled: the registration of the routes and of the dependencies, the parsing of requests and
-- the writing of responses by FastAPI, Starlette and Pydantic, uvicorn and asyncio, and the log lines
-- other than those of the start. The timer of the sweep is the list of the times at which it goes off.
pub mod Base
pub mod Strings
pub mod Results
pub mod PdfMerger
pub mod CoverPage
pub mod Disposition
pub mod Models
pub mod PolarionAuth
pub mod WeasyprintClient
pub mod Auth
pub mod LogText
pub mod BodyLimit
pub mod Settings
pub mod Startup
pub mod Probes
pub mod Tls
pub mod Cleanup
pub mod Controller
pub mod Storage
pub mod Paths
pub mod Locks
pub mod JobManager
mod Tests
