-- ===== src/Lib.antt =====
-- A verification library of the yt-dlp REST API: a service that accepts download requests, queues
-- them as jobs, runs a bounded number of them at once and keeps the files. The model is a shallow
-- embedding of the Python code under app/.
--
-- Parts and their files:
--   Job.antt            app/models/job.py: status, record, tests
--   JobService.antt     app/services/job_service.py: the job table, its updates, listing, cleanup
--   DownloadQueue.antt  app/services/download_queue.py: priority queue, positions, slots, gauges
--   Storage.antt        app/services/storage.py: protected files and the cleanup of the directory
--   Worker.antt         app/services/download_worker.py and the two modes of POST /download,
--                       over the three services above
--   RateLimiter.antt    app/core/rate_limiter.py: token buckets, and the middleware that asks them,
--                       app/middleware/rate_limit.py (RateLimiter/Middleware.antt)
--   Template.antt       app/core/template.py: the sanitizing of file names, unique names, the
--                       check of templates and the output paths, over code points
--   Provider.antt       app/providers/manager.py and exceptions.py: which provider a url goes to,
--                       and what a task of the worker makes of its exceptions (Provider/Worker.antt)
--   Youtube.antt        app/providers/youtube.py: the retry loop around yt-dlp, its commands (with
--                       app/utils/cookies.py), and the urls
--   Cookie.antt         app/services/cookie_service.py: cookie files, their cached check and reload
--   Webhook.antt        app/services/webhook_service.py: urls and the delivery of notifications
--   Auth.antt           app/middleware/auth.py: excluded paths and API keys
--   Transcript.antt     app/utils/transcript.py: timestamps, and transcripts as text and SRT
--   Validation.antt     app/core/validation.py: the checks of urls, format ids and parameters
--   Download.antt       app/api/download.py: the checks and the answers of POST /download, over the
--                       two modes in Worker.antt; Download/Hooks.antt has the service's steps
--   Checks.antt         app/core/checks.py: whether the programs are there, and their versions
--   Startup.antt        app/core/startup.py: the checks at the start, their decision
--                       (Startup/Validate.antt), yt-dlp's configuration (Startup/Runtime.antt),
--                       and starts one after the other (Startup/Restarts.antt)
--   Prelude.antt        shared: tests, lists, dictionaries, stable sort, integers, results, text and
--                       its code points
-- A method becomes a function of the same name from the old state to the new one (and a result or
-- an exception); the children of a file prove what it is correct for, and Tests.antt under it
-- runs it. A part uses the others through their functions, as the code does: the worker drives
-- the job table, the queue and the storage; a cleanup of jobs calls back into the storage.
--
-- Conventions. The clock is in microseconds (waits are in the code's seconds), clock readings and
-- UUIDs are arguments, and a step reads the clock once. asyncio code suspends only where it awaits
-- something that is not ready: the methods of the queue never do (their lock is never held across
-- a suspension), so each is one step, and a task of the worker is two, around the download.
-- Worker/Reach.antt has the steps of the event loop as a relation, so every interleaving is
-- covered. Dictionaries are association lists in insertion order, sets are lists without
-- repetition. Integers are unbounded, as in Python; those that cannot be negative are native
-- numbers. The rate limiter's floats are exact: tokens are counted in a unit that makes every
-- refill whole, so the rounding of its floats is not part of the model; the floats of a transcript
-- are a parameter.
--
-- Parameters, with what is assumed of them:
--   heapq: its documented contract (DownloadQueue/Heap.antt), met by the sorted list of
--     DownloadQueue/Sorted.antt;
--   cachetools' TTLCache: its documented contract (Cookie/Cache.antt), met by the dictionary of
--     Cookie/Timed.antt;
--   `Path.resolve`, `os.path.isfile`, the names in a directory, the cookie files and their times;
--   Python's `float`, `int` and `round`, and the arithmetic of the floats of a transcript;
--   the outcome of a provider's download, of each attempt to run yt-dlp, and of each post of a
--     webhook, with `urlparse`, the HMAC digest and JSON;
--   processes and files that the start looks at, and the environment;
--   Unicode's NFKC, upper and lower case, decimal digits, blanks, letters, word characters and
--     re.IGNORECASE, and the ISO text of a time. One theorem assumes that upper case keeps a leading
--     underscore, and that of "unnamed"; two that ASCII characters are told apart up to case,
--     and one of these that `=`, `/` and `.` are no word characters; two that the blank and the
--     newline are blanks, and one of these that the letters of "node" are not.
--
-- Bounds and fuel: the search for a unique file name has as much fuel as the code's safety limit
-- allows rounds; the digits of a number take one more unit of fuel than the number, which is enough
-- since each digit divides by ten. All other loops are structural.
--
-- Not modelled: logging and the global instances; what yt-dlp prints, and the metadata, formats and
-- transcripts made of it (the parsing of cues too); HTTP handlers other than POST /download,
-- configuration, and the wiring of the application; metrics other than the queue's gauges, the
-- recorded downloads and the counted deliveries.
pub mod Auth
pub mod Checks
pub mod Cookie
pub mod Download
pub mod DownloadQueue
pub mod Job
pub mod JobService
pub mod Prelude
pub mod Provider
pub mod RateLimiter
pub mod Startup
pub mod Storage
pub mod Template
pub mod Transcript
pub mod Validation
pub mod Webhook
pub mod Worker
pub mod Youtube
