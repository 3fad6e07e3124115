-- ===== src/Lib.antt =====
-- A verification library for the Discord chat bot: models of the parts that carry its own
-- logic, and what is proved of them. Paths are from the repository's root.
--
-- History.antt models core/classes/history_policy.py, which decides what part of a channel's
-- history goes into a prompt: the decisions (initial_decision, window_decision,
-- state_after_refresh), HistoryStore (get, commit) and the token budget (estimate_tokens,
-- history_budget, trim_count). MessageHandler.build_messages calls them in this order under the
-- channel's lock, so reads and commits are a sequence; History/Store runs any such sequence.
--
-- Ledger.antt and its children model core/classes/sandbox_thread_inbox.py. Ledger/Intake has
-- RunLedger.deliver with the author's name and compaction, Ledger/Stages the transitions that
-- the conversation coordinator makes and the report (outcomes), Ledger/Runs the registry of
-- runs (claim_run, release_run, get_run, deliver). Every method there is synchronous, so it is
-- one step of one event loop. Ledger/Life runs any sequence of such steps from a fresh ledger,
-- and Ledger/Runs/Kept any sequence of the registry's calls.
--
-- Conversation.antt models core/classes/sandbox_conversation_store.py (build_record, save,
-- resume_preamble), which hands the report of one run to the next run in the thread.
--
-- Coordinator.antt models core/classes/sandbox_conversation.py, which stands between that
-- ledger and the model that works in the sandbox: where a call's input shows the messages
-- (input_filter), what a response commits (on_model_response) and the gate (gate, run_gated).
-- Coordinator/Words has what is read and written (parse_ids, normalize_decision, render_event),
-- Coordinator/Replies respond, _post and continuation_nudge, Coordinator/Questions ask and
-- wait_for_input. Each is one step of the event loop, but respond and ask await a send: what
-- others do to the conversation meanwhile is a function that they take (meanwhile). ask ends
-- where its wait begins and goes on in end_wait.
--
-- Progress.antt models core/classes/sandbox_progress.py: SandboxTranscript, whose blocks are
-- known by their place; Progress/Output is parse_exec_result, Progress/Render how it is drawn
-- (with trim and sandbox_task_text of core/classes/tool_embeds.py), Progress/Hooks
-- SandboxProgressHooks. A hook only begins a send or an edit of the message; its end is an
-- event of its own, so that a sequence of a run's events has any order of overlapping tool
-- calls and sends.
--
-- Queue.antt models core/classes/message_queue.py: the enqueue marks, the lock of each channel
-- and the registry of long runs, with the note that a prompt is given (in_flight_hint).
-- Queue/Calls runs any sequence of the registry's calls, Queue/Marks any sequence of requests
-- for locks.
--
-- Attachments.antt models core/classes/attachment_cache.py. A load is a task with a number, and
-- its end is a step of its own (_finish), so a sequence of steps has every order of loads,
-- their ends and invalidations; Attachments/Bytes and Attachments/Stale run such sequences.
--
-- Schedule.antt models the part of core/classes/automation_policy.py that says when a schedule
-- runs (next_run, following_run, validate_schedule, anchor_timing, followup_conflict). The
-- conversions of a time zone, which zoneinfo makes, are a parameter (Zone), of which nothing is
-- supposed.
--
-- Claims.antt, Entries.antt and Records.antt model core/classes/automation_store.py over
-- interfaces to Redis (KeyStore, Database), whose laws say what the documentation says of each
-- command. Claims has the Lua scripts (claim, release, cancel_claim, renew, claim_rule), each
-- one step, and Claims/Runs any sequence of them. Entries has the records and the commands that
-- a pipeline queues; Records has update, Records/Ends finish, and Records/Quota get, list,
-- check_quota, create and purge_terminal, each as a function from what is read to what the
-- pipeline writes, in the attempt that commits. Records/Life has any sequence of these, with
-- the poll's removal of a run, before which the poll has read the record in a step of its own.
-- All use Schedule for the next run.
--
-- Runner/Poll.antt models poll_schedules of core/classes/automation_runner.py, turn by turn,
-- and Runner.antt its execute, the run of a job's automations: the records that still stand,
-- the checks of access, the marks of what has started, the answer's messages, the results and
-- the release of the claims, with the exceptions that Discord, the model and the store raise on
-- the way, but for Redis as a mark is set. It works on the claims' KeyStore and leaves what it
-- does as a list of effects.
--
-- Guard.antt models core/classes/content_guard.py: the retries of moderate_with_openai, its
-- cache of verdicts and check_web_request. The endpoint is a function from the attempt to its
-- answer.
--
-- Egress.antt models browserservice/egress_proxy.py, the proxy between the browser and the
-- network: split_host_port, _addresses, _open and what _handle makes of a request's head. The
-- copying of bytes once a connection is open is not modelled, and a failure in it is no reply
-- of the model.
--
-- Pages.antt models split_parts and needs_browser of core/classes/web_policy.py, Replies.antt
-- the cooldown of core/classes/reply_policy.py. Of core/classes/voice_policy.py, Voice.antt
-- models VoiceHistory, Voice/Sound the weighted edit distance of phonetic keys (_key, _ratio)
-- and Voice/Wake the search for the wake phrase (_similar, match_wake) in the words of an
-- utterance, and Voice/Commands the spoken commands (parse_command).
--
-- Dict.antt is Python's dict and OrderedDict as the list of entries in insertion order,
-- Text.antt Python's str as the list of its code points, Prelude.antt the shared names.
--
-- Ids are natural numbers, since Discord's are; an anchor's bound is one below an id and so an
-- integer. A clock reading is a natural number that the method takes as an argument. Mutable
-- objects that are shared by reference are entries of a store, or of a list under their own
-- number. Loops are over lists, but for a few that take fuel: Text/Number.digits has the number
-- and one; Pages.split_loop has the text's length and takes a character in each turn, and that
-- it is enough follows from the theorem that the parts make up the text; Claims.replace_all has
-- the text's length and also takes a character in each turn; Guard.ask_endpoint needs more fuel
-- than there are retries, which a theorem shows to be enough.
--
-- The digits that are read from texts are ASCII, where Python's \d takes any. Methods of str
-- that the Unicode library decides (lower) and repr are arguments.
--
-- Not modelled: Discord, the model servers and the web, which are input and output only; the
-- typing indicator, metrics and logs, the retries of a Redis pipeline, the expiry of records,
-- the environment's settings, the prompt texts, the readers of URLs and typed times, and the
-- other services beside the core.
pub mod Prelude
pub mod Dict
pub mod Text
pub mod Attachments
pub mod Queue
pub mod Schedule
pub mod Entries
pub mod Claims
pub mod Records
pub mod Runner
pub mod Guard
pub mod Egress
pub mod Pages
pub mod Replies
pub mod Voice
pub mod History
pub mod Ledger
pub mod Conversation
pub mod Coordinator
pub mod Progress
pub mod Tests
