-- ===== src/Rag/Queue/Tests.antt =====
-- A queue for two documents: one is ingested, one is left when the queue is stopped.
use ai_platform_mini.Prelude.{◌≡◌, ◌≢◌, refl, true, none, some, [], Text, codes}
use ai_platform_mini.Prelude.Dict.{get, put}
use ai_platform_mini.Prelude.Results.{ok}
use ai_platform_mini.Rag.Queue.{
  completed, failed, IngestionTask, absent, waiting, new_task, IngestionQueue, new, start,
  validate_owner_key_hash, submit, queue_full, update_task, document, raises, document_invalid,
  work, discard, mark_unfinished, stop, stopped_by,
}
use ai_platform_mini.Rag.Queue.Invariant.{
  starts, submits, works, Reachable, begins, follows, status, Inv,
}
use ai_platform_mini.Rag.Queue.Kept.{Reachable-Inv}
use ai_platform_mini.Rag.Queue.Moves.{Moves, tasks_move_on}
use ai_platform_mini.Rag.Queue.Stops.{Closed, Step-Closed, stop_ends}

abbrev owner : Text
owner = codes "0123456789abcdef0123456789abcdef0123456789abcdef0123456789abcdef"

abbrev started : IngestionQueue
started = record (new 2) { accepting = true; worker = waiting }

new_starts : start (new 2) ≡ ok started
unfolding start new
new_starts = refl

abbrev one : IngestionQueue
one = (submit started "a" [] none owner 1).0

abbrev two : IngestionQueue
two = (submit one "b" [] (some "b.pdf") owner 2).0

third_is_refused : (submit two "c" [] none owner 3).1 ≡ queue_full
unfolding new submit validate_owner_key_hash put
third_is_refused = refl

abbrev begun : IngestionQueue
begun = work two (document "") 4

abbrev ingested : IngestionQueue
ingested = work begun (document "doc") 5

first_is_completed : status (get "a" ingested.tasks) ≡ some completed
unfolding new submit validate_owner_key_hash put get work update_task
first_is_completed = refl

second_is_failed : status (get "b" (stop ingested 6).tasks) ≡ some failed
unfolding new submit validate_owner_key_hash put get work update_task stop discard
second_is_failed = refl

reachable : Reachable two
unfolding new get submit validate_owner_key_hash put
reachable =
    follows (follows (follows (begins 2) (starts new_starts)) (submits "a" [] none owner 1 refl))
      (submits "b" [] (some "b.pdf") owner 2 refl)

Reachable-Inv_example : Inv two
Reachable-Inv_example = Reachable-Inv reachable

abbrev queued_task : IngestionTask
queued_task = new_task "a" none owner 1

finds_task : get "a" two.tasks ≡ some queued_task
unfolding new get submit validate_owner_key_hash put
finds_task = refl

tasks_move_on_example :
    (t' : IngestionTask) × (get "a" begun.tasks ≡ some t') × Moves queued_task t'
tasks_move_on_example = tasks_move_on reachable (works (document "") 4) "a" queued_task finds_task

stop_ends_example :
    (two.worker ≡ absent → Closed (stop two 6))
    × (two.worker ≢ absent
        → Closed (
            stopped_by (work (work (stop two 6) (document "doc") 7) (raises document_invalid) 8) 9))
stop_ends_example = stop_ends two (document "doc") (raises document_invalid) 6 7 8 9

closed : Closed (stop (new 2) 1)
unfolding new
closed = (stop_ends (new 2) (document "") (document "") 1 2 3 4).0 refl

Step-Closed_example :
    ((submit (stop (new 2) 1) "a" [] none owner 2).0.tasks ≡ (stop (new 2) 1).tasks)
    × Closed (submit (stop (new 2) 1) "a" [] none owner 2).0
unfolding stop new get mark_unfinished
Step-Closed_example = Step-Closed closed (submits "a" [] none owner 2 refl)
