-- ===== src/Rag/Queue/Kept.antt =====
-- Every stretch of a method of the ingestion queue (app/rag/queue.py) keeps its invariant.
use ai_platform_mini.Prelude.{refl}
use ai_platform_mini.Rag.Queue.{IngestionQueue, work}
use ai_platform_mini.Rag.Queue.Invariant.{
  Step, starts, submits, works, stops, stop_returns, Reachable, begins, follows, Inv,
}
use ai_platform_mini.Rag.Queue.Accepting.{new-Inv, start-Inv, submit-Inv}
use ai_platform_mini.Rag.Queue.Working.{advance-Inv}
use ai_platform_mini.Rag.Queue.Stopping.{stop-Inv, stopped_by-Inv}

pub Step-Inv : {q q' : IngestionQueue} → Step q q' → Inv q → Inv q'
unfolding work
Step-Inv {q} {q'} (starts h) i = start-Inv q q' i h
Step-Inv {q} (submits task_id content filename owner now n) i =
    submit-Inv q task_id content filename owner now i n
Step-Inv {q} (works x now) i = advance-Inv q q.worker x now i refl
Step-Inv {q} (stops now) i = stop-Inv q now i
Step-Inv {q} (stop_returns now) i = stopped_by-Inv q now i

-- In every state that the methods reach, in whatever order they run: the items that are queued are
-- those of the tasks with the status QUEUED, each once; the task that the worker ingests has the
-- status PROCESSING; the queue is no longer than its maximum, where it has one; and once a stop is
-- requested no task is accepted and no item is queued any more.
pub Reachable-Inv : {q : IngestionQueue} → Reachable q → Inv q
Reachable-Inv (begins n) = new-Inv n
Reachable-Inv (follows r s) = Step-Inv s (Reachable-Inv r)
