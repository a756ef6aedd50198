-- ===== src/Tests/Lifecycle.antt =====
-- A run of the service: a text is submitted, and a worker runs another job.
use rag_document_processor.Prelude.{◌≡◌, refl, some, arith, [], ◌∷◌}
use rag_document_processor.Prelude.Text.{codes}
use rag_document_processor.Domain.Entities.{IngestionJob}
use rag_document_processor.Jobs.{Table, get_by_id}
use rag_document_processor.Ingest.Ports.{Ports, World}
use rag_document_processor.Ingest.Submit.{submit_text}
use rag_document_processor.Ingest.Process.{execute}
use rag_document_processor.Ingest.Lifecycle.{Reach, here, next, text_submitted, worked}
use rag_document_processor.Ingest.Results.{get_job_results}
use rag_document_processor.Sink.Emit.{with_redis}
use rag_document_processor.Sink.Read.{read}
use rag_document_processor.Ingest.Lifecycle.Streams.{get_job_results-Reach}
use rag_document_processor.Tests.Streams.{memory, memory-IsRedis, plain_codec}
use rag_document_processor.Ingest.Lifecycle.Steps.{TableStep, Step-TableStep}
use rag_document_processor.Ingest.Lifecycle.Rows.{
  RowState, Follows, Rows, RowState-Reach, Follows-Reach,
}
use rag_document_processor.Tests.Fixtures.{settings, ports, job, done_job, world, no_fields}

abbrev submitted : World ports Table
submitted = (submit_text ports settings 4 9 (codes "a" ∷ []) no_fields world).1

abbrev finished : World ports Table
finished = execute ports settings 5 6 7 submitted

abbrev run_of_two : Reach ports settings world finished
run_of_two =
    next (next here (text_submitted 4 9 (codes "a" ∷ []) no_fields)) (worked 5 6 7 (omega arith))

abbrev empty : World ports Table
empty = record world { jobs = [] }

Step-TableStep_example : TableStep world.jobs submitted.jobs
Step-TableStep_example =
    Step-TableStep ports settings world submitted (text_submitted 4 9 (codes "a" ∷ []) no_fields)

no-Rows : Rows RowState []
unfolding get_by_id
no-Rows id row found = cc

RowState-Reach_example :
    Rows RowState
      (execute ports settings 5 6 9
        (submit_text ports settings 4 9 (codes "a" ∷ []) no_fields empty).1).jobs
RowState-Reach_example =
    RowState-Reach ports settings empty
      (execute ports settings 5 6 9
        (submit_text ports settings 4 9 (codes "a" ∷ []) no_fields empty).1)
      (next (next here (text_submitted 4 9 (codes "a" ∷ []) no_fields))
        (worked 5 6 9 (omega arith)))
      no-Rows

Follows-Reach_example :
    (job' : IngestionJob) × (get_by_id 7 finished.jobs ≡ some job') × Follows job job'
unfolding get_by_id
Follows-Reach_example = Follows-Reach ports settings world finished 7 job run_of_two refl

abbrev streaming : Ports
streaming = with_redis ports memory plain_codec 10

abbrev first_world : World streaming Table
first_world = record { jobs = job ∷ done_job ∷ []; blobs = []; queue = []; sink = λ key. [] }

abbrev second_world : World streaming Table
second_world = (submit_text streaming settings 4 9 (codes "a" ∷ []) no_fields first_world).1

abbrev third_world : World streaming Table
third_world = execute streaming settings 5 6 7 second_world

get_job_results-Reach_example :
    get_job_results (read memory plain_codec) settings 8 third_world.jobs third_world.sink
    ≡ get_job_results (read memory plain_codec) settings 8 first_world.jobs first_world.sink
unfolding get_by_id
get_job_results-Reach_example =
    get_job_results-Reach ports memory plain_codec memory-IsRedis 10 settings 8 done_job first_world
      third_world (omega arith) refl refl
      (next (next here (text_submitted 4 9 (codes "a" ∷ []) no_fields))
        (worked 5 6 7 (omega arith)))
