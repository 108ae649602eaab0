-- ===== src/Checks/Executor.antt =====
-- An executor with one request, from its submission to its answer.
use jellybean.Base.{ℕ, ◌≡◌, refl, arith, true, false, some, List, [], ◌∷◌, map, length}
use jellybean.Base.Text.{codes}
use jellybean.Base.Int.{pos}
use jellybean.Inference.Types.{InferenceRequest, InferenceResponse, no_response, cpu}
use jellybean.Model.Executor.{
  requests, Task, Executor, Batch, make, start, enter, push_round, finish_batch,
}
use jellybean.Model.Executor.System.{
  Backend, System, Reach, initial, submit, push, resume, here, then_step,
}
use jellybean.Model.Executor.Conserve.{IsConserved, Reach-IsConserved}
use jellybean.Model.Executor.Finish.{Answered, answers_for, finish_batch-Answered}

abbrev done : InferenceResponse
done = record no_response { is_ok = true; latency_ns = 40 }

length-answers : (reqs : List (InferenceRequest ℕ)) → length (map (λ r. done) reqs) ≡ length reqs
length-answers [] = refl
length-answers (r ∷ rs) = omega (arith, length-answers rs)

abbrev echo : Backend ℕ
echo = record { infer_batch = λ reqs. map (λ r. done) reqs; answers_all = length-answers }

abbrev task : Task ℕ
task = record {
  req = record {
    model_id = codes "bert";
    shape = pos 2 ∷ [];
    input = 5 ∷ 6 ∷ [];
    output_buffer = 0 ∷ 0 ∷ [];
    device = cpu;
  };
  promise = 0;
  enqueue_time = 100;
  routing_ns = 7;
}

abbrev batch : Batch ℕ
batch = (task, 30) ∷ []

finish_batch-Answered_example :
    (e' : Executor ℕ) × (finish_batch true echo.infer_batch 9 (make 2) batch ≡ some e')
    × Answered (make 2) batch (answers_for 9 batch (echo.infer_batch (requests batch))) e'
finish_batch-Answered_example = finish_batch-Answered echo true 9 (make 2) batch

abbrev started : System ℕ
unfolding start make
started = record (initial 1) { executor = start (make 1); working = [] ∷ [] }

abbrev submitted : System ℕ
unfolding enter start make
submitted = record started {
  executor = (enter true (start (make 1)) task).0;
  waiting = task ∷ [];
  next = 1;
}

abbrev queued : System ℕ
unfolding push_round enter start make
queued = record submitted { executor = (push_round false submitted.executor task).0; waiting = [] }

run : Reach echo (initial 1) queued
unfolding make start enter push_round
run =
    then_step
      (then_step (then_step here (resume (initial 1) tt refl)) (submit started task true refl))
      (push submitted [] [] task false refl)

Reach-IsConserved_example : IsConserved queued
Reach-IsConserved_example = Reach-IsConserved echo 1 run
