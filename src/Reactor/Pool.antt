-- ===== src/Reactor/Pool.antt =====
-- `ContinuationPool` of include/jellybean/reactor/continuation_pool.hpp and
-- src/reactor/continuation_pool.cpp: its workers, and the threads that post to it, as a state machine
-- whose steps are what runs under the mutex, and the calls of the condition variable, in any order.
-- A task is a number, and ends.
pub mod Counts
pub mod Valid
pub mod Reached
pub mod Joins
use jellybean.Base.{ℕ, zero, suc, ◌+◌, ◌≡◌, Bool, true, false, List, [], ◌∷◌, ◌++◌, if◌then◌else◌}

-- Where a worker is in `worker_loop`: before it takes the mutex, in `cv_.wait`, in a task, or at the
-- end.
pub data Worker : Type 0 where
  checking asleep : Worker
  busy : (task : ℕ) → Worker
  gone : Worker

pub record Pool : Type 0 where
  pub queue : List ℕ
  pub stopped : Bool
  pub workers : List Worker
  pub due : ℕ  -- posts that have not called notify_one yet
  pub all_due : Bool  -- the destructor has not called notify_all yet
  pub posted : List ℕ  -- the tasks of all posts
  pub started : List ℕ  -- the tasks that workers have begun

abbrev pub new_workers : ℕ → List Worker
new_workers zero = []
new_workers (suc n) = checking ∷ new_workers n

-- The constructor, for any number of threads.
abbrev pub make_pool : ℕ → Pool
make_pool num_threads = record {
  queue = [];
  stopped = false;
  workers = new_workers num_threads;
  due = 0;
  all_due = false;
  posted = [];
  started = [];
}

-- `post`, but for notify_one.
unfoldable pub post : ℕ → Pool → Pool
post task p = record p {
  queue = p.queue ++ (task ∷ []);
  due = p.due + 1;
  posted = p.posted ++ (task ∷ []);
}

-- The destructor up to notify_all.
unfoldable pub stop : Pool → Pool
stop p = record p { stopped = true; all_due = true }

abbrev pub wake : List Worker → List Worker
wake [] = []
wake (checking ∷ ws) = checking ∷ wake ws
wake (asleep ∷ ws) = checking ∷ wake ws
wake (busy task ∷ ws) = busy task ∷ wake ws
wake (gone ∷ ws) = gone ∷ wake ws

unfoldable pub notify_all : Pool → Pool
notify_all p = record p { workers = wake p.workers; all_due = false }

-- A round of `worker_loop` while it has the mutex: the test of `cv_.wait`, and what follows it.
unfoldable pub next_task : List ℕ → Pool → Worker × Pool
next_task [] p = ((if p.stopped then gone else asleep), p)
next_task (task ∷ rest) p =
    (busy task, record p { queue = rest; started = p.started ++ (task ∷ []) })

abbrev pub worker_round : Pool → Worker × Pool
worker_round p = next_task p.queue p

abbrev pub with_worker : Pool → List Worker → Worker → List Worker → Pool
with_worker p before w after = record p { workers = before ++ (w ∷ after) }

abbrev pub is_asleep : Worker → ℕ
is_asleep checking = 0
is_asleep asleep = 1
is_asleep (busy task) = 0
is_asleep gone = 0

abbrev pub count : (Worker → ℕ) → List Worker → ℕ
count f [] = 0
count f (w ∷ ws) = f w + count f ws

-- Nothing is posted once the destructor runs.
pub data Step : Pool → Pool → Type 0 where
  posts : (p : Pool) (task : ℕ) → p.stopped ≡ false → Step p (post task p)
  notifies_one :
      (p : Pool) (before after : List Worker) (n : ℕ)
      → p.due ≡ suc n
      → p.workers ≡ before ++ (asleep ∷ after)
      → Step p (with_worker (record p { due = n }) before checking after)
  notifies_none :
      (p : Pool) (n : ℕ)
      → p.due ≡ suc n
      → count is_asleep p.workers ≡ 0
      → Step p (record p { due = n })
  stops : (p : Pool) → p.stopped ≡ false → Step p (stop p)
  notifies_all : (p : Pool) → p.all_due ≡ true → Step p (notify_all p)
  wakes :  -- for no reason
      (p : Pool) (before after : List Worker)
      → p.workers ≡ before ++ (asleep ∷ after)
      → Step p (with_worker p before checking after)
  checks :
      (p : Pool) (before after : List Worker)
      → p.workers ≡ before ++ (checking ∷ after)
      → Step p (with_worker (worker_round p).1 before (worker_round p).0 after)
  finishes :
      (p : Pool) (before after : List Worker) (task : ℕ)
      → p.workers ≡ before ++ (busy task ∷ after)
      → Step p (with_worker p before checking after)

pub data Reach (p : Pool) : Pool → Type 0 where
  here : Reach p p
  then_step : {q r : Pool} → Reach p q → Step q r → Reach p r
