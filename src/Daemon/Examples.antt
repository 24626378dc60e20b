-- ===== src/Daemon/Examples.antt =====
-- The daemon at some requests, with `lower` for ASCII.
use npu_gpu_cpu.Prelude.{
  arith, none, some, codes, ◌+◌, ◌≤◌, ◌≡◌, ◌≢◌, refl, true, false, ◌&&◌, ◌⊎◌, inl, [], ◌∷◌, leb,
  starts_with, if◌then◌else◌,
}
use npu_gpu_cpu.Daemon.{
  complete, route, npu, Text, contains, first_size, gpu, cpu, select_device, named, absent, Request,
  object, answered, tagged, chat_completions, estimate_model_size, call_chat, respond, do_post,
}
use npu_gpu_cpu.Daemon.{health}
use npu_gpu_cpu.Daemon.Backends.{
  Answers, spawned, refused, spawn, poll, sleep, terminate, wait, exits, traceback, wait_ready,
  start_gpu, start_all, stop, shutdown, run, do_get,
}
use npu_gpu_cpu.Daemon.Backends.Left.{
  starts, ends, polls, total, run_stops_all, run_leaves_gpu, run_leaves_npu, run_unbound,
  wait_ready-polls,
}
use npu_gpu_cpu.Daemon.Policy.{estimate_model_size-shadowed}
use npu_gpu_cpu.Daemon.Route.{do_post_reaches}

abbrev lower : Text → Text
lower [] = []
lower (c ∷ cs) = (if leb 65 c && leb c 90 then c + 32 else c) ∷ lower cs

small_model : estimate_model_size lower (codes "Qwen3-0.6B") ≡ 6
unfolding estimate_model_size first_size contains starts_with
small_model = refl

llama_13b : estimate_model_size lower (codes "Llama-13B") ≡ 30
unfolding estimate_model_size first_size contains starts_with
llama_13b = refl

-- "72b" is none of the patterns, but "2b" is one.
llama_72b : estimate_model_size lower (codes "Llama-72B") ≡ 20
unfolding estimate_model_size first_size contains starts_with
llama_72b = refl

estimate_model_size-shadowed_example :
    (estimate_model_size lower (codes "Llama-13B") ≤ 40)
    × (select_device (estimate_model_size lower (codes "Llama-13B")) ≢ cpu)
unfolding contains starts_with
estimate_model_size-shadowed_example =
    estimate_model_size-shadowed lower (codes "Llama-13B") (codes "13b") (inl refl) refl

abbrev chat_request : Request
chat_request = record {
  model = named (codes "Qwen3-0.6B");
  has_messages = true;
  has_self = false;
  stream = false;
}

-- The model is bound twice: 502, and no backend is reached.
chat_request_unserved :
    do_post lower chat_completions (object chat_request) (answered true) ≡ (tagged 502 npu, [])
unfolding do_post complete route call_chat respond select_device estimate_model_size first_size
    contains
chat_request_unserved = refl

-- A request without a model and without messages comes through.
abbrev bare_request : Request
bare_request = record { model = absent; has_messages = false; has_self = false; stream = false }

bare_request_served :
    do_post lower chat_completions (object bare_request) (answered true)
    ≡ (tagged 200 gpu, gpu ∷ [])
unfolding do_post estimate_model_size first_size contains starts_with select_device call_chat
    respond
bare_request_served = refl

do_post_reaches_example :
    let sent = (do_post lower chat_completions (object bare_request) (answered true)).1 in
    (sent ≡ [])
    ⊎ ((sent ≡ gpu ∷ [])
        × ((req : Request) × (object bare_request ≡ object req)
            × (req.model ≡ absent)
            × (req.has_messages ≡ false)))
do_post_reaches_example =
    do_post_reaches lower chat_completions (object bare_request) (answered true) refl

-- The GPU's backend is ready at the third poll.
abbrev answers : Answers
answers = record {
  npu_spawn = spawned 100;
  gpu_spawn = spawned 200;
  healthy = λ i. leb 2 i;
  binds = true;
  npu_ends = true;
  gpu_ends = true;
}

run_log : run false answers ≡ (
  exits,
  wait 200 true
      ∷ terminate 200
      ∷ wait 100 true
      ∷ terminate 100
      ∷ poll
      ∷ sleep
      ∷ poll
      ∷ sleep
      ∷ poll
      ∷ spawn (spawned 200)
      ∷ spawn (spawned 100)
      ∷ [],
)
unfolding run start_all start_gpu wait_ready shutdown stop
run_log = refl

run_stops_all_example :
    total (starts 100) (run false answers).1 ≡ total (ends 100) (run false answers).1
unfolding run start_all start_gpu shutdown stop
run_stops_all_example = run_stops_all false answers 100 refl

run_leaves_gpu_example :
    let r = run false (record answers { npu_ends = false }) in
    (r.0 ≡ traceback) × (total (starts 200) r.1 ≡ 1) × (total (ends 200) r.1 ≡ 0)
run_leaves_gpu_example =
    run_leaves_gpu (record answers { npu_ends = false }) 100 200 refl refl (omega arith) refl

run_leaves_npu_test :
    run false (record answers { gpu_spawn = refused })
    ≡ (traceback, spawn refused ∷ spawn (spawned 100) ∷ [])
run_leaves_npu_test = run_leaves_npu (record answers { gpu_spawn = refused }) 100 refl refl

run_unbound_test :
    let r = run false (record answers { binds = false }) in
    (r.0 ≡ traceback) × (total (starts 100) r.1 ≡ 1) × (total (ends 100) r.1 ≡ 0)
run_unbound_test = run_unbound (record answers { binds = false }) 100 200 100 refl refl refl

wait_ready-polls_test : total polls (wait_ready answers.healthy 0 30 []) ≤ total polls [] + 2 + 1
wait_ready-polls_test = wait_ready-polls answers.healthy 0 30 2 [] (omega arith) refl

-- Without the backends, the health says so.
no_backends :
    do_get health (record { npu_process = none; gpu_process = none }) true
    ≡ (200, some (false, false))
unfolding do_get
no_backends = refl
