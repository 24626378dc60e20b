-- ===== src/Daemon/Route.antt =====
-- Which requests reach a backend.
use npu_gpu_cpu.Prelude.{codes, ◌≡◌, refl, false, ◌||◌, ◌⊎◌, inl, inr, [], ◌∷◌, Bool-cases, arith}
use npu_gpu_cpu.Daemon.{
  Text, contains, first_size, gpu, select_device, Model, absent, named, other, Request, Body,
  object, no_object, invalid_json, undecodable, Reply, Endpoint, health, models, chat_completions,
  unknown_path, estimate_model_size, call_chat, route, complete, do_post,
}

module _ (lower : Text → Text) where
  unknown_to_gpu :
      lower (codes "unknown") ≡ codes "unknown"
      → select_device (estimate_model_size lower (codes "unknown")) ≡ gpu
  unfolding select_device estimate_model_size first_size contains
  unknown_to_gpu e = rw e refl

  -- The backends that a request reaches.
  complete_reaches :
      (req : Request) (reply : Reply) (m : Model)
      → lower (codes "unknown") ≡ codes "unknown"
      → req.model ≡ m
      → ((complete lower req reply).1 ≡ [])
        ⊎ (((complete lower req reply).1 ≡ gpu ∷ []) × (m ≡ absent) × (req.has_messages ≡ false))
  unfolding complete route call_chat
  complete_reaches req reply (named name) h e = inl (ground arith)
  complete_reaches req reply other h e = inl (ground arith)
  complete_reaches req reply absent h e = elim (Bool-cases req.stream) [
    | inl yes_stream ↦ inl (ground arith)
    | inr no_stream ↦ elim (Bool-cases (req.has_messages || req.has_self)) [
      | inl twice ↦ inl (ground arith)
      | inr once ↦ inr (ground (arith, unknown_to_gpu h), refl, ground arith)
    ]
  ]

  -- What is posted reaches at most one backend, and this is the GPU's: never the NPU's. It is reached
  -- only by a request without a model and without messages.
  pub do_post_reaches :
      (path : Endpoint) (body : Body) (reply : Reply)
      → lower (codes "unknown") ≡ codes "unknown"
      → ((do_post lower path body reply).1 ≡ [])
        ⊎ (((do_post lower path body reply).1 ≡ gpu ∷ [])
            × ((req : Request) × (body ≡ object req)
                × (req.model ≡ absent)
                × (req.has_messages ≡ false)))
  unfolding do_post
  do_post_reaches chat_completions (object req) reply h =
      elim (complete_reaches req reply req.model h refl) [
        | inl none_reached ↦ inl none_reached
        | inr (e, m, msgs) ↦ inr (e, (req, refl, m, msgs))
      ]
  do_post_reaches chat_completions no_object reply h = inl refl
  do_post_reaches chat_completions invalid_json reply h = inl refl
  do_post_reaches chat_completions undecodable reply h = inl refl
  do_post_reaches health body reply h = inl refl
  do_post_reaches models body reply h = inl refl
  do_post_reaches unknown_path body reply h = inl refl
