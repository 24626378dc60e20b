-- ===== src/Daemon.antt =====
-- daemon/npu-gpu-cpud.py: the control plane that routes a request to the NPU or the GPU. `str.lower` is a
-- parameter, and what a backend answers to a call of `chat` is an argument. A text is the list of its
-- code points, and a number of parameters is counted in tenths of a billion.
pub mod Policy
pub mod Route
pub mod Backends
mod Examples
use npu_gpu_cpu.Prelude.{
  codes, ℕ, Bool, true, false, ◌||◌, List, [], ◌∷◌, ltb, leb, starts_with, if◌then◌else◌,
}

abbrev pub Text : Type 0
Text = List ℕ

-- `pattern in text`
unfoldable pub contains : Text → Text → Bool
unfolding starts_with
contains pattern [] = starts_with pattern []
contains pattern (c ∷ text) = starts_with pattern (c ∷ text) || contains pattern text

abbrev pub patterns : List (Text × ℕ)
patterns =
    (codes "0.5b", 5)
    ∷ (codes "0.6b", 6)
    ∷ (codes "0.8b", 8)
    ∷ (codes "1b", 10)
    ∷ (codes "1.2b", 12)
    ∷ (codes "1.5b", 15)
    ∷ (codes "1.7b", 17)
    ∷ (codes "2b", 20)
    ∷ (codes "2.6b", 26)
    ∷ (codes "3b", 30)
    ∷ (codes "4b", 40)
    ∷ (codes "7b", 70)
    ∷ (codes "8b", 80)
    ∷ (codes "9b", 90)
    ∷ (codes "13b", 130)
    ∷ (codes "14b", 140)
    ∷ (codes "20b", 200)
    ∷ (codes "34b", 340)
    ∷ (codes "70b", 700)
    ∷ []

unfoldable pub first_size : List (Text × ℕ) → Text → ℕ
first_size [] name = 70
first_size ((pattern, size) ∷ rest) name =
    if contains pattern name then size else first_size rest name

pub data Device : Type 0 where
  npu gpu cpu : Device

unfoldable pub select_device : ℕ → Device
select_device size = if ltb size 20 then npu else if leb size 80 then gpu else cpu

-- The value of a key of the request: `other` is no text, such as a number.
pub data Model : Type 0 where
  absent : Model
  named : Text → Model
  other : Model

-- `"model" in req`
abbrev has_model : Model → Bool
has_model absent = false
has_model _ = true

-- What the code looks at in the object of the request: `model`, whether it has the keys `messages` and
-- `self`, and whether `stream` counts as true.
pub record Request : Type 0 where
  pub model : Model
  pub has_messages : Bool
  pub has_self : Bool
  pub stream : Bool

-- What `json.loads` makes of the body: an object, something else, or an exception, which is a
-- `JSONDecodeError` or another one.
pub data Body : Type 0 where
  object : Request → Body
  no_object invalid_json undecodable : Body

pub data Reply : Type 0 where
  -- a decoded answer, and whether it is a `dict`
  answered : Bool → Reply
  http_error : ℕ → Reply
  failed : Reply

-- `_json`: the status, and the device with which the answer is tagged; or an exception that leaves the
-- handler.
pub data Response : Type 0 where
  plain : ℕ → Response
  tagged : ℕ → Device → Response
  raises : Response

-- The response, and the backends to which the request was sent.
abbrev pub Handled : Type 0
Handled = Response × List Device

pub data Endpoint : Type 0 where
  health models chat_completions unknown_path : Endpoint

module _ (lower : Text → Text) where
  unfoldable pub estimate_model_size : Text → ℕ
  unfolding first_size
  estimate_model_size name = first_size patterns (lower name)

  -- `backend.chat(model, messages, **req)`: the parameters `self`, `model` and `messages` are bound by
  -- place, and a key of the request with the name of one of them is a second value for it, for which
  -- Python raises a TypeError before the method runs.
  abbrev bound_twice : Request → Bool
  bound_twice req = has_model req.model || (req.has_messages || req.has_self)

  unfoldable pub call_chat : Device → Request → Reply → Reply × List Device
  call_chat backend req reply = if bound_twice req then (failed, []) else (reply, backend ∷ [])

  unfoldable pub respond : Device → Reply → Response
  respond device (answered dict) = if dict then tagged 200 device else plain 200
  respond device (http_error code) = tagged code device
  respond device failed = tagged 502 device

  abbrev pub backend_of : Device → Device
  backend_of npu = npu
  backend_of _ = gpu

  unfoldable pub route : Text → Request → Reply → Handled
  unfolding estimate_model_size call_chat respond
  route model req reply =
      let device = select_device (estimate_model_size model) in
      let (result, sent) = call_chat (backend_of device) req reply in (respond device result, sent)

  -- A model that is no text has no `lower`.
  unfoldable pub complete : Request → Reply → Handled
  unfolding route
  complete req reply = if req.stream then (plain 400, []) else elim req.model [
    | absent ↦ route (codes "unknown") req reply
    | named name ↦ route name req reply
    | other ↦ (raises, [])
  ]

  unfoldable pub do_post : Endpoint → Body → Reply → Handled
  unfolding complete
  do_post chat_completions (object req) reply = complete req reply
  do_post chat_completions no_object reply = (raises, [])
  do_post chat_completions invalid_json reply = (plain 400, [])
  do_post chat_completions undecodable reply = (raises, [])
  do_post _ body reply = (plain 404, [])
