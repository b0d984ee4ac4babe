-- ===== src/Stream/Types.antt =====
-- The state of a QueueGenerationStream (engine/inference/stream.py), shared by its producer thread
-- and the event loop, and the types of engine/inference/types.py that it uses.
use inference_engine.Prelude.{ℕ, Bool, Option, List, String}

-- `FinishReason`
pub data Finish : Type 0 where
  stop length cancelled error : Finish

-- `_Token` and `_Terminal`, with the exception as its text
pub data Item : Type 0 where
  token : String → Item
  terminal : Finish → Option String → Item

-- What the thread hands to the loop by `call_soon_threadsafe`: `put_nowait` of an item, or
-- `_fire_on_done`.
pub data Call : Type 0 where
  put : Item → Call
  report : Call

-- Where the producer thread is in `_run`: before the generator is made; at the head of the loop;
-- before the first `acquire`; blocked in the second; holding a slot; in `next(gen)`; before the
-- terminal is offered; before `_fire_on_done` is scheduled; and after it.
pub data Place : Type 0 where
  starting looping reserving waiting reserved pulling : Place
  ending : Finish → Option String → Place
  reporting ended : Place

-- What the generator does when it is made, resumed or closed.
pub data Answer : Type 0 where
  yields : String → Answer
  returns : Option Finish → Answer
  raises : String → Answer

-- `GenerationResult`, without its timings
pub record Result : Type 0 where
  pub request_id : String
  pub text : String
  pub finish_reason : Finish
  pub prompt_tokens : ℕ
  pub completion_tokens : ℕ

-- `scheduled` are the loop's calls that have not run, oldest first; `capacity` is the semaphore's
-- value; `closing` is set while `aclose` waits for the thread; `running` is false once the loop is
-- closed.  `done_calls` counts the calls of `on_done`, and `full_errors` the puts that raised
-- QueueFull.
pub record Stream : Type 0 where
  pub request_id : String
  pub prompt_tokens : ℕ
  pub maxsize : ℕ
  pub place : Place
  pub capacity : ℕ
  pub is_cancelled : Bool
  pub backpressure_waits : ℕ
  pub scheduled : List Call
  pub queue : List Item
  pub index : ℕ
  pub parts : List String
  pub result : Option Result
  pub exhausted : Bool
  pub closed : Bool
  pub closing : Bool
  pub done_fired : Bool
  pub done_calls : ℕ
  pub running : Bool
  pub full_errors : ℕ

-- What `__anext__` gives its caller: a chunk, StopAsyncIteration or GenerationFailedError.
pub data Reply : Type 0 where
  chunk : String → ℕ → Reply
  stopped : Reply
  failed : String → Reply

-- The producer thread's next step, with what the generator answers; the loop's next call; the
-- consumer's `__anext__`, and one that has waited for an item; the two halves of `aclose`; and the
-- end of the loop.
pub data Event : Type 0 where
  produces : Answer → Event
  calls reads resumes closes joins shuts : Event
