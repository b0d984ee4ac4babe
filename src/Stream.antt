-- ===== src/Stream.antt =====
-- engine/inference/stream.py: a blocking token producer in a thread of its own, and the async
-- iterator that reads it through a bounded queue.  A step of the producer is one operation on what
-- it shares with the loop; the steps of the loop are its calls and the consumer's.  Times are left
-- out.
pub mod Types
mod Sound
mod Offers
mod Moves
mod Producer
mod Consumer
mod Reader
mod Received
mod Tidy
mod Delivery
mod Tests
use Types.{
  Finish, Item, token, terminal, Call, put, report, Place, starting, looping, reserving, waiting,
  reserved, pulling, ending, reporting, ended, Answer, yields, returns, raises, Result, Stream,
  Reply, chunk, stopped, failed, Event, produces, calls, reads, resumes, closes, joins, shuts,
}
use inference_engine.Prelude.{
  ℕ, zero, suc, ◌+◌, Bool, true, false, ◌&&◌, not, Option, none, some, List, [], ◌∷◌, ◌++◌, String,
  str_append, leb, length, if◌then◌else◌, ◌==◌, is_null,
}

-- `__init__`
unfoldable pub create : (request_id : String) (prompt_tokens maxsize : ℕ) → Stream
create request_id prompt_tokens maxsize = record {
  request_id = request_id;
  prompt_tokens = prompt_tokens;
  maxsize = maxsize;
  place = starting;
  capacity = maxsize;
  is_cancelled = false;
  backpressure_waits = 0;
  scheduled = [];
  queue = [];
  index = 0;
  parts = [];
  result = none;
  exhausted = false;
  closed = false;
  closing = false;
  done_fired = false;
  done_calls = 0;
  running = true;
  full_errors = 0;
}

-- `call_soon_threadsafe`, which raises a RuntimeError once the loop is closed
abbrev pub schedule : Call → Stream → Stream
schedule c s = record s { scheduled = s.scheduled ++ c ∷ [] }

-- `_offer`
abbrev pub offer : Item → Stream → Stream
offer item s = if s.running then schedule (put item) s else record s { is_cancelled = true }

-- What `gen.close()` leads to: the generator's exception, or the end by cancellation
abbrev pub close_generator : Answer → Place
close_generator (yields t) = ending Finish.cancelled none
close_generator (returns f) = ending Finish.cancelled none
close_generator (raises e) = ending Finish.error (some e)

-- The finish reason of a StopIteration
abbrev pub stop_value : Option Finish → Finish
stop_value none = Finish.stop
stop_value (some f) = f

-- After `next(gen)`, with a slot in hand
abbrev pub pull : Answer → Stream → Stream
pull (yields t) s = offer (token t) (record s { place = looping })
pull (returns f) s = record s { capacity = s.capacity + 1; place = ending (stop_value f) none }
pull (raises e) s = record s { capacity = s.capacity + 1; place = ending Finish.error (some e) }

-- `acquire`, at once or after a wait: a slot is taken, or the thread is blocked.
abbrev pub acquire : ℕ → Stream → Stream
acquire zero s = record s { place = waiting }
acquire (suc n) s = record s { place = reserved; capacity = n }

-- The generator is made.
abbrev pub start : Answer → Stream → Stream
start (yields t) s = record s { place = looping }
start (returns f) s = record s { place = looping }
start (raises e) s = record s { place = ending Finish.error (some e) }

-- `acquire(blocking=False)`, which counts where it fails
abbrev pub try_acquire : ℕ → Stream → Stream
try_acquire zero s = record s { place = waiting; backpressure_waits = s.backpressure_waits + 1 }
try_acquire (suc n) s = record s { place = reserved; capacity = n }

-- The next step of `_run`
unfoldable pub produce : Place → Answer → Stream → Stream
produce starting a s = start a s
produce looping a s =
    if s.is_cancelled
    then record s { place = close_generator a }
    else record s { place = reserving }
produce reserving a s = try_acquire s.capacity s
produce waiting a s = acquire s.capacity s
produce reserved a s =
    if s.is_cancelled
    then record s { capacity = s.capacity + 1; place = close_generator a }
    else record s { place = pulling }
produce pulling a s = pull a s
produce (ending f e) a s = offer (terminal f e) (record s { place = reporting })
produce reporting a s =
    if s.running then schedule report (record s { place = ended }) else record s { place = ended }
produce ended a s = s

-- `_fire_on_done`
unfoldable pub fire_on_done : Stream → Stream
fire_on_done s =
    if s.done_fired then s else record s { done_fired = true; done_calls = s.done_calls + 1 }

-- Whether `put_nowait` raises QueueFull: a queue of size 0 has no bound.
abbrev pub is_full : Stream → Bool
is_full s = not (s.maxsize == 0) && leb s.maxsize (length s.queue)

abbrev pub put_nowait : Item → Stream → Stream
put_nowait item s =
    if is_full s
    then record s { full_errors = s.full_errors + 1 }
    else record s { queue = s.queue ++ item ∷ [] }

-- The loop runs its oldest call.
unfoldable pub call : List Call → Stream → Stream
unfolding fire_on_done
call [] s = s
call (put item ∷ cs) s = put_nowait item (record s { scheduled = cs })
call (report ∷ cs) s = fire_on_done (record s { scheduled = cs })

-- `"".join(parts)`
pub join_parts : List String → String
join_parts [] = ""
join_parts (p ∷ ps) = str_append p (join_parts ps)

unfoldable pub result_of : Finish → Stream → Result
unfolding join_parts
result_of finish s = record {
  request_id = s.request_id;
  text = join_parts s.parts;
  finish_reason = finish;
  prompt_tokens = s.prompt_tokens;
  completion_tokens = s.index;
}

-- The end of `_finish` and of `aclose`: a result that is there stays.
unfoldable pub conclude : Finish → Stream → Stream
unfolding fire_on_done
conclude finish s = fire_on_done (record s {
  result = if is_null s.result then some (result_of finish s) else s.result;
  exhausted = true;
})

-- What `__anext__` raises for the terminal
abbrev pub ending_reply : Option String → Reply
ending_reply none = stopped
ending_reply (some e) = failed e

-- `__anext__` once it has an item of the queue; without one it waits.
unfoldable pub take_item : List Item → Stream → Stream × Option Reply
unfolding conclude
take_item [] s = (s, none)
take_item (token t ∷ items) s = (
  record s {
    queue = items;
    capacity = s.capacity + 1;
    index = s.index + 1;
    parts = s.parts ++ t ∷ [];
  },
  some (chunk t s.index),
)
take_item (terminal f e ∷ items) s =
    (conclude f (record s { queue = items }), some (ending_reply e))

-- `__anext__`
unfoldable pub anext : Stream → Stream × Option Reply
unfolding take_item
anext s = if s.exhausted then (s, some stopped) else take_item s.queue s

-- `aclose` before it waits for the thread
unfoldable pub aclose : Stream → Stream
aclose s =
    if s.closed
    then s
    else record s { closed = true; closing = true; is_cancelled = true; capacity = s.capacity + 1 }

-- `aclose` after the wait, which ends after 5 seconds at most
unfoldable pub end_aclose : Stream → Stream
unfolding conclude
end_aclose s = if s.closing then conclude Finish.cancelled (record s { closing = false }) else s

-- An event; a closed loop runs nothing.
unfoldable pub step : Event → Stream → Stream
unfolding produce call anext take_item aclose end_aclose
step (produces a) s = produce s.place a s
step calls s = if s.running then call s.scheduled s else s
step reads s = if s.running then (anext s).0 else s
step resumes s = if s.running then (take_item s.queue s).0 else s
step closes s = if s.running then aclose s else s
step joins s = if s.running then end_aclose s else s
step shuts s = record s { running = false }

unfoldable pub run : List Event → Stream → Stream
unfolding step
run [] s = s
run (e ∷ es) s = run es (step e s)
