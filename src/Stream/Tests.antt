-- ===== src/Stream/Tests.antt =====
-- A stream of two tokens, with a queue of one place.
use inference_engine.Prelude.{false, ◌≤◌, ◌≡◌, refl, none, some, List, [], ◌∷◌, ◌++◌, length, arith}
use inference_engine.Stream.{create, run, result_of}
use inference_engine.Stream.Types.{
  Finish, Stream, Result, yields, returns, Event, produces, calls, reads, closes,
}
use inference_engine.Stream.Sound.{texts, items}
use inference_engine.Stream.Received.{yielded, received}
use inference_engine.Stream.Delivery.{
  delivered_in_order, stream_bounded, result_complete, never_stuck, is_blocked,
}

abbrev fresh : Stream
fresh = create "r1" 5 1

-- The generator is made and yields a token; with the queue full the thread waits.
abbrev one_token : List Event
one_token =
    produces (yields "")
    ∷ produces (yields "")
    ∷ produces (yields "")
    ∷ produces (yields "")
    ∷ produces (yields "Hel")
    ∷ produces (yields "")
    ∷ produces (yields "")
    ∷ []

-- A generator that yields one token and ends, and a consumer that reads it to the end
abbrev whole : List Event
whole =
    produces (yields "")
    ∷ produces (yields "")
    ∷ produces (yields "")
    ∷ produces (yields "")
    ∷ produces (yields "Hi")
    ∷ calls
    ∷ reads
    ∷ produces (yields "")
    ∷ produces (yields "")
    ∷ produces (yields "")
    ∷ produces (returns (some Finish.length))
    ∷ produces (returns none)
    ∷ calls
    ∷ reads
    ∷ []

abbrev answer : Result
answer = record {
  request_id = "r1";
  text = "Hi";
  finish_reason = Finish.length;
  prompt_tokens = 5;
  completion_tokens = 1;
}

-- The consumer closes the stream with a token in the queue: the terminal finds the queue full, and
-- the put raises QueueFull.
abbrev abandoned : List Event
abandoned =
    one_token
    ++ calls
      ∷ closes
      ∷ produces (yields "")
      ∷ produces (yields "")
      ∷ produces (returns none)
      ∷ calls
      ∷ []

full_error : (run abandoned fresh).full_errors ≡ 1
unfolding create run
full_error = refl

whole_result : (run whole fresh).result ≡ some answer
unfolding create run result_of
whole_result = refl

delivered_in_order_example :
    received one_token fresh ++ texts (items (run one_token fresh)) ≡ yielded one_token fresh
unfolding create run
delivered_in_order_example = delivered_in_order "r1" 5 1 one_token refl

stream_bounded_example : length (run one_token fresh).queue ≤ 1
stream_bounded_example = (stream_bounded "r1" 5 1 one_token (omega arith)).0

result_complete_example : received whole fresh ≡ yielded whole fresh
unfolding create run
result_complete_example =
    (result_complete "r1" 5 1 whole answer (omega arith) refl refl whole_result).0

never_stuck_example :
    is_blocked
      (run (produces (yields "") ∷ []) fresh).place
      (run (produces (yields "") ∷ []) fresh).capacity
    ≡ false
unfolding create run
never_stuck_example =
    never_stuck "r1" 5 1 (produces (yields "") ∷ []) (omega arith) refl refl refl refl refl
