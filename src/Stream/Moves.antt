-- ===== src/Stream/Moves.antt =====
-- The moves of the producer thread keep the invariant (`_run` of engine/inference/stream.py).
use inference_engine.Prelude.{
  ℕ, suc, ◌+◌, ◌≤◌, ◌<◌, ◌≡◌, refl, ap, true, false, Option, List, String, count, arith, inl, inr,
  Bool-cases, ◌⊎◌,
}
use inference_engine.Stream.{close_generator, pull}
use inference_engine.Stream.Types.{
  Finish, Item, Place, reserved, pulling, ending, Answer, yields, returns, raises, Stream,
}
use inference_engine.Stream.Sound.{
  bit, is_token, is_terminal, held, pull_weight, weight, is_over, IsOpen, IsLive, none_terminal,
}
use inference_engine.Stream.Offers.{silent}

-- A move of the producer that hands nothing to the loop: its place, and the slots that it takes
-- from the capacity or gives back.
abbrev pub moved : Place → ℕ → ℕ → Stream → Stream
moved p capacity waits s = record s { place = p; capacity = capacity; backpressure_waits = waits }

module _ (ys : List String) (its : List Item) (p : Place) (capacity waits : ℕ) (s : Stream)
    (h : IsLive ys its s) where
  moved-IsOpen :
      is_over s.place ≡ false
      → is_over p ≡ false
      → (s.is_cancelled ≡ false → count is_token its + count is_terminal its + weight p ≤ s.maxsize)
      → IsOpen its s
      → IsOpen its (moved p capacity waits s)
  moved-IsOpen o o' w k = record {
    uncancelled = k.uncancelled;
    margin = w k.uncancelled;
    none_lost = k.none_lost;
    complete = λ r e. let done = (k.complete r e).1 in cc;
    pending = λ e. cc;
  }

  pub moved-IsLive :
      capacity + held p ≡ s.capacity + held s.place
      → is_over s.place ≡ false
      → is_over p ≡ false
      → count is_token its + pull_weight p ≤ s.maxsize
      → (s.closed ≡ false
          → 0 < s.maxsize
          → s.is_cancelled ≡ false
          → count is_token its + count is_terminal its + weight p ≤ s.maxsize)
      → IsLive ys its (moved p capacity waits s)
  moved-IsLive c o o' q w = record {
    slots = omega (arith, c, h.slots);
    room = q;
    order = h.order;
    last = h.last;
    stops = h.stops;
    awaits = h.awaits;
    over = λ t. let done = h.over t in cc;
    unclosed = λ k b. moved-IsOpen o o' (w k b) (h.unclosed k b);
  }

close_generator_lem :
    (a : Answer)
    → (held (close_generator a) ≡ 0)
      × (pull_weight (close_generator a) ≡ 0)
      × (is_over (close_generator a) ≡ false)
close_generator_lem (yields t) = (refl, refl, refl)
close_generator_lem (returns f) = (refl, refl, refl)
close_generator_lem (raises e) = (refl, refl, refl)

-- The generator is closed, as the stream was.
module _ (ys : List String) (its : List Item) (s : Stream) (a : Answer) (h : IsLive ys its s)
    (o : is_over s.place ≡ false) (cancelled : s.is_cancelled ≡ true) where
  pub closing-IsLive :
      (capacity : ℕ)
      → capacity ≡ s.capacity + held s.place
      → IsLive ys its (moved (close_generator a) capacity s.backpressure_waits s)
  closing-IsLive capacity c =
      let l = close_generator_lem a in
      moved-IsLive ys its (close_generator a) capacity s.backpressure_waits s h
        (omega (arith, c, l.0)) o l.2 (omega (arith, l.1, h.room)) (λ k b n. cc)

-- Before the generator may be resumed with a slot in hand
module _ (ys : List String) (its : List Item) (s : Stream) (h : IsLive ys its s)
    (at : s.place ≡ reserved) (uncancelled : s.is_cancelled ≡ false) where
  pub pulling-IsLive : IsLive ys its (moved pulling s.capacity s.backpressure_waits s)
  pulling-IsLive =
      let never : s.closed ≡ false = elim (Bool-cases s.closed) [
        | inl k ↦ let c = h.stops k in cc
        | inr k ↦ k
      ] in
      let quiet = none_terminal its (silent ys its s h (ap is_over at)) in
      let slots = h.slots in
      moved-IsLive ys its pulling s.capacity s.backpressure_waits s h (omega (arith, ap held at))
        (ap is_over at) refl (omega (arith, slots, ap held at, ap bit never))
        (λ k b n. omega (arith, slots, ap held at, ap bit never, quiet))

module _ (ys : List String) (its : List Item) (s : Stream) (h : IsLive ys its s) where
  -- A move to a place where the thread holds no slot and has nothing to offer
  pub moves-IsLive :
      (p : Place) (waits : ℕ)
      → held p ≡ held s.place
      → pull_weight p ≡ 0
      → (weight p ≡ 0) ⊎ (weight p ≡ weight s.place)
      → is_over s.place ≡ false
      → is_over p ≡ false
      → IsLive ys its (moved p s.capacity waits s)
  moves-IsLive p waits same pull light o o' =
      moved-IsLive ys its p s.capacity waits s h (omega (arith, same)) o o'
        (omega (arith, pull, h.room))
        (λ k b n.
          let m = (h.unclosed k b).margin in
          elim light [ inl z ↦ omega (arith, z, m) | inr z ↦ omega (arith, z, m) ])

  -- A slot of the semaphore is taken.
  pub takes-IsLive :
      (n : ℕ)
      → s.capacity ≡ suc n
      → held s.place ≡ 0
      → is_over s.place ≡ false
      → IsLive ys its (moved reserved n s.backpressure_waits s)
  takes-IsLive n c z o =
      moved-IsLive ys its reserved n s.backpressure_waits s h (omega (arith, c, z)) o refl
        (omega (arith, h.room)) (λ k b u. let m = (h.unclosed k b).margin in omega (arith, m))

  -- The generator ended, and the slot is given back.
  pub gives-IsLive :
      (f : Finish) (e : Option String)
      → s.place ≡ pulling
      → IsLive ys its (moved (ending f e) (s.capacity + 1) s.backpressure_waits s)
  gives-IsLive f e at =
      moved-IsLive ys its (ending f e) (s.capacity + 1) s.backpressure_waits s h
        (omega (arith, ap held at)) (ap is_over at) refl (omega (arith, h.room))
        (λ k b n. let m = (h.unclosed k b).margin in omega (arith, m, ap weight at))
