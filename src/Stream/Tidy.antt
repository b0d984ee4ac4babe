-- ===== src/Stream/Tidy.antt =====
-- What holds of a token stream even after its loop is closed: the bound of the queue, and what is
-- counted (engine/inference/stream.py).
use inference_engine.Prelude.{
  ℕ, zero, suc, ◌≤◌, ◌<◌, ◌≡◌, refl, ap, false, Option, List, [], ◌∷◌, length, length-append, arith,
  if-rule,
}
use inference_engine.Stream.{
  offer, acquire, try_acquire, produce, fire_on_done, is_full, put_nowait, call, conclude,
  take_item, anext, aclose, end_aclose, step,
}
use inference_engine.Stream.Types.{
  Finish, Item, token, terminal, Call, put, report, Place, starting, looping, reserving, waiting,
  reserved, pulling, ending, reporting, ended, Answer, yields, returns, raises, Stream, Reply,
  Event, produces, calls, reads, resumes, closes, joins, shuts,
}
use inference_engine.Stream.Sound.{bit}

module _ (m : ℕ) where
  -- `on_done` is called once if it is marked so and else not at all, the chunks are counted, and a
  -- bounded queue keeps its bound.
  abbrev pub IsTidy : Stream → Type 0
  IsTidy s =
      (s.done_calls ≡ bit s.done_fired)
      × (s.index ≡ length s.parts)
      × (s.maxsize ≡ m)
      × (0 < m → length s.queue ≤ m)

  offer-IsTidy : (i : Item) (s : Stream) → IsTidy s → IsTidy (offer i s)
  offer-IsTidy i s h = if-rule IsTidy s.running (λ k. h) (λ k. h)

  produce-IsTidy : (p : Place) (a : Answer) (s : Stream) → IsTidy s → IsTidy (produce p a s)
  unfolding produce
  produce-IsTidy starting (yields t) s h = h
  produce-IsTidy starting (returns f) s h = h
  produce-IsTidy starting (raises e) s h = h
  produce-IsTidy looping a s h = if-rule IsTidy s.is_cancelled (λ k. h) (λ k. h)
  produce-IsTidy reserving a s h = go s.capacity
    where
      go : (n : ℕ) → IsTidy (try_acquire n s)
      go zero = h
      go (suc n) = h
  produce-IsTidy waiting a s h = go s.capacity
    where
      go : (n : ℕ) → IsTidy (acquire n s)
      go zero = h
      go (suc n) = h
  produce-IsTidy reserved a s h = if-rule IsTidy s.is_cancelled (λ k. h) (λ k. h)
  produce-IsTidy pulling (yields t) s h = offer-IsTidy (token t) (record s { place = looping }) h
  produce-IsTidy pulling (returns f) s h = h
  produce-IsTidy pulling (raises e) s h = h
  produce-IsTidy (ending f e) a s h = offer-IsTidy (terminal f e) (record s { place = reporting }) h
  produce-IsTidy reporting a s h = if-rule IsTidy s.running (λ k. h) (λ k. h)
  produce-IsTidy ended a s h = h

  fire_on_done-IsTidy : (s : Stream) → IsTidy s → IsTidy (fire_on_done s)
  unfolding fire_on_done
  fire_on_done-IsTidy s h =
      if-rule IsTidy s.done_fired (λ k. h) (λ k. (omega (arith, h.0, ap bit k), h.1, h.2, h.3))

  put_nowait-IsTidy : (i : Item) (s : Stream) → IsTidy s → IsTidy (put_nowait i s)
  put_nowait-IsTidy i s h =
      if-rule IsTidy (is_full s) (λ k. h)
        (λ k. (
          h.0,
          h.1,
          h.2,
          λ b.
              let pos : 0 < s.maxsize = omega (arith, h.2, b) in
              let room : length s.queue < s.maxsize = ground (arith, k, pos) in
              omega (arith, h.2, length-append s.queue (i ∷ []), room),
        ))

  call-IsTidy : (cs : List Call) (s : Stream) → IsTidy s → IsTidy (call cs s)
  unfolding call
  call-IsTidy [] s h = h
  call-IsTidy (put i ∷ cs) s h = put_nowait-IsTidy i (record s { scheduled = cs }) h
  call-IsTidy (report ∷ cs) s h = fire_on_done-IsTidy (record s { scheduled = cs }) h

  conclude-IsTidy : (f : Finish) (s : Stream) → IsTidy s → IsTidy (conclude f s)
  unfolding conclude
  conclude-IsTidy f s h = fire_on_done-IsTidy _ h

  take_item-IsTidy :
      (q : List Item) (s : Stream) → s.queue ≡ q → IsTidy s → IsTidy (take_item q s).0
  unfolding take_item
  take_item-IsTidy [] s at h = h
  take_item-IsTidy (token t ∷ q) s at h = (
    h.0,
    omega (arith, h.1, length-append s.parts (t ∷ [])),
    h.2,
    λ b. let bound = h.3 b in let same = ap length at in omega (arith, bound, same),
  )
  take_item-IsTidy (terminal f e ∷ q) s at h =
      conclude-IsTidy f (record s { queue = q })
        (
          h.0,
          h.1,
          h.2,
          λ b. let bound = h.3 b in let same = ap length at in omega (arith, bound, same),
        )

  anext-IsTidy : (s : Stream) → IsTidy s → IsTidy (anext s).0
  unfolding anext
  anext-IsTidy s h =
      if-rule {A = Stream × Option Reply} (λ p. IsTidy p.0) s.exhausted (λ k. h)
        (λ k. take_item-IsTidy s.queue s refl h)

  aclose-IsTidy : (s : Stream) → IsTidy s → IsTidy (aclose s)
  unfolding aclose
  aclose-IsTidy s h = if-rule IsTidy s.closed (λ k. h) (λ k. h)

  end_aclose-IsTidy : (s : Stream) → IsTidy s → IsTidy (end_aclose s)
  unfolding end_aclose
  end_aclose-IsTidy s h =
      if-rule IsTidy s.closing
        (λ k. conclude-IsTidy Finish.cancelled (record s { closing = false }) h) (λ k. h)

  pub step-IsTidy : (e : Event) (s : Stream) → IsTidy s → IsTidy (step e s)
  unfolding step
  step-IsTidy (produces a) s h = produce-IsTidy s.place a s h
  step-IsTidy calls s h = if-rule IsTidy s.running (λ k. call-IsTidy s.scheduled s h) (λ k. h)
  step-IsTidy reads s h = if-rule IsTidy s.running (λ k. anext-IsTidy s h) (λ k. h)
  step-IsTidy resumes s h =
      if-rule IsTidy s.running (λ k. take_item-IsTidy s.queue s refl h) (λ k. h)
  step-IsTidy closes s h = if-rule IsTidy s.running (λ k. aclose-IsTidy s h) (λ k. h)
  step-IsTidy joins s h = if-rule IsTidy s.running (λ k. end_aclose-IsTidy s h) (λ k. h)
  step-IsTidy shuts s h = h
