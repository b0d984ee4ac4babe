-- ===== src/Stream/Delivery.antt =====
-- What a token stream promises (engine/inference/stream.py): every text of the generator reaches
-- the consumer once and in order, the buffer stays bounded, and the stream ends.
use inference_engine.Prelude.{
  Bool, ◌+◌, ℕ, zero, suc, ◌≤◌, ◌<◌, ◌≡◌, refl, sym, ap, ◌∙◌, subst, true, false, none, some, List,
  [], ◌∷◌, ◌++◌, String, length, count, any, arith, inl, inr, Bool-cases, if◌then◌else◌, append-nil,
  append_assoc, if-rule,
}
use inference_engine.Stream.{
  create, call, take_item, anext, aclose, end_aclose, step, run, join_parts,
}
use inference_engine.Stream.Types.{
  Place, starting, looping, reserving, waiting, reserved, pulling, ending, reporting, ended, Result,
  Stream, Event, produces, calls, reads, resumes, closes, joins, shuts,
}
use inference_engine.Stream.Sound.{bit, texts, items, is_over, is_token, is_terminal, held}
use inference_engine.Stream.Producer.{Alive, produce-Alive}
use inference_engine.Stream.Consumer.{call-Alive}
use inference_engine.Stream.Reader.{take_item-Alive, anext-Alive, aclose-Alive, end_aclose-Alive}
use inference_engine.Stream.Tidy.{IsTidy, step-IsTidy}
use inference_engine.Stream.Received.{yielded, yielded_of, received, run-received, produce-Keeps}

-- The producer can make no further step: it waits for a slot and there is none, or it has ended.
abbrev pub is_blocked : Place → ℕ → Bool
is_blocked waiting zero = true
is_blocked ended capacity = true
is_blocked _ capacity = false

not_blocked :
    (p : Place) (capacity : ℕ)
    → ¬ (is_over p ≡ true)
    → 0 < capacity + held p
    → is_blocked p capacity ≡ false
not_blocked starting n o h = refl
not_blocked looping n o h = refl
not_blocked reserving n o h = refl
not_blocked waiting zero o h = absurd (omega (arith, h))
not_blocked waiting (suc n) o h = refl
not_blocked reserved n o h = refl
not_blocked pulling n o h = refl
not_blocked (ending f e) n o h = refl
not_blocked reporting n o h = refl
not_blocked ended n o h = absurd (o refl)

-- The invariant after an event, of a stream whose loop runs
same :
    (ys : List String) (f : Stream → Stream) (s : Stream)
    → Alive ys (f s)
    → s.running ≡ true
    → Alive (ys ++ []) (if s.running then f s else s)
same ys f s h r =
    subst (λ l. Alive l (if s.running then f s else s)) (sym (append-nil ys))
      (if-rule (Alive ys) s.running {x = f s} {y = s} (λ k. h) (λ k. absurd cc))

step-Alive :
    (ys : List String) (e : Event) (s : Stream)
    → s.running ≡ true
    → Alive ys s
    → (step e s).running ≡ true
    → Alive (ys ++ yielded_of e s) (step e s)
unfolding step
step-Alive ys (produces a) s r h r' = produce-Alive ys s h s.place a refl r
step-Alive ys calls s r h r' =
    same ys (λ s. call s.scheduled s) s (call-Alive ys s.scheduled s refl h) r
step-Alive ys reads s r h r' = same ys (λ s. (anext s).0) s (anext-Alive ys s h) r
step-Alive ys resumes s r h r' =
    same ys (λ s. (take_item s.queue s).0) s (take_item-Alive ys s.queue s refl h) r
step-Alive ys closes s r h r' = same ys aclose s (aclose-Alive ys s h) r
step-Alive ys joins s r h r' = same ys end_aclose s (end_aclose-Alive ys s h) r
step-Alive ys shuts s r h r' = absurd cc

-- A closed loop stays closed.
idle :
    (f : Stream → Stream) (s : Stream)
    → s.running ≡ false
    → (if s.running then f s else s).running ≡ false
idle f s r = if-rule {A = Stream} (λ s. s.running ≡ false) s.running (λ k. cc) (λ k. r)

step-shut : (e : Event) (s : Stream) → s.running ≡ false → (step e s).running ≡ false
unfolding step
step-shut (produces a) s r = (produce-Keeps s.place a s).0 ∙ r
step-shut calls s r = idle (λ s. call s.scheduled s) s r
step-shut reads s r = idle (λ s. (anext s).0) s r
step-shut resumes s r = idle (λ s. (take_item s.queue s).0) s r
step-shut closes s r = idle aclose s r
step-shut joins s r = idle end_aclose s r
step-shut shuts s r = refl

run-shut : (es : List Event) (s : Stream) → s.running ≡ false → (run es s).running ≡ false
unfolding run
run-shut [] s r = r
run-shut (e ∷ es) s r = run-shut es (step e s) (step-shut e s r)

run-Alive :
    (ys : List String) (es : List Event) (s : Stream)
    → s.running ≡ true
    → Alive ys s
    → (run es s).running ≡ true
    → Alive (ys ++ yielded es s) (run es s)
unfolding run
run-Alive ys [] s r h r' = subst (λ l. Alive l s) (sym (append-nil ys)) h
run-Alive ys (e ∷ es) s r h r' = elim (Bool-cases (step e s).running) [
  | inl k ↦
      subst (λ l. Alive l (run es (step e s)))
        (append_assoc ys (yielded_of e s) (yielded es (step e s)))
        (run-Alive (ys ++ yielded_of e s) es (step e s) k (step-Alive ys e s r h k) r')
  | inr k ↦ let shut = run-shut es (step e s) k in absurd cc
]

run-IsTidy : (m : ℕ) (es : List Event) (s : Stream) → IsTidy m s → IsTidy m (run es s)
unfolding run
run-IsTidy m [] s h = h
run-IsTidy m (e ∷ es) s h = run-IsTidy m es (step e s) (step-IsTidy m e s h)

create-Alive : (id : String) (prompt m : ℕ) → Alive [] (create id prompt m)
unfolding create
create-Alive id prompt m = record {
  slots = omega arith;
  room = omega arith;
  order = refl;
  last = tt;
  stops = λ k. absurd cc;
  awaits = λ k. absurd cc;
  over = λ k. absurd cc;
  unclosed = λ k b. record {
    uncancelled = refl;
    margin = omega (arith, b);
    none_lost = refl;
    complete = λ r e. absurd cc;
    pending = λ k. absurd cc;
  };
}

create-IsTidy : (id : String) (prompt m : ℕ) → IsTidy m (create id prompt m)
unfolding create
create-IsTidy id prompt m = (refl, refl, refl, λ b. omega arith)

created-running : (id : String) (prompt m : ℕ) → (create id prompt m).running ≡ true
unfolding create
created-running id prompt m = refl

created-parts : (id : String) (prompt m : ℕ) → (create id prompt m).parts ≡ []
unfolding create
created-parts id prompt m = refl

module _ (id : String) (prompt m : ℕ) (es : List Event) where
  -- The stream after any events, from its creation
  abbrev after : Stream
  after = run es (create id prompt m)

  after-Alive : after.running ≡ true → Alive (yielded es (create id prompt m)) after
  after-Alive r =
      run-Alive [] es (create id prompt m) (created-running id prompt m) (create-Alive id prompt m)
        r

  received_parts : received es (create id prompt m) ≡ after.parts
  received_parts = sym (
      run-received es (create id prompt m)
      ∙ ap (λ l. l ++ received es (create id prompt m)) (created-parts id prompt m))

  -- The chunks that the consumer has received, and then the tokens on their way, are the texts that
  -- the generator has yielded, in order, as long as the event loop runs.
  pub delivered_in_order :
      after.running ≡ true
      → received es (create id prompt m) ++ texts (items after) ≡ yielded es (create id prompt m)
  delivered_in_order r = ap (λ l. l ++ texts (items after)) received_parts ∙ (after-Alive r).order

  after-IsTidy : IsTidy m after
  after-IsTidy = run-IsTidy m es (create id prompt m) (create-IsTidy id prompt m)

  -- Whatever happens: the queue holds no more than a positive `maxsize`, `on_done` is called at
  -- most once, and the index counts the chunks that the consumer has received.
  pub stream_bounded :
      0 < m
      → (length after.queue ≤ m)
        × (after.done_calls ≤ 1)
        × (after.index ≡ length (received es (create id prompt m)))
  stream_bounded b = (
    after-IsTidy.3 b,
    (let done = after-IsTidy.0 in
        elim (Bool-cases after.done_fired) [
          | inl k ↦ omega (arith, done, ap bit k)
          | inr k ↦ omega (arith, done, ap bit k)
        ]),
    after-IsTidy.1 ∙ ap length (sym received_parts),
  )

  -- With a positive `maxsize`, while the loop runs and the consumer has not closed the stream, a
  -- result means that the consumer has received every text that the generator has yielded, that
  -- it holds these texts and their number, and that no put has raised QueueFull.
  pub result_complete :
      (r : Result)
      → 0 < m
      → after.running ≡ true
      → after.closed ≡ false
      → after.result ≡ some r
      → (received es (create id prompt m) ≡ yielded es (create id prompt m))
        × (r.text ≡ join_parts (yielded es (create id prompt m)))
        × (r.completion_tokens ≡ length (yielded es (create id prompt m)))
        × (after.full_errors ≡ 0)
  result_complete r b running unclosed given =
      let h = after-Alive running in
      let o = h.unclosed unclosed (omega (arith, b, after-IsTidy.2)) in
      let all = o.complete r given in
      let parts : after.parts ≡ yielded es (create id prompt m) =
        sym (append-nil after.parts) ∙ ap (λ l. after.parts ++ texts l) (sym all.0) ∙ h.order in
      (
        received_parts ∙ parts,
        all.2 ∙ ap join_parts parts,
        all.3 ∙ after-IsTidy.1 ∙ ap length parts,
        o.none_lost,
      )

  -- With a positive `maxsize`, while the loop runs, the consumer has not closed the stream and
  -- there is no result yet, a stream with nothing in its queue and no call for the loop does not
  -- wait for ever: the producer has not ended, and where it waits for a slot there is one.
  pub never_stuck :
      0 < m
      → after.running ≡ true
      → after.closed ≡ false
      → after.result ≡ none
      → after.queue ≡ []
      → after.scheduled ≡ []
      → is_blocked after.place after.capacity ≡ false
  never_stuck b running unclosed none_yet empty quiet =
      let h = after-Alive running in
      let bound = after-IsTidy.2 in
      let o = h.unclosed unclosed (omega (arith, b, bound)) in
      let nothing : items after ≡ [] = rw (empty, quiet) refl in
      not_blocked after.place after.capacity
        (λ over.
          let found : any is_terminal [] ≡ true =
            ap (any is_terminal) (sym nothing) ∙ o.pending over none_yet in
          absurd cc)
        (omega (arith, h.slots, b, bound, ap bit unclosed, ap (count is_token) nothing))
