-- ===== src/Stream/Received.antt =====
-- What the consumer of a token stream has received: the chunks of its replies are the stream's
-- parts (engine/inference/stream.py).
use inference_engine.Prelude.{
  ℕ, zero, suc, ◌≡◌, refl, sym, ap, ◌∙◌, Bool, true, false, Option, none, some, List, [], ◌∷◌, ◌++◌,
  String, if◌then◌else◌, append-nil, append_assoc, if-rule,
}
use inference_engine.Stream.{
  offer, acquire, try_acquire, produce, fire_on_done, is_full, call, conclude, take_item, anext,
  aclose, end_aclose, step, run, ending_reply,
}
use inference_engine.Stream.Types.{
  Finish, Item, token, terminal, Call, put, report, Place, starting, looping, reserving, waiting,
  reserved, pulling, ending, reporting, ended, Answer, yields, returns, raises, Stream, Reply,
  chunk, stopped, failed, Event, produces, calls, reads, resumes, closes, joins, shuts,
}
use inference_engine.Stream.Producer.{yield_of}

-- The text that a reply hands over
abbrev pub text_of : Option Reply → List String
text_of none = []
text_of (some (chunk t i)) = t ∷ []
text_of (some stopped) = []
text_of (some (failed e)) = []

abbrev pub yielded_of : Event → Stream → List String
yielded_of (produces a) s = yield_of s.place a
yielded_of _ s = []

abbrev pub received_of : Event → Stream → List String
received_of reads s = if s.running then text_of (anext s).1 else []
received_of resumes s = if s.running then text_of (take_item s.queue s).1 else []
received_of _ s = []

-- The texts that the generator yields in a run, and those that the consumer receives
abbrev pub yielded : List Event → Stream → List String
yielded [] s = []
yielded (e ∷ es) s = yielded_of e s ++ yielded es (step e s)

abbrev pub received : List Event → Stream → List String
received [] s = []
received (e ∷ es) s = received_of e s ++ received es (step e s)

-- Neither the loop is closed nor a part read.
abbrev pub Keeps : Stream → Stream → Type 0
Keeps s s' = (s'.running ≡ s.running) × (s'.parts ≡ s.parts)

offer-Keeps : (s : Stream) (i : Item) (p : Place) → Keeps s (offer i (record s { place = p }))
offer-Keeps s i p = if-rule (Keeps s) s.running (λ k. (refl, refl)) (λ k. (refl, refl))

pub produce-Keeps : (p : Place) (a : Answer) (s : Stream) → Keeps s (produce p a s)
unfolding produce
produce-Keeps starting (yields t) s = (refl, refl)
produce-Keeps starting (returns f) s = (refl, refl)
produce-Keeps starting (raises e) s = (refl, refl)
produce-Keeps looping a s = if-rule (Keeps s) s.is_cancelled (λ k. (refl, refl)) (λ k. (refl, refl))
produce-Keeps reserving a s = go s.capacity
  where
    go : (n : ℕ) → Keeps s (try_acquire n s)
    go zero = (refl, refl)
    go (suc n) = (refl, refl)
produce-Keeps waiting a s = go s.capacity
  where
    go : (n : ℕ) → Keeps s (acquire n s)
    go zero = (refl, refl)
    go (suc n) = (refl, refl)
produce-Keeps reserved a s =
    if-rule (Keeps s) s.is_cancelled (λ k. (refl, refl)) (λ k. (refl, refl))
produce-Keeps pulling (yields t) s = offer-Keeps s (token t) looping
produce-Keeps pulling (returns f) s = (refl, refl)
produce-Keeps pulling (raises e) s = (refl, refl)
produce-Keeps (ending f e) a s = offer-Keeps s (terminal f e) reporting
produce-Keeps reporting a s = if-rule (Keeps s) s.running (λ k. (refl, refl)) (λ k. (refl, refl))
produce-Keeps ended a s = (refl, refl)

fire_on_done-Keeps : (s s' : Stream) → Keeps s s' → Keeps s (fire_on_done s')
unfolding fire_on_done
fire_on_done-Keeps s s' h = if-rule (Keeps s) s'.done_fired (λ k. h) (λ k. h)

call-Keeps : (cs : List Call) (s : Stream) → Keeps s (call cs s)
unfolding call
call-Keeps [] s = (refl, refl)
call-Keeps (put i ∷ cs) s =
    if-rule (Keeps s) (is_full (record s { scheduled = cs })) (λ k. (refl, refl))
      (λ k. (refl, refl))
call-Keeps (report ∷ cs) s = fire_on_done-Keeps s (record s { scheduled = cs }) (refl, refl)

conclude-Keeps : (f : Finish) (s s' : Stream) → Keeps s s' → Keeps s (conclude f s')
unfolding conclude
conclude-Keeps f s s' h = fire_on_done-Keeps s _ h

aclose-Keeps : (s : Stream) → Keeps s (aclose s)
unfolding aclose
aclose-Keeps s = if-rule (Keeps s) s.closed (λ k. (refl, refl)) (λ k. (refl, refl))

end_aclose-Keeps : (s : Stream) → Keeps s (end_aclose s)
unfolding end_aclose
end_aclose-Keeps s =
    if-rule (Keeps s) s.closing
      (λ k. conclude-Keeps Finish.cancelled s (record s { closing = false }) (refl, refl))
      (λ k. (refl, refl))

-- The chunk of a reply is the part that is added.
abbrev Adds : Stream → Stream × Option Reply → Type 0
Adds s p = p.0.parts ≡ s.parts ++ text_of p.1

ending_reply_lem : (e : Option String) → text_of (some (ending_reply e)) ≡ []
ending_reply_lem none = refl
ending_reply_lem (some e) = refl

take_item-Adds : (q : List Item) (s : Stream) → Adds s (take_item q s)
unfolding take_item
take_item-Adds [] s = sym (append-nil s.parts)
take_item-Adds (token t ∷ q) s = refl
take_item-Adds (terminal f e ∷ q) s =
    (conclude-Keeps f s (record s { queue = q }) (refl, refl)).1
    ∙ sym (append-nil s.parts)
    ∙ ap (λ l. s.parts ++ l) (sym (ending_reply_lem e))

anext-Adds : (s : Stream) → Adds s (anext s)
unfolding anext
anext-Adds s =
    if-rule {A = Stream × Option Reply} (Adds s) s.exhausted (λ k. sym (append-nil s.parts))
      (λ k. take_item-Adds s.queue s)

silently : (s s' : Stream) → Keeps s s' → s'.parts ≡ s.parts ++ []
silently s s' k = k.1 ∙ sym (append-nil s.parts)

silently_if : (s s' : Stream) → Keeps s s' → (if s.running then s' else s).parts ≡ s.parts ++ []
silently_if s s' k =
    silently s (if s.running then s' else s)
      (if-rule (Keeps s) s.running {x = s'} {y = s} (λ b. k) (λ b. (refl, refl)))

guarded :
    (b : Bool) (s : Stream) (p : Stream × Option Reply)
    → Adds s p
    → (if b then p.0 else s).parts ≡ s.parts ++ (if b then text_of p.1 else [])
guarded true s p h = h
guarded false s p h = sym (append-nil s.parts)

step-received : (e : Event) (s : Stream) → (step e s).parts ≡ s.parts ++ received_of e s
unfolding step
step-received (produces a) s = silently s (produce s.place a s) (produce-Keeps s.place a s)
step-received calls s = silently_if s (call s.scheduled s) (call-Keeps s.scheduled s)
step-received reads s = guarded s.running s (anext s) (anext-Adds s)
step-received resumes s = guarded s.running s (take_item s.queue s) (take_item-Adds s.queue s)
step-received closes s = silently_if s (aclose s) (aclose-Keeps s)
step-received joins s = silently_if s (end_aclose s) (end_aclose-Keeps s)
step-received shuts s = sym (append-nil s.parts)

pub run-received : (es : List Event) (s : Stream) → (run es s).parts ≡ s.parts ++ received es s
unfolding run
run-received [] s = sym (append-nil s.parts)
run-received (e ∷ es) s =
    run-received es (step e s)
    ∙ ap (λ l. l ++ received es (step e s)) (step-received e s)
    ∙ append_assoc s.parts (received_of e s) (received es (step e s))
