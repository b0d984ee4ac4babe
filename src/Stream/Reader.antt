-- ===== src/Stream/Reader.antt =====
-- The consumer keeps the invariant (`__anext__`, `_finish` and `aclose` of
-- engine/inference/stream.py).
use inference_engine.Prelude.{
  ◌+◌, ◌≡◌, refl, sym, ap, ◌∙◌, subst, true, false, Option, some, List, [], ◌∷◌, ◌++◌, String,
  arith, inl, inr, Option-cases, if◌then◌else◌, append_assoc, if-rule, is_null, some_inj,
}
use inference_engine.Stream.{result_of, conclude, take_item, anext, aclose, end_aclose, join_parts}
use inference_engine.Stream.Types.{Finish, Item, token, terminal, Result, Stream, Reply}
use inference_engine.Stream.Sound.{bit, texts, puts, items, is_over, IsOpen, IsLive}
use inference_engine.Stream.Producer.{Alive}
use inference_engine.Stream.Consumer.{fired-Alive}

-- A chunk is taken.
module _ (ys : List String) (t : String) (q its : List Item) (s : Stream)
    (h : IsLive ys (token t ∷ its) s) where
  abbrev taken : Stream
  taken = record s {
    queue = q;
    capacity = s.capacity + 1;
    index = s.index + 1;
    parts = s.parts ++ t ∷ [];
  }

  taken-IsOpen : IsOpen (token t ∷ its) s → IsOpen its taken
  taken-IsOpen k = record {
    uncancelled = k.uncancelled;
    margin = omega (arith, k.margin);
    none_lost = k.none_lost;
    complete = λ r e. let empty = (k.complete r e).0 in absurd cc;
    pending = k.pending;
  }

  taken-IsLive : IsLive ys its taken
  taken-IsLive = record {
    slots = omega (arith, h.slots);
    room = omega (arith, h.room);
    order = append_assoc s.parts (t ∷ []) (texts its) ∙ h.order;
    last = h.last.1;
    stops = h.stops;
    awaits = h.awaits;
    over = h.over;
    unclosed = λ k b. taken-IsOpen (h.unclosed k b);
  }

-- What `conclude` sets
abbrev concluded : Finish → Stream → Stream
concluded f s = record s {
  result = if is_null s.result then some (result_of f s) else s.result;
  exhausted = true;
}

-- The terminal is taken.
module _ (ys : List String) (f : Finish) (e : Option String) (q its : List Item) (s : Stream)
    (h : IsLive ys (terminal f e ∷ its) s) where
  ended_complete :
      IsOpen (terminal f e ∷ its) s
      → (r : Result) → (concluded f (record s { queue = q })).result ≡ some r
      → (its ≡ [])
        × (is_over s.place ≡ true)
        × (r.text ≡ join_parts s.parts)
        × (r.completion_tokens ≡ s.index)
  unfolding result_of
  ended_complete k r g = elim (Option-cases s.result) [
    | inr (old, o) ↦ let empty = (k.complete old o).0 in absurd cc
    | inl o ↦
        let same = some_inj _ r (rw o at g) in
        (
          h.last.0 refl,
          h.over refl,
          ap (λ r. r.text) (sym same),
          ap (λ r. r.completion_tokens) (sym same),
        )
  ]

  ended-IsOpen : IsOpen (terminal f e ∷ its) s → IsOpen its (concluded f (record s { queue = q }))
  ended-IsOpen k = record {
    uncancelled = k.uncancelled;
    margin = omega (arith, k.margin);
    none_lost = k.none_lost;
    complete = ended_complete k;
    pending = λ o n. elim (Option-cases s.result) [
      | inl z ↦ let m = rw z at n in absurd cc
      | inr (old, z) ↦ let m = rw z at n in absurd cc
    ];
  }

  ended-IsLive : IsLive ys its (concluded f (record s { queue = q }))
  ended-IsLive = record {
    slots = h.slots;
    room = h.room;
    order = h.order;
    last = h.last.1;
    stops = h.stops;
    awaits = h.awaits;
    over = λ k. h.over refl;
    unclosed = λ k b. ended-IsOpen (h.unclosed k b);
  }

pub take_item-Alive :
    (ys : List String) (q : List Item) (s : Stream)
    → s.queue ≡ q
    → Alive ys s
    → Alive ys (take_item q s).0
unfolding take_item conclude
take_item-Alive ys [] s at h = h
take_item-Alive ys (token t ∷ q) s at h =
    taken-IsLive ys t q (q ++ puts s.scheduled) s
      (subst (λ l. IsLive ys (l ++ puts s.scheduled) s) at h)
take_item-Alive ys (terminal f e ∷ q) s at h =
    fired-Alive ys (concluded f (record s { queue = q })) (
      ended-IsLive ys f e q (q ++ puts s.scheduled) s
        (subst (λ l. IsLive ys (l ++ puts s.scheduled) s) at h))

pub anext-Alive : (ys : List String) (s : Stream) → Alive ys s → Alive ys (anext s).0
unfolding anext
anext-Alive ys s h =
    if-rule {A = Stream × Option Reply} (λ p. Alive ys p.0) s.exhausted (λ k. h)
      (λ k. take_item-Alive ys s.queue s refl h)

-- A closed stream promises no complete result.
closed-IsLive :
    (ys : List String) (its : List Item) (f : Finish) (s : Stream)
    → s.closed ≡ true
    → IsLive ys its s
    → IsLive ys its (concluded f (record s { closing = false }))
closed-IsLive ys its f s c h = record {
  slots = h.slots;
  room = h.room;
  order = h.order;
  last = h.last;
  stops = h.stops;
  awaits = λ k. c;
  over = h.over;
  unclosed = λ k b. absurd cc;
}

pub aclose-Alive : (ys : List String) (s : Stream) → Alive ys s → Alive ys (aclose s)
unfolding aclose
aclose-Alive ys s h =
    if-rule (Alive ys) s.closed (λ k. h)
      (λ k. record {
        slots = omega (arith, h.slots, ap bit k);
        room = h.room;
        order = h.order;
        last = h.last;
        stops = λ c. refl;
        awaits = λ c. refl;
        over = h.over;
        unclosed = λ c b. absurd cc;
      })

pub end_aclose-Alive : (ys : List String) (s : Stream) → Alive ys s → Alive ys (end_aclose s)
unfolding end_aclose conclude
end_aclose-Alive ys s h =
    if-rule (Alive ys) s.closing
      (λ k.
        fired-Alive ys (concluded Finish.cancelled (record s { closing = false }))
          (closed-IsLive ys (items s) Finish.cancelled s (h.awaits k) h))
      (λ k. h)
