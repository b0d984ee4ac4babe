-- ===== src/Stream/Offers.antt =====
-- What the producer thread hands to the loop keeps the invariant (`_offer` and the end of `_run` of
-- engine/inference/stream.py).
use inference_engine.Prelude.{
  ◌≡◌, refl, sym, ap, ◌∙◌, false, Option, List, [], ◌∷◌, ◌++◌, String, count-append, any, arith,
  inl, inr, Bool-cases, append-nil, append_assoc,
}
use inference_engine.Stream.Types.{
  Finish, Item, token, terminal, Call, put, Place, looping, pulling, ending, reporting, ended,
  Stream,
}
use inference_engine.Stream.Sound.{
  is_token, is_terminal, texts, puts, items, held, pull_weight, weight, is_over, IsOpen, IsLive,
  texts-append, puts-append, EndsOnce-append, any-append,
}

-- The thread hands an item to the loop, and goes on.
abbrev pub offered : Place → Item → Stream → Stream
offered p i s = record s { place = p; scheduled = s.scheduled ++ put i ∷ [] }

pub items-offered : (p : Place) (i : Item) (s : Stream) → items (offered p i s) ≡ items s ++ i ∷ []
items-offered p i s =
    ap (λ r. s.queue ++ r) (puts-append s.scheduled (put i ∷ []))
    ∙ sym (append_assoc s.queue (puts s.scheduled) (i ∷ []))

module _ (ys : List String) (its : List Item) (s : Stream) (h : IsLive ys its s) where
  pub silent : is_over s.place ≡ false → any is_terminal its ≡ false
  silent o = elim (Bool-cases (any is_terminal its)) [
    | inl k ↦ let done = h.over k in cc
    | inr k ↦ k
  ]

  token-IsOpen :
      (t : String)
      → s.place ≡ pulling
      → IsOpen its s
      → IsOpen (its ++ token t ∷ []) (offered looping (token t) s)
  token-IsOpen t at k = record {
    uncancelled = k.uncancelled;
    margin = omega (
      arith,
      k.margin,
      ap weight at,
      count-append is_token its (token t ∷ []),
      count-append is_terminal its (token t ∷ []),
    );
    none_lost = k.none_lost;
    complete = λ r e. let done = (k.complete r e).1 in let not_over = ap is_over at in cc;
    pending = λ e. cc;
  }

  pub token-IsLive :
      (t : String)
      → s.place ≡ pulling
      → IsLive (ys ++ t ∷ []) (its ++ token t ∷ []) (offered looping (token t) s)
  token-IsLive t at =
      let quiet = silent (ap is_over at) in
      let counted = count-append is_token its (token t ∷ []) in
      record {
        slots = omega (arith, h.slots, ap held at, counted);
        room = omega (arith, h.room, ap pull_weight at, counted);
        order =
            ap (λ r. s.parts ++ r) (texts-append its (token t ∷ []))
            ∙ sym (append_assoc s.parts (texts its) (t ∷ []))
            ∙ ap (λ r. r ++ t ∷ []) h.order;
        last = EndsOnce-append its (token t) quiet;
        stops = h.stops;
        awaits = h.awaits;
        over = λ e. let none = any-append is_terminal its (token t ∷ []) in cc;
        unclosed = λ k b. token-IsOpen t at (h.unclosed k b);
      }

  terminal-IsOpen :
      (f : Finish) (e : Option String)
      → s.place ≡ ending f e
      → IsOpen its s
      → IsOpen (its ++ terminal f e ∷ []) (offered reporting (terminal f e) s)
  terminal-IsOpen f e at k = record {
    uncancelled = k.uncancelled;
    margin = omega (
      arith,
      k.margin,
      ap weight at,
      count-append is_token its (terminal f e ∷ []),
      count-append is_terminal its (terminal f e ∷ []),
    );
    none_lost = k.none_lost;
    complete = λ r g. let done = (k.complete r g).1 in let not_over = ap is_over at in cc;
    pending = λ o n. any-append is_terminal its (terminal f e ∷ []) ∙ ground arith;
  }

  pub terminal-IsLive :
      (f : Finish) (e : Option String)
      → s.place ≡ ending f e
      → IsLive (ys ++ []) (its ++ terminal f e ∷ []) (offered reporting (terminal f e) s)
  terminal-IsLive f e at =
      let quiet = silent (ap is_over at) in
      let counted = count-append is_token its (terminal f e ∷ []) in
      record {
        slots = omega (arith, h.slots, ap held at, counted);
        room = omega (arith, h.room, ap pull_weight at, counted);
        order =
            ap (λ r. s.parts ++ r) (texts-append its (terminal f e ∷ []) ∙ append-nil (texts its))
            ∙ h.order
            ∙ sym (append-nil ys);
        last = EndsOnce-append its (terminal f e) quiet;
        stops = h.stops;
        awaits = h.awaits;
        over = λ g. refl;
        unclosed = λ k b. terminal-IsOpen f e at (h.unclosed k b);
      }

-- The thread's last call, which carries no item
module _ (ys : List String) (its : List Item) (s : Stream) (h : IsLive ys its s) where
  pub reported-IsLive :
      (cs : List Call)
      → s.place ≡ reporting
      → IsLive (ys ++ []) its (record s { place = ended; scheduled = cs })
  reported-IsLive cs at = record {
    slots = omega (arith, h.slots, ap held at);
    room = omega (arith, h.room, ap pull_weight at);
    order = h.order ∙ sym (append-nil ys);
    last = h.last;
    stops = h.stops;
    awaits = h.awaits;
    over = λ e. refl;
    unclosed = λ k b.
        let o = h.unclosed k b in
        record {
          uncancelled = o.uncancelled;
          margin = omega (arith, o.margin, ap weight at);
          none_lost = o.none_lost;
          complete = λ r e. let all = o.complete r e in (all.0, refl, all.2, all.3);
          pending = λ g. o.pending (ap is_over at);
        };
  }
