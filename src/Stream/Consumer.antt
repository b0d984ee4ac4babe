-- ===== src/Stream/Consumer.antt =====
-- The event loop and the consumer keep the invariant (`_offer`'s calls, `__anext__`, `_finish` and
-- `aclose` of engine/inference/stream.py).
use inference_engine.Prelude.{
  ℕ, ◌+◌, ◌≤◌, ◌≡◌, refl, sym, ap, ◌∙◌, subst, Bool, true, false, Option, List, [], ◌∷◌, ◌++◌,
  String, length, count, count-append, any, arith, append_assoc, if-rule,
}
use inference_engine.Stream.{fire_on_done, is_full, put_nowait, call}
use inference_engine.Stream.Types.{Finish, Item, token, terminal, Call, put, report, Stream}
use inference_engine.Stream.Sound.{
  is_token, is_terminal, texts, puts, items, EndsOnce, IsLive, none_terminal,
}
use inference_engine.Stream.Producer.{Alive}

-- What the calls of `on_done` do not change
abbrev noted : Bool → ℕ → ℕ → Stream → Stream
noted fired calls errors s = record s {
  done_fired = fired;
  done_calls = calls;
  full_errors = errors;
}

-- The loop has run a call that it had before, which leaves the items as they were.
module _ (ys : List String) (its : List Item) (s : Stream) (h : IsLive ys its s) where
  rearranged-IsLive :
      (cs : List Call) (q : List Item) (fired : Bool) (calls : ℕ)
      → IsLive ys its
          (record s { scheduled = cs; queue = q; done_fired = fired; done_calls = calls })
  rearranged-IsLive cs q fired calls = record {
    slots = h.slots;
    room = h.room;
    order = h.order;
    last = h.last;
    stops = h.stops;
    awaits = h.awaits;
    over = h.over;
    unclosed = λ k b.
        let o = h.unclosed k b in
        record {
          uncancelled = o.uncancelled;
          margin = o.margin;
          none_lost = o.none_lost;
          complete = o.complete;
          pending = o.pending;
        };
  }

-- Items that stand behind a terminal, or a queue of tokens
count-length : (its : List Item) → length its ≡ count is_token its + count is_terminal its
count-length [] = refl
count-length (token t ∷ its) = omega (arith, count-length its)
count-length (terminal f e ∷ its) = omega (arith, count-length its)

before_last :
    (q : List Item) (i : Item) (rest : List Item)
    → EndsOnce (q ++ i ∷ rest)
    → any is_terminal q ≡ false
before_last [] i rest h = refl
before_last (token t ∷ q) i rest h = before_last q i rest h.1
before_last (terminal f e ∷ []) i rest h = let empty = h.0 refl in cc
before_last (terminal f e ∷ x ∷ q) i rest h = let empty = h.0 refl in cc

not_empty : (q : List Item) (i : Item) (rest : List Item) → ¬ (q ++ i ∷ rest ≡ [])
not_empty [] i rest h = cc
not_empty (x ∷ q) i rest h = cc

EndsOnce-drop :
    (q : List Item) (i : Item) (rest : List Item) → EndsOnce (q ++ i ∷ rest) → EndsOnce (q ++ rest)
EndsOnce-drop [] i rest h = h.1
EndsOnce-drop (x ∷ q) i rest h =
    (λ k. absurd (not_empty q i rest (h.0 k)), EndsOnce-drop q i rest h.1)

texts-drop :
    (q : List Item) (f : Finish) (e : Option String) (rest : List Item)
    → texts (q ++ rest) ≡ texts (q ++ terminal f e ∷ rest)
texts-drop [] f e rest = refl
texts-drop (token t ∷ q) f e rest = ap (λ r. t ∷ r) (texts-drop q f e rest)
texts-drop (terminal g d ∷ q) f e rest = texts-drop q f e rest

any-middle :
    (q : List Item) (f : Finish) (e : Option String) (rest : List Item)
    → any is_terminal (q ++ terminal f e ∷ rest) ≡ true
any-middle [] f e rest = refl
any-middle (token t ∷ q) f e rest = any-middle q f e rest
any-middle (terminal g d ∷ q) f e rest = refl

-- A put where the queue has room, and where it has none: then the item is a terminal, and the
-- stream is closed.
module _ (ys : List String) (s : Stream) (i : Item) (cs : List Call)
    (h : IsLive ys (s.queue ++ i ∷ puts cs) s) where
  placed-Alive : Alive ys (record s { scheduled = cs; queue = s.queue ++ i ∷ [] })
  placed-Alive =
      subst (λ its. IsLive ys its (record s { scheduled = cs; queue = s.queue ++ i ∷ [] }))
        (sym (append_assoc s.queue (i ∷ []) (puts cs)))
        (rearranged-IsLive ys (s.queue ++ i ∷ puts cs) s h cs (s.queue ++ i ∷ []) s.done_fired
          s.done_calls)

  queue_tokens : length s.queue ≡ count is_token s.queue
  queue_tokens =
      omega (
        arith,
        count-length s.queue,
        none_terminal s.queue (before_last s.queue i (puts cs) h.last),
      )

full-Alive :
    (ys : List String) (s : Stream) (i : Item) (cs : List Call)
    → IsLive ys (s.queue ++ i ∷ puts cs) s
    → is_full s ≡ true
    → Alive ys (record s { scheduled = cs; full_errors = s.full_errors + 1 })
full-Alive ys s (token t) cs h full =
    let all = queue_tokens ys s (token t) cs h in
    let counted = count-append is_token s.queue (token t ∷ puts cs) in
    let room = h.room in
    let bound : s.maxsize ≤ length s.queue = ground (arith, full) in
    absurd (omega (arith, all, counted, room, bound))
full-Alive ys s (terminal f e) cs h full =
    let all = queue_tokens ys s (terminal f e) cs h in
    let tokens = count-append is_token s.queue (terminal f e ∷ puts cs) in
    let terminals = count-append is_terminal s.queue (terminal f e ∷ puts cs) in
    let rest = count-append is_token s.queue (puts cs) in
    let bound : s.maxsize ≤ length s.queue = ground (arith, full) in
    record {
      slots = omega (arith, h.slots, tokens, rest);
      room = omega (arith, h.room, tokens, rest);
      order = ap (λ r. s.parts ++ r) (texts-drop s.queue f e (puts cs)) ∙ h.order;
      last = EndsOnce-drop s.queue (terminal f e) (puts cs) h.last;
      stops = h.stops;
      awaits = h.awaits;
      over = λ k. h.over (any-middle s.queue f e (puts cs));
      unclosed = λ k b.
          let margin = (h.unclosed k b).margin in
          absurd (omega (arith, margin, all, tokens, terminals, bound));
    }

put-Alive :
    (ys : List String) (s : Stream) (i : Item) (cs : List Call)
    → IsLive ys (s.queue ++ i ∷ puts cs) s
    → Alive ys (put_nowait i (record s { scheduled = cs }))
put-Alive ys s i cs h =
    if-rule (Alive ys) (is_full s) (λ k. full-Alive ys s i cs h k) (λ k. placed-Alive ys s i cs h)

pub fired-Alive : (ys : List String) (s : Stream) → Alive ys s → Alive ys (fire_on_done s)
unfolding fire_on_done
fired-Alive ys s h =
    if-rule (Alive ys) s.done_fired (λ k. h)
      (λ k. rearranged-IsLive ys (items s) s h s.scheduled s.queue true (s.done_calls + 1))

pub call-Alive :
    (ys : List String) (cs : List Call) (s : Stream)
    → s.scheduled ≡ cs
    → Alive ys s
    → Alive ys (call cs s)
unfolding call
call-Alive ys [] s at h = h
call-Alive ys (put i ∷ cs) s at h =
    put-Alive ys s i cs (subst (λ l. IsLive ys (s.queue ++ puts l) s) at h)
call-Alive ys (report ∷ cs) s at h =
    fired-Alive ys (record s { scheduled = cs })
      (rearranged-IsLive ys (s.queue ++ puts cs) s
        (subst (λ l. IsLive ys (s.queue ++ puts l) s) at h) cs s.queue s.done_fired s.done_calls)
