-- ===== src/Stream/Producer.antt =====
-- Each step of the producer thread keeps the invariant (`_run` of engine/inference/stream.py).
use inference_engine.Prelude.{
  ℕ, zero, suc, ◌+◌, ◌≡◌, refl, sym, ap, ◌∙◌, subst, true, none, some, List, [], ◌∷◌, ◌++◌, String,
  arith, inl, inr, if◌then◌else◌, append-nil, if-rule,
}
use inference_engine.Stream.{
  schedule, offer, close_generator, stop_value, pull, acquire, start, try_acquire, produce,
}
use inference_engine.Stream.Types.{
  Finish, Item, token, terminal, report, Place, starting, looping, reserving, waiting, reserved,
  pulling, ending, reporting, ended, Answer, yields, returns, raises, Stream,
}
use inference_engine.Stream.Sound.{puts, items, held, weight, is_over, IsLive, puts-append}
use inference_engine.Stream.Offers.{
  items-offered, token-IsLive, terminal-IsLive, reported-IsLive, offered,
}
use inference_engine.Stream.Moves.{
  closing-IsLive, pulling-IsLive, moves-IsLive, takes-IsLive, gives-IsLive,
}

-- The texts that the generator yields at a step
abbrev pub yield_of : Place → Answer → List String
yield_of pulling (yields t) = t ∷ []
yield_of _ a = []

offer-running :
    (p : Place) (i : Item) (s : Stream)
    → s.running ≡ true
    → offered p i s ≡ offer i (record s { place = p })
offer-running p i s r = rw r refl

last_call :
    (s : Stream)
    → s.running ≡ true
    → schedule report (record s { place = ended }) ≡ (
        if s.running
        then schedule report (record s { place = ended })
        else record s { place = ended })
last_call s r = rw r refl

-- The invariant, of the stream's own items.
abbrev pub Alive : List String → Stream → Type 0
Alive ys s = IsLive ys (items s) s

module _ (ys : List String) (s : Stream) (h : Alive ys s) where
  looped-IsLive :
      (a : Answer)
      → s.place ≡ looping
      → let s' =
          if s.is_cancelled
          then record s { place = close_generator a }
          else record s { place = reserving } in
        Alive ys s'
  looped-IsLive a at =
      if-rule (Alive ys) s.is_cancelled
        (λ c.
          closing-IsLive ys (items s) s a h (ap is_over at) c s.capacity
            (omega (arith, ap held at)))
        (λ c.
          moves-IsLive ys (items s) s h reserving s.backpressure_waits (sym (ap held at)) refl
            (inl refl) (ap is_over at) refl)

  checked-IsLive :
      (a : Answer)
      → s.place ≡ reserved
      → let s' =
          if s.is_cancelled
          then record s { capacity = s.capacity + 1; place = close_generator a }
          else record s { place = pulling } in
        Alive ys s'
  checked-IsLive a at =
      if-rule (Alive ys) s.is_cancelled
        (λ c.
          closing-IsLive ys (items s) s a h (ap is_over at) c (s.capacity + 1)
            (omega (arith, ap held at)))
        (λ c. pulling-IsLive ys (items s) s h at c)

  offered-Alive :
      (ys' : List String) (p : Place) (i : Item)
      → IsLive ys' (items s ++ i ∷ []) (offered p i s)
      → Alive ys' (offered p i s)
  offered-Alive ys' p i k =
      subst (λ its. IsLive ys' its (offered p i s)) (sym (items-offered p i s)) k

  tried-Alive : (n : ℕ) → s.capacity ≡ n → s.place ≡ reserving → Alive ys (try_acquire n s)
  tried-Alive zero c at =
      moves-IsLive ys (items s) s h waiting (s.backpressure_waits + 1) (sym (ap held at)) refl
        (inl refl) (ap is_over at) refl
  tried-Alive (suc n) c at = takes-IsLive ys (items s) s h n c (ap held at) (ap is_over at)

  acquired-Alive : (n : ℕ) → s.capacity ≡ n → s.place ≡ waiting → Alive ys (acquire n s)
  acquired-Alive zero c at =
      moves-IsLive ys (items s) s h waiting s.backpressure_waits (sym (ap held at)) refl (inl refl)
        (ap is_over at) refl
  acquired-Alive (suc n) c at = takes-IsLive ys (items s) s h n c (ap held at) (ap is_over at)

  started-Alive : (a : Answer) → s.place ≡ starting → Alive ys (start a s)
  started-Alive (yields t) at =
      moves-IsLive ys (items s) s h looping s.backpressure_waits (sym (ap held at)) refl (inl refl)
        (ap is_over at) refl
  started-Alive (returns f) at =
      moves-IsLive ys (items s) s h looping s.backpressure_waits (sym (ap held at)) refl (inl refl)
        (ap is_over at) refl
  started-Alive (raises e) at =
      moves-IsLive ys (items s) s h (ending Finish.error (some e)) s.backpressure_waits
        (sym (ap held at)) refl (inr (sym (ap weight at))) (ap is_over at) refl

  quietly : (s' : Stream) → Alive ys s' → Alive (ys ++ []) s'
  quietly s' k = subst (λ l. Alive l s') (sym (append-nil ys)) k

  pulled-Alive :
      (a : Answer)
      → s.place ≡ pulling
      → s.running ≡ true
      → Alive (ys ++ yield_of pulling a) (pull a s)
  pulled-Alive (yields t) at r =
      subst (Alive (ys ++ t ∷ [])) (offer-running looping (token t) s r)
        (offered-Alive (ys ++ t ∷ []) looping (token t) (token-IsLive ys (items s) s h t at))
  pulled-Alive (returns f) at r = quietly _ (gives-IsLive ys (items s) s h (stop_value f) none at)
  pulled-Alive (raises e) at r = quietly _ (gives-IsLive ys (items s) s h Finish.error (some e) at)

  reported-Alive :
      s.place ≡ reporting → Alive (ys ++ []) (schedule report (record s { place = ended }))
  reported-Alive at =
      let s' = schedule report (record s { place = ended }) in
      subst (λ its. IsLive (ys ++ []) its s')
        (ap (λ l. s.queue ++ l)
          (sym (puts-append s.scheduled (report ∷ []) ∙ append-nil (puts s.scheduled))))
        (reported-IsLive ys (items s) s h (s.scheduled ++ report ∷ []) at)

  pub produce-Alive :
      (p : Place) (a : Answer)
      → s.place ≡ p
      → s.running ≡ true
      → Alive (ys ++ yield_of p a) (produce p a s)
  unfolding produce
  produce-Alive starting a at r = quietly _ (started-Alive a at)
  produce-Alive looping a at r = quietly _ (looped-IsLive a at)
  produce-Alive reserving a at r = quietly _ (tried-Alive s.capacity refl at)
  produce-Alive waiting a at r = quietly _ (acquired-Alive s.capacity refl at)
  produce-Alive reserved a at r = quietly _ (checked-IsLive a at)
  produce-Alive pulling a at r = pulled-Alive a at r
  produce-Alive (ending f e) a at r =
      subst (Alive (ys ++ [])) (offer-running reporting (terminal f e) s r) (
        offered-Alive (ys ++ []) reporting (terminal f e) (terminal-IsLive ys (items s) s h f e at))
  produce-Alive reporting a at r = subst (Alive (ys ++ [])) (last_call s r) (reported-Alive at)
  produce-Alive ended a at r = quietly _ h
