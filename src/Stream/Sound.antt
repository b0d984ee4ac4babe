-- ===== src/Stream/Sound.antt =====
-- The invariant of a token stream (engine/inference/stream.py), with the texts that its generator
-- has yielded.
use inference_engine.Prelude.{
  ℕ, ◌+◌, ◌≤◌, ◌<◌, ◌≡◌, refl, ap, Bool, true, false, ◌||◌, none, some, List, [], ◌∷◌, ◌++◌, String,
  count, any, arith,
}
use inference_engine.Stream.Types.{
  Item, token, terminal, Call, put, report, Place, starting, reserved, pulling, ending, reporting,
  ended, Result, Stream,
}
use inference_engine.Stream.{join_parts}

abbrev pub bit : Bool → ℕ
bit true = 1
bit false = 0

abbrev pub is_token : Item → Bool
is_token (token t) = true
is_token (terminal f e) = false

abbrev pub is_terminal : Item → Bool
is_terminal (token t) = false
is_terminal (terminal f e) = true

-- The texts of the tokens among these items
abbrev pub texts : List Item → List String
texts [] = []
texts (token t ∷ xs) = t ∷ texts xs
texts (terminal f e ∷ xs) = texts xs

-- The items that the loop has yet to put into the queue
abbrev pub puts : List Call → List Item
puts [] = []
puts (put i ∷ cs) = i ∷ puts cs
puts (report ∷ cs) = puts cs

-- The items on their way to the consumer
abbrev pub items : Stream → List Item
items s = s.queue ++ puts s.scheduled

-- The slots of the semaphore that the producer has in hand, and whether it may yet offer a token
-- without another slot.
abbrev pub held : Place → ℕ
held reserved = 1
held pulling = 1
held _ = 0

abbrev pub pull_weight : Place → ℕ
pull_weight pulling = 1
pull_weight _ = 0

-- The room that the queue has to have for what the producer may offer without another slot.
abbrev pub weight : Place → ℕ
weight starting = 1
weight pulling = 1
weight (ending f e) = 1
weight _ = 0

-- The producer has offered its terminal.
abbrev pub is_over : Place → Bool
is_over reporting = true
is_over ended = true
is_over _ = false

-- Nothing stands behind a terminal.
abbrev pub EndsOnce : List Item → Type 0
EndsOnce [] = Unit
EndsOnce (x ∷ xs) = (is_terminal x ≡ true → xs ≡ []) × EndsOnce xs

-- What holds of a stream that is not closed, and whose queue has a bound.
pub record IsOpen (its : List Item) (s : Stream) : Type 0 where
  pub uncancelled : s.is_cancelled ≡ false
  pub margin : count is_token its + count is_terminal its + weight s.place ≤ s.maxsize
  pub none_lost : s.full_errors ≡ 0
  pub complete :
      (r : Result)
      → s.result ≡ some r
      → (its ≡ [])
        × (is_over s.place ≡ true)
        × (r.text ≡ join_parts s.parts)
        × (r.completion_tokens ≡ s.index)
  pub pending : is_over s.place ≡ true → s.result ≡ none → any is_terminal its ≡ true

-- What holds while the loop runs.
pub record IsLive (ys : List String) (its : List Item) (s : Stream) : Type 0 where
  pub slots : s.capacity + held s.place + count is_token its ≡ s.maxsize + bit s.closed
  pub room : count is_token its + pull_weight s.place ≤ s.maxsize
  pub order : s.parts ++ texts its ≡ ys
  pub last : EndsOnce its
  pub stops : s.closed ≡ true → s.is_cancelled ≡ true
  pub awaits : s.closing ≡ true → s.closed ≡ true
  pub over : any is_terminal its ≡ true → is_over s.place ≡ true
  pub unclosed : s.closed ≡ false → 0 < s.maxsize → IsOpen its s

-- An item behind the others
pub texts-append : (xs ys : List Item) → texts (xs ++ ys) ≡ texts xs ++ texts ys
texts-append [] ys = refl
texts-append (token t ∷ xs) ys = ap (λ r. t ∷ r) (texts-append xs ys)
texts-append (terminal f e ∷ xs) ys = texts-append xs ys

pub puts-append : (xs ys : List Call) → puts (xs ++ ys) ≡ puts xs ++ puts ys
puts-append [] ys = refl
puts-append (put i ∷ xs) ys = ap (λ r. i ∷ r) (puts-append xs ys)
puts-append (report ∷ xs) ys = puts-append xs ys

pub EndsOnce-append :
    (xs : List Item) (i : Item) → any is_terminal xs ≡ false → EndsOnce (xs ++ i ∷ [])
EndsOnce-append [] i h = (λ k. refl, tt)
EndsOnce-append (token t ∷ xs) i h = (λ k. cc, EndsOnce-append xs i h)
EndsOnce-append (terminal f e ∷ xs) i h = cc

pub any-append {ℓ} :
    {A : Type ℓ} (p : A → Bool) (xs ys : List A) → any p (xs ++ ys) ≡ any p xs || any p ys
any-append p [] ys = refl
any-append p (x ∷ xs) ys = ground (arith, any-append p xs ys)

pub none_terminal : (its : List Item) → any is_terminal its ≡ false → count is_terminal its ≡ 0
none_terminal [] h = refl
none_terminal (token t ∷ its) h = none_terminal its h
none_terminal (terminal f e ∷ its) h = cc
