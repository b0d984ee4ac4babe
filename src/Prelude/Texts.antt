-- ===== src/Prelude/Texts.antt =====
-- Texts as the lists of their code points, with the methods of Python's `str` that the code uses.
use Prim.Native.Nat.{ℕ, zero, suc}
use Prim.Native.Char.{code}
use Prim.Native.String.{String}
use mathlib.Core.Path.{◌≡◌, refl, sym, ◌∙◌, ap}
use mathlib.Core.Logic.{◌↔◌}
use mathlib.Core.Bool.{Bool, true, false, ◌&&◌, ◌||◌}
use mathlib.Core.List.{List, [], ◌∷◌, ◌++◌, append-nil, append_assoc}
use native.Mathlib.Omega.{arith}
use inference_engine.Prelude.Tests.{if◌then◌else◌, ◌==◌, leb}
use inference_engine.Prelude.Lists.{any, All, is_empty}

abbrev pub Text : Type 0
Text = List ℕ

abbrev pub codes : String → Text
codes String.[] = []
codes (String.◌∷◌ c s) = code c ∷ codes s

abbrev pub text_eq : Text → Text → Bool
text_eq [] [] = true
text_eq [] (y ∷ ys) = false
text_eq (x ∷ xs) [] = false
text_eq (x ∷ xs) (y ∷ ys) = (x == y) && text_eq xs ys

pub text_eq_iff : (s t : Text) → (text_eq s t ≡ true) ↔ (s ≡ t)
text_eq_iff [] [] = (λ h. refl, λ h. refl)
text_eq_iff [] (y ∷ ys) = (λ h. cc, λ h. cc)
text_eq_iff (x ∷ xs) [] = (λ h. cc, λ h. cc)
text_eq_iff (x ∷ xs) (y ∷ ys) =
    (λ h. ground (arith, text_eq_iff xs ys), λ h. ground (arith, h, text_eq_iff xs ys))

-- The ASCII characters that `str.split()` and `str.strip()` take for whitespace
abbrev pub is_space : ℕ → Bool
is_space c = (leb 9 c && leb c 13) || ((leb 28 c && leb c 31) || (c == 32))

abbrev pub IsWord : Text → Type 0
IsWord w = (is_empty w ≡ false) × (any is_space w ≡ false)

-- `text.split()`, from the word `word` that has begun
pub split_from : Text → Text → List Text
split_from word [] = if is_empty word then [] else word ∷ []
split_from word (c ∷ cs) =
    let next = split_from [] cs in
    let more = split_from (word ++ c ∷ []) cs in
    if is_space c then (if is_empty word then next else word ∷ next) else more

unfoldable pub split : Text → List Text
unfolding split_from
split text = split_from [] text

-- `" ".join(words)`
unfoldable pub join_words : List Text → Text
join_words [] = []
join_words (w ∷ []) = w
join_words (w ∷ v ∷ ws) = w ++ 32 ∷ join_words (v ∷ ws)

is_empty-append : (u v : Text) → is_empty v ≡ false → is_empty (u ++ v) ≡ false
is_empty-append [] v h = h
is_empty-append (x ∷ u) v h = refl

-- A word without spaces is taken whole.
split_from-word :
    (word w rest : Text)
    → any is_space w ≡ false
    → split_from word (w ++ rest) ≡ split_from (word ++ w) rest
unfolding split_from
split_from-word word [] rest h = ap (λ u. split_from u rest) (sym (append-nil word))
split_from-word word (c ∷ w) rest h =
    let p : is_space c ≡ false = ground (arith, h) in
    let q : any is_space w ≡ false = ground (arith, h) in
    rw p (
      split_from-word (word ++ c ∷ []) w rest q
      ∙ ap (λ u. split_from u rest) (append_assoc word (c ∷ []) w))

split_from-space :
    (word rest : Text)
    → is_empty word ≡ false
    → split_from word (32 ∷ rest) ≡ word ∷ split_from [] rest
unfolding split_from
split_from-space word rest h = rw h refl

split_from-end : (word : Text) → is_empty word ≡ false → split_from word [] ≡ word ∷ []
unfolding split_from
split_from-end word h = rw h refl

-- Splitting gives back the words that were joined.
pub split-join_words : (ws : List Text) → All IsWord ws → split (join_words ws) ≡ ws
unfolding split join_words
split-join_words [] h = refl
split-join_words (w ∷ []) h =
    ap (λ u. split_from [] u) (sym (append-nil w))
    ∙ (split_from-word [] w [] h.0.1 ∙ split_from-end w h.0.0)
split-join_words (w ∷ v ∷ ws) h =
    split_from-word [] w (32 ∷ join_words (v ∷ ws)) h.0.1
    ∙ (split_from-space w (join_words (v ∷ ws)) h.0.0
        ∙ ap (λ r. w ∷ r) (split-join_words (v ∷ ws) h.1))

-- `text.partition(c)` without its middle part
abbrev pub partition : ℕ → Text → Text × Text
partition c [] = ([], [])
partition c (x ∷ xs) =
    let rest = partition c xs in if x == c then ([], xs) else (x ∷ rest.0, rest.1)

-- `text.startswith(prefix)`
abbrev pub starts_with : Text → Text → Bool
starts_with [] text = true
starts_with (p ∷ ps) [] = false
starts_with (p ∷ ps) (x ∷ xs) = (p == x) && starts_with ps xs

abbrev pub drop : ℕ → Text → Text
drop zero xs = xs
drop (suc n) [] = []
drop (suc n) (x ∷ xs) = drop n xs

abbrev pub push_code : ℕ → List Text → List Text
push_code x [] = (x ∷ []) ∷ []
push_code x (w ∷ ws) = (x ∷ w) ∷ ws

-- `text.split(c)`
abbrev pub split_on : ℕ → Text → List Text
split_on c [] = [] ∷ []
split_on c (x ∷ xs) = let rest = split_on c xs in if x == c then [] ∷ rest else push_code x rest

pub split_on-plain : (c : ℕ) (t : Text) → any (λ x. x == c) t ≡ false → split_on c t ≡ t ∷ []
split_on-plain c [] h = refl
split_on-plain c (x ∷ t) h =
    let p : (x == c) ≡ false = ground (arith, h) in
    let q : any (λ x. x == c) t ≡ false = ground (arith, h) in rw (p, split_on-plain c t q) refl

pub split_on-append :
    (c : ℕ) (t rest : Text)
    → any (λ x. x == c) t ≡ false
    → split_on c (t ++ c ∷ rest) ≡ t ∷ split_on c rest
split_on-append c [] rest h = let e : (c == c) ≡ true = ground arith in rw e refl
split_on-append c (x ∷ t) rest h =
    let p : (x == c) ≡ false = ground (arith, h) in
    let q : any (λ x. x == c) t ≡ false = ground (arith, h) in
    rw (p, split_on-append c t rest q) refl
