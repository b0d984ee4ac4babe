-- ===== src/Audit/Tamper.antt =====
-- What the hash chain of engine/audit/log.py commits to.
use inference_engine.Prelude.{
  ℕ, ◌≡◌, ◌≢◌, refl, sym, ap, ◌∙◌, some, List, [], ◌∷◌, ◌++◌, length, Text, text_eq, text_eq_iff,
  arith, inl, inr, ◌⊎◌, Bool-cases, none, Option-cases, some_inj, In,
}
use inference_engine.Audit.{
  Codec, Entry, Row, Log, genesis_hash, last_hash, canonical_of, verify_log,
}
use inference_engine.Audit.Chain.{head_of, last_hash-genesis, intact, IsLinked, IsChain}
use inference_engine.Audit.Race.{intact-IsChain}

pub append_inj : (p q s t : Text) → length p ≡ length q → p ++ s ≡ q ++ t → (p ≡ q) × (s ≡ t)
append_inj [] [] s t h e = (refl, e)
append_inj [] (y ∷ q) s t h e = absurd (omega (arith, h))
append_inj (x ∷ p) [] s t h e = absurd (omega (arith, h))
append_inj (x ∷ p) (y ∷ q) s t h e =
    let tails : p ++ s ≡ q ++ t = cc in
    let heads : x ≡ y = cc in
    let r = append_inj p q s t (omega (arith, h)) tails in (cc (heads, r.0), r.1)

module _ {D : Type 0} (c : Codec D) where
  -- `json.dumps` with sorted keys: different values have different texts.
  abbrev pub IsExact : Type 0
  IsExact =
      (a b : Entry D)
      → c.canonical a.ts a.actor a.action a.target a.detail
        ≡ c.canonical b.ts b.actor b.action b.target b.detail
      → (a.ts ≡ b.ts)
        × (a.actor ≡ b.actor)
        × (a.action ≡ b.action)
        × (a.target ≡ b.target)
        × (a.detail ≡ b.detail)

  abbrev entry_of : Row → D → Entry D
  entry_of r d = record {
    ts = r.ts;
    actor = r.actor;
    action = r.action;
    target = r.target;
    detail = d;
  }

  -- Two rows that say when, who, what and on what alike, at one place in the chain
  pub record IsSameRow (x y : Row) : Type 0 where
    pub same_ts : x.ts ≡ y.ts
    pub same_actor : x.actor ≡ y.actor
    pub same_action : x.action ≡ y.action
    pub same_target : x.target ≡ y.target
    pub same_detail : c.loads x.detail ≡ c.loads y.detail
    pub same_prev : x.prev_hash ≡ y.prev_hash
    pub same_hash : x.hash ≡ y.hash

  abbrev pub SameRows : List Row → List Row → Type 0
  SameRows [] [] = Unit
  SameRows [] (y ∷ ys) = ⊥
  SameRows (x ∷ xs) [] = ⊥
  SameRows (x ∷ xs) (y ∷ ys) = IsSameRow x y × SameRows xs ys

  -- The text that a row's hash is the digest of
  abbrev pub Hashes : Row → Text → Type 0
  Hashes x t = (s : Text) × (canonical_of c x ≡ some s) × (t ≡ x.prev_hash ++ s)

  -- A row of one log and a row of the other hash different texts to one digest.
  abbrev pub Collision : List Row → List Row → Type 0
  Collision xs ys =
      (x : Row) × In x xs
      × (y : Row) × In y ys
      × (s : Text) × Hashes x s
      × (t : Text) × Hashes y t
      × (s ≢ t)
      × (c.sha256 s ≡ c.sha256 t)

  loads_same :
      (exact : IsExact) (x y : Row) (s : Text)
      → canonical_of c x ≡ some s
      → canonical_of c y ≡ some s
      → x.prev_hash ≡ y.prev_hash
      → x.hash ≡ y.hash
      → IsSameRow x y
  loads_same exact x y s h k p q = elim (Option-cases (c.loads x.detail)) [
    | inl a ↦ let g : none ≡ some s = rw (canonical_of, a) at h in absurd cc
    | inr (d, a) ↦ elim (Option-cases (c.loads y.detail)) [
      | inl b ↦ let g : none ≡ some s = rw (canonical_of, b) at k in absurd cc
      | inr (d', b) ↦
          let one : some (c.canonical x.ts x.actor x.action x.target d) ≡ some s =
            rw (canonical_of, a) at h in
          let two : some (c.canonical y.ts y.actor y.action y.target d') ≡ some s =
            rw (canonical_of, b) at k in
          let e =
            exact (entry_of x d) (entry_of y d') (some_inj _ s one ∙ sym (some_inj _ s two)) in
          record {
            same_ts = e.0;
            same_actor = e.1;
            same_action = e.2;
            same_target = e.3;
            same_detail = a ∙ ap some e.4 ∙ sym b;
            same_prev = p;
            same_hash = q;
          }
    ]
  ]

  Collision-later : (x y : Row) (xs ys : List Row) → Collision xs ys → Collision (x ∷ xs) (y ∷ ys)
  Collision-later x y xs ys (a, m, b, n, s, hs, t, ht, apart, same) =
      (a, inr m, b, inr n, s, hs, t, ht, apart, same)

  module _ (exact : IsExact) (wide : (t : Text) → length (c.sha256 t) ≡ 64) where
    -- Two linked rows with one hash
    linked_rows :
        (p q : Text) (x y : Row) (xs ys : List Row)
        → length p ≡ length q
        → IsLinked c p x
        → IsLinked c q y
        → x.hash ≡ y.hash
        → ((p ≡ q) × IsSameRow x y) ⊎ Collision (x ∷ xs) (y ∷ ys)
    linked_rows p q x y xs ys w (s, es, ps, hs) (t, et, pt, ht) same =
        elim (Bool-cases (text_eq (p ++ s) (q ++ t))) [
          | inr k ↦ inr (
            x,
            inl refl,
            y,
            inl refl,
            p ++ s,
            (s, es, ap (λ u. u ++ s) (sym ps)),
            q ++ t,
            (t, et, ap (λ u. u ++ t) (sym pt)),
            (λ e. let yes_same = (text_eq_iff (p ++ s) (q ++ t)).1 e in absurd (cc (yes_same, k))),
            sym hs ∙ same ∙ ht,
          )
          | inl k ↦
              let r = append_inj p q s t w ((text_eq_iff (p ++ s) (q ++ t)).0 k) in
              inl (r.0, loads_same exact x y s es (et ∙ ap some (sym r.1)) (ps ∙ r.0 ∙ sym pt) same)
        ]

    chained_rows :
        (p q : Text) (xs ys : List Row)
        → length p ≡ 64
        → length q ≡ 64
        → length xs ≡ length ys
        → IsChain c p xs
        → IsChain c q ys
        → head_of p xs ≡ head_of q ys
        → ((p ≡ q) × SameRows xs ys) ⊎ Collision xs ys
    chained_rows p q [] [] wp wq w h k e = inl (e, tt)
    chained_rows p q [] (y ∷ ys) wp wq w h k e = absurd (omega (arith, w))
    chained_rows p q (x ∷ xs) [] wp wq w h k e = absurd (omega (arith, w))
    chained_rows p q (x ∷ xs) (y ∷ ys) wp wq w h k e =
        let wx : length x.hash ≡ 64 = ap length h.0.3 ∙ wide (p ++ h.0.0) in
        let wy : length y.hash ≡ 64 = ap length k.0.3 ∙ wide (q ++ k.0.0) in
        elim (chained_rows x.hash y.hash xs ys wx wy (omega (arith, w)) h.1 k.1 e) [
          | inr r ↦ inr (Collision-later x y xs ys r)
          | inl r ↦ elim (linked_rows p q x y xs ys (omega (arith, wp, wq)) h.0 k.0 r.0) [
            | inr s ↦ inr s
            | inl s ↦ inl (s.0, (s.1, r.1))
          ]
        ]

  -- Where different values have different texts and digests have 64 digits: two logs of as many
  -- events that both verify and end in one hash say the same of each event (when, who, what, on what
  -- and the detail that is read back), at the same places; or a row of the one and a row of the other
  -- hash different texts to one digest.
  pub verify_log-SameRows :
      (exact : IsExact) (wide : (t : Text) → length (c.sha256 t) ≡ 64) (n : ℕ) (log log' : Log)
      → verify_log c log ≡ some (intact n)
      → verify_log c log' ≡ some (intact n)
      → last_hash log.rows ≡ last_hash log'.rows
      → SameRows log.rows log'.rows ⊎ Collision log.rows log'.rows
  verify_log-SameRows exact wide n log log' h k e =
      let old = intact-IsChain c n log h in
      let new = intact-IsChain c n log' k in
      elim (chained_rows exact wide genesis_hash genesis_hash log.rows log'.rows refl refl
        (omega (arith, old.1, new.1)) old.0 new.0
        (sym (last_hash-genesis log.rows) ∙ e ∙ last_hash-genesis log'.rows)) [
          | inr r ↦ inr r
          | inl r ↦ inl r.1
        ]
