-- ===== src/Decoder/Answers.antt =====
-- What `decode_property` does with any block of bytes.
use cdump.Prelude.{
  ℕ, zero, suc, ◌+◌, ◌*◌, ◌/◌, ◌%◌, ◌^◌, ◌<◌, ◌≤◌, ◌≡◌, ◌⊎◌, inl, inr, refl, sym, ap, subst, ◌∙◌,
  List, [], ◌∷◌, ◌++◌, Outcome, ok, throw, runtime_error, ◌>>=◌, >>=-cong, >>=-assoc, length,
  length-append, arith, All,
}
use cdump.Bytes.{IsByte}
use cdump.Decoder.{Decoder, get, get_string, get8, get16, Visitor, property_loop, decode_property}
use cdump.Decoder.Blocks.{string8, string16, Property, properties, property_block, Fits, add_all}

abbrev pub invalid {ℓ} : {A : Type ℓ} → Outcome A
invalid = throw (runtime_error "Invalid encoded block")

get_string-cases :
    (len : ℕ) (d : Decoder)
    → ((text rest : List ℕ) × ((length text ≡ len)
          × (d ≡ text ++ rest)
          × (get_string len d ≡ ok (text, rest))))
      ⊎ (get_string len d ≡ invalid)
unfolding get_string get
get_string-cases zero d = inl ([], d, (refl, refl, refl))
get_string-cases (suc len) [] = inr refl
get_string-cases (suc len) (b ∷ d) = elim (get_string-cases len d) [
  | inl (text, rest, (size, cut, e)) ↦
      inl (b ∷ text, rest, (ap suc size, ap (λ t. b ∷ t) cut, rw e refl))
  | inr e ↦ inr (rw e refl)
]

get8-cases :
    (d : Decoder)
    → All IsByte d
    → ((text rest : List ℕ) × ((length text < 256)
          × (d ≡ string8 text ++ rest)
          × (get8 d ≡ ok (text, rest))))
      ⊎ (get8 d ≡ invalid)
unfolding get8 get
get8-cases [] h = inr refl
get8-cases (len ∷ d) h = elim (get_string-cases len d) [
  | inl (text, rest, (size, cut, e)) ↦
      inl (text, rest, (omega (arith, size, h.0), rw (size, cut) refl, e))
  | inr e ↦ inr e
]

high_of : (high low n : ℕ) → n ≡ high * 256 + low → low < 256 → n / 256 ≡ high
high_of high low n e h = omega arith

low_of : (high low n : ℕ) → n ≡ high * 256 + low → low < 256 → n % 256 ≡ low
low_of high low n e h = omega arith

get16-cases :
    (d : Decoder)
    → All IsByte d
    → ((text rest : List ℕ) × ((length text < 2 ^ 16)
          × (d ≡ string16 text ++ rest)
          × (get16 d ≡ ok (text, rest))))
      ⊎ (get16 d ≡ invalid)
unfolding get16 get
get16-cases [] h = inr refl
get16-cases (high ∷ []) h = inr refl
get16-cases (high ∷ low ∷ d) h = elim (get_string-cases (high * 256 + low) d) [
  | inl (text, rest, (size, cut, e)) ↦ inl (
    text,
    rest,
    (
      omega (arith, size, h.0, h.1.0),
      rw (high_of high low (length text) size h.1.0, low_of high low (length text) size h.1.0, cut)
          refl,
      e,
    ),
  )
  | inr e ↦ inr e
]

-- What `run` makes of any bytes: the calls for some properties, and then the bytes are used up, or the
-- exception.
abbrev pub Rounds : {S : Type 0} → Visitor S → Decoder → (S → Outcome S) → Type 0
Rounds {S} visitor d run =
    (ps : List Property) × (All Fits ps
      × (((d ≡ properties ps) × ((s : S) → run s ≡ add_all visitor ps s))
          ⊎ ((s : S) → run s ≡ (add_all visitor ps s >>= λ _. invalid))))

All-tail : (xs ys : List ℕ) → All IsByte (xs ++ ys) → All IsByte ys
All-tail [] ys h = h
All-tail (x ∷ xs) ys h = All-tail xs ys h.1

module _ {S : Type 0} (visitor : Visitor S) where
  -- The rounds for a key and a value, from those for the rest.
  property_loop-step :
      (fuel : ℕ) (b : ℕ) (d key value mid rest : List ℕ) (s : S)
      → get8 (b ∷ d) ≡ ok (key, mid)
      → get16 mid ≡ ok (value, rest)
      → property_loop visitor (suc fuel) (b ∷ d) s
        ≡ (visitor.add_property key value s >>= property_loop visitor fuel rest)
  unfolding property_loop
  property_loop-step fuel b d key value mid rest s ek ev = rw (ek, ev) refl

  property_loop-further :
      (fuel : ℕ) (b : ℕ) (d key value mid rest : List ℕ)
      → (length key < 256) × (b ∷ d ≡ string8 key ++ mid) × (get8 (b ∷ d) ≡ ok (key, mid))
      → (length value < 2 ^ 16) × (mid ≡ string16 value ++ rest) × (get16 mid ≡ ok (value, rest))
      → Rounds visitor rest (property_loop visitor fuel rest)
      → Rounds visitor (b ∷ d) (property_loop visitor (suc fuel) (b ∷ d))
  property_loop-further fuel b d key value mid rest k v (ps, (fits, inl (cut, calls))) = (
    (key, value) ∷ ps,
    (
      ((k.0, v.0), fits),
      inl (
        k.1 ∙ ap (λ t. string8 key ++ t) (v.1 ∙ ap (λ t. string16 value ++ t) cut),
        λ s.
            property_loop-step fuel b d key value mid rest s k.2 v.2
            ∙ >>=-cong (visitor.add_property key value s) _ _ calls,
      ),
    ),
  )
  property_loop-further fuel b d key value mid rest k v (ps, (fits, inr calls)) = (
    (key, value) ∷ ps,
    (
      ((k.0, v.0), fits),
      inr λ s.
          property_loop-step fuel b d key value mid rest s k.2 v.2
          ∙ >>=-cong (visitor.add_property key value s) _ _ calls
          ∙ sym (>>=-assoc (visitor.add_property key value s) (add_all visitor ps) (λ _. invalid)),
    ),
  )

  property_loop-Rounds :
      (fuel : ℕ) (d : Decoder)
      → All IsByte d
      → length d ≤ fuel
      → Rounds visitor d (property_loop visitor fuel d)
  unfolding property_loop
  property_loop-Rounds zero [] h e = ([], (tt, inl (refl, λ s. refl)))
  property_loop-Rounds (suc fuel) [] h e = ([], (tt, inl (refl, λ s. refl)))
  property_loop-Rounds zero (b ∷ d) h e = absurd (omega arith)
  property_loop-Rounds (suc fuel) (b ∷ d) h e = elim (get8-cases (b ∷ d) h) [
    | inr bad ↦ ([], (tt, inr λ s. rw bad refl))
    | inl (key, mid, (kb, kcut, ek)) ↦
        let mid_h : All IsByte mid = All-tail (string8 key) mid (subst (All IsByte) kcut h) in
        elim (get16-cases mid mid_h) [
          | inr bad ↦ ([], (tt, inr λ s. rw (ek, bad) refl))
          | inl (value, rest, (vb, vcut, ev)) ↦
              property_loop-further fuel b d key value mid rest (kb, kcut, ek) (vb, vcut, ev)
                (property_loop-Rounds fuel rest
                  (All-tail (string16 value) rest (subst (All IsByte) vcut mid_h))
                  (omega (
                    arith,
                    ap length kcut,
                    ap length vcut,
                    length-append (string8 key) mid,
                    length-append (string16 value) rest,
                  )))
        ]
  ]

-- The three ways in which `run` may go on from a block.
abbrev pub Decoded : {S : Type 0} → Visitor S → List ℕ → (S → Outcome S) → Type 0
Decoded {S} visitor block run =
    ((type : List ℕ) × (ps : List Property) × ((length type < 256)
        × All Fits ps
        × (block ≡ property_block type ps)
        × ((s : S) → run s ≡ (visitor.set_type type s >>= add_all visitor ps))))
    ⊎ ((s : S) → run s ≡ invalid)
    ⊎ ((type : List ℕ) × (ps : List Property) × ((s : S)
          → run s ≡ (visitor.set_type type s >>= λ s'. add_all visitor ps s' >>= λ _. invalid)))

Decoded-Rounds :
    {S : Type 0} (visitor : Visitor S) (block type : List ℕ) (d : Decoder) (rounds : S → Outcome S)
    → length type < 256
    → block ≡ string8 type ++ d
    → Rounds visitor d rounds
    → Decoded visitor block (λ s. visitor.set_type type s >>= rounds)
Decoded-Rounds visitor block type d rounds small cut (ps, (fits, inl (rest, calls))) = inl (
  type,
  ps,
  (
    small,
    fits,
    cut ∙ ap (λ t. string8 type ++ t) rest,
    λ s. >>=-cong (visitor.set_type type s) _ _ calls,
  ),
)
Decoded-Rounds visitor block type d rounds small cut (ps, (fits, inr calls)) =
    inr (inr (type, ps, λ s. >>=-cong (visitor.set_type type s) _ _ calls))

decode_property-type :
    {S : Type 0} (visitor : Visitor S) (block type : List ℕ) (d : Decoder) (s : S)
    → get8 block ≡ ok (type, d)
    → decode_property visitor block s
      ≡ (visitor.set_type type s >>= property_loop visitor (length block) d)
unfolding decode_property
decode_property-type visitor block type d s e = rw e refl

-- Let the block consist of bytes. Either it is a type string and properties behind their lengths, and
-- `decode_property` makes the visitor's calls for these in order and no others; or it throws the decoder's
-- `runtime_error` before any call; or it makes the calls for some type string and properties, each of
-- which may throw, and then throws the decoder's `runtime_error`. So it always ends.
pub decode_property-Answers :
    {S : Type 0} (visitor : Visitor S) (block : List ℕ)
    → All IsByte block
    → Decoded visitor block (decode_property visitor block)
unfolding decode_property
decode_property-Answers visitor block h = elim (get8-cases block h) [
  | inr bad ↦ inr (inl λ s. rw bad refl)
  | inl (type, d, (small, cut, e)) ↦
      subst (Decoded visitor block) (λ i s. sym (decode_property-type visitor block type d s e) i)
        (Decoded-Rounds visitor block type d _ small cut (
          property_loop-Rounds visitor (length block) d
            (All-tail (string8 type) d (subst (All IsByte) cut h))
            (omega (arith, ap length cut, length-append (string8 type) d))))
]
