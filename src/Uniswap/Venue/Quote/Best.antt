-- ===== src/Uniswap/Venue/Quote/Best.antt =====
-- The choice among the candidates (crates/uniswap/src/lib.rs, `quote`).
use Prim.Native.Nat.{compare, max, Ordering}
use native.Mathlib.Nat.{
  pow-suc, pow-zero, one-mul, zero-add, suc-add, mul_right_comm, mul-le-mul_right,
}
use nofomo.Prelude.{
  ℕ, zero, suc, true, List, [], ◌∷◌, ◌+◌, ◌-◌, ◌*◌, ◌^◌, ◌≤◌, ◌<◌, ◌≡◌, sym, ap, ◌∙◌, Text, ok,
  bind-eq-ok, ok-injective, err-ne-ok, bail_if, eq_ignore_ascii_case, ltb, Result-cases, inl, inr,
  ◌⊎◌, All, all, is_ascii_digit, arith,
}
use mathlib.Core.Path.{subst}
use nofomo.Prelude.Keys.{All-map}
use nofomo.Prelude.Json.{Json}
use nofomo.Config.{EvmChain}
use nofomo.Domain.Model.{QuoteTradeRequest, QuoteDraft}
use nofomo.Domain.Units.Digits.{read_decimal}
use nofomo.Uniswap.Amount.Compare.{compare_scaled_amounts_lem}
use nofomo.Uniswap.Venue.{UniswapVenue}
use native.Mathlib.Nat.{le_refl}
use nofomo.Uniswap.Venue.Quote.Floor.{IsOffer, candidate-IsOffer}
use nofomo.Uniswap.Venue.Quote.{
  Candidate, candidate, better, pick_by, pick, max_from, collect, best_draft, check_chains,
  requested_chains, no_chains, quote,
}

pow-add : (b m n : ℕ) → b ^ (m + n) ≡ b ^ m * b ^ n
pow-add b zero n = simp (zero-add, pow-zero, one-mul)
pow-add b (suc m) n = simp (suc-add, pow-suc, pow-add b m n) (mul_right_comm (b ^ m) (b ^ n) b)

pow-pos : (n : ℕ) → 0 < 10 ^ n
pow-pos zero = omega arith
pow-pos (suc n) = omega (arith, pow-suc 10 n, pow-pos n)

cancel : (x y p : ℕ) → 0 < p → x * p ≤ y * p → x ≤ y
cancel x y p h k = grind arith

-- An order of two products is kept by factors that bring both to one product.
cross_le : (a b p q x y m : ℕ) → p * x ≡ m → q * y ≡ m → 0 < m → a * p ≤ b * q → a * y ≤ b * x
cross_le a b p q x y m e f pos h =
    let scaled : a * p * (x * y) ≤ b * q * (x * y) = mul-le-mul_right (x * y) h in
    let left : a * y * m ≡ a * p * (x * y) = grind arith in
    let right : b * x * m ≡ b * q * (x * y) = grind arith in
    cancel (a * y) (b * x) m pos (omega arith)

chain_le : (a b c x y z : ℕ) → 0 < y → a * y ≤ b * x → b * z ≤ c * y → a * z ≤ c * x
chain_le a b c x y z pos h k =
    let first : a * y * z ≤ b * x * z = mul-le-mul_right z h in
    let second : b * z * x ≤ c * y * x = mul-le-mul_right x k in
    let left : a * z * y ≡ a * y * z = grind arith in
    let middle : b * x * z ≡ b * z * x = grind arith in
    let right : c * x * y ≡ c * y * x = grind arith in cancel (a * z) (c * x) y pos (omega arith)

-- One amount is at most another: each times the other's power of ten.
abbrev pub AtMost : {V : Type 0} → Candidate V → Candidate V → Type 0
AtMost c d =
    read_decimal c.raw_output * 10 ^ d.output_decimals
    ≤ read_decimal d.raw_output * 10 ^ c.output_decimals

scale_le :
    (a b da db m : ℕ)
    → da ≤ m
    → db ≤ m
    → a * 10 ^ (m - da) ≤ b * 10 ^ (m - db)
    → a * 10 ^ db ≤ b * 10 ^ da
scale_le a b da db m ha hb h =
    let whole_a : m - da + da ≡ m = omega arith in
    let whole_b : m - db + db ≡ m = omega arith in
    cross_le a b (10 ^ (m - da)) (10 ^ (m - db)) (10 ^ da) (10 ^ db) (10 ^ m)
      (sym (pow-add 10 (m - da) da) ∙ ap (λ (n : ℕ). 10 ^ n) whole_a)
      (sym (pow-add 10 (m - db) db) ∙ ap (λ (n : ℕ). 10 ^ n) whole_b) (pow-pos m) h

max_bounds : (a b : ℕ) → (a ≤ max a b) × (b ≤ max a b)
max_bounds a b = (ground arith, ground arith)

AtMost-trans : {V : Type 0} (c d e : Candidate V) → AtMost c d → AtMost d e → AtMost c e
AtMost-trans c d e h k =
    chain_le (read_decimal c.raw_output) (read_decimal d.raw_output) (read_decimal e.raw_output)
      (10 ^ c.output_decimals) (10 ^ d.output_decimals) (10 ^ e.output_decimals)
      (pow-pos d.output_decimals) h k

-- The output of a candidate is a text of digits.
abbrev HasDigits : {V : Type 0} → Candidate V → Type 0
HasDigits c = all is_ascii_digit c.raw_output ≡ true

-- Some element of a list has the property.
abbrev pub Some : {A : Type 0} → (A → Type 0) → List A → Type 0
Some P [] = ⊥
Some P (x ∷ xs) = P x ⊎ Some P xs

module _ (json : Json) where
  pick_by-AtMost :
      (o : Ordering) (c d : Candidate json.Value)
      → o
        ≡ compare
            (read_decimal c.raw_output
              * 10 ^ (max c.output_decimals d.output_decimals - c.output_decimals))
            (read_decimal d.raw_output
              * 10 ^ (max c.output_decimals d.output_decimals - d.output_decimals))
      → AtMost c (pick_by json o c d) × AtMost d (pick_by json o c d)
  pick_by-AtMost Ordering.gt c d e =
      let (hc, hd) = max_bounds c.output_decimals d.output_decimals in
      (le_refl _, scale_le _ _ d.output_decimals c.output_decimals _ hd hc (ground arith))
  pick_by-AtMost Ordering.eq c d e =
      let (hc, hd) = max_bounds c.output_decimals d.output_decimals in
      (scale_le _ _ c.output_decimals d.output_decimals _ hc hd (ground arith), le_refl _)
  pick_by-AtMost Ordering.lt c d e =
      let (hc, hd) = max_bounds c.output_decimals d.output_decimals in
      (scale_le _ _ c.output_decimals d.output_decimals _ hc hd (ground arith), le_refl _)

  pick-AtMost :
      (c d : Candidate json.Value)
      → HasDigits c
      → HasDigits d
      → AtMost c (pick json c d) × AtMost d (pick json c d)
  pick-AtMost c d h k =
      pick_by-AtMost (better json c d) c d (
        compare_scaled_amounts_lem c.raw_output c.output_decimals d.raw_output d.output_decimals h
          k)

  pick-either :
      (P : Candidate json.Value → Type 0) (o : Ordering) (c d : Candidate json.Value)
      → P c
      → P d
      → P (pick_by json o c d)
  pick-either P Ordering.gt c d h k = h
  pick-either P Ordering.eq c d h k = k
  pick-either P Ordering.lt c d h k = k

  max_from-either :
      (P : Candidate json.Value → Type 0) (best : Candidate json.Value)
      (cs : List (Candidate json.Value))
      → P best
      → All P cs
      → P (max_from json best cs)
  unfolding max_from
  max_from-either P best [] h k = h
  max_from-either P best (c ∷ cs) h k =
      max_from-either P (pick json best c) cs (pick-either P (better json best c) best c h k.0) k.1

  max_from-AtMost :
      (best : Candidate json.Value) (cs : List (Candidate json.Value))
      → HasDigits best
      → All HasDigits cs
      → AtMost best (max_from json best cs) × All (λ c. AtMost c (max_from json best cs)) cs
  unfolding max_from
  max_from-AtMost best [] h k = (le_refl _, tt)
  max_from-AtMost best (c ∷ cs) h k =
      let next = pick json best c in
      let (from_best, from_c) = pick-AtMost best c h k.0 in
      let (onwards, others) =
        max_from-AtMost next cs (pick-either HasDigits (better json best c) best c h k.0) k.1 in
      let final = max_from json next cs in
      (
        AtMost-trans best next final from_best onwards,
        (AtMost-trans c next final from_c onwards, others),
      )

  module _ (venue : UniswapVenue json.Value) (request : QuoteTradeRequest) where
    -- A candidate that some of these chains gave.
    abbrev pub Offered : List EvmChain → Candidate json.Value → Type 0
    Offered chains c = Some (λ (chain : EvmChain). candidate json venue request chain ≡ ok c) chains

    -- At least as good as the candidate of each of these chains that has one.
    abbrev pub Beats : List EvmChain → Candidate json.Value → Type 0
    Beats chains c =
        All
          (λ (chain : EvmChain).
            (d : Candidate json.Value) → candidate json venue request chain ≡ ok d → AtMost d c)
          chains

    All-Offered :
        (chain : EvmChain) (chains : List EvmChain) (cs : List (Candidate json.Value))
        → All (Offered chains) cs
        → All (Offered (chain ∷ chains)) cs
    All-Offered chain chains [] h = tt
    All-Offered chain chains (c ∷ cs) h = (inr h.0, All-Offered chain chains cs h.1)

    collect-Offered :
        (chains : List EvmChain) → All (Offered chains) (collect json venue request chains).0
    unfolding collect
    collect-Offered [] = tt
    collect-Offered (chain ∷ chains) =
        let rest =
          All-Offered chain chains (collect json venue request chains).0 (collect-Offered chains) in
        elim (Result-cases (candidate json venue request chain)) [
          | inl (c, e) ↦ rw e (inl e, rest)
          | inr (e, failed) ↦ rw failed rest
        ]

    Offered-HasDigits :
        (chains : List EvmChain) (c : Candidate json.Value) → Offered chains c → HasDigits c
    Offered-HasDigits [] c e = elim e [ ]
    Offered-HasDigits (chain ∷ chains) c (inl e) =
        (candidate-IsOffer json venue request chain e).floored.digits
    Offered-HasDigits (chain ∷ chains) c (inr e) = Offered-HasDigits chains c e

    collect-Beats :
        (chains : List EvmChain) (best : Candidate json.Value)
        → All (λ c. AtMost c best) (collect json venue request chains).0
        → Beats chains best
    unfolding collect
    collect-Beats [] best h = tt
    collect-Beats (chain ∷ chains) best h =
        elim (Result-cases (candidate json venue request chain)) [
          | inl (c, e) ↦
              let bounds = rw e at h in
              (
                λ d given.
                    subst (λ (d : Candidate json.Value). AtMost d best)
                      (ok-injective (sym e ∙ given)) bounds.0,
                collect-Beats chains best bounds.1,
              )
          | inr (e, failed) ↦ (
            λ d given. absurd (err-ne-ok (sym failed ∙ given)),
            collect-Beats chains best (rw failed at h),
          )
        ]

    best_draft-Beats :
        (chains : List EvmChain) (answers : List (Candidate json.Value) × List Text)
        {draft : QuoteDraft json.Value}
        → All (Offered chains) answers.0
        → ((best : Candidate json.Value) → All (λ c. AtMost c best) answers.0 → Beats chains best)
        → best_draft json answers ≡ ok draft
        → (c : Candidate json.Value) × Offered chains c × (c.draft ≡ draft) × Beats chains c
    unfolding best_draft
    best_draft-Beats chains ([], failures) offered beats h = absurd (err-ne-ok h)
    best_draft-Beats chains (c ∷ cs, failures) offered beats h =
        let digits =
          All-map (Offered chains) HasDigits (c ∷ cs) (λ d. Offered-HasDigits chains d) offered in
        let (first, others) = max_from-AtMost c cs digits.0 digits.1 in
        (
          max_from json c cs,
          max_from-either (Offered chains) c cs offered.0 offered.1,
          ok-injective h,
          beats (max_from json c cs) (first, others),
        )

    -- Whatever the API and the nodes answer, a quote that the venue gives is the draft of a candidate
    -- of a requested chain, and no requested chain has a candidate whose output is larger, where two
    -- outputs are compared as numbers with their decimal places.
    pub quote-Beats :
        {draft : QuoteDraft json.Value}
        → quote json venue request ≡ ok draft
        → (c : Candidate json.Value) × Offered (requested_chains json venue request) c
          × (c.draft ≡ draft)
          × Beats (requested_chains json venue request) c
    unfolding quote
    quote-Beats h =
        let chains = requested_chains json venue request in
        let (u1, e1, h1) =
          bind-eq-ok (bail_if (eq_ignore_ascii_case request.token_in request.token_out) _) _ h in
        let (u2, e2, h2) =
          bind-eq-ok (bail_if (ltb venue.max_slippage_bps request.slippage_bps) _) _ h1 in
        let (u3, e3, h3) = bind-eq-ok (check_chains json venue request.chains) _ h2 in
        let (u4, e4, h4) = bind-eq-ok (bail_if (no_chains json chains) _) _ h3 in
        best_draft-Beats chains (collect json venue request chains) (collect-Offered chains)
          (λ best. collect-Beats chains best) h4

    Offered-IsOffer :
        (chains : List EvmChain) (c : Candidate json.Value)
        → Offered chains c
        → Some (λ (chain : EvmChain). IsOffer json venue request chain c) chains
    Offered-IsOffer [] c e = elim e [ ]
    Offered-IsOffer (chain ∷ chains) c (inl e) = inl (candidate-IsOffer json venue request chain e)
    Offered-IsOffer (chain ∷ chains) c (inr e) = inr (Offered-IsOffer chains c e)

    -- A quote that the venue gives is planned on a requested chain, with the address of the input token
    -- there, the amount in its units, and the quote that the API answered, on a classic route, to the
    -- request for an exact input of that amount. The output of that quote is a text of digits that is
    -- not zero, and its minimum output is at least the output times 10000 - slippage_bps, divided by
    -- 10000; the draft shows both, with the decimal places of the output token.
    pub quote-IsOffer :
        {draft : QuoteDraft json.Value}
        → quote json venue request ≡ ok draft
        → (c : Candidate json.Value) × (c.draft ≡ draft)
          × Some
              (λ (chain : EvmChain). IsOffer json venue request chain c)
              (requested_chains json venue request)
    quote-IsOffer h =
        let (c, offered, same, _) = quote-Beats h in
        (c, same, Offered-IsOffer (requested_chains json venue request) c offered)
