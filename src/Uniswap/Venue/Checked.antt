-- ===== src/Uniswap/Venue/Checked.antt =====
-- What the checks of the venue establish (crates/uniswap/src/validate.rs and amount.rs).
use nofomo.Prelude.{
  ℕ, Bool, true, false, not, Text, codes, ok, ◌≡◌, refl, sym, ◌∙◌, ap, Option, none, some,
  strip_prefix, ◌==◌, ==_iff, bind-eq-ok, bail_if-ok, ok-injective, bail_if, some_or-ok, some_or,
  context, all, eq_ignore_ascii_case, arith,
}
use nofomo.Prelude.Json.{Json}
use nofomo.Domain.Units.Digits.{read_decimal}
use nofomo.Domain.Units.{is_empty}
use nofomo.Uniswap.Amount.{is_ascii_hexdigit, validate_decimal_integer, same_quantity}
use nofomo.Uniswap.Amount.Hex.{read_hex, hex_to_decimal_lem}
use nofomo.Uniswap.Amount.Same.{quantity, IsQuantity, same_quantity_sound}
use nofomo.Uniswap.Fields.{decimal_of, decimal_value, string_field, get_str}
use nofomo.Uniswap.Validate.{
  is_bad_call, validate_evm_address, validate_transaction, calldata_of, numeric_chain,
}

decimal_of-quantity :
    (raw : Text) (stripped : Option Text) {out : Text}
    → strip_prefix (codes "0x") raw ≡ stripped
    → IsQuantity raw
    → decimal_of raw stripped ≡ ok out
    → read_decimal out ≡ quantity raw
unfolding decimal_of
decimal_of-quantity raw (some hex) e h run =
    let digits : (is_empty hex ≡ false) × (all is_ascii_hexdigit hex ≡ true) = rw e at h in
    let (text, made, _, _, same) = hex_to_decimal_lem hex digits.0 digits.1 in
    let reads : quantity raw ≡ read_hex hex = rw e refl in
    ap read_decimal (ok-injective (sym run ∙ made)) ∙ (same ∙ sym reads)
decimal_of-quantity raw none e h run =
    let (u, valid, same) = bind-eq-ok (context _ (validate_decimal_integer raw)) _ run in
    let reads : quantity raw ≡ read_decimal raw = rw e refl in
    ap read_decimal (sym (ok-injective same)) ∙ sym reads

pub checked : (b : Bool) (e : Text) {u : Unit {0}} → bail_if (not b) e ≡ ok u → b ≡ true
checked b e h = ground (arith, bail_if-ok (not b) e h)

module _ (json : Json) where
  -- What a transaction that passed the check has shown.
  pub record IsChecked (transaction : json.Value) (wallet : Text) (chain_id : ℕ)
      (expected_to : Text) (expected_value : Text) : Type 0 where
    pub from : Text
    pub has_from : string_field json transaction (codes "from") ≡ ok from
    pub from_wallet : eq_ignore_ascii_case from wallet ≡ true
    pub on_chain : numeric_chain json transaction ≡ some chain_id
    pub to : Text
    pub has_to : string_field json transaction (codes "to") ≡ ok to
    pub to_expected : eq_ignore_ascii_case to expected_to ≡ true
    pub value : Text
    pub has_value : get_str json (codes "value") transaction ≡ some value
    pub same : same_quantity value expected_value ≡ ok true

  pub validate_transaction-IsChecked :
      (transaction : json.Value) (wallet : Text) (chain_id : ℕ) (expected_to expected_value : Text)
      → validate_transaction json transaction wallet chain_id expected_to expected_value ≡ ok tt
      → IsChecked transaction wallet chain_id expected_to expected_value
  unfolding validate_transaction
  validate_transaction-IsChecked transaction wallet chain_id expected_to expected_value h =
      let (from, has_from, h1) = bind-eq-ok (string_field json transaction (codes "from")) _ h in
      let (u2, e2, h2) = bind-eq-ok (bail_if (not (eq_ignore_ascii_case from wallet)) _) _ h1 in
      let (actual, e3, h3) = bind-eq-ok (some_or _ (numeric_chain json transaction)) _ h2 in
      let (u4, e4, h4) = bind-eq-ok (bail_if (not (actual == chain_id)) _) _ h3 in
      let (to, has_to, h5) = bind-eq-ok (string_field json transaction (codes "to")) _ h4 in
      let (u6, e6, h6) = bind-eq-ok (context _ (validate_evm_address to)) _ h5 in
      let (u7, e7, h7) = bind-eq-ok (bail_if (not (eq_ignore_ascii_case to expected_to)) _) _ h6 in
      let (calldata, e8, h8) = bind-eq-ok (string_field json transaction (codes "data")) _ h7 in
      let (u9, e9, h9) = bind-eq-ok (bail_if (is_bad_call (calldata_of calldata)) _) _ h8 in
      let (value, e10, h10) =
        bind-eq-ok (some_or _ (get_str json (codes "value") transaction)) _ h9 in
      let (same, e11, h11) = bind-eq-ok (same_quantity value expected_value) _ h10 in
      record {
        from = from;
        has_from = has_from;
        from_wallet = checked _ _ e2;
        on_chain = some_or-ok _ _ e3 ∙ ap some ((==_iff actual chain_id).0 (checked _ _ e4));
        to = to;
        has_to = has_to;
        to_expected = checked _ _ e7;
        value = value;
        has_value = some_or-ok _ _ e10;
        same = e11 ∙ ap ok (checked _ _ h11);
      }

  -- The value that a built transaction sends along is the quantity that was expected.
  pub decimal_value-quantity :
      (transaction : json.Value) (raw expected : Text) {out : Text}
      → get_str json (codes "value") transaction ≡ some raw
      → same_quantity raw expected ≡ ok true
      → decimal_value json transaction ≡ ok out
      → read_decimal out ≡ quantity expected
  unfolding decimal_value
  decimal_value-quantity transaction raw expected has_value same run =
      let (is_quantity, _, equal) = same_quantity_sound raw expected same in
      decimal_of-quantity raw (strip_prefix (codes "0x") raw) refl is_quantity (rw has_value at run)
      ∙ equal
