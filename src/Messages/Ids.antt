-- ===== src/Messages/Ids.antt =====
-- Identifiers of 20 and 32 bytes: `canonizeId` and `evmId` of typescript/optics-provider/src/utils.ts,
-- `ethersAddressToBytes32` of typescript/optics-tests/lib/core.ts, `toBytes32` of
-- typescript/optics-deploy/src/utils.ts and `getHexStringByteLength` of typescript/optics-tests/lib/utils.ts.
use optics_monorepo.Prelude.{
  ◌↔◌, ◌⊎◌, inl, inr, sym, Error, ok-eq-ok, Bool-cases, ==_iff, ℕ, ◌-◌, ◌/◌, ◌%◌, Option, none,
  some, ◌≤◌, ◌<◌, ◌≡◌, ◌≢◌, refl, ap, ◌∙◌, ◌||◌, not, List, ◌++◌, Text, codes, text_eq,
  to_lower_case, Result, ok, err, too_long, bad_input, invalid_id_length, ◌>>=◌, ◌>>◌, guard, ltb,
  ◌==◌, if◌then◌else◌, length, drop, slice, replicate, take-length, arith,
}
use optics_monorepo.Wire.Hex.{HexLib, IsLawful}

-- The part of `ethers`' `BytesLike` that the program passes: a text or an array of bytes.
pub data BytesLike : Type 0 where
  text : Text → BytesLike
  bytes : List ℕ → BytesLike

module _ (H : HexLib) where
  abbrev pub to_bytes : BytesLike → Result (List ℕ)
  to_bytes (text t) = H.arrayify t
  to_bytes (bytes bs) = ok bs

  unfoldable pub canonize_id : BytesLike → Result (List ℕ)
  canonize_id data_in = do
    buf ← to_bytes data_in
    guard (not (ltb 32 (length buf))) too_long
    guard (length buf == 20 || length buf == 32) bad_input
    H.zero_pad buf 32

  unfoldable pub evm_id : BytesLike → Result Text
  evm_id data_in = do
    u8a ← to_bytes data_in
    if length u8a == 32
        then ok (H.hexlify (slice 12 32 u8a))
        else if length u8a == 20
        then ok (H.hexlify u8a)
        else err invalid_id_length

  unfoldable pub ethers_address_to_bytes32 : Text → Text
  ethers_address_to_bytes32 address = to_lower_case (H.hex_zero_pad (H.hex_strip_zeros address) 32)

-- `'0x' + '00'.repeat(12) + address.slice(2)`
unfoldable pub to_bytes32 : Text → Text
to_bytes32 address = codes "0x" ++ (replicate 24 b'0' ++ drop 2 address)

-- `none` stands for a number with a fraction, which `len / 2` is at an odd length.
unfoldable pub get_hex_string_byte_length : Text → Option ℕ
get_hex_string_byte_length hex_str =
    let len =
      if text_eq (slice 0 2 hex_str) (codes "0x") then length hex_str - 2 else length hex_str in
    if len % 2 == 0 then some (len / 2) else none

module _ (H : HexLib) (L : IsLawful H) where
  -- The cases of the length.
  pub canonize_id_lem :
      (d : BytesLike) (bs : List ℕ)
      → to_bytes H d ≡ ok bs
      → (length bs ≡ 20 → canonize_id H d ≡ ok (replicate 12 0 ++ bs))
        × (length bs ≡ 32 → canonize_id H d ≡ ok bs)
        × (32 < length bs → canonize_id H d ≡ err too_long)
        × (length bs ≤ 32 → length bs ≢ 20 → length bs ≢ 32 → canonize_id H d ≡ err bad_input)
  unfolding canonize_id
  canonize_id_lem d bs h = (
    λ e. rw (h, e) (L.zero_pad_lem bs 32 (omega arith) ∙ rw e refl),
    λ e. rw (h, e) (L.zero_pad_lem bs 32 (omega arith) ∙ rw e refl),
    λ e. rw h (ground arith),
    λ p q r. rw h (ground arith),
  )

  refused :
      {r : Result (List ℕ)} {thrown : Error} {c : List ℕ} (bs : List ℕ)
      → r ≡ err thrown
      → length bs ≢ 20
      → length bs ≢ 32
      → (r ≡ ok c)
        ↔ (((length bs ≡ 20) ⊎ (length bs ≡ 32)) × (c ≡ replicate (32 - length bs) 0 ++ bs))
  refused bs e u v =
      (λ q. absurd cc, λ (w, q). elim w [ inl m ↦ absurd (u m) | inr m ↦ absurd (v m) ])

  -- For an input that can be read as bytes, `canonizeId` returns exactly if there are 20 or 32 of them,
  -- and then these bytes, with as many zeros in front as make them 32.
  pub canonize_id-eq-ok_iff :
      (d : BytesLike) (bs : List ℕ)
      → to_bytes H d ≡ ok bs
      → (c : List ℕ)
      → (canonize_id H d ≡ ok c)
        ↔ (((length bs ≡ 20) ⊎ (length bs ≡ 32)) × (c ≡ replicate (32 - length bs) 0 ++ bs))
  canonize_id-eq-ok_iff d bs h c =
      let (short, full, long, odd) = canonize_id_lem d bs h in
      elim (Bool-cases (length bs == 20)) [
        | inl e ↦
            let n = (==_iff (length bs) 20).0 e in
            (
              λ q. (inl n, sym (ok-eq-ok (sym (short n) ∙ q)) ∙ rw n refl),
              λ (w, q). short n ∙ rw q (rw n refl),
            )
        | inr e ↦ elim (Bool-cases (length bs == 32)) [
          | inl f ↦
              let n = (==_iff (length bs) 32).0 f in
              (
                λ q. (inr n, sym (ok-eq-ok (sym (full n) ∙ q)) ∙ rw n refl),
                λ (w, q). full n ∙ rw q (rw n refl),
              )
          | inr f ↦ elim (Bool-cases (ltb 32 (length bs))) [
            | inl g ↦ refused bs (long (ground arith)) (ground arith) (ground arith)
            | inr g ↦
                refused bs (odd (ground arith) (ground arith) (ground arith)) (ground arith)
                  (ground arith)
          ]
        ]
      ]

  -- The EVM address of a canonized address of 20 bytes is that address.
  pub evm_id-canonize_id :
      (d : BytesLike) (bs : List ℕ)
      → to_bytes H d ≡ ok bs
      → length bs ≡ 20
      → (canonize_id H d >>= λ c. evm_id H (bytes c)) ≡ ok (H.hexlify bs)
  unfolding evm_id
  evm_id-canonize_id d bs h e =
      rw ((canonize_id_lem d bs h).0 e)
        (rw e (ap (λ (b : List ℕ). ok (H.hexlify b)) (take-length bs e)))

  -- Formatting an address for a message yields 32 bytes: its own, after zeros.
  pub arrayify-ethers_address_to_bytes32 :
      (t : Text) (bs : List ℕ)
      → H.arrayify t ≡ ok bs
      → length bs ≤ 32
      → H.arrayify (ethers_address_to_bytes32 H t) ≡ ok (replicate (32 - length bs) 0 ++ bs)
  unfolding ethers_address_to_bytes32
  arrayify-ethers_address_to_bytes32 t bs h fits =
      L.arrayify-lower _ _ (L.arrayify-pad_strip t bs 32 h fits)
