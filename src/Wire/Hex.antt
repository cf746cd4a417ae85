-- ===== src/Wire/Hex.antt =====
-- What the program uses of `ethers` on hexadecimal texts (`@ethersproject/bytes`, `bignumber`,
-- `solidity`, `keccak256`), as a parameter of the codecs, with its documented behaviour as laws.
use optics_monorepo.Prelude.{
  ℕ, ◌-◌, ◌^◌, ◌≤◌, ◌≡◌, List, [], ◌∷◌, ◌++◌, Text, to_lower_case, Result, ok, err, external, ◌>>=◌,
  guard, ltb, ◌==◌, length, drop, ◌*◌, replicate, if◌then◌else◌,
}
use optics_monorepo.Wire.Bytes.{be, of_be, AreBytes}

-- The types that the program packs, and the values that it packs.
pub data SolType : Type 0 where
  uint : ℕ → SolType
  fixed : ℕ → SolType
  dynamic : SolType

pub data Value : Type 0 where
  num : ℕ → Value
  hex : Text → Value

pub record HexLib : Type 0 where
  pub hexlify : List ℕ → Text
  pub arrayify : Text → Result (List ℕ)
  pub hex_strip_zeros : Text → Text
  pub hex_zero_pad : Text → ℕ → Text
  pub zero_pad : List ℕ → ℕ → Result (List ℕ)
  pub big_number : Text → Result ℕ
  pub solidity_pack : List (SolType × Value) → Result Text
  pub keccak256 : Text → Text

module _ (arrayify : Text → Result (List ℕ)) (big_number : Text → Result ℕ) where
  -- The number that a value denotes, and the bytes that it denotes.
  abbrev pub value_number : Value → Result ℕ
  value_number (num n) = ok n
  value_number (hex t) = big_number t

  abbrev pub value_bytes : Value → Result (List ℕ)
  value_bytes (num n) = if ltb n 256 then ok (n ∷ []) else err external
  value_bytes (hex t) = arrayify t

  -- Solidity's non-standard packing (`abi.encodePacked`) of one value, widths in bytes.
  abbrev pub pack_one : SolType → Value → Result (List ℕ)
  pack_one (uint w) v = do n ← value_number v; guard (ltb n (256 ^ w)) external >>= λ _. ok (be w n)
  pack_one (fixed w) v = do bs ← value_bytes v; guard (length bs == w) external >>= λ _. ok bs
  pack_one dynamic v = value_bytes v

  abbrev pub pack_all : List (SolType × Value) → Result (List ℕ)
  pack_all [] = ok []
  pack_all ((t, v) ∷ rest) = do xs ← pack_one t v; ys ← pack_all rest; ok (xs ++ ys)

module _ (H : HexLib) where
  pub record IsLawful : Type 0 where
    pub arrayify-hexlify : (bs : List ℕ) → AreBytes bs → H.arrayify (H.hexlify bs) ≡ ok bs
    -- What is read from a text are bytes, and the case of its digits does not matter.
    pub arrayify-AreBytes : (t : Text) (bs : List ℕ) → H.arrayify t ≡ ok bs → AreBytes bs
    pub arrayify-lower :
        (t : Text) (bs : List ℕ) → H.arrayify t ≡ ok bs → H.arrayify (to_lower_case t) ≡ ok bs
    -- A text that can be read is `0x` and two digits for each byte; digits may be appended.
    pub arrayify-nil : H.arrayify (b'0' ∷ b'x' ∷ []) ≡ ok []
    pub arrayify-form :
        (t : Text) (bs : List ℕ)
        → H.arrayify t ≡ ok bs
        → (s : Text) × (t ≡ b'0' ∷ b'x' ∷ s) × (length s ≡ 2 * length bs)
    pub arrayify-concat :
        (t : Text) (xs ys : List ℕ)
        → H.arrayify t ≡ ok xs
        → AreBytes ys
        → H.arrayify (t ++ drop 2 (H.hexlify ys)) ≡ ok (xs ++ ys)
    -- Zeros that were stripped come back when the text is padded.
    pub arrayify-pad_strip :
        (t : Text) (bs : List ℕ) (w : ℕ)
        → H.arrayify t ≡ ok bs
        → length bs ≤ w
        → H.arrayify (H.hex_zero_pad (H.hex_strip_zeros t) w)
          ≡ ok (replicate (w - length bs) 0 ++ bs)
    pub zero_pad_lem :
        (bs : List ℕ) (w : ℕ)
        → length bs ≤ w
        → H.zero_pad bs w ≡ ok (replicate (w - length bs) 0 ++ bs)
    pub big_number-hexlify :
        (bs : List ℕ) → AreBytes bs → H.big_number (H.hexlify bs) ≡ ok (of_be bs)
    pub solidity_pack_lem :
        (ps : List (SolType × Value)) (bs : List ℕ)
        → pack_all H.arrayify H.big_number ps ≡ ok bs
        → H.solidity_pack ps ≡ ok (H.hexlify bs)
