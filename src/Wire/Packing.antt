-- ===== src/Wire/Packing.antt =====
-- What `solidityPack` produces, as rules: one for each kind of piece, and two to join pieces.
use optics_monorepo.Prelude.{
  ℕ, ◌^◌, ◌<◌, ◌≡◌, ap, List, [], ◌∷◌, ◌++◌, Text, ok, length, ltb, arith, append-nil, true,
  eq_refl,
}
use optics_monorepo.Wire.Bytes.{be}
use optics_monorepo.Wire.Hex.{
  HexLib, IsLawful, SolType, Value, uint, fixed, dynamic, num, hex, pack_one, pack_all,
}

module _ (H : HexLib) where
  pub data PacksOne : SolType → Value → List ℕ → Type 0 where
    number : (w n : ℕ) → n < 256 ^ w → PacksOne (uint w) (num n) (be w n)
    big :
        (w n : ℕ) (t : Text)
        → H.big_number t ≡ ok n
        → n < 256 ^ w
        → PacksOne (uint w) (hex t) (be w n)
    byte : (n : ℕ) → n < 256 → PacksOne (fixed 1) (num n) (n ∷ [])
    exact :
        (w : ℕ) (t : Text) (bs : List ℕ)
        → H.arrayify t ≡ ok bs
        → length bs ≡ w
        → PacksOne (fixed w) (hex t) bs
    whole : (t : Text) (bs : List ℕ) → H.arrayify t ≡ ok bs → PacksOne dynamic (hex t) bs

  pub data Packs : List (SolType × Value) → List ℕ → Type 0 where
    last : {t : SolType} {v : Value} {xs : List ℕ} → PacksOne t v xs → Packs ((t, v) ∷ []) xs
    next :
        {t : SolType} {v : Value} {rest : List (SolType × Value)} {xs ys : List ℕ}
        → PacksOne t v xs
        → Packs rest ys
        → Packs ((t, v) ∷ rest) (xs ++ ys)

  pack_one-PacksOne :
      {t : SolType} {v : Value} {bs : List ℕ}
      → PacksOne t v bs
      → pack_one H.arrayify H.big_number t v ≡ ok bs
  pack_one-PacksOne (number w n h) = let e : ltb n (256 ^ w) ≡ true = ground arith in rw e
  pack_one-PacksOne (big w n t p h) = let e : ltb n (256 ^ w) ≡ true = ground arith in rw (p, e)
  pack_one-PacksOne (byte n h) = let e : ltb n 256 ≡ true = ground arith in rw e
  pack_one-PacksOne (exact w t bs h e) = rw (h, e, eq_refl)
  pack_one-PacksOne (whole t bs h) = h

  pack_all-Packs :
      {ps : List (SolType × Value)} {bs : List ℕ}
      → Packs ps bs
      → pack_all H.arrayify H.big_number ps ≡ ok bs
  pack_all-Packs (last {xs = xs} p) =
      rw (pack_one-PacksOne p) (ap (λ (bs : List ℕ). ok bs) (append-nil xs))
  pack_all-Packs (next p q) = rw (pack_one-PacksOne p, pack_all-Packs q)

  pub solidity_pack-Packs :
      IsLawful H
      → {ps : List (SolType × Value)} {bs : List ℕ} → Packs ps bs
      → H.solidity_pack ps ≡ ok (H.hexlify bs)
  solidity_pack-Packs L p = L.solidity_pack_lem _ _ (pack_all-Packs p)
