-- ===== src/Messages/BridgeRoundTrip.antt =====
-- Bridge messages, serialized (typescript/optics-tests/lib/bridge.ts) and parsed
-- (typescript/optics-provider/src/optics/messages/BridgeMessage.ts).
use optics_monorepo.Prelude.{
  ℕ, zero, suc, ◌%◌, ◌^◌, ◌<◌, ◌≡◌, refl, sym, ap, ◌∙◌, some, List, [], ◌∷◌, ◌++◌, Text, ok, ◌>>=◌,
  length, length-append, slice, take-append, drop-append, arith, append_assoc, append-nil,
  All-append,
}
use optics_monorepo.Wire.Bytes.{
  be, of_be-be, AreBytes, IsByte, be-AreBytes, length-be, read_uint32_piece, slice_piece,
}
use optics_monorepo.Wire.Hex.{HexLib, IsLawful, Value, num, hex}
use optics_monorepo.Wire.Packing.{
  number as packs_number, big, byte, exact, whole, last, next, solidity_pack-Packs, PacksOne,
}
use optics_monorepo.Wire.Hex.{uint}
use optics_monorepo.Messages.Ids.{text}
use optics_monorepo.Messages.Bridge.{
  number, FormatAction, Action, get_elem?, serialize_action, serialize_token_id, serialize_message,
  parse_action, parse_body,
}

module _ (H : HexLib) where
  -- The number of a value: its own, or that of its text.
  pub data HasNumber : Value → ℕ → Type 0 where
    plain : (n : ℕ) → HasNumber (num n) n
    read : (t : Text) (n : ℕ) → H.big_number t ≡ ok n → HasNumber (hex t) n

  -- The wire format of actions: what is sent, its bytes, what is received.
  pub data Encodes : FormatAction → List ℕ → Action → Type 0 where
    transfer :
        (recipient : Text) (amount : Value) (to : List ℕ) (n : ℕ)
        → H.arrayify recipient ≡ ok to
        → length to ≡ 32
        → HasNumber amount n
        → n < 256 ^ 32
        → Encodes
            (FormatAction.transfer recipient amount)
            (3 ∷ (to ++ be 32 n))
            (Action.transfer (H.hexlify to) n)
    details :
        (token_name symbol : Text) (xs ys : List ℕ) (decimals : ℕ)
        → H.arrayify token_name ≡ ok xs
        → length xs ≡ 32
        → H.arrayify symbol ≡ ok ys
        → length ys ≡ 32
        → decimals < 256
        → Encodes
            (FormatAction.details token_name symbol decimals)
            (4 ∷ (xs ++ (ys ++ be 1 decimals)))
            (Action.details (H.hexlify xs) (H.hexlify ys) (some decimals))
    request_details : Encodes FormatAction.request_details (5 ∷ []) Action.request_details

module _ (H : HexLib) (L : IsLawful H) where
  packs_amount :
      {v : Value} {n : ℕ} → HasNumber H v n → n < 256 ^ 32 → PacksOne H (uint 32) v (be 32 n)
  packs_amount (plain n) h = packs_number 32 n h
  packs_amount (read t n p) h = big 32 n t p h

  serialize_action-Encodes :
      {a : FormatAction} {bs : List ℕ} {b : Action}
      → Encodes H a bs b
      → serialize_action H a ≡ ok (H.hexlify bs)
  unfolding serialize_action
  serialize_action-Encodes (transfer t v to n h size p small) =
      solidity_pack-Packs H L
        (next (byte 3 (omega arith)) (next (exact 32 t to h size) (last (packs_amount p small))))
  serialize_action-Encodes (details s t xs ys d h size k size' small) = solidity_pack-Packs H L (
      next (byte 4 (omega arith)) (
        next (exact 32 s xs h size) (next (exact 32 t ys k size') (last (packs_number 1 d small)))))
  serialize_action-Encodes request_details = solidity_pack-Packs H L (last (byte 5 (omega arith)))

  get_last : (xs : List ℕ) (x n : ℕ) → length xs ≡ n → get_elem? (xs ++ x ∷ []) n ≡ some x
  get_last [] x zero e = refl
  get_last [] x (suc n) e = absurd (omega arith)
  get_last (y ∷ xs) x zero e = absurd (omega arith)
  get_last (y ∷ xs) x (suc n) e = get_last xs x n (omega arith)

  Encodes-AreBytes : {a : FormatAction} {bs : List ℕ} {b : Action} → Encodes H a bs b → AreBytes bs
  Encodes-AreBytes (transfer t v to n h size p small) =
      (omega arith, All-append IsByte to _ (L.arrayify-AreBytes t to h) (be-AreBytes 32 n))
  Encodes-AreBytes (details s t xs ys d h size k size' small) = (
    omega arith,
    All-append IsByte xs _ (L.arrayify-AreBytes s xs h)
        (All-append IsByte ys _ (L.arrayify-AreBytes t ys k) (be-AreBytes 1 d)),
  )
  Encodes-AreBytes request_details = (omega arith, tt)

  be_one : (d : ℕ) → d < 256 → be 1 d ≡ d ∷ []
  unfolding be
  be_one d h = let e : d % 256 ≡ d = omega arith in ap (λ (n : ℕ). n ∷ []) e

  parse_action-Encodes :
      {a : FormatAction} {bs : List ℕ} {b : Action} → Encodes H a bs b → parse_action H bs ≡ ok b
  unfolding parse_action
  parse_action-Encodes (transfer t v to n h size p small) =
      let total : length (to ++ be 32 n) ≡ 64 =
        omega (arith, length-append to (be 32 n), length-be 32 n) in
      let amount = L.big_number-hexlify (be 32 n) (be-AreBytes 32 n) in
      rw (
        total,
        drop-append to (be 32 n) size,
        amount,
        take-append to (be 32 n) size,
        of_be-be 32 n small,
      )
  parse_action-Encodes (details s t xs ys d h size k size' small) =
      let last_one : get_elem? (xs ++ (ys ++ d ∷ [])) 64 ≡ some d =
        ap (λ (z : List ℕ). get_elem? z 64) (sym (append_assoc xs ys (d ∷ [])))
        ∙ get_last (xs ++ ys) d 64 (omega (arith, length-append xs ys)) in
      let total : length (xs ++ (ys ++ d ∷ [])) ≡ 65 =
        omega (arith, length-append xs (ys ++ d ∷ []), length-append ys (d ∷ [])) in
      rw (be_one d small) (
        rw (
          total,
          last_one,
          take-append xs (ys ++ d ∷ []) size,
          drop-append xs (ys ++ d ∷ []) size,
          take-append ys (d ∷ []) size',
        ))
  parse_action-Encodes request_details = refl

  parse_body-layout :
      (d : ℕ) (id act : List ℕ) {b : Action}
      → d < 2 ^ 32
      → length id ≡ 32
      → AreBytes id
      → AreBytes act
      → parse_action H act ≡ ok b
      → parse_body H (H.hexlify ((be 4 d ++ id) ++ act))
        ≡ ok (record { token_domain = d; token_id = H.hexlify id; action = b })
  unfolding parse_body
  parse_body-layout d id act small size hid hact parsed =
      let token_size : length (be 4 d ++ id) ≡ 36 =
        omega (arith, length-append (be 4 d) id, length-be 4 d) in
      let whole_bytes =
        All-append IsByte (be 4 d ++ id) act (All-append IsByte (be 4 d) id (be-AreBytes 4 d) hid)
          hact in
      let domain = read_uint32_piece [] id d {whole = be 4 d ++ id} small refl refl in
      let id_part : slice 4 36 (be 4 d ++ id) ≡ id =
        slice_piece (be 4 d) id [] (be 4 d ++ id) (simp append-nil) 4 36 (length-be 4 d)
          (omega arith) in
      rw (L.arrayify-hexlify _ whole_bytes) (
        rw (take-append (be 4 d ++ id) act token_size, drop-append (be 4 d ++ id) act token_size)
          (rw (domain, id_part, parsed)))

  -- Serializing a bridge message of a 32-bit domain, a 32-byte identifier and an action that has an
  -- encoding succeeds, and parsing the result returns the domain, the identifier, and the action.
  pub parse_body-serialize_message :
      (d : ℕ) (id : Text) (a : FormatAction) {bs act : List ℕ} {b : Action}
      → d < 2 ^ 32
      → H.arrayify id ≡ ok bs
      → length bs ≡ 32
      → Encodes H a act b
      → (serialize_message H
            (record { token_id = record { domain = number d; id = text id }; action = a })
          >>= parse_body H)
        ≡ ok (record { token_domain = d; token_id = H.hexlify bs; action = b })
  unfolding serialize_message serialize_token_id
  parse_body-serialize_message d id a {bs} {act} small h size enc =
      let id_bytes = L.arrayify-AreBytes id bs h in
      let act_bytes = Encodes-AreBytes enc in
      let token_bytes = All-append IsByte (be 4 d) bs (be-AreBytes 4 d) id_bytes in
      let token =
        solidity_pack-Packs H L (next (packs_number 4 d small) (last (exact 32 id bs h size))) in
      let joined = solidity_pack-Packs H L (
        next (whole _ (be 4 d ++ bs) (L.arrayify-hexlify _ token_bytes))
          (last (whole _ act (L.arrayify-hexlify act act_bytes)))) in
      rw (token, serialize_action-Encodes enc, joined)
        (parse_body-layout d bs act small size id_bytes act_bytes (parse_action-Encodes enc))
