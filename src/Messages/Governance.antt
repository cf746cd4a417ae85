-- ===== src/Messages/Governance.antt =====
-- Governance messages of typescript/optics-tests/lib/core.ts: `formatTransferGovernor`,
-- `formatSetRouter` and `formatCalls`.
use optics_monorepo.Prelude.{
  ℕ, ◌^◌, ◌<◌, ◌≡◌, refl, ap, ◌∙◌, Bool, true, false, ◌||◌, not, some, List, [], ◌∷◌, ◌++◌, Text,
  codes, Result, ok, external, missing_call, ◌>>=◌, ◌>>◌, guard, or_throw, length, drop,
  append_assoc, append-nil, arith, text_eq, All-append,
}
use optics_monorepo.Wire.Bytes.{be, AreBytes, IsByte, be-AreBytes}
use optics_monorepo.Wire.Hex.{HexLib, IsLawful, uint, fixed, dynamic, num, hex}
use optics_monorepo.Wire.Packing.{number, byte, exact, whole, last, next, solidity_pack-Packs}
use optics_monorepo.Messages.Ids.{get_hex_string_byte_length}

pub data GovernanceMessage : Type 0 where
  call transfer_governor set_router : GovernanceMessage

abbrev pub governance_code : GovernanceMessage → ℕ
governance_code call = 1
governance_code transfer_governor = 2
governance_code set_router = 3

pub record CallData : Type 0 where
  pub to : Text
  pub data_hex : Text

abbrev is_empty : Text → Bool
is_empty [] = true
is_empty (_ ∷ _) = false

module _ (H : HexLib) where
  unfoldable pub format_transfer_governor : ℕ → Text → Result Text
  format_transfer_governor new_domain new_address = H.solidity_pack (
      (fixed 1, num (governance_code transfer_governor))
      ∷ (uint 4, num new_domain)
      ∷ (fixed 32, hex new_address)
      ∷ [])

  unfoldable pub format_set_router : ℕ → Text → Result Text
  format_set_router domain address = H.solidity_pack (
      (fixed 1, num (governance_code set_router))
      ∷ (uint 4, num domain)
      ∷ (fixed 32, hex address)
      ∷ [])

  -- The loop of `formatCalls` over the calls that are left, with `callBody`. A length with a fraction
  -- is no integer, which the packing rejects.
  calls_body : List CallData → Text → Result Text
  calls_body [] body = ok body
  calls_body (c ∷ cs) body = do
    guard (not (is_empty c.to || is_empty c.data_hex)) missing_call
    data_len ← or_throw (get_hex_string_byte_length c.data_hex) external
    hex_bytes ←
        H.solidity_pack
          ((fixed 32, hex c.to) ∷ (uint 32, num data_len) ∷ (dynamic, hex c.data_hex) ∷ [])
    calls_body cs (body ++ drop 2 hex_bytes)

  unfoldable pub format_calls : List CallData → Result Text
  unfolding calls_body
  format_calls calls_data = do
    body ← calls_body calls_data (codes "0x")
    H.solidity_pack (
        (fixed 1, num (governance_code call))
        ∷ (fixed 1, num (length calls_data))
        ∷ (dynamic, hex body)
        ∷ [])

module _ (H : HexLib) (L : IsLawful H) where
  -- A governor transfer and a router enrollment are 37 bytes: the type, the domain, the address.
  -- The two differ in the type alone.
  pub format_transfer_governor_lem :
      (d : ℕ) (address : Text) (bs : List ℕ)
      → d < 2 ^ 32
      → H.arrayify address ≡ ok bs
      → length bs ≡ 32
      → (format_transfer_governor H d address ≡ ok (H.hexlify (2 ∷ be 4 d ++ bs)))
        × (format_set_router H d address ≡ ok (H.hexlify (3 ∷ be 4 d ++ bs)))
  unfolding format_transfer_governor format_set_router
  format_transfer_governor_lem d address bs small h size = (
    solidity_pack-Packs H L
        (next (byte 2 (omega arith)) (next (number 4 d small) (last (exact 32 address bs h size)))),
    solidity_pack-Packs H L
        (next (byte 3 (omega arith)) (next (number 4 d small) (last (exact 32 address bs h size)))),
  )

  -- A call that can be sent, with the bytes of its recipient and of its data.
  pub record IsCall (c : CallData) (to input : List ℕ) : Type 0 where
    pub to_bytes : H.arrayify c.to ≡ ok to
    pub to_size : length to ≡ 32
    pub input_bytes : H.arrayify c.data_hex ≡ ok input
    pub input_size : length input < 256 ^ 32

  abbrev pub call_bytes : List ℕ → List ℕ → List ℕ
  call_bytes to input = to ++ (be 32 (length input) ++ input)

  -- The calls, with the bytes that they stand for.
  pub data AreCalls : List CallData → List ℕ → Type 0 where
    none_left : AreCalls [] []
    one_more :
        {c : CallData} {cs : List CallData} {to input rest : List ℕ}
        → IsCall c to input
        → AreCalls cs rest
        → AreCalls (c ∷ cs) (call_bytes to input ++ rest)

  is_empty-arrayify : (t : Text) {bs : List ℕ} → H.arrayify t ≡ ok bs → is_empty t ≡ false
  is_empty-arrayify t {bs} h = let (s, e, _) = L.arrayify-form t bs h in ap is_empty e

  byte_length-arrayify :
      (t : Text) {bs : List ℕ}
      → H.arrayify t ≡ ok bs
      → get_hex_string_byte_length t ≡ some (length bs)
  unfolding get_hex_string_byte_length text_eq
  byte_length-arrayify t {bs} h =
      let (s, e, size) = L.arrayify-form t bs h in rw e (ground (arith, size))

  call_step :
      (c : CallData) (cs : List CallData) (body : Text) {to input : List ℕ}
      → IsCall c to input
      → calls_body H (c ∷ cs) body
        ≡ calls_body H cs (body ++ drop 2 (H.hexlify (call_bytes to input)))
  unfolding calls_body
  call_step c cs body {to} {input} v =
      let packed = solidity_pack-Packs H L (
        next (exact 32 c.to to v.to_bytes v.to_size) (
          next (number 32 (length input) v.input_size)
            (last (whole c.data_hex input v.input_bytes)))) in
      rw (
        is_empty-arrayify c.to v.to_bytes,
        is_empty-arrayify c.data_hex v.input_bytes,
        byte_length-arrayify c.data_hex v.input_bytes,
        packed,
      )

  call_bytes-AreBytes :
      {c : CallData} {to input : List ℕ} → IsCall c to input → AreBytes (call_bytes to input)
  call_bytes-AreBytes {c} {to} {input} v =
      All-append IsByte to _ (L.arrayify-AreBytes c.to to v.to_bytes) (
        All-append IsByte (be 32 (length input)) input (be-AreBytes 32 (length input))
          (L.arrayify-AreBytes c.data_hex input v.input_bytes))

  calls_body_lem :
      (cs : List CallData) (bs : List ℕ) (body : Text) (done : List ℕ)
      → AreCalls cs bs
      → H.arrayify body ≡ ok done
      → (out : Text) × (calls_body H cs body ≡ ok out) × (H.arrayify out ≡ ok (done ++ bs))
  unfolding calls_body
  calls_body_lem [] bs body done none_left h = (body, refl, rw (append-nil done) h)
  calls_body_lem (c ∷ cs) bs body done (one_more {to = to} {input = input} {rest = rest} v vs) h =
      let (out, runs, reads) =
        calls_body_lem cs rest (body ++ drop 2 (H.hexlify (call_bytes to input)))
          (done ++ call_bytes to input) vs
          (L.arrayify-concat body done (call_bytes to input) h (call_bytes-AreBytes v)) in
      (
        out,
        call_step c cs body v ∙ runs,
        reads ∙ ap (λ (xs : List ℕ). ok xs) (append_assoc done (call_bytes to input) rest),
      )

  -- Calls in number below 256, each to 32 bytes, format to the type, their number, and for each call
  -- in order its recipient, the length of its data in 32 bytes, and its data.
  pub format_calls_lem :
      (cs : List CallData) (bs : List ℕ)
      → AreCalls cs bs
      → length cs < 256
      → format_calls H cs ≡ ok (H.hexlify (1 ∷ length cs ∷ bs))
  unfolding format_calls
  format_calls_lem cs bs calls few =
      let (out, runs, reads) = calls_body_lem cs bs (codes "0x") [] calls L.arrayify-nil in
      rw runs (
        solidity_pack-Packs H L
          (next (byte 1 (omega arith)) (next (byte (length cs) few) (last (whole out bs reads)))))
