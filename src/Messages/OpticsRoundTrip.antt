-- ===== src/Messages/OpticsRoundTrip.antt =====
-- Optics messages, formatted (typescript/optics-tests/lib/core.ts) and parsed
-- (typescript/optics-provider/src/optics/messages/OpticsMessage.ts).
use optics_monorepo.Prelude.{
  ℕ, ◌-◌, ◌^◌, ◌≤◌, ◌<◌, ◌≡◌, refl, ◌∙◌, List, [], ◌++◌, Text, ok, ◌>>=◌, length, replicate,
  length-append, length-replicate, arith, append_assoc, append-nil, drop, slice, All-append,
  All-replicate,
}
use optics_monorepo.Wire.Bytes.{
  be, AreBytes, IsByte, be-AreBytes, length-be, read_uint32, read_uint32_piece, slice_piece,
  drop_piece,
}
use optics_monorepo.Wire.Hex.{HexLib, IsLawful}
use optics_monorepo.Wire.Packing.{number, exact, whole, last, next, solidity_pack-Packs}
use optics_monorepo.Messages.Ids.{arrayify-ethers_address_to_bytes32}
use optics_monorepo.Messages.Optics.{parse_message, format_message, destination_and_nonce}

-- The bytes of a message.
abbrev layout : ℕ → List ℕ → ℕ → ℕ → List ℕ → List ℕ → List ℕ
layout o s n d r b = be 4 o ++ (s ++ (be 4 n ++ (be 4 d ++ (r ++ b))))

module _ (o n d : ℕ) (s r b : List ℕ) (s_size : length s ≡ 32) (r_size : length r ≡ 32) where
  layout-from : o < 2 ^ 32 → read_uint32 (layout o s n d r b) 0 ≡ ok o
  layout-from small = read_uint32_piece [] (s ++ (be 4 n ++ (be 4 d ++ (r ++ b)))) o small refl refl

  layout-sender : slice 4 36 (layout o s n d r b) ≡ s
  layout-sender =
      slice_piece (be 4 o) s (be 4 n ++ (be 4 d ++ (r ++ b))) (layout o s n d r b) refl 4 36
        (length-be 4 o) (omega arith)

  layout-nonce : n < 2 ^ 32 → read_uint32 (layout o s n d r b) 36 ≡ ok n
  layout-nonce small =
      read_uint32_piece (be 4 o ++ s) (be 4 d ++ (r ++ b)) n small (simp append_assoc)
        (omega (arith, length-append (be 4 o) s, length-be 4 o))

  layout-destination : d < 2 ^ 32 → read_uint32 (layout o s n d r b) 40 ≡ ok d
  layout-destination small =
      read_uint32_piece (be 4 o ++ s ++ be 4 n) (r ++ b) d small (simp append_assoc)
        (omega (arith, length-append {0}, length-be))

  layout-recipient : slice 44 76 (layout o s n d r b) ≡ r
  layout-recipient =
      slice_piece (be 4 o ++ s ++ be 4 n ++ be 4 d) r b (layout o s n d r b) (simp append_assoc) 44
        76 (omega (arith, length-append {0}, length-be)) (omega arith)

  layout-body : drop 76 (layout o s n d r b) ≡ b
  layout-body =
      drop_piece (be 4 o ++ s ++ be 4 n ++ be 4 d ++ r) b [] (layout o s n d r b)
        (simp (append_assoc, append-nil)) 76 (omega (arith, length-append {0}, length-be))
      ∙ append-nil b

abbrev pub padded : List ℕ → List ℕ
padded bs = replicate (32 - length bs) 0 ++ bs

length-padded : (bs : List ℕ) → length bs ≤ 32 → length (padded bs) ≡ 32
length-padded bs h = omega (
  arith,
  length-append (replicate (32 - length bs) 0) bs,
  length-replicate {A = ℕ} (32 - length bs) 0,
)

padded-AreBytes : (bs : List ℕ) → AreBytes bs → AreBytes (padded bs)
padded-AreBytes bs h =
    All-append IsByte (replicate (32 - length bs) 0) bs
      (All-replicate IsByte (32 - length bs) (omega arith)) h

module _ (H : HexLib) (L : IsLawful H) where
  layout-AreBytes :
      (o n d : ℕ) (s r b : List ℕ)
      → AreBytes s
      → AreBytes r
      → AreBytes b
      → AreBytes (layout o s n d r b)
  layout-AreBytes o n d s r b hs hr hb = All-append IsByte (be 4 o) _ (be-AreBytes 4 o) (
      All-append IsByte s _ hs (
        All-append IsByte (be 4 n) _ (be-AreBytes 4 n)
          (All-append IsByte (be 4 d) _ (be-AreBytes 4 d) (All-append IsByte r b hr hb))))

  parse_message-layout :
      (o n d : ℕ) (s r b : List ℕ)
      → o < 2 ^ 32
      → n < 2 ^ 32
      → d < 2 ^ 32
      → length s ≡ 32
      → length r ≡ 32
      → AreBytes s
      → AreBytes r
      → AreBytes b
      → parse_message H (H.hexlify (layout o s n d r b))
        ≡ ok (record {
          from = o;
          sender = H.hexlify s;
          nonce = n;
          destination = d;
          recipient = H.hexlify r;
          body = H.hexlify b;
        })
  unfolding parse_message
  parse_message-layout o n d s r b ho hn hd ls lr hs hr hb =
      rw (L.arrayify-hexlify _ (layout-AreBytes o n d s r b hs hr hb)) (
        rw (
          layout-from o n d s r b ls lr ho,
          layout-nonce o n d s r b ls lr hn,
          layout-destination o n d s r b ls lr hd,
          layout-sender o n d s r b ls lr,
          layout-recipient o n d s r b ls lr,
          layout-body o n d s r b ls lr,
        ))

  format_message_lem :
      (o n d : ℕ) (sender recipient body : Text) {s r b : List ℕ}
      → o < 2 ^ 32
      → n < 2 ^ 32
      → d < 2 ^ 32
      → H.arrayify sender ≡ ok s
      → H.arrayify recipient ≡ ok r
      → H.arrayify body ≡ ok b
      → length s ≤ 32
      → length r ≤ 32
      → format_message H o sender n d recipient body
        ≡ ok (H.hexlify (layout o (padded s) n d (padded r) b))
  unfolding format_message
  format_message_lem o n d sender recipient body {s} {r} {b} ho hn hd hs hr hb ls lr =
      let sent = arrayify-ethers_address_to_bytes32 H L sender s hs ls in
      let received = arrayify-ethers_address_to_bytes32 H L recipient r hr lr in
      solidity_pack-Packs H L (
        next (number 4 o ho) (
          next (exact 32 _ _ sent (length-padded s ls)) (
            next (number 4 n hn) (
              next (number 4 d hd)
                (next (exact 32 _ _ received (length-padded r lr)) (last (whole body b hb)))))))

  -- For domains and a nonce of 32 bits, addresses of at most 32 bytes and any body: formatting a
  -- message succeeds, and parsing it returns the same numbers, the addresses left-padded with zeros
  -- to 32 bytes, and the body.
  pub parse_message-format_message :
      (o n d : ℕ) (sender recipient body : Text) {s r b : List ℕ}
      → o < 2 ^ 32
      → n < 2 ^ 32
      → d < 2 ^ 32
      → H.arrayify sender ≡ ok s
      → H.arrayify recipient ≡ ok r
      → H.arrayify body ≡ ok b
      → length s ≤ 32
      → length r ≤ 32
      → (format_message H o sender n d recipient body >>= parse_message H)
        ≡ ok (record {
          from = o;
          sender = H.hexlify (padded s);
          nonce = n;
          destination = d;
          recipient = H.hexlify (padded r);
          body = H.hexlify b;
        })
  parse_message-format_message o n d sender recipient body {s} {r} {b} ho hn hd hs hr hb ls lr =
      rw (format_message_lem o n d sender recipient body ho hn hd hs hr hb ls lr) (
        parse_message-layout o n d (padded s) (padded r) b ho hn hd (length-padded s ls)
          (length-padded r lr) (padded-AreBytes s (L.arrayify-AreBytes sender s hs))
          (padded-AreBytes r (L.arrayify-AreBytes recipient r hr)) (L.arrayify-AreBytes body b hb))

-- The packed destination and nonce determine both: two pairs that the code accepts and packs to one
-- number are equal, and the number fits in 64 bits.
pub destination_and_nonce_injective :
    (d n d' n' k : ℕ)
    → destination_and_nonce d n ≡ ok k
    → destination_and_nonce d' n' ≡ ok k
    → (d ≡ d') × (n ≡ n') × (k < 2 ^ 64)
unfolding destination_and_nonce
destination_and_nonce_injective d n d' n' k h h' = ground arith
