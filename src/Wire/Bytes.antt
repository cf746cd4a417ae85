-- ===== src/Wire/Bytes.antt =====
-- Big-endian numbers over bytes, for Node's `Buffer` and for the packed integers of `ethers`.
use native.Mathlib.Nat.{pow-suc}
use optics_monorepo.Prelude.{
  ℕ, zero, suc, ◌+◌, ◌*◌, ◌/◌, ◌%◌, ◌^◌, ◌<◌, ◌≡◌, refl, ◌∙◌, List, [], ◌∷◌, ◌++◌, Result, ok, err,
  range_error, All, All-append, length, length-append, slice, leb, if◌then◌else◌, arith, take, drop,
  take-append, drop-append, ap, true,
}

abbrev pub IsByte : ℕ → Type 0
IsByte b = b < 256

abbrev pub AreBytes : List ℕ → Type 0
AreBytes = All IsByte

-- The `w` bytes of a number, the most significant first.
unfoldable pub be : ℕ → ℕ → List ℕ
be zero n = []
be (suc w) n = be w (n / 256) ++ n % 256 ∷ []

be_from : ℕ → List ℕ → ℕ
be_from acc [] = acc
be_from acc (b ∷ bs) = be_from (acc * 256 + b) bs

unfoldable pub of_be : List ℕ → ℕ
unfolding be_from
of_be bs = be_from 0 bs

be_from-append : (acc : ℕ) (xs ys : List ℕ) → be_from acc (xs ++ ys) ≡ be_from (be_from acc xs) ys
unfolding be_from
be_from-append acc [] ys = refl
be_from-append acc (x ∷ xs) ys = be_from-append (acc * 256 + x) xs ys

pub of_be-be : (w n : ℕ) → n < 256 ^ w → of_be (be w n) ≡ n
unfolding of_be be be_from
of_be-be zero n h = omega arith
of_be-be (suc w) n h =
    be_from-append 0 (be w (n / 256)) (n % 256 ∷ [])
    ∙ omega (arith, of_be-be w (n / 256) (omega (arith, pow-suc 256 w)))

pub length-be : (w n : ℕ) → length (be w n) ≡ w
unfolding be
length-be zero n = refl
length-be (suc w) n =
    omega (arith, length-append (be w (n / 256)) (n % 256 ∷ []), length-be w (n / 256))

pub be-AreBytes : (w n : ℕ) → AreBytes (be w n)
unfolding be
be-AreBytes zero n = tt
be-AreBytes (suc w) n =
    All-append IsByte (be w (n / 256)) (n % 256 ∷ []) (be-AreBytes w (n / 256)) (omega arith, tt)

-- `buf.readUInt32BE(offset)`, which throws past the end of the buffer.
unfoldable pub read_uint32 : List ℕ → ℕ → Result ℕ
read_uint32 buf offset =
    if leb (offset + 4) (length buf)
    then ok (of_be (slice offset (offset + 4) buf))
    else err range_error

-- Reading a piece that stands between two others.
module _ (pre mid post whole : List ℕ) (parts : whole ≡ pre ++ (mid ++ post)) where
  pub slice_piece : (lo hi : ℕ) → length pre ≡ lo → length mid + lo ≡ hi → slice lo hi whole ≡ mid
  slice_piece lo hi p q =
      rw parts (ap (take _) (drop-append pre (mid ++ post) p) ∙ take-append mid post (omega arith))

  pub drop_piece : (lo : ℕ) → length pre ≡ lo → drop lo whole ≡ mid ++ post
  drop_piece lo p = rw parts (drop-append pre (mid ++ post) p)

pub read_uint32_piece :
    (pre post : List ℕ) (n : ℕ) {whole : List ℕ} {offset : ℕ}
    → n < 2 ^ 32
    → whole ≡ pre ++ (be 4 n ++ post)
    → length pre ≡ offset
    → read_uint32 whole offset ≡ ok n
unfolding read_uint32
read_uint32_piece pre post n {whole} {offset} small parts p =
    let size : length whole ≡ length pre + (4 + length post) =
      ap length parts
      ∙ omega
          (arith, length-append pre (be 4 n ++ post), length-append (be 4 n) post, length-be 4 n) in
    let fits : leb (offset + 4) (length whole) ≡ true = ground (arith, size, p) in
    rw fits (
      ap (λ (bs : List ℕ). ok (of_be bs))
        (slice_piece pre (be 4 n) post whole parts offset (offset + 4) p
          (omega (arith, length-be 4 n)))
      ∙ ap (λ (m : ℕ). ok m) (of_be-be 4 n small))
