-- ===== src/Wire/HexText.antt =====
-- A concrete hexadecimal library over `0x`-prefixed texts: it meets every law of `Hex.IsLawful`, so
-- the hypotheses of the codecs can hold, and the codecs run in tests. The hash is a stand-in.
use optics_monorepo.Prelude.{
  ℕ, zero, suc, ◌+◌, ◌-◌, ◌*◌, ◌/◌, ◌%◌, ◌≤◌, ◌<◌, ◌≡◌, refl, sym, ap, ◌∙◌, ◌&&◌, Option, none,
  some, List, [], ◌∷◌, ◌++◌, Text, to_lower_case, lower_code, Result, ok, err, external, ◌>>=◌, leb,
  ==_iff, ◌==◌, if◌then◌else◌, length, replicate, arith, Bool-cases, append_assoc, inl, inr,
  replicate-append,
}
use optics_monorepo.Wire.Bytes.{AreBytes, of_be}
use optics_monorepo.Wire.Hex.{HexLib, IsLawful, pack_all}

abbrev digit : ℕ → ℕ
digit n = if leb 10 n then n + 87 else n + 48

abbrev undigit : ℕ → Option ℕ
undigit c =
    if leb b'0' c && leb c b'9'
    then some (c - 48)
    else if leb b'a' c && leb c b'f'
    then some (c - 87)
    else if leb b'A' c && leb c b'F'
    then some (c - 55)
    else none

pair : Option ℕ → Option ℕ → Result (List ℕ) → Result (List ℕ)
pair (some x) (some y) (ok bs) = ok ((16 * x + y) ∷ bs)
pair _ _ _ = err external

from_digits : Text → Result (List ℕ)
from_digits [] = ok []
from_digits (c ∷ []) = err external
from_digits (c ∷ d ∷ s) = pair (undigit c) (undigit d) (from_digits s)

to_digits : List ℕ → Text
to_digits [] = []
to_digits (b ∷ bs) = digit (b / 16) ∷ digit (b % 16) ∷ to_digits bs

from_digits-to_digits : (bs : List ℕ) → AreBytes bs → from_digits (to_digits bs) ≡ ok bs
unfolding from_digits to_digits pair
from_digits-to_digits [] h = refl
from_digits-to_digits (b ∷ bs) (p, h) = ground (arith, from_digits-to_digits bs h)

pair-eq-ok :
    (x y : Option ℕ) (r : Result (List ℕ)) {bs : List ℕ}
    → pair x y r ≡ ok bs
    → (a : ℕ) × (b : ℕ) × (cs : List ℕ) × (x ≡ some a)
      × (y ≡ some b)
      × (r ≡ ok cs)
      × (bs ≡ (16 * a + b) ∷ cs)
unfolding pair
pair-eq-ok (some a) (some b) (ok cs) h = (a, b, cs, refl, refl, refl, ground arith)
pair-eq-ok (some a) (some b) (err e) h = cc
pair-eq-ok (some a) none r h = cc
pair-eq-ok none y r h = cc

undigit_bound : (c : ℕ) {n : ℕ} → undigit c ≡ some n → n < 16
undigit_bound c h = ground arith

undigit-lower : (c : ℕ) {n : ℕ} → undigit c ≡ some n → undigit (lower_code c) ≡ some n
unfolding lower_code
undigit-lower c h = ground arith

from_digits-AreBytes : (s : Text) (bs : List ℕ) → from_digits s ≡ ok bs → AreBytes bs
unfolding from_digits
from_digits-AreBytes [] bs h = ground arith
from_digits-AreBytes (c ∷ []) bs h = cc
from_digits-AreBytes (c ∷ d ∷ s) bs h =
    let (a, b, cs, p, q, r, e) = pair-eq-ok (undigit c) (undigit d) (from_digits s) h in
    let rest = from_digits-AreBytes s cs r in
    rw e (omega (arith, undigit_bound c p, undigit_bound d q), rest)

from_digits-lower :
    (s : Text) (bs : List ℕ) → from_digits s ≡ ok bs → from_digits (to_lower_case s) ≡ ok bs
unfolding from_digits pair to_lower_case
from_digits-lower [] bs h = h
from_digits-lower (c ∷ []) bs h = cc
from_digits-lower (c ∷ d ∷ s) bs h =
    let (a, b, cs, p, q, r, e) = pair-eq-ok (undigit c) (undigit d) (from_digits s) h in
    rw (undigit-lower c p, undigit-lower d q, from_digits-lower s cs r, e)

-- Leading zero digits.
strip : Text → Text
strip [] = []
strip (c ∷ s) = let rest = strip s in if c == b'0' then rest else c ∷ s

strip_lem :
    (s : Text) → (k : ℕ) × (replicate k b'0' ++ strip s ≡ s) × (k + length (strip s) ≡ length s)
unfolding strip
strip_lem [] = (0, refl, refl)
strip_lem (c ∷ s) = elim (Bool-cases (c == b'0')) [
  | inl e ↦
      let (k, p, q) = strip_lem s in
      (suc k, rw e (rw ((==_iff c 48).0 e) (ap (λ (t : Text). 48 ∷ t) p)), rw e (omega (arith, q)))
  | inr e ↦ (0, rw e, rw e (omega arith))
]

from_digits-length : (s : Text) (bs : List ℕ) → from_digits s ≡ ok bs → length s ≡ 2 * length bs
unfolding from_digits
from_digits-length [] bs h = ground arith
from_digits-length (c ∷ []) bs h = cc
from_digits-length (c ∷ d ∷ s) bs h =
    let (a, b, cs, p, q, r, e) = pair-eq-ok (undigit c) (undigit d) (from_digits s) h in
    let rest = from_digits-length s cs r in rw e (omega arith)

from_digits-zeros :
    (j m : ℕ) (s : Text) (bs : List ℕ)
    → m ≡ 2 * j
    → from_digits s ≡ ok bs
    → from_digits (replicate m b'0' ++ s) ≡ ok (replicate j 0 ++ bs)
unfolding from_digits pair
from_digits-zeros zero zero s bs e h = h
from_digits-zeros zero (suc m) s bs e h = absurd (omega arith)
from_digits-zeros (suc j) zero s bs e h = absurd (omega arith)
from_digits-zeros (suc j) (suc zero) s bs e h = absurd (omega arith)
from_digits-zeros (suc j) (suc (suc m)) s bs e h = rw (from_digits-zeros j m s bs (omega arith) h)

abbrev pad : Text → ℕ → Text
pad s w = replicate (2 * w - length s) b'0' ++ s

pad-strip :
    (s : Text) (bs : List ℕ) (w : ℕ)
    → from_digits s ≡ ok bs
    → length bs ≤ w
    → from_digits (pad (strip s) w) ≡ ok (replicate (w - length bs) 0 ++ bs)
pad-strip s bs w h fits =
    let (k, whole, count) = strip_lem s in
    let size = from_digits-length s bs h in
    let j = w - length bs in
    let zeros =
      replicate-append {A = ℕ} (2 * j) k {k = 2 * w - length (strip s)} b'0'
        (omega (arith, size, count)) in
    let same : replicate (2 * w - length (strip s)) b'0' ++ strip s ≡ replicate (2 * j) b'0' ++ s =
      rw (sym zeros) (
        append_assoc (replicate (2 * j) b'0') (replicate k b'0') (strip s)
        ∙ ap (λ t. replicate (2 * j) b'0' ++ t) whole) in
    rw same (from_digits-zeros j (2 * j) s bs refl h)

abbrev prefixed : Text → Result (List ℕ)
prefixed (c ∷ d ∷ s) = if c == b'0' && d == b'x' then from_digits s else err external
prefixed _ = err external

abbrev body : Text → Text
body (c ∷ d ∷ s) = s
body s = s

abbrev with_prefix : Text → Text
with_prefix s = b'0' ∷ b'x' ∷ s

abbrev number : Text → Result ℕ
number t = prefixed t >>= λ bs. ok (of_be bs)

unfoldable pub hex_text : HexLib
unfolding from_digits to_digits pair strip of_be
hex_text = record {
  hexlify = λ bs. with_prefix (to_digits bs);
  arrayify = prefixed;
  hex_strip_zeros = λ t. with_prefix (strip (body t));
  hex_zero_pad = λ t w. with_prefix (pad (body t) w);
  zero_pad =
      λ bs w. if leb (length bs) w then ok (replicate (w - length bs) 0 ++ bs) else err external;
  big_number = number;
  solidity_pack = λ ps. pack_all prefixed number ps >>= λ bs. ok (with_prefix (to_digits bs));
  keccak256 = λ t. t;
}

prefixed-eq-ok :
    (t : Text) {bs : List ℕ}
    → prefixed t ≡ ok bs
    → (s : Text) × (t ≡ with_prefix s) × (from_digits s ≡ ok bs)
prefixed-eq-ok [] h = cc
prefixed-eq-ok (c ∷ []) h = cc
prefixed-eq-ok (c ∷ d ∷ s) h = (s, ground arith, ground arith)

prefixed-AreBytes : (t : Text) (bs : List ℕ) → prefixed t ≡ ok bs → AreBytes bs
prefixed-AreBytes t bs h = let (s, e, p) = prefixed-eq-ok t h in from_digits-AreBytes s bs p

prefixed-lower : (t : Text) (bs : List ℕ) → prefixed t ≡ ok bs → prefixed (to_lower_case t) ≡ ok bs
unfolding to_lower_case lower_code
prefixed-lower t bs h =
    let (s, e, p) = prefixed-eq-ok t h in let q = from_digits-lower s bs p in rw e q

prefixed-pad-strip :
    (t : Text) (bs : List ℕ) (w : ℕ)
    → prefixed t ≡ ok bs
    → length bs ≤ w
    → prefixed (with_prefix (pad (strip (body t)) w)) ≡ ok (replicate (w - length bs) 0 ++ bs)
prefixed-pad-strip t bs w h fits =
    let (s, e, p) = prefixed-eq-ok t h in rw e (pad-strip s bs w p fits)

from_digits-append :
    (s : Text) (xs ys : List ℕ)
    → from_digits s ≡ ok xs
    → AreBytes ys
    → from_digits (s ++ to_digits ys) ≡ ok (xs ++ ys)
unfolding from_digits pair
from_digits-append [] xs ys h k =
    let e : [] ≡ xs = ground arith in
    from_digits-to_digits ys k ∙ ap (λ (bs : List ℕ). ok (bs ++ ys)) e
from_digits-append (c ∷ []) xs ys h k = cc
from_digits-append (c ∷ d ∷ s) xs ys h k =
    let (a, b, cs, p, q, r, e) = pair-eq-ok (undigit c) (undigit d) (from_digits s) h in
    rw (p, q, from_digits-append s cs ys r k, e)

prefixed-form :
    (t : Text) (bs : List ℕ)
    → prefixed t ≡ ok bs
    → (s : Text) × (t ≡ with_prefix s) × (length s ≡ 2 * length bs)
prefixed-form t bs h = let (s, e, p) = prefixed-eq-ok t h in (s, e, from_digits-length s bs p)

prefixed-concat :
    (t : Text) (xs ys : List ℕ)
    → prefixed t ≡ ok xs
    → AreBytes ys
    → prefixed (t ++ to_digits ys) ≡ ok (xs ++ ys)
prefixed-concat t xs ys h k =
    let (s, e, p) = prefixed-eq-ok t h in rw e (from_digits-append s xs ys p k)

pub hex_text-IsLawful : IsLawful hex_text
unfolding hex_text
hex_text-IsLawful = record {
  arrayify-hexlify = from_digits-to_digits;
  arrayify-AreBytes = prefixed-AreBytes;
  arrayify-lower = prefixed-lower;
  arrayify-nil = refl;
  arrayify-form = prefixed-form;
  arrayify-concat = prefixed-concat;
  arrayify-pad_strip = prefixed-pad-strip;
  zero_pad_lem = λ bs w h. ground arith;
  big_number-hexlify = λ bs h. rw (from_digits-to_digits bs h);
  solidity_pack_lem = λ ps bs h. rw h;
}
