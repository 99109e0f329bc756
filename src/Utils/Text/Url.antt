-- ===== src/Utils/Text/Url.antt =====
-- `url_encode` of cpp/src/utils/common/str.cpp against a decoder.
use c_workspace.Common.{
  ℕ, zero, suc, ◌+◌, ◌-◌, ◌*◌, ◌≤◌, ◌<◌, ◌≡◌, refl, sym, ◌==◌, leb, ◌&&◌, ◌||◌, Bool, true, false,
  Bool-cases, inl, inr, if◌then◌else◌, Option, none, some, ◌>>=◌, [], ◌∷◌, arith, length, All,
}
use c_workspace.Utils.Text.{Text, codes, is_plain, high_digit, low_digit, url_encode}

-- What was read of an escape.
pub data Escape : Type 0 where
  outside percent : Escape
  digit : ℕ → Escape

-- The value of a hexadecimal digit.
abbrev pub digit_value : ℕ → Option ℕ
digit_value c =
    if leb 48 c && leb c 57
    then some (c - 48)
    else if leb 97 c && leb c 102
    then some (c - 87)
    else if leb 65 c && leb c 70
    then some (c - 55)
    else none

-- Percent-decoding: of RFC 3986, with digits of both cases.
abbrev pub decode_from : Escape → Text → Option Text
decode_from outside [] = some []
decode_from outside (c ∷ s) =
    let escaped = decode_from percent s in
    let rest = decode_from outside s in if c == 37 then escaped else (rest >>= λ t. some (c ∷ t))
decode_from percent [] = none
decode_from percent (c ∷ s) = do h ← digit_value c; decode_from (digit h) s
decode_from (digit h) [] = none
decode_from (digit h) (c ∷ s) = do
  l ← digit_value c
  t ← decode_from outside s
  some ((h * 16 + l) ∷ t)

-- The unreserved characters of RFC 3986.
abbrev pub unreserved : Text
unreserved = codes "ABCDEFGHIJKLMNOPQRSTUVWXYZabcdefghijklmnopqrstuvwxyz0123456789-._~"

abbrev pub is_one_of : ℕ → Text → Bool
is_one_of c [] = false
is_one_of c (d ∷ s) = c == d || is_one_of c s

unfoldable pub is_unreserved : ℕ → Bool
is_unreserved c = is_one_of c unreserved

-- A byte that may stand in a part of a URL: unreserved, or the sign of an escape.
abbrev pub IsUrlByte : ℕ → Type 0
IsUrlByte c = (is_unreserved c || c == 37) ≡ true

-- A test of the `k` bytes from `c` on.
passes : (ℕ → Bool) → ℕ → ℕ → Bool
passes test c zero = true
passes test c (suc k) = test c && passes test (suc c) k

byte-passes :
    (test : ℕ → Bool) (k c b : ℕ) → c ≤ b → b < c + k → passes test c k ≡ true → test b ≡ true
unfolding passes
byte-passes test zero c b low high e = absurd (omega arith)
byte-passes test (suc k) c b low high e = elim (Bool-cases (c == b)) [
  | inl same ↦ let f : c ≡ b = ground arith in rw (sym f) (ground arith)
  | inr other ↦ byte-passes test k (suc c) b (ground arith) (omega arith) (ground arith)
]

abbrev escapes_well : ℕ → Option ℕ → Option ℕ → Bool
escapes_well c none l = false
escapes_well c (some h) none = false
escapes_well c (some h) (some l) =
    (h * 16 + l == c) && (is_unreserved (high_digit c) && is_unreserved (low_digit c))

-- Two plain digits, of the value.
abbrev is_escaped : ℕ → Bool
is_escaped c = escapes_well c (digit_value (high_digit c)) (digit_value (low_digit c))

escapes : passes is_escaped 0 256 ≡ true
unfolding passes high_digit low_digit is_unreserved
escapes = refl

-- The digits that are written for a byte.
record AreDigits (c : ℕ) : Type 0 where
  high : ℕ
  low : ℕ
  reads_high : digit_value (high_digit c) ≡ some high
  reads_low : digit_value (low_digit c) ≡ some low
  value : high * 16 + low ≡ c
  plain : (is_unreserved (high_digit c) ≡ true) × (is_unreserved (low_digit c) ≡ true)

escaped : (c : ℕ) → c < 256 → AreDigits c
escaped c h =
    found (digit_value (high_digit c)) (digit_value (low_digit c)) refl refl
      (byte-passes is_escaped 256 0 c (omega arith) (omega arith) escapes)
  where
    found :
        (a b : Option ℕ)
        → digit_value (high_digit c) ≡ a
        → digit_value (low_digit c) ≡ b
        → escapes_well c a b ≡ true
        → AreDigits c
    found none b e f w = absurd (ground arith)
    found (some h) none e f w = absurd (ground arith)
    found (some h) (some l) e f w = record {
      high = h;
      low = l;
      reads_high = e;
      reads_low = f;
      value = ground (arith, w);
      plain = ground arith;
    }

decode_escape :
    (c : ℕ) (s t : Text)
    → c < 256
    → decode_from outside s ≡ some t
    → decode_from outside (37 ∷ high_digit c ∷ low_digit c ∷ s) ≡ some (c ∷ t)
decode_escape c s t h e =
    let d = escaped c h in rw (d.reads_high, ◌>>=◌, d.reads_low, e, d.value) refl

percent_not_plain : (c : ℕ) → is_plain c ≡ true → (c == 37) ≡ false
unfolding is_plain
percent_not_plain c h = ground arith

-- A plain byte is an unreserved one.
plain_as_unreserved : passes (λ c. if is_plain c then is_unreserved c else true) 0 256 ≡ true
unfolding passes is_plain is_unreserved
plain_as_unreserved = refl

plain-unreserved : (c : ℕ) → c < 256 → is_plain c ≡ true → is_unreserved c ≡ true
plain-unreserved c h b =
    let e =
      byte-passes (λ c. if is_plain c then is_unreserved c else true) 256 0 c (omega arith)
        (omega arith) plain_as_unreserved in
    rw b at e

-- For bytes, `url_encode` writes a text that percent-decoding gives back, of unreserved characters and signs
-- of escapes only, and at most three times as long.
pub url_encode_lem :
    (s : Text)
    → All (λ c. c < 256) s
    → (decode_from outside (url_encode s) ≡ some s)
      × All IsUrlByte (url_encode s)
      × (length (url_encode s) ≤ 3 * length s)
unfolding url_encode is_unreserved
url_encode_lem [] h = (refl, tt, omega arith)
url_encode_lem (c ∷ s) (l, h) =
    let (e, p, n) = url_encode_lem s h in
    elim (Bool-cases (is_plain c)) [
      | inl b ↦ rw b (
        rw (percent_not_plain c b, e) refl,
        (rw (plain-unreserved c l b) refl, p),
        omega (arith, n),
      )
      | inr b ↦
          let d = escaped c l in
          rw b (
            decode_escape c (url_encode s) s l e,
            (refl, (rw (d.plain.0) refl, (rw (d.plain.1) refl, p))),
            omega (arith, n),
          )
    ]
