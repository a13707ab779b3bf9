-- ===== src/Prelude/Text.antt =====
-- Go's strings and byte slices as lists of bytes, with their equality, hex and decimal forms.
use Prim.Native.Char.{code}
use Prim.Native.String.{String}
use mathlib.Core.Path.{◌≡◌, refl, ap, sym, ◌∙◌}
use mathlib.Core.Logic.{◌↔◌, ◌≢◌}
use mathlib.Core.Bool.{Bool, true, false, ◌&&◌, ◌||◌, false≢true}
use mathlib.Core.Option.{Option, none, some}
use mathlib.Core.List.{List, [], ◌∷◌, ◌++◌}
use Prim.Native.Nat.{ℕ, zero, suc, ◌+◌, ◌-◌, ◌*◌, ◌/◌, ◌%◌, ◌<◌}
use native.Mathlib.Omega.{arith}
use mathlib.Core.Logic.{inl, inr}
use disgo.Prelude.Tests.{Bool-cases, ltb, leb, ◌==◌, if◌then◌else◌}
use disgo.Prelude.Lists.{length, All, get_elem?}
use disgo.Prelude.Int.{ℤ, pos, negsuc}

-- A byte slice, and a string: its bytes.
abbrev pub Bytes : Type 0
Bytes = List ℕ

-- The bytes of an ASCII literal.
abbrev pub codes : String → Bytes
codes String.[] = []
codes (String.◌∷◌ c s) = code c ∷ codes s

-- `==` on strings.
infix 50 ◌=ₛ◌
abbrev pub ◌=ₛ◌ : Bytes → Bytes → Bool
[] =ₛ [] = true
[] =ₛ (b ∷ t) = false
(a ∷ s) =ₛ [] = false
(a ∷ s) =ₛ (b ∷ t) = (a == b) && (s =ₛ t)

=ₛ_sound : (s t : Bytes) → (s =ₛ t) ≡ true → s ≡ t
=ₛ_sound [] [] h = refl
=ₛ_sound [] (b ∷ t) h = ground arith
=ₛ_sound (a ∷ s) [] h = ground arith
=ₛ_sound (a ∷ s) (b ∷ t) h = ground (arith, =ₛ_sound s t)

pub =ₛ_refl : (s : Bytes) → (s =ₛ s) ≡ true
=ₛ_refl [] = refl
=ₛ_refl (a ∷ s) = ground (arith, =ₛ_refl s)

pub =ₛ_iff : (s t : Bytes) → ((s =ₛ t) ≡ true) ↔ (s ≡ t)
=ₛ_iff s t = (=ₛ_sound s t, λ e. ap (λ (u : Bytes). s =ₛ u) (sym e) ∙ =ₛ_refl s)

pub =ₛ_ne : (s t : Bytes) → (s ≡ t → ⊥) → (s =ₛ t) ≡ false
=ₛ_ne s t h = elim (Bool-cases (s =ₛ t)) [ inl e ↦ absurd (h ((=ₛ_iff s t).0 e)) | inr e ↦ e ]

-- strings.HasPrefix(t, s).
unfoldable pub has_prefix : Bytes → Bytes → Bool
has_prefix [] t = true
has_prefix (a ∷ s) [] = false
has_prefix (a ∷ s) (b ∷ t) = (a == b) && has_prefix s t

-- Texts with a common front are equal where the rest is.
pub append_cancel : (p s t : Bytes) → p ++ s ≡ p ++ t → s ≡ t
append_cancel [] s t h = h
append_cancel (a ∷ p) s t h = append_cancel p s t (cc)

abbrev pub is_byte : ℕ → Option ℕ → Bool
is_byte c none = false
is_byte c (some b) = b == c

-- Texts are not equal if one has a byte at a place where the other has not.
pub apart :
    {k j : Bytes} (i c : ℕ)
    → is_byte c (get_elem? k i) ≡ true
    → is_byte c (get_elem? j i) ≡ false
    → k ≢ j
apart i c h g e = false≢true (sym g ∙ sym (ap (λ (l : Bytes). is_byte c (get_elem? l i)) e) ∙ h)

-- One hex digit, and the value of one, with both cases as encoding/hex reads them.
hex_digit : ℕ → ℕ
hex_digit d = if ltb d 10 then d + b'0' else d - 10 + b'a'

hex_value : ℕ → Option ℕ
hex_value c =
    if leb b'0' c && leb c b'9'
    then some (c - b'0')
    else if leb b'a' c && leb c b'f'
    then some (c - b'a' + 10)
    else if leb b'A' c && leb c b'F'
    then some (c - b'A' + 10)
    else none

-- hex.EncodeToString
unfoldable pub hex_encode : Bytes → Bytes
unfolding hex_digit
hex_encode [] = []
hex_encode (b ∷ s) = hex_digit (b / 16) ∷ hex_digit (b % 16) ∷ hex_encode s

join : Option ℕ → Option ℕ → Option Bytes → Option Bytes
join (some hi) (some lo) (some s) = some ((hi * 16 + lo) ∷ s)
join _ _ _ = none

-- hex.DecodeString; `none` is its error, for an odd length or a byte that is no digit.
unfoldable pub hex_decode : Bytes → Option Bytes
unfolding hex_value join
hex_decode [] = some []
hex_decode (c ∷ []) = none
hex_decode (c ∷ d ∷ s) = join (hex_value c) (hex_value d) (hex_decode s)

abbrev pub IsBytes : Bytes → Type 0
IsBytes = All (λ b. b < 256)

hex_value-digit : (d : ℕ) → d < 16 → hex_value (hex_digit d) ≡ some d
unfolding hex_value hex_digit
hex_value-digit d h = ground arith

pub hex_decode-encode : (s : Bytes) → IsBytes s → hex_decode (hex_encode s) ≡ some s
unfolding hex_decode hex_encode
hex_decode-encode [] h = refl
hex_decode-encode (b ∷ s) h =
    rw
      (
        hex_value-digit (b / 16) (omega arith),
        hex_value-digit (b % 16) (omega arith),
        hex_decode-encode s h.1,
      )
      (ap (λ (n : ℕ). some (n ∷ s)) (omega arith))

pub length-hex_encode : (s : Bytes) → length (hex_encode s) ≡ 2 * length s
unfolding hex_encode
length-hex_encode [] = refl
length-hex_encode (b ∷ s) = omega (arith, length-hex_encode s)

-- What hex.DecodeString returns beside its error: the bytes before the first pair that is no hex,
-- and nothing for an odd length.
hex_prefix : Bytes → Bytes
hex_prefix [] = []
hex_prefix (c ∷ []) = []
hex_prefix (c ∷ d ∷ s) = elim (join (hex_value c) (hex_value d) (some (hex_prefix s))) [
  | none ↦ []
  | some t ↦ t
]

unfoldable pub hex_decode_loose : Bytes → Bytes
unfolding hex_prefix hex_value join
hex_decode_loose s = if length s % 2 == 1 then [] else hex_prefix s

-- `len(strings.TrimSpace(s)) == 0`, for ASCII
unfoldable pub is_blank : Bytes → Bool
is_blank [] = true
is_blank (c ∷ s) = (c == 32 || leb 9 c && leb c 13) && is_blank s

-- binary.Write(buffer, binary.LittleEndian, v) for an integer of `w` bytes.
little_endian : ℕ → ℕ → Bytes
little_endian zero n = []
little_endian (suc w) n = n % 256 ∷ little_endian w (n / 256)

-- The 64 bits of an int64.
bits64 : ℤ → ℕ
bits64 (pos n) = n % 18446744073709551616
bits64 (negsuc n) = 18446744073709551615 - n % 18446744073709551616

unfoldable pub write_int64 : ℤ → Bytes
unfolding little_endian bits64
write_int64 v = little_endian 8 (bits64 v)

-- fmt's %d
digits : ℕ → ℕ → Bytes → Bytes
digits zero n rest = rest
digits (suc k) n rest =
    let more = digits k (n / 10) ((n % 10 + b'0') ∷ rest) in
    if ltb n 10 then (n % 10 + b'0') ∷ rest else more

-- 20 digits are enough for 64 bits.
unfoldable pub decimal : ℤ → Bytes
unfolding digits
decimal (pos n) = digits 20 n []
decimal (negsuc n) = b'-' ∷ digits 20 (suc n) []

decimal_example : decimal (negsuc 1203) ≡ codes "-1204"
unfolding decimal
decimal_example = refl
