-- ===== src/InfoProvider/Encoding.antt =====
-- encode of src/ObexInfoProvider.cpp against a decoder of %XX.
use objxp.Common.{
  ℕ, ◌+◌, ◌-◌, ◌*◌, ◌/◌, ◌%◌, Bool, true, false, [], ◌∷◌, Bytes, leb, ◌==◌, if◌then◌else◌,
}
use objxp.InfoProvider.{hex_digit}

abbrev pub hex_value : ℕ → ℕ
hex_value c = if leb c b'9' then c - b'0' else (c + 10) - b'A'

-- Reads %XX as one byte.
unfoldable pub decode : Bytes → Bytes
decode [] = []
decode (c ∷ []) = c ∷ []
decode (c ∷ d ∷ []) = c ∷ d ∷ []
decode (c ∷ d ∷ e ∷ s) =
    let rest = decode s in
    let more = decode (d ∷ e ∷ s) in
    if c == b'%' then (hex_value d * 16 + hex_value e) ∷ rest else c ∷ more

abbrev coded : Bool → ℕ → Bytes → Bytes
coded true c s = b'%' ∷ hex_digit (c / 16) ∷ hex_digit (c % 16) ∷ s
coded false c s = c ∷ s
