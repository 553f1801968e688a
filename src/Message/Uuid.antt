-- ===== src/Message/Uuid.antt =====
pub mod RoundTrip
-- `uuidToBytes` and `bytesToUUID` of linksocks/message.go over `encoding/hex`, and the functions
-- of the package github.com/google/uuid that the codec calls, as a parameter.
use Prim.Native.Nat.{◌≤◌}
use linksocks.Prelude.{
  ℕ, zero, suc, ◌+◌, ◌-◌, ◌*◌, ◌/◌, ◌%◌, ◌<◌, ◌≡◌, ◌≢◌, refl, sym, ap, ◌∙◌, Bool, true, false, ◌&&◌,
  ◌||◌, Option, none, some, List, [], ◌∷◌, ◌++◌, ltb, leb, ◌==◌, if◌then◌else◌, Bytes, Result, ok,
  err, panic, plain, ◌>>=◌, length, take, drop, All, arith,
}
use linksocks.Prelude.ByteOrder.{IsByte}
use linksocks.Message.Types.{Uuid}

hex_digit : ℕ → ℕ
hex_digit d = if ltb d 10 then d + 48 else d + 87

from_hex : ℕ → Option ℕ
from_hex c =
    if leb 48 c && leb c 57
    then some (c - 48)
    else if leb 97 c && leb c 102
    then some (c - 87)
    else if leb 65 c && leb c 70
    then some (c - 55)
    else none

-- `hex.EncodeToString`
unfoldable pub hex_encode : Bytes → Bytes
unfolding hex_digit
hex_encode [] = []
hex_encode (b ∷ bs) = hex_digit (b / 16) ∷ hex_digit (b % 16) ∷ hex_encode bs

hex_pair : Option ℕ → Option ℕ → Result ℕ
hex_pair (some a) (some b) = ok (a * 16 + b)
hex_pair _ _ = err (plain "encoding/hex: invalid byte")

-- `hex.DecodeString`
hex_decode : Bytes → Result Bytes
unfolding from_hex hex_pair
hex_decode [] = ok []
hex_decode (a ∷ []) = err (plain "encoding/hex: odd length hex string")
hex_decode (a ∷ b ∷ s) =
    hex_pair (from_hex a) (from_hex b) >>= λ v. hex_decode s >>= λ vs. ok (v ∷ vs)

-- `strings.ReplaceAll(uuid, "-", "")`
remove_hyphens : Bytes → Bytes
remove_hyphens [] = []
remove_hyphens (c ∷ s) = let rest = remove_hyphens s in if c == b'-' then rest else c ∷ rest

unfoldable pub uuid_to_bytes : Bytes → Result Bytes
unfolding hex_decode remove_hyphens
uuid_to_bytes uuid =
    let digits = remove_hyphens uuid in
    if length digits == 32 then hex_decode digits else err (plain "invalid UUID length")

-- `fmt.Sprintf("%s-%s-%s-%s-%s", u[0:8], u[8:12], u[12:16], u[16:20], u[20:])`
hyphenate : Bytes → Bytes
hyphenate u =
    take 8 u
    ++ (b'-'
        ∷ (take 4 (drop 8 u)
            ++ (b'-'
                ∷ (take 4 (drop 12 u) ++ (b'-' ∷ (take 4 (drop 16 u) ++ (b'-' ∷ drop 20 u)))))))

unfoldable pub bytes_to_uuid : Bytes → Bytes
unfolding hex_encode hyphenate
bytes_to_uuid b = if length b == 16 then hyphenate (hex_encode b) else []

abbrev pub IsUuid : Uuid → Type 0
IsUuid u = (length u ≡ 16) × All IsByte u

-- github.com/google/uuid: `String` is the usual text of the 16 bytes, `Parse` reads it back, and
-- `FromBytes` takes exactly 16 bytes. None of them panics.
pub record UuidPackage : Type 0 where
  pub string_of : Uuid → Bytes
  pub parse : Bytes → Result Uuid
  pub from_bytes : Bytes → Result Uuid
  pub string_of-eq : (u : Uuid) → IsUuid u → string_of u ≡ bytes_to_uuid u
  pub parse-text : (u : Uuid) → IsUuid u → parse (bytes_to_uuid u) ≡ ok u
  pub parse-ne-panic : (s : Bytes) → parse s ≢ panic
  pub from_bytes-eq : (b : Bytes) → length b ≡ 16 → from_bytes b ≡ ok b
  pub from_bytes-ne-panic : (b : Bytes) → from_bytes b ≢ panic
