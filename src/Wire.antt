-- ===== src/Wire.antt =====
-- The messages between service and client: `ByteArrayFromString` in
-- src/service/SMARTmonitorService.cpp, and `ReadNumFollowingBytes`, `GetSMARTattrValsFromSrv` and
-- `GetSupportedSMARTidsFromSrv` in src/client/InterProcComm/BSDskt/SMARTmonUI_BSDskt.cpp.
-- What the socket delivers is a parameter: `read w n` is `readFromSocket2` for `n` bytes.
pub mod Frame
use smartmonitor.Common.{
  ℕ, zero, suc, ◌+◌, ◌*◌, ◌/◌, ◌%◌, ◌-◌, Bool, true, false, List, [], ◌∷◌, ◌++◌, Option, none, some,
  ltb, if◌then◌else◌, Bytes, length, take,
}

-- `uint16_t`
abbrev pub u16 : ℕ → ℕ
u16 n = n % 65536

-- `htons` of a 16 bit number, as the two bytes in memory, and `ntohs` of two bytes
unfoldable pub htons : ℕ → Bytes
htons n = (n / 256) ∷ (n % 256) ∷ []

unfoldable pub ntohs : Bytes → ℕ
ntohs (hi ∷ lo ∷ _) = hi * 256 + lo
ntohs _ = 0

-- `numOverallBytes`
unfoldable pub num_overall_bytes : Bytes → ℕ
num_overall_bytes text = u16 (length text + 2)

-- `ByteArrayFromString`. With fewer than 2 bytes overall it copies a negative number of bytes.
unfoldable pub byte_array_from_string : Bytes → Option Bytes
byte_array_from_string text =
    let n = num_overall_bytes text in
    if ltb n 2 then none else some (htons (u16 (length text)) ++ take (n - 2) text)

-- `successfull`, `readLessBytesThanIntended`, the literal 2, with the bytes that are processed
pub data Reply : Type 0 where
  successfull : Bytes → Reply
  read_less_bytes_than_intended : Reply
  code_2 : Reply

module _ (World : Type 0) (read : World → ℕ → World × Bytes) where
  -- `none` is the result -1.
  unfoldable pub read_num_following_bytes : World → World × Option ℕ
  read_num_following_bytes w =
      let (v, header) = read w 2 in (v, if ltb (length header) 2 then none else some (ntohs header))

  -- the second read of both functions, and the result `code` for a short one
  unfoldable pub read_data : Reply → World → ℕ → World × Reply
  read_data code w n =
      let (v, text) = read w n in (v, if ltb (length text) n then code else successfull text)

  -- `if(numBytesToRead < 1)` behind the first read
  unfoldable pub read_message : Reply → World → World × Reply
  read_message code w =
      let (v, count) = read_num_following_bytes w in
      elim count [
        | none ↦ (v, read_less_bytes_than_intended)
        | some n ↦ if ltb n 1 then (v, read_less_bytes_than_intended) else read_data code v n
      ]

  unfoldable pub get_smart_attr_vals_from_srv : World → World × Reply
  get_smart_attr_vals_from_srv w = read_message read_less_bytes_than_intended w

  unfoldable pub get_supported_smart_ids_from_srv : World → World × Reply
  get_supported_smart_ids_from_srv w = read_message code_2 w
