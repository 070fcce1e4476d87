-- ===== src/Domain/Ids.antt =====
-- src/domain/ids.cpp: identifiers made of random bytes. `std::random_device` is a stream of numbers
-- of which `drawn` have been used.
use secure_file_transfer.Base.{
  ℕ, zero, suc, ◌+◌, ◌/◌, ◌%◌, [], ◌∷◌, ◌++◌, Bytes, codes, take, drop, ltb, if◌then◌else◌,
}
use secure_file_transfer.Domain.Records.{UserId, SessionId}

pub record Entropy : Type 0 where
  pub stream : ℕ → ℕ
  pub drawn : ℕ

-- `rd() & 0xFF`, n times, from the i-th number on.
unfoldable pub octets : (ℕ → ℕ) → ℕ → ℕ → Bytes
octets s i zero = []
octets s i (suc n) = s i % 256 ∷ octets s (suc i) n

-- One digit of `std::hex`.
unfoldable pub hex_digit : ℕ → ℕ
hex_digit n = if ltb n 10 then 48 + n else 87 + n

-- `std::hex << std::setw(2) << std::setfill('0')`, and "%02x".
unfoldable pub hex_bytes : Bytes → Bytes
unfolding hex_digit
hex_bytes [] = []
hex_bytes (b ∷ bs) = hex_digit (b / 16) ∷ hex_digit (b % 16) ∷ hex_bytes bs

-- `n` random bytes, with the device after them.
abbrev pub draw : ℕ → Entropy → Bytes × Entropy
draw n e = (octets e.stream e.drawn n, record e { drawn = e.drawn + n })

unfoldable pub uuid_of_hex : Bytes → UserId
uuid_of_hex h =
    take 8 h
    ++ (codes "-"
        ++ (take 4 (drop 8 h)
            ++ (codes "-"
                ++ (take 4 (drop 12 h)
                    ++ (codes "-" ++ (take 4 (drop 16 h) ++ (codes "-" ++ take 12 (drop 20 h))))))))

unfoldable pub generate_user_id : Entropy → UserId × Entropy
unfolding octets hex_bytes uuid_of_hex
generate_user_id e = let (bytes, e') = draw 16 e in (uuid_of_hex (hex_bytes bytes), e')

unfoldable pub generate_session_id : Entropy → SessionId × Entropy
unfolding octets hex_bytes
generate_session_id e = let (bytes, e') = draw 32 e in (codes "sess_" ++ hex_bytes bytes, e')
