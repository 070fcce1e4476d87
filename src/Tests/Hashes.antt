-- ===== src/Tests/Hashes.antt =====
-- SHA-256 on the examples of its standard.
use secure_file_transfer.Base.{
  ℕ, zero, suc, ◌+◌, ◌/◌, ◌^◌, ◌<◌, List, replicate, ◌%◌, ◌≤◌, ◌≡◌, refl, codes, length, take,
  get_or, All, arith,
}
use secure_file_transfer.Sha256.{hex, hash_bytes, padded, schedule}
use secure_file_transfer.Sha256.Padding.{padded-injective}
use secure_file_transfer.Sha256.Digest.{IsHexDigit, hex-digest}
use secure_file_transfer.Sha256.Schedule.{schedule-word, turned}
use Prim.Native.Nat.{bit_xor}

abc : hex (codes "abc") ≡ codes "ba7816bf8f01cfea414140de5dae2223b00361a396177a9cb410ff61f20015ad"
unfolding hex
abc = refl

two_blocks :
    hex (codes "abcdbcdecdefdefgefghfghighijhijkijkljklmklmnlmnomnopnopq")
    ≡ codes "248d6a61d20638b8e5c026930c3e6039a33ce45964ff2167f6ecedd419db06c1"
unfolding hex
two_blocks = refl

padded-injective_example :
    (length (padded (codes "abc")) % 64 ≡ 0)
    × (length (padded (codes "abc")) ≤ 3 + 72)
    × (take 3 (padded (codes "abc")) ≡ codes "abc")
    × (padded (codes "abc") ≡ padded (codes "abd") → codes "abc" ≡ codes "abd")
padded-injective_example = padded-injective (codes "abc") (codes "abd") (omega arith) (omega arith)

hex-digest_example :
    (length (hash_bytes (codes "abc")) ≡ 32)
    × (length (hex (codes "abc")) ≡ 64)
    × All IsHexDigit (hex (codes "abc"))
    × (hex (codes "abc") ≡ hex (codes "abd") → hash_bytes (codes "abc") ≡ hash_bytes (codes "abd"))
hex-digest_example = hex-digest (codes "abc") (codes "abd")

-- A block of bytes, each a letter.
abbrev block_bytes : List ℕ
block_bytes = replicate 64 97

text-All : (n : ℕ) → All (λ b. b < 256) (replicate n 97)
text-All zero = tt
text-All (suc n) = (omega arith, text-All n)

schedule-word_example :
    let w = λ (i : ℕ). get_or (schedule block_bytes 0) i 0 in
    w 20
    ≡ (bit_xor (bit_xor (turned 17 (w 18)) (turned 19 (w 18))) (w 18 / 1024)
        + w 13
        + bit_xor (bit_xor (turned 7 (w 5)) (turned 18 (w 5))) (w 5 / 8)
        + w 4)
      % 2 ^ 32
schedule-word_example = schedule-word block_bytes 0 20 (text-All 64) (omega arith)
