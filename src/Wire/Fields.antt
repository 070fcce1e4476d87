-- ===== src/Wire/Fields.antt =====
-- Length-prefixed fields, and the cursor `off` that a decoder moves over its buffer:
-- include/ports/transport.hpp and the `read` closures of src/presentation/protocol.cpp.
-- `size_t` sums of an offset in the buffer and a 32-bit length do not wrap.
use secure_file_transfer.Base.{
  ℕ, ◌+◌, ◌%◌, ◌^◌, ◌≤◌, ◌<◌, ◌≡◌, refl, sym, ap, ◌∙◌, ◌++◌, append_assoc, arith, Bytes, length,
  take, drop, length-append, take-append, drop-append, length-drop, length-take, drop-drop, ltb,
  le→ltb, if◌then◌else◌, Outcome, returns, throws, Exception, validation, codes,
}
use secure_file_transfer.Wire.Words.{
  put32be, get32be, be32, get64be, be64, get32be-be32, get64be-be64,
}

-- `putStringWithLen` and `putBytesWithLen`: the size is cast to 32 bits.
unfoldable pub put_field : Bytes → Bytes → Bytes
unfolding put32be
put_field v s = put32be v (length s % 2 ^ 32) ++ s

-- `getStringWithLen` and `getBytesWithLen`, which throw `std::runtime_error`, and the closures `read`,
-- `readStr` and `readBytes`, which throw `ValidationException` with the same messages.
unfoldable pub read_field : (Bytes → Exception) → Bytes → ℕ → Outcome (Bytes × ℕ)
read_field fail b off =
    if ltb (length b) (off + 4)
    then throws (fail (codes "short"))
    else let len = get32be (drop off b) in
      if ltb (length b) (off + 4 + len)
      then throws (fail (codes "short body"))
      else returns (take len (drop (off + 4) b), off + 4 + len)

-- `if(off+8>b.size()) throw ...; x = get64be(b.data()+off); off+=8;`
unfoldable pub read_u64 : Bytes → Bytes → ℕ → Outcome (ℕ × ℕ)
read_u64 message b off =
    if ltb (length b) (off + 8)
    then throws (validation message)
    else returns (get64be (drop off b), off + 8)

-- `if(off+32>b.size()) throw ...; std::copy(b.begin()+off, b.begin()+off+32, ...); off+=32;`
unfoldable pub read_digest : Bytes → ℕ → Outcome (Bytes × ℕ)
read_digest b off =
    if ltb (length b) (off + 32)
    then throws (validation (codes "short digest"))
    else returns (take 32 (drop off b), off + 32)

-- What `put_field` appends.
abbrev pub field : Bytes → Bytes
field s = be32 (length s) ++ s

pub put_field-eq-field : (v s : Bytes) → length s < 2 ^ 32 → put_field v s ≡ v ++ field s
unfolding put_field put32be
put_field-eq-field v s h =
    let whole : length s % 2 ^ 32 ≡ length s = omega arith in
    rw whole (append_assoc v (be32 (length s)) s)

-- The cursor stands before `rest` in the buffer.
pub record Cursor (b : Bytes) (off : ℕ) (rest : Bytes) : Type 0 where
  pub ahead : drop off b ≡ rest
  pub inside : off + length rest ≡ length b

pub Cursor-start : (b : Bytes) → Cursor b 0 b
Cursor-start b = record { ahead = refl; inside = omega arith }

-- Moving over a first part of what is ahead.
pub Cursor-skip :
    (b : Bytes) (off : ℕ) (s rest : Bytes)
    → Cursor b off (s ++ rest)
    → Cursor b (off + length s) rest
Cursor-skip b off s rest c = record {
  ahead = sym (drop-drop off (length s) b) ∙ ap (drop (length s)) c.ahead ∙ drop-append s rest;
  inside = omega (arith, c.inside, length-append s rest);
}

-- A field that was written is read back, and the cursor moves past it.
module _ (b : Bytes) (off : ℕ) (s rest : Bytes) (h : length s < 2 ^ 32)
    (c : Cursor b off (field s ++ rest)) where
  size_read : get32be (drop off b) ≡ length s
  size_read = ap get32be c.ahead ∙ get32be-be32 (length s) (s ++ rest) h

  body_read : take (length s) (drop (off + 4) b) ≡ s
  body_read =
      ap (take (length s)) (sym (drop-drop off 4 b) ∙ ap (drop 4) c.ahead) ∙ take-append s rest

  pub read-field :
      (fail : Bytes → Exception)
      → (read_field fail b off ≡ returns (s, off + length (field s)))
        × Cursor b (off + length (field s)) rest
  unfolding read_field
  read-field fail = (
    rw
        (
          le→ltb (length b) (off + 4) (omega (arith, c.inside, length-append s rest)),
          size_read,
          le→ltb (length b) (off + 4 + length s) (omega (arith, c.inside, length-append s rest)),
          body_read,
        )
        (ap (λ (k : ℕ). returns (s, k)) (omega arith)),
    Cursor-skip b off (field s) rest c,
  )

pub read-u64 :
    (message b : Bytes) (off x : ℕ) (rest : Bytes)
    → x < 2 ^ 64
    → Cursor b off (be64 x ++ rest)
    → (read_u64 message b off ≡ returns (x, off + 8)) × Cursor b (off + 8) rest
unfolding read_u64
read-u64 message b off x rest h c = (
  rw
      (
        le→ltb (length b) (off + 8) (omega (arith, c.inside)),
        ap get64be c.ahead ∙ get64be-be64 x rest h,
      )
      refl,
  Cursor-skip b off (be64 x) rest c,
)

pub read-digest :
    (b : Bytes) (off : ℕ) (d rest : Bytes)
    → length d ≡ 32
    → Cursor b off (d ++ rest)
    → (read_digest b off ≡ returns (d, off + 32)) × Cursor b (off + 32) rest
unfolding read_digest
read-digest b off d rest h c = (
  rw
      (
        le→ltb (length b) (off + 32) (omega (arith, c.inside, length-append d rest)),
        ap (take 32) c.ahead,
        ap (λ (k : ℕ). take k (d ++ rest)) (sym h) ∙ take-append d rest,
      )
      refl,
  rw (← h) (Cursor-skip b off d rest c),
)

-- Whatever the bytes are, a field that is read lies in the buffer: its length and the new offset
-- are those of the bytes that were skipped, and the offset stays within the buffer.
pub read_field-inside :
    (fail : Bytes → Exception) (b : Bytes) (off : ℕ) {s : Bytes} {off' : ℕ}
    → read_field fail b off ≡ returns (s, off')
    → (off' ≡ off + 4 + length s) × (off' ≤ length b)
unfolding read_field
read_field-inside fail b off e =
    ground (arith, length-take (get32be (drop off b)) (drop (off + 4) b), length-drop (off + 4) b)
