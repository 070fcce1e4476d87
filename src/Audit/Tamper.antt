-- ===== src/Audit/Tamper.antt =====
-- What the hashes of a verified audit log fix.
use secure_file_transfer.Base.{
  ℕ, ◌≡◌, refl, sym, ◌∙◌, ◌⊎◌, inl, inr, true, List, [], ◌∷◌, map, Bytes, is_empty, if◌then◌else◌,
}
use secure_file_transfer.Audit.{Formats, parse, canonical, verify}
use secure_file_transfer.Audit.Chain.{Chained, ended, blank, linked, verify-Chained}

-- An element of a list.
abbrev pub Among : Bytes → List Bytes → Type 0
Among x [] = ⊥
Among x (y ∷ ys) = (x ≡ y) ⊎ Among x ys

-- The stored hashes, and the canonical texts of the events, of the lines that are not empty.
unfoldable pub stored_hashes : Formats → List Bytes → List Bytes
stored_hashes io [] = []
stored_hashes io (l ∷ ls) =
    let rest = stored_hashes io ls in if is_empty l then rest else (parse io l).msg_hash ∷ rest

unfoldable pub texts : Formats → List Bytes → List Bytes
texts io [] = []
texts io (l ∷ ls) =
    let rest = texts io ls in if is_empty l then rest else canonical io (parse io l) ∷ rest

map-inj :
    (f : Bytes → Bytes) (xs ys : List Bytes)
    → ((x y : Bytes) → Among x xs → Among y ys → f x ≡ f y → x ≡ y)
    → map f xs ≡ map f ys
    → xs ≡ ys
map-inj f [] [] h e = refl
map-inj f [] (y ∷ ys) h e = absurd (cc)
map-inj f (x ∷ xs) [] h e = absurd (cc)
map-inj f (x ∷ xs) (y ∷ ys) h e =
    let heads : f x ≡ f y = cc in
    let tails : map f xs ≡ map f ys = cc in
    let same : x ≡ y = h x y (inl refl) (inl refl) heads in
    let rest = map-inj f xs ys (λ a b p q. h a b (inr p) (inr q)) tails in cc

hashes-texts :
    (io : Formats) {prev : Bytes} {n : ℕ} {ls : List Bytes}
    → Chained io prev n ls
    → stored_hashes io ls ≡ map io.sha256_hex (texts io ls)
unfolding stored_hashes texts
hashes-texts io ended = refl
hashes-texts io (blank e c) = rw e (hashes-texts io c)
hashes-texts io (linked e seq prev_hash hash c) = rw (e, hash, hashes-texts io c) refl

-- Two logs that `verify` accepts and that store the same hashes hold the same events, in their
-- canonical text, unless two different texts of theirs have one hash.
pub verify-tamper :
    (io : Formats) (ls ks : List Bytes)
    → verify io ls ≡ true
    → verify io ks ≡ true
    → ((x y : Bytes)
        → Among x (texts io ls)
        → Among y (texts io ks)
        → io.sha256_hex x ≡ io.sha256_hex y
        → x ≡ y)
    → stored_hashes io ls ≡ stored_hashes io ks
    → texts io ls ≡ texts io ks
verify-tamper io ls ks good_ls good_ks no_collision same =
    let one = hashes-texts io ((verify-Chained io ls).0 good_ls) in
    let two = hashes-texts io ((verify-Chained io ks).0 good_ks) in
    map-inj io.sha256_hex (texts io ls) (texts io ks) no_collision (sym one ∙ same ∙ two)
