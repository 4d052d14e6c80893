-- ===== src/Consensus/TaggedHash.antt =====
-- consensus/tagged_hash.go. SHA-256 is the argument `sha256`; what a theorem asks of it is the
-- length of its digests and that it separates the messages which the code hashed.
use rgb.Prelude.{
  ◌≡◌, refl, Bool, true, not, ◌&&◌, ◌||◌, List, [], ◌∷◌, ◌++◌, arith, length, String, ap,
}
use rgb.Prelude.Bytes.{ByteString, bytes_eq, bytes_eq→eq, bytes_eq_refl, codes}

abbrev pub Hash : Type 0
Hash = ByteString → ByteString

abbrev pub join : List ByteString → ByteString
join [] = []
join (chunk ∷ chunks) = chunk ++ join chunks

unfoldable pub tagged_hash : Hash → String → List ByteString → ByteString
tagged_hash sha256 tag chunks =
    let tag_hash = sha256 (codes tag) in sha256 (tag_hash ++ (tag_hash ++ join chunks))

-- A digest has 32 bytes.
abbrev pub IsSized : ByteString → Type 0
IsSized digest = length digest ≡ 32

abbrev pub IsDigest : Hash → Type 0
IsDigest hash = (message : ByteString) → IsSized (hash message)

-- The hash separates the two messages: with one digest they are one message.
abbrev pub apart : Hash → ByteString → ByteString → Bool
apart hash x y = not (bytes_eq (hash x) (hash y)) || bytes_eq x y

abbrev pub apart_from : Hash → ByteString → List ByteString → Bool
apart_from hash x [] = true
apart_from hash x (y ∷ ys) = apart hash x y && apart_from hash x ys

-- No message of the first list collides with another one of the second: what the theorems ask of
-- the hash, at the messages that the code gave to it.
abbrev pub all_apart : Hash → List ByteString → List ByteString → Bool
all_apart hash [] ys = true
all_apart hash (x ∷ xs) ys = apart_from hash x ys && all_apart hash xs ys

pub apart-eq : (hash : Hash) (x y : ByteString) → apart hash x y ≡ true → hash x ≡ hash y → x ≡ y
apart-eq hash x y a e =
    ground (arith, bytes_eq→eq x y, bytes_eq_refl (hash x), ap (bytes_eq (hash x)) e, a)

pub apart_from-append :
    (hash : Hash) (x : ByteString) (ys zs : List ByteString)
    → apart_from hash x (ys ++ zs) ≡ true
    → (apart_from hash x ys ≡ true) × (apart_from hash x zs ≡ true)
apart_from-append hash x [] zs h = (refl, h)
apart_from-append hash x (y ∷ ys) zs h = ground (arith, apart_from-append hash x ys zs)

module _ (hash : Hash) where
  pub all_apart-append_right :
      (xs ys zs : List ByteString)
      → all_apart hash xs (ys ++ zs) ≡ true
      → (all_apart hash xs ys ≡ true) × (all_apart hash xs zs ≡ true)
  all_apart-append_right [] ys zs h = (refl, refl)
  all_apart-append_right (x ∷ xs) ys zs h =
      ground (arith, all_apart-append_right xs ys zs, apart_from-append hash x ys zs)

  pub all_apart-append_left :
      (xs ys zs : List ByteString)
      → all_apart hash (xs ++ ys) zs ≡ true
      → (all_apart hash xs zs ≡ true) × (all_apart hash ys zs ≡ true)
  all_apart-append_left [] ys zs h = (refl, h)
  all_apart-append_left (x ∷ xs) ys zs h = ground (arith, all_apart-append_left xs ys zs)

  -- The heads are apart, and so are the parts of two concatenations that stand in one place.
  pub all_apart-node :
      (x y : ByteString) (ls rs ls' rs' : List ByteString)
      → all_apart hash (x ∷ ls ++ rs) (y ∷ ls' ++ rs') ≡ true
      → (apart hash x y ≡ true) × (all_apart hash ls ls' ≡ true) × (all_apart hash rs rs' ≡ true)
  all_apart-node x y ls rs ls' rs' h =
      let tails = all_apart-append_right (ls ++ rs) (y ∷ []) (ls' ++ rs') (rest h) in
      let (left, right) = all_apart-append_left ls rs (ls' ++ rs') tails.1 in
      (
        first h,
        (all_apart-append_right ls ls' rs' left).0,
        (all_apart-append_right rs ls' rs' right).1,
      )
    where
      first : all_apart hash (x ∷ ls ++ rs) (y ∷ ls' ++ rs') ≡ true → apart hash x y ≡ true
      first h = ground arith

      rest :
          all_apart hash (x ∷ ls ++ rs) (y ∷ ls' ++ rs') ≡ true
          → all_apart hash (ls ++ rs) (y ∷ ls' ++ rs') ≡ true
      rest h = ground arith

  pub all_apart-cons :
      (x y : ByteString) (xs ys : List ByteString)
      → all_apart hash (x ∷ xs) (y ∷ ys) ≡ true
      → (apart hash x y ≡ true) × (all_apart hash xs ys ≡ true)
  all_apart-cons x y xs ys h = (first h, (all_apart-append_right xs (y ∷ []) ys (rest h)).1)
    where
      first : all_apart hash (x ∷ xs) (y ∷ ys) ≡ true → apart hash x y ≡ true
      first h = ground arith

      rest : all_apart hash (x ∷ xs) (y ∷ ys) ≡ true → all_apart hash xs (y ∷ ys) ≡ true
      rest h = ground arith
