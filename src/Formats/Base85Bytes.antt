-- ===== src/Formats/Base85Bytes.antt =====
-- What consignment/base85.go decodes a text to.
use rgb.Prelude.{
  ℕ, suc, ◌+◌, ◌*◌, ◌^◌, ◌/◌, ◌%◌, ◌<◌, ◌==◌, not, ◌≡◌, refl, true, [], ◌∷◌, ◌++◌, take, length,
  length-append, All, All-append, ok, subst, ok_inj, after_ok, after_guard, arith, All-take,
}
use rgb.Prelude.Bytes.{ByteString, IsByte}
use rgb.Formats.Base85.{decode_char, unblock, decode_groups, decode_base85}

-- Bytes, and some of them.
pub record AreBytes (bs : ByteString) : Type 0 where
  pub bytes : All IsByte bs
  pub filled : 0 < length bs

block_bytes :
    (v : ℕ)
    → v < 2 ^ 32
    → All IsByte (v / 2 ^ 24 ∷ v / 2 ^ 16 % 256 ∷ v / 2 ^ 8 % 256 ∷ v % 256 ∷ [])
block_bytes v h = (omega arith, (omega arith, (omega arith, (omega arith, tt))))

unblock-bytes : (p q r s t : ℕ) → All IsByte (unblock p q r s t)
unfolding unblock
unblock-bytes p q r s t =
    block_bytes ((p * 85 ^ 4 + q * 85 ^ 3 + r * 85 ^ 2 + s * 85 + t) % 2 ^ 32) (omega arith)

length-unblock : (p q r s t : ℕ) → length (unblock p q r s t) ≡ 4
unfolding unblock
length-unblock p q r s t = refl

whole_block :
    (p q r s t : ℕ) (later : ByteString) → All IsByte later → AreBytes (unblock p q r s t ++ later)
whole_block p q r s t later h = record {
  bytes = All-append IsByte (unblock p q r s t) later (unblock-bytes p q r s t) h;
  filled = omega (arith, length-append (unblock p q r s t) later, length-unblock p q r s t);
}

part_block : (n p q r s t : ℕ) → AreBytes (take (suc n) (unblock p q r s t))
unfolding unblock
part_block n p q r s t = record {
  bytes = All-take IsByte (suc n) (unblock p q r s t) (unblock-bytes p q r s t);
  filled = omega arith;
}

-- A text that is not empty decodes to bytes, and not to none.
decode_groups-AreBytes :
    (text content : ByteString)
    → 0 < length text
    → decode_groups text ≡ ok content
    → AreBytes content
unfolding decode_groups
decode_groups-AreBytes [] content h k = absurd (omega arith)
decode_groups-AreBytes (p ∷ []) content h k = absurd (cc)
decode_groups-AreBytes (p ∷ q ∷ []) content h k = after_ok (decode_char p) _ k λ d0 _ k1.
    after_ok (decode_char q) _ k1
      λ d1 _ k2. subst AreBytes (ok_inj k2) (part_block 0 d0 d1 84 84 84)
decode_groups-AreBytes (p ∷ q ∷ r ∷ []) content h k = after_ok (decode_char p) _ k λ d0 _ k1.
    after_ok (decode_char q) _ k1 λ d1 _ k2.
      after_ok (decode_char r) _ k2
        λ d2 _ k3. subst AreBytes (ok_inj k3) (part_block 1 d0 d1 d2 84 84)
decode_groups-AreBytes (p ∷ q ∷ r ∷ s ∷ []) content h k = after_ok (decode_char p) _ k λ d0 _ k1.
    after_ok (decode_char q) _ k1 λ d1 _ k2. after_ok (decode_char r) _ k2 λ d2 _ k3.
      after_ok (decode_char s) _ k3
        λ d3 _ k4. subst AreBytes (ok_inj k4) (part_block 2 d0 d1 d2 d3 84)
decode_groups-AreBytes (p ∷ q ∷ r ∷ s ∷ t ∷ rest) content h k =
    after_ok (decode_char p) _ k λ d0 _ k1. after_ok (decode_char q) _ k1 λ d1 _ k2.
      after_ok (decode_char r) _ k2 λ d2 _ k3. after_ok (decode_char s) _ k3 λ d3 _ k4.
        after_ok (decode_char t) _ k4 λ d4 _ k5. after_ok (decode_groups rest) _ k5 λ later read k6.
          subst AreBytes (ok_inj k6) (
            whole_block d0 d1 d2 d3 d4 later
              (rest_bytes rest later read (λ g. decode_groups-AreBytes rest later g read)))
  where
    rest_bytes :
        (text found : ByteString)
        → decode_groups text ≡ ok found
        → (0 < length text → AreBytes found)
        → All IsByte found
    rest_bytes [] found e step = subst (All IsByte) (ok_inj e) tt
    rest_bytes (c ∷ cs) found e step = (step (omega arith)).bytes

pub decode_base85-AreBytes :
    (text content : ByteString)
    → (not (length text == 0)) ≡ true
    → decode_base85 text ≡ ok content
    → AreBytes content
unfolding decode_base85
decode_base85-AreBytes text content h k =
    after_guard (not (length text % 5 == 1)) _ _ k
      λ _ k1. decode_groups-AreBytes text content (ground (arith, h)) k1
