-- ===== src/StrictTypes/Canonical/Character.antt =====
-- A character that the decoder reads is one character to the encoder.
use rgb.Prelude.{
  ℕ, zero, suc, ◌-◌, ◌≤◌, ◌≡◌, refl, sym, ap, ◌∙◌, true, false, ◌&&◌, Option, none, some, [], ◌∷◌,
  ◌++◌, ltb, leb, ◌==◌, if◌then◌else◌, length as size, ok, foreign, guard, guard-pass, after_ok,
  after_some, after_guard, ◌>>=◌, ◌>>◌, arith,
}
use mathlib.Core.List.{append_assoc}
use rgb.Prelude.Bytes.{ByteString, codes}
use rgb.StrictEncoding.Encoder
use rgb.StrictEncoding.Decoder
use rgb.StrictTypes.Value.{Value, Attributes, attributes}
use rgb.StrictTypes.Text.{string_of}
use rgb.StrictTypes.Unicode.{Pending, utf8_valid, valid_from, first_byte, rune_count}
use rgb.StrictTypes.Decode.{decode_unicode, unicode_width, set_encoded, text_value_of}
use rgb.StrictTypes.Encode.{encode_unicode, raw_text}
use rgb.StrictTypes.Canonical.Wrote.{Rewrites, returned, Wrote-seq, Wrote-same, Wrote-raw, Wrote-u8}

leads :
    (first width : ℕ) (p : Pending)
    → unicode_width first ≡ some width
    → first_byte first ≡ some p
    → (width ≡ suc p.count)
      × (0x80 ≤ p.low)
      × (p.high ≤ 0xbf)
      × ((leb 0x80 first && ltb first 0xc0) ≡ false)
unfolding unicode_width first_byte
leads first width p h k = ground arith

follow :
    (n low high : ℕ) (bs : ByteString)
    → size bs ≡ n
    → 0x80 ≤ low
    → high ≤ 0xbf
    → valid_from n low high bs ≡ true
    → rune_count bs ≡ 0
unfolding valid_from rune_count
follow zero low high [] exact lo hi h = refl
follow zero low high (b ∷ bs) exact lo hi h = absurd (omega arith)
follow (suc n) low high [] exact lo hi h = refl
follow (suc n) low high (b ∷ bs) exact lo hi h =
    ground (arith, follow n 0x80 0xbf bs (omega arith) (omega arith) (omega arith))

one_character :
    (first width : ℕ) (more : ByteString)
    → unicode_width first ≡ some width
    → size more ≡ width - 1
    → utf8_valid (first ∷ more) ≡ true
    → (utf8_valid (first ∷ more) && rune_count (first ∷ more) == 1) ≡ true
unfolding utf8_valid valid_from rune_count
one_character first width more h exact valid = rw valid (counted (first_byte first) refl valid)
  where
    counted :
        (o : Option Pending)
        → first_byte first ≡ o
        → (elim o [ none ↦ false | some p ↦ valid_from p.count p.low p.high more ]) ≡ true
        → (rune_count (first ∷ more) == 1) ≡ true
    counted none e k = absurd (cc)
    counted (some p) e k =
        let (wide, lo, hi, lead) = leads first width p h e in
        unfold rune_count in
        ground (arith, lead, follow p.count p.low p.high more (omega arith) lo hi k)

-- A text that was read is its bytes.
pub raw_text_exact :
    (a : Attributes) (raw : ByteString) → a.raw ≡ raw → a.text ≡ string_of raw → raw_text a ≡ raw
unfolding string_of
raw_text_exact a raw same text =
    ap (λ t. if size t == 0 then codes a.text else t) same
    ∙ ap (λ t. if size raw == 0 then codes t else raw) text
    ∙ by_size raw
  where
    by_size : (raw : ByteString) → (if size raw == 0 then codes (string_of raw) else raw) ≡ raw
    by_size [] = unfold string_of in refl
    by_size (x ∷ xs) = ground arith

character_writes :
    (first : ℕ) (more b buf : ByteString)
    → (utf8_valid (first ∷ more) && rune_count (first ∷ more) == 1) ≡ true
    → encode_unicode (set_encoded b (text_value_of (first ∷ more))) buf
      ≡ (Encoder.u8 first buf >>= Encoder.raw more)
unfolding encode_unicode text_value_of Encoder.u8 Encoder.raw
character_writes first more b buf h =
    ap (λ t. guard (utf8_valid t && rune_count t == 1) foreign >> ok (buf ++ t))
      (raw_text_exact (attributes (set_encoded b (text_value_of (first ∷ more)))) (first ∷ more)
        refl refl)
    ∙ guard-pass (utf8_valid (first ∷ more) && rune_count (first ∷ more) == 1) foreign
        (ok (buf ++ (first ∷ more))) h
    ∙ ap (λ t. ok t) (sym (append_assoc buf (first ∷ []) more))

pub Wrote-unicode :
    (v : Value) (input rest : ByteString)
    → decode_unicode input ≡ ok (v, rest)
    → Rewrites encode_unicode v input rest
unfolding decode_unicode
Wrote-unicode v input rest h = after_ok (Decoder.u8 input) _ h (λ a read done.
    after_some foreign (unicode_width a.0) _ done (λ width wide done'.
      after_ok (Decoder.raw (width - 1) a.1) _ done' (λ more read' done''.
        after_guard (utf8_valid (a.0 ∷ more.0)) foreign _ done'' (λ valid last.
          let (wrote, exact) = Wrote-raw (width - 1) a.1 more.0 more.1 read' in
          returned encode_unicode input last (λ b.
            Wrote-same _ _ input more.1
              (λ buf.
                character_writes a.0 more.0 b buf (one_character a.0 width more.0 wide exact valid))
              (Wrote-seq (Encoder.u8 a.0) (Encoder.raw more.0) input a.1 more.1
                (Wrote-u8 input a.1 a.0 read) wrote))))))
