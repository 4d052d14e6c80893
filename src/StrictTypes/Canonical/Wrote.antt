-- ===== src/StrictTypes/Canonical/Wrote.antt =====
-- What an encoder writes for a value that was read: the bytes that were read.
use rgb.Prelude.{
  ℕ, ◌≤◌, ◌≡◌, refl, sym, ap, ◌∙◌, subst, Bool, true, false, [], ◌∷◌, ◌++◌, length as size, All,
  Result, ok, err, out_of_bounds, >>=-eq_ok, after_ok, ◌>>=◌, arith, ltb, not, ◌||◌, ◌&&◌,
  if◌then◌else◌,
}
use mathlib.Core.List.{append_assoc}
use rgb.Prelude.Bytes.{ByteString, IsByte, put_le, get_le}
use rgb.StrictEncoding.Encoder
use rgb.StrictEncoding.Encoder.{Encoder}
use rgb.StrictEncoding.Decoder
use rgb.StrictEncoding.Decoder.{width}
use rgb.StrictEncoding.RoundTrip.{length_writes}
use rgb.StrictEncoding.Canonical.{raw_splits, length_splits}
use rgb.StrictTypes.Value.{Value}
use rgb.StrictTypes.Decode.{set_encoded, decode_length}

-- Between two states of the reader stand the bytes that the encoder appends to any buffer.
abbrev pub Wrote : Encoder → ByteString → ByteString → Type 0
Wrote encode input rest =
    (w : ByteString) × (input ≡ w ++ rest) × ((buf : ByteString) → encode buf ≡ ok (buf ++ w))

pub Wrote-bytes :
    (encode : Encoder) (input rest : ByteString)
    → Wrote encode input rest
    → All IsByte input
    → All IsByte rest
Wrote-bytes encode input rest (w, split, _) h = back w (subst (All IsByte) split h)
  where
    back : (xs : ByteString) → All IsByte (xs ++ rest) → All IsByte rest
    back [] k = k
    back (x ∷ xs) k = back xs k.1

append_nil : (xs : ByteString) → xs ++ [] ≡ xs
append_nil [] = refl
append_nil (x ∷ xs) = ap (λ t. x ∷ t) (append_nil xs)

pub Wrote-nothing : (input : ByteString) → Wrote ok input input
Wrote-nothing input = ([], refl, λ buf. ap ok (sym (append_nil buf)))

pub Wrote-seq :
    (first second : Encoder) (input middle rest : ByteString)
    → Wrote first input middle
    → Wrote second middle rest
    → Wrote (λ buf. first buf >>= second) input rest
Wrote-seq first second input middle rest (w, split, writes) (w', split', writes') = (
  w ++ w',
  split ∙ ap (λ t. w ++ t) split' ∙ sym (append_assoc w w' rest),
  λ buf. ap (λ r. r >>= second) (writes buf) ∙ writes' (buf ++ w) ∙ ap ok (append_assoc buf w w'),
)

-- An encoder that does the same writes the same.
pub Wrote-same :
    (first second : Encoder) (input rest : ByteString)
    → ((buf : ByteString) → second buf ≡ first buf)
    → Wrote first input rest
    → Wrote second input rest
Wrote-same first second input rest same (w, split, writes) =
    (w, split, λ buf. same buf ∙ writes buf)

pub Wrote-raw :
    (n : ℕ) (input raw rest : ByteString)
    → Decoder.raw n input ≡ ok (raw, rest)
    → Wrote (Encoder.raw raw) input rest × (size raw ≡ n)
unfolding Encoder.raw
Wrote-raw n input raw rest h =
    let (split, exact, _) = raw_splits n input raw rest h in ((raw, split, λ buf. refl), exact)

value_of :
    (x t : ℕ) (r rest : ByteString)
    → ◌≡◌ {A = Result (ℕ × ByteString)} (ok (get_le (x ∷ []), r)) (ok (t, rest))
    → (x ≡ t) × (r ≡ rest)
unfolding get_le
value_of x t r rest e = ground arith

one_byte :
    (b rest' rest input : ByteString) (tag : ℕ)
    → input ≡ b ++ rest'
    → size b ≡ 1
    → ◌≡◌ {A = Result (ℕ × ByteString)} (ok (get_le b, rest')) (ok (tag, rest))
    → input ≡ (tag ∷ []) ++ rest
one_byte [] rest' rest input tag split exact done = absurd (omega arith)
one_byte (x ∷ y ∷ ys) rest' rest input tag split exact done = absurd (omega arith)
one_byte (x ∷ []) rest' rest input tag split exact done =
    let (value, tail) = value_of x tag rest' rest done in cc (split, value, tail)

pub Wrote-u8 :
    (input rest : ByteString) (tag : ℕ)
    → Decoder.u8 input ≡ ok (tag, rest)
    → Wrote (Encoder.u8 tag) input rest
unfolding Decoder.u8 Decoder.unsigned Encoder.u8 Encoder.raw
Wrote-u8 input rest tag h =
    let ((buf, rest'), read, done) = >>=-eq_ok (Decoder.raw 1 input) _ h in
    let (split, exact, _) = raw_splits 1 input buf rest' read in
    (tag ∷ [], one_byte buf rest' rest input tag split exact done, λ buf. refl)

-- Whatever encoding the value is given, it is written in the bytes that were read.
abbrev pub Rewrites : (Value → Encoder) → Value → ByteString → ByteString → Type 0
Rewrites encode v input rest = (b : ByteString) → Wrote (encode (set_encoded b v)) input rest

-- What holds of a result holds of the one that is returned.
same_result {ℓ} :
    {A : Type ℓ} (v w : A) (r s : ByteString)
    → ◌≡◌ {A = Result (A × ByteString)} (ok (v, r)) (ok (w, s))
    → (v ≡ w) × (r ≡ s)
same_result v w r s h = ground (arith, h)

pub returned_by {ℓ} :
    {A : Type ℓ} (Good : A → ByteString → Type 0) {v w : A} {r s : ByteString}
    → ◌≡◌ {A = Result (A × ByteString)} (ok (v, r)) (ok (w, s))
    → Good v r
    → Good w s
returned_by Good {v} {w} {r} {s} h given =
    let (value, left) = same_result v w r s h in
    subst (λ t. Good t s) value (subst (Good v) left given)

pub returned :
    (encode : Value → Encoder) {v w : Value} (input : ByteString) {r s : ByteString}
    → ◌≡◌ {A = Result (Value × ByteString)} (ok (v, r)) (ok (w, s))
    → Rewrites encode v input r
    → Rewrites encode w input s
returned encode input h = returned_by (λ t u. Rewrites encode t input u) h

pub after_if {ℓ κ} :
    {A : Type ℓ} {C : Type κ} (c : Bool) (x y : A) {r : A}
    → (if c then x else y) ≡ r
    → (c ≡ true → x ≡ r → C)
    → (c ≡ false → y ≡ r → C)
    → C
after_if true x y h f g = f refl h
after_if false x y h f g = g refl h

pub and_true : (x y : Bool) → x ≡ true → y ≡ true → (x && y) ≡ true
and_true true true h k = refl
and_true true false h k = absurd (cc)
and_true false y h k = absurd (cc)

-- A length that was read within its limits is written in the same bytes.
pub Wrote-length :
    (min max n : ℕ) (input rest : ByteString)
    → All IsByte input
    → decode_length min max input ≡ ok (n, rest)
    → (min ≤ n) × (n ≤ max) × Wrote (Encoder.length n max) input rest
unfolding decode_length
Wrote-length min max n input rest hb h = after_ok (Decoder.length max input) _ h (λ a read done.
    let (same, left, lo) = in_range a.0 a.1 done in
    let (hi, split) =
      length_splits max n input rest (read ∙ ap (λ t. ok t) (pair_eq a.0 n a.1 rest same left))
        hb in
    (lo, hi, (put_le (width max) n, split, λ buf. length_writes n max buf hi)))
  where
    pair_eq :
        (k n : ℕ) (left rest : ByteString)
        → k ≡ n
        → left ≡ rest
        → ◌≡◌ {A = ℕ × ByteString} (k, left) (n, rest)
    pair_eq k n left rest p q = cc (p, q)

    in_range :
        (k : ℕ) (left : ByteString)
        → ◌≡◌ {A = Result (ℕ × ByteString)}
            (if ltb k min then err out_of_bounds else ok (k, left))
            (ok (n, rest))
        → (k ≡ n) × (left ≡ rest) × (min ≤ n)
    in_range k left d = ground arith

pub within : (n min max : ℕ) → min ≤ n → n ≤ max → not (ltb n min || ltb max n) ≡ true
within n min max lo hi = ground arith
