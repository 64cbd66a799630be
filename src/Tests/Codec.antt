-- ===== src/Tests/Codec.antt =====
-- A codec of instants and floats, in unary, for the theorems on the streamer's CSV files.
use mathlib.Core.List.{reverse_aux}
use my_queue.Base.{
  ℕ, zero, suc, ◌≡◌, refl, ap, [], ◌∷◌, arith, ℤ, pos, negsuc, Str, length, ◌==◌, if◌then◌else◌,
}
use my_queue.Streamer.CsvBreaks.{LacksCr}
use my_queue.Streamer.Spaces.{IsTrimmed, space_len, space_len_back}
use my_queue.Streamer.Rows.{zero_time, Codec}
use my_queue.Streamer.RoundTrip.{IsPlain, CodecLaws}

-- Numbers in unary.
unfoldable pub unary : ℕ → Str
unary zero = []
unary (suc n) = b'x' ∷ unary n

length-unary : (n : ℕ) → length (unary n) ≡ n
unfolding unary
length-unary zero = refl
length-unary (suc n) = ap suc (length-unary n)

unary-LacksCr : (n : ℕ) → LacksCr (unary n)
unfolding unary
unary-LacksCr zero = tt
unary-LacksCr (suc n) = ((λ e. cc), unary-LacksCr n)

unary-space_len : (n : ℕ) → space_len (unary n) ≡ 0
unfolding unary space_len
unary-space_len zero = refl
unary-space_len (suc n) = refl

-- The last byte is no white space.
unary-back : (n : ℕ) (rest : Str) → space_len_back (reverse_aux (unary n) (b'x' ∷ rest)) ≡ 0
unfolding unary
unary-back zero rest = unfold space_len_back in ground arith
unary-back (suc n) rest = unary-back n (b'x' ∷ rest)

unary-IsTrimmed : (n : ℕ) → IsTrimmed (unary n)
unfolding unary
unary-IsTrimmed zero = (unary-space_len zero, unfold space_len_back in refl)
unary-IsTrimmed (suc n) = (unary-space_len (suc n), unary-back n [])

-- An instant begins with its sign.
abbrev unary_ℤ : ℤ → Str
unary_ℤ (pos n) = b'p' ∷ unary n
unary_ℤ (negsuc n) = b'n' ∷ unary n

abbrev read_unary_ℤ : Str → ℤ
read_unary_ℤ [] = zero_time
read_unary_ℤ (c ∷ cs) = if c == b'p' then pos (length cs) else negsuc (length cs)

signed-back :
    (c n : ℕ) → space_len_back (c ∷ []) ≡ 0 → space_len_back (reverse_aux (unary n) (c ∷ [])) ≡ 0
unfolding unary
signed-back c zero h = h
signed-back c (suc n) h = unary-back n (c ∷ [])

unary_ℤ-IsPlain : (t : ℤ) → IsPlain (unary_ℤ t)
unary_ℤ-IsPlain (pos n) = (
  (unfold space_len in refl, signed-back b'p' n (unfold space_len_back in refl)),
  ((λ e. cc), unary-LacksCr n),
)
unary_ℤ-IsPlain (negsuc n) = (
  (unfold space_len in refl, signed-back b'n' n (unfold space_len_back in refl)),
  ((λ e. cc), unary-LacksCr n),
)

read-unary_ℤ : (t : ℤ) → read_unary_ℤ (unary_ℤ t) ≡ t
read-unary_ℤ (pos n) = ap pos (length-unary n)
read-unary_ℤ (negsuc n) = ap negsuc (length-unary n)

abbrev pub test_codec : Codec
test_codec = record {
  format_time = unary_ℤ;
  parse_time = read_unary_ℤ;
  format_float = unary;
  parse_float = length;
}

pub test_codec_laws : CodecLaws test_codec
test_codec_laws = record {
  parse_time-nil = refl;
  parse-format_time = λ t h. read-unary_ℤ t;
  format_time-IsPlain = λ t h. unary_ℤ-IsPlain t;
  parse-format_float = λ n h. length-unary n;
  format_float-IsPlain = λ n h. (unary-IsTrimmed n, unary-LacksCr n);
}
